-- ===== src/Dispatcher/Unroutable.antt =====
-- Transfers for which no pipeline can be made.
use platform_relayer.Common.{
  ℕ, String, ◌≡◌, refl, false, List, [], ◌∷◌, ◌++◌, none, some, arith, Option-cases, Bool-cases,
  inl, inr,
}
use platform_relayer.Errors.{Error, ok, err, errors_is, Result-cases, transfer_already_in_pipeline}
use platform_relayer.Db.{
  Row, query_key, set_columns, failed, execute, find_row, update_transfer_state,
}
use platform_relayer.Db.Laws.{find_row-execute_self}
use platform_relayer.Transfer.{Transfer, new_transfer, transfer_key}
use platform_relayer.Bridge.{World, Environment, exec}
use platform_relayer.Config.{ChainConfig, create_indexes, get_chain_config}
use platform_relayer.Pipeline.Options.{new_pipeline_opts}
use platform_relayer.Dispatcher.Alert.{alert, panics}
use platform_relayer.Dispatcher.Manager.{RunningPipeline, new_pipeline_key, lookup, pipeline}
use platform_relayer.Dispatcher.Submit.{
  Relayer, is_panic, submit_transfer, after_submit, submit_rows,
}

-- The alert on a transfer between two configured chains panics if its source has no ibcv2 section.
alert-panics :
    (chains : List ChainConfig) (t : Transfer) (now : ℕ) (source destination : ChainConfig)
    → get_chain_config chains t.source_chain_id ≡ ok source
    → get_chain_config chains t.destination_chain_id ≡ ok destination
    → source.ibcv2 ≡ none
    → alert chains now t ≡ panics
unfolding alert
alert-panics chains t now source destination es ed missing = ground (arith, es, ed, missing)

-- One transfer between two configured chains of which the source has no ibcv2 section ends a poll
-- in a panic, wherever its row stands, before the transfer could be marked as failed.
pub submit_rows-panics :
    (chains : List ChainConfig) (env : Environment) (rows more : List Row) (r : Row) (s : Relayer)
    (source destination : ChainConfig)
    → get_chain_config chains r.source_chain_id ≡ ok source
    → get_chain_config chains r.destination_chain_id ≡ ok destination
    → source.ibcv2 ≡ none
    → submit_rows chains env (rows ++ r ∷ more) s ≡ none
unfolding submit_rows new_transfer
submit_rows-panics chains env [] more r s source destination es ed missing =
    rw (alert-panics chains (new_transfer r) env.now source destination es ed missing) refl
submit_rows-panics chains env (x ∷ rows) more r s source destination es ed missing =
    elim (Bool-cases (is_panic (alert chains env.now (new_transfer x)))) [
      | inl stop ↦ rw stop refl
      | inr go ↦ rw go (
          submit_rows-panics chains env rows more r
            (after_submit env (new_transfer x) s.world
              (submit_transfer chains (new_transfer x) s.pipelines))
            source destination es ed missing)
    ]

chain_not_queued :
    (chains : List ChainConfig) (id : String) (e : Error)
    → get_chain_config chains id ≡ err e
    → errors_is e transfer_already_in_pipeline ≡ false
unfolding get_chain_config
chain_not_queued chains id e h = elim (Option-cases (create_indexes (λ _. none) chains id)) [
  | inl missing ↦ ground (arith, missing)
  | inr (c, found) ↦ absurd (ground (arith, found))
]

not_queued :
    (chains : List ChainConfig) (t : Transfer) (e : Error)
    → new_pipeline_opts chains t ≡ err e
    → errors_is e transfer_already_in_pipeline ≡ false
unfolding new_pipeline_opts
not_queued chains t e h = elim (Result-cases (get_chain_config chains t.source_chain_id)) [
  | inr (e₁, es) ↦ ground (arith, es, chain_not_queued chains t.source_chain_id e₁ es)
  | inl (source, es) ↦ elim (Result-cases (get_chain_config chains t.destination_chain_id)) [
    | inr (e₁, ed) ↦ ground (arith, es, ed, chain_not_queued chains t.destination_chain_id e₁ ed)
    | inl (destination, ed) ↦ elim (Option-cases source.ibcv2) [
      | inl missing ↦ ground (arith, es, ed, missing)
      | inr (si, is) ↦ elim (Option-cases destination.ibcv2) [
        | inl missing ↦ ground (arith, es, ed, is, missing)
        | inr (di, id) ↦ absurd (ground (arith, es, ed, is, id))
      ]
    ]
  ]
]

failed_submission :
    (chains : List ChainConfig) (env : Environment) (t : Transfer) (w : World)
    (pipelines : List RunningPipeline) (e : Error)
    → lookup (new_pipeline_key t) pipelines ≡ none
    → new_pipeline_opts chains t ≡ err e
    → env.query_error (update_transfer_state failed (transfer_key t)) ≡ none
    → after_submit env t w (submit_transfer chains t pipelines) ≡ record {
      pipelines = pipelines;
      world = record w { rows = execute (update_transfer_state failed (transfer_key t)) w.rows };
    }
unfolding submit_transfer pipeline after_submit exec
failed_submission chains env t w pipelines e missing unmade passes =
    ground (arith, missing, unmade, not_queued chains t e unmade, passes)

-- In a poll of one row, where the latency alert on its transfer does not panic and no pipeline runs for
-- its route: if the options of a pipeline cannot be made for it, it is marked as failed in its row in
-- the table, where the database takes the update, and no pipeline changes.
pub submit_rows-fails :
    (chains : List ChainConfig) (env : Environment) (r stored : Row) (s : Relayer) (e : Error)
    → let t = new_transfer r in
      is_panic (alert chains env.now t) ≡ false
      → lookup (new_pipeline_key t) s.pipelines ≡ none
      → new_pipeline_opts chains t ≡ err e
      → env.query_error (update_transfer_state failed (transfer_key t)) ≡ none
      → find_row (transfer_key t) s.world.rows ≡ some stored
      → (s' : Relayer) × (submit_rows chains env (r ∷ []) s ≡ some s')
        × (s'.pipelines ≡ s.pipelines)
        × (find_row (transfer_key t) s'.world.rows ≡ some (record stored { status = failed }))
unfolding submit_rows query_key set_columns
submit_rows-fails chains env r stored s e quiet missing unmade passes found =
    let t = new_transfer r in
    let q = update_transfer_state failed (transfer_key t) in
    (
      record { pipelines = s.pipelines; world = record s.world { rows = execute q s.world.rows } },
      ground (
        arith,
        quiet,
        failed_submission chains env t s.world s.pipelines e missing unmade passes,
      ),
      refl,
      rw (find_row-execute_self q s.world.rows, found) refl,
    )
