-- ===== src/Pipeline/Whole.antt =====
-- A transfer's way through a whole pipeline of relayer/ibcv2/pipeline.go: the wrapped steps, and then
-- the last step, which closes the row of a complete transfer.
use platform_relayer.Common.{
  ℕ, ◌≡◌, ◌≢◌, refl, ap, ◌∙◌, Bool, true, false, none, some, is_some, Option-cases, Bool-cases, inl,
  inr, ◌⊎◌, arith,
}
use platform_relayer.Errors.{Result, ok, err}
use platform_relayer.Db.{
  Status, Row, find_row, is_finished, set_columns, update_transfer_state, query_key,
}
use platform_relayer.Db.Laws.{find_row-execute_self}
use platform_relayer.Transfer.{Transfer, transfer_key, has_errored, is_complete}
use platform_relayer.Bridge.{World, Environment, M, bind_result, exec}
use platform_relayer.Consistency.{Synced, stored_progress, follow, Synced-execute}
use platform_relayer.Consistency.Outcomes.{Outcome, returned, failed}
use platform_relayer.Consistency.Wrapped.{SyncedUnlessErrored, Carried}
use platform_relayer.Batch.Recv.{Route}
use platform_relayer.Processors.StateFinisher.{final_state, finish, process}
use platform_relayer.Processors.Finished.{final_state-finished}
use platform_relayer.Pipeline.Options.{PipelineOptions}
use platform_relayer.Pipeline.Steps.{new_pipeline}
use platform_relayer.Pipeline.Run.{run}
use platform_relayer.Pipeline.Sync.{new_pipeline-Carried}

-- `NewPipeline` with its last step.
unfoldable pub run_pipeline :
    Bool → Route → PipelineOptions → (ℕ → Environment) → Environment → Transfer → M Transfer
unfolding process run
run_pipeline priced r o envs last t w =
    bind_result (run (new_pipeline priced r o) envs t w)
      (process o.should_relay_success_acks o.should_relay_error_acks last)

-- How a transfer comes out of a pipeline.
pub data Ending (success_acks error_acks : Bool) (w : World) (t : Transfer) : Type 0 where
  errored : has_errored t ≡ true → Ending success_acks error_acks w t
  incomplete : is_complete success_acks error_acks t ≡ false → Ending success_acks error_acks w t
  unanswered :
      t.timeout_tx_hash ≡ none → t.write_ack_status ≡ none → Ending success_acks error_acks w t
  closed :
      (r : Row)
      → find_row (transfer_key t) w.rows ≡ some r
      → is_finished r.status ≡ true
      → is_finished t.state ≡ true
      → Ending success_acks error_acks w t

pub record Ended (success_acks error_acks : Bool) (w : World) (t : Transfer) (w' : World)
    (t' : Transfer) : Type 0 where
  pub carried : Carried w t w' t'
  pub ending : Ending success_acks error_acks w' t'

-- A transfer that agrees with a table has a row there.
Synced-row :
    (w : World) (t : Transfer)
    → Synced w.rows t
    → (r : Row) × (find_row (transfer_key t) w.rows ≡ some r)
unfolding stored_progress
Synced-row w t s = elim (Option-cases (find_row (transfer_key t) w.rows)) [
  | inl missing ↦ absurd (ground (arith, missing, s))
  | inr found ↦ found
]

finish-Ended :
    (success_acks error_acks : Bool) (env : Environment) (t : Transfer) (w : World) (s : Status)
    → is_finished s ≡ true
    → has_errored t ≡ false
    → Synced w.rows t
    → Outcome (Ended success_acks error_acks w t) (finish env t s w)
unfolding finish exec has_errored query_key follow set_columns
finish-Ended success_acks error_acks env t w s final quiet synced =
    let q = update_transfer_state s (transfer_key t) in
    elim (Option-cases (env.query_error q)) [
      | inl passes ↦
          let (r, found) = Synced-row w t synced in
          rw (passes, exec)
            (returned (record {
              carried = record {
                synced = λ v. Synced-execute q w.rows t refl synced;
                same_key = refl;
              };
              ending =
                  closed (record r { status = s }) (rw (find_row-execute_self q w.rows, found) refl)
                    final final;
            }))
      | inr (e, failure) ↦
          rw (failure, exec)
            (returned (record {
              carried = record { synced = λ v. absurd (ground (arith, v)); same_key = refl };
              ending = errored refl;
            }))
    ]

final_state-none :
    (t : Transfer) → t.timeout_tx_hash ≡ none → t.write_ack_status ≡ none → final_state t ≡ none
unfolding final_state
final_state-none t pending missing = rw (pending, missing) refl

-- The last step.
last-Ended :
    (success_acks error_acks : Bool) (env : Environment) (t : Transfer) (w : World)
    → SyncedUnlessErrored w t
    → Outcome (Ended success_acks error_acks w t) (process success_acks error_acks env t w)
unfolding process
last-Ended success_acks error_acks env t w s =
    let same : Carried w t w t = record { synced = s; same_key = refl } in
    elim (Bool-cases (has_errored t)) [
      | inl failure ↦ rw failure (returned (record { carried = same; ending = errored failure }))
      | inr quiet ↦ elim (Bool-cases (is_complete success_acks error_acks t)) [
        | inr open_still ↦
            rw (quiet, open_still)
              (returned (record { carried = same; ending = incomplete open_still }))
        | inl complete ↦ elim (answered t) [
          | inr (pending, missing) ↦
              rw (quiet, complete, final_state-none t pending missing)
                (returned (record { carried = same; ending = unanswered pending missing }))
          | inl known ↦
              let (status, e, final) = final_state-finished t known in
              rw (quiet, complete, e)
                (finish-Ended success_acks error_acks env t w status final quiet (s quiet))
        ]
      ]
    ]
  where
    answered :
        (t : Transfer)
        → (is_some t.timeout_tx_hash ≡ true ⊎ is_some t.write_ack_status ≡ true)
          ⊎ ((t.timeout_tx_hash ≡ none) × (t.write_ack_status ≡ none))
    answered t = elim (Option-cases t.timeout_tx_hash) [
      | inr (h, timed) ↦ inl (inl (ap is_some timed))
      | inl pending ↦ elim (Option-cases t.write_ack_status) [
        | inr (a, acked) ↦ inl (inr (ap is_some acked))
        | inl missing ↦ inr (pending, missing)
      ]
    ]

-- A transfer of a named chain whose progress is that of its row (the state, the time of the source tx's
-- finality, the hashes and times of the recv, write ack, ack and timeout txs, the relayer of the recv tx
-- and the write ack status) and that goes through a whole pipeline, in batches of its own, comes out,
-- whatever the chains and the database answer on the way, with the same key and,
-- unless it carries an error, still with the progress of its row. It carries an error, or it is not
-- complete, or nothing is known of a timeout or an ack status, or its row is there in a final
-- state. Otherwise the pipeline stops with an error that has a text.
pub run_pipeline-Ended :
    (priced : Bool) (r : Route) (o : PipelineOptions) (envs : ℕ → Environment) (last : Environment)
    (t : Transfer) (w : World)
    → t.source_chain_id ≢ ""
    → SyncedUnlessErrored w t
    → Outcome
        (Ended o.should_relay_success_acks o.should_relay_error_acks w t)
        (run_pipeline priced r o envs last t w)
unfolding run_pipeline bind_result has_errored
run_pipeline-Ended priced r o envs last t w named s =
    closing (run (new_pipeline priced r o) envs t w)
      (new_pipeline-Carried priced r o envs t w named s)
  where
    widened :
        {w' : World} {t' : Transfer} (first : Carried w t w' t') (out : World × Result Transfer)
        → Outcome (Ended o.should_relay_success_acks o.should_relay_error_acks w' t') out
        → Outcome (Ended o.should_relay_success_acks o.should_relay_error_acks w t) out
    widened first (u, ok v) (returned c) = returned (record {
      carried = record {
        synced = c.carried.synced;
        same_key = c.carried.same_key ∙ first.same_key;
      };
      ending = c.ending;
    })
    widened first (u, err e) (failed text) = failed text

    closing :
        (out : World × Result Transfer)
        → Outcome (Carried w t) out
        → Outcome
            (Ended o.should_relay_success_acks o.should_relay_error_acks w t)
            (bind_result out (process o.should_relay_success_acks o.should_relay_error_acks last))
    closing (w', ok t') (returned first) = widened first _ (last-Ended _ _ last t' w' first.synced)
    closing (w', err e) (failed text) = failed text
