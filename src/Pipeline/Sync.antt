-- ===== src/Pipeline/Sync.antt =====
-- The transfer in memory and its row, all the way through a pipeline.
use platform_relayer.Common.{
  ℕ, suc, ◌≢◌, refl, sym, ap, ◌∙◌, Bool, not, List, [], ◌∷◌, ◌++◌, arith, Bool-cases, inl, inr,
  str_eq, ◌==◌, ◌&&◌, String,
}
use platform_relayer.Errors.{Result, ok, err}
use platform_relayer.Db.{PacketKey}
use platform_relayer.Transfer.{Transfer, has_errored}
use platform_relayer.Bridge.{World, Environment, M, bind_result}
use platform_relayer.Middleware.{Processor, is_failed}
use platform_relayer.Consistency.Outcomes.{Outcome, returned, failed}
use platform_relayer.Consistency.Steps.{
  KeepsSync, check_recv-KeepsSync, check_commitment-KeepsSync, check_send_finality-KeepsSync,
  check_timeout_finality-KeepsSync, retry_recv-KeepsSync, retry_ack-KeepsSync,
  retry_timeout-KeepsSync, recv_gas-KeepsSync, ack_gas-KeepsSync, timeout_gas-KeepsSync,
  wait_for_write_ack-KeepsSync, check_write_ack_finality-KeepsSync,
}
use platform_relayer.Consistency.Wrapped.{SyncedUnlessErrored, Carried, process_mw-Carried}
use platform_relayer.Batch.Submit.{BatchProcessor}
use platform_relayer.Batch.Recv.{Route}
use platform_relayer.Batch.Middleware.{is_skipped}
use platform_relayer.Batch.Alone.{KeepsAlone, recv-KeepsAlone, ack-KeepsAlone, timeout-KeepsAlone}
use platform_relayer.Pipeline.Options.{PipelineOptions}
use platform_relayer.Pipeline.Steps.{
  Step, single, batched, if_priced, new_pipeline, timeout_gas, recv_gas, ack_gas,
}
use platform_relayer.Pipeline.Run.{run_step, run, AllKeep, stopped-Carried, entered-Carried}

batched-Carried :
    (b : BatchProcessor)
    → KeepsAlone b.process
    → (env : Environment) (t : Transfer) (w : World) → SyncedUnlessErrored w t
    → Outcome (Carried w t) (run_step (batched b) env t w)
unfolding run_step is_skipped
batched-Carried b keeps env t w s =
    let skipped : Carried w t w t = record { synced = s; same_key = refl } in
    elim (Bool-cases (has_errored t)) [
      | inl errored ↦ rw errored (returned skipped)
      | inr quiet ↦ rw quiet (elim (Bool-cases (b.should_process env t)) [
        | inr skip ↦ rw skip (returned skipped)
        | inl due ↦ rw due (elim (Bool-cases (is_failed t.state)) [
          | inl stopped ↦ stopped-Carried b keeps env t w stopped s
          | inr live ↦ entered-Carried b keeps env t w (ground (arith, quiet, due, live)) quiet s
        ])
      ])
    ]

-- One step after the other.
bind-Carried :
    (w : World) (t : Transfer) (o : World × Result Transfer) (f : Transfer → M Transfer)
    → Outcome (Carried w t) o
    → ((w' : World) (t' : Transfer) → Carried w t w' t' → Outcome (Carried w' t') (f t' w'))
    → Outcome (Carried w t) (bind_result o f)
unfolding bind_result
bind-Carried w t (w', ok t') f (returned first) rest = widened (f t' w') (rest w' t' first)
  where
    widened : (o : World × Result Transfer) → Outcome (Carried w' t') o → Outcome (Carried w t) o
    widened (u, ok v) (returned c) =
        returned (record { synced = c.synced; same_key = c.same_key ∙ first.same_key })
    widened (u, err e) (failed text) = failed text
bind-Carried w t (w', err e) f (failed text) rest = failed text

run-Carried :
    (steps : List Step)
    → AllKeep steps
    → (envs : ℕ → Environment) (t : Transfer) (w : World) → t.source_chain_id ≢ ""
    → SyncedUnlessErrored w t
    → Outcome (Carried w t) (run steps envs t w)
unfolding run run_step
run-Carried [] keep envs t w named s = returned (record { synced = s; same_key = refl })
run-Carried (single p ∷ steps) (keep, more) envs t w named s =
    bind-Carried w t _ _ (process_mw-Carried p keep (envs 0) t w named s) (λ w' t' c.
      run-Carried steps more (λ n. envs (suc n)) t' w'
        (λ e. named (sym (ap PacketKey.chain c.same_key) ∙ e)) c.synced)
run-Carried (batched b ∷ steps) (keep, more) envs t w named s =
    bind-Carried w t _ _ (batched-Carried b keep (envs 0) t w s) (λ w' t' c.
      run-Carried steps more (λ n. envs (suc n)) t' w'
        (λ e. named (sym (ap PacketKey.chain c.same_key) ∙ e)) c.synced)

AllKeep-append : (xs ys : List Step) → AllKeep xs → AllKeep ys → AllKeep (xs ++ ys)
AllKeep-append [] ys a b = b
AllKeep-append (single p ∷ xs) ys (first, more) b = (first, AllKeep-append xs ys more b)
AllKeep-append (batched p ∷ xs) ys (first, more) b = (first, AllKeep-append xs ys more b)

AllKeep-if_priced :
    (priced : Bool) (id : String) (decimals : ℕ) (p : Processor)
    → KeepsSync p.process
    → AllKeep (if_priced priced id decimals p)
AllKeep-if_priced priced id decimals p keep =
    elim (Bool-cases (not (str_eq id "") && (not (decimals == 0) && priced))) [
      | inl included ↦ rw included (keep, tt)
      | inr omitted ↦ rw omitted tt
    ]

new_pipeline-AllKeep :
    (priced : Bool) (r : Route) (o : PipelineOptions) → AllKeep (new_pipeline priced r o)
unfolding new_pipeline
new_pipeline-AllKeep priced r o = (
  check_recv-KeepsSync,
  (
    check_commitment-KeepsSync,
    (
      check_send_finality-KeepsSync o.source_finality_offset,
      (
        check_timeout_finality-KeepsSync o.destination_finality_offset,
        (
          timeout-KeepsAlone r,
          (
            retry_timeout-KeepsSync r.source_chain_id,
            AllKeep-append
                (if_priced priced o.source_chain_gas_token_coingecko_id
                  o.source_chain_gas_token_decimals (timeout_gas o))
                _
                (AllKeep-if_priced priced o.source_chain_gas_token_coingecko_id
                  o.source_chain_gas_token_decimals (timeout_gas o) (timeout_gas-KeepsSync _ _))
                (
                  recv-KeepsAlone r,
                  (
                    retry_recv-KeepsSync r.destination_chain_id,
                    AllKeep-append
                        (if_priced priced o.destination_chain_gas_token_coingecko_id
                          o.destination_chain_gas_token_decimals (recv_gas o))
                        _
                        (AllKeep-if_priced priced o.destination_chain_gas_token_coingecko_id
                          o.destination_chain_gas_token_decimals (recv_gas o)
                          (recv_gas-KeepsSync _ _))
                        (
                          wait_for_write_ack-KeepsSync,
                          (
                            check_write_ack_finality-KeepsSync o.destination_finality_offset,
                            (
                              check_commitment-KeepsSync,
                              (
                                ack-KeepsAlone r,
                                (
                                  retry_ack-KeepsSync r.source_chain_id,
                                  AllKeep-if_priced priced o.source_chain_gas_token_coingecko_id
                                      o.source_chain_gas_token_decimals (ack_gas o)
                                      (ack_gas-KeepsSync _ _),
                                ),
                              ),
                            ),
                          ),
                        ),
                  ),
                ),
          ),
        ),
      ),
    ),
  ),
)

-- A transfer of a named chain that agrees with its row and goes through all steps of a pipeline
-- before the last, in batches of its own, comes out, whatever the chains and the database answer
-- on the way, with the same key and, unless it carries an error, still in agreement with its row;
-- or the pipeline stops with an error that has a text.
pub new_pipeline-Carried :
    (priced : Bool) (r : Route) (o : PipelineOptions) (envs : ℕ → Environment) (t : Transfer)
    (w : World)
    → t.source_chain_id ≢ ""
    → SyncedUnlessErrored w t
    → Outcome (Carried w t) (run (new_pipeline priced r o) envs t w)
new_pipeline-Carried priced r o envs t w named s =
    run-Carried (new_pipeline priced r o) (new_pipeline-AllKeep priced r o) envs t w named s
