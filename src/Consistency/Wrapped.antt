-- ===== src/Consistency/Wrapped.antt =====
-- The wrapper keeps transfer and table together, if the step that it wraps does.
use platform_relayer.Common.{
  ◌≡◌, refl, sym, ◌∙◌, ◌≢◌, inl, inr, false, Bool-cases, Option-cases, arith,
}
use mathlib.Core.Bool.{false≢true}
use platform_relayer.Errors.{Result, errors_is, canceled}
use platform_relayer.Db.{query_key, execute, update_transfer_state}
use platform_relayer.Transfer.{Transfer, transfer_key, has_errored}
use platform_relayer.Bridge.{World, Environment, exec}
use platform_relayer.Middleware.{Processor, is_failed, process_mw, after_update, after_process}
use platform_relayer.Consistency.{Synced, follow, Synced-execute}
use platform_relayer.Consistency.Outcomes.{Outcome, returned, failed}
use platform_relayer.Consistency.Steps.{Kept, KeepsSync}

-- A transfer that carries no error agrees with the table.
abbrev pub SyncedUnlessErrored : World → Transfer → Type 0
SyncedUnlessErrored w t = has_errored t ≡ false → Synced w.rows t

-- What holds of the transfer that the wrapper passes on.
pub record Carried (w : World) (t : Transfer) (w' : World) (t' : Transfer) : Type 0 where
  pub synced : SyncedUnlessErrored w' t'
  pub same_key : transfer_key t' ≡ transfer_key t

-- The wrapper passes a failure on inside the transfer, but for a cancelled context.
after_process-Carried :
    (t t₁ : Transfer) (w₀ w : World) {o : World × Result Transfer}
    → transfer_key t₁ ≡ transfer_key t
    → Outcome (Kept w t₁) o
    → Outcome (Carried w₀ t) (after_process t₁ o)
unfolding after_process has_errored
after_process-Carried t t₁ w₀ w key (returned k) =
    returned (record { synced = λ _. k.synced; same_key = k.same_key ∙ key })
after_process-Carried t t₁ w₀ w key (failed {w = w'} {e = e} text) =
    elim (Bool-cases (errors_is e canceled)) [
      | inl stop ↦ rw stop (failed text)
      | inr go ↦
          rw go
            (returned (record { synced = λ quiet. absurd (ground (arith, quiet)); same_key = key }))
    ]

module _ (p : Processor) (keeps : KeepsSync p.process) where
  update-Carried :
      (env : Environment) (t : Transfer) (w : World)
      → t.source_chain_id ≢ ""
      → Synced w.rows t
      → Outcome
          (Carried w t)
          (after_update p env t (exec env (update_transfer_state p.state (transfer_key t)) w))
  unfolding after_update exec has_errored query_key follow
  update-Carried env t w named s =
      let q = update_transfer_state p.state (transfer_key t) in
      elim (Option-cases (env.query_error q)) [
        | inl passes ↦
            rw (passes, exec)
              (after_process-Carried t (record t { state = p.state }) w
                (record w { rows = execute q w.rows }) refl
                (keeps env (record t { state = p.state }) (record w { rows = execute q w.rows })
                  named (Synced-execute q w.rows t refl s)))
        | inr (e, failure) ↦
            rw (failure, exec)
              (returned
                (record { synced = λ quiet. absurd (false≢true (sym quiet)); same_key = refl }))
      ]

  -- A wrapped step, whatever its environment, returns the same packet and leaves a transfer
  -- without error as the table has it; an error that it returns has a text.
  pub process_mw-Carried :
      (env : Environment) (t : Transfer) (w : World)
      → t.source_chain_id ≢ ""
      → SyncedUnlessErrored w t
      → Outcome (Carried w t) (process_mw p env t w)
  unfolding process_mw
  process_mw-Carried env t w named s =
      let skipped : Carried w t w t = record { synced = s; same_key = refl } in
      elim (Bool-cases (has_errored t)) [
        | inl errored ↦ rw errored (returned skipped)
        | inr quiet ↦ rw quiet (elim (Bool-cases (is_failed t.state)) [
          | inl stopped ↦ rw stopped (returned skipped)
          | inr live ↦ rw live (elim (Bool-cases (p.should_process env t)) [
            | inl due ↦ rw due (update-Carried env t w named (s quiet))
            | inr skip ↦ rw skip (returned skipped)
          ])
        ])
      ]
