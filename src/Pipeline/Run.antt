-- ===== src/Pipeline/Run.antt =====
-- A transfer's way through the steps of a pipeline. `ConditionallyBatchProcess` of
-- relayer/ibcv2/conditional_batch_processor.go lets a transfer pass that carries an error or is not
-- due; any other is taken here to be a batch of its own, and the pipeline stops at an error, which
-- is a cancelled context. Each step has an environment of its own, since time passes.
use platform_relayer.Common.{
  ℕ, suc, ◌≡◌, refl, sym, subst, ap, ◌∙◌, true, false, not, List, [], ◌∷◌, none, some, arith,
  Bool-cases, Option-cases, inl, inr, ◌==◌, if◌then◌else◌,
}
use mathlib.Core.Bool.{false≢true}
use platform_relayer.Errors.{Error, Result, ok, err, errors_is, canceled, wrapped}
use platform_relayer.Db.{query_key, execute, update_transfer_state}
use platform_relayer.Transfer.{Transfer, transfer_key, has_errored}
use platform_relayer.Bridge.{World, Environment, M, bind_result, exec}
use platform_relayer.Middleware.{is_failed, process_mw}
use platform_relayer.Consistency.{Synced, follow, Synced-execute}
use platform_relayer.Consistency.Outcomes.{Outcome, returned, failed}
use platform_relayer.Consistency.Steps.{KeepsSync}
use platform_relayer.Consistency.Wrapped.{SyncedUnlessErrored, Carried}
use platform_relayer.Batch.Submit.{Memory, BatchProcessor}
use platform_relayer.Batch.Middleware.{
  Sorted, is_skipped, enter, sort_input, sort_batch, start, set_errors, after_batch, process_batch,
}
use platform_relayer.Batch.Edges.{Texted}
use platform_relayer.Batch.Alone.{KeepsAlone}
use platform_relayer.Pipeline.Steps.{Step, single, batched}

-- The transfer that a batch of one hands on.
abbrev pub alone : Memory × (World × Result (List ℕ)) → World × Result Transfer
alone (memory, (w, ok output)) = (w, ok (memory 0))
alone (memory, (w, err e)) = (w, err e)

unfoldable pub run_step : Step → Environment → Transfer → M Transfer
run_step (single p) env t w = process_mw p env t w
run_step (batched b) env t w =
    if has_errored t
    then (w, ok t)
    else if not (b.should_process env t)
    then (w, ok t)
    else alone (process_batch b env (λ p. t) (0 ∷ []) w)

unfoldable pub run : List Step → (ℕ → Environment) → Transfer → M Transfer
run [] envs t w = (w, ok t)
run (step ∷ steps) envs t w = bind_result (run_step step (envs 0) t w) (run steps λ n. envs (suc n))

-- What the invariant asks of each step.
abbrev pub AllKeep : List Step → Type 0
AllKeep [] = Unit {0}
AllKeep (single p ∷ steps) = KeepsSync p.process × AllKeep steps
AllKeep (batched b ∷ steps) = KeepsAlone b.process × AllKeep steps

after-one :
    (np : List ℕ) (w₀ : World) (t : Transfer) (o : Memory × (World × Result (List ℕ)))
    → Texted o.1
    → SyncedUnlessErrored o.1.0 (o.0 0)
    → transfer_key (o.0 0) ≡ transfer_key t
    → Outcome (Carried w₀ t) (alone (after_batch np (0 ∷ []) o))
unfolding after_batch set_errors has_errored
after-one np w₀ t (m, (w, ok output)) texted s key =
    returned (record { synced = s; same_key = key })
after-one np w₀ t (m, (w, err e)) (failed text) s key = elim (Bool-cases (errors_is e canceled)) [
  | inl stop ↦ rw stop (failed text)
  | inr go ↦
      rw go (
        returned
          (record { synced = λ quiet. absurd (ground (arith, quiet, text)); same_key = key }))
]

after-none :
    (w₀ : World) (t : Transfer) (o : Memory × (World × Result (List ℕ)))
    → Texted o.1
    → SyncedUnlessErrored o.1.0 (o.0 0)
    → transfer_key (o.0 0) ≡ transfer_key t
    → Outcome (Carried w₀ t) (alone (after_batch (0 ∷ []) [] o))
unfolding after_batch set_errors
after-none w₀ t (m, (w, ok output)) texted s key = returned (record { synced = s; same_key = key })
after-none w₀ t (m, (w, err e)) (failed text) s key = elim (Bool-cases (errors_is e canceled)) [
  | inl stop ↦ rw stop (failed text)
  | inr go ↦ rw go (returned (record { synced = s; same_key = key }))
]

module _ (b : BatchProcessor) (keeps : KeepsAlone b.process) (env : Environment) (t : Transfer)
    (w : World) where
  -- What the wrapper makes of the sorted batch.
  After : Sorted → Type 0
  After s = Outcome (Carried w t) (
      alone
        (after_batch s.not_processing s.to_process (b.process env s.memory s.to_process s.world)))

  -- The transfer has failed, and the batch is empty.
  pub stopped-Carried :
      is_failed t.state ≡ true
      → SyncedUnlessErrored w t
      → Outcome (Carried w t) (alone (process_batch b env (λ p. t) (0 ∷ []) w))
  unfolding process_batch sort_batch sort_input is_skipped After
  stopped-Carried stopped s =
      let skips : is_skipped b env t ≡ true = ground (arith, stopped) in
      let sorted : sort_batch b env (start (λ p. t) w) (0 ∷ []) ≡ stopped_sorted = rw skips refl in
      let m : Memory = λ p. t in
      let o = b.process env m [] w in
      let same : o.0 0 ≡ t = ap (λ n. n 0) (keeps.no_memory env m w) in
      subst After (sym sorted) (
        after-none w t o (keeps.texted env m [] w)
          (subst (λ u. SyncedUnlessErrored o.1.0 u) (sym same)
            (λ quiet. subst (λ rows. Synced rows t) (sym (keeps.no_rows env m w)) (s quiet)))
          (ap (λ u. transfer_key u) same))
    where
      stopped_sorted : Sorted
      stopped_sorted = record {
        memory = λ p. t;
        world = w;
        not_processing = 0 ∷ [];
        to_process = [];
      }

  pub entered-Carried :
      is_skipped b env t ≡ false
      → has_errored t ≡ false
      → SyncedUnlessErrored w t
      → Outcome (Carried w t) (alone (process_batch b env (λ p. t) (0 ∷ []) w))
  unfolding process_batch sort_batch sort_input enter exec After query_key follow has_errored
  entered-Carried enters quiet s =
      let q = update_transfer_state b.state (transfer_key t) in
      elim (Option-cases (env.query_error q)) [
        | inl passes ↦
            let m : Memory = λ p. if p == 0 then record t { state = b.state } else t in
            let w₁ : World = record w { rows = execute q w.rows } in
            subst After (sym (updated passes)) (
              after-one [] w t (b.process env m (0 ∷ []) w₁) (keeps.texted env m (0 ∷ []) w₁)
                (λ v. keeps.synced env m 0 w₁ (Synced-execute q w.rows t refl (s quiet)))
                (keeps.same_key env m 0 w₁))
        | inr (e, failure) ↦
            let t₁ : Transfer = record t {
              processing_error = some (wrapped "updating transfer state" e);
              state = b.state;
            } in
            let m : Memory = λ p. if p == 0 then t₁ else t in
            subst After (sym (refused e failure)) (
              after-one (0 ∷ []) w t (b.process env m (0 ∷ []) w) (keeps.texted env m (0 ∷ []) w)
                (λ v. absurd (false≢true (sym v ∙ keeps.errored env m 0 w refl)))
                (keeps.same_key env m 0 w))
      ]
    where
      updated :
          env.query_error (update_transfer_state b.state (transfer_key t)) ≡ none
          → sort_batch b env (start (λ p. t) w) (0 ∷ []) ≡ record {
            memory = λ p. if p == 0 then record t { state = b.state } else t;
            world = record w {
              rows = execute (update_transfer_state b.state (transfer_key t)) w.rows;
            };
            not_processing = [];
            to_process = 0 ∷ [];
          }
      updated passes = rw (enters, passes, exec) refl

      refused :
          (e : Error)
          → env.query_error (update_transfer_state b.state (transfer_key t)) ≡ some e
          → sort_batch b env (start (λ p. t) w) (0 ∷ []) ≡ record {
            memory = λ p.
                if p == 0
                then record t {
                  processing_error = some (wrapped "updating transfer state" e);
                  state = b.state;
                }
                else t;
            world = w;
            not_processing = 0 ∷ [];
            to_process = 0 ∷ [];
          }
      refused e failure = rw (enters, failure, exec) refl
