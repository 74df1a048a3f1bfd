-- ===== src/Middleware/Laws.antt =====
-- Which transfers the wrapper leaves alone, and which errors it lets out.
use platform_relayer.Common.{◌≡◌, ◌⊎◌, inl, inr, true, false, arith, Bool-cases}
use platform_relayer.Errors.{Error, Result, ok, err, errors_is, canceled}
use platform_relayer.Db.{update_transfer_state}
use platform_relayer.Transfer.{Transfer, transfer_key, has_errored}
use platform_relayer.Bridge.{World, Environment, exec}
use platform_relayer.Middleware.{Processor, is_failed, process_mw, after_update, after_process}

-- A transfer that carries an error, has failed or is not due passes a wrapped step as it is, and
-- the step does nothing.
pub process_mw-passes :
    (p : Processor) (env : Environment) (t : Transfer) (w : World)
    → (has_errored t ≡ true) ⊎ (is_failed t.state ≡ true) ⊎ (p.should_process env t ≡ false)
    → process_mw p env t w ≡ (w, ok t)
unfolding process_mw
process_mw-passes p env t w why = ground (arith, why)

after_process-canceled :
    (t : Transfer) (o : World × Result Transfer) (e : Error)
    → (after_process t o).1 ≡ err e
    → errors_is e canceled ≡ true
unfolding after_process
after_process-canceled t (w, ok output) e h = ground (arith, h)
after_process-canceled t (w, err e') e h = elim (Bool-cases (errors_is e' canceled)) [
  | inl stop ↦ ground (arith, stop, h)
  | inr go ↦ absurd (ground (arith, go, h))
]

after_update-canceled :
    (p : Processor) (env : Environment) (t : Transfer) (o : World × Result (Unit {0})) (e : Error)
    → (after_update p env t o).1 ≡ err e
    → errors_is e canceled ≡ true
unfolding after_update
after_update-canceled p env t (w, ok done) e h =
    let t' = record t { state = p.state } in after_process-canceled t' (p.process env t' w) e h
after_update-canceled p env t (w, err e') e h = ground (arith, h)

-- The only error that a wrapped step returns is a cancelled context; every other error goes on
-- with its transfer.
pub process_mw-canceled :
    (p : Processor) (env : Environment) (t : Transfer) (w : World) (e : Error)
    → (process_mw p env t w).1 ≡ err e
    → errors_is e canceled ≡ true
unfolding process_mw
process_mw-canceled p env t w e h = elim (Bool-cases (has_errored t)) [
  | inl errored ↦ absurd (ground (arith, errored))
  | inr quiet ↦ elim (Bool-cases (is_failed t.state)) [
    | inl stopped ↦ absurd (ground (arith, quiet, stopped))
    | inr live ↦ elim (Bool-cases (p.should_process env t)) [
      | inr skip ↦ absurd (ground (arith, quiet, live, skip))
      | inl due ↦
          after_update-canceled p env t
            (exec env (update_transfer_state p.state (transfer_key t)) w) e
            (ground (arith, quiet, live, due))
    ]
  ]
]
