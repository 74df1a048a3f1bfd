-- ===== src/Middleware.antt =====
-- The wrapper of every step but the last: relayer/ibcv2/processor_mw.go. The input is taken to be a
-- transfer and not `nil`.
pub mod Laws
use platform_relayer.Common.{Bool, true, false, some, not, if◌then◌else◌}
use platform_relayer.Errors.{Result, ok, err, wrapped, errors_is, canceled}
use platform_relayer.Db.{Status, failed, update_transfer_state}
use platform_relayer.Transfer.{Transfer, transfer_key, has_errored}
use platform_relayer.Bridge.{World, Environment, M, return, exec}

-- The interface `IBCV2Processor`, with its constructor's arguments already given.
pub record Processor : Type 0 where
  pub should_process : Environment → Transfer → Bool
  pub state : Status
  pub process : Environment → Transfer → M Transfer

abbrev pub is_failed : Status → Bool
is_failed failed = true
is_failed _ = false

-- What becomes of the internal processor's outcome: an error goes into the transfer.
unfoldable pub after_process : Transfer → World × Result Transfer → World × Result Transfer
after_process t (w, ok output) = (w, ok output)
after_process t (w, err e) =
    if errors_is e canceled then (w, err e) else (w, ok (record t { processing_error = some e }))

-- What follows the update of the transfer's state in the table.
unfoldable pub after_update :
    Processor → Environment → Transfer → World × Result (Unit {0}) → World × Result Transfer
unfolding after_process
after_update p env t (w, ok done) =
    let t' = record t { state = p.state } in after_process t' (p.process env t' w)
after_update p env t (w, err e) =
    (w, ok (record t { processing_error = some (wrapped "updating transfer state" e) }))

unfoldable pub process_mw : Processor → Environment → Transfer → M Transfer
unfolding after_update
process_mw p env t =
    if has_errored t
    then return t
    else if is_failed t.state
    then return t
    else if not (p.should_process env t)
    then return t
    else (λ w. after_update p env t (exec env (update_transfer_state p.state (transfer_key t)) w))
