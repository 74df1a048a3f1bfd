-- ===== src/Processors/StateFinisher.antt =====
-- relayer/ibcv2/state_finisher.go: the last step, which the middleware does not wrap.
use platform_relayer.Common.{Bool, not, Option, none, some, is_some, if◌then◌else◌}
use platform_relayer.Errors.{Result, ok, err, wrapped}
use platform_relayer.Db.{
  Status, complete_with_timeout, complete_with_ack, complete_with_write_ack_error,
  complete_with_write_ack_success, update_transfer_state,
}
use platform_relayer.Transfer.{
  Transfer, transfer_key, has_errored, is_complete, is_error_ack, is_success_ack,
}
use platform_relayer.Bridge.{World, Environment, M, return, exec}

-- The final state of a complete transfer; `none` where the code only warns of a missing status.
unfoldable pub final_state : Transfer → Option Status
final_state t =
    if is_some t.timeout_tx_hash then some complete_with_timeout else elim t.write_ack_status [
      | none ↦ none
      | some s ↦
          if is_some t.ack_tx_hash
          then some complete_with_ack
          else (let first = if is_error_ack s then complete_with_write_ack_error else t.state in
              some (if is_success_ack s then complete_with_write_ack_success else first))
    ]

-- The update of the table; its failure is kept in the transfer.
abbrev pub recorded : Transfer → World × Result (Unit {0}) → World × Result Transfer
recorded t (w, ok done) = (w, ok t)
recorded t (w, err e) =
    (w, ok (record t { processing_error = some (wrapped "updating transfer state to" e) }))

unfoldable pub finish : Environment → Transfer → Status → M Transfer
finish env t s w =
    recorded (record t { state = s }) (exec env (update_transfer_state s (transfer_key t)) w)

unfoldable pub process : Bool → Bool → Environment → Transfer → M Transfer
unfolding final_state finish
process success_acks error_acks env t =
    if has_errored t
    then return t
    else if not (is_complete success_acks error_acks t)
    then return t
    else elim (final_state t) [ none ↦ return t | some s ↦ finish env t s ]
