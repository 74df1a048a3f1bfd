-- ===== src/Processors/Finished.antt =====
-- What the last step makes of a complete transfer.
use platform_relayer.Common.{
  ◌≡◌, refl, Bool, true, false, none, some, is_some, arith, inl, inr, ◌⊎◌, Bool-cases, Option-cases,
}
use platform_relayer.Errors.{Result, ok}
use platform_relayer.Db.{
  Status, WriteAckStatus, success, error, unknown, Row, query_key, set_columns,
  complete_with_timeout, complete_with_ack, complete_with_write_ack_success,
  complete_with_write_ack_error, find_row, is_finished, update_transfer_state,
}
use platform_relayer.Db.Laws.{find_row-execute_self}
use platform_relayer.Transfer.{Transfer, transfer_key, has_errored, is_complete}
use platform_relayer.Bridge.{World, Environment, exec}
use platform_relayer.Processors.StateFinisher.{final_state, finish, process}

-- What the table has of the final state.
abbrev pub Recorded : Transfer → Row → World → World × Result Transfer → Type 0
Recorded t r w o =
    (s : Status) × (is_finished s ≡ true)
    × (o.1 ≡ ok (record t { state = s }))
    × (find_row (transfer_key t) o.0.rows ≡ some (record r { status = s }))

finish-Recorded :
    (env : Environment) (t : Transfer) (w : World) (r : Row) (s : Status)
    → is_finished s ≡ true
    → find_row (transfer_key t) w.rows ≡ some r
    → env.query_error (update_transfer_state s (transfer_key t)) ≡ none
    → Recorded t r w (finish env t s w)
unfolding finish exec query_key set_columns
finish-Recorded env t w r s final found passes =
    rw (passes, exec)
      (
        s,
        final,
        refl,
        rw (find_row-execute_self (update_transfer_state s (transfer_key t)) w.rows, found) refl,
      )

-- A transfer that is timed out or has a write ack status gets a final status.
pub final_state-finished :
    (t : Transfer)
    → is_some t.timeout_tx_hash ≡ true ⊎ is_some t.write_ack_status ≡ true
    → (s : Status) × (final_state t ≡ some s) × (is_finished s ≡ true)
unfolding final_state is_finished
final_state-finished t known = elim (Option-cases t.timeout_tx_hash) [
  | inr (h, timed) ↦ (complete_with_timeout, rw (timed, final_state) refl, refl)
  | inl pending ↦ elim (Option-cases t.write_ack_status) [
    | inl missing ↦ absurd (ground (arith, pending, missing))
    | inr (a, acked) ↦ elim (Option-cases t.ack_tx_hash) [
      | inr (h, submitted) ↦ (complete_with_ack, ground (arith, pending, acked, submitted), refl)
      | inl quiet ↦ of_status a acked pending quiet
    ]
  ]
]
  where
    of_status :
        (a : WriteAckStatus)
        → t.write_ack_status ≡ some a
        → t.timeout_tx_hash ≡ none
        → t.ack_tx_hash ≡ none
        → (s : Status) × (final_state t ≡ some s) × (is_finished s ≡ true)
    of_status success acked pending quiet =
        (complete_with_write_ack_success, ground (arith, pending, acked, quiet), refl)
    of_status error acked pending quiet =
        (complete_with_write_ack_error, ground (arith, pending, acked, quiet), refl)
    of_status unknown acked pending quiet =
        (complete_with_write_ack_error, ground (arith, pending, acked, quiet), refl)

-- A complete transfer whose packet is in the table and which is timed out or has a write ack
-- status ends, where the database takes the update, in a final status, in memory and in its row;
-- no other column of the row changes.
pub process-finishes :
    (success_acks error_acks : Bool) (env : Environment) (t : Transfer) (w : World) (r : Row)
    → has_errored t ≡ false
    → is_complete success_acks error_acks t ≡ true
    → is_some t.timeout_tx_hash ≡ true ⊎ is_some t.write_ack_status ≡ true
    → find_row (transfer_key t) w.rows ≡ some r
    → ((s : Status) → env.query_error (update_transfer_state s (transfer_key t)) ≡ none)
    → Recorded t r w (process success_acks error_acks env t w)
unfolding process
process-finishes success_acks error_acks env t w r quiet complete known found passes =
    let (s, e, final) = final_state-finished t known in
    rw (quiet, complete, e) (finish-Recorded env t w r s final found (passes s))

-- A transfer that is not complete, or carries an error, passes the last step as it is, and the
-- table stays as it is.
pub process-passes :
    (success_acks error_acks : Bool) (env : Environment) (t : Transfer) (w : World)
    → (is_complete success_acks error_acks t ≡ false) ⊎ (has_errored t ≡ true)
    → process success_acks error_acks env t w ≡ (w, ok t)
unfolding process
process-passes success_acks error_acks env t w (inl incomplete) =
    elim (Bool-cases (has_errored t)) [
      | inl errored ↦ rw errored refl
      | inr quiet ↦ rw (quiet, incomplete) refl
    ]
process-passes success_acks error_acks env t w (inr errored) = rw errored refl
