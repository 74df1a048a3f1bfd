-- ===== src/Consistency.antt =====
-- The transfer in memory against its row in the table. A step writes a field to the table and then
-- sets it in memory; here stands what that must keep.
pub mod Outcomes
pub mod Steps
pub mod Wrapped
use platform_relayer.Common.{
  ℕ, String, ◌≡◌, refl, sym, ◌≢◌, ◌∙◌, ap, List, Option, none, some, option_map, arith,
  Option-cases, inl, inr,
}
use platform_relayer.Db.{
  Time, Status, WriteAckStatus, Row, Query, query_key, set_columns, execute, find_row,
  update_transfer_state, update_transfer_recv_tx, update_transfer_recv_tx_gas_cost_usd,
  update_transfer_write_ack_tx, update_transfer_ack_tx, update_transfer_ack_tx_gas_cost_usd,
  update_transfer_timeout_tx, update_transfer_timeout_tx_gas_cost_usd,
  update_transfer_source_tx_finalized_time, update_transfer_write_ack_tx_finalized_time,
  clear_recv_tx, clear_ack_tx, clear_timeout_tx,
}
use platform_relayer.Db.Laws.{find_row-execute_self, find_row-execute_ne}
use platform_relayer.Transfer.{Transfer, new_transfer, transfer_key}

-- The fields by which the steps decide, and which they keep in both places.
pub record Progress : Type 0 where
  pub state : Status
  pub source_tx_finalized_time : Option Time
  pub recv_tx_hash : Option String
  pub recv_tx_time : Option Time
  pub recv_tx_relayer_address : Option String
  pub write_ack_tx_hash : Option String
  pub write_ack_tx_time : Option Time
  pub write_ack_status : Option WriteAckStatus
  pub ack_tx_hash : Option String
  pub ack_tx_time : Option Time
  pub timeout_tx_hash : Option String
  pub timeout_tx_time : Option Time

unfoldable pub progress : Transfer → Progress
progress t = record {
  state = t.state;
  source_tx_finalized_time = t.source_tx_finalized_time;
  recv_tx_hash = t.recv_tx_hash;
  recv_tx_time = t.recv_tx_time;
  recv_tx_relayer_address = t.recv_tx_relayer_address;
  write_ack_tx_hash = t.write_ack_tx_hash;
  write_ack_tx_time = t.write_ack_tx_time;
  write_ack_status = t.write_ack_status;
  ack_tx_hash = t.ack_tx_hash;
  ack_tx_time = t.ack_tx_time;
  timeout_tx_hash = t.timeout_tx_hash;
  timeout_tx_time = t.timeout_tx_time;
}

-- The progress that a dispatcher which reads the table now would see for a packet.
unfoldable pub stored_progress : List Row → Transfer → Option Progress
stored_progress rows t =
    option_map (λ r. progress (new_transfer r)) (find_row (transfer_key t) rows)

-- The table holds the transfer's progress.
abbrev pub Synced : List Row → Transfer → Type 0
Synced rows t = stored_progress rows t ≡ some (progress t)

-- What an update of the transfer's row means for the transfer.
unfoldable pub follow : Query → Transfer → Transfer
follow (update_transfer_state s k) t = record t { state = s }
follow (update_transfer_recv_tx h time a k) t = record t {
  recv_tx_hash = some h;
  recv_tx_time = some time;
  recv_tx_relayer_address = some a;
}
follow (update_transfer_write_ack_tx h time s k) t = record t {
  write_ack_tx_hash = some h;
  write_ack_tx_time = some time;
  write_ack_status = some s;
}
follow (update_transfer_ack_tx h time a k) t = record t {
  ack_tx_hash = some h;
  ack_tx_time = some time;
  ack_tx_relayer_address = some a;
}
follow (update_transfer_timeout_tx h time a k) t = record t {
  timeout_tx_hash = some h;
  timeout_tx_time = some time;
  timeout_tx_relayer_address = some a;
}
follow (update_transfer_source_tx_finalized_time time k) t = record t {
  source_tx_finalized_time = some time;
}
follow (clear_recv_tx k) t = record t { recv_tx_hash = none; recv_tx_time = none }
follow (clear_ack_tx k) t = record t { ack_tx_hash = none; ack_tx_time = none }
follow (clear_timeout_tx k) t = record t { timeout_tx_hash = none; timeout_tx_time = none }
follow (update_transfer_recv_tx_gas_cost_usd c k) t = t
follow (update_transfer_ack_tx_gas_cost_usd c k) t = t
follow (update_transfer_timeout_tx_gas_cost_usd c k) t = t
follow (update_transfer_write_ack_tx_finalized_time time k) t = t

progress-set_columns :
    (q : Query) (r : Row) (t : Transfer)
    → progress (new_transfer r) ≡ progress t
    → progress (new_transfer (set_columns q r)) ≡ progress (follow q t)
unfolding progress new_transfer set_columns follow
progress-set_columns (update_transfer_state s k) r t h = ground arith
progress-set_columns _ r t h = ground arith

pub transfer_key-follow : (q : Query) (t : Transfer) → transfer_key (follow q t) ≡ transfer_key t
unfolding follow
transfer_key-follow (update_transfer_state s k) t = refl
transfer_key-follow _ t = refl

-- An update of the transfer's own row keeps the two together, if the transfer follows it.
pub Synced-execute :
    (q : Query) (rows : List Row) (t : Transfer)
    → query_key q ≡ transfer_key t
    → Synced rows t
    → Synced (execute q rows) (follow q t)
unfolding stored_progress
Synced-execute q rows t e h = elim (Option-cases (find_row (transfer_key t) rows)) [
  | inl missing ↦ absurd (ground (arith, missing))
  | inr (r, found) ↦
      rw (transfer_key-follow q t, ← e, find_row-execute_self q rows, e, found)
        (ap some (progress-set_columns q r t (ground (arith, found))))
]

-- An update of another row leaves them as they were.
pub Synced-execute_ne :
    (q : Query) (rows : List Row) (t : Transfer)
    → transfer_key t ≢ query_key q
    → Synced rows t
    → Synced (execute q rows) t
unfolding stored_progress
Synced-execute_ne q rows t e h = rw (find_row-execute_ne q (transfer_key t) rows e) h
