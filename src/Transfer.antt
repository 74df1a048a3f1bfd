-- ===== src/Transfer.antt =====
-- The transfer that flows through a pipeline: relayer/ibcv2/ibcv2_transfer.go. A pointer field is
-- an `Option`, so each getter `GetX`, which returns the value and whether it is set, is the field.
-- The logger is left out.
pub mod Laws
use platform_relayer.Common.{
  ℕ, ◌<◌, String, Bool, true, false, not, ◌&&◌, ◌||◌, Option, none, some, is_some, ltb,
  if◌then◌else◌, ◌≡◌,
}
use platform_relayer.Errors.{Error, has_text}
use platform_relayer.Db.{
  Time, ℤ, u32, Status, failed, WriteAckStatus, success, error, unknown, Nullable, Numeric, Row,
  PacketKey,
}

pub record Transfer : Type 0 where
  pub state : Status
  pub source_chain_id : String
  pub destination_chain_id : String
  pub source_tx_hash : String
  pub source_tx_time : Time
  pub source_tx_finalized_time : Option Time
  pub packet_sequence_number : ℕ  -- uint32
  pub packet_source_client_id : String
  pub packet_destination_client_id : String
  pub packet_timeout_timestamp : Time
  pub recv_tx_hash : Option String
  pub recv_tx_time : Option Time
  pub recv_tx_relayer_address : Option String
  pub recv_tx_gas_cost_usd : Option ℤ
  pub write_ack_tx_hash : Option String
  pub write_ack_tx_time : Option Time
  pub write_ack_status : Option WriteAckStatus
  pub write_ack_tx_finalized_time : Option Time
  pub ack_tx_hash : Option String
  pub ack_tx_time : Option Time
  pub ack_tx_relayer_address : Option String
  pub ack_tx_gas_cost_usd : Option ℤ
  pub timeout_tx_hash : Option String
  pub timeout_tx_time : Option Time
  pub timeout_tx_relayer_address : Option String
  pub timeout_tx_gas_cost_usd : Option ℤ
  pub processing_error : Option Error

-- `nullStr` and `nullTime`.
abbrev pub null_value : {A : Type 0} → Nullable A → Option A
null_value n = if n.valid then some n.value else none

abbrev pub time_or_zero : Nullable Time → Time
time_or_zero n = if n.valid then n.value else 0

abbrev pub gas_cost : Numeric → Option ℤ
gas_cost n = if n.valid then n.int else none

unfoldable pub new_transfer : Row → Transfer
new_transfer r = record {
  state = r.status;
  source_chain_id = r.source_chain_id;
  destination_chain_id = r.destination_chain_id;
  source_tx_hash = r.source_tx_hash;
  source_tx_time = time_or_zero r.source_tx_time;
  source_tx_finalized_time = null_value r.source_tx_finalized_time;
  packet_sequence_number = u32 r.packet_sequence_number;
  packet_source_client_id = r.packet_source_client_id;
  packet_destination_client_id = r.packet_destination_client_id;
  packet_timeout_timestamp = time_or_zero r.packet_timeout_timestamp;
  recv_tx_hash = null_value r.recv_tx_hash;
  recv_tx_time = null_value r.recv_tx_time;
  recv_tx_relayer_address = null_value r.recv_tx_relayer_address;
  recv_tx_gas_cost_usd = gas_cost r.recv_tx_gas_cost_usd;
  write_ack_tx_hash = null_value r.write_ack_tx_hash;
  write_ack_tx_time = null_value r.write_ack_tx_time;
  write_ack_status = null_value r.write_ack_status;
  write_ack_tx_finalized_time = null_value r.write_ack_tx_finalized_time;
  ack_tx_hash = null_value r.ack_tx_hash;
  ack_tx_time = null_value r.ack_tx_time;
  ack_tx_relayer_address = null_value r.ack_tx_relayer_address;
  ack_tx_gas_cost_usd = gas_cost r.ack_tx_gas_cost_usd;
  timeout_tx_hash = null_value r.timeout_tx_hash;
  timeout_tx_time = null_value r.timeout_tx_time;
  timeout_tx_relayer_address = null_value r.timeout_tx_relayer_address;
  timeout_tx_gas_cost_usd = gas_cost r.timeout_tx_gas_cost_usd;
  processing_error = none;
}

-- The three arguments by which each update names the transfer's row, `int32` conversion included.
abbrev pub transfer_key : Transfer → PacketKey
transfer_key t = record {
  chain = t.source_chain_id;
  client = t.packet_source_client_id;
  sequence = u32 t.packet_sequence_number;
}

-- `Error() != ""`
unfoldable pub has_errored : Transfer → Bool
has_errored t = elim t.processing_error [ none ↦ false | some e ↦ has_text e ]

-- `isErrorAck` and `isSuccessAck`.
abbrev pub is_error_ack : WriteAckStatus → Bool
is_error_ack error = true
is_error_ack unknown = true
is_error_ack success = false

abbrev pub is_success_ack : WriteAckStatus → Bool
is_success_ack success = true
is_success_ack error = false
is_success_ack unknown = false

-- Whether the acks with this status are to be relayed.
abbrev pub relays_ack : Bool → Bool → WriteAckStatus → Bool
relays_ack success_acks error_acks s =
    (is_error_ack s && error_acks) || (is_success_ack s && success_acks)

unfoldable pub is_complete : Bool → Bool → Transfer → Bool
is_complete success_acks error_acks t =
    if is_some t.processing_error
    then false
    else if is_some t.timeout_tx_hash
    then true
    else if not (is_some t.recv_tx_hash) || not (is_some t.write_ack_tx_hash)
    then false
    else if is_some t.ack_tx_hash
    then true
    else elim t.write_ack_status [
      | none ↦ false
      | some s ↦ if relays_ack success_acks error_acks s then false else true
    ]

-- `time.Now().After(...)`, at the time that the clock shows.
unfoldable pub is_timed_out : Time → Transfer → Bool
is_timed_out now t = ltb t.packet_timeout_timestamp now
