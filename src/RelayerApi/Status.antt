-- ===== src/RelayerApi/Status.antt =====
-- `Status`, `mapDBStatusToProto` and `toTxInfo`.
use platform_relayer.Common.{ℕ, ◌+◌, String, List, Option, none, some, ltb, map, if◌then◌else◌}
use platform_relayer.Db.{
  Status, complete_with_ack, complete_with_timeout, complete_with_write_ack_success,
  complete_with_write_ack_error, failed, Nullable, Row, get_transfers_by_source_tx,
}
use platform_relayer.Errors.{errors_is, no_rows}
use platform_relayer.RelayerApi.{
  invalid_argument, not_found, internal, Response, answer, refuse, Submission, Store,
  ApiEnvironment, has_submission, is_incomplete,
}

pub data TransferState : Type 0 where
  transfer_state_pending transfer_state_complete transfer_state_failed : TransferState

pub record TransactionInfo : Type 0 where
  pub tx_hash : String
  pub chain_id : String

pub record PacketStatus : Type 0 where
  pub state : TransferState
  pub sequence_number : ℕ  -- uint64
  pub source_client_id : String
  pub send_tx : TransactionInfo
  pub recv_tx : Option TransactionInfo
  pub ack_tx : Option TransactionInfo
  pub timeout_tx : Option TransactionInfo

unfoldable pub map_db_status_to_proto : Status → TransferState
map_db_status_to_proto complete_with_ack = transfer_state_complete
map_db_status_to_proto complete_with_timeout = transfer_state_complete
map_db_status_to_proto complete_with_write_ack_success = transfer_state_complete
map_db_status_to_proto complete_with_write_ack_error = transfer_state_complete
map_db_status_to_proto failed = transfer_state_failed
map_db_status_to_proto _ = transfer_state_pending

abbrev pub to_tx_info : Nullable String → String → Option TransactionInfo
to_tx_info hash chain =
    if hash.valid then some (record { tx_hash = hash.value; chain_id = chain }) else none

-- `uint64` of an `int32`, which keeps the sign.
abbrev pub uint64_of_int32 : ℕ → ℕ
uint64_of_int32 n = if ltb n 2147483648 then n else n + 18446744069414584320

unfoldable pub packet_status : Row → PacketStatus
packet_status r = record {
  state = map_db_status_to_proto r.status;
  sequence_number = uint64_of_int32 r.packet_sequence_number;
  source_client_id = r.packet_source_client_id;
  send_tx = record { tx_hash = r.source_tx_hash; chain_id = r.source_chain_id };
  recv_tx = to_tx_info r.recv_tx_hash r.destination_chain_id;
  ack_tx = to_tx_info r.ack_tx_hash r.source_chain_id;
  timeout_tx = to_tx_info r.timeout_tx_hash r.source_chain_id;
}

unfoldable pub status : ApiEnvironment → Submission → Store → Response (List PacketStatus)
status env request s =
    if is_incomplete request
    then refuse invalid_argument
    else elim (env.get_submission_error request) [
      | some e ↦ if errors_is e no_rows then refuse not_found else refuse internal
      | none ↦
          if has_submission request s.submissions
          then elim (env.get_transfers_error request) [
            | some e ↦ refuse internal
            | none ↦ answer (
                map packet_status
                  (get_transfers_by_source_tx request.chain_id request.tx_hash s.rows))
          ]
          else refuse not_found
    ]
