-- ===== src/RelayerApi/Relay.antt =====
-- `Relay`.
use platform_relayer.Common.{
  String, Bool, true, false, List, [], ◌∷◌, ◌++◌, Option, none, some, is_some, if◌then◌else◌,
}
use platform_relayer.Errors.{Result, ok, err, pg_error, wrapped}
use platform_relayer.Db.{
  u32, pos, pending, success, Numeric, Row, row_key, find_row, present, null_text, null_timestamp,
}
use platform_relayer.Bridge.{PacketInfo, BridgeClient, is_evm}
use platform_relayer.Config.{get_client_counterparty_chain_id}
use platform_relayer.Batch.Submit.{contains}
use platform_relayer.RelayerApi.{
  ApiError, invalid_argument, internal, unknown, Response, answer, refuse, Submission, Store,
  ApiEnvironment, duplicate_key, is_duplicate, has_submission, is_incomplete,
}
use platform_relayer.RelayerApi.Ofac.{ofac_addresses}

abbrev null_numeric : Numeric
null_numeric = record { valid = false; int = none; exp = pos 0 }

-- The inserted row: the eight arguments, and for the other columns their defaults.
unfoldable pub new_row : Submission → String → PacketInfo → Row
new_row request destination packet = record {
  status = pending;
  source_chain_id = request.chain_id;
  destination_chain_id = destination;
  source_tx_hash = request.tx_hash;
  source_tx_time = present packet.timestamp;
  packet_sequence_number = u32 packet.sequence;
  packet_source_client_id = packet.source_client;
  packet_destination_client_id = packet.destination_client;
  packet_timeout_timestamp = present packet.timeout_timestamp;
  recv_tx_hash = null_text;
  recv_tx_time = null_timestamp;
  write_ack_tx_hash = null_text;
  write_ack_tx_time = null_timestamp;
  ack_tx_hash = null_text;
  ack_tx_time = null_timestamp;
  timeout_tx_hash = null_text;
  timeout_tx_time = null_timestamp;
  write_ack_status = record { valid = false; value = success };
  recv_tx_gas_cost_usd = null_numeric;
  ack_tx_gas_cost_usd = null_numeric;
  timeout_tx_gas_cost_usd = null_numeric;
  recv_tx_relayer_address = null_text;
  ack_tx_relayer_address = null_text;
  timeout_tx_relayer_address = null_text;
  source_tx_finalized_time = null_timestamp;
  write_ack_tx_finalized_time = null_timestamp;
}

-- The unique index `index_ibcv2_transfer_packet` of the table.
abbrev pub violates_unique_index : Row → List Row → Bool
violates_unique_index row rows = is_some (find_row (row_key row) rows)

-- `InsertIBCV2Transfer`: the database's error, that of its unique index included, or the new row.
unfoldable pub insert_transfer : ApiEnvironment → Row → List Row → Result (List Row)
insert_transfer env row rows = elim (env.insert_transfer_error row) [
  | some e ↦ err e
  | none ↦
      if violates_unique_index row rows then err (pg_error duplicate_key) else ok (rows ++ row ∷ [])
]

-- After the insertion of one packet: whether the loop goes on, and with which rows.
abbrev pub inserted : List Row → Result (List Row) → Bool × List Row
inserted before (ok rows) = (true, rows)
inserted before (err e) = (is_duplicate e, before)

unfoldable pub relay_packet : ApiEnvironment → Submission → PacketInfo → List Row → Bool × List Row
relay_packet env request packet rows =
    elim (get_client_counterparty_chain_id env.chains request.chain_id packet.source_client) [
      | err e ↦ (true, rows)
      | ok destination ↦
          inserted rows (insert_transfer env (new_row request destination packet) rows)
    ]

-- The loop over the packets, with whether it reached its end.
unfoldable pub relay_packets :
    ApiEnvironment → Submission → List PacketInfo → List Row → Bool × List Row
relay_packets env request [] rows = (true, rows)
relay_packets env request (packet ∷ packets) rows =
    let step = relay_packet env request packet rows in
    let rest = relay_packets env request packets step.1 in if step.0 then rest else step

abbrev pub relayed : Store → Bool × List Row → Store × Response (Unit {0})
relayed s (finished, rows) =
    (record s { rows = rows }, if finished then answer tt else refuse internal)

-- `Transaction sender is blacklisted`
abbrev pub is_blacklisted : ApiEnvironment → String → Bool
is_blacklisted env sender = contains (env.to_lower sender) ofac_addresses

-- The test of an EVM transaction's sender: what the handler refuses with.
unfoldable pub check_sender : ApiEnvironment → BridgeClient → String → Option ApiError
check_sender env client hash =
    if is_evm client.chain_type
    then elim (client.get_transaction_sender hash) [
      | err e ↦
          some (unknown (wrapped "checking OFAC Blacklist - error getting transaction sender" e))
      | ok sender ↦ if is_blacklisted env sender then some invalid_argument else none
    ]
    else none

-- What follows the record of the submission.
unfoldable pub relay_submitted : ApiEnvironment → Submission → Store → Store × Response (Unit {0})
relay_submitted env request s = elim (env.clients request.chain_id) [
  | none ↦ (s, refuse invalid_argument)
  | some client ↦ elim (check_sender env client request.tx_hash) [
    | some e ↦ (s, refuse e)
    | none ↦ elim (client.send_packets_from_tx request.chain_id request.tx_hash) [
      | err e ↦ (s, refuse internal)
      | ok packets ↦ relayed s (relay_packets env request packets s.rows)
    ]
  ]
]

-- `InsertRelaySubmission`: `ON CONFLICT DO NOTHING`.
unfoldable pub insert_submission : Submission → List Submission → List Submission
insert_submission request submissions =
    if has_submission request submissions then submissions else request ∷ submissions

unfoldable pub relay : ApiEnvironment → Submission → Store → Store × Response (Unit {0})
relay env request s =
    if is_incomplete request
    then (s, refuse invalid_argument)
    else elim (env.insert_submission_error request) [
      | some e ↦ (s, if is_duplicate e then answer tt else refuse internal)
      | none ↦
          relay_submitted env request
            (record s { submissions = insert_submission request s.submissions })
    ]
