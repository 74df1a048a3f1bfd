-- ===== src/Clients/Evm/Packets.antt =====
-- `PacketWriteAckStatus` and `SendPacketsFromTx` of shared/bridges/ibcv2/evm_bridge_client.go.
use platform_relayer.Common.{
  ℕ, String, Bool, false, ◌&&◌, List, [], ◌∷◌, map, Option, none, some, ◌==◌, str_eq, if◌then◌else◌,
}
use platform_relayer.Db.{WriteAckStatus, pos}
use platform_relayer.Errors.{Result, ok, err, wrap, sentinel, write_ack_not_found_for_packet}
use platform_relayer.Bridge.{PacketInfo}
use platform_relayer.Clients.Answers.{◌>>=◌, map_not_found, unix}
use platform_relayer.Clients.Cosmos.Packets.{ack_status}
use platform_relayer.Clients.Evm.{
  Log, at_height, SendPacket, WriteAcknowledgement, Node, EvmBridgeClient, tx_receipt,
}

abbrev pub has_topic : ℕ → List ℕ → Bool
has_topic id [] = false
has_topic id (topic ∷ topics) = id == topic

-- A log counts if its first topic is the event's.
unfoldable pub log_of : ℕ → Option Log → Option Log
log_of id none = none
log_of id (some log) = if has_topic id log.topics then some log else none

-- The status of a log's ack if it is the packet's, else that of the rest.
unfoldable pub status_or :
    ℕ → String → String → WriteAcknowledgement → Result WriteAckStatus → Result WriteAckStatus
status_or sequence source dest w rest =
    if w.sequence == sequence && str_eq w.source_client source && str_eq w.dest_client dest
    then ok (ack_status w.acknowledgements)
    else rest

abbrev pub parsed_status :
    ℕ
    → String
    → String
    → Result WriteAcknowledgement
    → Result WriteAckStatus
    → Result WriteAckStatus
parsed_status sequence source dest (ok w) rest = status_or sequence source dest w rest
parsed_status sequence source dest (err e) rest = wrap "parsing write packet event from log" (err e)

abbrev pub log_status :
    Node → ℕ → String → String → Option Log → Result WriteAckStatus → Result WriteAckStatus
log_status node sequence source dest none rest = rest
log_status node sequence source dest (some log) rest =
    parsed_status sequence source dest (node.parse_write_acknowledgement log) rest

-- The loop over the logs of a receipt.
unfoldable pub find_write_ack :
    Node → ℕ → String → String → List (Option Log) → Result WriteAckStatus
unfolding log_of status_or
find_write_ack node sequence source dest [] = err (sentinel write_ack_not_found_for_packet)
find_write_ack node sequence source dest (log ∷ logs) =
    log_status node sequence source dest (log_of (node.event_id "WriteAcknowledgement") log)
      (find_write_ack node sequence source dest logs)

-- `PacketWriteAckStatus`
unfoldable pub packet_write_ack_status :
    EvmBridgeClient → Node → String → ℕ → String → String → Result WriteAckStatus
packet_write_ack_status client node hash sequence source dest = do
  abi ← wrap "getting ics26 router abi" node.router_abi
  receipt ← map_not_found "getting transaction receipt" (tx_receipt client node hash)
  find_write_ack node sequence source dest receipt.logs

abbrev pub packet_of : SendPacket → PacketInfo
packet_of p = record {
  sequence = p.sequence;
  source_client = p.source_client;
  destination_client = p.dest_client;
  timeout_timestamp = unix (pos p.timeout_timestamp);
  timestamp = 0;
}

abbrev pub log_packet : Node → Option Log → Result (List PacketInfo) → Result (List PacketInfo)
log_packet node none rest = rest
log_packet node (some log) rest = do
  p ← wrap "parsing send packet event" (node.parse_send_packet log)
  packets ← rest
  ok (packet_of p ∷ packets)

-- The loop over the logs of a receipt.
unfoldable pub sent_packets : Node → List (Option Log) → Result (List PacketInfo)
unfolding log_of
sent_packets node [] = ok []
sent_packets node (log ∷ logs) =
    log_packet node (log_of (node.event_id "SendPacket") log) (sent_packets node logs)

-- The header is asked for only where there are packets.
unfoldable pub with_timestamps : Node → ℕ → List PacketInfo → Result (List PacketInfo)
with_timestamps node height [] = ok []
with_timestamps node height (p ∷ packets) = do
  header ← wrap "getting block header for height" (node.header (at_height height))
  ok (map (λ (q : PacketInfo). record q { timestamp = unix (pos header.time) }) (p ∷ packets))

-- `SendPacketsFromTx`
unfoldable pub send_packets_from_tx : Node → String → Result (List PacketInfo)
send_packets_from_tx node hash = do
  abi ← wrap "getting contract ABI for ics26 router" node.router_abi
  receipt ← wrap "getting transaction receipt for tx" (node.receipt hash)
  packets ← sent_packets node receipt.logs
  with_timestamps node receipt.block_number packets
