-- ===== src/Clients/Cosmos/Packets.antt =====
-- The methods of `CosmosBridgeClient` that look at packets, in
-- shared/bridges/ibcv2/cosmos_bridge_client.go.
pub mod Attributes
pub mod Laws
pub mod Sent
use platform_relayer.Common.{
  ℕ, String, Bool, true, false, not, ◌&&◌, ◌||◌, List, [], ◌∷◌, map, Option, none, some, ◌==◌,
  str_eq, if◌then◌else◌,
}
use platform_relayer.Db.{Time, WriteAckStatus, success, error, unknown, ℤ}
use platform_relayer.Errors.{
  Error, Result, ok, err, wrap, sentinel, message, external, joined, write_ack_decoding,
  write_ack_not_found_for_packet,
}
use platform_relayer.Bridge.{PacketInfo}
use platform_relayer.Batch.Hex.{codes, decode_string}
use platform_relayer.Clients.Answers.{
  ◌>>=◌, map_not_found, decoded, unix, bytes_equal, error_acknowledgement,
}
use platform_relayer.Clients.Number.{itoa, atoi, to_int, to_uint64}
use platform_relayer.Clients.Cosmos.{
  Attribute, Event, ResultTx, Node, CosmosBridgeClient, tx_result,
}

-- `IsPacketReceived`
abbrev pub is_packet_received : Node → String → ℕ → Result Bool
is_packet_received node client_id sequence =
    wrap "querying for packet receipt" (node.packet_receipt client_id sequence)

-- An error is no commitment if the status code of gRPC says so.
unfoldable pub commitment_of : Node → Result (Unit {0}) → Result Bool
commitment_of node (ok u) = ok true
commitment_of node (err e) =
    if node.is_not_found_code e then ok false else wrap "querying for packet commitment" (err e)

-- `IsPacketCommitted`
abbrev pub is_packet_committed : Node → String → ℕ → Result Bool
is_packet_committed node client_id sequence =
    commitment_of node (node.packet_commitment client_id sequence)

pub record Matches : Type 0 where
  pub sequence : Bool
  pub source_client : Bool
  pub dest_client : Bool

-- The `switch` of the loop over an event's attributes.
unfoldable pub match_attribute : ℕ → String → String → Attribute → Matches → Matches
match_attribute sequence source dest a m =
    if str_eq a.key "packet_sequence"
    then (if bytes_equal (codes a.value) (itoa (to_int sequence))
        then record m { sequence = true }
        else m)
    else if str_eq a.key "packet_source_client"
    then (if str_eq a.value source then record m { source_client = true } else m)
    else if str_eq a.key "packet_dest_client"
    then (if str_eq a.value dest then record m { dest_client = true } else m)
    else m

unfoldable pub match_attributes : ℕ → String → String → List Attribute → Matches → Matches
unfolding match_attribute
match_attributes sequence source dest [] m = m
match_attributes sequence source dest (a ∷ attributes) m =
    match_attributes sequence source dest attributes (match_attribute sequence source dest a m)

abbrev pub no_matches : Matches
no_matches = record { sequence = false; source_client = false; dest_client = false }

abbrev pub all_match : Matches → Bool
all_match m = m.sequence && m.source_client && m.dest_client

-- The status of an ack that has these app acks.
unfoldable pub ack_status : List (List ℕ) → WriteAckStatus
ack_status [] = success
ack_status (ack ∷ []) = if bytes_equal ack error_acknowledgement then error else success
ack_status (a ∷ b ∷ acks) = success

-- The answer of `proto.Unmarshal`.
abbrev pub unmarshaled_ack : Result (List (List ℕ)) → Result WriteAckStatus
unmarshaled_ack (ok acks) = ok (ack_status acks)
unmarshaled_ack (err e) = err (joined (sentinel write_ack_decoding) e)

unfoldable pub decoded_ack : Node → Option (List ℕ) → Result WriteAckStatus
decoded_ack node none = err (joined (sentinel write_ack_decoding) (external "encoding/hex"))
decoded_ack node (some bytes) = unmarshaled_ack (node.unmarshal_ack bytes)

-- `parseWriteAckStatusForPacket`
unfoldable pub parse_write_ack_status : Node → List Attribute → Result WriteAckStatus
parse_write_ack_status node [] = ok unknown
parse_write_ack_status node (a ∷ attributes) =
    if str_eq a.key "encoded_acknowledgement_hex"
    then decoded_ack node (decode_string a.value)
    else parse_write_ack_status node attributes

-- The loop over the events of a tx.
unfoldable pub find_write_ack : Node → ℕ → String → String → List Event → Result WriteAckStatus
find_write_ack node sequence source dest [] = err (sentinel write_ack_not_found_for_packet)
find_write_ack node sequence source dest (e ∷ events) =
    if str_eq e.kind "write_acknowledgement"
      && all_match (match_attributes sequence source dest e.attributes no_matches)
    then parse_write_ack_status node e.attributes
    else find_write_ack node sequence source dest events

-- `PacketWriteAckStatus`
unfoldable pub packet_write_ack_status :
    CosmosBridgeClient → Node → String → ℕ → String → String → Result WriteAckStatus
packet_write_ack_status client node hash sequence source dest = do
  bytes ← decoded "hex decoding tx hash string" (decode_string hash)
  result ← map_not_found "getting tx's result" (tx_result client node hash bytes)
  find_write_ack node sequence source dest result.events

abbrev pub new_packet : PacketInfo
new_packet = record {
  sequence = 0;
  source_client = "";
  destination_client = "";
  timeout_timestamp = 0;
  timestamp = 0;
}

abbrev pub with_number : String → (ℤ → PacketInfo) → Option ℤ → Result PacketInfo
with_number text f none = err (message text)
with_number text f (some i) = ok (f i)

-- The `switch` over an attribute of a send event.
unfoldable pub read_attribute : Attribute → PacketInfo → Result PacketInfo
read_attribute a p =
    if str_eq a.key "packet_sequence"
    then with_number "converting packet sequence to int" (λ i. record p { sequence = to_uint64 i })
        (atoi (codes a.value))
    else if str_eq a.key "packet_source_client"
    then ok (record p { source_client = a.value })
    else if str_eq a.key "packet_dest_client"
    then ok (record p { destination_client = a.value })
    else if str_eq a.key "packet_timeout_timestamp"
    then with_number "converting attribute timeout ts to int"
        (λ i. record p { timeout_timestamp = unix i }) (atoi (codes a.value))
    else ok p

unfoldable pub read_attributes : List Attribute → PacketInfo → Result PacketInfo
read_attributes [] p = ok p
read_attributes (a ∷ attributes) p = do q ← read_attribute a p; read_attributes attributes q

-- A packet of IBC v1 names no clients.
abbrev pub names_clients : PacketInfo → Bool
names_clients p = not (str_eq p.source_client "" || str_eq p.destination_client "")

-- The loop over the events of a tx.
unfoldable pub sent_packets : List Event → Result (List PacketInfo)
sent_packets [] = ok []
sent_packets (e ∷ events) =
    let rest = sent_packets events in
    if str_eq e.kind "send_packet"
    then (do
      p ← read_attributes e.attributes new_packet
      packets ← rest
      ok (if names_clients p then p ∷ packets else packets))
    else rest

-- `Header` with the tests for an error and for a missing header.
unfoldable pub header_time : String → Result (Option Time) → Result Time
header_time text (err e) = wrap text (err e)
header_time text (ok none) = err (message "got nil header")
header_time text (ok (some t)) = ok t

-- The header is asked for only where there are packets.
unfoldable pub with_timestamps : Node → ℕ → List PacketInfo → Result (List PacketInfo)
with_timestamps node height [] = ok []
with_timestamps node height (p ∷ packets) = do
  t ← header_time "getting header for height" (node.header height)
  ok (map (λ (q : PacketInfo). record q { timestamp = t }) (p ∷ packets))

-- `SendPacketsFromTx`
unfoldable pub send_packets_from_tx : Node → String → Result (List PacketInfo)
send_packets_from_tx node hash = do
  bytes ← decoded "hex decoding tx hash" (decode_string hash)
  result ← wrap "getting tx result" (node.tx bytes)
  packets ← sent_packets result.events
  with_timestamps node result.height packets
