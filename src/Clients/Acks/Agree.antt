-- ===== src/Clients/Acks/Agree.antt =====
-- `PacketWriteAckStatus` of both bridge clients against what it promises: the same for what a Cosmos
-- tx and an EVM tx write (shared/bridges/ibcv2/cosmos_bridge_client.go and evm_bridge_client.go).
use platform_relayer.Common.{
  ℕ, ◌≡◌, refl, ◌<◌, ◌≢◌, String, List, [], ◌∷◌, Option, none, some, arith, false, true, ◌⊎◌, inl,
  inr, ap, sym, subst, ◌∙◌, Bool-cases,
}
use platform_relayer.Errors.{ok}
use platform_relayer.Batch.Hex.{decode_string}
use platform_relayer.Clients.Answers.{decoded, map_not_found, bytes_equal, error_acknowledgement}
use platform_relayer.Clients.Cosmos
use platform_relayer.Clients.Cosmos.Packets
use platform_relayer.Clients.Cosmos.Packets.Laws.{Written, find_write_ack-promised}
use platform_relayer.Clients.Evm.{
  Log, Receipt, WriteAcknowledgement, Node, EvmBridgeClient, tx_receipt,
}
use platform_relayer.Clients.Evm.Packets.{
  has_topic, log_of, status_or, find_write_ack, packet_write_ack_status,
}
use platform_relayer.Clients.Cosmos.Packets.{ack_status}
use platform_relayer.Clients.Cosmos.Packets.Laws.{bytes_equal_sound, bytes_equal_refl}
use platform_relayer.Clients.Acks.{
  WriteAck, acks_packet, promised_status, Promised, unwritten, later, refused, accepted,
}
use mathlib.Core.Bool.{false≢true}
use platform_relayer.Db.{success, error}

-- A log that is missing, or whose first topic is not the event's.
abbrev pub OtherTopics : ℕ → List ℕ → Type 0
OtherTopics id [] = Unit
OtherTopics id (topic ∷ topics) = id ≢ topic

abbrev pub OtherLog : ℕ → Option Log → Type 0
OtherLog id none = Unit
OtherLog id (some log) = OtherTopics id log.topics

abbrev pub evm_ack : WriteAck → WriteAcknowledgement
evm_ack w = record {
  sequence = w.sequence;
  source_client = w.source_client;
  dest_client = w.dest_client;
  acknowledgements = w.acknowledgements;
}

-- The logs of a tx that writes these acks, among other logs.
pub data WrittenLogs (node : Node) : List (Option Log) → List WriteAck → Type 0 where
  none_left : WrittenLogs node [] []
  other :
      {logs : List (Option Log)} {acks : List WriteAck} (log : Option Log)
      → OtherLog (node.event_id "WriteAcknowledgement") log
      → WrittenLogs node logs acks
      → WrittenLogs node (log ∷ logs) acks
  write :
      {logs : List (Option Log)} {acks : List WriteAck} (log : Log) (topics : List ℕ) (w : WriteAck)
      → log.topics ≡ node.event_id "WriteAcknowledgement" ∷ topics
      → node.parse_write_acknowledgement log ≡ ok (evm_ack w)
      → WrittenLogs node logs acks
      → WrittenLogs node (some log ∷ logs) (w ∷ acks)

other_topics : (id : ℕ) (topics : List ℕ) → OtherTopics id topics → has_topic id topics ≡ false
other_topics id [] h = refl
other_topics id (topic ∷ topics) h = ground (arith, h)

other_log : (id : ℕ) (log : Option Log) → OtherLog id log → log_of id log ≡ none
unfolding log_of
other_log id none h = refl
other_log id (some log) h = rw (other_topics id log.topics h) refl

same_topic :
    (id : ℕ) (log : Log) (topics : List ℕ)
    → log.topics ≡ id ∷ topics
    → log_of id (some log) ≡ some log
unfolding log_of
same_topic id log topics h = rw h (ground (arith))

evm_promised :
    {node : Node} {logs : List (Option Log)} {acks : List WriteAck} (n : ℕ) (source dest : String)
    → WrittenLogs node logs acks
    → find_write_ack node n source dest logs ≡ promised_status n source dest acks
unfolding find_write_ack promised_status status_or
evm_promised n source dest none_left = refl
evm_promised {node} n source dest (other log h rest) =
    rw (other_log (node.event_id "WriteAcknowledgement") log h) (evm_promised n source dest rest)
evm_promised {node} n source dest (write log topics w topic parses rest) =
    rw (same_topic (node.event_id "WriteAcknowledgement") log topics topic, parses)
      (ground (arith, evm_promised n source dest rest))

ack_status-cases :
    (acks : List (List ℕ))
    → ((acks ≡ error_acknowledgement ∷ []) × (ack_status acks ≡ error))
      ⊎ ((acks ≢ error_acknowledgement ∷ []) × (ack_status acks ≡ success))
unfolding ack_status
ack_status-cases [] = inr (λ e. absurd (cc (e)), refl)
ack_status-cases (ack ∷ []) = elim (Bool-cases (bytes_equal ack error_acknowledgement)) [
  | inl hit ↦ inl (ap (λ a. a ∷ []) (bytes_equal_sound ack error_acknowledgement hit), rw hit refl)
  | inr miss ↦ inr (
    λ e. absurd (
        false≢true (
          sym miss
          ∙ subst (λ a. bytes_equal a error_acknowledgement ≡ true) (sym (cc (e)))
              (bytes_equal_refl error_acknowledgement))),
    rw miss refl,
  )
]
ack_status-cases (a ∷ b ∷ acks) = inr (λ e. absurd (cc (e)), refl)

promised_status-Promised :
    (n : ℕ) (source dest : String) (acks : List WriteAck)
    → Promised n source dest acks (promised_status n source dest acks)
unfolding promised_status
promised_status-Promised n source dest [] = unwritten
promised_status-Promised n source dest (w ∷ acks) =
    elim (Bool-cases (acks_packet n source dest w)) [
      | inr foreign ↦ rw foreign (later foreign (promised_status-Promised n source dest acks))
      | inl own ↦ elim (ack_status-cases w.acknowledgements) [
        | inl (universal, status) ↦ rw (own, status) (refused own universal)
        | inr (another, status) ↦ rw (own, status) (accepted own another)
      ]
    ]

-- Where a tx of a Cosmos chain and a tx of an EVM chain write the same acks and the clients see them, each
-- client answers, for a packet, the status of the first ack that is written for it, error exactly if
-- the universal error is its one app ack and else success, and ErrWriteAckNotFoundForPacket where none
-- is written, if sequence numbers are below 2 ^ 63.
pub packet_write_ack_status-promised :
    (cosmos : Cosmos.CosmosBridgeClient) (evm : EvmBridgeClient) (cosmos_node : Cosmos.Node)
    (evm_node : Node) (hash evm_hash : String) (bytes : List ℕ) (result : Cosmos.ResultTx)
    (receipt : Receipt) (acks : List WriteAck) (n : ℕ) (source dest : String)
    → n < 9223372036854775808
    → decode_string hash ≡ some bytes
    → Cosmos.tx_result cosmos cosmos_node hash bytes ≡ ok result
    → Written cosmos_node result.events acks
    → evm_node.router_abi ≡ ok tt
    → tx_receipt evm evm_node evm_hash ≡ ok receipt
    → WrittenLogs evm_node receipt.logs acks
    → Promised n source dest acks
        (Packets.packet_write_ack_status cosmos cosmos_node hash n source dest)
      × Promised n source dest acks (packet_write_ack_status evm evm_node evm_hash n source dest)
unfolding packet_write_ack_status Packets.packet_write_ack_status decoded map_not_found
packet_write_ack_status-promised cosmos evm cosmos_node evm_node hash evm_hash bytes result receipt
      acks n source dest fits decodes found written abi seen logs =
    (
      rw (decodes, found, find_write_ack-promised n source dest fits written)
          (promised_status-Promised n source dest acks),
      subst (Promised n source dest acks) (sym (simp (abi, seen) (evm_promised n source dest logs)))
          (promised_status-Promised n source dest acks),
    )
