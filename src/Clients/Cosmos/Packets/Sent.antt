-- ===== src/Clients/Cosmos/Packets/Sent.antt =====
-- What `CosmosBridgeClient.SendPacketsFromTx` reads from the events of a tx that sends packets
-- (shared/bridges/ibcv2/cosmos_bridge_client.go).
use platform_relayer.Common.{ℕ, ◌≡◌, ◌<◌, false, String, List, [], ◌∷◌, str_eq, ◌≢◌}
use platform_relayer.Db.{Time, pos}
use platform_relayer.Bridge.{PacketInfo}
use platform_relayer.Batch.Hex.{codes}
use platform_relayer.Clients.Answers.{unix}
use platform_relayer.Clients.Number.{itoa}
use platform_relayer.Clients.Cosmos.{Event}
use platform_relayer.Clients.Cosmos.Packets.Attributes.{has_key, Says}

-- A number below 2 ^ 63, in print.
pub record Prints (text : String) (n : ℕ) : Type 0 where
  pub fits : n < 9223372036854775808
  pub printed : codes text ≡ itoa (pos n)

-- The event of a packet of IBC v2 between two named clients, among any other attributes.
pub record Sends (e : Event) (p : PacketInfo) : Type 0 where
  pub sequence : String
  pub timeout : String
  pub seconds : ℕ
  pub kind : e.kind ≡ "send_packet"
  pub says_source : Says "packet_source_client" p.source_client e.attributes
  pub says_dest : Says "packet_dest_client" p.destination_client e.attributes
  pub says_sequence : Says "packet_sequence" sequence e.attributes
  pub says_timeout : Says "packet_timeout_timestamp" timeout e.attributes
  pub sequence_prints : Prints sequence p.sequence
  pub timeout_prints : Prints timeout seconds
  pub timeout_lem : p.timeout_timestamp ≡ unix (pos seconds)
  pub source : p.source_client ≢ ""
  pub destination : p.destination_client ≢ ""
  pub unstamped : p.timestamp ≡ 0

-- The event of a packet of IBC v1, which names no clients.
pub record SendsV1 (e : Event) : Type 0 where
  pub sequence : String
  pub timeout : String
  pub number : ℕ
  pub seconds : ℕ
  pub kind : e.kind ≡ "send_packet"
  pub says_sequence : Says "packet_sequence" sequence e.attributes
  pub says_timeout : Says "packet_timeout_timestamp" timeout e.attributes
  pub no_source : has_key "packet_source_client" e.attributes ≡ false
  pub no_dest : has_key "packet_dest_client" e.attributes ≡ false
  pub sequence_prints : Prints sequence number
  pub timeout_prints : Prints timeout seconds

-- The events of a tx that sends these packets of IBC v2.
pub data Sent : List Event → List PacketInfo → Type 0 where
  none_left : Sent [] []
  other :
      {events : List Event} {packets : List PacketInfo} (e : Event)
      → str_eq e.kind "send_packet" ≡ false
      → Sent events packets
      → Sent (e ∷ events) packets
  send_v1 :
      {events : List Event} {packets : List PacketInfo} {e : Event}
      → SendsV1 e
      → Sent events packets
      → Sent (e ∷ events) packets
  send :
      {events : List Event} {packets : List PacketInfo} {e : Event} {p : PacketInfo}
      → Sends e p
      → Sent events packets
      → Sent (e ∷ events) (p ∷ packets)

v1_packet : ℕ → ℕ → PacketInfo
v1_packet n seconds = record {
  sequence = n;
  source_client = "";
  destination_client = "";
  timeout_timestamp = unix (pos seconds);
  timestamp = 0;
}

-- A packet with the time of its block.
abbrev pub stamp : Time → PacketInfo → PacketInfo
stamp t p = record p { timestamp = t }
