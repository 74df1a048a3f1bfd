-- ===== src/Clients/Acks.antt =====
-- What a tx has written for packets, and the status that `PacketWriteAckStatus` promises for one of
-- them, whatever the chain.
pub mod Agree
use platform_relayer.Clients.Answers.{error_acknowledgement}
use platform_relayer.Common.{
  ◌≡◌, ◌≢◌, true, false, ℕ, String, Bool, ◌&&◌, List, [], ◌∷◌, ◌==◌, str_eq, if◌then◌else◌,
}
use platform_relayer.Db.{WriteAckStatus, success, error}
use platform_relayer.Errors.{Result, ok, err, sentinel, write_ack_not_found_for_packet}
use platform_relayer.Clients.Cosmos.Packets.{ack_status}

pub record WriteAck : Type 0 where
  pub sequence : ℕ  -- uint64
  pub source_client : String
  pub dest_client : String
  pub acknowledgements : List (List ℕ)

abbrev pub acks_packet : ℕ → String → String → WriteAck → Bool
acks_packet sequence source dest w =
    w.sequence == sequence && str_eq w.source_client source && str_eq w.dest_client dest

-- The status of the first ack for the packet.
unfoldable pub promised_status : ℕ → String → String → List WriteAck → Result WriteAckStatus
promised_status sequence source dest [] = err (sentinel write_ack_not_found_for_packet)
promised_status sequence source dest (w ∷ acks) =
    if acks_packet sequence source dest w
    then ok (ack_status w.acknowledgements)
    else promised_status sequence source dest acks

-- The status that is promised for a packet: of the first ack that is written for it, an error exactly if
-- the universal error is its one app ack.
pub data Promised (sequence : ℕ) (source dest : String)
    : List WriteAck → Result WriteAckStatus → Type 0 where
  unwritten : Promised sequence source dest [] (err (sentinel write_ack_not_found_for_packet))
  later :
      {w : WriteAck} {acks : List WriteAck} {r : Result WriteAckStatus}
      → acks_packet sequence source dest w ≡ false
      → Promised sequence source dest acks r
      → Promised sequence source dest (w ∷ acks) r
  refused :
      {w : WriteAck} {acks : List WriteAck}
      → acks_packet sequence source dest w ≡ true
      → w.acknowledgements ≡ error_acknowledgement ∷ []
      → Promised sequence source dest (w ∷ acks) (ok error)
  accepted :
      {w : WriteAck} {acks : List WriteAck}
      → acks_packet sequence source dest w ≡ true
      → w.acknowledgements ≢ error_acknowledgement ∷ []
      → Promised sequence source dest (w ∷ acks) (ok success)
