-- ===== src/Clients/Cosmos/Packets/Laws.antt =====
-- What the events of a Cosmos tx say and what `CosmosBridgeClient` reads from them
-- (shared/bridges/ibcv2/cosmos_bridge_client.go).
use platform_relayer.Common.{
  ℕ, ◌≡◌, refl, ◌<◌, true, false, String, List, [], ◌∷◌, some, ◌==◌, ==_iff, str_eq, arith, inl,
  inr, Bool-cases, ap, sym, ◌∙◌,
}
use platform_relayer.Db.{pos}
use platform_relayer.Errors.{ok}
use platform_relayer.Batch.Hex.{codes, decode_string}
use platform_relayer.Clients.Answers.{bytes_equal}
use platform_relayer.Clients.Number.{itoa, atoi, to_int}
use platform_relayer.Clients.Number.Laws.{atoi-itoa_pos}
use platform_relayer.Clients.Cosmos.{Attribute, Event, Node}
use platform_relayer.Clients.Cosmos.Packets.{
  match_attributes, no_matches, all_match, parse_write_ack_status, decoded_ack, find_write_ack,
  ack_status,
}
use platform_relayer.Clients.Cosmos.Packets.Attributes.{
  Says, match_attributes_lem, parse_write_ack_status_lem,
}
use platform_relayer.Clients.Acks.{WriteAck, acks_packet, promised_status}

pub bytes_equal_sound : (xs ys : List ℕ) → bytes_equal xs ys ≡ true → xs ≡ ys
unfolding bytes_equal
bytes_equal_sound [] [] h = refl
bytes_equal_sound [] (y ∷ ys) h = absurd (cc)
bytes_equal_sound (x ∷ xs) [] h = absurd (cc)
bytes_equal_sound (x ∷ xs) (y ∷ ys) h = ground (arith, bytes_equal_sound xs ys)

pub bytes_equal_refl : (xs : List ℕ) → bytes_equal xs xs ≡ true
unfolding bytes_equal
bytes_equal_refl [] = refl
bytes_equal_refl (x ∷ xs) = ground (arith, bytes_equal_refl xs)

itoa_inj :
    (a b : ℕ)
    → a < 9223372036854775808
    → b < 9223372036854775808
    → itoa (pos a) ≡ itoa (pos b)
    → a ≡ b
itoa_inj a b ha hb h = cc (ap atoi h, atoi-itoa_pos a ha, atoi-itoa_pos b hb)

-- Two prints are the same text only for the same number.
itoa-equal :
    (a b : ℕ)
    → a < 9223372036854775808
    → b < 9223372036854775808
    → bytes_equal (itoa (pos a)) (itoa (pos b)) ≡ (a == b)
itoa-equal a b ha hb = elim (Bool-cases (a == b)) [
  | inl same ↦ rw ((==_iff a b).0 same) (bytes_equal_refl (itoa (pos b)) ∙ ground arith)
  | inr differ ↦ elim (Bool-cases (bytes_equal (itoa (pos a)) (itoa (pos b)))) [
    | inl hit ↦
        absurd
          (ground (arith, itoa_inj a b ha hb (bytes_equal_sound (itoa (pos a)) (itoa (pos b)) hit)))
    | inr miss ↦ miss ∙ sym differ
  ]
]

to_int-pos : (n : ℕ) → n < 9223372036854775808 → to_int n ≡ pos n
unfolding to_int
to_int-pos n h = ground arith

abbrev pub attribute : String → String → Attribute
attribute key value = record { key = key; value = value }

-- The event of one ack: its number in print, its bytes in hex, among any other attributes.
pub record Writes (node : Node) (e : Event) (w : WriteAck) : Type 0 where
  pub sequence : String
  pub encoded : String
  pub bytes : List ℕ
  pub kind : e.kind ≡ "write_acknowledgement"
  pub says_sequence : Says "packet_sequence" sequence e.attributes
  pub says_source : Says "packet_source_client" w.source_client e.attributes
  pub says_dest : Says "packet_dest_client" w.dest_client e.attributes
  pub says_ack : Says "encoded_acknowledgement_hex" encoded e.attributes
  pub fits : w.sequence < 9223372036854775808
  pub printed : codes sequence ≡ itoa (pos w.sequence)
  pub decodes : decode_string encoded ≡ some bytes
  pub unmarshals : node.unmarshal_ack bytes ≡ ok w.acknowledgements

-- The events of a tx that writes these acks, among events of other kinds.
pub data Written (node : Node) : List Event → List WriteAck → Type 0 where
  none_left : Written node [] []
  other :
      {events : List Event} {acks : List WriteAck} (e : Event)
      → str_eq e.kind "write_acknowledgement" ≡ false
      → Written node events acks
      → Written node (e ∷ events) acks
  write :
      {events : List Event} {acks : List WriteAck} {e : Event} {w : WriteAck}
      → Writes node e w
      → Written node events acks
      → Written node (e ∷ events) (w ∷ acks)

matches_lem :
    {node : Node} {e : Event} {w : WriteAck} (n : ℕ) (source dest : String)
    → n < 9223372036854775808
    → Writes node e w
    → all_match (match_attributes n source dest e.attributes no_matches)
      ≡ acks_packet n source dest w
matches_lem {e} {w} n source dest fits h =
    rw
      (
        match_attributes_lem n source dest h.sequence w.source_client w.dest_client e.attributes
            no_matches h.says_sequence.1 h.says_source.1 h.says_dest.1,
        h.says_sequence.0,
        h.says_source.0,
        h.says_dest.0,
        h.printed,
        to_int-pos n fits,
        itoa-equal w.sequence n h.fits fits,
      )
      (ground arith)

parse_lem :
    {node : Node} {e : Event} {w : WriteAck}
    → Writes node e w
    → parse_write_ack_status node e.attributes ≡ ok (ack_status w.acknowledgements)
unfolding decoded_ack
parse_lem {node} {e} h =
    parse_write_ack_status_lem node h.encoded e.attributes h.says_ack.0 h.says_ack.1
    ∙ rw (h.decodes, h.unmarshals) refl

-- The loop over the events finds the status that is promised.
pub find_write_ack-promised :
    {node : Node} {events : List Event} {acks : List WriteAck} (n : ℕ) (source dest : String)
    → n < 9223372036854775808
    → Written node events acks
    → find_write_ack node n source dest events ≡ promised_status n source dest acks
unfolding find_write_ack promised_status
find_write_ack-promised n source dest fits none_left = refl
find_write_ack-promised n source dest fits (other e differs rest) =
    rw differs (find_write_ack-promised n source dest fits rest)
find_write_ack-promised n source dest fits (write {e} {w} h rest) =
    rw (matches_lem n source dest fits h, parse_lem h, h.kind)
      (ground (arith, find_write_ack-promised n source dest fits rest))
