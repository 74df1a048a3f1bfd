-- ===== src/Clients/Cosmos/Packets/Attributes.antt =====
-- What the attributes of an event say, in whatever order they stand and whatever other attributes
-- stand between them.
use platform_relayer.Common.{
  ℕ, ◌≡◌, refl, ◌⊎◌, inl, inr, Bool, true, false, ◌||◌, ◌&&◌, String, List, [], ◌∷◌, some, str_eq,
  str_eq_iff, arith, Bool-cases, if◌then◌else◌, sym, ap, subst, ◌∙◌,
}
use platform_relayer.Db.{pos}
use platform_relayer.Errors.{ok}
use platform_relayer.Bridge.{PacketInfo}
use platform_relayer.Batch.Hex.{codes, decode_string}
use platform_relayer.Clients.Answers.{bytes_equal, unix}
use platform_relayer.Clients.Number.{itoa, atoi, to_int, to_uint64}
use platform_relayer.Clients.Cosmos.{Attribute, Node}
use platform_relayer.Clients.Cosmos.Packets.{
  Matches, match_attribute, match_attributes, parse_write_ack_status, decoded_ack, read_attribute,
  read_attributes,
}

-- Whether a key stands there.
unfoldable pub has_key : String → List Attribute → Bool
has_key key [] = false
has_key key (a ∷ attributes) = str_eq a.key key || has_key key attributes

-- Each attribute with the key has the value.
unfoldable pub Each : String → String → List Attribute → Type 0
Each key value [] = Unit {0}
Each key value (a ∷ attributes) =
    ((str_eq a.key key ≡ false) ⊎ (a.value ≡ value)) × Each key value attributes

-- The key stands there, with this value alone.
abbrev pub Says : String → String → List Attribute → Type 0
Says key value attributes = (has_key key attributes ≡ true) × Each key value attributes

-- One attribute before the others.
joined :
    (x k h b c : Bool) → (k ≡ false) ⊎ (b ≡ c) → ((x || k && b) || h && c) ≡ (x || (k || h) && c)
joined x k h b c (inl miss) = ground (arith, miss)
joined x k h b c (inr same) = ground (arith, same)

text_or :
    {k : Bool} {v w : String} (f : String → Bool)
    → (k ≡ false) ⊎ (v ≡ w)
    → (k ≡ false) ⊎ (f v ≡ f w)
text_or f (inl miss) = inl miss
text_or f (inr same) = inr (ap f same)

-- The tests that one attribute passes.
abbrev tested : ℕ → String → String → String → String → Matches → Matches
tested n source dest key value m = record {
  sequence =
      m.sequence || (str_eq key "packet_sequence" && bytes_equal (codes value) (itoa (to_int n)));
  source_client = m.source_client || (str_eq key "packet_source_client" && str_eq value source);
  dest_client = m.dest_client || (str_eq key "packet_dest_client" && str_eq value dest);
}

match_one :
    (n : ℕ) (source dest key value : String) (m : Matches)
    → match_attribute n source dest (record { key = key; value = value }) m
      ≡ tested n source dest key value m
unfolding match_attribute
match_one n source dest key value m = elim (Bool-cases (str_eq key "packet_sequence")) [
  | inl hit ↦
      subst
        (λ k.
          match_attribute n source dest (record { key = k; value = value }) m
          ≡ tested n source dest k value m)
        (sym ((str_eq_iff key "packet_sequence").0 hit))
        (elim (Bool-cases (bytes_equal (codes value) (itoa (to_int n)))) [
          | inl fits ↦ rw fits (ground arith)
          | inr differs ↦ rw differs (ground arith)
        ])
  | inr miss ↦ elim (Bool-cases (str_eq key "packet_source_client")) [
    | inl hit ↦
        subst
          (λ k.
            match_attribute n source dest (record { key = k; value = value }) m
            ≡ tested n source dest k value m)
          (sym ((str_eq_iff key "packet_source_client").0 hit))
          (elim (Bool-cases (str_eq value source)) [
            | inl fits ↦ rw fits (ground arith)
            | inr differs ↦ rw differs (ground arith)
          ])
    | inr miss2 ↦ elim (Bool-cases (str_eq key "packet_dest_client")) [
      | inl hit ↦
          subst
            (λ k.
              match_attribute n source dest (record { key = k; value = value }) m
              ≡ tested n source dest k value m)
            (sym ((str_eq_iff key "packet_dest_client").0 hit))
            (elim (Bool-cases (str_eq value dest)) [
              | inl fits ↦ rw fits (ground arith)
              | inr differs ↦ rw differs (ground arith)
            ])
      | inr miss3 ↦ rw (miss, miss2, miss3) (ground arith)
    ]
  ]
]

-- The three tests for a packet, over all attributes.
pub match_attributes_lem :
    (n : ℕ) (source dest sequence_text source_text dest_text : String) (attributes : List Attribute)
    (m : Matches)
    → Each "packet_sequence" sequence_text attributes
    → Each "packet_source_client" source_text attributes
    → Each "packet_dest_client" dest_text attributes
    → match_attributes n source dest attributes m ≡ record {
      sequence =
          m.sequence
          || (has_key "packet_sequence" attributes
              && bytes_equal (codes sequence_text) (itoa (to_int n)));
      source_client =
          m.source_client
          || (has_key "packet_source_client" attributes && str_eq source_text source);
      dest_client =
          m.dest_client || (has_key "packet_dest_client" attributes && str_eq dest_text dest);
    }
unfolding match_attributes match_attribute has_key Each
match_attributes_lem n source dest st so de [] m h1 h2 h3 = ground arith
match_attributes_lem n source dest st so de (a ∷ attributes) m h1 h2 h3 =
    let m' = match_attribute n source dest a m in
    let step = match_one n source dest a.key a.value m in
    let rest = match_attributes_lem n source dest st so de attributes m' h1.1 h2.1 h3.1 in
    let first =
      joined m.sequence (str_eq a.key "packet_sequence") (has_key "packet_sequence" attributes)
        (bytes_equal (codes a.value) (itoa (to_int n))) (bytes_equal (codes st) (itoa (to_int n)))
        (text_or (λ v. bytes_equal (codes v) (itoa (to_int n))) h1.0) in
    let second =
      joined m.source_client (str_eq a.key "packet_source_client")
        (has_key "packet_source_client" attributes) (str_eq a.value source) (str_eq so source)
        (text_or (λ v. str_eq v source) h2.0) in
    let third =
      joined m.dest_client (str_eq a.key "packet_dest_client")
        (has_key "packet_dest_client" attributes) (str_eq a.value dest) (str_eq de dest)
        (text_or (λ v. str_eq v dest) h3.0) in
    rest
    ∙ cc (
      ap Matches.sequence step,
      ap Matches.source_client step,
      ap Matches.dest_client step,
      first,
      second,
      third,
    )

-- The bytes of an ack, where the event says them.
pub parse_write_ack_status_lem :
    (node : Node) (encoded : String) (attributes : List Attribute)
    → has_key "encoded_acknowledgement_hex" attributes ≡ true
    → Each "encoded_acknowledgement_hex" encoded attributes
    → parse_write_ack_status node attributes ≡ decoded_ack node (decode_string encoded)
unfolding parse_write_ack_status has_key Each
parse_write_ack_status_lem node encoded [] has each = absurd (cc)
parse_write_ack_status_lem node encoded (a ∷ attributes) has (inl miss, each) =
    rw miss (parse_write_ack_status_lem node encoded attributes (ground (arith, has, miss)) each)
parse_write_ack_status_lem node encoded (a ∷ attributes) has (inr same, each) =
    elim (Bool-cases (str_eq a.key "encoded_acknowledgement_hex")) [
      | inl hit ↦ rw hit (ap (λ v. decoded_ack node (decode_string v)) same)
      | inr miss ↦
          rw miss
            (parse_write_ack_status_lem node encoded attributes (ground (arith, has, miss)) each)
    ]

-- What a send event says is read into a packet.
abbrev pub read_into : ℕ → String → String → ℕ → List Attribute → PacketInfo → PacketInfo
read_into n source dest seconds attributes p = record p {
  sequence = if has_key "packet_sequence" attributes then n else p.sequence;
  source_client = if has_key "packet_source_client" attributes then source else p.source_client;
  destination_client =
      if has_key "packet_dest_client" attributes then dest else p.destination_client;
  timeout_timestamp =
      if has_key "packet_timeout_timestamp" attributes
      then unix (pos seconds)
      else p.timeout_timestamp;
}

abbrev reads_one : ℕ → String → String → ℕ → String → PacketInfo → PacketInfo
reads_one n source dest seconds key p = record p {
  sequence = if str_eq key "packet_sequence" then n else p.sequence;
  source_client = if str_eq key "packet_source_client" then source else p.source_client;
  destination_client = if str_eq key "packet_dest_client" then dest else p.destination_client;
  timeout_timestamp =
      if str_eq key "packet_timeout_timestamp" then unix (pos seconds) else p.timeout_timestamp;
}

read_one :
    (n : ℕ) (source dest : String) (seconds : ℕ) (sequence_text timeout_text key value : String)
    (p : PacketInfo)
    → atoi (codes sequence_text) ≡ some (pos n)
    → atoi (codes timeout_text) ≡ some (pos seconds)
    → (str_eq key "packet_sequence" ≡ false) ⊎ (value ≡ sequence_text)
    → (str_eq key "packet_source_client" ≡ false) ⊎ (value ≡ source)
    → (str_eq key "packet_dest_client" ≡ false) ⊎ (value ≡ dest)
    → (str_eq key "packet_timeout_timestamp" ≡ false) ⊎ (value ≡ timeout_text)
    → read_attribute (record { key = key; value = value }) p
      ≡ ok (reads_one n source dest seconds key p)
unfolding read_attribute to_uint64
read_one n source dest seconds st tt' key value p hs ht h1 h2 h3 h4 =
    elim (Bool-cases (str_eq key "packet_sequence")) [
      | inl hit ↦
          subst Goal (sym ((str_eq_iff key "packet_sequence").0 hit))
            (rw (value_of hit h1, hs) refl)
      | inr miss ↦ elim (Bool-cases (str_eq key "packet_source_client")) [
        | inl hit ↦
            subst Goal (sym ((str_eq_iff key "packet_source_client").0 hit))
              (rw (value_of hit h2) refl)
        | inr miss2 ↦ elim (Bool-cases (str_eq key "packet_dest_client")) [
          | inl hit ↦
              subst Goal (sym ((str_eq_iff key "packet_dest_client").0 hit))
                (rw (value_of hit h3) refl)
          | inr miss3 ↦ elim (Bool-cases (str_eq key "packet_timeout_timestamp")) [
            | inl hit ↦
                subst Goal (sym ((str_eq_iff key "packet_timeout_timestamp").0 hit))
                  (rw (value_of hit h4, ht) refl)
            | inr miss4 ↦ rw (miss, miss2, miss3, miss4) refl
          ]
        ]
      ]
    ]
  where
    Goal : String → Type 0
    Goal k =
        read_attribute (record { key = k; value = value }) p
        ≡ ok (reads_one n source dest seconds k p)

    value_of : {k : Bool} {w : String} → k ≡ true → (k ≡ false) ⊎ (value ≡ w) → value ≡ w
    value_of hit (inl miss) = absurd (cc (hit, miss))
    value_of hit (inr same) = same

pub read_attributes_lem :
    (n : ℕ) (source dest : String) (seconds : ℕ) (sequence_text timeout_text : String)
    (attributes : List Attribute) (p : PacketInfo)
    → atoi (codes sequence_text) ≡ some (pos n)
    → atoi (codes timeout_text) ≡ some (pos seconds)
    → Each "packet_sequence" sequence_text attributes
    → Each "packet_source_client" source attributes
    → Each "packet_dest_client" dest attributes
    → Each "packet_timeout_timestamp" timeout_text attributes
    → read_attributes attributes p ≡ ok (read_into n source dest seconds attributes p)
unfolding read_attributes has_key Each
read_attributes_lem n source dest seconds st tt' [] p hs ht h1 h2 h3 h4 = refl
read_attributes_lem n source dest seconds st tt' (a ∷ attributes) p hs ht h1 h2 h3 h4 =
    rw (read_one n source dest seconds st tt' a.key a.value p hs ht h1.0 h2.0 h3.0 h4.0) (
      read_attributes_lem n source dest seconds st tt' attributes
        (reads_one n source dest seconds a.key p) hs ht h1.1 h2.1 h3.1 h4.1
      ∙ ground arith)
