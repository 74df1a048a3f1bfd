-- ===== src/Batch/Requests.antt =====
-- Which tx ids an ack batch asks the relay service for (relayer/ibcv2/batch_ack_packet.go).
use platform_relayer.Common.{
  ℕ, ◌≡◌, refl, sym, ◌∙◌, String, true, false, ◌⊎◌, ◌↔◌, ap, ==_iff, str_eq, str_eq_iff, List, [],
  ◌∷◌, ◌++◌, some, arith, Bool-cases, Option-cases, inl, inr,
}
use platform_relayer.Among.{Among, here, there}
use platform_relayer.Batch.Hex.{decode_tx_hash}
use platform_relayer.Batch.Submit.{Memory, Gathered, nothing_gathered, contains, gather}
use platform_relayer.Batch.Ack

-- A list of keys names none twice.
abbrev pub Distinct : List String → Type 0
Distinct [] = Unit {0}
Distinct (k ∷ keys) = (contains k keys ≡ false) × Distinct keys

-- Each tx id comes from the key that was added with it; keys are added in front, ids at the end.
abbrev pub Decoded : List String → List (List ℕ) → Type 0
Decoded [] ids = ids ≡ []
Decoded (k ∷ keys) ids =
    (before : List (List ℕ)) × (id : List ℕ) × (ids ≡ before ++ id ∷ [])
    × (decode_tx_hash k ≡ some id)
    × Decoded keys before

abbrev OnePerKey : Gathered → Type 0
OnePerKey g = Distinct g.tx_set × Decoded g.tx_set g.tx_ids

ack_add-OnePerKey : (g : Gathered) (p : ℕ) → OnePerKey g → OnePerKey (Ack.add_transfer g p)
unfolding Ack.add_transfer
ack_add-OnePerKey g p h = elim (Option-cases (g.memory p).write_ack_tx_hash) [
  | inl missing ↦ rw (missing, Ack.add_transfer) h
  | inr (hash, found) ↦
      rw (found, Ack.add_transfer)
        (elim (Bool-cases (contains hash g.tx_set)) [
          | inl seen ↦ rw seen h
          | inr fresh ↦ rw fresh (elim (Option-cases (decode_tx_hash hash)) [
            | inl bad ↦ rw bad h
            | inr (id, good) ↦ rw good ((fresh, h.0), (g.tx_ids, id, refl, good, h.1))
          ])
        ])
]

ack_gather-OnePerKey :
    (g : Gathered) (batch : List ℕ) → OnePerKey g → OnePerKey (gather Ack.add_transfer g batch)
unfolding gather
ack_gather-OnePerKey g [] h = h
ack_gather-OnePerKey g (p ∷ batch) h =
    ack_gather-OnePerKey (Ack.add_transfer g p) batch (ack_add-OnePerKey g p h)

-- A transfer has this write ack tx hash, and it is hex.
abbrev HasHash : Memory → String → ℕ → Type 0
HasHash memory hash p =
    ((memory p).write_ack_tx_hash ≡ some hash) × (id : List ℕ) × (decode_tx_hash hash ≡ some id)

-- A transfer of the batch has it.
abbrev pub Wanted : Memory → List ℕ → String → Type 0
Wanted memory batch hash = (p : ℕ) × Among p batch × HasHash memory hash p

contains-Among : (key : String) (keys : List String) → contains key keys ≡ true → Among key keys
contains-Among key [] h = absurd (cc)
contains-Among key (k ∷ keys) h = elim (Bool-cases (str_eq k key)) [
  | inl hit ↦ here (sym ((str_eq_iff k key).0 hit))
  | inr miss ↦ there (contains-Among key keys (ground (arith, h, miss)))
]

-- Errors that are set leave the write ack tx hashes alone.
abbrev SameHashes : Memory → Memory → Type 0
SameHashes m n = (q : ℕ) → (m q).write_ack_tx_hash ≡ (n q).write_ack_tx_hash

ack_add-SameHashes :
    (memory : Memory) (g : Gathered) (p : ℕ)
    → SameHashes g.memory memory
    → SameHashes (Ack.add_transfer g p).memory memory
unfolding Ack.add_transfer
ack_add-SameHashes memory g p h q = ground (arith, h q, h p, ==_iff q p)

ack_add-keeps :
    (g : Gathered) (p : ℕ) (hash : String)
    → Among hash g.tx_set
    → Among hash (Ack.add_transfer g p).tx_set
unfolding Ack.add_transfer
ack_add-keeps g p hash h = elim (Option-cases (g.memory p).write_ack_tx_hash) [
  | inl missing ↦ rw (missing, Ack.add_transfer) h
  | inr (own, found) ↦
      rw (found, Ack.add_transfer)
        (elim (Bool-cases (contains own g.tx_set)) [
          | inl seen ↦ rw seen h
          | inr fresh ↦ rw fresh (elim (Option-cases (decode_tx_hash own)) [
            | inl bad ↦ rw bad h
            | inr (id, good) ↦ rw good (there h)
          ])
        ])
]

ack_add-adds :
    (g : Gathered) (p : ℕ) (hash : String)
    → HasHash g.memory hash p
    → Among hash (Ack.add_transfer g p).tx_set
unfolding Ack.add_transfer
ack_add-adds g p hash (found, id, good) =
    rw (found, Ack.add_transfer)
      (elim (Bool-cases (contains hash g.tx_set)) [
        | inl seen ↦ rw seen (contains-Among hash g.tx_set seen)
        | inr fresh ↦ rw (fresh, good) (here refl)
      ])

ack_add-from :
    (g : Gathered) (p : ℕ) (hash : String)
    → Among hash (Ack.add_transfer g p).tx_set
    → Among hash g.tx_set ⊎ HasHash g.memory hash p
unfolding Ack.add_transfer
ack_add-from g p hash h = elim (Option-cases (g.memory p).write_ack_tx_hash) [
  | inl missing ↦ inl (rw (missing, Ack.add_transfer) at h)
  | inr (own, found) ↦ elim (Bool-cases (contains own g.tx_set)) [
    | inl seen ↦ inl (rw (found, Ack.add_transfer, seen) at h)
    | inr fresh ↦ elim (Option-cases (decode_tx_hash own)) [
      | inl bad ↦ inl (rw (found, Ack.add_transfer, fresh, bad) at h)
      | inr (id, good) ↦
          elim (uncons own g.tx_set (rw (found, Ack.add_transfer, fresh, good) at h)) [
            | inl same ↦
                inr (found ∙ ap (λ k. some k) (sym same), id, ap decode_tx_hash same ∙ good)
            | inr later ↦ inl later
          ]
    ]
  ]
]
  where
    uncons :
        (k : String) (keys : List String) → Among hash (k ∷ keys) → (hash ≡ k) ⊎ Among hash keys
    uncons k keys (here same) = inl same
    uncons k keys (there later) = inr later

ack_gather-keeps :
    (g : Gathered) (batch : List ℕ) (hash : String)
    → Among hash g.tx_set
    → Among hash (gather Ack.add_transfer g batch).tx_set
unfolding gather
ack_gather-keeps g [] hash h = h
ack_gather-keeps g (p ∷ batch) hash h =
    ack_gather-keeps (Ack.add_transfer g p) batch hash (ack_add-keeps g p hash h)

ack_gather-adds :
    (memory : Memory) {p : ℕ} (g : Gathered) {batch : List ℕ} (hash : String)
    → SameHashes g.memory memory
    → HasHash memory hash p
    → Among p batch
    → Among hash (gather Ack.add_transfer g batch).tx_set
unfolding gather
ack_gather-adds memory {p} g hash same (found, id, good) (here {b} {l} e) =
    ack_gather-keeps (Ack.add_transfer g b) l hash (
      ack_add-adds g b hash
        (same b ∙ ap (λ q. (memory q).write_ack_tx_hash) (sym e) ∙ found, id, good))
ack_gather-adds memory g hash same has (there {b} {l} later) =
    ack_gather-adds memory (Ack.add_transfer g b) hash (ack_add-SameHashes memory g b same) has
      later

ack_gather-from :
    (memory : Memory) (g : Gathered) (batch : List ℕ) (hash : String)
    → SameHashes g.memory memory
    → Among hash (gather Ack.add_transfer g batch).tx_set
    → Among hash g.tx_set ⊎ Wanted memory batch hash
unfolding gather
ack_gather-from memory g [] hash same h = inl h
ack_gather-from memory g (p ∷ batch) hash same h =
    elim (ack_gather-from memory (Ack.add_transfer g p) batch hash
      (ack_add-SameHashes memory g p same) h) [
        | inr (q, among, has) ↦ inr (q, there among, has)
        | inl here_already ↦ elim (ack_add-from g p hash here_already) [
          | inl before ↦ inl before
          | inr (found, id, good) ↦ inr (p, here refl, (sym (same p) ∙ found, id, good))
        ]
      ]

-- The tx ids of the request of an ack batch are those that the keys decode to, one for each; no key is
-- there twice; and the keys are exactly the write ack tx hashes of the transfers of the batch that
-- are hex.
pub ack_tx_ids-Distinct :
    (memory : Memory) (batch : List ℕ)
    → let g = gather Ack.add_transfer (nothing_gathered memory) batch in
      Distinct g.tx_set
      × Decoded g.tx_set g.tx_ids
      × ((hash : String) → Among hash g.tx_set ↔ Wanted memory batch hash)
ack_tx_ids-Distinct memory batch =
    let (distinct, decoded) = ack_gather-OnePerKey (nothing_gathered memory) batch (tt, refl) in
    (
      distinct,
      decoded,
      λ hash. (
        λ h. elim (ack_gather-from memory (nothing_gathered memory) batch hash (λ q. refl) h) [
          | inl before ↦ elim before [ ]
          | inr wanted ↦ wanted
        ],
        λ (p, among, has).
            ack_gather-adds memory (nothing_gathered memory) hash (λ q. refl) has among,
      ),
    )
