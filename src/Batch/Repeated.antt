-- ===== src/Batch/Repeated.antt =====
-- Which tx ids a recv or timeout batch asks the relay service for (relayer/ibcv2/batch_recv_packet.go).
use platform_relayer.Common.{
  ℕ, ◌≡◌, refl, ◌≢◌, sym, subst, ◌∙◌, String, false, ap, ==_iff, none, List, [], ◌∷◌, ◌++◌, some,
  arith, str_eq_of_ne, or_false, Option-cases, inl, inr,
}
use platform_relayer.Errors.{message}
use platform_relayer.Batch.Hex.{decode_tx_hash}
use platform_relayer.Batch.Submit.{Memory, Gathered, nothing_gathered, contains, gather, set_error}
use platform_relayer.Batch.Recv

append_nil : {A : Type 0} (l : List A) → l ++ [] ≡ l
append_nil [] = refl
append_nil (a ∷ l) = ap (λ r. a ∷ r) (append_nil l)

append_one : {A : Type 0} (l : List A) (a : A) (m : List A) → (l ++ a ∷ []) ++ m ≡ l ++ a ∷ m
append_one [] a m = refl
append_one (b ∷ l) a m = ap (λ r. b ∷ r) (append_one l a m)

-- All keys of the list are the given one.
abbrev AllAre : String → List String → Type 0
AllAre c [] = Unit {0}
AllAre c (k ∷ keys) = (k ≡ c) × AllAre c keys

not_contained :
    (c key : String) (keys : List String) → key ≢ c → AllAre c keys → contains key keys ≡ false
not_contained c key [] ne all = refl
not_contained c key (k ∷ keys) ne all =
    or_false (str_eq_of_ne (λ e. ne (sym e ∙ all.0))) (not_contained c key keys ne all.1)

-- Setting errors leaves the source chain and the source tx hash of every transfer alone.
abbrev pub FromChain : String → Memory → Type 0
FromChain c memory = (p : ℕ) → ((memory p).source_chain_id ≡ c) × ((memory p).source_tx_hash ≢ c)

-- The ids of the source txs of a batch, one for each transfer whose hash is hex, and the sequence
-- numbers of these transfers.
unfoldable pub source_ids : Memory → List ℕ → List (List ℕ)
source_ids memory [] = []
source_ids memory (p ∷ batch) =
    let rest = source_ids memory batch in
    elim (decode_tx_hash (memory p).source_tx_hash) [ none ↦ rest | some id ↦ id ∷ rest ]

unfoldable pub source_sequences : Memory → List ℕ → List ℕ
source_sequences memory [] = []
source_sequences memory (p ∷ batch) =
    let rest = source_sequences memory batch in
    elim (decode_tx_hash (memory p).source_tx_hash) [
      | none ↦ rest
      | some id ↦ (memory p).packet_sequence_number ∷ rest
    ]

source_none :
    (memory : Memory) (p : ℕ) (batch : List ℕ)
    → decode_tx_hash (memory p).source_tx_hash ≡ none
    → (source_ids memory (p ∷ batch) ≡ source_ids memory batch)
      × (source_sequences memory (p ∷ batch) ≡ source_sequences memory batch)
unfolding source_ids source_sequences
source_none memory p batch bad = (ground (arith, bad), ground (arith, bad))

source_some :
    (memory : Memory) (p : ℕ) (batch : List ℕ) (id : List ℕ)
    → decode_tx_hash (memory p).source_tx_hash ≡ some id
    → (source_ids memory (p ∷ batch) ≡ id ∷ source_ids memory batch)
      × (source_sequences memory (p ∷ batch)
          ≡ (memory p).packet_sequence_number ∷ source_sequences memory batch)
unfolding source_ids source_sequences
source_some memory p batch id good = (ground (arith, good), ground (arith, good))

record Repeating (c : String) (memory : Memory) (g : Gathered) : Type 0 where
  from_chain : FromChain c g.memory
  keys : AllAre c g.tx_set
  same_hash : (p : ℕ) → (g.memory p).source_tx_hash ≡ (memory p).source_tx_hash
  same_sequence : (p : ℕ) → (g.memory p).packet_sequence_number ≡ (memory p).packet_sequence_number

-- What the batch adds to what is gathered.
Adds : Memory → List ℕ → Gathered → Gathered → Type 0
Adds memory batch before g =
    (g.tx_ids ≡ before.tx_ids ++ source_ids memory batch)
    × (g.sequences ≡ before.sequences ++ source_sequences memory batch)

recv_gather-Adds :
    (c : String) (memory : Memory) (g : Gathered) (batch : List ℕ)
    → Repeating c memory g
    → Adds memory batch g (gather Recv.add_transfer g batch)
unfolding gather Recv.add_transfer Adds source_ids source_sequences
recv_gather-Adds c memory g [] h = (sym (append_nil g.tx_ids), sym (append_nil g.sequences))
recv_gather-Adds c memory g (p ∷ batch) h =
    let miss : contains (g.memory p).source_tx_hash g.tx_set ≡ false =
      not_contained c _ g.tx_set (h.from_chain p).1 h.keys in
    elim (Option-cases (decode_tx_hash (memory p).source_tx_hash)) [
      | inl bad ↦
          let bad' : decode_tx_hash (g.memory p).source_tx_hash ≡ none =
            ap decode_tx_hash (h.same_hash p) ∙ bad in
          let next : Recv.add_transfer g p ≡ record g {
            memory = set_error g.memory p (message "decoding hex source tx hash to bytes");
          } =
            rw (miss, bad') refl in
          subst (λ u. Adds memory (p ∷ batch) g (gather Recv.add_transfer u batch)) (sym next)
            (let rest =
                recv_gather-Adds c memory
                  (record g {
                    memory = set_error g.memory p (message "decoding hex source tx hash to bytes");
                  })
                  batch
                  (record {
                    from_chain = λ q. ground (arith, h.from_chain q, h.from_chain p);
                    keys = h.keys;
                    same_hash = λ q. ground (arith, h.same_hash q, h.same_hash p, ==_iff q p);
                    same_sequence =
                        λ q. ground (arith, h.same_sequence q, h.same_sequence p, ==_iff q p);
                  }) in
              (
                rest.0 ∙ ap (λ l. g.tx_ids ++ l) (sym (source_none memory p batch bad).0),
                rest.1 ∙ ap (λ l. g.sequences ++ l) (sym (source_none memory p batch bad).1),
              ))
      | inr (id, good) ↦
          let good' : decode_tx_hash (g.memory p).source_tx_hash ≡ some id =
            ap decode_tx_hash (h.same_hash p) ∙ good in
          let rest =
            recv_gather-Adds c memory
              (record g {
                tx_ids = g.tx_ids ++ id ∷ [];
                tx_set = (g.memory p).source_chain_id ∷ g.tx_set;
                sequences = g.sequences ++ (g.memory p).packet_sequence_number ∷ [];
              })
              batch
              (record {
                from_chain = h.from_chain;
                keys = ((h.from_chain p).0, h.keys);
                same_hash = h.same_hash;
                same_sequence = h.same_sequence;
              }) in
          let next : Recv.add_transfer g p ≡ record g {
            tx_ids = g.tx_ids ++ id ∷ [];
            tx_set = (g.memory p).source_chain_id ∷ g.tx_set;
            sequences = g.sequences ++ (g.memory p).packet_sequence_number ∷ [];
          } =
            rw (miss, good') refl in
          subst (λ u. Adds memory (p ∷ batch) g (gather Recv.add_transfer u batch)) (sym next)
            (
              rest.0
                  ∙ (append_one g.tx_ids id (source_ids memory batch)
                      ∙ ap (λ l. g.tx_ids ++ l) (sym (source_some memory p batch id good).0)),
              rest.1
                  ∙ (append_one g.sequences (g.memory p).packet_sequence_number
                        (source_sequences memory batch)
                      ∙ (ap (λ n. g.sequences ++ n ∷ source_sequences memory batch)
                            (h.same_sequence p)
                          ∙ ap (λ l. g.sequences ++ l)
                              (sym (source_some memory p batch id good).1))),
            )
    ]

-- The request of a recv or timeout batch repeats the tx id of a source tx for each of its packets:
-- where no source tx hash is spelled like the common source chain id, its tx ids are those that the
-- source tx hashes of the transfers decode to, one for each transfer and in the batch's order, and its
-- sequence numbers are those of the same transfers.
pub recv_tx_ids-repeat :
    (c : String) (memory : Memory) (batch : List ℕ)
    → FromChain c memory
    → let g = gather Recv.add_transfer (nothing_gathered memory) batch in
      (g.tx_ids ≡ source_ids memory batch) × (g.sequences ≡ source_sequences memory batch)
unfolding Adds
recv_tx_ids-repeat c memory batch h =
    recv_gather-Adds c memory (nothing_gathered memory) batch
      (record { from_chain = h; keys = tt; same_hash = λ p. refl; same_sequence = λ p. refl })
