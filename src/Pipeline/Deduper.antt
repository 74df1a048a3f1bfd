-- ===== src/Pipeline/Deduper.antt =====
-- `PipelineDeduper` of relayer/ibcv2/pipeline.go: the set of keys of the transfers that are in the
-- pipeline, under its lock. The inner pipeline takes each transfer that is pushed onto it, and may put
-- out any, also one twice.
use platform_relayer.Common.{
  ◌≡◌, refl, ◌≢◌, ◌↔◌, sym, subst, ◌∙◌, Bool, true, false, List, [], ◌∷◌, inl, inr, Bool-cases,
  arith, if◌then◌else◌,
}
use platform_relayer.Db.{PacketKey, same_packet}
use platform_relayer.Db.Laws.{same_packet_refl, eq_of_same_packet}
use mathlib.Core.Bool.{false≢true}
use platform_relayer.Transfer.{Transfer}

-- `newTransferKey`
abbrev pub new_transfer_key : Transfer → PacketKey
new_transfer_key t = record {
  chain = t.source_chain_id;
  client = t.packet_source_client_id;
  sequence = t.packet_sequence_number;
}

pub record Deduper : Type 0 where
  pub in_pipeline : List PacketKey

abbrev pub new_deduper : Deduper
new_deduper = record { in_pipeline = [] }

unfoldable pub holds : PacketKey → List PacketKey → Bool
holds k [] = false
holds k (j ∷ keys) = if same_packet k j then true else holds k keys

-- `Push`: whether the transfer was taken.
unfoldable pub push : PacketKey → Deduper → Deduper × Bool
unfolding holds
push k d =
    if holds k d.in_pipeline then (d, false) else (record { in_pipeline = k ∷ d.in_pipeline }, true)

-- `delete(deduper.inPipeline, key)`
unfoldable pub delete : PacketKey → List PacketKey → List PacketKey
delete k [] = []
delete k (j ∷ keys) = let rest = delete k keys in if same_packet k j then rest else j ∷ rest

-- The goroutine that watches the output, for one output.
unfoldable pub output : PacketKey → Deduper → Deduper
unfolding delete
output k d = record { in_pipeline = delete k d.in_pipeline }

-- What happens to the deduper: pushes of any transfers, and any outputs of the inner pipeline.
pub data Event : Type 0 where
  pushed polled : PacketKey → Event

abbrev pub step : Event → Deduper → Deduper
step (pushed k) d = (push k d).0
step (polled k) d = output k d

-- After events, the latest of which stands first.
unfoldable pub run : List Event → Deduper
run [] = new_deduper
run (e ∷ events) = step e (run events)

-- The key was pushed, and the inner pipeline has not put it out since.
pub data Inside (k : PacketKey) : List Event → Type 0 where
  now : {events : List Event} → Inside k (pushed k ∷ events)
  pushed_since :
      {events : List Event} (j : PacketKey) → Inside k events → Inside k (pushed j ∷ events)
  polled_since :
      {events : List Event} (j : PacketKey) → j ≢ k → Inside k events → Inside k (polled j ∷ events)

pub holds-push_self : (k : PacketKey) (d : Deduper) → holds k (push k d).0.in_pipeline ≡ true
unfolding push holds
holds-push_self k d = elim (Bool-cases (holds k d.in_pipeline)) [
  | inl seen ↦ rw (seen, seen) refl
  | inr fresh ↦ rw (fresh, same_packet_refl k) refl
]

pub holds-push_ne :
    (k j : PacketKey) (d : Deduper)
    → same_packet k j ≡ false
    → holds k (push j d).0.in_pipeline ≡ holds k d.in_pipeline
unfolding push holds
holds-push_ne k j d n = elim (Bool-cases (holds j d.in_pipeline)) [
  | inl seen ↦ rw seen refl
  | inr fresh ↦ rw (fresh, n) refl
]

holds-delete_self : (k : PacketKey) (keys : List PacketKey) → holds k (delete k keys) ≡ false
unfolding holds delete
holds-delete_self k [] = refl
holds-delete_self k (j ∷ keys) = elim (Bool-cases (same_packet k j)) [
  | inl hit ↦ rw hit (holds-delete_self k keys)
  | inr miss ↦ rw (miss, miss) (holds-delete_self k keys)
]

-- Of two keys that differ, at most one fits a third.
apart :
    (k j i : PacketKey) → same_packet k j ≡ false → same_packet j i ≡ true → same_packet k i ≡ false
apart k j i n h = ground (arith, eq_of_same_packet j i h)

holds-delete_ne :
    (k j : PacketKey) (keys : List PacketKey)
    → same_packet k j ≡ false
    → holds k (delete j keys) ≡ holds k keys
unfolding holds delete
holds-delete_ne k j [] n = refl
holds-delete_ne k j (i ∷ keys) n = elim (Bool-cases (same_packet j i)) [
  | inl hit ↦ rw (hit, apart k j i n hit) (holds-delete_ne k j keys n)
  | inr miss ↦ rw miss (ground (arith, holds-delete_ne k j keys n))
]

empty_lem : (k : PacketKey) → holds k new_deduper.in_pipeline ≡ false
unfolding holds
empty_lem k = refl

differ : (k j : PacketKey) → same_packet k j ≡ false → j ≢ k
differ k j n e = absurd (ground (arith, n, e, same_packet_refl k))

differ_sound : (k j : PacketKey) → j ≢ k → same_packet k j ≡ false
differ_sound k j ne = elim (Bool-cases (same_packet k j)) [
  | inl hit ↦ absurd (ne (sym (eq_of_same_packet k j hit)))
  | inr miss ↦ miss
]

held-Inside :
    (k : PacketKey) (events : List Event)
    → holds k (run events).in_pipeline ≡ true
    → Inside k events
unfolding run output
held-Inside k [] h = absurd (false≢true (sym (empty_lem k) ∙ h))
held-Inside k (pushed j ∷ events) h = elim (Bool-cases (same_packet k j)) [
  | inl hit ↦ subst (λ i. Inside k (pushed i ∷ events)) (eq_of_same_packet k j hit) now
  | inr miss ↦ pushed_since j (held-Inside k events (sym (holds-push_ne k j (run events) miss) ∙ h))
]
held-Inside k (polled j ∷ events) h = elim (Bool-cases (same_packet k j)) [
  | inl hit ↦ absurd (
      false≢true (
        sym (
          subst (λ i. holds k (delete i (run events).in_pipeline) ≡ false)
            (eq_of_same_packet k j hit) (holds-delete_self k (run events).in_pipeline))
        ∙ h))
  | inr miss ↦
      polled_since j (differ k j miss)
        (held-Inside k events (sym (holds-delete_ne k j (run events).in_pipeline miss) ∙ h))
]

Inside-held :
    {k : PacketKey} {events : List Event}
    → Inside k events
    → holds k (run events).in_pipeline ≡ true
unfolding run output
Inside-held {k} (now {events}) = holds-push_self k (run events)
Inside-held {k} (pushed_since {events} j h) = elim (Bool-cases (same_packet k j)) [
  | inl hit ↦
      subst (λ i. holds k (push i (run events)).0.in_pipeline ≡ true) (eq_of_same_packet k j hit)
        (holds-push_self k (run events))
  | inr miss ↦ holds-push_ne k j (run events) miss ∙ Inside-held h
]
Inside-held {k} (polled_since {events} j ne h) =
    holds-delete_ne k j (run events).in_pipeline (differ_sound k j ne) ∙ Inside-held h

-- After any pushes and any outputs of the inner pipeline, also of transfers that it put out before, a
-- transfer is refused exactly if its key was pushed and has not been put out since.
pub push-Inside :
    (k : PacketKey) (events : List Event) → ((push k (run events)).1 ≡ false) ↔ Inside k events
unfolding push
push-Inside k events =
    (λ refused. held-Inside k events (ground (arith, refused)), λ h. ground (arith, Inside-held h))
