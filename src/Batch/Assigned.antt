-- ===== src/Batch/Assigned.antt =====
-- What the loop that assigns a delivered tx to the transfers of a batch leaves in memory.
use platform_relayer.Common.{
  ℕ, ◌≡◌, refl, sym, ◌∙◌, ap, ◌≢◌, false, List, [], ◌∷◌, is_some, arith, Bool-cases, inl, inr,
  if◌then◌else◌, ◌==◌, ==_iff,
}
use platform_relayer.Transfer.{Transfer, transfer_key}
use platform_relayer.Bridge.{BridgeTx}
use platform_relayer.Batch.Submit.{Memory, store, set_tx}
use platform_relayer.Batch.Synced.{AllIn, AllIn-map, AllIn-zip, Apart, assigned}

-- A pointer is not in the list.
abbrev Absent : ℕ → List ℕ → Type 0
Absent p batch = AllIn (λ q. (q == p) ≡ false) batch

Absent-elsewhere :
    (memory : Memory) (p : ℕ) (batch : List ℕ)
    → AllIn (λ q. transfer_key (memory p) ≢ transfer_key (memory q)) batch
    → Absent p batch
Absent-elsewhere memory p batch far =
    AllIn-map _ _ batch
      (λ q ne. elim (Bool-cases (q == p)) [
        | inl same ↦ absurd (ne (ap (λ x. transfer_key (memory x)) (sym ((==_iff q p).0 same))))
        | inr other ↦ other
      ])
      far

module _ (assign : BridgeTx → Transfer → Transfer) (tx : BridgeTx) where
  -- The memory after one round of the loop.
  stepped : Memory → ℕ → Memory
  stepped memory p =
      if is_some (memory p).processing_error then memory else store memory p (assign tx (memory p))

  stepped_self : (memory : Memory) (p : ℕ) → stepped memory p p ≡ assigned (assign tx) (memory p)
  unfolding stepped
  stepped_self memory p = ground (arith, ==_iff p p)

  stepped-other : (memory : Memory) (p q : ℕ) → (q == p) ≡ false → stepped memory p q ≡ memory q
  unfolding stepped
  stepped-other memory p q other = ground (arith, other)

  set_tx-Absent :
      (memory : Memory) (p : ℕ) (batch : List ℕ)
      → AllIn (λ q. (p == q) ≡ false) batch
      → set_tx assign tx memory batch p ≡ memory p
  unfolding set_tx stepped
  set_tx-Absent memory p [] far = refl
  set_tx-Absent memory p (q ∷ batch) (other, far) =
      set_tx-Absent (stepped memory q) p batch far ∙ stepped-other memory q p other

  -- The loop assigns the tx to each transfer without a processing error, where no pointer stands
  -- in the batch twice.
  pub set_tx-assigned :
      (memory m₀ : Memory) (batch : List ℕ)
      → Apart m₀ batch
      → AllIn (λ p. memory p ≡ m₀ p) batch
      → AllIn (λ p. set_tx assign tx memory batch p ≡ assigned (assign tx) (m₀ p)) batch
  unfolding set_tx stepped
  set_tx-assigned memory m₀ [] apart same = tt
  set_tx-assigned memory m₀ (p ∷ batch) (far, apart) (first, more) =
      let absent = Absent-elsewhere m₀ p batch far in
      (
        set_tx-Absent (stepped memory p) p batch (
              AllIn-map _ _ batch (λ q other. ground (arith, other, ==_iff p q, ==_iff q p)) absent)
            ∙ (stepped_self memory p ∙ ap (assigned (assign tx)) first),
        set_tx-assigned (stepped memory p) m₀ batch apart
            (AllIn-zip _ _ _ batch (λ q other e. stepped-other memory p q other ∙ e) absent more),
      )
