-- ===== src/Service/Price/Keys.antt =====
-- The keys of the cache of `CachedPriceClient` (shared/clients/coingecko/price_client.go).
use platform_relayer.Common.{
  ℕ, ◌≡◌, refl, sym, ap, ◌∙◌, String, false, List, [], ◌∷◌, ◌++◌, arith, ◌==◌, Bool-cases, inl, inr,
}
use platform_relayer.Batch.Hex.{codes}
use platform_relayer.Clients.Evm.Commitment.Distinct.{codes_inj}
use platform_relayer.Service.Price.{double_slashes, cache_key}

abbrev pub HasNoSlash : List ℕ → Type 0
HasNoSlash [] = Unit {0}
HasNoSlash (c ∷ s) = ((c == b'/') ≡ false) × HasNoSlash s

double_slashes_none : (s : List ℕ) → HasNoSlash s → double_slashes s ≡ s
unfolding double_slashes
double_slashes_none [] h = refl
double_slashes_none (c ∷ s) (other, more) = rw other (ap (λ r. c ∷ r) (double_slashes_none s more))

double_slashes_inj : (s t : List ℕ) → double_slashes s ≡ double_slashes t → s ≡ t
unfolding double_slashes
double_slashes_inj [] [] h = refl
double_slashes_inj [] (d ∷ t) h = absurd (ground (arith, h))
double_slashes_inj (c ∷ s) [] h = absurd (ground (arith, h))
double_slashes_inj (c ∷ s) (d ∷ t) h = elim (Bool-cases (c == b'/')) [
  | inl slash ↦ elim (Bool-cases (d == b'/')) [
    | inl too ↦
        ground (arith, slash, too, h, double_slashes_inj s t (ground (arith, slash, too, h)))
    | inr other ↦ absurd (ground (arith, slash, other, h))
  ]
  | inr other ↦ elim (Bool-cases (d == b'/')) [
    | inl slash ↦ absurd (ground (arith, slash, other, h))
    | inr too ↦
        ground (arith, other, too, h, double_slashes_inj s t (ground (arith, other, too, h)))
  ]
]

-- Texts without a slash end at the first slash.
split_lem :
    (x y : List ℕ) {u v : List ℕ}
    → HasNoSlash x
    → HasNoSlash y
    → x ++ b'/' ∷ u ≡ y ++ b'/' ∷ v
    → (x ≡ y) × (u ≡ v)
split_lem [] [] hx hy h = (refl, cc (h))
split_lem [] (d ∷ y) hx (other, hy) h = absurd (ground (arith, other, h))
split_lem (c ∷ x) [] (other, hx) hy h = absurd (ground (arith, other, h))
split_lem (c ∷ x) (d ∷ y) (_, hx) (_, hy) h =
    let rest = split_lem x y hx hy (cc (h)) in (cc (h, rest.0), rest.1)

-- Where no coin's id has a slash in it, two prices have the same key only if they are of the same coin
-- in the same currency.
pub cache_key-inj :
    (coin other currency currency' : String)
    → HasNoSlash (codes coin)
    → HasNoSlash (codes other)
    → cache_key coin currency ≡ cache_key other currency'
    → (coin ≡ other) × (currency ≡ currency')
unfolding cache_key
cache_key-inj coin other currency currency' h g same =
    let parts = split_lem (codes coin) (codes other) h g (
      ap (λ s. s ++ b'/' ∷ double_slashes (codes currency))
        (sym (double_slashes_none (codes coin) h))
      ∙ same
      ∙ ap (λ s. s ++ b'/' ∷ double_slashes (codes currency'))
          (double_slashes_none (codes other) g)) in
    (
      codes_inj coin other parts.0,
      codes_inj currency currency' (double_slashes_inj (codes currency) (codes currency') parts.1),
    )
