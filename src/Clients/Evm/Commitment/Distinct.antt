-- ===== src/Clients/Evm/Commitment/Distinct.antt =====
-- The paths of two commitments or receipts (shared/bridges/ibcv2/evm_bridge_client.go).
use Prim.Native.String.{String}
use text.Mathlib.TextEquality.{Char-path}
use platform_relayer.Common.{
  ℕ, ◌≡◌, refl, ◌<◌, List, [], ◌∷◌, ◌++◌, arith, length, length-append, ap, ◌∙◌, sym,
}
use platform_relayer.Errors.{Result, ok, err}
use platform_relayer.Batch.Hex.{codes}
use platform_relayer.Clients.Evm.Commitment.{encode_packed, uint64_to_big_endian, commitment_path}

pub codes_inj : (s t : String) → codes s ≡ codes t → s ≡ t
codes_inj String.[] String.[] h = refl
codes_inj String.[] (String.◌∷◌ c t) h = absurd (cc)
codes_inj (String.◌∷◌ c s) String.[] h = absurd (cc)
codes_inj (String.◌∷◌ c s) (String.◌∷◌ d t) h = cc (Char-path c d (cc), codes_inj s t (cc))

uint64_to_big_endian_inj :
    (m n : ℕ)
    → m < 18446744073709551616
    → n < 18446744073709551616
    → uint64_to_big_endian m ≡ uint64_to_big_endian n
    → m ≡ n
unfolding uint64_to_big_endian
uint64_to_big_endian_inj m n hm hn h = ground (arith, h)

-- Of two texts with ends of the same length, what is in front is the same.
split_lem :
    (xs ys : List ℕ) (a b : ℕ) (u v : List ℕ)
    → length u ≡ length v
    → xs ++ a ∷ u ≡ ys ++ b ∷ v
    → (xs ≡ ys) × (a ≡ b) × (u ≡ v)
split_lem [] [] a b u v l h = (refl, cc, cc)
split_lem [] (y ∷ ys) a b u v l h = absurd (omega (arith, ap length h, length-append ys (b ∷ v), l))
split_lem (x ∷ xs) [] a b u v l h = absurd (omega (arith, ap length h, length-append xs (a ∷ u), l))
split_lem (x ∷ xs) (y ∷ ys) a b u v l h =
    let rest = split_lem xs ys a b u v l (cc) in (cc (rest.0), rest.1, rest.2)

-- The path spelled out.
commitment_path_lem :
    (client : String) (kind n : ℕ)
    → commitment_path client kind n ≡ ok (codes client ++ kind ∷ (uint64_to_big_endian n ++ []))
unfolding commitment_path encode_packed
commitment_path_lem client kind n = refl

path_of : Result (List ℕ) → List ℕ
path_of (ok path) = path
path_of (err e) = []

-- Two commitments or receipts have the same path only if they are of the same client, the same
-- kind and the same sequence number.
pub commitment_path-inj :
    (client other : String) (kind kind' m n : ℕ)
    → m < 18446744073709551616
    → n < 18446744073709551616
    → commitment_path client kind m ≡ commitment_path other kind' n
    → (client ≡ other) × (kind ≡ kind') × (m ≡ n)
unfolding uint64_to_big_endian path_of
commitment_path-inj client other kind kind' m n hm hn h =
    let parts =
      split_lem (codes client) (codes other) kind kind' (uint64_to_big_endian m ++ [])
        (uint64_to_big_endian n ++ []) refl
        (ap path_of
          (sym (commitment_path_lem client kind m) ∙ h ∙ commitment_path_lem other kind' n)) in
    (codes_inj client other parts.0, parts.1, uint64_to_big_endian_inj m n hm hn parts.2)
