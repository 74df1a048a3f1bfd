-- ===== src/Clients/Number/Laws.antt =====
-- A number that is printed by `strconv.Itoa` is read back by `strconv.Atoi`.
use mathlib.Core.List.{cons-ne-nil}
use platform_relayer.Common.{
  ℕ, suc, zero, ◌≡◌, refl, ◌+◌, ◌-◌, ◌*◌, ◌/◌, ◌%◌, ◌<◌, true, List, [], ◌∷◌, ◌++◌, Option, none,
  some, ltb, if◌then◌else◌, arith, inl, inr, Bool-cases, ◌∙◌, ◌≢◌, ap,
}
use platform_relayer.Db.{ℤ, pos, negsuc}
use platform_relayer.Clients.Number.{
  to_int, to_uint64, digits, itoa, is_digit, scan, unsigned, atoi,
}

scan-append :
    (s : List ℕ) (c a n : ℕ)
    → is_digit c ≡ true
    → scan s a ≡ some n
    → scan (s ++ c ∷ []) a ≡ some (n * 10 + (c - b'0'))
unfolding scan
scan-append [] c a n d h = ground arith
scan-append (x ∷ s) c a n d h = ground (arith, scan-append s c (a * 10 + (x - b'0')) n d)

abbrev pow10 : ℕ → ℕ
pow10 zero = 1
pow10 (suc n) = 10 * pow10 n

digits_step :
    (rounds n : ℕ)
    → digits (suc rounds) n
      ≡ (if ltb n 10 then (b'0' + n) ∷ [] else digits rounds (n / 10) ++ (b'0' + n % 10) ∷ [])
unfolding digits
digits_step rounds n = refl

scan_small : (n : ℕ) → ltb n 10 ≡ true → scan ((b'0' + n) ∷ []) 0 ≡ some n
unfolding scan
scan_small n h = ground arith

scan-digits : (rounds n : ℕ) → n < pow10 (suc rounds) → scan (digits (suc rounds) n) 0 ≡ some n
scan-digits zero n h = ground (arith, digits_step zero n, scan_small n)
scan-digits (suc rounds) n h = elim (Bool-cases (ltb n 10)) [
  | inl small ↦ rw (digits_step (suc rounds) n, small) (scan_small n small)
  | inr large ↦
      rw (digits_step (suc rounds) n, large)
        (scan-append (digits (suc rounds) (n / 10)) (b'0' + n % 10) 0 (n / 10) (ground arith)
            (scan-digits rounds (n / 10) (omega (arith, h)))
          ∙ ap some (omega arith))
]

unsigned-scan : (s : List ℕ) (n : ℕ) → s ≢ [] → scan s 0 ≡ some n → unsigned s ≡ some n
unfolding unsigned
unsigned-scan [] n ne h = absurd (ne refl)
unsigned-scan (c ∷ s) n ne h = h

append-ne-nil : (s : List ℕ) (c : ℕ) → s ++ c ∷ [] ≢ []
append-ne-nil [] c = cons-ne-nil c []
append-ne-nil (x ∷ s) c = cons-ne-nil x (s ++ c ∷ [])

digits-ne-nil : (rounds n : ℕ) → digits (suc rounds) n ≢ []
digits-ne-nil rounds n = elim (Bool-cases (ltb n 10)) [
  | inl small ↦ rw (digits_step rounds n, small) (cons-ne-nil (b'0' + n) [])
  | inr large ↦
      rw (digits_step rounds n, large) (append-ne-nil (digits rounds (n / 10)) (b'0' + n % 10))
]

unsigned-digits : (n : ℕ) → n < 100000000000000000000 → unsigned (digits 20 n) ≡ some n
unsigned-digits n h = unsigned-scan (digits 20 n) n (digits-ne-nil 19 n) (scan-digits 19 n h)

-- A text that reads as a number has a digit first, or is empty.
atoi-scan :
    (s : List ℕ) (n : ℕ) → unsigned s ≡ some n → n < 9223372036854775808 → atoi s ≡ some (pos n)
unfolding atoi unsigned scan
atoi-scan [] n h b = absurd (cc)
atoi-scan (c ∷ s) n h b = ground (arith, h)

-- An `int` is read back from its print.
pub atoi-itoa_pos : (n : ℕ) → n < 9223372036854775808 → atoi (itoa (pos n)) ≡ some (pos n)
unfolding itoa
atoi-itoa_pos n h = atoi-scan (digits 20 n) n (unsigned-digits n (omega (arith, h))) h

atoi-itoa_negsuc : (n : ℕ) → n < 9223372036854775808 → atoi (itoa (negsuc n)) ≡ some (negsuc n)
unfolding itoa atoi
atoi-itoa_negsuc n h = rw (unsigned-digits (n + 1) (omega (arith, h))) (ground (arith, h))

abbrev pub to_uint64? : Option ℤ → Option ℕ
to_uint64? none = none
to_uint64? (some i) = some (to_uint64 i)

-- A `uint64` goes through `int`, its print and `Atoi` unchanged.
pub atoi-itoa : (n : ℕ) → n < 18446744073709551616 → to_uint64? (atoi (itoa (to_int n))) ≡ some n
unfolding to_int to_uint64
atoi-itoa n h = elim (Bool-cases (ltb n 9223372036854775808)) [
  | inl low ↦ rw (low, atoi-itoa_pos n (ground arith)) refl
  | inr high ↦
      rw (high, atoi-itoa_negsuc (18446744073709551615 - n) (ground arith)) (ap some (omega arith))
]
