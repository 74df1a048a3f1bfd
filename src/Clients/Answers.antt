-- ===== src/Clients/Answers.antt =====
-- What both bridge clients do with an answer: errors that say `not found`, times in seconds, and
-- the fields that `FindRecvTx` and its like put together.
use text.Mathlib.Text.{find?}
use platform_relayer.Common.{
  ℕ, ◌+◌, ◌-◌, ◌*◌, ◌/◌, String, Bool, true, false, ◌&&◌, ◌||◌, List, [], ◌∷◌, Option, none, some,
  is_some, ltb, ◌==◌, if◌then◌else◌,
}
use platform_relayer.Db.{Time, ℤ, pos, negsuc}
use platform_relayer.Errors.{
  Sentinel, Error, Result, ok, err, sentinel, external, pg_error, message, wrapped, joined,
  tx_not_found, write_ack_not_found_for_packet,
}

infixl 5 ◌>>=◌
abbrev pub ◌>>=◌ : {A B : Type 0} → Result A → (A → Result B) → Result B
ok a >>= f = f a
err e >>= f = err e

-- `strings.Contains(s, "not found")`
abbrev pub contains_not_found : String → Bool
contains_not_found s = is_some (find? s "not found")

abbrev pub sentinel_not_found : Sentinel → Bool
sentinel_not_found tx_not_found = true
sentinel_not_found write_ack_not_found_for_packet = true
sentinel_not_found _ = false

-- `strings.Contains(err.Error(), "not found")`
unfoldable pub says_not_found : Error → Bool
says_not_found (sentinel s) = sentinel_not_found s
says_not_found (external text) = contains_not_found text
says_not_found (pg_error code) = false
says_not_found (message text) = contains_not_found text
says_not_found (wrapped text e) = contains_not_found text || says_not_found e
says_not_found (joined e f) = says_not_found e || says_not_found f

-- `ErrTxNotFound` in place of what the node says, any other error wrapped.
unfoldable pub map_not_found : {A : Type 0} → String → Result A → Result A
unfolding says_not_found
map_not_found text (ok a) = ok a
map_not_found text (err e) =
    if says_not_found e then err (sentinel tx_not_found) else err (wrapped text e)

-- `hex.DecodeString` with its error wrapped.
unfoldable pub decoded : String → Option (List ℕ) → Result (List ℕ)
decoded text none = err (wrapped text (external "encoding/hex"))
decoded text (some bytes) = ok bytes

-- Seconds from the zero time of Go to 1970.
abbrev pub epoch : ℕ
epoch = 62135596800

-- `time.Unix(s, 0)`; a time before the zero time stands as the zero time.
unfoldable pub unix : ℤ → Time
unix (pos s) = (epoch + s) * 1000000000
unix (negsuc s) = (epoch - (s + 1)) * 1000000000

-- `t.Unix()`
unfoldable pub to_unix : Time → ℤ
to_unix t =
    let s = t / 1000000000 in if ltb s epoch then negsuc (epoch - s - 1) else pos (s - epoch)

-- `bytes.Equal`, and `==` on the code points of texts.
unfoldable pub bytes_equal : List ℕ → List ℕ → Bool
bytes_equal [] [] = true
bytes_equal [] (y ∷ ys) = false
bytes_equal (x ∷ xs) [] = false
bytes_equal (x ∷ xs) (y ∷ ys) = x == y && bytes_equal xs ys

-- `ErrorAcknowledgement`: the SHA-256 sum of `UNIVERSAL_ERROR_ACKNOWLEDGEMENT`.
abbrev pub error_acknowledgement : List ℕ
error_acknowledgement =
    71 ∷ 116 ∷ 212 ∷ 165 ∷ 117 ∷ 153 ∷ 63 ∷ 150 ∷ 59 ∷ 28 ∷ 6 ∷ 87 ∷ 55 ∷ 54 ∷ 97 ∷ 122 ∷ 69 ∷ 122
    ∷ 190 ∷ 248 ∷ 88 ∷ 145 ∷ 120 ∷ 219 ∷ 141 ∷ 16 ∷ 201 ∷ 75 ∷ 74 ∷ 181 ∷ 17 ∷ 171 ∷ []

-- The signer of a tx that was found, an empty text where it cannot be told.
unfoldable pub signer_or_empty : Result String → String
signer_or_empty (ok signer) = signer
signer_or_empty (err e) = ""
