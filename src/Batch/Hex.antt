-- ===== src/Batch/Hex.antt =====
-- `hex.DecodeString(strings.TrimPrefix(s, "0x"))` of the Go standard library. The code points of a
-- text stand for its bytes: what is not ASCII is no hex digit either way.
use Prim.Native.Char.{code}
use platform_relayer.Common.{
  ℕ, ◌≡◌, refl, ◌+◌, ◌*◌, ◌-◌, String, ◌&&◌, List, [], ◌∷◌, Option, none, some, leb, ◌==◌,
  if◌then◌else◌,
}

abbrev pub codes : String → List ℕ
codes String.[] = []
codes (String.◌∷◌ c s) = code c ∷ codes s

trim_0x : List ℕ → List ℕ
trim_0x [] = []
trim_0x (a ∷ []) = a ∷ []
trim_0x (a ∷ b ∷ cs) = if a == b'0' && b == b'x' then cs else a ∷ b ∷ cs

hex_digit : ℕ → Option ℕ
hex_digit c =
    if leb b'0' c && leb c b'9'
    then some (c - 48)
    else if leb b'a' c && leb c b'f'
    then some (c - 87)
    else if leb b'A' c && leb c b'F'
    then some (c - 55)
    else none

abbrev push_byte : Option ℕ → Option ℕ → Option (List ℕ) → Option (List ℕ)
push_byte (some high) (some low) (some rest) = some ((high * 16 + low) ∷ rest)
push_byte _ _ _ = none

decode_digits : List ℕ → Option (List ℕ)
unfolding hex_digit
decode_digits [] = some []
decode_digits (a ∷ []) = none
decode_digits (a ∷ b ∷ cs) = push_byte (hex_digit a) (hex_digit b) (decode_digits cs)

-- `hex.DecodeString`
unfoldable pub decode_string : String → Option (List ℕ)
unfolding decode_digits
decode_string s = decode_digits (codes s)

unfoldable pub decode_tx_hash : String → Option (List ℕ)
unfolding trim_0x decode_digits
decode_tx_hash s = decode_digits (trim_0x (codes s))

decode_example : decode_tx_hash "0xaB10" ≡ some (171 ∷ 16 ∷ [])
unfolding decode_tx_hash
decode_example = refl
