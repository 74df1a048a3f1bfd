-- ===== src/Clients/Evm/Commitment.antt =====
-- The path of a commitment in the router's storage: `encodePacked`, `IsPacketReceived` and
-- `IsPacketCommitted` of shared/bridges/ibcv2/evm_bridge_client.go.
pub mod Distinct
use platform_relayer.Common.{
  ℕ, ◌/◌, ◌%◌, String, Bool, not, List, [], ◌∷◌, ◌++◌, Option, none, some, ◌==◌,
}
use platform_relayer.Errors.{Result, ok, err, message, wrap}
use platform_relayer.Batch.Hex.{codes}
use platform_relayer.Clients.Answers.{◌>>=◌}
use platform_relayer.Clients.Evm.{Node}

-- The types that `encodePacked` tells apart. The bytes of a text are its code points: the ids of
-- clients are ASCII.
pub data Value : Type 0 where
  bytes : List ℕ → Value
  byte : ℕ → Value
  text : String → Value
  other_value : Value

abbrev pub encode_value : Value → Result (List ℕ)
encode_value (bytes v) = ok v
encode_value (byte v) = ok (v ∷ [])
encode_value (text v) = ok (codes v)
encode_value other_value = err (message "unsupported value type")

-- `encodePacked`
unfoldable pub encode_packed : List Value → Result (List ℕ)
encode_packed [] = ok []
encode_packed (v ∷ values) = do
  first ← encode_value v
  rest ← encode_packed values
  ok (first ++ rest)

-- `sdk.Uint64ToBigEndian`
unfoldable pub uint64_to_big_endian : ℕ → List ℕ
uint64_to_big_endian n =
    n / 72057594037927936 % 256
    ∷ n / 281474976710656 % 256
    ∷ n / 1099511627776 % 256
    ∷ n / 4294967296 % 256
    ∷ n / 16777216 % 256
    ∷ n / 65536 % 256
    ∷ n / 256 % 256
    ∷ n % 256
    ∷ []

-- The path with the number of its kind: 1 for a packet commitment, 2 for a receipt.
unfoldable pub commitment_path : String → ℕ → ℕ → Result (List ℕ)
unfolding encode_packed uint64_to_big_endian
commitment_path client kind sequence =
    encode_packed (text client ∷ byte kind ∷ bytes (uint64_to_big_endian sequence) ∷ [])

-- An uninitialized storage value is 0.
unfoldable pub is_written : Node → String → String → ℕ → ℕ → Result Bool
unfolding commitment_path
is_written node getting client kind sequence = do
  path ← wrap "encoding packed client id and sequence" (commitment_path client kind sequence)
  commitment ← wrap getting (node.get_commitment (node.keccak256 path))
  ok (not (commitment == 0))

-- `IsPacketReceived`
abbrev pub is_packet_received : Node → String → ℕ → Result Bool
is_packet_received node client sequence =
    is_written node "getting commitment for packet with destination client id" client 2 sequence

-- `IsPacketCommitted`
abbrev pub is_packet_committed : Node → String → ℕ → Result Bool
is_packet_committed node client sequence =
    is_written node "getting commitment for packet with source client id" client 1 sequence
