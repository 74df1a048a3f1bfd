-- ===== src/Bridge.antt =====
-- What the relayer calls and does not implement in relayer/ibcv2: the chains' bridge clients
-- (shared/bridges/ibcv2/bridge_client.go), the proof relay service, the price client, the storage
-- and the clock. An `Environment` is what they answer while one call of the relayer runs.
use platform_relayer.Common.{ℕ, String, Bool, List, [], ◌∷◌, Option, none, some, if◌then◌else◌}
use platform_relayer.Errors.{Error, Result, ok, err, message, wrap}
use platform_relayer.Db.{Time, ℤ, WriteAckStatus, Numeric, Row, Query, execute}

pub record BridgeTx : Type 0 where
  pub hash : String
  pub timestamp : Time
  pub relayer_address : String

pub record PacketInfo : Type 0 where
  pub sequence : ℕ  -- uint64
  pub source_client : String
  pub destination_client : String
  pub timeout_timestamp : Time
  pub timestamp : Time

pub data ChainType : Type 0 where
  evm cosmos svm : ChainType

abbrev pub is_evm : ChainType → Bool
is_evm evm = Bool.true
is_evm cosmos = Bool.false
is_evm svm = Bool.false

-- The methods of `BridgeClient` that the modelled code calls.
pub record BridgeClient : Type 0 where
  pub is_packet_received : String → ℕ → Result Bool
  pub is_packet_committed : String → ℕ → Result Bool
  pub find_recv_tx : String → String → ℕ → Time → Result BridgeTx
  pub find_ack_tx : String → String → ℕ → Result BridgeTx
  pub find_timeout_tx : String → String → ℕ → Result BridgeTx
  pub deliver_tx : List ℕ → String → Result BridgeTx
  -- The txs that a call of `deliver_tx` brings onto the chain, the latest first, whatever it returns:
  -- a client may submit several, and fail after some of them.
  pub lands : List ℕ → String → List (List ℕ)
  pub packet_write_ack_status : String → ℕ → String → String → Result WriteAckStatus
  pub send_packets_from_tx : String → String → Result (List PacketInfo)
  pub should_retry_tx : String → Time → Time → Result Bool
  pub wait_for_chain : Result (Unit {0})
  pub is_tx_finalized : String → Option ℕ → Result Bool
  pub is_timestamp_finalized : Time → Option ℕ → Result Bool
  pub chain_type : ChainType
  pub tx_fee : String → Result ℤ
  pub get_transaction_sender : String → Result String

pub record RelayByTxRequest : Type 0 where
  pub src_chain : String
  pub dst_chain : String
  pub source_tx_ids : List (List ℕ)
  pub timeout_tx_ids : List (List ℕ)
  pub src_client_id : String
  pub dst_client_id : String
  pub src_packet_sequences : List ℕ
  pub dst_packet_sequences : List ℕ

pub record RelayByTxResponse : Type 0 where
  pub tx : List ℕ
  pub address : String

-- The clients are a map by chain id; a query that the storage fails has an error.
pub record Environment : Type 0 where
  pub now : Time
  pub clients : String → Option BridgeClient
  pub query_error : Query → Option Error
  pub begin_error : Option Error
  pub commit_error : Option Error
  pub rollback_error : Option Error
  pub relay_by_tx : RelayByTxRequest → Result RelayByTxResponse
  pub get_coin_usd_value : String → ℕ → ℤ → Result Numeric

-- A tx that a chain accepted.
pub record Delivery : Type 0 where
  pub chain : String
  pub tx : List ℕ
  pub address : String

-- What the relayer changes outside its own memory; the latest delivery comes first.
pub record World : Type 0 where
  pub rows : List Row
  pub delivered : List Delivery

-- A call with effects.
abbrev pub M : Type 0 → Type 0
M A = World → World × Result A

unfoldable pub bind_result : {A B : Type 0} → World × Result A → (A → M B) → World × Result B
bind_result (w, ok a) f = f a w
bind_result (w, err e) f = (w, err e)

infixl 5 ◌>>=◌ ◌>>◌
abbrev pub ◌>>=◌ : {A B : Type 0} → M A → (A → M B) → M B
◌>>=◌ m f w = bind_result (m w) f

abbrev pub ◌>>◌ : {B : Type 0} → M (Unit {0}) → M B → M B
m >> k = m >>= λ _. k

abbrev pub return : {A : Type 0} → A → M A
return a w = (w, ok a)

abbrev pub fail : {A : Type 0} → Error → M A
fail e w = (w, err e)

-- `if b { ... } else { ... }` round effects.
unfoldable pub branch : {A : Type 0} → Bool → M A → M A → M A
branch b first second = if b then first else second

-- `v, ok := ...; if !ok { return nil, fmt.Errorf("text") }`
unfoldable pub or_fail : {A : Type 0} → String → Option A → M A
or_fail text none = fail (message text)
or_fail text (some a) = return a

-- A call that changes nothing.
abbrev pub ask : {A : Type 0} → Result A → M A
ask r w = (w, r)

-- `fmt.Errorf("text: %w", err)` round an effect.
unfoldable pub wrap_outcome : {A : Type 0} → String → World × Result A → World × Result A
wrap_outcome text (w, r) = (w, wrap text r)

abbrev pub context : {A : Type 0} → String → M A → M A
context text m w = wrap_outcome text (m w)

-- `ClientManager.GetClient`
unfoldable pub get_client : Environment → String → Result BridgeClient
get_client env chain = elim (env.clients chain) [
  | none ↦ err (message "no configured ibcv2 bridge client for chain ID")
  | some client ↦ ok client
]

-- One query, by itself a transaction.
unfoldable pub exec : Environment → Query → M (Unit {0})
exec env q w = elim (env.query_error q) [
  | none ↦ (record w { rows = execute q w.rows }, ok tt)
  | some e ↦ (w, err e)
]

-- The txs of one call in front of what was delivered before.
abbrev pub landed : String → String → List (List ℕ) → List Delivery → List Delivery
landed chain address [] before = before
landed chain address (tx ∷ txs) before =
    record { chain = chain; tx = tx; address = address } ∷ landed chain address txs before

-- `DeliverTx` of a client of the chain.
unfoldable pub deliver : String → BridgeClient → List ℕ → String → M BridgeTx
deliver chain client tx address w = (
  record w { delivered = landed chain address (client.lands tx address) w.delivered },
  client.deliver_tx tx address,
)
