-- ===== src/Config.antt =====
-- The configuration of the chains, as far as the relayer's core reads it: shared/config/config.go.
pub mod Readers
use platform_relayer.Common.{
  ℕ, String, Bool, List, [], ◌∷◌, Option, none, some, str_eq, if◌then◌else◌,
}
use platform_relayer.Errors.{Result, ok, err, message}
use platform_relayer.Db.{ℤ}
use platform_relayer.Bridge.{ChainType}

-- `int` and `time.Duration` fields are integers; the map goes from client ids to chain ids.
pub record Ibcv2Config : Type 0 where
  pub counterparty_chains : String → Option String
  pub finality_offset : Option ℕ
  pub ack_batch_size : ℤ
  pub ack_batch_timeout : ℤ
  pub ack_batch_concurrency : ℤ
  pub recv_batch_size : ℤ
  pub recv_batch_timeout : ℤ
  pub recv_batch_concurrency : ℤ
  pub timeout_batch_size : ℤ
  pub timeout_batch_timeout : ℤ
  pub timeout_batch_concurrency : ℤ
  pub should_relay_success_acks : Bool
  pub should_relay_error_acks : Bool

pub record CosmosConfig : Type 0 where
  pub tx_fee_denom : String
  pub tx_fee_amount : ℕ  -- uint64
  pub rpc : String
  pub rpc_basic_auth_var : String
  pub grpc : String
  pub grpc_tls_enabled : Bool
  pub address_prefix : String

pub record EvmConfig : Type 0 where
  pub rpc : String
  pub rpc_basic_auth_var : String
  pub ics26_router_address : String
  pub ics20_transfer_address : String

pub record SvmConfig : Type 0 where
  pub rpc : String
  pub ws : String
  pub priority_fee : ℕ  -- uint64
  pub submit_rpcs : List String

pub record ThresholdsConfig : Type 0 where
  pub warning_threshold : String
  pub critical_threshold : String

-- A chain of one of the three types; the thresholds are those of the one bridge type there is. The
-- floats of a section are left out.
pub record ChainConfig : Type 0 where
  pub chain_id : String
  pub type : ChainType
  pub cosmos : Option CosmosConfig
  pub evm : Option EvmConfig
  pub svm : Option SvmConfig
  pub signer_gas_alert_thresholds : Option ThresholdsConfig
  pub gas_token_coingecko_id : Option String
  pub gas_token_decimals : ℕ  -- uint8
  pub ibcv2 : Option Ibcv2Config

-- `createIndexes`: a later chain of the same id takes the place of an earlier one.
unfoldable pub create_indexes :
    (String → Option ChainConfig) → List ChainConfig → String → Option ChainConfig
create_indexes index [] = index
create_indexes index (chain ∷ chains) =
    create_indexes (λ id. if str_eq id chain.chain_id then some chain else index id) chains

unfoldable pub get_chain_config : List ChainConfig → String → Result ChainConfig
get_chain_config chains id = elim (create_indexes (λ _. none) chains id) [
  | none ↦ err (message "chain id not found")
  | some chain ↦ ok chain
]

-- The map lookup that `GetClientCounterpartyChainID` ends with.
abbrev counterparty_in : String → ChainConfig → Result String
counterparty_in client chain = elim chain.ibcv2 [
  | none ↦ err (message "chain is not ibcv2 enabled")
  | some ibcv2 ↦ elim (ibcv2.counterparty_chains client) [
    | none ↦ err (message "unknown client on chain")
    | some tracked ↦ ok tracked
  ]
]

unfoldable pub get_client_counterparty_chain_id : List ChainConfig → String → String → Result String
get_client_counterparty_chain_id chains id client = elim (get_chain_config chains id) [
  | err e ↦ err e
  | ok chain ↦ counterparty_in client chain
]
