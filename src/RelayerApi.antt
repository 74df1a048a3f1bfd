-- ===== src/RelayerApi.antt =====
-- The gRPC service that takes transactions to be relayed and reports on their packets:
-- relayerapi/services/relayerapi/service.go. Metrics and logs are left out.
pub mod Ofac
pub mod Relay
pub mod Status
pub mod Laws
pub mod Reported
pub mod Answered
pub mod Again
pub mod Polled
use platform_relayer.Common.{
  ℕ, String, Bool, ◌||◌, ◌&&◌, List, [], ◌∷◌, Option, none, some, str_eq, if◌then◌else◌,
}
use platform_relayer.Errors.{
  Error, sentinel, external, pg_error, message, wrapped, joined, Result, ok, err,
}
use platform_relayer.Db.{Row}
use platform_relayer.Bridge.{BridgeClient}
use platform_relayer.Config.{ChainConfig}

-- What a handler fails with: a gRPC status, or an error without one.
pub data ApiError : Type 0 where
  invalid_argument not_found internal : ApiError
  unknown : Error → ApiError

pub data Response (A : Type 0) : Type 0 where
  answer : A → Response A
  refuse : ApiError → Response A

-- A row of `ibcv2_relay_submissions`, which are unique; the requests have the same two fields.
pub record Submission : Type 0 where
  pub chain_id : String
  pub tx_hash : String

pub record Store : Type 0 where
  pub submissions : List Submission
  pub rows : List Row

-- What the service calls: the clients, the configured chains and the storage, whose queries may
-- fail. `to_lower` is `strings.ToLower`.
pub record ApiEnvironment : Type 0 where
  pub clients : String → Option BridgeClient
  pub chains : List ChainConfig
  pub to_lower : String → String
  pub insert_submission_error : Submission → Option Error
  pub get_submission_error : Submission → Option Error
  pub insert_transfer_error : Row → Option Error
  pub get_transfers_error : Submission → Option Error

-- `errors.As(err, &pgErr)`
abbrev pub errors_as_pg : Error → Option String
errors_as_pg (sentinel s) = none
errors_as_pg (external text) = none
errors_as_pg (pg_error code) = some code
errors_as_pg (message text) = none
errors_as_pg (wrapped text e) = errors_as_pg e
errors_as_pg (joined e f) = elim (errors_as_pg e) [ none ↦ errors_as_pg f | some code ↦ some code ]

abbrev pub duplicate_key : String
duplicate_key = "23505"

abbrev pub is_duplicate : Error → Bool
is_duplicate e = elim (errors_as_pg e) [ none ↦ Bool.false | some code ↦ str_eq code duplicate_key ]

abbrev pub same_submission : Submission → Submission → Bool
same_submission x y = str_eq x.chain_id y.chain_id && str_eq x.tx_hash y.tx_hash

abbrev pub has_submission : Submission → List Submission → Bool
has_submission x [] = Bool.false
has_submission x (y ∷ submissions) = same_submission x y || has_submission x submissions

-- `if request.GetTxHash() == "" || request.GetChainId() == ""`
abbrev pub is_incomplete : Submission → Bool
is_incomplete request = str_eq request.tx_hash "" || str_eq request.chain_id ""
