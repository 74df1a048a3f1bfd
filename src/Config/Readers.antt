-- ===== src/Config/Readers.antt =====
-- The other readers of shared/config/config.go. What `os.LookupEnv` answers is a parameter.
use platform_relayer.Common.{
  ℕ, String, Bool, false, List, [], ◌∷◌, Option, none, some, is_some, ◌==◌, if◌then◌else◌, ◌-◌,
}
use platform_relayer.Errors.{Result, ok, err, message, wrap}
use platform_relayer.Db.{ℤ, pos, negsuc}
use platform_relayer.Bridge.{ChainType, evm, cosmos, svm}
use platform_relayer.Batch.Hex.{codes}
use platform_relayer.Clients.Answers.{◌>>=◌}
use platform_relayer.Clients.Number.{unsigned}
use platform_relayer.Config.{
  Ibcv2Config, CosmosConfig, EvmConfig, SvmConfig, ThresholdsConfig, ChainConfig, get_chain_config,
}

abbrev pub required : {A : Type 0} → String → Option A → Result A
required text none = err (message text)
required text (some a) = ok a

-- `GetIBCV2Chains`
unfoldable pub get_ibcv2_chains : List ChainConfig → List ChainConfig
get_ibcv2_chains [] = []
get_ibcv2_chains (chain ∷ chains) =
    let rest = get_ibcv2_chains chains in if is_some chain.ibcv2 then chain ∷ rest else rest

-- `GetIBCV2Config`
unfoldable pub get_ibcv2_config : List ChainConfig → String → Result (Option Ibcv2Config)
get_ibcv2_config chains id = do chain ← get_chain_config chains id; ok chain.ibcv2

-- `GetRPCEndpoint` for a chain that is there.
abbrev pub rpc_of : ChainType → ChainConfig → Result String
rpc_of cosmos chain = do
  section ← required "cosmos config not set for chain" chain.cosmos
  ok (CosmosConfig.rpc section)
rpc_of evm chain = do
  section ← required "evm config not set for chain" chain.evm
  ok (EvmConfig.rpc section)
rpc_of svm chain = do
  section ← required "svm config not set for chain" chain.svm
  ok (SvmConfig.rpc section)

-- `GetRPCEndpoint`
unfoldable pub get_rpc_endpoint : List ChainConfig → String → Result String
get_rpc_endpoint chains id = do chain ← get_chain_config chains id; rpc_of chain.type chain

-- `GetGRPCEndpoint`: the address, and whether it is over TLS.
abbrev pub grpc_of : ChainType → ChainConfig → Result (String × Bool)
grpc_of cosmos chain = do
  section ← required "cosmos config not set for chain" chain.cosmos
  ok (CosmosConfig.grpc section, CosmosConfig.grpc_tls_enabled section)
grpc_of evm chain = err (message "grpc endpoints not supported for chain type evm")
grpc_of svm chain = err (message "grpc endpoints not supported for chain type svm")

unfoldable pub get_grpc_endpoint : List ChainConfig → String → Result (String × Bool)
get_grpc_endpoint chains id = do chain ← get_chain_config chains id; grpc_of chain.type chain

-- `GetBasicAuth`
abbrev pub basic_auth_of :
    (String → Option String) → ChainType → ChainConfig → Result (Option String)
basic_auth_of lookup_env cosmos chain = do
  section ← required "cosmos config not set for chain" chain.cosmos
  ok (lookup_env (CosmosConfig.rpc_basic_auth_var section))
basic_auth_of lookup_env evm chain = do
  section ← required "evm config not set for chain" chain.evm
  ok (lookup_env (EvmConfig.rpc_basic_auth_var section))
basic_auth_of lookup_env svm chain = ok none

unfoldable pub get_basic_auth :
    (String → Option String) → List ChainConfig → String → Result (Option String)
get_basic_auth lookup_env chains id = do
  chain ← get_chain_config chains id
  basic_auth_of lookup_env chain.type chain

abbrev pub same_type : ChainType → ChainType → Bool
same_type evm evm = Bool.true
same_type cosmos cosmos = Bool.true
same_type svm svm = Bool.true
same_type _ _ = false

-- `GetAllChainConfigsOfType`
unfoldable pub get_all_chain_configs_of_type : List ChainConfig → ChainType → List ChainConfig
get_all_chain_configs_of_type [] type = []
get_all_chain_configs_of_type (chain ∷ chains) type =
    let rest = get_all_chain_configs_of_type chains type in
    if same_type chain.type type then chain ∷ rest else rest

-- The negative of a number.
abbrev pub negate : ℕ → ℤ
negate n = if n == 0 then pos 0 else negsuc (n - 1)

abbrev pub signed : (ℕ → ℤ) → Option ℕ → Option ℤ
signed f none = none
signed f (some n) = some (f n)

-- `new(big.Int).SetString(s, 10)` on code points.
unfoldable pub set_string : List ℕ → Option ℤ
set_string [] = none
set_string (c ∷ s) =
    if c == b'-'
    then signed negate (unsigned s)
    else if c == b'+'
    then signed pos (unsigned s)
    else signed pos (unsigned (c ∷ s))

-- The two thresholds, the warning first.
pub record Thresholds : Type 0 where
  pub warning : ℤ
  pub critical : ℤ

unfoldable pub parse_thresholds : ThresholdsConfig → Result Thresholds
unfolding set_string
parse_thresholds section = do
  warning ←
      required "failed to parse gas balance warning threshold amount"
        (set_string (codes section.warning_threshold))
  critical ←
      required "failed to parse gas balance critical threshold amount"
        (set_string (codes section.critical_threshold))
  ok (record { warning = warning; critical = critical })

-- `GetSignerGasAlertThresholds`: nothing stands for `ErrNoSignerForBridge`.
abbrev pub thresholds_of : Option ThresholdsConfig → Result (Option Thresholds)
thresholds_of none = ok none
thresholds_of (some section) = do t ← parse_thresholds section; ok (some t)

unfoldable pub get_signer_gas_alert_thresholds :
    List ChainConfig → String → Result (Option Thresholds)
unfolding parse_thresholds
get_signer_gas_alert_thresholds chains id = do
  chain ← wrap "getting chain config for chain" (get_chain_config chains id)
  thresholds_of chain.signer_gas_alert_thresholds
