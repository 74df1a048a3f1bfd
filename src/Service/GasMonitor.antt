-- ===== src/Service/GasMonitor.antt =====
-- The gas monitor of gasmonitor/gasmonitor.go: one round over the chains, each minute.
pub mod Rounds
use platform_relayer.Common.{
  ℕ, String, Bool, true, false, List, [], ◌∷◌, ◌++◌, Option, none, some, ltb, if◌then◌else◌,
}
use platform_relayer.Errors.{Result, ok, err, message, wrap}
use platform_relayer.Db.{ℤ, pos, negsuc}
use platform_relayer.Bridge.{evm, cosmos, svm}
use platform_relayer.Config.{ChainConfig}
use platform_relayer.Config.Readers.{
  Thresholds, get_signer_gas_alert_thresholds, get_all_chain_configs_of_type,
}
use platform_relayer.Clients.Answers.{◌>>=◌}

-- `a.Cmp(b) < 0`
unfoldable pub lt_ℤ : ℤ → ℤ → Bool
lt_ℤ (pos m) (pos n) = ltb m n
lt_ℤ (pos m) (negsuc n) = false
lt_ℤ (negsuc m) (pos n) = true
lt_ℤ (negsuc m) (negsuc n) = ltb n m

-- What is set in the metrics for a chain, and whether the low balance is logged as an error.
pub record GasBalance : Type 0 where
  pub chain_id : String
  pub balance : ℤ
  pub warning : ℤ
  pub critical : ℤ
  pub is_low : Bool

-- What `GetClient` and then `SignerGasTokenBalance` answer, by the chain's id; a balance may be nil.
abbrev pub Balances : Type 0
Balances = String → Result (Option ℤ)

abbrev pub gas_balance : String → Thresholds → Option ℤ → Result (Option GasBalance)
gas_balance id t none = err (message "gas balance or alert thresholds are nil for chain")
gas_balance id t (some balance) = ok (
    some (record {
      chain_id = id;
      balance = balance;
      warning = t.warning;
      critical = t.critical;
      is_low = lt_ℤ balance t.critical;
    }))

-- A chain without thresholds is left alone.
abbrev pub checked : Balances → String → Option Thresholds → Result (Option GasBalance)
checked balances id none = ok none
checked balances id (some t) = do
  balance ← wrap "getting gas token balance for signer on chain" (balances id)
  gas_balance id t balance

-- `monitorIBCV2GasBalances`
unfoldable pub monitor_gas_balances :
    List ChainConfig → Balances → String → Result (Option GasBalance)
monitor_gas_balances config balances id = do
  thresholds ←
      wrap "getting signer gas alert thresholds on chain"
        (get_signer_gas_alert_thresholds config id)
  checked balances id thresholds

-- An error is logged, and the round goes on.
abbrev pub reported : Result (Option GasBalance) → List GasBalance → List GasBalance
reported (ok (some balance)) rest = balance ∷ rest
reported (ok none) rest = rest
reported (err e) rest = rest

unfoldable pub round : List ChainConfig → Balances → List ChainConfig → List GasBalance
unfolding monitor_gas_balances
round config balances [] = []
round config balances (chain ∷ chains) =
    reported (monitor_gas_balances config balances chain.chain_id) (round config balances chains)

-- The chains of `Start`, in its order.
abbrev pub monitored : List ChainConfig → List ChainConfig
monitored config =
    get_all_chain_configs_of_type config evm
    ++ (get_all_chain_configs_of_type config cosmos ++ get_all_chain_configs_of_type config svm)

-- One tick of `Start`.
unfoldable pub tick : List ChainConfig → Balances → List GasBalance
unfolding round get_all_chain_configs_of_type
tick config balances = round config balances (monitored config)
