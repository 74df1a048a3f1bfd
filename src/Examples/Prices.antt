-- ===== src/Examples/Prices.antt =====
-- The theorems on the services round the relayer: a price that is asked for twice and a
-- monitored balance.
use platform_relayer.Common.{
  String, ℕ, ◌≡◌, refl, ◌+◌, str_eq, if◌then◌else◌, ◌≤◌, ◌⊎◌, ◌↔◌, true, List, [], ◌∷◌, none, some,
}
use platform_relayer.Errors.{ok, err, message}
use platform_relayer.Db.{pos}
use platform_relayer.Config.{ChainConfig, create_indexes, get_chain_config}
use platform_relayer.Clients.Number.{unsigned}
use platform_relayer.Config.Readers.{
  get_all_chain_configs_of_type, get_signer_gas_alert_thresholds, parse_thresholds, set_string,
}
use platform_relayer.Clients.Answers.{bytes_equal}
use platform_relayer.Service.Price.{
  cache_key, new_cached_price_client, lookup, insert, cached, after_fetch, price_or_fetch,
  get_simple_price,
}
use platform_relayer.Service.Price.Fresh.{Call, Offered, step, serve, get_simple_price-fresh}
use platform_relayer.Batch.Hex.{codes}
use platform_relayer.Service.Price.Keys.{HasNoSlash, cache_key-inj}
use platform_relayer.Service.GasMonitor.{
  GasBalance, Balances, lt_ℤ, monitor_gas_balances, round, tick,
}
use platform_relayer.Service.GasMonitor.Rounds.{tick-Among}
use platform_relayer.Among.{Among}
use platform_relayer.Examples.Data.{chain}

-- The first call is answered, the second is not.
abbrev first_call : Call
first_call = record {
  now = 100;
  fetched = 101;
  answer = ok (7 ∷ []);
  coin = "ethereum";
  currency = "usd";
}

abbrev second_call : Call
second_call = record first_call { now = 105; answer = err (message "too many requests") }

second_call_hits :
    (step (serve (first_call ∷ []) (new_cached_price_client 10)) second_call).1 ≡ ok (7 ∷ [])
unfolding serve lookup insert cached after_fetch price_or_fetch get_simple_price cache_key
    bytes_equal
second_call_hits = refl

get_simple_price-fresh_example :
    (second_call.answer ≡ ok (7 ∷ []))
    ⊎ ((t : ℕ) × Offered (cache_key "ethereum" "usd") (7 ∷ []) t (first_call ∷ []) × (105 ≤ t + 10))
get_simple_price-fresh_example =
    get_simple_price-fresh (first_call ∷ []) 10 second_call (7 ∷ []) second_call_hits

-- Two chains with thresholds: the first chain's signer is low, and the second's cannot be asked.
abbrev guarded : ChainConfig
guarded = record (chain "1" none) {
  signer_gas_alert_thresholds =
      some (record { warning_threshold = "20"; critical_threshold = "10" });
}

abbrev guarded_chains : List ChainConfig
guarded_chains = guarded ∷ record guarded { chain_id = "10" } ∷ []

abbrev signers : Balances
signers id = if str_eq id "1" then ok (some (pos 3)) else err (message "no client")

abbrev low : GasBalance
low = record { chain_id = "1"; balance = pos 3; warning = pos 20; critical = pos 10; is_low = true }

one_round : tick guarded_chains signers ≡ low ∷ []
unfolding tick round monitor_gas_balances get_signer_gas_alert_thresholds get_chain_config
    get_all_chain_configs_of_type parse_thresholds set_string lt_ℤ create_indexes unsigned
one_round = refl

tick-Among_example : Among low (tick guarded_chains signers) ↔ (
    (c : ChainConfig) × Among c guarded_chains
    × (monitor_gas_balances guarded_chains signers c.chain_id ≡ ok (some low)))
tick-Among_example = tick-Among guarded_chains signers low

abbrev atom : String
atom = "atom"

abbrev market : String
market = "us/d"

abbrev atom_has_no_slash : HasNoSlash (codes atom)
atom_has_no_slash = (refl, (refl, (refl, (refl, tt))))

cache_key-inj_example : (atom ≡ atom) × (market ≡ market)
cache_key-inj_example =
    cache_key-inj atom atom market market atom_has_no_slash atom_has_no_slash refl
