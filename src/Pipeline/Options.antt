-- ===== src/Pipeline/Options.antt =====
-- relayer/ibcv2/pipeline_opts.go
use platform_relayer.Common.{
  ℕ, String, Bool, List, Option, none, some, ◌==◌, if◌then◌else◌, ◌≡◌, ◌≢◌, sym, subst, arith, inl,
  inr, Option-cases,
}
use platform_relayer.Errors.{Result, ok, err, message, wrapped, Result-cases}
use platform_relayer.Db.{ℤ, pos, negsuc}
use platform_relayer.Config.{Ibcv2Config, ChainConfig, get_chain_config}
use platform_relayer.Transfer.{Transfer}

pub record PipelineOptions : Type 0 where
  pub should_relay_success_acks : Bool
  pub should_relay_error_acks : Bool
  pub ack_batch_size : ℤ
  pub ack_batch_timeout : ℤ
  pub ack_batch_concurrency : ℤ
  pub recv_batch_size : ℤ
  pub recv_batch_timeout : ℤ
  pub recv_batch_concurrency : ℤ
  pub timeout_batch_size : ℤ
  pub timeout_batch_timeout : ℤ
  pub timeout_batch_concurrency : ℤ
  pub source_chain_gas_token_coingecko_id : String
  pub source_chain_gas_token_decimals : ℕ
  pub destination_chain_gas_token_coingecko_id : String
  pub destination_chain_gas_token_decimals : ℕ
  pub source_finality_offset : Option ℕ
  pub destination_finality_offset : Option ℕ

-- Durations are nanoseconds.
abbrev pub default_batch_size : ℤ
default_batch_size = pos 50

abbrev pub default_batch_timeout : ℤ
default_batch_timeout = pos 10000000000

abbrev pub default_timeout_batch_timeout : ℤ
default_timeout_batch_timeout = pos 60000000000

abbrev pub default_batch_concurrency : ℤ
default_batch_concurrency = pos 10

-- A configured value that is not 0 takes the place of the default.
abbrev pub or_default : ℤ → ℤ → ℤ
or_default default_value (pos n) = if n == 0 then default_value else pos n
or_default default_value (negsuc n) = negsuc n

abbrev pub text_or_empty : Option String → String
text_or_empty none = ""
text_or_empty (some s) = s

-- The options of a pair of configured chains.
unfoldable pub build_options :
    ChainConfig → ChainConfig → Ibcv2Config → Ibcv2Config → PipelineOptions
build_options source destination source_ibcv2 destination_ibcv2 = record {
  should_relay_success_acks = source_ibcv2.should_relay_success_acks;
  should_relay_error_acks = source_ibcv2.should_relay_error_acks;
  ack_batch_size = or_default default_batch_size source_ibcv2.ack_batch_size;
  ack_batch_timeout = or_default default_batch_timeout source_ibcv2.ack_batch_timeout;
  ack_batch_concurrency = or_default default_batch_concurrency source_ibcv2.ack_batch_concurrency;
  recv_batch_size = or_default default_batch_size destination_ibcv2.recv_batch_size;
  recv_batch_timeout = or_default default_batch_timeout destination_ibcv2.recv_batch_timeout;
  recv_batch_concurrency =
      or_default default_batch_concurrency destination_ibcv2.recv_batch_concurrency;
  timeout_batch_size = or_default default_batch_size source_ibcv2.timeout_batch_size;
  timeout_batch_timeout =
      or_default default_timeout_batch_timeout source_ibcv2.timeout_batch_timeout;
  timeout_batch_concurrency =
      or_default default_batch_concurrency source_ibcv2.timeout_batch_concurrency;
  source_chain_gas_token_coingecko_id = text_or_empty source.gas_token_coingecko_id;
  source_chain_gas_token_decimals = source.gas_token_decimals;
  destination_chain_gas_token_coingecko_id = text_or_empty destination.gas_token_coingecko_id;
  destination_chain_gas_token_decimals = destination.gas_token_decimals;
  source_finality_offset = source_ibcv2.finality_offset;
  destination_finality_offset = destination_ibcv2.finality_offset;
}

abbrev with_ibcv2 : ChainConfig → ChainConfig → Result PipelineOptions
with_ibcv2 source destination = elim source.ibcv2 [
  | none ↦ err (message "no ibcv2 config for source chain")
  | some source_ibcv2 ↦ elim destination.ibcv2 [
    | none ↦ err (message "no ibcv2 config for destination chain")
    | some destination_ibcv2 ↦ ok (build_options source destination source_ibcv2 destination_ibcv2)
  ]
]

unfoldable pub new_pipeline_opts : List ChainConfig → Transfer → Result PipelineOptions
new_pipeline_opts chains t = elim (get_chain_config chains t.source_chain_id) [
  | err e ↦ err (wrapped "getting config for chain" e)
  | ok source ↦ elim (get_chain_config chains t.destination_chain_id) [
    | err e ↦ err (wrapped "getting config for chain" e)
    | ok destination ↦ with_ibcv2 source destination
  ]
]

-- None of the batch parameters is 0.
abbrev pub HasNoZero : PipelineOptions → Type 0
HasNoZero o =
    (o.ack_batch_size ≢ pos 0)
    × (o.ack_batch_timeout ≢ pos 0)
    × (o.ack_batch_concurrency ≢ pos 0)
    × (o.recv_batch_size ≢ pos 0)
    × (o.recv_batch_timeout ≢ pos 0)
    × (o.recv_batch_concurrency ≢ pos 0)
    × (o.timeout_batch_size ≢ pos 0)
    × (o.timeout_batch_timeout ≢ pos 0)
    × (o.timeout_batch_concurrency ≢ pos 0)

or_default_ne : (d n : ℤ) → d ≢ pos 0 → or_default d n ≢ pos 0
or_default_ne d (pos n) h = ground arith
or_default_ne d (negsuc n) h = ground arith

build_options-HasNoZero :
    (source destination : ChainConfig) (s d : Ibcv2Config)
    → HasNoZero (build_options source destination s d)
unfolding build_options
build_options-HasNoZero source destination s d = (
  or_default_ne _ s.ack_batch_size (λ e. ground (arith, e)),
  or_default_ne _ s.ack_batch_timeout (λ e. ground (arith, e)),
  or_default_ne _ s.ack_batch_concurrency (λ e. ground (arith, e)),
  or_default_ne _ d.recv_batch_size (λ e. ground (arith, e)),
  or_default_ne _ d.recv_batch_timeout (λ e. ground (arith, e)),
  or_default_ne _ d.recv_batch_concurrency (λ e. ground (arith, e)),
  or_default_ne _ s.timeout_batch_size (λ e. ground (arith, e)),
  or_default_ne _ s.timeout_batch_timeout (λ e. ground (arith, e)),
  or_default_ne _ s.timeout_batch_concurrency (λ e. ground (arith, e)),
)

-- The two configured chains from which the options are built, each with an ibcv2 section.
abbrev pub BuiltFrom : List ChainConfig → Transfer → PipelineOptions → Type 0
BuiltFrom chains t opts =
    (source : ChainConfig) × (destination : ChainConfig) × (s : Ibcv2Config) × (d : Ibcv2Config)
    × (get_chain_config chains t.source_chain_id ≡ ok source)
    × (get_chain_config chains t.destination_chain_id ≡ ok destination)
    × (source.ibcv2 ≡ some s)
    × (destination.ibcv2 ≡ some d)
    × (opts ≡ build_options source destination s d)

with_ibcv2_ok :
    (source destination : ChainConfig) (opts : PipelineOptions)
    → with_ibcv2 source destination ≡ ok opts
    → (s : Ibcv2Config) × (d : Ibcv2Config) × (source.ibcv2 ≡ some s)
      × (destination.ibcv2 ≡ some d)
      × (opts ≡ build_options source destination s d)
with_ibcv2_ok source destination opts h = elim (Option-cases source.ibcv2) [
  | inl missing ↦ absurd (ground (arith, missing))
  | inr (s, es) ↦ elim (Option-cases destination.ibcv2) [
    | inl missing ↦ absurd (ground (arith, es, missing))
    | inr (d, ed) ↦ (s, d, es, ed, ground (arith, es, ed))
  ]
]

-- Options are made only for two configured chains that both have an ibcv2 section, from those
-- sections, and then no batch size, batch timeout or batch concurrency is 0.
pub new_pipeline_opts_ok :
    (chains : List ChainConfig) (t : Transfer) (opts : PipelineOptions)
    → new_pipeline_opts chains t ≡ ok opts
    → BuiltFrom chains t opts × HasNoZero opts
unfolding new_pipeline_opts
new_pipeline_opts_ok chains t opts h =
    elim (Result-cases (get_chain_config chains t.source_chain_id)) [
      | inr (e, es) ↦ absurd (ground (arith, es))
      | inl (source, es) ↦ elim (Result-cases (get_chain_config chains t.destination_chain_id)) [
        | inr (e, ed) ↦ absurd (ground (arith, es, ed))
        | inl (destination, ed) ↦
            let (s, d, is, id, same) =
              with_ibcv2_ok source destination opts (ground (arith, es, ed)) in
            (
              (source, destination, s, d, es, ed, is, id, same),
              subst HasNoZero (sym same) (build_options-HasNoZero source destination s d),
            )
      ]
    ]
