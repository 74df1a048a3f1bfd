-- ===== src/Service/GasMonitor/Rounds.antt =====
-- What one tick of the gas monitor (gasmonitor/gasmonitor.go) reports.
use platform_relayer.Common.{
  Bool, ◌≡◌, refl, ◌⊎◌, inl, inr, ◌↔◌, true, false, List, [], ◌∷◌, Option, none, some, sym, subst,
  if◌then◌else◌, ap, ◌∙◌,
}
use platform_relayer.Among.{Among, here, there, Among-left, Among-right, Among-parts}
use platform_relayer.Errors.{Result, ok, err}
use platform_relayer.Bridge.{ChainType, evm, cosmos, svm}
use platform_relayer.Config.{ChainConfig}
use platform_relayer.Config.Readers.{get_all_chain_configs_of_type, same_type}
use platform_relayer.Service.GasMonitor.{
  GasBalance, Balances, monitor_gas_balances, reported, round, monitored, tick,
}

-- An element that is kept where a test says so.
kept_later :
    {A : Type 0} {a : A} (b : Bool) (c : A) {l : List A}
    → Among a l
    → Among a (if b then c ∷ l else l)
kept_later true c h = there h
kept_later false c h = h

kept_first :
    {A : Type 0} (b : Bool) (c : A) (l : List A) → b ≡ true → Among c (if b then c ∷ l else l)
kept_first true c l h = here refl
kept_first false c l h = absurd (cc)

kept_from :
    {A : Type 0} {a : A} (b : Bool) (c : A) {l : List A}
    → Among a (if b then c ∷ l else l)
    → (a ≡ c) ⊎ Among a l
kept_from true c (here same) = inl same
kept_from true c (there h) = inr h
kept_from false c h = inr h

same_type_refl : (t : ChainType) → same_type t t ≡ true
same_type_refl evm = refl
same_type_refl cosmos = refl
same_type_refl svm = refl

of_type-Among :
    {chain : ChainConfig} {chains : List ChainConfig} (t : ChainType)
    → chain.type ≡ t
    → Among chain chains
    → Among chain (get_all_chain_configs_of_type chains t)
unfolding get_all_chain_configs_of_type
of_type-Among {chain} t of (here {b} {l} same) =
    subst
      (λ d. Among d (
        if same_type b.type t
        then b ∷ get_all_chain_configs_of_type l t
        else get_all_chain_configs_of_type l t))
      (sym same)
      (kept_first (same_type b.type t) b _ (
        subst (λ d. same_type (ChainConfig.type d) t ≡ true) same
          (subst (λ u. same_type u t ≡ true) (sym of) (same_type_refl t))))
of_type-Among t of (there {b} {l} h) = kept_later (same_type b.type t) b (of_type-Among t of h)

of_type-Among_only :
    (chains : List ChainConfig) {chain : ChainConfig} (t : ChainType)
    → Among chain (get_all_chain_configs_of_type chains t)
    → Among chain chains
unfolding get_all_chain_configs_of_type
of_type-Among_only [] t h = elim h [ ]
of_type-Among_only (c ∷ chains) t h = elim (kept_from (same_type c.type t) c h) [
  | inl same ↦ here same
  | inr later ↦ there (of_type-Among_only chains t later)
]

monitored-Among :
    {config : List ChainConfig} {chain : ChainConfig} (t : ChainType)
    → chain.type ≡ t
    → Among chain config
    → Among chain (monitored config)
monitored-Among {config} evm of h = Among-left _ (of_type-Among evm of h)
monitored-Among {config} cosmos of h =
    Among-right (get_all_chain_configs_of_type config evm)
      (Among-left _ (of_type-Among cosmos of h))
monitored-Among {config} svm of h =
    Among-right (get_all_chain_configs_of_type config evm)
      (Among-right (get_all_chain_configs_of_type config cosmos) (of_type-Among svm of h))

monitored-Among_only :
    (config : List ChainConfig) {chain : ChainConfig}
    → Among chain (monitored config)
    → Among chain config
monitored-Among_only config h = elim (Among-parts (get_all_chain_configs_of_type config evm) h) [
  | inl first ↦ of_type-Among_only config evm first
  | inr more ↦ elim (Among-parts (get_all_chain_configs_of_type config cosmos) more) [
    | inl second ↦ of_type-Among_only config cosmos second
    | inr third ↦ of_type-Among_only config svm third
  ]
]

reported-Among :
    {g : GasBalance} (r : Result (Option GasBalance)) {rest : List GasBalance}
    → (r ≡ ok (some g)) ⊎ Among g rest
    → Among g (reported r rest)
reported-Among (ok (some b)) (inl h) = here (cc (h))
reported-Among (ok (some b)) (inr h) = there h
reported-Among (ok none) (inl h) = absurd (cc (h))
reported-Among (ok none) (inr h) = h
reported-Among (err e) (inl h) = absurd (cc (h))
reported-Among (err e) (inr h) = h

reported-Among_only :
    {g : GasBalance} (r : Result (Option GasBalance)) {rest : List GasBalance}
    → Among g (reported r rest)
    → (r ≡ ok (some g)) ⊎ Among g rest
reported-Among_only (ok (some b)) (here same) = inl (cc (same))
reported-Among_only (ok (some b)) (there h) = inr h
reported-Among_only (ok none) h = inr h
reported-Among_only (err e) h = inr h

round-Among :
    (config : List ChainConfig) (balances : Balances) {chain : ChainConfig} {g : GasBalance}
    {chains : List ChainConfig}
    → monitor_gas_balances config balances chain.chain_id ≡ ok (some g)
    → Among chain chains
    → Among g (round config balances chains)
unfolding round
round-Among config balances h (here {b} same) =
    reported-Among (monitor_gas_balances config balances b.chain_id) (
      inl
        (sym (ap (λ (c : ChainConfig). monitor_gas_balances config balances c.chain_id) same) ∙ h))
round-Among config balances h (there {b} later) =
    reported-Among (monitor_gas_balances config balances b.chain_id)
      (inr (round-Among config balances h later))

round-Among_only :
    (config : List ChainConfig) (balances : Balances) (chains : List ChainConfig) {g : GasBalance}
    → Among g (round config balances chains)
    → (chain : ChainConfig) × Among chain chains
      × (monitor_gas_balances config balances chain.chain_id ≡ ok (some g))
unfolding round
round-Among_only config balances [] h = elim h [ ]
round-Among_only config balances (c ∷ chains) h =
    elim (reported-Among_only (monitor_gas_balances config balances c.chain_id) h) [
      | inl mine ↦ (c, here refl, mine)
      | inr rest ↦
          let (chain, among, found) = round-Among_only config balances chains rest in
          (chain, there among, found)
    ]

-- A tick reports a balance exactly where a configured chain, of whatever type, has it checked without
-- an error: a chain whose client or configuration fails keeps no other chain from its report.
pub tick-Among :
    (config : List ChainConfig) (balances : Balances) (g : GasBalance)
    → Among g (tick config balances) ↔ (
        (chain : ChainConfig) × Among chain config
        × (monitor_gas_balances config balances chain.chain_id ≡ ok (some g)))
unfolding tick
tick-Among config balances g = (
  λ h.
      let (chain, among, found) = round-Among_only config balances (monitored config) h in
      (chain, monitored-Among_only config among, found),
  λ (chain, among, found).
      round-Among config balances found (monitored-Among chain.type refl among),
)
