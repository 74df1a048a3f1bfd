-- ===== src/Clients/Evm/Submit/Fees.antt =====
-- The tx that `newTx` of shared/bridges/ibcv2/evm_bridge_client.go makes.
use platform_relayer.Common.{
  ℕ, ◌≡◌, refl, ◌+◌, ◌*◌, ◌≤◌, String, List, none, arith, ◌↔◌, ◌∙◌, ap, sym,
}
use platform_relayer.Errors.{Result, ok, err, wrap}
use platform_relayer.Clients.Answers.{◌>>=◌}
use platform_relayer.Clients.Evm.{Header, EvmBridgeClient}
use platform_relayer.Clients.Evm.Submit.{DynamicFeeTx, History, Chain, adjust_cap, has_code, new_tx}

-- What a call that goes on to a result has got on its way.
wrapped_ok :
    {A B : Type 0} (text : String) (r : Result A) (f : A → Result B) (b : B)
    → (wrap text r >>= f) ≡ ok b
    → (a : A) × (r ≡ ok a) × (f a ≡ ok b)
wrapped_ok text (ok a) f b h = (a, refl, h)
wrapped_ok text (err e) f b h = absurd (cc)

bind_ok :
    {A B : Type 0} (r : Result A) (f : A → Result B) (b : B)
    → (r >>= f) ≡ ok b
    → (a : A) × (r ≡ ok a) × (f a ≡ ok b)
bind_ok (ok a) f b h = (a, refl, h)
bind_ok (err e) f b h = absurd (cc)

-- The caps of a tx that is made, from the answers of the node.
new_tx_ok :
    (client : EvmBridgeClient) (chain : Chain) (history : History) (bz : List ℕ) (to : String)
    (tx : DynamicFeeTx)
    → new_tx client chain history bz to ≡ ok tx
    → (head : Header) × (tip : ℕ) × (chain.latest_header history ≡ ok head)
      × (chain.suggest_gas_tip_cap history ≡ ok tip)
      × (tx.gas_fee_cap ≡ adjust_cap client.gas_fee_cap_multiplier (tip + head.base_fee * 2))
      × (tx.gas_tip_cap ≡ adjust_cap client.gas_tip_cap_multiplier tip)
unfolding new_tx
new_tx_ok client chain history bz to tx h =
    let (head, latest, h₁) = wrapped_ok _ (chain.latest_header history) _ tx h in
    let (tip, suggested, h₂) = wrapped_ok _ (chain.suggest_gas_tip_cap history) _ tx h₁ in
    let (code, pending, h₃) = wrapped_ok _ (chain.pending_code_at history to) _ tx h₂ in
    let (there, filled, h₄) = bind_ok (has_code code) _ tx h₃ in
    let (gas, estimated, h₅) = wrapped_ok _ (chain.estimate_gas history to bz) _ tx h₄ in
    let (nonce, free, h₆) =
      wrapped_ok _ (chain.pending_nonce_at history client.signer_address) _ tx h₅ in
    (head, tip, latest, suggested, cc (h₆), cc (h₆))

-- A tx that is made without multipliers pays the suggested tip, and can pay it in full in every block
-- whose base fee is at most twice that of the latest block, and in no other.
pub new_tx-pays :
    (client : EvmBridgeClient) (chain : Chain) (history : History) (bz : List ℕ) (to : String)
    (tx : DynamicFeeTx)
    → client.gas_fee_cap_multiplier ≡ none
    → client.gas_tip_cap_multiplier ≡ none
    → new_tx client chain history bz to ≡ ok tx
    → (head : Header) × (chain.latest_header history ≡ ok head)
      × (chain.suggest_gas_tip_cap history ≡ ok tx.gas_tip_cap)
      × ((base_fee : ℕ)
          → (base_fee ≤ head.base_fee * 2) ↔ (base_fee + tx.gas_tip_cap ≤ tx.gas_fee_cap))
new_tx-pays client chain history bz to tx no_fee no_tip h =
    let (head, tip, latest, suggested, fee_cap, tip_cap) =
      new_tx_ok client chain history bz to tx h in
    let fee_lem : tx.gas_fee_cap ≡ tip + head.base_fee * 2 =
      fee_cap ∙ ap (λ m. adjust_cap m (tip + head.base_fee * 2)) no_fee in
    let tip_lem : tx.gas_tip_cap ≡ tip = tip_cap ∙ ap (λ m. adjust_cap m tip) no_tip in
    (
      head,
      latest,
      suggested ∙ ap ok (sym tip_lem),
      λ base_fee.
          (λ le. omega (arith, le, fee_lem, tip_lem), λ le. omega (arith, le, fee_lem, tip_lem)),
    )
