-- ===== src/Clients/Waiting/Loops.antt =====
-- When `WaitForChain` and `WaitForTx` (shared/bridges/ibcv2/cosmos_bridge_client.go and
-- evm_bridge_client.go) return.
use platform_relayer.Common.{
  ℕ, zero, suc, ◌+◌, ◌≡◌, refl, ◌<◌, Bool, true, false, none, some, ltb, arith, inl, inr,
  Bool-cases,
}
use platform_relayer.Db.{Time}
use platform_relayer.Errors.{ok, err, Error}
use platform_relayer.Clients.Answers.{says_not_found}
use platform_relayer.Clients.Waiting.{
  Outcome, poll, chain_round, wait_for_chain, cosmos_tx_round, evm_tx_round, wait_for_tx,
}

-- No round from `k` on, `rounds` many, has an outcome.
abbrev pub Quiet : (ℕ → Bool) → (ℕ → Outcome) → ℕ → ℕ → Type 0
Quiet cancels round zero k = Unit
Quiet cancels round (suc n) k =
    (cancels k ≡ false) × (round k ≡ none) × Quiet cancels round n (suc k)

poll-Quiet :
    (cancels : ℕ → Bool) (round : ℕ → Outcome) (n k : ℕ)
    → Quiet cancels round n k
    → poll n cancels round k ≡ none
unfolding poll
poll-Quiet cancels round zero k h = refl
poll-Quiet cancels round (suc n) k (c, q, h) = rw (c, q) (poll-Quiet cancels round n (suc k) h)

-- The rounds from `k` on, where the clock moves on and the node answers.
chain_poll :
    (cancels : ℕ → Bool) (time : ℕ → Time) (start m k : ℕ)
    → ((i : ℕ) → cancels i ≡ false)
    → ((i : ℕ) → time i < time (suc i))
    → start < time k + m
    → poll (suc m) cancels (λ i. chain_round start (ok (time i))) k ≡ some (ok tt)
unfolding poll chain_round
chain_poll cancels time start zero k goes grows h = ground (arith, goes k)
chain_poll cancels time start (suc m) k goes grows h = elim (Bool-cases (ltb start (time k))) [
  | inl passed ↦ rw (goes k, passed) refl
  | inr behind ↦
      rw (goes k, behind)
        (chain_poll cancels time start m (suc k) goes grows (omega (arith, grows k, h)))
]

-- Where the node answers, the chain's clock moves on between the rounds and the context is not
-- cancelled, `WaitForChain` returns without an error, at the latest after the rounds that the clock
-- needs for the time between it and the start.
pub wait_for_chain-returns :
    (cancels : ℕ → Bool) (time : ℕ → Time) (start m : ℕ)
    → ((i : ℕ) → cancels i ≡ false)
    → ((i : ℕ) → time i < time (suc i))
    → start < time 0 + m
    → wait_for_chain (suc m) cancels (λ i. ok (time i)) start ≡ some (ok tt)
unfolding wait_for_chain
wait_for_chain-returns cancels time start m goes grows h =
    chain_poll cancels time start m 0 goes grows h

cosmos_Quiet :
    (cancels : ℕ → Bool) (waited : ℕ → Time) (answers : ℕ → Error) (n k : ℕ)
    → ((i : ℕ) → cancels i ≡ false)
    → ((i : ℕ) → says_not_found (answers i) ≡ true)
    → Quiet cancels (λ i. cosmos_tx_round (waited i) (err (answers i))) n k
unfolding cosmos_tx_round
cosmos_Quiet cancels waited answers zero k goes misses = tt
cosmos_Quiet cancels waited answers (suc n) k goes misses =
    (goes k, rw (misses k) refl, cosmos_Quiet cancels waited answers n (suc k) goes misses)

evm_Quiet :
    (cancels : ℕ → Bool) (waited : ℕ → Time) (answers : ℕ → Error) (n k : ℕ)
    → ((i : ℕ) → cancels i ≡ false)
    → Quiet cancels (λ i. evm_tx_round (waited i) (err (answers i))) n k
unfolding evm_tx_round
evm_Quiet cancels waited answers zero k goes = tt
evm_Quiet cancels waited answers (suc n) k goes =
    (goes k, refl, evm_Quiet cancels waited answers n (suc k) goes)

-- While the context is not cancelled and the node answers that it does not find the tx, `WaitForTx`
-- of neither client returns, also long after the timeout of a minute.
pub wait_for_tx-waits :
    (cancels : ℕ → Bool) (waited : ℕ → Time) (answers : ℕ → Error) (rounds : ℕ)
    → ((i : ℕ) → cancels i ≡ false)
    → ((i : ℕ) → says_not_found (answers i) ≡ true)
    → (wait_for_tx cosmos_tx_round rounds cancels waited (λ i. err (answers i)) ≡ none)
      × (wait_for_tx evm_tx_round rounds cancels waited (λ i. err (answers i)) ≡ none)
unfolding wait_for_tx
wait_for_tx-waits cancels waited answers rounds goes misses = (
  poll-Quiet cancels _ rounds 0 (cosmos_Quiet cancels waited answers rounds 0 goes misses),
  poll-Quiet cancels _ rounds 0 (evm_Quiet cancels waited answers rounds 0 goes),
)
