-- ===== src/Clients/Waiting.antt =====
-- The loops of `WaitForChain` and `WaitForTx` in both bridge clients: rounds at the ticks of a clock,
-- until a round has an outcome or the context is cancelled. Round `k` sees what the node answers at
-- its tick; `cancels k` says that the select took the context's end there.
pub mod Loops
use platform_relayer.Common.{ℕ, zero, suc, Bool, Option, none, some, ltb, if◌then◌else◌}
use platform_relayer.Db.{Time}
use platform_relayer.Errors.{Result, ok, err, sentinel, message, wrap, canceled, Error}
use platform_relayer.Clients.Answers.{says_not_found}

abbrev pub Outcome : Type 0
Outcome = Option (Result (Unit {0}))

-- The outcome of a round, or of the rest of the loop.
abbrev pub or_rest : Outcome → Outcome → Outcome
or_rest (some r) rest = some r
or_rest none rest = rest

-- As many rounds, from round `k` on: nothing if the loop is still waiting after them.
unfoldable pub poll : ℕ → (ℕ → Bool) → (ℕ → Outcome) → ℕ → Outcome
poll zero cancels round k = none
poll (suc rounds) cancels round k =
    let rest = poll rounds cancels round (suc k) in
    if cancels k then some (err (sentinel canceled)) else or_rest (round k) rest

-- A round of `WaitForChain`: whether the chain's clock has passed the time at the start.
unfoldable pub chain_round : Time → Result Time → Outcome
chain_round start (err e) = some (err e)
chain_round start (ok time) = if ltb start time then some (ok tt) else none

-- `WaitForChain`, given what the node has for the time of the latest header at each round.
unfoldable pub wait_for_chain : ℕ → (ℕ → Bool) → (ℕ → Result Time) → Time → Outcome
unfolding poll chain_round
wait_for_chain rounds cancels latest start =
    poll rounds cancels (λ k. chain_round start (latest k)) 0

-- A minute.
abbrev pub tx_timeout : Time
tx_timeout = 60000000000

-- The end of a round of `WaitForTx` that got no error: `true` for a tx that is there.
unfoldable pub tx_found : Time → Bool → Outcome
tx_found waited there =
    if there
    then some (ok tt)
    else if ltb tx_timeout waited
    then some (err (message "timeout after waiting for transaction result"))
    else none

-- A round of `WaitForTx` of the Cosmos client, `waited` since the start.
unfoldable pub cosmos_tx_round : Time → Result Bool → Outcome
unfolding tx_found
cosmos_tx_round waited (ok there) = tx_found waited there
cosmos_tx_round waited (err e) =
    if says_not_found e then none else some (wrap "getting tx result" (err e))

-- A round of `WaitForTx` of the EVM client, which takes every error for a tx that is not there yet.
unfoldable pub evm_tx_round : Time → Result Bool → Outcome
unfolding tx_found
evm_tx_round waited (ok there) = tx_found waited there
evm_tx_round waited (err e) = none

unfoldable pub wait_for_tx :
    (Time → Result Bool → Outcome) → ℕ → (ℕ → Bool) → (ℕ → Time) → (ℕ → Result Bool) → Outcome
unfolding poll
wait_for_tx round rounds cancels waited answers =
    poll rounds cancels (λ k. round (waited k) (answers k)) 0
