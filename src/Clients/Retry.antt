-- ===== src/Clients/Retry.antt =====
-- When `ShouldRetryTx` of both bridge clients says that a tx is to be sent again:
-- shared/bridges/ibcv2/cosmos_bridge_client.go and evm_bridge_client.go.
use platform_relayer.Common.{
  ℕ, ◌≡◌, refl, ◌+◌, ◌<◌, ◌≢◌, inl, inr, ◌↔◌, true, String, List, some, arith, Bool-cases,
  if◌then◌else◌,
}
use platform_relayer.Db.{Time}
use platform_relayer.Errors.{Error, Result, ok, err, wrapped}
use platform_relayer.Batch.Hex.{decode_string}
use platform_relayer.Clients.Answers.{says_not_found, decoded, ◌>>=◌}
use platform_relayer.Clients.Cosmos
use platform_relayer.Clients.Cosmos.Packets.{header_time}
use platform_relayer.Clients.Cosmos.Chain.{expired, retry_decision, should_retry_tx}
use platform_relayer.Clients.Evm
use platform_relayer.Clients.Evm.Chain

-- The tx as a client sees it is on the chain and failed; or it is not found, and the latest block is
-- later than the expiry.
abbrev pub DueAgain : {A : Type 0} → (A → Type 0) → Result A → Result Time → Time → Type 0
DueAgain Failed (ok a) latest end = Failed a
DueAgain Failed (err e) latest end =
    (says_not_found e ≡ true) × (t : Time) × (latest ≡ ok t) × (end < t)

abbrev pub CosmosFailed : Cosmos.ResultTx → Type 0
CosmosFailed result = result.code ≢ 0

abbrev pub EvmFailed : Evm.Receipt → Type 0
EvmFailed receipt = receipt.status ≢ 1

expired_iff :
    (latest : Result Time) (expiry sent : Time)
    → ((latest >>= expired expiry sent) ≡ ok true)
      ↔ ((t : Time) × (latest ≡ ok t) × (sent + expiry < t))
unfolding expired
expired_iff (ok time) expiry sent =
    (λ h. (time, refl, ground (arith, h)), λ (t, same, later). ground (arith, same, later))
expired_iff (err e) expiry sent = (λ h. absurd (cc), λ (t, same, later). absurd (cc (same)))

missing_iff :
    (latest : Result Time) (expiry sent : Time) (e other : Error)
    → ((if says_not_found e then latest >>= expired expiry sent else err other) ≡ ok true)
      ↔ ((says_not_found e ≡ true) × (t : Time) × (latest ≡ ok t) × (sent + expiry < t))
missing_iff latest expiry sent e other = elim (Bool-cases (says_not_found e)) [
  | inl missing ↦ (
    λ h.
        let due = (expired_iff latest expiry sent).0 (rw missing at h) in
        (missing, due.0, due.1, due.2),
    λ (_, t, same, later). rw missing ((expired_iff latest expiry sent).1 (t, same, later)),
  )
  | inr another ↦ (λ h. absurd (ground (arith, h, another)), λ (missing, _, _, _). absurd (cc))
]

cosmos_due :
    (latest : Result Time) (expiry sent : Time) (r : Result Cosmos.ResultTx)
    → (retry_decision latest expiry sent r ≡ ok true)
      ↔ DueAgain CosmosFailed r latest (sent + expiry)
unfolding retry_decision
cosmos_due latest expiry sent (ok result) = ground arith
cosmos_due latest expiry sent (err e) =
    missing_iff latest expiry sent e (wrapped "fetching tx on chain" e)

evm_due :
    (latest : Result Time) (expiry sent : Time) (r : Result Evm.Receipt)
    → (Chain.retry_decision latest expiry sent r ≡ ok true)
      ↔ DueAgain EvmFailed r latest (sent + expiry)
unfolding Chain.retry_decision
evm_due latest expiry sent (ok receipt) = ground arith
evm_due latest expiry sent (err e) =
    missing_iff latest expiry sent e
      (wrapped "could not get transaction receipt for tx with hash" e)

-- Each client says that a tx is to be sent again exactly when it sees the tx
-- on the chain and failed, or does not find it and the latest block is later than the time of sending
-- and the expiry together; for the Cosmos client the hash is hex.
pub should_retry_tx_iff :
    (cosmos : Cosmos.CosmosBridgeClient) (evm : Evm.EvmBridgeClient) (cosmos_node : Cosmos.Node)
    (evm_node : Evm.Node) (hash evm_hash : String) (bytes : List ℕ) (expiry sent : Time)
    → decode_string hash ≡ some bytes
    → ((should_retry_tx cosmos cosmos_node hash expiry sent ≡ ok true)
        ↔ DueAgain CosmosFailed
            (Cosmos.tx_result cosmos cosmos_node hash bytes)
            (header_time "getting latest block header" cosmos_node.latest_header)
            (sent + expiry))
      × ((Chain.should_retry_tx evm evm_node evm_hash expiry sent ≡ ok true)
          ↔ DueAgain EvmFailed
              (Evm.tx_receipt evm evm_node evm_hash)
              (Chain.header_time "getting latest block header" (evm_node.header Evm.latest))
              (sent + expiry))
unfolding should_retry_tx Chain.should_retry_tx decoded
should_retry_tx_iff cosmos evm cosmos_node evm_node hash evm_hash bytes expiry sent h = (
  rw h (
      cosmos_due (header_time "getting latest block header" cosmos_node.latest_header) expiry sent
        (Cosmos.tx_result cosmos cosmos_node hash bytes)),
  evm_due (Chain.header_time "getting latest block header" (evm_node.header Evm.latest)) expiry sent
      (Evm.tx_receipt evm evm_node evm_hash),
)
