-- ===== src/Clients/Evm/Chain.antt =====
-- The methods of `EVMBridgeClient` that look at the chain's clock, its height and its txs, in
-- shared/bridges/ibcv2/evm_bridge_client.go.
pub mod Finality
use platform_relayer.Common.{
  ℕ, ◌+◌, ◌-◌, ◌*◌, String, Bool, true, false, not, ◌&&◌, Option, none, some, ◌==◌, ltb, leb,
  if◌then◌else◌,
}
use platform_relayer.Db.{Time, ℤ, pos}
use platform_relayer.Errors.{Error, Result, ok, err, wrap}
use platform_relayer.Bridge.{ChainType, evm}
use platform_relayer.Clients.Answers.{◌>>=◌, says_not_found, map_not_found, unix}
use platform_relayer.Clients.Once.{do_once}
use platform_relayer.Clients.Cosmos.Chain.{expired}
use platform_relayer.Clients.Evm.{
  Receipt, Header, Block, latest, finalized, at_height, Node, EvmBridgeClient, tx_receipt,
}

-- The time of a header.
unfoldable pub header_time : String → Result Header → Result Time
header_time text (err e) = wrap text (err e)
header_time text (ok header) = ok (unix (pos header.time))

-- What `ShouldRetryTx` makes of the node's answer for the receipt, and of the latest header where
-- the node does not find the tx.
unfoldable pub retry_decision : Result Time → Time → Time → Result Receipt → Result Bool
retry_decision latest_time expiry sent (ok receipt) = ok (not (receipt.status == 1))
retry_decision latest_time expiry sent (err e) =
    if says_not_found e
    then latest_time >>= expired expiry sent
    else wrap "could not get transaction receipt for tx with hash" (err e)

-- `ShouldRetryTx`
unfoldable pub should_retry_tx : EvmBridgeClient → Node → String → Time → Time → Result Bool
should_retry_tx client node hash expiry sent =
    retry_decision (header_time "getting latest block header" (node.header latest)) expiry sent
      (tx_receipt client node hash)

-- `IsTxFinalized` for a tx that is in a block: against the finalized block, or by an offset from the
-- latest one.
unfoldable pub is_block_finalized : Node → ℕ → Option ℕ → Result Bool
is_block_finalized node block none = do
  header ← wrap "getting finalized block height" (node.header finalized)
  ok (leb block header.number)
is_block_finalized node block (some offset) = do
  header ← wrap "getting latest block height" (node.header latest)
  ok (leb block header.number && leb offset (header.number - block))

unfoldable pub is_tx_finalized : Node → String → Option ℕ → Result Bool
unfolding is_block_finalized
is_tx_finalized node hash offset = do
  receipt ← map_not_found "getting receipt for tx" (node.receipt hash)
  is_block_finalized node receipt.block_number offset

-- Whether a finalized header has reached a time.
unfoldable pub reached : Time → Header → Bool
reached timestamp header = not (ltb (unix (pos header.time)) timestamp)

-- The block that is an offset below the latest one.
unfoldable pub reached_before : Node → Time → ℕ → Header → Result Bool
unfolding reached
reached_before node timestamp offset last = if ltb last.number offset then ok false else (do
  header ← wrap "getting block header at height" (node.header (at_height (last.number - offset)))
  ok (reached timestamp header))

-- `IsTimestampFinalized`
unfoldable pub is_timestamp_finalized : Node → Time → Option ℕ → Result Bool
unfolding reached reached_before
is_timestamp_finalized node timestamp none = do
  header ← wrap "getting finalized block header" (node.header finalized)
  ok (reached timestamp header)
is_timestamp_finalized node timestamp (some offset) = do
  last ← wrap "getting latest block height" (node.header latest)
  reached_before node timestamp offset last

-- `ChainType`
abbrev pub chain_type : ChainType
chain_type = evm

-- `LatestOnChainTimestamp`: the client with what it keeps, and the answer.
unfoldable pub latest_on_chain_timestamp : EvmBridgeClient → Node → EvmBridgeClient × Result Time
latest_on_chain_timestamp client node =
    let done =
      do_once node.now "key" (header_time "getting latest header on chain" (node.header latest))
        client.latest_timestamp_once in
    (record client { latest_timestamp_once = done.0 }, done.1)

-- `TimestampAtHeight`
unfoldable pub timestamp_at_height : Node → ℕ → Result Time
timestamp_at_height node height =
    header_time "getting block header at height" (node.header (at_height height))

-- `TxFee`
unfoldable pub tx_fee : EvmBridgeClient → Node → String → Result ℤ
tx_fee client node hash = do
  receipt ← wrap "getting transaction receipt for tx hash" (tx_receipt client node hash)
  ok (pos (receipt.effective_gas_price * receipt.gas_used))
