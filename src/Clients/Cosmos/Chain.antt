-- ===== src/Clients/Cosmos/Chain.antt =====
-- The methods of `CosmosBridgeClient` that look at the chain's clock and at txs, in
-- shared/bridges/ibcv2/cosmos_bridge_client.go.
use platform_relayer.Common.{
  ℕ, ◌+◌, String, Bool, true, Option, none, some, ◌==◌, ltb, not, if◌then◌else◌,
}
use platform_relayer.Db.{Time, ℤ, pos}
use platform_relayer.Errors.{Result, ok, err, sentinel, message, wrap, tx_not_found}
use platform_relayer.Bridge.{ChainType, cosmos}
use platform_relayer.Batch.Hex.{decode_string}
use platform_relayer.Clients.Answers.{◌>>=◌, says_not_found, decoded}
use platform_relayer.Clients.Once.{do_once}
use platform_relayer.Clients.Cosmos.{ResultTx, Node, CosmosBridgeClient, tx_result}
use platform_relayer.Clients.Cosmos.Packets.{header_time}

-- Whether the chain's clock has passed the expiry of a tx that the node does not find.
unfoldable pub expired : Time → Time → Time → Result Bool
expired expiry sent latest =
    if ltb (sent + expiry) latest then ok true else err (sentinel tx_not_found)

-- What `ShouldRetryTx` makes of the node's answer for the tx, and of the latest header where the
-- node does not find the tx.
unfoldable pub retry_decision : Result Time → Time → Time → Result ResultTx → Result Bool
unfolding expired
retry_decision latest expiry sent (ok result) = ok (not (result.code == 0))
retry_decision latest expiry sent (err e) =
    if says_not_found e then latest >>= expired expiry sent else wrap "fetching tx on chain" (err e)

-- `ShouldRetryTx`
unfoldable pub should_retry_tx : CosmosBridgeClient → Node → String → Time → Time → Result Bool
should_retry_tx client node hash expiry sent = do
  bytes ← decoded "decoding hex tx hash to bytes" (decode_string hash)
  retry_decision (header_time "getting latest block header" node.latest_header) expiry sent
      (tx_result client node hash bytes)

-- `IsTxFinalized`
unfoldable pub is_tx_finalized : Node → String → Option ℕ → Result Bool
is_tx_finalized node hash offset = ok true

-- `IsTimestampFinalized`
unfoldable pub is_timestamp_finalized : Node → Time → Option ℕ → Result Bool
is_timestamp_finalized node timestamp offset = do
  time ← header_time "getting latest header" node.latest_header
  ok (ltb timestamp time)

-- `ChainType`
abbrev pub chain_type : ChainType
chain_type = cosmos

-- `LatestOnChainTimestamp`: the client with what it keeps, and the answer.
unfoldable pub latest_on_chain_timestamp :
    CosmosBridgeClient → Node → CosmosBridgeClient × Result Time
latest_on_chain_timestamp client node =
    let done =
      do_once node.now "key" (header_time "getting latest header" node.latest_header)
        client.latest_timestamp_once in
    (record client { latest_timestamp_once = done.0 }, done.1)

-- `TimestampAtHeight`
unfoldable pub timestamp_at_height : Node → ℕ → Result Time
timestamp_at_height node height = header_time "fetching block header at height" (node.header height)

-- `feeTx.GetFee().AmountOf(client.feeDenom)`; its test against `ZeroInt()` compares pointers, and is
-- never true.
unfoldable pub fee_amount : Option ℕ → Result ℤ
fee_amount none = err (message "could not convert decoded tx to sdk.FeeTx")
fee_amount (some amount) = ok (pos amount)

-- `TxFee`
unfoldable pub tx_fee : CosmosBridgeClient → Node → String → Result ℤ
unfolding fee_amount
tx_fee client node hash = do
  bytes ← decoded "hex decoding tx hash string" (decode_string hash)
  result ← wrap "getting results for ts hash" (tx_result client node hash bytes)
  fee ← wrap "decoding tx result" (node.fee_of result.tx client.fee_denom)
  fee_amount fee

-- `GetTransactionSender`
abbrev pub get_transaction_sender : String → Result String
get_transaction_sender hash = err (message "GetTransactionSender not implemented")
