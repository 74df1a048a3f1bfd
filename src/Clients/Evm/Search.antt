-- ===== src/Clients/Evm/Search.antt =====
-- The methods of `EVMBridgeClient` that search for the tx of a packet, in
-- shared/bridges/ibcv2/evm_bridge_client.go.
use platform_relayer.Common.{ℕ, String, List, [], ◌∷◌, none, some}
use platform_relayer.Db.{Time, pos}
use platform_relayer.Errors.{Result, ok, err, sentinel, message, wrap, tx_not_found}
use platform_relayer.Bridge.{BridgeTx}
use platform_relayer.Batch.Hex.{codes}
use platform_relayer.Clients.Answers.{◌>>=◌, unix, signer_or_empty}
use platform_relayer.Clients.Number.{unsigned}
use platform_relayer.Clients.Evm.{Log, at_height, Node, EvmBridgeClient}

-- `new(big.Int).SetString(s, 10)` for a text without a sign; a chain id has none.
abbrev pub set_string : String → Result ℕ
set_string s = elim (unsigned (codes s)) [
  | none ↦ err (message "could not convert chain id to *big.Int")
  | some n ↦ ok n
]

-- `txSigner`
unfoldable pub tx_signer : EvmBridgeClient → Node → String → Result String
tx_signer client node hash = do
  chain ← set_string client.chain_id
  tx ← wrap "getting transaction for hash" (node.transaction_by_hash hash)
  wrap "getting transaction sender" (node.sender chain tx)

-- The one log that a filter found.
unfoldable pub only_log : List Log → Result Log
only_log [] = err (sentinel tx_not_found)
only_log (log ∷ []) = ok log
only_log (a ∷ b ∷ logs) = err (message "expected to receive 1 log")

-- What `FindRecvTx`, `FindAckTx` and `FindTimeoutTx` do for their event and their client id.
unfoldable pub found_tx :
    EvmBridgeClient → Node → String → String → String → String → ℕ → Result BridgeTx
unfolding tx_signer only_log
found_tx client node event filtering parsing id sequence = do
  abi ← wrap "getting ics26 router abi" node.router_abi
  topics ←
      wrap "creating topics for filter logs query"
        (node.make_topics (node.event_id event) id sequence)
  logs ← wrap filtering (node.filter_logs topics)
  log ← only_log logs
  parsed ← wrap parsing (node.parses event log)
  header ← wrap "getting block header at height" (node.header (at_height log.block_number))
  ok (record {
    hash = log.tx_hash;
    timestamp = unix (pos header.time);
    relayer_address = signer_or_empty (tx_signer client node log.tx_hash);
  })

-- `FindRecvTx`
unfoldable pub find_recv_tx : EvmBridgeClient → Node → String → String → ℕ → Time → Result BridgeTx
unfolding found_tx
find_recv_tx client node source dest sequence expires =
    found_tx client node "WriteAcknowledgement" "filtering for write ack logs" "parsing write ack"
      dest sequence

-- `FindAckTx`
unfoldable pub find_ack_tx : EvmBridgeClient → Node → String → String → ℕ → Result BridgeTx
unfolding found_tx
find_ack_tx client node source dest sequence =
    found_tx client node "AckPacket" "filtering ack logs" "parsing ack packet log" source sequence

-- `FindTimeoutTx`
unfoldable pub find_timeout_tx : EvmBridgeClient → Node → String → String → ℕ → Result BridgeTx
unfolding found_tx
find_timeout_tx client node source dest sequence =
    found_tx client node "TimeoutPacket" "filtering for timeout logs" "parsing timeout packet"
      source sequence

-- `GetTransactionSender`
abbrev pub get_transaction_sender : EvmBridgeClient → Node → String → Result String
get_transaction_sender client node hash = tx_signer client node hash
