-- ===== src/Clients/Cosmos/Search.antt =====
-- The methods of `CosmosBridgeClient` that search for the tx of a packet, in
-- shared/bridges/ibcv2/cosmos_bridge_client.go.
use platform_relayer.Common.{ℕ, String, List, [], ◌∷◌}
use platform_relayer.Db.{Time}
use platform_relayer.Errors.{Result, ok, err, sentinel, message, wrap, tx_not_found}
use platform_relayer.Bridge.{BridgeTx}
use platform_relayer.Clients.Answers.{◌>>=◌, signer_or_empty}
use platform_relayer.Clients.Cosmos.{
  Condition, text_is, number_is, time_is, Message, recv_packet, acknowledgement, timeout,
  other_message, ResultTx, Node,
}
use platform_relayer.Clients.Cosmos.Packets.{header_time}

-- The loop of `txSigner` over a tx's messages.
unfoldable pub message_signer : List Message → Result String
message_signer [] =
    err (message "expected recv packet, ack packet, or timeout packet msg but found none")
message_signer (recv_packet signer ∷ messages) = ok signer
message_signer (acknowledgement signer ∷ messages) = ok signer
message_signer (timeout signer ∷ messages) = ok signer
message_signer (other_message ∷ messages) = message_signer messages

unfoldable pub tx_signer : Node → ResultTx → Result String
unfolding message_signer
tx_signer node result = do
  messages ← wrap "decoding tx result" (node.decode_tx result.tx)
  message_signer messages

-- The one tx that a search found.
unfoldable pub only_tx : List ResultTx → Result ResultTx
only_tx [] = err (sentinel tx_not_found)
only_tx (tx ∷ []) = ok tx
only_tx (a ∷ b ∷ txs) = err (message "expected only 1 tx")

-- What `FindRecvTx`, `FindAckTx` and `FindTimeoutTx` do with their query.
unfoldable pub found_tx : Node → String → String → List Condition → Result BridgeTx
unfolding tx_signer only_tx
found_tx node searching fetching query = do
  txs ← wrap searching (node.tx_search query)
  tx ← only_tx txs
  time ← header_time fetching (node.header tx.height)
  ok (record {
    hash = tx.hash;
    timestamp = time;
    relayer_address = signer_or_empty (tx_signer node tx);
  })

-- The conditions of all three queries.
abbrev pub packet_query : String → String → String → ℕ → List Condition → List Condition
packet_query kind source dest sequence rest =
    text_is kind "packet_source_client" source
    ∷ text_is kind "packet_dest_client" dest
    ∷ number_is kind "packet_sequence" sequence
    ∷ rest

-- `FindRecvTx`
unfoldable pub find_recv_tx : Node → String → String → ℕ → Time → Result BridgeTx
unfolding found_tx
find_recv_tx node source dest sequence expires =
    found_tx node "searching for recv tx" "fetching block header at recv tx height" (
      packet_query "recv_packet" source dest sequence
        (time_is "recv_packet" "packet_timeout_timestamp" expires ∷ []))

-- `FindAckTx`
unfoldable pub find_ack_tx : Node → String → String → ℕ → Result BridgeTx
unfolding found_tx
find_ack_tx node source dest sequence =
    found_tx node "searching for ack tx" "fetching block header at ack tx height"
      (packet_query "acknowledge_packet" source dest sequence [])

-- `FindTimeoutTx`
unfoldable pub find_timeout_tx : Node → String → String → ℕ → Result BridgeTx
unfolding found_tx
find_timeout_tx node source dest sequence =
    found_tx node "searching for timeout tx" "fetching block header at timeout tx height"
      (packet_query "timeout_packet" source dest sequence [])
