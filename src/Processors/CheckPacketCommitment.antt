-- ===== src/Processors/CheckPacketCommitment.antt =====
-- relayer/ibcv2/check_packet_commitment.go. The two searches run at the same time, and the first
-- that finds its tx cancels the other, which may then fail: what each returns in the end is the
-- environment's choice. A failed search counts as none found.
use platform_relayer.Common.{Bool, not, ◌&&◌, Option, none, some, is_some}
use platform_relayer.Errors.{Result, ok, err, message, wrap}
use platform_relayer.Db.{
  Status, check_ack_packet_delivery, update_transfer_ack_tx, update_transfer_timeout_tx,
}
use platform_relayer.Transfer.{Transfer, transfer_key}
use platform_relayer.Bridge.{
  BridgeTx, Environment, M, ◌>>=◌, branch, ◌>>◌, return, fail, ask, context, get_client, exec,
}

unfoldable pub should_process : Transfer → Bool
should_process t = not (is_some t.ack_tx_hash) && not (is_some t.timeout_tx_hash)

abbrev pub state : Status
state = check_ack_packet_delivery

-- The variable that a search assigns: `nil` unless it found its tx.
abbrev pub found : Result BridgeTx → Option BridgeTx
found (ok tx) = some tx
found (err e) = none

-- The `switch` after the searches.
unfoldable pub record_found :
    Environment → Transfer → Option BridgeTx → Option BridgeTx → M Transfer
record_found env t (some ack_tx) (some timeout_tx) =
    fail (message "found both timeout tx and ack tx packet, should not be possible")
record_found env t (some ack_tx) none = do
  context "updating transfer ack tx with existing tx hash" (
      exec env (
        update_transfer_ack_tx ack_tx.hash ack_tx.timestamp ack_tx.relayer_address
          (transfer_key t)))
  return (record t {
    ack_tx_hash = some ack_tx.hash;
    ack_tx_time = some ack_tx.timestamp;
    ack_tx_relayer_address = some ack_tx.relayer_address;
  })
record_found env t none (some timeout_tx) = do
  context "updating transfer timeout tx with existing tx hash" (
      exec env (
        update_transfer_timeout_tx timeout_tx.hash timeout_tx.timestamp timeout_tx.relayer_address
          (transfer_key t)))
  return (record t {
    timeout_tx_hash = some timeout_tx.hash;
    timeout_tx_time = some timeout_tx.timestamp;
    timeout_tx_relayer_address = some timeout_tx.relayer_address;
  })
record_found env t none none =
    fail (message "could not find timeout tx or ack tx after packet commitment not found on chain")

unfoldable pub process : Environment → Transfer → M Transfer
unfolding record_found
process env t = do
  client ←
      ask
        (wrap "getting bridge client for transfer source chain" (get_client env t.source_chain_id))
  committed ← ask (
      wrap "checking if packet is already ack'd on source chain"
        (client.is_packet_committed t.packet_source_client_id t.packet_sequence_number))
  branch committed (return t) (
      record_found env t
        (found (
          client.find_ack_tx t.packet_source_client_id t.packet_destination_client_id
            t.packet_sequence_number))
        (found (
          client.find_timeout_tx t.packet_source_client_id t.packet_destination_client_id
            t.packet_sequence_number)))
