-- ===== src/Processors/CheckRecvPacketDelivery.antt =====
-- relayer/ibcv2/check_recv_packet_delivery.go
use platform_relayer.Common.{Bool, not, ◌&&◌, some, is_some}
use platform_relayer.Errors.{wrap}
use platform_relayer.Db.{Status, check_recv_packet_delivery, update_transfer_recv_tx}
use platform_relayer.Transfer.{Transfer, transfer_key}
use platform_relayer.Bridge.{
  Environment, M, ◌>>=◌, branch, ◌>>◌, return, ask, context, get_client, exec,
}

unfoldable pub should_process : Transfer → Bool
should_process t =
    not (is_some t.recv_tx_hash) && not (is_some t.ack_tx_hash) && not (is_some t.timeout_tx_hash)

abbrev pub state : Status
state = check_recv_packet_delivery

unfoldable pub process : Environment → Transfer → M Transfer
process env t = do
  client ← ask (
      wrap "getting bridge client for transfer destination chain"
        (get_client env t.destination_chain_id))
  received ← ask (
      wrap "checking if packet is already received on destination chain"
        (client.is_packet_received t.packet_destination_client_id t.packet_sequence_number))
  branch (not received) (return t) do
    recv_tx ← ask (
        wrap "finding for recv tx hash for transfer" (
          client.find_recv_tx t.packet_source_client_id t.packet_destination_client_id
            t.packet_sequence_number t.packet_timeout_timestamp))
    context "updating transfer recv tx with existing tx hash" (
        exec env (
          update_transfer_recv_tx recv_tx.hash recv_tx.timestamp recv_tx.relayer_address
            (transfer_key t)))
    return (record t {
      recv_tx_hash = some recv_tx.hash;
      recv_tx_time = some recv_tx.timestamp;
      recv_tx_relayer_address = some recv_tx.relayer_address;
    })
