-- ===== src/Processors/WaitForWriteAck.antt =====
-- relayer/ibcv2/wait_for_write_ack.go. A write ack that cannot be decoded counts as unknown.
use platform_relayer.Common.{String, Bool, not, ◌&&◌, Option, none, some, is_some}
use platform_relayer.Errors.{
  Result, ok, err, message, wrapped, errors_is, write_ack_not_found_for_packet, write_ack_decoding,
  wrap,
}
use platform_relayer.Db.{
  Time, Status, WriteAckStatus, unknown, wait_for_write_ack, clear_recv_tx,
  update_transfer_write_ack_tx,
}
use platform_relayer.Transfer.{Transfer, transfer_key}
use platform_relayer.Bridge.{
  Environment, M, ◌>>=◌, branch, ◌>>◌, return, fail, or_fail, ask, context, get_client, exec,
}

unfoldable pub should_process : Transfer → Bool
should_process t =
    (is_some t.recv_tx_hash && not (is_some t.write_ack_tx_hash)) && not (is_some t.timeout_tx_hash)

abbrev pub state : Status
state = wait_for_write_ack

-- The recv tx time, or the zero time where it is missing.
abbrev pub time_or_zero : Option Time → Time
time_or_zero none = 0
time_or_zero (some time) = time

-- The write ack stands in the recv tx, so it has the hash and the time of that tx.
unfoldable pub record_write_ack : Environment → Transfer → String → WriteAckStatus → M Transfer
record_write_ack env t recv_hash status = do
  let recv_tx_time = time_or_zero t.recv_tx_time
  context "updating transfer with write ack tx hash, time and status"
      (exec env (update_transfer_write_ack_tx recv_hash recv_tx_time status (transfer_key t)))
  return (record t {
    write_ack_tx_hash = some recv_hash;
    write_ack_tx_time = some recv_tx_time;
    write_ack_status = some status;
  })

unfoldable pub clear_recv : Environment → Transfer → M Transfer
clear_recv env t = do
  context "clearing transfer recv tx hash" (exec env (clear_recv_tx (transfer_key t)))
  fail (message "write ack for transfer not found in recv tx")

-- What follows the call of `PacketWriteAckStatus`.
unfoldable pub settle : Environment → Transfer → String → Result WriteAckStatus → M Transfer
unfolding record_write_ack clear_recv
settle env t recv_hash (ok status) = record_write_ack env t recv_hash status
settle env t recv_hash (err e) =
    branch (errors_is e write_ack_not_found_for_packet) (clear_recv env t) (
      branch (not (errors_is e write_ack_decoding))
        (fail (wrapped "finding write ack for packet in recv tx" e))
        (record_write_ack env t recv_hash unknown))

unfoldable pub process : Environment → Transfer → M Transfer
unfolding settle
process env t = do
  client ←
      ask (
        wrap "getting client for transfer destination chain"
          (get_client env t.destination_chain_id))
  recv_hash ← or_fail "transfer does not have recv tx hash, violating ShouldProcess" t.recv_tx_hash
  settle env t recv_hash (
      client.packet_write_ack_status recv_hash t.packet_sequence_number t.packet_source_client_id
        t.packet_destination_client_id)
