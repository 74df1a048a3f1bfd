-- ===== src/Processors/RetryAckPacket.antt =====
-- relayer/ibcv2/retry_ack_packet.go. `chain` is the chain that the processor was made for.
use platform_relayer.Common.{String, Bool, not, ◌&&◌, is_some}
use platform_relayer.Errors.{sentinel, retrying_ack_packet, wrap}
use platform_relayer.Db.{Time, Status, deliver_ack_packet, clear_ack_tx}
use platform_relayer.Transfer.{Transfer, transfer_key}
use platform_relayer.Bridge.{
  Environment, M, ◌>>=◌, branch, ◌>>◌, return, fail, or_fail, ask, context, get_client, exec,
}

-- Two minutes.
abbrev pub expiry : Time
expiry = 120000000000

unfoldable pub should_process : Transfer → Bool
should_process t = is_some t.ack_tx_hash && is_some t.ack_tx_time

abbrev pub state : Status
state = deliver_ack_packet

-- A tx that is to be retried is cleared in the table, and the transfer fails for this run.
unfoldable pub process : String → Environment → Transfer → M Transfer
process chain env t = do
  client ← ask (wrap "getting client for transfer source chain" (get_client env chain))
  ack_tx_hash ←
      or_fail "transfer does not have ack tx hash, violates should process, this is a bug"
        t.ack_tx_hash
  ack_tx_time ←
      or_fail "transfer does not have a ack tx time, violates should process, this is a bug"
        t.ack_tx_time
  retry ← ask (
      wrap "checking if transfer with ack tx hash should be retried"
        (client.should_retry_tx ack_tx_hash expiry ack_tx_time))
  branch (not retry) (return t) do
    context "clearing ack tx hash and time" (exec env (clear_ack_tx (transfer_key t)))
    fail (sentinel retrying_ack_packet)
