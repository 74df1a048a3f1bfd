-- ===== src/Processors/RetryTimeoutPacket.antt =====
-- relayer/ibcv2/retry_timeout_packet.go. `chain` is the chain that the processor was made for.
use platform_relayer.Common.{String, Bool, not, ◌&&◌, is_some}
use platform_relayer.Errors.{sentinel, retrying_timeout_packet, wrap}
use platform_relayer.Db.{Time, Status, deliver_timeout_packet, clear_timeout_tx}
use platform_relayer.Transfer.{Transfer, transfer_key}
use platform_relayer.Bridge.{
  Environment, M, ◌>>=◌, branch, ◌>>◌, return, fail, or_fail, ask, context, get_client, exec,
}

-- Two minutes.
abbrev pub expiry : Time
expiry = 120000000000

unfoldable pub should_process : Transfer → Bool
should_process t = is_some t.timeout_tx_hash && is_some t.timeout_tx_time

abbrev pub state : Status
state = deliver_timeout_packet

-- A tx that is to be retried is cleared in the table, and the transfer fails for this run.
unfoldable pub process : String → Environment → Transfer → M Transfer
process chain env t = do
  client ← ask (wrap "getting client for transfer source chain" (get_client env chain))
  timeout_tx_hash ←
      or_fail "transfer does not have timeout tx hash, violates should process, this is a bug"
        t.timeout_tx_hash
  timeout_tx_time ←
      or_fail "transfer does not have a timeout tx time, violates should process, this is a bug"
        t.timeout_tx_time
  retry ← ask (
      wrap "checking if transfer with timeout tx hash should be retried"
        (client.should_retry_tx timeout_tx_hash expiry timeout_tx_time))
  branch (not retry) (return t) do
    context "clearing timeout tx hash and time" (exec env (clear_timeout_tx (transfer_key t)))
    fail (sentinel retrying_timeout_packet)
