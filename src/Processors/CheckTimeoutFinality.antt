-- ===== src/Processors/CheckTimeoutFinality.antt =====
-- relayer/ibcv2/check_timeout_finality.go
use platform_relayer.Common.{ℕ, Bool, not, ◌&&◌, Option, is_some}
use platform_relayer.Errors.{sentinel, timeout_not_finalized, wrap}
use platform_relayer.Db.{Time, Status, awaiting_timeout_finality}
use platform_relayer.Transfer.{Transfer, is_timed_out}
use platform_relayer.Bridge.{Environment, M, ◌>>=◌, branch, return, fail, ask, get_client}

-- The processor that delivers timeouts has the same test.
unfoldable pub should_process : Time → Transfer → Bool
unfolding is_timed_out
should_process now t =
    (is_timed_out now t && not (is_some t.recv_tx_hash) && not (is_some t.ack_tx_hash))
    && not (is_some t.timeout_tx_hash)

abbrev pub state : Status
state = awaiting_timeout_finality

unfoldable pub process : Option ℕ → Environment → Transfer → M Transfer
process destination_finality_offset env t = do
  client ←
      ask
        (wrap "getting destination bridge client for chain" (get_client env t.destination_chain_id))
  finalized ← ask (
      wrap "checking timeout finality on chain"
        (client.is_timestamp_finalized t.packet_timeout_timestamp destination_finality_offset))
  branch (not finalized) (fail (sentinel timeout_not_finalized)) (return t)
