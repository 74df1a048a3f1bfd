-- ===== src/Processors/CheckSendFinality.antt =====
-- relayer/ibcv2/check_send_finality.go
use platform_relayer.Common.{ℕ, Bool, not, Option, some, is_some}
use platform_relayer.Errors.{sentinel, send_not_finalized, wrap}
use platform_relayer.Db.{Status, awaiting_send_finality, update_transfer_source_tx_finalized_time}
use platform_relayer.Transfer.{Transfer, transfer_key}
use platform_relayer.Bridge.{
  Environment, M, ◌>>=◌, branch, ◌>>◌, return, fail, ask, context, get_client, exec,
}

unfoldable pub should_process : Transfer → Bool
should_process t = not (is_some t.recv_tx_hash)

abbrev pub state : Status
state = awaiting_send_finality

unfoldable pub process : Option ℕ → Environment → Transfer → M Transfer
process source_finality_offset env t = do
  client ← ask (wrap "getting source bridge client for chain" (get_client env t.source_chain_id))
  finalized ← ask (
      wrap "checking if tx is finalized on chain"
        (client.is_tx_finalized t.source_tx_hash source_finality_offset))
  branch (not finalized) (fail (sentinel send_not_finalized)) (
      branch (is_some t.source_tx_finalized_time) (return t) do
        context "updating source tx finalized time"
            (exec env (update_transfer_source_tx_finalized_time env.now (transfer_key t)))
        return (record t { source_tx_finalized_time = some env.now }))
