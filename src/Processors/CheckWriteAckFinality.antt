-- ===== src/Processors/CheckWriteAckFinality.antt =====
-- relayer/ibcv2/check_write_ack_finality.go
use platform_relayer.Common.{ℕ, Bool, false, not, Option, none, some, is_some, if◌then◌else◌}
use platform_relayer.Errors.{sentinel, write_ack_not_finalized, wrap}
use platform_relayer.Db.{
  Status, PacketKey, awaiting_write_ack_finality, update_transfer_write_ack_tx_finalized_time,
}
use platform_relayer.Transfer.{Transfer, relays_ack}
use platform_relayer.Bridge.{
  Environment, M, ◌>>=◌, branch, ◌>>◌, return, fail, or_fail, ask, context, get_client, exec,
}

unfoldable pub should_process : Bool → Bool → Transfer → Bool
should_process success_acks error_acks t =
    if not (is_some t.write_ack_tx_hash)
    then false
    else elim t.write_ack_status [ none ↦ false | some s ↦ relays_ack success_acks error_acks s ]

abbrev pub state : Status
state = awaiting_write_ack_finality

-- The params literal of the update sets the time alone: the key fields have their zero values.
abbrev pub zero_key : PacketKey
zero_key = record { chain = ""; client = ""; sequence = 0 }

unfoldable pub process : Option ℕ → Environment → Transfer → M Transfer
process destination_finality_offset env t = do
  client ←
      ask (wrap "getting source bridge client for chain" (get_client env t.destination_chain_id))
  write_ack_tx_hash ←
      or_fail "write ack tx hash not finalized, violates should process" t.write_ack_tx_hash
  finalized ← ask (
      wrap "checking if tx is finalized on chain"
        (client.is_tx_finalized write_ack_tx_hash destination_finality_offset))
  branch (not finalized) (fail (sentinel write_ack_not_finalized)) (
      branch (is_some t.write_ack_tx_finalized_time) (return t) do
        context "updating write ack tx finalized time"
            (exec env (update_transfer_write_ack_tx_finalized_time env.now zero_key))
        return (record t { write_ack_tx_finalized_time = some env.now }))
