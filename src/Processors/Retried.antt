-- ===== src/Processors/Retried.antt =====
-- What a retry of the packet's delivery leads to.
use platform_relayer.Common.{◌≡◌, ap, ◌∙◌, option_map, true, false, none, some, arith, String}
use platform_relayer.Errors.{ok, err, sentinel, retrying_recv_packet}
use platform_relayer.Db.{
  Time, PacketKey, Row, query_key, set_columns, execute, find_row, clear_recv_tx,
}
use platform_relayer.Db.Laws.{find_row-execute_self}
use platform_relayer.Transfer.{Transfer, new_transfer, transfer_key, is_timed_out}
use platform_relayer.Bridge.{
  World, Environment, BridgeClient, exec, bind_result, branch, or_fail, wrap_outcome, get_client,
}
use platform_relayer.Errors.{Error, message, errors_is, write_ack_not_found_for_packet}
use platform_relayer.Processors.WaitForWriteAck
use platform_relayer.Batch.Recv
use platform_relayer.Processors.RetryRecvPacket.{process, expiry}

retried :
    (chain : String) (env : Environment) (t : Transfer) (w : World) (client : BridgeClient)
    (hash : String) (time : Time)
    → env.clients chain ≡ some client
    → t.recv_tx_hash ≡ some hash
    → t.recv_tx_time ≡ some time
    → client.should_retry_tx hash expiry time ≡ ok true
    → env.query_error (clear_recv_tx (transfer_key t)) ≡ none
    → process chain env t w ≡ (
      record w { rows = execute (clear_recv_tx (transfer_key t)) w.rows },
      err (sentinel retrying_recv_packet),
    )
unfolding process get_client exec bind_result or_fail branch wrap_outcome
retried chain env t w client hash time configured h0 h1 retry passes =
    ground (arith, configured, h0, h1, retry, passes)

-- A cleared row is due for delivery until the packet's timeout.
cleared-due :
    (r : Row) (k : PacketKey) (now : Time)
    → is_timed_out now (new_transfer r) ≡ false
    → Recv.should_process now (new_transfer (set_columns (clear_recv_tx k) r)) ≡ true
unfolding set_columns new_transfer is_timed_out Recv.should_process
cleared-due r k now early = ground (arith, early)

-- A transfer whose recv tx is to be retried fails for this run with the error that says so. The
-- table then has a row for the packet in which the delivery is due again, until the packet's
-- timeout.
pub process-redelivers :
    (chain : String) (env : Environment) (t : Transfer) (w : World) (r : Row)
    (client : BridgeClient) (hash : String) (time now : Time)
    → env.clients chain ≡ some client
    → t.recv_tx_hash ≡ some hash
    → t.recv_tx_time ≡ some time
    → client.should_retry_tx hash expiry time ≡ ok true
    → env.query_error (clear_recv_tx (transfer_key t)) ≡ none
    → find_row (transfer_key t) w.rows ≡ some r
    → is_timed_out now (new_transfer r) ≡ false
    → ((process chain env t w).1 ≡ err (sentinel retrying_recv_packet))
      × (r' : Row) × (find_row (transfer_key t) (process chain env t w).0.rows ≡ some r')
      × (Recv.should_process now (new_transfer r') ≡ true)
unfolding query_key
process-redelivers chain env t w r client hash time now configured h0 h1 retry passes found early =
    let q = clear_recv_tx (transfer_key t) in
    let e = retried chain env t w client hash time configured h0 h1 retry passes in
    (
      ap (λ o. o.1) e,
      set_columns q r,
      ap (λ o. find_row (transfer_key t) o.0.rows) e
          ∙ (find_row-execute_self q w.rows ∙ ap (option_map (set_columns q)) found),
      cleared-due r (transfer_key t) now early,
    )

cleared :
    (env : Environment) (t : Transfer) (w : World) (client : BridgeClient) (hash : String)
    (e : Error)
    → env.clients t.destination_chain_id ≡ some client
    → t.recv_tx_hash ≡ some hash
    → client.packet_write_ack_status hash t.packet_sequence_number t.packet_source_client_id
        t.packet_destination_client_id
      ≡ err e
    → errors_is e write_ack_not_found_for_packet ≡ true
    → env.query_error (clear_recv_tx (transfer_key t)) ≡ none
    → WaitForWriteAck.process env t w ≡ (
      record w { rows = execute (clear_recv_tx (transfer_key t)) w.rows },
      err (message "write ack for transfer not found in recv tx"),
    )
unfolding WaitForWriteAck.process WaitForWriteAck.settle WaitForWriteAck.clear_recv get_client exec
    bind_result or_fail branch wrap_outcome
cleared env t w client hash e configured h0 answered missing passes =
    ground (arith, configured, h0, answered, missing, passes)

-- A transfer whose recv tx turns out to have no write ack for it fails for this run. The table then
-- has a row for the packet in which the delivery is due again, until the packet's timeout.
pub wait-redelivers :
    (env : Environment) (t : Transfer) (w : World) (r : Row) (client : BridgeClient) (hash : String)
    (e : Error) (now : Time)
    → env.clients t.destination_chain_id ≡ some client
    → t.recv_tx_hash ≡ some hash
    → client.packet_write_ack_status hash t.packet_sequence_number t.packet_source_client_id
        t.packet_destination_client_id
      ≡ err e
    → errors_is e write_ack_not_found_for_packet ≡ true
    → env.query_error (clear_recv_tx (transfer_key t)) ≡ none
    → find_row (transfer_key t) w.rows ≡ some r
    → is_timed_out now (new_transfer r) ≡ false
    → ((WaitForWriteAck.process env t w).1
        ≡ err (message "write ack for transfer not found in recv tx"))
      × (r' : Row) × (find_row (transfer_key t) (WaitForWriteAck.process env t w).0.rows ≡ some r')
      × (Recv.should_process now (new_transfer r') ≡ true)
unfolding query_key
wait-redelivers env t w r client hash e now configured h0 answered missing passes found early =
    let q = clear_recv_tx (transfer_key t) in
    let o = cleared env t w client hash e configured h0 answered missing passes in
    (
      ap (λ v. v.1) o,
      set_columns q r,
      ap (λ v. find_row (transfer_key t) v.0.rows) o
          ∙ (find_row-execute_self q w.rows ∙ ap (option_map (set_columns q)) found),
      cleared-due r (transfer_key t) now early,
    )
