-- ===== src/Examples/Transfers.antt =====
-- The theorems on one transfer.
use platform_relayer.Common.{
  ◌≡◌, refl, ◌≢◌, ◌↔◌, inr, true, false, [], ◌∷◌, none, some, arith, str_eq_iff,
}
use platform_relayer.Errors.{err, sentinel, retrying_recv_packet}
use platform_relayer.Db.{
  Row, row_key, find_row, clear_recv_tx, execute, same_packet, set_columns, query_key,
}
use platform_relayer.Transfer.{
  Transfer, new_transfer, transfer_key, is_complete, has_errored, is_timed_out,
}
use platform_relayer.Transfer.Laws.{Settled, is_complete_iff}
use platform_relayer.Middleware.{process_mw}
use platform_relayer.Consistency.{Synced, stored_progress}
use platform_relayer.Consistency.Outcomes.{Outcome}
use platform_relayer.Consistency.Steps.{check_recv-KeepsSync}
use platform_relayer.Processors.StateFinisher
use platform_relayer.Processors.CheckWriteAckFinality
use platform_relayer.Processors.RetryRecvPacket
use platform_relayer.Batch.Recv
use platform_relayer.Batch.Timeout
use platform_relayer.Batch.Due.{recv_timeout-exclusive}
use platform_relayer.Db.Laws.{find_row-execute_self}
use platform_relayer.Common.{option_map}
use platform_relayer.Consistency.Wrapped.{Carried, process_mw-Carried}
use platform_relayer.Pipeline.Steps.{check_recv}
use platform_relayer.Processors.Finished.{Recorded, process-finishes}
use platform_relayer.Processors.Unrecorded.{process-leaves_row}
use platform_relayer.Processors.Retried.{process-redelivers}
use platform_relayer.Errors.{Error, wrapped, canceled}
use platform_relayer.Bridge.{Environment}
use platform_relayer.Errors.{write_ack_not_found_for_packet}
use platform_relayer.Bridge.{BridgeClient}
use platform_relayer.Batch.Recv.{Route}
use platform_relayer.Pipeline.Options.{PipelineOptions, build_options}
use platform_relayer.Pipeline.Whole.{Ended, run_pipeline, run_pipeline-Ended}
use platform_relayer.Examples.Data.{chain, ibcv2}
use platform_relayer.Examples.Data.{env, row, received, acknowledged, world, client}

abbrev transfer : Transfer
transfer = new_transfer row

named : transfer.source_chain_id ≢ ""
unfolding new_transfer
named e = ground (arith, (str_eq_iff "1" "").1 e)

synced : Synced (row ∷ []) transfer
unfolding stored_progress find_row new_transfer same_packet
synced = refl

process_mw-Carried_example :
    Outcome (Carried (world row) transfer) (process_mw check_recv env transfer (world row))
process_mw-Carried_example =
    process_mw-Carried check_recv check_recv-KeepsSync env transfer (world row) named
      λ quiet. synced

received-Synced : Synced (received ∷ []) (new_transfer received)
unfolding stored_progress find_row new_transfer same_packet
received-Synced = refl

process-finishes_example :
    Recorded
      (new_transfer acknowledged)
      acknowledged
      (world acknowledged)
      (StateFinisher.process false true env (new_transfer acknowledged) (world acknowledged))
unfolding new_transfer is_complete has_errored find_row same_packet
process-finishes_example =
    process-finishes false true env (new_transfer acknowledged) (world acknowledged) acknowledged
      refl refl (inr refl) refl λ s. refl

is_complete_iff_example : (is_complete false true (new_transfer acknowledged) ≡ true) ↔ (
    ((new_transfer acknowledged).processing_error ≡ none)
    × Settled false true (new_transfer acknowledged))
is_complete_iff_example = is_complete_iff false true (new_transfer acknowledged)

process-leaves_row_example :
    find_row
      (transfer_key (new_transfer acknowledged))
      (CheckWriteAckFinality.process none env
        (new_transfer acknowledged)
        (world acknowledged)).0.rows
    ≡ find_row (transfer_key (new_transfer acknowledged)) (acknowledged ∷ [])
unfolding new_transfer
process-leaves_row_example =
    process-leaves_row none env (new_transfer acknowledged) (world acknowledged) named

process-redelivers_example :
    ((RetryRecvPacket.process "cosmoshub" env (new_transfer received) (world received)).1
      ≡ err (sentinel retrying_recv_packet))
    × (r' : Row) × (find_row
          (transfer_key (new_transfer received))
          (RetryRecvPacket.process "cosmoshub" env (new_transfer received) (world received)).0.rows
        ≡ some r')
    × (Recv.should_process 600 (new_transfer r') ≡ true)
unfolding new_transfer find_row same_packet is_timed_out
process-redelivers_example =
    process-redelivers "cosmoshub" env (new_transfer received) (world received) received client
      "0xbb" 200 600 refl refl refl refl refl refl refl

recv_timeout-exclusive_example : Recv.should_process 3000 transfer ≡ false
unfolding new_transfer Timeout.should_process is_timed_out
recv_timeout-exclusive_example = recv_timeout-exclusive 2000 3000 transfer (omega arith) refl

find_row-execute_self_example :
    find_row (row_key row) (execute (clear_recv_tx (row_key row)) (received ∷ []))
    ≡ option_map
        (set_columns (clear_recv_tx (row_key row)))
        (find_row (row_key row) (received ∷ []))
unfolding query_key
find_row-execute_self_example = find_row-execute_self (clear_recv_tx (row_key row)) (received ∷ [])

-- The context is cancelled while the chain is asked.
abbrev stopping : Environment
stopping = record env {
  clients = λ id. some (record client { is_packet_received = λ c s. err (sentinel canceled) });
}

abbrev stop : Error
stop = wrapped "checking if packet is already received on destination chain" (sentinel canceled)

-- The recv tx has no write ack for the packet.
abbrev unacknowledged : BridgeClient
unacknowledged = record client {
  packet_write_ack_status = λ h s c d. err (sentinel write_ack_not_found_for_packet);
}

abbrev losing : Environment
losing = record env { clients = λ id. some unacknowledged }

abbrev route : Route
route = record {
  source_chain_id = "1";
  source_client_id = "client-0";
  destination_chain_id = "cosmoshub";
  destination_client_id = "08-wasm-1";
}

abbrev options : PipelineOptions
options = build_options (chain "1" (some ibcv2)) (chain "cosmoshub" (some ibcv2)) ibcv2 ibcv2

run_pipeline-Ended_example :
    Outcome
      (Ended options.should_relay_success_acks options.should_relay_error_acks (world row) transfer)
      (run_pipeline true route options (λ n. env) env transfer (world row))
run_pipeline-Ended_example =
    run_pipeline-Ended true route options (λ n. env) env transfer (world row) named λ quiet. synced
