-- ===== src/Examples/Batches.antt =====
-- The theorems on batches.
use platform_relayer.Common.{◌↔◌, ◌≡◌, refl, ◌≤◌, String, [], ◌∷◌, some, arith, count, str_eq_iff}
use platform_relayer.Errors.{ok, message}
use platform_relayer.Db.{execute}
use platform_relayer.Transfer.{new_transfer, has_errored, is_timed_out}
use platform_relayer.Bridge.{
  Environment, exec, deliver, get_client, branch, bind_result, wrap_outcome,
}
use platform_relayer.Batch.Hex.{decode_tx_hash}
use platform_relayer.Batch.Submit.{
  Memory, Gathered, nothing_gathered, gather, run_updates, submit_and_record, submit, exec_tx,
}
use platform_relayer.Batch.Recv
use platform_relayer.Batch.Ack
use platform_relayer.Batch.Recv.{Route}
use platform_relayer.Batch.Middleware.{
  process_batch, is_skipped, sort_batch, sort_input, enter, after_batch,
}
use platform_relayer.Batch.Output.{recv-ReturnsBatch, process_batch-keeps_all}
use platform_relayer.Batch.Requests.{Distinct, Decoded, Wanted, ack_tx_ids-Distinct}
use platform_relayer.Batch.Repeated.{source_ids, source_sequences, recv_tx_ids-repeat}
use platform_relayer.Among.{Among}
use platform_relayer.Batch.Recorded.{Submitted, submit_and_record-Submitted}
use platform_relayer.Common.{ap, ◌==◌, if◌then◌else◌}
use platform_relayer.Db.{Row, PacketKey, find_row, same_packet}
use platform_relayer.Bridge.{World}
use platform_relayer.Consistency.{stored_progress}
use platform_relayer.Batch.Synced.{Apart}
use platform_relayer.Batch.Agreement.{BatchSynced, recv_process-Synced}
use platform_relayer.Examples.Data.{env, row, acknowledged, world}

abbrev route : Route
route = record {
  source_chain_id = "1";
  source_client_id = "client-0";
  destination_chain_id = "cosmoshub";
  destination_client_id = "08-wasm-1";
}

abbrev memory : Memory
memory p = new_transfer row

submit_and_record-Submitted_example :
    Submitted env "cosmoshub"
      (Recv.request route (gather Recv.add_transfer (nothing_gathered memory) (0 ∷ [])))
      (λ tx. run_updates env (Recv.query tx) memory (0 ∷ []))
      (world row)
      (submit_and_record env "cosmoshub"
        (Recv.request route (gather Recv.add_transfer (nothing_gathered memory) (0 ∷ [])))
        Recv.query
        memory
        (0 ∷ [])
        (world row))
submit_and_record-Submitted_example =
    submit_and_record-Submitted env "cosmoshub"
      (Recv.request route (gather Recv.add_transfer (nothing_gathered memory) (0 ∷ []))) Recv.query
      memory (0 ∷ []) (world row)

ran : (process_batch (Recv.processor route) env memory (0 ∷ []) (world row)).1.1 ≡ ok (0 ∷ [])
unfolding process_batch sort_batch sort_input is_skipped enter after_batch exec has_errored
    new_transfer Recv.should_process is_timed_out Recv.process submit_and_record submit exec_tx
    run_updates gather Recv.add_transfer decode_tx_hash deliver get_client branch bind_result
    wrap_outcome execute Recv.query
ran = refl

process_batch-keeps_all_example : count 0 (0 ∷ []) ≤ count 0 (0 ∷ [])
process_batch-keeps_all_example =
    process_batch-keeps_all (Recv.processor route) env memory (0 ∷ []) (world row) (0 ∷ []) 0
      (recv-ReturnsBatch route) ran

-- A database that refuses every query.
abbrev broken : Environment
broken = record env { query_error = λ q. some (message "connection refused") }

ran_broken :
    (process_batch (Recv.processor route) broken memory (0 ∷ []) (world row)).1.1 ≡ ok (0 ∷ 0 ∷ [])
unfolding process_batch sort_batch sort_input is_skipped enter after_batch exec has_errored
    new_transfer Recv.should_process is_timed_out Recv.process submit_and_record submit exec_tx
    run_updates gather Recv.add_transfer decode_tx_hash deliver get_client branch bind_result
    wrap_outcome execute Recv.query
ran_broken = refl

abbrev acks : Gathered
acks = gather Ack.add_transfer (nothing_gathered λ p. new_transfer acknowledged) (0 ∷ 1 ∷ [])

ack_tx_ids-Distinct_example :
    Distinct acks.tx_set
    × Decoded acks.tx_set acks.tx_ids
    × ((hash : String)
        → Among hash acks.tx_set ↔ Wanted (λ p. new_transfer acknowledged) (0 ∷ 1 ∷ []) hash)
ack_tx_ids-Distinct_example = ack_tx_ids-Distinct (λ p. new_transfer acknowledged) (0 ∷ 1 ∷ [])

abbrev recvs : Gathered
recvs = gather Recv.add_transfer (nothing_gathered memory) (0 ∷ 1 ∷ [])

not_chain : ¬ (◌≡◌ {A = String} "0xaa" "1")
not_chain e = ground (arith, (str_eq_iff "0xaa" "1").1 e)

recv_tx_ids-repeat_example :
    (recvs.tx_ids ≡ source_ids memory (0 ∷ 1 ∷ []))
    × (recvs.sequences ≡ source_sequences memory (0 ∷ 1 ∷ []))
unfolding new_transfer
recv_tx_ids-repeat_example =
    recv_tx_ids-repeat "1" memory (0 ∷ 1 ∷ []) λ p. (refl, λ e. not_chain e)

-- A second packet of the same transaction, and a table with both.
abbrev next_row : Row
next_row = record row { packet_sequence_number = 8 }

abbrev two_rows : World
two_rows = record { rows = row ∷ next_row ∷ []; delivered = [] }

abbrev two : Memory
two p = if p == 0 then new_transfer row else new_transfer next_row

apart : Apart two (0 ∷ 1 ∷ [])
unfolding new_transfer
apart = (((λ e. ground (arith, ap PacketKey.sequence e)), tt), (tt, tt))

synced : BatchSynced two_rows.rows two (0 ∷ 1 ∷ [])
unfolding stored_progress find_row new_transfer same_packet
synced = (refl, (refl, tt))

recv_process-Synced_example :
    let r = Recv.process route env two (0 ∷ 1 ∷ []) two_rows in
    BatchSynced r.1.0.rows r.0 (0 ∷ 1 ∷ [])
recv_process-Synced_example = recv_process-Synced route env two (0 ∷ 1 ∷ []) two_rows apart synced

-- The two rows once their write acks are found.
abbrev next_acknowledged : Row
next_acknowledged = record acknowledged { packet_sequence_number = 8 }

abbrev two_acks : World
two_acks = record { rows = acknowledged ∷ next_acknowledged ∷ []; delivered = [] }

abbrev acked : Memory
acked p = if p == 0 then new_transfer acknowledged else new_transfer next_acknowledged

acked-Apart : Apart acked (0 ∷ 1 ∷ [])
unfolding new_transfer
acked-Apart = (((λ e. ground (arith, ap PacketKey.sequence e)), tt), (tt, tt))

acked-Synced : BatchSynced two_acks.rows acked (0 ∷ 1 ∷ [])
unfolding stored_progress find_row new_transfer same_packet
acked-Synced = (refl, (refl, tt))
