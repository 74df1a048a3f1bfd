-- ===== src/Batch/Timeout.antt =====
-- relayer/ibcv2/timeout_packet.go. Its loop over the batch is that of batch_recv_packet.go, and its
-- test that of check_timeout_finality.go.
use platform_relayer.Common.{ℕ, Bool, not, ◌&&◌, List, [], some, is_some}
use platform_relayer.Errors.{Result}
use platform_relayer.Db.{Time, Status, Query, deliver_timeout_packet, update_transfer_timeout_tx}
use platform_relayer.Transfer.{Transfer, transfer_key, is_timed_out}
use platform_relayer.Bridge.{BridgeTx, RelayByTxRequest, World, Environment}
use platform_relayer.Batch.Recv.{Route, add_transfer}
use platform_relayer.Batch.Submit.{
  BatchProcessor, Memory, Gathered, nothing_gathered, gather, submit_and_record, finish_batch,
}

unfoldable pub should_process : Time → Transfer → Bool
unfolding is_timed_out
should_process now t =
    (is_timed_out now t && not (is_some t.recv_tx_hash) && not (is_some t.ack_tx_hash))
    && not (is_some t.timeout_tx_hash)

abbrev pub state : Status
state = deliver_timeout_packet

-- The timeout is proved on the destination chain and delivered on the source chain.
unfoldable pub request : Route → Gathered → RelayByTxRequest
request r g = record {
  src_chain = r.destination_chain_id;
  dst_chain = r.source_chain_id;
  source_tx_ids = [];
  timeout_tx_ids = g.tx_ids;
  src_client_id = r.destination_client_id;
  dst_client_id = r.source_client_id;
  src_packet_sequences = [];
  dst_packet_sequences = g.sequences;
}

unfoldable pub query : BridgeTx → Transfer → Query
query tx t = update_transfer_timeout_tx tx.hash tx.timestamp tx.relayer_address (transfer_key t)

unfoldable pub assign : BridgeTx → Transfer → Transfer
assign tx t = record t { timeout_tx_hash = some tx.hash; timeout_tx_time = some tx.timestamp }

unfoldable pub process :
    Route → Environment → Memory → List ℕ → World → Memory × (World × Result (List ℕ))
process r env memory batch w =
    let g = gather add_transfer (nothing_gathered memory) batch in
    finish_batch assign g.memory batch
      (submit_and_record env r.source_chain_id (request r g) query g.memory batch w)

abbrev pub processor : Route → BatchProcessor
processor r = record {
  should_process = λ env. should_process env.now;
  state = state;
  process = process r;
}
