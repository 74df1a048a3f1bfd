-- ===== src/Batch/Recv.antt =====
-- relayer/ibcv2/batch_recv_packet.go
use platform_relayer.Common.{
  ℕ, String, Bool, not, ◌&&◌, List, [], ◌∷◌, ◌++◌, none, some, is_some, if◌then◌else◌,
}
use platform_relayer.Errors.{Result, message}
use platform_relayer.Db.{Time, Status, Query, deliver_recv_packet, update_transfer_recv_tx}
use platform_relayer.Transfer.{Transfer, transfer_key, is_timed_out}
use platform_relayer.Bridge.{BridgeTx, RelayByTxRequest, World, Environment}
use platform_relayer.Batch.Hex.{decode_tx_hash}
use platform_relayer.Batch.Submit.{
  BatchProcessor, Memory, set_error, Gathered, nothing_gathered, contains, gather,
  submit_and_record, finish_batch,
}

-- The constructor's arguments that `Process` uses.
pub record Route : Type 0 where
  pub source_chain_id : String
  pub source_client_id : String
  pub destination_chain_id : String
  pub destination_client_id : String

unfoldable pub should_process : Time → Transfer → Bool
unfolding is_timed_out
should_process now t = not (is_some t.recv_tx_hash) && not (is_timed_out now t)

abbrev pub state : Status
state = deliver_recv_packet

-- The key looked up is the source tx hash, the key added is the source chain id.
unfoldable pub add_transfer : Gathered → ℕ → Gathered
add_transfer g p =
    let t = g.memory p in
    if contains t.source_tx_hash g.tx_set
    then record g { sequences = g.sequences ++ t.packet_sequence_number ∷ [] }
    else elim (decode_tx_hash t.source_tx_hash) [
      | none ↦ record g {
        memory = set_error g.memory p (message "decoding hex source tx hash to bytes");
      }
      | some tx_id ↦ record g {
        tx_ids = g.tx_ids ++ tx_id ∷ [];
        tx_set = t.source_chain_id ∷ g.tx_set;
        sequences = g.sequences ++ t.packet_sequence_number ∷ [];
      }
    ]

unfoldable pub request : Route → Gathered → RelayByTxRequest
request r g = record {
  src_chain = r.source_chain_id;
  dst_chain = r.destination_chain_id;
  source_tx_ids = g.tx_ids;
  timeout_tx_ids = [];
  src_client_id = r.source_client_id;
  dst_client_id = r.destination_client_id;
  src_packet_sequences = g.sequences;
  dst_packet_sequences = [];
}

unfoldable pub query : BridgeTx → Transfer → Query
query tx t = update_transfer_recv_tx tx.hash tx.timestamp tx.relayer_address (transfer_key t)

unfoldable pub assign : BridgeTx → Transfer → Transfer
assign tx t = record t {
  recv_tx_hash = some tx.hash;
  recv_tx_time = some tx.timestamp;
  recv_tx_relayer_address = some tx.relayer_address;
}

unfoldable pub process :
    Route → Environment → Memory → List ℕ → World → Memory × (World × Result (List ℕ))
process r env memory batch w =
    let g = gather add_transfer (nothing_gathered memory) batch in
    finish_batch assign g.memory batch
      (submit_and_record env r.destination_chain_id (request r g) query g.memory batch w)

abbrev pub processor : Route → BatchProcessor
processor r = record {
  should_process = λ env. should_process env.now;
  state = state;
  process = process r;
}
