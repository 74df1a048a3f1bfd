-- ===== src/Batch/Ack.antt =====
-- relayer/ibcv2/batch_ack_packet.go
use platform_relayer.Common.{
  ℕ, Bool, false, not, ◌&&◌, ◌||◌, List, [], ◌∷◌, ◌++◌, none, some, is_some, if◌then◌else◌,
}
use platform_relayer.Errors.{Result, message}
use platform_relayer.Db.{Status, Query, deliver_ack_packet, update_transfer_ack_tx}
use platform_relayer.Transfer.{Transfer, transfer_key, is_error_ack, is_success_ack}
use platform_relayer.Bridge.{BridgeTx, RelayByTxRequest, World, Environment}
use platform_relayer.Batch.Hex.{decode_tx_hash}
use platform_relayer.Batch.Recv.{Route}
use platform_relayer.Batch.Submit.{
  BatchProcessor, Memory, set_error, Gathered, nothing_gathered, contains, gather,
  submit_and_record, finish_batch,
}

unfoldable pub should_process : Bool → Bool → Transfer → Bool
should_process success_acks error_acks t =
    if not (is_some t.write_ack_tx_hash) then false else elim t.write_ack_status [
      | none ↦ false
      | some s ↦
          if (is_error_ack s && not error_acks) || (is_success_ack s && not success_acks)
          then false
          else (not (is_some t.ack_tx_hash) && not (is_some t.timeout_tx_hash))
    ]

abbrev pub state : Status
state = deliver_ack_packet

unfoldable pub add_transfer : Gathered → ℕ → Gathered
add_transfer g p = elim (g.memory p).write_ack_tx_hash [
  | none ↦ record g {
    memory =
        set_error g.memory p (message "trying to deliver ack packet, no write ack tx hash found");
  }
  | some hash ↦
      if contains hash g.tx_set
      then record g { sequences = g.sequences ++ (g.memory p).packet_sequence_number ∷ [] }
      else elim (decode_tx_hash hash) [
        | none ↦ record g {
          memory = set_error g.memory p (message "decoding hex write ack tx hash to bytes");
        }
        | some tx_id ↦ record g {
          tx_ids = g.tx_ids ++ tx_id ∷ [];
          tx_set = hash ∷ g.tx_set;
          sequences = g.sequences ++ (g.memory p).packet_sequence_number ∷ [];
        }
      ]
]

-- The ack is proved on the destination chain and delivered on the source chain.
unfoldable pub request : Route → Gathered → RelayByTxRequest
request r g = record {
  src_chain = r.destination_chain_id;
  dst_chain = r.source_chain_id;
  source_tx_ids = g.tx_ids;
  timeout_tx_ids = [];
  src_client_id = r.destination_client_id;
  dst_client_id = r.source_client_id;
  src_packet_sequences = [];
  dst_packet_sequences = g.sequences;
}

unfoldable pub query : BridgeTx → Transfer → Query
query tx t = update_transfer_ack_tx tx.hash tx.timestamp tx.relayer_address (transfer_key t)

unfoldable pub assign : BridgeTx → Transfer → Transfer
assign tx t = record t { ack_tx_hash = some tx.hash; ack_tx_time = some tx.timestamp }

unfoldable pub process :
    Route → Environment → Memory → List ℕ → World → Memory × (World × Result (List ℕ))
process r env memory batch w =
    let g = gather add_transfer (nothing_gathered memory) batch in
    finish_batch assign g.memory batch
      (submit_and_record env r.source_chain_id (request r g) query g.memory batch w)

abbrev pub processor : Route → Bool → Bool → BatchProcessor
processor r success_acks error_acks = record {
  should_process = λ env. should_process success_acks error_acks;
  state = state;
  process = process r;
}
