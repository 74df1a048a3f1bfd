-- ===== src/Pipeline/Steps.antt =====
-- `NewPipeline` of relayer/ibcv2/pipeline.go: the steps of a pipeline in order, and a transfer's way
-- through them. A step over a batch sees the transfer in a batch of its own here, and in larger
-- batches in the Batch modules.
use platform_relayer.Common.{
  ℕ, String, Bool, not, ◌&&◌, List, [], ◌∷◌, ◌++◌, str_eq, ◌==◌, if◌then◌else◌,
}
use platform_relayer.Middleware.{Processor}
use platform_relayer.Pipeline.Options.{PipelineOptions}
use platform_relayer.Batch.Submit.{BatchProcessor}
use platform_relayer.Batch.Recv
use platform_relayer.Batch.Ack
use platform_relayer.Batch.Timeout
use platform_relayer.Batch.Recv.{Route}
use platform_relayer.Processors.CheckRecvPacketDelivery
use platform_relayer.Processors.CheckPacketCommitment
use platform_relayer.Processors.CheckSendFinality
use platform_relayer.Processors.CheckTimeoutFinality
use platform_relayer.Processors.RetryTimeoutPacket
use platform_relayer.Processors.TimeoutTxGasCalculator
use platform_relayer.Processors.RetryRecvPacket
use platform_relayer.Processors.RecvTxGasCalculator
use platform_relayer.Processors.WaitForWriteAck
use platform_relayer.Processors.CheckWriteAckFinality
use platform_relayer.Processors.RetryAckPacket
use platform_relayer.Processors.AckTxGasCalculator

-- A step in its wrapper, or in its wrapper behind `ConditionallyBatchProcess`.
pub data Step : Type 0 where
  single : Processor → Step
  batched : BatchProcessor → Step

abbrev pub check_recv : Processor
check_recv = record {
  should_process = λ _. CheckRecvPacketDelivery.should_process;
  state = CheckRecvPacketDelivery.state;
  process = CheckRecvPacketDelivery.process;
}

abbrev pub check_commitment : Processor
check_commitment = record {
  should_process = λ _. CheckPacketCommitment.should_process;
  state = CheckPacketCommitment.state;
  process = CheckPacketCommitment.process;
}

abbrev pub check_send_finality : PipelineOptions → Processor
check_send_finality o = record {
  should_process = λ _. CheckSendFinality.should_process;
  state = CheckSendFinality.state;
  process = CheckSendFinality.process o.source_finality_offset;
}

abbrev pub check_timeout_finality : PipelineOptions → Processor
check_timeout_finality o = record {
  should_process = λ env. CheckTimeoutFinality.should_process env.now;
  state = CheckTimeoutFinality.state;
  process = CheckTimeoutFinality.process o.destination_finality_offset;
}

abbrev pub retry_timeout : Route → Processor
retry_timeout r = record {
  should_process = λ _. RetryTimeoutPacket.should_process;
  state = RetryTimeoutPacket.state;
  process = RetryTimeoutPacket.process r.source_chain_id;
}

abbrev pub retry_recv : Route → Processor
retry_recv r = record {
  should_process = λ _. RetryRecvPacket.should_process;
  state = RetryRecvPacket.state;
  process = RetryRecvPacket.process r.destination_chain_id;
}

abbrev pub retry_ack : Route → Processor
retry_ack r = record {
  should_process = λ _. RetryAckPacket.should_process;
  state = RetryAckPacket.state;
  process = RetryAckPacket.process r.source_chain_id;
}

abbrev pub timeout_gas : PipelineOptions → Processor
timeout_gas o = record {
  should_process = λ _. TimeoutTxGasCalculator.should_process;
  state = TimeoutTxGasCalculator.state;
  process =
      TimeoutTxGasCalculator.process o.source_chain_gas_token_coingecko_id
        o.source_chain_gas_token_decimals;
}

abbrev pub recv_gas : PipelineOptions → Processor
recv_gas o = record {
  should_process = λ _. RecvTxGasCalculator.should_process;
  state = RecvTxGasCalculator.state;
  process =
      RecvTxGasCalculator.process o.destination_chain_gas_token_coingecko_id
        o.destination_chain_gas_token_decimals;
}

abbrev pub ack_gas : PipelineOptions → Processor
ack_gas o = record {
  should_process = λ _. AckTxGasCalculator.should_process;
  state = AckTxGasCalculator.state;
  process =
      AckTxGasCalculator.process o.source_chain_gas_token_coingecko_id
        o.source_chain_gas_token_decimals;
}

abbrev pub wait_for_write_ack : Processor
wait_for_write_ack = record {
  should_process = λ _. WaitForWriteAck.should_process;
  state = WaitForWriteAck.state;
  process = WaitForWriteAck.process;
}

abbrev pub check_write_ack_finality : PipelineOptions → Processor
check_write_ack_finality o = record {
  should_process = λ _.
      CheckWriteAckFinality.should_process o.should_relay_success_acks o.should_relay_error_acks;
  state = CheckWriteAckFinality.state;
  process = CheckWriteAckFinality.process o.destination_finality_offset;
}

-- A gas calculator is part of the pipeline if its token is configured and there is a price client.
abbrev pub if_priced : Bool → String → ℕ → Processor → List Step
if_priced has_price_client coingecko_id decimals p =
    if not (str_eq coingecko_id "") && (not (decimals == 0) && has_price_client)
    then single p ∷ []
    else []

-- The steps before the state finisher, which is not wrapped.
unfoldable pub new_pipeline : Bool → Route → PipelineOptions → List Step
new_pipeline has_price_client r o =
    (single check_recv
      ∷ single check_commitment
      ∷ single (check_send_finality o)
      ∷ single (check_timeout_finality o)
      ∷ batched (Timeout.processor r)
      ∷ single (retry_timeout r)
      ∷ [])
    ++ (if_priced has_price_client o.source_chain_gas_token_coingecko_id
          o.source_chain_gas_token_decimals (timeout_gas o)
        ++ ((batched (Recv.processor r) ∷ single (retry_recv r) ∷ [])
            ++ (if_priced has_price_client o.destination_chain_gas_token_coingecko_id
                  o.destination_chain_gas_token_decimals (recv_gas o)
                ++ ((single wait_for_write_ack
                      ∷ single (check_write_ack_finality o)
                      ∷ single check_commitment
                      ∷ batched
                          (Ack.processor r o.should_relay_success_acks o.should_relay_error_acks)
                      ∷ single (retry_ack r)
                      ∷ [])
                    ++ if_priced has_price_client o.source_chain_gas_token_coingecko_id
                        o.source_chain_gas_token_decimals (ack_gas o)))))
