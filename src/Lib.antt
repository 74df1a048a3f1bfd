-- ===== src/Lib.antt =====
-- A model of platform-relayer, a relayer of IBC v2 packets, and what holds of it.
--
-- A client of the gRPC service (relayerapi/services/relayerapi/service.go) submits a transaction;
-- each packet in it becomes a row of the table ibcv2_transfers. The dispatcher
-- (relayer/ibcv2/relay_dispatcher.go) polls the unfinished rows, makes a transfer of each
-- (ibcv2_transfer.go) and pushes it onto the pipeline of its route (pipeline.go). The pipeline's
-- steps look at both chains, deliver the packet, its ack or its timeout, write what they find to
-- the row and set it in the transfer, each inside a wrapper that records the state and keeps
-- errors in the transfer (processor_mw.go). The last step closes the row.
--
-- Files and the code they are about, all below relayer/ibcv2 unless a path says otherwise:
-- - Errors: the errors of the relayer and errors.Is; shared/bridges/ibcv2/bridge_client.go.
-- - Db, Db/Laws: the table and its queries; db/gen/db/ibcv2_transfers.sql.go and models.go.
-- - Transfer, Transfer/Laws: IBCV2Transfer, IsComplete, IsTimedOut.
-- - Bridge: the interface BridgeClient, the proof service, the price client, the storage and the
--   clock as an Environment; the World that steps change is the table and the delivered txs.
-- - Processors/*: one file for each step on a single transfer, with should_process, state and
--   process for ShouldProcess, State and Process. Processors/Finished, Processors/Retried and
--   Processors/Unrecorded hold their theorems.
-- - Middleware: IBCV2ProcessorMW. Batch/Middleware: IBCV2BatchProcessorMW.
-- - Batch/Submit, Batch/Recv, Batch/Ack, Batch/Timeout, Batch/Hex: batch_recv_packet.go,
--   batch_ack_packet.go, timeout_packet.go and db/tx/tx.go. Batch/Output, Batch/Requests,
--   Batch/Repeated, Batch/Recorded, Batch/Due, Batch/Synced, Batch/Assigned,
--   Batch/Agreement, Batch/Edges and Batch/Alone hold their theorems.
-- - Consistency/*: the transfer in memory against its row.
-- - Config, Config/Readers: the chains of shared/config/config.go and what is read of them.
-- - Pipeline/Options, Pipeline/Deduper, Pipeline/Steps: pipeline_opts.go and pipeline.go.
--   Pipeline/Run takes a transfer through the wrapped steps, with conditional_batch_processor.go for a
--   batch of one transfer; Pipeline/Sync holds its theorem. Pipeline/Whole adds the last step.
-- - Dispatcher/Manager, Dispatcher/Submit, Dispatcher/Alert: the pipeline manager, the poll and the
--   latency alert of ibcv2_transfer_metrics.go; Dispatcher/Once and Dispatcher/Unroutable hold
--   their theorems.
-- - RelayerApi/*: relayerapi/services/relayerapi/service.go, Relay and Status, with the address list of
--   shared/utils/validate_address_list.go.
-- - Clients/Once: shared/bridges/ibcv2/once.go. Clients/Cosmos/*: cosmos_bridge_client.go beside it,
--   with Packets, Search, Chain and Submit for its methods. Clients/Evm/*: evm_bridge_client.go, with
--   Commitment, Packets, Search, Chain and Submit. Clients/Waiting: WaitForChain and WaitForTx of
--   both. Clients/Delivery: DeliverTx of both. Clients/State: ClientState and
--   SignerGasTokenBalance of both. Clients/Answers and Clients/Number: what they share,
--   Itoa and Atoi. Clients/Acks and Clients/Retry hold what both clients have in common.
-- - Service/Price: shared/clients/coingecko/price_client.go. Service/Queue:
--   shared/messagequeue/messagequeue.go. Service/GasMonitor: gasmonitor/gasmonitor.go.
--   Service/Price/Fresh, Service/Price/Keys and Service/GasMonitor/Rounds hold their theorems.
-- - Among: membership in a list. Examples/*: concrete inputs.
--
-- A Go pointer to a transfer is a number, and Batch/Submit has the memory that maps it; a single
-- transfer is passed as a value. A table is a list of rows. The deduper's inner pipeline takes
-- every transfer that is pushed, and may put out any, also twice. int32 and uint32
-- sequence numbers are natural numbers with the conversions written out as a remainder by 2 ^ 32.
-- Times are nanoseconds. Loops are over lists, but for the waiting loops of the bridge clients, which
-- have a number of rounds: Clients/Waiting/Loops says how many are enough, and that WaitForTx may
-- need any number. Numbers are printed in twenty rounds: 2 ^ 64 is below 10 ^ 20.
--
-- Not modelled: the nodes, signers, codecs and contract bindings behind the bridge clients, which are
-- parameters of their models, the channels and goroutines of the pipeline library, the ticker of
-- the dispatcher, metrics, logs, configuration loading, server start and generated code. Callers of
-- OnceWithKey come one after the other.
mod Common
pub mod Among
pub mod Errors
pub mod Db
pub mod Transfer
pub mod Bridge
pub mod Processors
pub mod Middleware
pub mod Consistency
pub mod Batch
pub mod Config
pub mod Pipeline
pub mod Clients
pub mod Service
pub mod Dispatcher
pub mod RelayerApi
pub mod Examples
