-- ===== src/Processors.antt =====
-- The steps of a pipeline that work on one transfer, in the order of the pipeline. `Cancel` of every
-- step only logs, and metrics are left out.
pub mod CheckRecvPacketDelivery
pub mod CheckPacketCommitment
pub mod CheckSendFinality
pub mod CheckTimeoutFinality
pub mod RetryTimeoutPacket
pub mod TimeoutTxGasCalculator
pub mod RetryRecvPacket
pub mod RecvTxGasCalculator
pub mod WaitForWriteAck
pub mod CheckWriteAckFinality
pub mod RetryAckPacket
pub mod AckTxGasCalculator
pub mod StateFinisher
pub mod Finished
pub mod Retried
pub mod Unrecorded
