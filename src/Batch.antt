-- ===== src/Batch.antt =====
-- The steps of a pipeline that work on a batch, and their wrapper: relayer/ibcv2/processor_mw.go,
-- batch_recv_packet.go, batch_ack_packet.go and timeout_packet.go. A batch is a list of pointers,
-- since the code may hold one transfer twice; the transfers stand in a memory.
pub mod Hex
pub mod Submit
pub mod Recv
pub mod Ack
pub mod Timeout
pub mod Middleware
pub mod Output
pub mod Synced
pub mod Edges
pub mod Assigned
pub mod Agreement
pub mod Alone
pub mod Due
pub mod Requests
pub mod Repeated
pub mod Recorded
