-- ===== src/Dispatcher.antt =====
-- The dispatcher that feeds the pipelines: relayer/ibcv2/relay_dispatcher.go, the pipeline manager
-- of pipeline.go and the latency alert of ibcv2_transfer_metrics.go.
pub mod Alert
pub mod Manager
pub mod Submit
pub mod Once
pub mod Unroutable
