-- ===== src/Pipeline.antt =====
-- A pipeline: its options, its steps in order, and the wrapper that keeps a transfer from entering
-- it twice. relayer/ibcv2/pipeline_opts.go and pipeline.go.
pub mod Options
pub mod Deduper
pub mod Steps
pub mod Run
pub mod Sync
pub mod Whole
