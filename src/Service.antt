-- ===== src/Service.antt =====
-- The services round the relayer: the cached prices of shared/clients/coingecko, the queue of
-- shared/messagequeue and the monitor of gasmonitor.
pub mod Price
pub mod Queue
pub mod GasMonitor
