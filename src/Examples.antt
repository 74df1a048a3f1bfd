-- ===== src/Examples.antt =====
-- The theorems at concrete inputs.
mod Data
mod Transfers
mod Batches
mod Service
mod Chains
mod Submissions
mod Prices
