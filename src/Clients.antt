-- ===== src/Clients.antt =====
-- The implementations of `BridgeClient`: shared/bridges/ibcv2/once.go, cosmos_bridge_client.go and
-- evm_bridge_client.go. What a chain's node, the signer, the codecs and the contract bindings answer
-- is a parameter.
pub mod Once
pub mod Number
pub mod Answers
pub mod Waiting
pub mod Cosmos
pub mod Evm
pub mod Delivery
pub mod Acks
pub mod Retry
pub mod State
