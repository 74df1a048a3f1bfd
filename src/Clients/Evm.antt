-- ===== src/Clients/Evm.antt =====
-- `EVMBridgeClient` of shared/bridges/ibcv2/evm_bridge_client.go: its fields, and what its node, the
-- contract bindings and go-ethereum answer. A hash of a tx stands as its text, another 32-byte word
-- as its number.
pub mod Commitment
pub mod Packets
pub mod Search
pub mod Chain
pub mod Submit
use platform_relayer.Common.{ℕ, String, List, Option}
use platform_relayer.Db.{Time}
use platform_relayer.Errors.{Result}
use platform_relayer.Clients.Once.{OnceWithKey, new_once_with_key, do_once}

-- `types.Log`
pub record Log : Type 0 where
  pub topics : List ℕ
  pub payload : List ℕ
  pub block_number : ℕ  -- uint64
  pub tx_hash : String

-- `types.Receipt`; a log may be missing.
pub record Receipt : Type 0 where
  pub status : ℕ  -- uint64
  pub logs : List (Option Log)
  pub block_number : ℕ
  pub effective_gas_price : ℕ
  pub gas_used : ℕ  -- uint64

-- `types.Header`, its time in seconds.
pub record Header : Type 0 where
  pub number : ℕ
  pub time : ℕ  -- uint64
  pub base_fee : ℕ

-- The block that a call names: the latest, the finalized one or one by its number.
pub data Block : Type 0 where
  latest finalized : Block
  at_height : ℕ → Block

-- What a log of the router says of a packet that was sent, and of one whose ack was written.
pub record SendPacket : Type 0 where
  pub sequence : ℕ  -- uint64
  pub source_client : String
  pub dest_client : String
  pub timeout_timestamp : ℕ  -- uint64

pub record WriteAcknowledgement : Type 0 where
  pub sequence : ℕ  -- uint64
  pub source_client : String
  pub dest_client : String
  pub acknowledgements : List (List ℕ)

-- What the node and the bindings answer at the time of a call. `event_id` are the topics of the
-- router's ABI, `parses` the bindings of the events of which only the raw log is used.
pub record Node : Type 0 where
  pub now : Time
  pub router_abi : Result (Unit {0})
  pub event_id : String → ℕ
  pub receipt : String → Result Receipt
  pub header : Block → Result Header
  pub make_topics : ℕ → String → ℕ → Result (List ℕ)
  pub filter_logs : List ℕ → Result (List Log)
  pub parse_write_acknowledgement : Log → Result WriteAcknowledgement
  pub parse_send_packet : Log → Result SendPacket
  pub parses : String → Log → Result (Unit {0})
  pub transaction_by_hash : String → Result (List ℕ)
  pub sender : ℕ → List ℕ → Result String
  pub keccak256 : List ℕ → ℕ
  pub get_commitment : ℕ → Result ℕ

pub record EvmBridgeClient : Type 0 where
  pub chain_id : String
  pub signer_address : String
  pub tx_once : OnceWithKey Receipt
  pub last_submission_time : Time
  pub tx_submission_delay : Time
  pub latest_timestamp_once : OnceWithKey Time
  -- The product of a cap with the multiplier, a float, cut to a whole number.
  pub gas_fee_cap_multiplier : Option (ℕ → ℕ)
  pub gas_tip_cap_multiplier : Option (ℕ → ℕ)

-- `NewEVMBridgeClient` where the bindings are made and the signer has an address.
abbrev pub new_evm_bridge_client :
    String → String → Option (ℕ → ℕ) → Option (ℕ → ℕ) → EvmBridgeClient
new_evm_bridge_client chain address fee tip = record {
  chain_id = chain;
  signer_address = address;
  tx_once = new_once_with_key 60000000000 5000000000;
  last_submission_time = 0;
  tx_submission_delay = 2000000000;
  latest_timestamp_once = new_once_with_key 12000000000 200000000;
  gas_fee_cap_multiplier = fee;
  gas_tip_cap_multiplier = tip;
}

-- A receipt as `client.txOnce.Do` gives it at this moment.
unfoldable pub tx_receipt : EvmBridgeClient → Node → String → Result Receipt
tx_receipt client node hash = (do_once node.now hash (node.receipt hash) client.tx_once).1
