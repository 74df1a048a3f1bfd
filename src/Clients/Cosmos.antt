-- ===== src/Clients/Cosmos.antt =====
-- `CosmosBridgeClient` of shared/bridges/ibcv2/cosmos_bridge_client.go: its fields, what its node
-- and its codecs answer, and the tx that it fetches at most once in a while.
pub mod Packets
pub mod Search
pub mod Chain
pub mod Submit
use platform_relayer.Common.{ℕ, String, Bool, List, Option}
use platform_relayer.Db.{Time}
use platform_relayer.Errors.{Error, Result}
use platform_relayer.Batch.Hex.{decode_string}
use platform_relayer.Clients.Answers.{decoded, ◌>>=◌}
use platform_relayer.Clients.Once.{OnceWithKey, new_once_with_key, do_once}

-- An attribute and an event of the ABCI.
pub record Attribute : Type 0 where
  pub key : String
  pub value : String

pub record Event : Type 0 where
  pub kind : String
  pub attributes : List Attribute

-- `coretypes.ResultTx`; `tx` are the bytes of the tx.
pub record ResultTx : Type 0 where
  pub hash : String
  pub height : ℕ
  pub code : ℕ  -- uint32
  pub events : List Event
  pub tx : List ℕ

-- One part of the query of a tx search: `event.key='text'` or `event.key=number`.
pub data Condition : Type 0 where
  text_is : String → String → String → Condition
  number_is : String → String → ℕ → Condition
  time_is : String → String → Time → Condition

-- The messages that `txSigner` knows, by their signer.
pub data Message : Type 0 where
  recv_packet acknowledgement timeout : String → Message
  other_message : Message

-- What the node answers at the time of a call, and what the codecs make of bytes. The total count
-- of a search is the number of its txs. A header may be missing, else it is its time.
pub record Node : Type 0 where
  pub now : Time
  pub tx : List ℕ → Result ResultTx
  pub tx_search : List Condition → Result (List ResultTx)
  pub latest_header : Result (Option Time)
  pub header : ℕ → Result (Option Time)
  pub packet_receipt : String → ℕ → Result Bool
  pub packet_commitment : String → ℕ → Result (Unit {0})
  pub is_not_found_code : Error → Bool
  pub unmarshal_ack : List ℕ → Result (List (List ℕ))
  pub decode_tx : List ℕ → Result (List Message)
  -- The amount of a denom in the fee of a tx, nothing where the tx has no fee.
  pub fee_of : List ℕ → String → Result (Option ℕ)

pub record CosmosBridgeClient : Type 0 where
  pub chain_id : String
  pub prefix : String
  pub fee_denom : String
  pub fee_amount : ℕ  -- uint64
  pub tx_once : OnceWithKey ResultTx
  pub last_submission_time : Time
  pub tx_submission_delay : Time
  pub latest_timestamp_once : OnceWithKey Time

-- `NewCosmosBridgeClient`, the gas price left to `Submit`.
abbrev pub new_cosmos_bridge_client : String → String → String → ℕ → CosmosBridgeClient
new_cosmos_bridge_client chain prefix denom amount = record {
  chain_id = chain;
  prefix = prefix;
  fee_denom = denom;
  fee_amount = amount;
  tx_once = new_once_with_key 60000000000 5000000000;
  last_submission_time = 0;
  tx_submission_delay = 8000000000;
  latest_timestamp_once = new_once_with_key 6000000000 200000000;
}

-- `client.tmRPC.Tx(ctx, hashBytes, false)` for a hash in hex.
unfoldable pub fetch : String → Node → String → Result ResultTx
fetch text node hash = do bytes ← decoded text (decode_string hash); node.tx bytes

-- A tx as `client.txOnce.Do` gives it at this moment.
unfoldable pub tx_result : CosmosBridgeClient → Node → String → List ℕ → Result ResultTx
tx_result client node hash bytes = (do_once node.now hash (node.tx bytes) client.tx_once).1
