-- ===== src/Examples/Data.antt =====
-- A transfer from chain `1` to chain `cosmoshub`, its row, and what the two chains answer.
use platform_relayer.Common.{String, true, false, List, [], ◌∷◌, Option, none, some}
use platform_relayer.Errors.{ok}
use platform_relayer.Db.{pending, success, Numeric, pos, Row, present, null_text, null_timestamp}
use platform_relayer.Bridge.{BridgeTx, BridgeClient, PacketInfo, World, Environment, evm, cosmos}
use platform_relayer.Config.{ChainConfig, Ibcv2Config}
use platform_relayer.RelayerApi.{ApiEnvironment, Submission, Store}

abbrev pub sent_tx : BridgeTx
sent_tx = record { hash = "0xbb"; timestamp = 200; relayer_address = "relayer" }

abbrev pub packet : PacketInfo
packet = record {
  sequence = 9;
  source_client = "client-0";
  destination_client = "08-wasm-1";
  timeout_timestamp = 1000;
  timestamp = 100;
}

-- A client that has received the packet, and that asks for each tx to be sent again.
abbrev pub client : BridgeClient
client = record {
  is_packet_received = λ c s. ok true;
  is_packet_committed = λ c s. ok true;
  find_recv_tx = λ c d s t. ok sent_tx;
  find_ack_tx = λ c d s. ok sent_tx;
  find_timeout_tx = λ c d s. ok sent_tx;
  deliver_tx = λ tx a. ok sent_tx;
  lands = λ tx a. tx ∷ [];
  packet_write_ack_status = λ h s c d. ok success;
  send_packets_from_tx = λ c h. ok (packet ∷ []);
  should_retry_tx = λ h e t. ok true;
  wait_for_chain = ok tt;
  is_tx_finalized = λ h o. ok true;
  is_timestamp_finalized = λ t o. ok true;
  chain_type = evm;
  tx_fee = λ h. ok (pos 3);
  get_transaction_sender = λ h. ok "0xe1d865c3d669dcc8c57c8d023140cb204e672ee4";
}

abbrev null_numeric : Numeric
null_numeric = record { valid = false; int = none; exp = pos 0 }

abbrev pub env : Environment
env = record {
  now = 500;
  clients = λ id. some client;
  query_error = λ q. none;
  begin_error = none;
  commit_error = none;
  rollback_error = none;
  relay_by_tx = λ r. ok (record { tx = 1 ∷ 2 ∷ []; address = "router" });
  get_coin_usd_value = λ id d amount. ok null_numeric;
}

abbrev pub row : Row
row = record {
  status = pending;
  source_chain_id = "1";
  destination_chain_id = "cosmoshub";
  source_tx_hash = "0xaa";
  source_tx_time = present 100;
  packet_sequence_number = 7;
  packet_source_client_id = "client-0";
  packet_destination_client_id = "08-wasm-1";
  packet_timeout_timestamp = present 1000;
  recv_tx_hash = null_text;
  recv_tx_time = null_timestamp;
  write_ack_tx_hash = null_text;
  write_ack_tx_time = null_timestamp;
  ack_tx_hash = null_text;
  ack_tx_time = null_timestamp;
  timeout_tx_hash = null_text;
  timeout_tx_time = null_timestamp;
  write_ack_status = record { valid = false; value = success };
  recv_tx_gas_cost_usd = null_numeric;
  ack_tx_gas_cost_usd = null_numeric;
  timeout_tx_gas_cost_usd = null_numeric;
  recv_tx_relayer_address = null_text;
  ack_tx_relayer_address = null_text;
  timeout_tx_relayer_address = null_text;
  source_tx_finalized_time = null_timestamp;
  write_ack_tx_finalized_time = null_timestamp;
}

-- The row once its packet is received.
abbrev pub received : Row
received = record row {
  recv_tx_hash = present "0xbb";
  recv_tx_time = present 200;
  recv_tx_relayer_address = present "relayer";
}

-- The row once its write ack is found.
abbrev pub acknowledged : Row
acknowledged = record received {
  write_ack_tx_hash = present "0xbb";
  write_ack_tx_time = present 200;
  write_ack_status = present success;
}

abbrev pub world : Row → World
world r = record { rows = r ∷ []; delivered = [] }

abbrev pub ibcv2 : Ibcv2Config
ibcv2 = record {
  counterparty_chains = λ c. some "cosmoshub";
  finality_offset = none;
  ack_batch_size = pos 0;
  ack_batch_timeout = pos 0;
  ack_batch_concurrency = pos 0;
  recv_batch_size = pos 5;
  recv_batch_timeout = pos 0;
  recv_batch_concurrency = pos 0;
  timeout_batch_size = pos 0;
  timeout_batch_timeout = pos 0;
  timeout_batch_concurrency = pos 0;
  should_relay_success_acks = false;
  should_relay_error_acks = true;
}

abbrev pub chain : String → Option Ibcv2Config → ChainConfig
chain id section = record {
  chain_id = id;
  type = evm;
  gas_token_coingecko_id = some "ethereum";
  gas_token_decimals = 18;
  cosmos = none;
  evm = none;
  svm = none;
  signer_gas_alert_thresholds = none;
  ibcv2 = section;
}

abbrev pub chains : List ChainConfig
chains = chain "1" (some ibcv2) ∷ chain "cosmoshub" (some ibcv2) ∷ []

abbrev pub request : Submission
request = record { chain_id = "1"; tx_hash = "0xaa" }

abbrev pub store : Store
store = record { submissions = []; rows = row ∷ [] }

abbrev pub api : ApiEnvironment
api = record {
  clients = λ id. some (record client { chain_type = cosmos });
  chains = chains;
  to_lower = λ s. s;
  insert_submission_error = λ r. none;
  get_submission_error = λ r. none;
  insert_transfer_error = λ r. none;
  get_transfers_error = λ r. none;
}
