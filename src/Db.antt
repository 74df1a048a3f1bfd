-- ===== src/Db.antt =====
-- The table `ibcv2_transfers` and the queries that the relayer runs on it: db/gen/db/models.go,
-- db/queries/ibcv2_transfers.sql and db/gen/db/ibcv2_transfers.sql.go. A table is a list of rows.
pub mod Laws
use platform_relayer.Common.{
  ℕ, ◌%◌, String, Bool, true, false, not, ◌&&◌, ◌||◌, List, [], ◌∷◌, Option, none, some, ◌==◌,
  str_eq, if◌then◌else◌,
}

-- Nanoseconds since the zero time of Go.
abbrev pub Time : Type 0
Time = ℕ

-- `big.Int`; the relayer compares none and computes with none of those it stores.
pub data ℤ : Type 0 where
  pos : ℕ → ℤ
  negsuc : ℕ → ℤ

-- An `int32` stands as its bit pattern, so both conversions with `uint32` are this one.
abbrev pub u32 : ℕ → ℕ
u32 n = n % 4294967296

pub data Status : Type 0 where
  pending check_recv_packet_delivery get_recv_packet deliver_recv_packet : Status
  wait_for_write_ack check_ack_packet_delivery get_ack_packet deliver_ack_packet : Status
  check_timeout_packet_delivery get_timeout_packet deliver_timeout_packet : Status
  complete_with_ack complete_with_timeout failed : Status
  awaiting_send_finality awaiting_write_ack_finality complete_with_write_ack_success : Status
  awaiting_timeout_finality complete_with_write_ack_error : Status
  calculating_recv_tx_gas_cost calculating_ack_tx_gas_cost : Status
  calculating_timeout_tx_gas_cost : Status

pub data WriteAckStatus : Type 0 where
  success error unknown : WriteAckStatus

-- `pgtype.Text`, `pgtype.Timestamp` and `NullIbcv2WriteAckStatus`: a value that counts if valid.
pub record Nullable (A : Type 0) : Type 0 where
  pub valid : Bool
  pub value : A

abbrev pub present : {A : Type 0} → A → Nullable A
present a = record { valid = true; value = a }

abbrev pub null_text : Nullable String
null_text = record { valid = false; value = "" }

abbrev pub null_timestamp : Nullable Time
null_timestamp = record { valid = false; value = 0 }

-- `pgtype.Numeric`: `int` is a pointer, and the value is `int * 10 ^ exp`.
pub record Numeric : Type 0 where
  pub valid : Bool
  pub int : Option ℤ
  pub exp : ℤ

pub record Row : Type 0 where
  pub status : Status
  pub source_chain_id : String
  pub destination_chain_id : String
  pub source_tx_hash : String
  pub source_tx_time : Nullable Time
  pub packet_sequence_number : ℕ  -- int32
  pub packet_source_client_id : String
  pub packet_destination_client_id : String
  pub packet_timeout_timestamp : Nullable Time
  pub recv_tx_hash : Nullable String
  pub recv_tx_time : Nullable Time
  pub write_ack_tx_hash : Nullable String
  pub write_ack_tx_time : Nullable Time
  pub ack_tx_hash : Nullable String
  pub ack_tx_time : Nullable Time
  pub timeout_tx_hash : Nullable String
  pub timeout_tx_time : Nullable Time
  pub write_ack_status : Nullable WriteAckStatus
  pub recv_tx_gas_cost_usd : Numeric
  pub ack_tx_gas_cost_usd : Numeric
  pub timeout_tx_gas_cost_usd : Numeric
  pub recv_tx_relayer_address : Nullable String
  pub ack_tx_relayer_address : Nullable String
  pub timeout_tx_relayer_address : Nullable String
  pub source_tx_finalized_time : Nullable Time
  pub write_ack_tx_finalized_time : Nullable Time

-- The three columns of the unique index, by which every update names its row.
pub record PacketKey : Type 0 where
  pub chain : String
  pub client : String
  pub sequence : ℕ  -- int32

abbrev pub row_key : Row → PacketKey
row_key r = record {
  chain = r.source_chain_id;
  client = r.packet_source_client_id;
  sequence = r.packet_sequence_number;
}

unfoldable pub same_packet : PacketKey → PacketKey → Bool
same_packet k j = str_eq k.chain j.chain && str_eq k.client j.client && k.sequence == j.sequence

-- One constructor for each update, its key last. A `Tx` is hash, time and relayer address.
pub data Query : Type 0 where
  update_transfer_state : Status → PacketKey → Query
  update_transfer_recv_tx : String → Time → String → PacketKey → Query
  update_transfer_recv_tx_gas_cost_usd : Numeric → PacketKey → Query
  update_transfer_write_ack_tx : String → Time → WriteAckStatus → PacketKey → Query
  update_transfer_ack_tx : String → Time → String → PacketKey → Query
  update_transfer_ack_tx_gas_cost_usd : Numeric → PacketKey → Query
  update_transfer_timeout_tx : String → Time → String → PacketKey → Query
  update_transfer_timeout_tx_gas_cost_usd : Numeric → PacketKey → Query
  update_transfer_source_tx_finalized_time : Time → PacketKey → Query
  update_transfer_write_ack_tx_finalized_time : Time → PacketKey → Query
  clear_recv_tx clear_ack_tx clear_timeout_tx : PacketKey → Query

-- The `WHERE` clause.
unfoldable pub query_key : Query → PacketKey
query_key (update_transfer_state s k) = k
query_key (update_transfer_recv_tx h t a k) = k
query_key (update_transfer_recv_tx_gas_cost_usd c k) = k
query_key (update_transfer_write_ack_tx h t s k) = k
query_key (update_transfer_ack_tx h t a k) = k
query_key (update_transfer_ack_tx_gas_cost_usd c k) = k
query_key (update_transfer_timeout_tx h t a k) = k
query_key (update_transfer_timeout_tx_gas_cost_usd c k) = k
query_key (update_transfer_source_tx_finalized_time t k) = k
query_key (update_transfer_write_ack_tx_finalized_time t k) = k
query_key (clear_recv_tx k) = k
query_key (clear_ack_tx k) = k
query_key (clear_timeout_tx k) = k

-- The `SET` clause, less `updated_at`.
unfoldable pub set_columns : Query → Row → Row
set_columns (update_transfer_state s k) r = record r { status = s }
set_columns (update_transfer_recv_tx h t a k) r = record r {
  recv_tx_hash = present h;
  recv_tx_time = present t;
  recv_tx_relayer_address = present a;
}
set_columns (update_transfer_recv_tx_gas_cost_usd c k) r = record r { recv_tx_gas_cost_usd = c }
set_columns (update_transfer_write_ack_tx h t s k) r = record r {
  write_ack_tx_hash = present h;
  write_ack_tx_time = present t;
  write_ack_status = present s;
}
set_columns (update_transfer_ack_tx h t a k) r = record r {
  ack_tx_hash = present h;
  ack_tx_time = present t;
  ack_tx_relayer_address = present a;
}
set_columns (update_transfer_ack_tx_gas_cost_usd c k) r = record r { ack_tx_gas_cost_usd = c }
set_columns (update_transfer_timeout_tx h t a k) r = record r {
  timeout_tx_hash = present h;
  timeout_tx_time = present t;
  timeout_tx_relayer_address = present a;
}
set_columns (update_transfer_timeout_tx_gas_cost_usd c k) r = record r {
  timeout_tx_gas_cost_usd = c;
}
set_columns (update_transfer_source_tx_finalized_time t k) r = record r {
  source_tx_finalized_time = present t;
}
set_columns (update_transfer_write_ack_tx_finalized_time t k) r = record r {
  write_ack_tx_finalized_time = present t;
}
set_columns (clear_recv_tx k) r = record r {
  recv_tx_hash = null_text;
  recv_tx_time = null_timestamp;
}
set_columns (clear_ack_tx k) r = record r { ack_tx_hash = null_text; ack_tx_time = null_timestamp }
set_columns (clear_timeout_tx k) r = record r {
  timeout_tx_hash = null_text;
  timeout_tx_time = null_timestamp;
}

-- An `UPDATE` rewrites every row that its `WHERE` clause selects.
unfoldable pub execute : Query → List Row → List Row
execute q [] = []
execute q (r ∷ rows) =
    (if same_packet (query_key q) (row_key r) then set_columns q r else r) ∷ execute q rows

-- The row of a packet: the first, and under the unique index the only one.
unfoldable pub find_row : PacketKey → List Row → Option Row
find_row k [] = none
find_row k (r ∷ rows) = if same_packet k (row_key r) then some r else find_row k rows

-- The statuses that `GetUnfinishedIBCV2Transfers` leaves out.
unfoldable pub is_finished : Status → Bool
is_finished complete_with_ack = true
is_finished complete_with_timeout = true
is_finished failed = true
is_finished complete_with_write_ack_success = true
is_finished complete_with_write_ack_error = true
is_finished _ = false

unfoldable pub get_unfinished_transfers : List Row → List Row
get_unfinished_transfers [] = []
get_unfinished_transfers (r ∷ rows) =
    let rest = get_unfinished_transfers rows in if is_finished r.status then rest else r ∷ rest

-- `WHERE source_chain_id = $1 AND source_tx_hash = $2`
unfoldable pub get_transfers_by_source_tx : String → String → List Row → List Row
get_transfers_by_source_tx chain hash [] = []
get_transfers_by_source_tx chain hash (r ∷ rows) =
    let rest = get_transfers_by_source_tx chain hash rows in
    if str_eq r.source_chain_id chain && str_eq r.source_tx_hash hash then r ∷ rest else rest
