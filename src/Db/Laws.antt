-- ===== src/Db/Laws.antt =====
-- What an update does to the row of its packet, and that it does nothing to any other.
use platform_relayer.Common.{
  ◌≡◌, refl, ap, ◌≢◌, true, List, [], ◌∷◌, some, arith, str_eq_iff, Bool-cases, inl, inr,
  option_map, map, if◌then◌else◌,
}
use platform_relayer.Db.{
  Row, PacketKey, row_key, same_packet, Query, query_key, set_columns, execute, find_row,
  update_transfer_state, update_transfer_recv_tx, update_transfer_recv_tx_gas_cost_usd,
  update_transfer_write_ack_tx, update_transfer_ack_tx, update_transfer_ack_tx_gas_cost_usd,
  update_transfer_timeout_tx, update_transfer_timeout_tx_gas_cost_usd,
  update_transfer_source_tx_finalized_time, update_transfer_write_ack_tx_finalized_time,
  clear_recv_tx, clear_ack_tx, clear_timeout_tx,
}

pub same_packet_refl : (k : PacketKey) → same_packet k k ≡ true
unfolding same_packet
same_packet_refl k = ground (arith, str_eq_iff k.chain k.chain, str_eq_iff k.client k.client)

-- Keys are compared by their value.
pub eq_of_same_packet : (k j : PacketKey) → same_packet k j ≡ true → k ≡ j
unfolding same_packet
eq_of_same_packet k j h = ground (arith, str_eq_iff k.chain j.chain, str_eq_iff k.client j.client)

-- No update changes a key.
pub row_key-set_columns : (q : Query) (r : Row) → row_key (set_columns q r) ≡ row_key r
unfolding set_columns
row_key-set_columns (update_transfer_state s k) r = refl
row_key-set_columns (update_transfer_recv_tx h t a k) r = refl
row_key-set_columns (update_transfer_recv_tx_gas_cost_usd c k) r = refl
row_key-set_columns (update_transfer_write_ack_tx h t s k) r = refl
row_key-set_columns (update_transfer_ack_tx h t a k) r = refl
row_key-set_columns (update_transfer_ack_tx_gas_cost_usd c k) r = refl
row_key-set_columns (update_transfer_timeout_tx h t a k) r = refl
row_key-set_columns (update_transfer_timeout_tx_gas_cost_usd c k) r = refl
row_key-set_columns (update_transfer_source_tx_finalized_time t k) r = refl
row_key-set_columns (update_transfer_write_ack_tx_finalized_time t k) r = refl
row_key-set_columns (clear_recv_tx k) r = refl
row_key-set_columns (clear_ack_tx k) r = refl
row_key-set_columns (clear_timeout_tx k) r = refl

-- The row of the updated packet has the new columns.
pub find_row-execute_self :
    (q : Query) (rows : List Row)
    → find_row (query_key q) (execute q rows)
      ≡ option_map (set_columns q) (find_row (query_key q) rows)
unfolding execute find_row
find_row-execute_self q [] = refl
find_row-execute_self q (r ∷ rows) = elim (Bool-cases (same_packet (query_key q) (row_key r))) [
  | inl hit ↦ rw (hit, row_key-set_columns q r, hit) refl
  | inr miss ↦ rw (miss, miss) (find_row-execute_self q rows)
]

-- The row of any other packet stays as it was.
pub find_row-execute_ne :
    (q : Query) (k : PacketKey) (rows : List Row)
    → k ≢ query_key q
    → find_row k (execute q rows) ≡ find_row k rows
unfolding execute find_row
find_row-execute_ne q k [] h = refl
find_row-execute_ne q k (r ∷ rows) h = elim (Bool-cases (same_packet (query_key q) (row_key r))) [
  | inl hit ↦ ground (
    arith,
    eq_of_same_packet (query_key q) (row_key r) hit,
    eq_of_same_packet k (row_key r),
    row_key-set_columns q r,
    find_row-execute_ne q k rows h,
  )
  | inr miss ↦
      rw miss
        (ap (λ o. if same_packet k (row_key r) then some r else o) (find_row-execute_ne q k rows h))
]

-- The keys of the table, in order.
abbrev pub keys : List Row → List PacketKey
keys = map row_key

-- An update changes no key and adds or removes no row.
pub keys-execute : (q : Query) (rows : List Row) → keys (execute q rows) ≡ keys rows
unfolding execute
keys-execute q [] = refl
keys-execute q (r ∷ rows) = elim (Bool-cases (same_packet (query_key q) (row_key r))) [
  | inl hit ↦ rw (hit, row_key-set_columns q r, keys-execute q rows) refl
  | inr miss ↦ rw (miss, keys-execute q rows) refl
]
