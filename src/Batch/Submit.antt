-- ===== src/Batch/Submit.antt =====
-- What the three batch steps share: the memory, the loop that gathers the request, the delivery of
-- one tx for the batch, the database transaction (db/tx/tx.go) and the interface
-- `IBCV2BatchProcessor`.
use platform_relayer.Common.{
  ℕ, String, Bool, false, ◌||◌, List, [], ◌∷◌, none, some, is_some, str_eq, ◌==◌, if◌then◌else◌,
}
use platform_relayer.Errors.{Error, Result, ok, err, wrapped, joined, wrap}
use platform_relayer.Db.{Status, Row, Query, execute}
use platform_relayer.Transfer.{Transfer}
use platform_relayer.Bridge.{
  BridgeTx, RelayByTxRequest, World, Environment, M, ◌>>=◌, ◌>>◌, branch, return, ask, context,
  get_client, deliver, is_evm,
}

-- The transfers by their pointers.
abbrev pub Memory : Type 0
Memory = ℕ → Transfer

abbrev pub store : Memory → ℕ → Transfer → Memory
store memory p t = λ q. if q == p then t else memory q

abbrev pub set_error : Memory → ℕ → Error → Memory
set_error memory p e = store memory p (record (memory p) { processing_error = some e })

pub record BatchProcessor : Type 0 where
  pub should_process : Environment → Transfer → Bool
  pub state : Status
  pub process : Environment → Memory → List ℕ → World → Memory × (World × Result (List ℕ))

-- What the loop over the batch collects: tx ids and sequence numbers in order, the set of keys
-- already seen, and the memory with the errors that it sets.
pub record Gathered : Type 0 where
  pub tx_ids : List (List ℕ)
  pub sequences : List ℕ
  pub tx_set : List String
  pub memory : Memory

abbrev pub nothing_gathered : Memory → Gathered
nothing_gathered memory = record { tx_ids = []; sequences = []; tx_set = []; memory = memory }

-- `_, ok := txSet[key]`
abbrev pub contains : String → List String → Bool
contains key [] = false
contains key (k ∷ keys) = str_eq k key || contains key keys

unfoldable pub gather : (Gathered → ℕ → Gathered) → Gathered → List ℕ → Gathered
gather add g [] = g
gather add g (p ∷ batch) = gather add (add g p) batch

-- Request, client, wait and delivery.
unfoldable pub submit : Environment → String → RelayByTxRequest → M BridgeTx
submit env chain request = do
  response ← ask (wrap "getting tx bytes from relay service" (env.relay_by_tx request))
  client ← ask (wrap "getting client for chain" (get_client env chain))
  branch (is_evm client.chain_type) (ask (wrap "waiting for chain" client.wait_for_chain))
      (return tt)
  context "signing and submitting tx bytes" (deliver chain client response.tx response.address)

-- The updates of the transaction, for each transfer without a processing error; the first that
-- fails ends it.
unfoldable pub run_updates :
    Environment → (Transfer → Query) → Memory → List ℕ → List Row → Result (List Row)
run_updates env query memory [] rows = ok rows
run_updates env query memory (p ∷ batch) rows = elim (memory p).processing_error [
  | some e ↦ run_updates env query memory batch rows
  | none ↦ elim (env.query_error (query (memory p))) [
    | none ↦ run_updates env query memory batch (execute (query (memory p)) rows)
    | some e ↦ err (wrapped "updating transfer" e)
  ]
]

-- `ExecTx`. Nothing is written unless the commit succeeds.
abbrev commit : Environment → World → Result (List Row) → World × Result (Unit {0})
commit env w (ok rows) = elim env.commit_error [
  | none ↦ (record w { rows = rows }, ok tt)
  | some e ↦ (w, err e)
]
commit env w (err e) = elim env.rollback_error [
  | none ↦ (w, err e)
  | some rb ↦ (w, err (joined e rb))
]

unfoldable pub exec_tx : Environment → (List Row → Result (List Row)) → M (Unit {0})
exec_tx env updates w = elim env.begin_error [
  | none ↦ commit env w (updates w.rows)
  | some e ↦ (w, err e)
]

-- The delivered tx is set in each transfer of the batch without a processing error.
unfoldable pub set_tx : (BridgeTx → Transfer → Transfer) → BridgeTx → Memory → List ℕ → Memory
set_tx assign tx memory [] = memory
set_tx assign tx memory (p ∷ batch) =
    let next =
      if is_some (memory p).processing_error
      then memory
      else store memory p (assign tx (memory p)) in
    set_tx assign tx next batch

-- Delivery and transaction.
unfoldable pub submit_and_record :
    Environment
    → String
    → RelayByTxRequest
    → (BridgeTx → Transfer → Query)
    → Memory
    → List ℕ
    → M BridgeTx
submit_and_record env chain request query memory batch = do
  tx ← submit env chain request
  context "updating batch transfers txs" (exec_tx env (run_updates env (query tx) memory batch))
  return tx

-- The results of `Process`: the batch itself, or `nil` with the error.
abbrev pub finish_batch :
    (BridgeTx → Transfer → Transfer)
    → Memory
    → List ℕ
    → World × Result BridgeTx
    → Memory × (World × Result (List ℕ))
finish_batch assign memory batch (w, ok tx) = (set_tx assign tx memory batch, (w, ok batch))
finish_batch assign memory batch (w, err e) = (memory, (w, err e))
