-- ===== src/Batch/Agreement.antt =====
-- The batch steps as a whole: from the transfers that they are given to the transfers and rows
-- that they leave.
use platform_relayer.Common.{ℕ, ◌≡◌, refl, sym, subst, ◌∙◌, String, List, [], ◌∷◌, arith, ==_iff}
use platform_relayer.Errors.{Result, ok, err}
use platform_relayer.Db.{Row, Query, query_key}
use platform_relayer.Transfer.{Transfer, transfer_key}
use platform_relayer.Bridge.{BridgeTx, RelayByTxRequest, World, Environment}
use platform_relayer.Consistency.{progress, Synced, follow}
use platform_relayer.Batch.Submit.{
  Memory, Gathered, nothing_gathered, gather, run_updates, submit_and_record, finish_batch,
}
use platform_relayer.Batch.Recorded.{Submitted, submit_and_record-Submitted}
use platform_relayer.Batch.Synced.{
  AllIn, AllIn-map, AllIn-zip, Apart, Matches, Synced-same, run_updates-Synced,
}
use platform_relayer.Batch.Recv
use platform_relayer.Batch.Ack
use platform_relayer.Batch.Timeout
use platform_relayer.Batch.Recv.{Route}
use platform_relayer.Batch.Assigned.{set_tx-assigned}

-- Gathering sets errors and changes nothing else.
abbrev pub OnlyErrors : Memory → Memory → Type 0
OnlyErrors before after =
    (p : ℕ)
    → (transfer_key (after p) ≡ transfer_key (before p))
      × (progress (after p) ≡ progress (before p))

pub OnlyErrors-gather :
    (add : Gathered → ℕ → Gathered)
    → ((g : Gathered) (p : ℕ) → OnlyErrors g.memory (add g p).memory)
    → (g : Gathered) (batch : List ℕ) → OnlyErrors g.memory (gather add g batch).memory
unfolding gather
OnlyErrors-gather add each g [] q = (refl, refl)
OnlyErrors-gather add each g (p ∷ batch) q =
    let rest = OnlyErrors-gather add each (add g p) batch q in
    (rest.0 ∙ (each g p q).0, rest.1 ∙ (each g p q).1)

-- Errors leave packets apart and in agreement with their rows.
Apart-OnlyErrors :
    (before after : Memory) (batch : List ℕ)
    → OnlyErrors before after
    → Apart before batch
    → Apart after batch
Apart-OnlyErrors before after [] errors apart = tt
Apart-OnlyErrors before after (p ∷ batch) errors (far, apart) = (
  AllIn-map _ _ batch (λ q ne e. ne (sym (errors p).0 ∙ (e ∙ (errors q).0))) far,
  Apart-OnlyErrors before after batch errors apart,
)

-- All transfers of a batch agree with the table.
abbrev pub BatchSynced : List Row → Memory → List ℕ → Type 0
BatchSynced rows memory batch = AllIn (λ p. Synced rows (memory p)) batch

-- The three batch steps as one function of what they differ in.
module _ (query : BridgeTx → Transfer → Query) (assign : BridgeTx → Transfer → Transfer)
    (matches : (tx : BridgeTx) → Matches (query tx) (assign tx)) (env : Environment)
    (chain : String) where
  finish-Synced :
      (request : RelayByTxRequest) (memory : Memory) (batch : List ℕ) (w : World)
      (o : World × Result BridgeTx)
      → Submitted env chain request (λ tx. run_updates env (query tx) memory batch) w o
      → Apart memory batch
      → BatchSynced w.rows memory batch
      → let r = finish_batch assign memory batch o in BatchSynced r.1.0.rows r.0 batch
  finish-Synced request memory batch w (w', ok tx) (sent, run) apart s =
      AllIn-zip _ _ _ batch (λ p synced e. subst (λ t. Synced w'.rows t) (sym e) synced)
        (run_updates-Synced env (query tx) (assign tx) (matches tx) memory batch w.rows w'.rows run
          apart s)
        (set_tx-assigned assign tx memory memory batch apart (AllIn-map _ _ batch (λ p v. refl) s))
  finish-Synced request memory batch w (w', err e) (same, sent) apart s =
      subst (λ rows. BatchSynced rows memory batch) (sym same) s

  pub gathered-Synced :
      (add : Gathered → ℕ → Gathered) (request : Gathered → RelayByTxRequest)
      → ((g : Gathered) (p : ℕ) → OnlyErrors g.memory (add g p).memory)
      → (memory : Memory) (batch : List ℕ) (w : World) → Apart memory batch
      → BatchSynced w.rows memory batch
      → let g = gather add (nothing_gathered memory) batch in
        let r =
          finish_batch assign g.memory batch
            (submit_and_record env chain (request g) query g.memory batch w) in
        BatchSynced r.1.0.rows r.0 batch
  gathered-Synced add request each memory batch w apart s =
      let g = gather add (nothing_gathered memory) batch in
      let errors = OnlyErrors-gather add each (nothing_gathered memory) batch in
      finish-Synced (request g) g.memory batch w
        (submit_and_record env chain (request g) query g.memory batch w)
        (submit_and_record-Submitted env chain (request g) query g.memory batch w)
        (Apart-OnlyErrors memory g.memory batch errors apart)
        (AllIn-map _ _ batch
          (λ p synced. Synced-same w.rows (memory p) (g.memory p) (errors p).0 (errors p).1 synced)
          s)

pub recv_add-OnlyErrors :
    (g : Gathered) (p : ℕ) → OnlyErrors g.memory (Recv.add_transfer g p).memory
unfolding Recv.add_transfer progress
recv_add-OnlyErrors g p q = (ground (arith, ==_iff q p), ground (arith, ==_iff q p))

pub ack_add-OnlyErrors : (g : Gathered) (p : ℕ) → OnlyErrors g.memory (Ack.add_transfer g p).memory
unfolding Ack.add_transfer progress
ack_add-OnlyErrors g p q = (ground (arith, ==_iff q p), ground (arith, ==_iff q p))

pub recv-Matches : (tx : BridgeTx) → Matches (Recv.query tx) (Recv.assign tx)
unfolding Recv.query Recv.assign query_key follow progress
recv-Matches tx = record { own = λ t. refl; same_key = λ t. refl; follows = λ t. refl }

pub ack-Matches : (tx : BridgeTx) → Matches (Ack.query tx) (Ack.assign tx)
unfolding Ack.query Ack.assign query_key follow progress
ack-Matches tx = record { own = λ t. refl; same_key = λ t. refl; follows = λ t. refl }

pub timeout-Matches : (tx : BridgeTx) → Matches (Timeout.query tx) (Timeout.assign tx)
unfolding Timeout.query Timeout.assign query_key follow progress
timeout-Matches tx = record { own = λ t. refl; same_key = λ t. refl; follows = λ t. refl }

-- A recv batch of packets that differ, each in agreement with its row, leaves each in agreement
-- with its row, whether the submission succeeds or fails.
pub recv_process-Synced :
    (route : Route) (env : Environment) (memory : Memory) (batch : List ℕ) (w : World)
    → Apart memory batch
    → BatchSynced w.rows memory batch
    → let r = Recv.process route env memory batch w in BatchSynced r.1.0.rows r.0 batch
unfolding Recv.process
recv_process-Synced route env memory batch w apart s =
    gathered-Synced Recv.query Recv.assign recv-Matches env route.destination_chain_id
      Recv.add_transfer (Recv.request route) recv_add-OnlyErrors memory batch w apart s

-- An ack batch of packets that differ, each in agreement with its row, leaves each in agreement
-- with its row, whether the submission succeeds or fails.
pub ack_process-Synced :
    (route : Route) (env : Environment) (memory : Memory) (batch : List ℕ) (w : World)
    → Apart memory batch
    → BatchSynced w.rows memory batch
    → let r = Ack.process route env memory batch w in BatchSynced r.1.0.rows r.0 batch
unfolding Ack.process
ack_process-Synced route env memory batch w apart s =
    gathered-Synced Ack.query Ack.assign ack-Matches env route.source_chain_id Ack.add_transfer
      (Ack.request route) ack_add-OnlyErrors memory batch w apart s

-- A timeout batch of packets that differ, each in agreement with its row, leaves each in agreement
-- with its row, whether the submission succeeds or fails.
pub timeout_process-Synced :
    (route : Route) (env : Environment) (memory : Memory) (batch : List ℕ) (w : World)
    → Apart memory batch
    → BatchSynced w.rows memory batch
    → let r = Timeout.process route env memory batch w in BatchSynced r.1.0.rows r.0 batch
unfolding Timeout.process
timeout_process-Synced route env memory batch w apart s =
    gathered-Synced Timeout.query Timeout.assign timeout-Matches env route.source_chain_id
      Recv.add_transfer (Timeout.request route) recv_add-OnlyErrors memory batch w apart s
