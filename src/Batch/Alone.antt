-- ===== src/Batch/Alone.antt =====
-- A batch step on no transfer and on one.
use platform_relayer.Common.{
  ℕ, ◌≡◌, refl, ◌∙◌, ap, String, true, List, [], ◌∷◌, arith, Option-cases, inl, inr, ◌⊎◌,
}
use platform_relayer.Errors.{Result, ok, err}
use platform_relayer.Db.{Query}
use platform_relayer.Transfer.{Transfer, transfer_key, has_errored}
use platform_relayer.Bridge.{BridgeTx, RelayByTxRequest, World, Environment}
use platform_relayer.Consistency.{Synced}
use platform_relayer.Consistency.Outcomes.{returned, failed}
use platform_relayer.Batch.Submit.{
  Memory, Gathered, nothing_gathered, gather, run_updates, set_tx, submit_and_record, finish_batch,
}
use platform_relayer.Batch.Recorded.{Submitted, submit_and_record-Submitted}
use platform_relayer.Batch.Synced.{assigned, Matches}
use platform_relayer.Batch.Assigned.{set_tx-assigned}
use platform_relayer.Batch.Agreement.{
  OnlyErrors, gathered-Synced, recv_add-OnlyErrors, ack_add-OnlyErrors, recv-Matches, ack-Matches,
  timeout-Matches,
}
use platform_relayer.Batch.Edges.{
  Texted, submit_and_record-Texted, recv_add-has_errored, ack_add-has_errored,
}
use platform_relayer.Batch.Recv
use platform_relayer.Batch.Ack
use platform_relayer.Batch.Timeout
use platform_relayer.Batch.Recv.{Route}

-- What a batch step keeps of the transfers that are given to it alone.
pub record KeepsAlone
    (process : Environment → Memory → List ℕ → World → Memory × (World × Result (List ℕ)))
    : Type 0 where
  pub no_rows :
      (env : Environment) (m : Memory) (w : World) → (process env m [] w).1.0.rows ≡ w.rows
  pub no_memory : (env : Environment) (m : Memory) (w : World) → (process env m [] w).0 ≡ m
  pub synced :
      (env : Environment) (m : Memory) (p : ℕ) (w : World)
      → Synced w.rows (m p)
      → let r = process env m (p ∷ []) w in Synced r.1.0.rows (r.0 p)
  pub same_key :
      (env : Environment) (m : Memory) (p : ℕ) (w : World)
      → transfer_key ((process env m (p ∷ []) w).0 p) ≡ transfer_key (m p)
  pub errored :
      (env : Environment) (m : Memory) (p : ℕ) (w : World)
      → has_errored (m p) ≡ true
      → has_errored ((process env m (p ∷ []) w).0 p) ≡ true
  pub texted :
      (env : Environment) (m : Memory) (batch : List ℕ) (w : World)
      → Texted (process env m batch w).1

finish-rows :
    (assign : BridgeTx → Transfer → Transfer) (chain : String) (env : Environment)
    (query : BridgeTx → Transfer → Query) (request : RelayByTxRequest) (m : Memory) (w : World)
    (o : World × Result BridgeTx)
    → Submitted env chain request (λ tx. run_updates env (query tx) m []) w o
    → (finish_batch assign m [] o).1.0.rows ≡ w.rows
unfolding run_updates
finish-rows assign chain env query request m w (w', ok tx) (sent, run) = ground (arith, run)
finish-rows assign chain env query request m w (w', err e) (same, sent) = same

finish-memory :
    (assign : BridgeTx → Transfer → Transfer) (m : Memory) (o : World × Result BridgeTx)
    → (finish_batch assign m [] o).0 ≡ m
unfolding set_tx
finish-memory assign m (w', ok tx) = refl
finish-memory assign m (w', err e) = refl

-- The transfer is assigned the tx or left.
finish-cases :
    (assign : BridgeTx → Transfer → Transfer) (m : Memory) (p : ℕ) (o : World × Result BridgeTx)
    → ((finish_batch assign m (p ∷ []) o).0 p ≡ m p)
      ⊎ ((tx : BridgeTx) × ((finish_batch assign m (p ∷ []) o).0 p ≡ assigned (assign tx) (m p)))
finish-cases assign m p (w', ok tx) =
    inr (tx, (set_tx-assigned assign tx m m (p ∷ []) (tt, tt) (refl, tt)).0)
finish-cases assign m p (w', err e) = inl refl

finish-Texted :
    (assign : BridgeTx → Transfer → Transfer) (m : Memory) (batch : List ℕ)
    (o : World × Result BridgeTx)
    → Texted o
    → Texted (finish_batch assign m batch o).1
finish-Texted assign m batch (w', ok tx) h = returned tt
finish-Texted assign m batch (w', err e) (failed text) = failed text

assigned-key :
    (assign : Transfer → Transfer) (t : Transfer)
    → transfer_key (assign t) ≡ transfer_key t
    → transfer_key (assigned assign t) ≡ transfer_key t
assigned-key assign t same = elim (Option-cases t.processing_error) [
  | inl quiet ↦ ground (arith, quiet, same)
  | inr (e, errored) ↦ ground (arith, errored)
]

assigned-errored :
    (assign : Transfer → Transfer) (t : Transfer) → has_errored t ≡ true → assigned assign t ≡ t
unfolding has_errored
assigned-errored assign t h = elim (Option-cases t.processing_error) [
  | inl quiet ↦ absurd (ground (arith, quiet, h))
  | inr (e, errored) ↦ ground (arith, errored)
]

module _ (query : BridgeTx → Transfer → Query) (assign : BridgeTx → Transfer → Transfer)
    (matches : (tx : BridgeTx) → Matches (query tx) (assign tx)) (chain : String)
    (add : Gathered → ℕ → Gathered) (request : Gathered → RelayByTxRequest)
    (each : (g : Gathered) (p : ℕ) → OnlyErrors g.memory (add g p).memory)
    (keeps_error : (g : Gathered) (p q : ℕ)
      → has_errored (g.memory q) ≡ true
      → has_errored ((add g p).memory q) ≡ true) where
  step : Environment → Memory → List ℕ → World → Memory × (World × Result (List ℕ))
  step env memory batch w =
      let g = gather add (nothing_gathered memory) batch in
      finish_batch assign g.memory batch
        (submit_and_record env chain (request g) query g.memory batch w)

  step-KeepsAlone : KeepsAlone step
  unfolding step gather
  step-KeepsAlone = record {
    no_rows = λ env m w.
        finish-rows assign chain env query (request (nothing_gathered m)) m w _
          (submit_and_record-Submitted env chain (request (nothing_gathered m)) query m [] w);
    no_memory = λ env m w. finish-memory assign m _;
    synced = λ env m p w s.
        (gathered-Synced query assign matches env chain add request each m (p ∷ []) w (tt, tt)
          (s, tt)).0;
    same_key = λ env m p w.
        let g = add (nothing_gathered m) p in
        elim (finish-cases assign g.memory p
          (submit_and_record env chain (request g) query g.memory (p ∷ []) w)) [
            | inl left ↦ ap (λ t. transfer_key t) left ∙ (each (nothing_gathered m) p p).0
            | inr (tx, set) ↦
                ap (λ t. transfer_key t) set
                ∙ (assigned-key (assign tx) (g.memory p) ((matches tx).same_key (g.memory p))
                    ∙ (each (nothing_gathered m) p p).0)
          ];
    errored = λ env m p w h.
        let g = add (nothing_gathered m) p in
        let h' = keeps_error (nothing_gathered m) p p h in
        elim (finish-cases assign g.memory p
          (submit_and_record env chain (request g) query g.memory (p ∷ []) w)) [
            | inl left ↦ ap has_errored left ∙ h'
            | inr (tx, set) ↦
                ap has_errored (set ∙ assigned-errored (assign tx) (g.memory p) h') ∙ h'
          ];
    texted = λ env m batch w.
        let g = gather add (nothing_gathered m) batch in
        finish-Texted assign g.memory batch _
          (submit_and_record-Texted env chain (request g) query g.memory batch w);
  }

pub recv-KeepsAlone : (route : Route) → KeepsAlone (Recv.process route)
unfolding Recv.process step
recv-KeepsAlone route =
    step-KeepsAlone Recv.query Recv.assign recv-Matches route.destination_chain_id Recv.add_transfer
      (Recv.request route) recv_add-OnlyErrors recv_add-has_errored

pub ack-KeepsAlone : (route : Route) → KeepsAlone (Ack.process route)
unfolding Ack.process step
ack-KeepsAlone route =
    step-KeepsAlone Ack.query Ack.assign ack-Matches route.source_chain_id Ack.add_transfer
      (Ack.request route) ack_add-OnlyErrors ack_add-has_errored

pub timeout-KeepsAlone : (route : Route) → KeepsAlone (Timeout.process route)
unfolding Timeout.process step
timeout-KeepsAlone route =
    step-KeepsAlone Timeout.query Timeout.assign timeout-Matches route.source_chain_id
      Recv.add_transfer (Timeout.request route) recv_add-OnlyErrors recv_add-has_errored
