-- ===== src/Batch/Output.antt =====
-- Which transfers a wrapped batch step sends on.
use platform_relayer.Common.{
  ℕ, ◌+◌, ◌≤◌, ◌≡◌, refl, Bool, false, List, [], ◌∷◌, none, some, arith, count, count-append,
}
use platform_relayer.Errors.{Error, Result, ok, err}
use platform_relayer.Db.{update_transfer_state, PacketKey}
use platform_relayer.Transfer.{Transfer, transfer_key}
use platform_relayer.Bridge.{BridgeTx, World, Environment, exec}
use platform_relayer.Batch.Submit.{Memory, BatchProcessor, finish_batch}
use platform_relayer.Batch.Middleware.{
  Sorted, is_skipped, sort_input, sort_batch, start, after_batch, process_batch,
}
use platform_relayer.Batch.Recv
use platform_relayer.Batch.Ack
use platform_relayer.Batch.Timeout

-- A batch step returns the batch that it was given.
abbrev pub ReturnsBatch : BatchProcessor → Type 0
ReturnsBatch b =
    (env : Environment) (memory : Memory) (batch : List ℕ) (w : World) (output : List ℕ)
    → (b.process env memory batch w).1.1 ≡ ok output
    → output ≡ batch

-- How often a pointer stands in the two lists of the sorting loop.
abbrev listed : ℕ → Sorted → ℕ
listed p s = count p s.to_process + count p s.not_processing

-- The updates of the states that a batch may need all succeed.
abbrev pub UpdatesSucceed : Environment → BatchProcessor → Type 0
UpdatesSucceed env b = (k : PacketKey) → env.query_error (update_transfer_state b.state k) ≡ none

module _ (b : BatchProcessor) (env : Environment) where
  listed-sort_input_ge :
      (p q : ℕ) (s : Sorted) → listed p s + count p (q ∷ []) ≤ listed p (sort_input b env s q)
  unfolding sort_input exec
  listed-sort_input_ge p q s =
      ground (arith, count-append p s.to_process (q ∷ []), count-append p s.not_processing (q ∷ []))

  listed-sort_input :
      (p q : ℕ) (s : Sorted)
      → UpdatesSucceed env b
      → listed p (sort_input b env s q) ≡ listed p s + count p (q ∷ [])
  unfolding sort_input exec
  listed-sort_input p q s fine = ground (
    arith,
    fine (transfer_key (s.memory q)),
    count-append p s.to_process (q ∷ []),
    count-append p s.not_processing (q ∷ []),
  )

  listed-sort_batch_ge :
      (p : ℕ) (s : Sorted) (batch : List ℕ)
      → listed p s + count p batch ≤ listed p (sort_batch b env s batch)
  unfolding sort_batch
  listed-sort_batch_ge p s [] = omega arith
  listed-sort_batch_ge p s (q ∷ batch) =
      ground
        (arith, listed-sort_input_ge p q s, listed-sort_batch_ge p (sort_input b env s q) batch)

  listed-sort_batch :
      (p : ℕ) (s : Sorted) (batch : List ℕ)
      → UpdatesSucceed env b
      → listed p (sort_batch b env s batch) ≡ listed p s + count p batch
  unfolding sort_batch
  listed-sort_batch p s [] fine = omega arith
  listed-sort_batch p s (q ∷ batch) fine =
      ground
        (arith, listed-sort_input p q s fine, listed-sort_batch p (sort_input b env s q) batch fine)

failed_input_listed :
    (b : BatchProcessor) (env : Environment) (memory : Memory) (w : World) (p : ℕ) (e : Error)
    → is_skipped b env (memory p) ≡ false
    → env.query_error (update_transfer_state b.state (transfer_key (memory p))) ≡ some e
    → listed p (sort_batch b env (start memory w) (p ∷ [])) ≡ 2
unfolding sort_batch sort_input exec
failed_input_listed b env memory w p e due fails = ground arith

-- What a wrapped batch sends on is what the loop listed.
output-after_batch :
    (to_process not_processing : List ℕ) (o : Memory × (World × Result (List ℕ))) (p : ℕ)
    (output : List ℕ)
    → ((out : List ℕ) → o.1.1 ≡ ok out → out ≡ to_process)
    → (after_batch not_processing to_process o).1.1 ≡ ok output
    → count p output ≡ count p to_process + count p not_processing
unfolding after_batch
output-after_batch to_process not_processing (memory, (w, ok out)) p output same h =
    ground (arith, same out refl, count-append p to_process not_processing)
output-after_batch to_process not_processing (memory, (w, err e)) p output same h =
    ground (arith, count-append p to_process not_processing)

-- A step that returns the batch it was given loses no transfer under the wrapper: unless the
-- wrapper returns an error, each input is sent on at least as often as it came in.
pub process_batch-keeps_all :
    (b : BatchProcessor) (env : Environment) (memory : Memory) (batch : List ℕ) (w : World)
    (output : List ℕ) (p : ℕ)
    → ReturnsBatch b
    → (process_batch b env memory batch w).1.1 ≡ ok output
    → count p batch ≤ count p output
unfolding process_batch
process_batch-keeps_all b env memory batch w output p same h =
    let s = sort_batch b env (start memory w) batch in
    omega (
      arith,
      listed-sort_batch_ge b env p (start memory w) batch,
      output-after_batch s.to_process s.not_processing (b.process env s.memory s.to_process s.world)
          p output (same env s.memory s.to_process s.world) h,
    )

-- Where no update of a state fails, each input is sent on exactly as often as it came in.
pub process_batch-permutes :
    (b : BatchProcessor) (env : Environment) (memory : Memory) (batch : List ℕ) (w : World)
    (output : List ℕ) (p : ℕ)
    → ReturnsBatch b
    → UpdatesSucceed env b
    → (process_batch b env memory batch w).1.1 ≡ ok output
    → count p output ≡ count p batch
unfolding process_batch
process_batch-permutes b env memory batch w output p same fine h =
    let s = sort_batch b env (start memory w) batch in
    omega (
      arith,
      listed-sort_batch b env p (start memory w) batch fine,
      output-after_batch s.to_process s.not_processing (b.process env s.memory s.to_process s.world)
          p output (same env s.memory s.to_process s.world) h,
    )

-- Where the update of the state of a due input fails, the wrapper sends that input on twice.
pub process_batch-duplicates :
    (b : BatchProcessor) (env : Environment) (memory : Memory) (w : World) (output : List ℕ) (p : ℕ)
    (e : Error)
    → ReturnsBatch b
    → is_skipped b env (memory p) ≡ false
    → env.query_error (update_transfer_state b.state (transfer_key (memory p))) ≡ some e
    → (process_batch b env memory (p ∷ []) w).1.1 ≡ ok output
    → count p output ≡ 2
unfolding process_batch
process_batch-duplicates b env memory w output p e same due fails h =
    let s = sort_batch b env (start memory w) (p ∷ []) in
    omega (
      arith,
      failed_input_listed b env memory w p e due fails,
      output-after_batch s.to_process s.not_processing (b.process env s.memory s.to_process s.world)
          p output (same env s.memory s.to_process s.world) h,
    )

-- The steps that the pipeline wraps return their batch.
finish_batch_same :
    (assign : BridgeTx → Transfer → Transfer) (memory : Memory) (batch : List ℕ)
    (o : World × Result BridgeTx) (output : List ℕ)
    → (finish_batch assign memory batch o).1.1 ≡ ok output
    → output ≡ batch
finish_batch_same assign memory batch (w, ok tx) output h = cc
finish_batch_same assign memory batch (w, err e) output h = cc

pub recv-ReturnsBatch : (route : Recv.Route) → ReturnsBatch (Recv.processor route)
unfolding Recv.process
recv-ReturnsBatch route env memory batch w output h = finish_batch_same _ _ batch _ output h

pub ack-ReturnsBatch :
    (route : Recv.Route) (success_acks error_acks : Bool)
    → ReturnsBatch (Ack.processor route success_acks error_acks)
unfolding Ack.process
ack-ReturnsBatch route success_acks error_acks env memory batch w output h =
    finish_batch_same _ _ batch _ output h

pub timeout-ReturnsBatch : (route : Recv.Route) → ReturnsBatch (Timeout.processor route)
unfolding Timeout.process
timeout-ReturnsBatch route env memory batch w output h = finish_batch_same _ _ batch _ output h
