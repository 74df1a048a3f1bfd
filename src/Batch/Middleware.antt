-- ===== src/Batch/Middleware.antt =====
-- The wrapper of the batch steps: `IBCV2BatchProcessorMW` in relayer/ibcv2/processor_mw.go.
use platform_relayer.Common.{ℕ, Bool, not, ◌||◌, List, [], ◌∷◌, ◌++◌, some, if◌then◌else◌}
use platform_relayer.Errors.{Error, Result, ok, err, wrapped, errors_is, canceled}
use platform_relayer.Db.{update_transfer_state}
use platform_relayer.Transfer.{Transfer, transfer_key, has_errored}
use platform_relayer.Bridge.{World, Environment, exec}
use platform_relayer.Middleware.{is_failed}
use platform_relayer.Batch.Submit.{Memory, store, set_error, BatchProcessor}

-- The variables of the loop that sorts the batch.
pub record Sorted : Type 0 where
  pub memory : Memory
  pub world : World
  pub not_processing : List ℕ
  pub to_process : List ℕ

-- The three tests that leave an input out of the batch.
unfoldable pub is_skipped : BatchProcessor → Environment → Transfer → Bool
is_skipped b env t = has_errored t || (is_failed t.state || not (b.should_process env t))

-- After the update of the state in the table. A failed update sets the error and lists the input
-- as not processing; then, as there is no `continue`, it goes on like one that succeeded.
unfoldable pub enter : BatchProcessor → Sorted → ℕ → World × Result (Unit {0}) → Sorted
enter b s p (w, ok done) = record {
  memory = store s.memory p (record (s.memory p) { state = b.state });
  world = w;
  not_processing = s.not_processing;
  to_process = s.to_process ++ p ∷ [];
}
enter b s p (w, err e) = record {
  memory = store s.memory p (record (s.memory p) {
    processing_error = some (wrapped "updating transfer state" e);
    state = b.state;
  });
  world = w;
  not_processing = s.not_processing ++ p ∷ [];
  to_process = s.to_process ++ p ∷ [];
}

unfoldable pub sort_input : BatchProcessor → Environment → Sorted → ℕ → Sorted
unfolding enter
sort_input b env s p =
    if is_skipped b env (s.memory p)
    then record s { not_processing = s.not_processing ++ p ∷ [] }
    else enter b s p (exec env (update_transfer_state b.state (transfer_key (s.memory p))) s.world)

unfoldable pub sort_batch : BatchProcessor → Environment → Sorted → List ℕ → Sorted
sort_batch b env s [] = s
sort_batch b env s (p ∷ batch) = sort_batch b env (sort_input b env s p) batch

abbrev pub start : Memory → World → Sorted
start memory w = record { memory = memory; world = w; not_processing = []; to_process = [] }

unfoldable pub set_errors : Memory → List ℕ → Error → Memory
set_errors memory [] e = memory
set_errors memory (p ∷ batch) e = set_errors (set_error memory p e) batch e

-- What becomes of the internal processor's outcome.
unfoldable pub after_batch :
    List ℕ → List ℕ → Memory × (World × Result (List ℕ)) → Memory × (World × Result (List ℕ))
after_batch not_processing to_process (memory, (w, ok output)) =
    (memory, (w, ok (output ++ not_processing)))
after_batch not_processing to_process (memory, (w, err e)) =
    if errors_is e canceled
    then (memory, (w, err e))
    else (set_errors memory to_process e, (w, ok (to_process ++ not_processing)))

unfoldable pub process_batch :
    BatchProcessor → Environment → Memory → List ℕ → World → Memory × (World × Result (List ℕ))
process_batch b env memory batch w =
    let s = sort_batch b env (start memory w) batch in
    after_batch s.not_processing s.to_process (b.process env s.memory s.to_process s.world)
