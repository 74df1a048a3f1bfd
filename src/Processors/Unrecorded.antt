-- ===== src/Processors/Unrecorded.antt =====
-- The write ack's finalized time never reaches the table.
use platform_relayer.Common.{
  ℕ, ◌≡◌, refl, ◌≢◌, ap, Bool, true, false, Option, none, some, inl, inr, Option-cases, String,
}
use platform_relayer.Errors.{Result, ok, err}
use platform_relayer.Db.{
  PacketKey, query_key, find_row, update_transfer_write_ack_tx_finalized_time,
}
use platform_relayer.Db.Laws.{find_row-execute_ne}
use platform_relayer.Transfer.{Transfer, transfer_key}
use platform_relayer.Bridge.{
  World, Environment, M, exec, bind_result, branch, or_fail, wrap_outcome,
}
use platform_relayer.Processors.CheckWriteAckFinality.{process, zero_key}

-- The row of one packet is the same.
abbrev SameRow : {A : Type 0} → PacketKey → World → World × Result A → Type 0
SameRow k w o = find_row k o.0.rows ≡ find_row k w.rows

module _ {A B : Type 0} (k : PacketKey) (w : World) where
  asked-SameRow :
      (r : Result A) (f : A → M B)
      → ((a : A) → SameRow k w (f a w))
      → SameRow k w (bind_result (w, r) f)
  unfolding bind_result
  asked-SameRow (ok a) f h = h a
  asked-SameRow (err e) f h = refl

  given-SameRow :
      (text : String) (o : Option A) (f : A → M B)
      → ((a : A) → SameRow k w (f a w))
      → SameRow k w (bind_result (or_fail text o w) f)
  unfolding bind_result or_fail
  given-SameRow text none f h = refl
  given-SameRow text (some a) f h = h a

branch-SameRow :
    {A : Type 0} (k : PacketKey) (w : World) (b : Bool) (x y : M A)
    → SameRow k w (x w)
    → SameRow k w (y w)
    → SameRow k w (branch b x y w)
unfolding branch
branch-SameRow k w true x y hx hy = hx
branch-SameRow k w false x y hx hy = hy

updated-SameRow :
    (env : Environment) (t : Transfer) (w : World)
    → t.source_chain_id ≢ ""
    → SameRow (transfer_key t) w (
        bind_result
          (wrap_outcome "updating write ack tx finalized time"
            (exec env (update_transfer_write_ack_tx_finalized_time env.now zero_key) w))
          (λ _ v. (v, ok (record t { write_ack_tx_finalized_time = some env.now }))))
unfolding bind_result wrap_outcome exec query_key
updated-SameRow env t w named =
    let q = update_transfer_write_ack_tx_finalized_time env.now zero_key in
    elim (Option-cases (env.query_error q)) [
      | inl passes ↦
          rw (passes, exec)
            (find_row-execute_ne q (transfer_key t) w.rows λ e. named (ap PacketKey.chain e))
      | inr (e, failure) ↦ rw (failure, exec) refl
    ]

-- The step that checks the write ack's finality changes nothing in the row of a transfer whose
-- chain id is not empty, also where it sets the finalized time in memory.
pub process-leaves_row :
    (offset : Option ℕ) (env : Environment) (t : Transfer) (w : World)
    → t.source_chain_id ≢ ""
    → find_row (transfer_key t) (process offset env t w).0.rows ≡ find_row (transfer_key t) w.rows
unfolding process
process-leaves_row offset env t w named =
    let k = transfer_key t in
    asked-SameRow k w _ _ λ client. given-SameRow k w _ _ _ λ hash.
      asked-SameRow k w _ _ λ finalized.
        branch-SameRow k w _ _ _ refl
          (branch-SameRow k w _ _ _ refl (updated-SameRow env t w named))
