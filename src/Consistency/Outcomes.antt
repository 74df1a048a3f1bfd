-- ===== src/Consistency/Outcomes.antt =====
-- What holds if a call of the relayer succeeds, where each of its errors has a text, and one rule for each way to go on.
use platform_relayer.Common.{
  String, ◌≡◌, refl, Option, none, some, Option-cases, inl, inr, Bool, true, false,
}
use platform_relayer.Errors.{Error, Result, ok, err, wrap, has_text}
use platform_relayer.Db.{Query, execute}
use platform_relayer.Bridge.{
  World, Environment, M, branch, bind_result, wrap_outcome, or_fail, exec,
}

pub data Outcome {A : Type 0} (P : World → A → Type 0) : World × Result A → Type 0 where
  returned : {w : World} {a : A} → P w a → Outcome P (w, ok a)
  failed : {w : World} {e : Error} → has_text e ≡ true → Outcome P (w, err e)

-- The inversion: what is known of a call that returned.
pub of_Outcome :
    {A : Type 0} {P : World → A → Type 0} {w : World} {a : A} → Outcome P (w, ok a) → P w a
of_Outcome (returned h) = h

module _ {A B : Type 0} {P : World → B → Type 0} (w : World) where
  pub ask_rule :
      (text : String) (r : Result A) (f : A → M B)
      → ((a : A) → r ≡ ok a → Outcome P (f a w))
      → Outcome P (bind_result (w, wrap text r) f)
  unfolding bind_result
  ask_rule text (ok a) f h = h a refl
  ask_rule text (err e) f h = failed refl

  pub or_fail_rule :
      (text : String) (o : Option A) (f : A → M B)
      → ((a : A) → o ≡ some a → Outcome P (f a w))
      → Outcome P (bind_result (or_fail text o w) f)
  unfolding bind_result or_fail
  or_fail_rule text none f h = failed refl
  or_fail_rule text (some a) f h = h a refl

module _ {B : Type 0} {P : World → B → Type 0} (w : World) (env : Environment) where
  pub exec_rule :
      (text : String) (q : Query) (f : Unit {0} → M B)
      → Outcome P (f tt (record w { rows = execute q w.rows }))
      → Outcome P (bind_result (wrap_outcome text (exec env q w)) f)
  unfolding exec bind_result wrap_outcome
  exec_rule text q f h = elim (Option-cases (env.query_error q)) [
    | inl passes ↦ rw (passes, exec) h
    | inr (e, failure) ↦ rw (failure, exec) (failed refl)
  ]

-- A branch of the code on a test.
pub branch_rule :
    {A : Type 0} {P : World → A → Type 0} (w : World) (b : Bool) (x y : M A)
    → (b ≡ true → Outcome P (x w))
    → (b ≡ false → Outcome P (y w))
    → Outcome P (branch b x y w)
unfolding branch
branch_rule w true x y hx hy = hx refl
branch_rule w false x y hx hy = hy refl
