-- ===== src/Batch/Edges.antt =====
-- What a batch step does with no transfer, and with transfers that carry errors; and that its
-- errors have a text.
use platform_relayer.Common.{ℕ, ◌≡◌, refl, String, Bool, true, false, List, arith}
use platform_relayer.Errors.{Result, ok, err, wrap}
use platform_relayer.Db.{Query}
use platform_relayer.Transfer.{Transfer, has_errored}
use platform_relayer.Bridge.{
  BridgeTx, RelayByTxRequest, World, Environment, M, bind_result, wrap_outcome, branch, is_evm,
}
use platform_relayer.Consistency.Outcomes.{Outcome, returned, failed, ask_rule}
use platform_relayer.Batch.Submit.{Memory, Gathered, submit, submit_and_record}
use platform_relayer.Batch.Recv
use platform_relayer.Batch.Ack

-- Anything, or an error with a text.
abbrev pub Texted : {A : Type 0} → World × Result A → Type 0
Texted o = Outcome (λ w a. Unit {0}) o

context-Texted :
    {A B : Type 0} (text : String) (o : World × Result A) (f : A → M B)
    → ((a : A) (w : World) → Texted (f a w))
    → Texted (bind_result (wrap_outcome text o) f)
unfolding bind_result wrap_outcome
context-Texted text (w, ok a) f h = h a w
context-Texted text (w, err e) f h = failed refl

last-Texted : {A : Type 0} (text : String) (o : World × Result A) → Texted (wrap_outcome text o)
unfolding wrap_outcome
last-Texted text (w, ok a) = returned tt
last-Texted text (w, err e) = failed refl

bind-Texted :
    {A B : Type 0} (o : World × Result A) (f : A → M B)
    → Texted o
    → ((a : A) (w : World) → Texted (f a w))
    → Texted (bind_result o f)
unfolding bind_result
bind-Texted (w, ok a) f h k = k a w
bind-Texted (w, err e) f (failed text) k = failed text

wait-Texted :
    (b : Bool) (text : String) (r : Result (Unit {0})) (w : World)
    → Texted (branch b (λ v. (v, wrap text r)) (λ v. (v, ok tt)) w)
unfolding branch
wait-Texted true text (ok done) w = returned tt
wait-Texted true text (err e) w = failed refl
wait-Texted false text r w = returned tt

submit-Texted :
    (env : Environment) (chain : String) (request : RelayByTxRequest) (w : World)
    → Texted (submit env chain request w)
unfolding submit
submit-Texted env chain request w = ask_rule w _ _ _ λ response _. ask_rule w _ _ _ λ client _.
    bind-Texted _ _ (wait-Texted (is_evm client.chain_type) _ client.wait_for_chain w)
      (λ done v. last-Texted _ _)

pub submit_and_record-Texted :
    (env : Environment) (chain : String) (request : RelayByTxRequest)
    (query : BridgeTx → Transfer → Query) (memory : Memory) (batch : List ℕ) (w : World)
    → Texted (submit_and_record env chain request query memory batch w)
unfolding submit_and_record
submit_and_record-Texted env chain request query memory batch w =
    bind-Texted _ _ (submit-Texted env chain request w)
      (λ tx v. context-Texted _ _ _ (λ done u. returned tt))

pub recv_add-has_errored :
    (g : Gathered) (p q : ℕ)
    → has_errored (g.memory q) ≡ true
    → has_errored ((Recv.add_transfer g p).memory q) ≡ true
unfolding Recv.add_transfer has_errored
recv_add-has_errored g p q h = ground (arith, h)

pub ack_add-has_errored :
    (g : Gathered) (p q : ℕ)
    → has_errored (g.memory q) ≡ true
    → has_errored ((Ack.add_transfer g p).memory q) ≡ true
unfolding Ack.add_transfer has_errored
ack_add-has_errored g p q h = ground (arith, h)
