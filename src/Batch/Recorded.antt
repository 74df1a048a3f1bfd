-- ===== src/Batch/Recorded.antt =====
-- What a batch submission does to the chains, to the table and to the transfers.
use platform_relayer.Common.{
  ℕ, ◌≡◌, refl, sym, ap, ◌∙◌, ◌⊎◌, inl, inr, String, Bool, true, false, List, Option-cases,
}
use platform_relayer.Errors.{Error, Result, ok, err, wrap, joined, Result-cases}
use platform_relayer.Db.{Row, Query}
use platform_relayer.Transfer.{Transfer}
use platform_relayer.Bridge.{
  ◌>>◌, context, return, BridgeTx, BridgeClient, RelayByTxRequest, RelayByTxResponse, landed, World,
  Environment, bind_result, wrap_outcome, branch, deliver, get_client, is_evm,
}
use platform_relayer.Batch.Submit.{Memory, submit, run_updates, exec_tx, submit_and_record}

-- One call of `DeliverTx` of the chain's client, with what the relay service gave for the request, and
-- the txs that it brought onto the chain.
pub record Called (env : Environment) (chain : String) (request : RelayByTxRequest) (w w' : World)
    (result : Result BridgeTx) : Type 0 where
  pub response : RelayByTxResponse
  pub client : BridgeClient
  pub relayed : env.relay_by_tx request ≡ ok response
  pub found : get_client env chain ≡ ok client
  pub answered : client.deliver_tx response.tx response.address ≡ result
  pub delivered :
      w'.delivered
      ≡ landed chain response.address (client.lands response.tx response.address) w.delivered

-- A submission that failed wrote nothing to the table, and called `DeliverTx` at most once.
abbrev pub Unrecorded : Environment → String → RelayByTxRequest → World → World → Type 0
Unrecorded env chain request w w' =
    (w'.rows ≡ w.rows)
    × ((w'.delivered ≡ w.delivered) ⊎ ((r : Result BridgeTx) × Called env chain request w w' r))

-- A submission that succeeded called `DeliverTx` once, and its updates of the table all went through.
abbrev pub Submitted :
    Environment
    → String
    → RelayByTxRequest
    → (BridgeTx → List Row → Result (List Row))
    → World
    → World × Result BridgeTx
    → Type 0
Submitted env chain request updates w (w', ok tx) =
    Called env chain request w w' (ok tx) × (updates tx w.rows ≡ ok w'.rows)
Submitted env chain request updates w (w', err e) = Unrecorded env chain request w w'

-- What a delivery ends in: nothing happened, or the one call was made.
abbrev Delivers : Environment → String → RelayByTxRequest → World → World × Result BridgeTx → Type 0
Delivers env chain request w (w', ok tx) =
    (w'.rows ≡ w.rows) × Called env chain request w w' (ok tx)
Delivers env chain request w (w', err e) = Unrecorded env chain request w w'

module _ (env : Environment) (chain : String) (request : RelayByTxRequest) (w : World) where
  deliver-Delivers :
      (text : String) (response : RelayByTxResponse) (client : BridgeClient)
      → env.relay_by_tx request ≡ ok response
      → get_client env chain ≡ ok client
      → Delivers env chain request w
          (wrap_outcome text (deliver chain client response.tx response.address w))
  unfolding deliver wrap_outcome
  deliver-Delivers text response client relayed found =
      answer (client.deliver_tx response.tx response.address) refl
    where
      w' : World
      w' = record w {
        delivered =
            landed chain response.address (client.lands response.tx response.address) w.delivered;
      }

      called :
          (r : Result BridgeTx)
          → client.deliver_tx response.tx response.address ≡ r
          → Called env chain request w w' r
      called r same = record {
        response = response;
        client = client;
        relayed = relayed;
        found = found;
        answered = same;
        delivered = refl;
      }

      answer :
          (r : Result BridgeTx)
          → client.deliver_tx response.tx response.address ≡ r
          → Delivers env chain request w (w', wrap text r)
      answer (ok tx) same = (refl, called (ok tx) same)
      answer (err e) same = (refl, inr (err e, called (err e) same))

  waited-Delivers :
      (b : Bool) (r : Result (Unit {0})) (f : Unit {0} → World → World × Result BridgeTx)
      → Delivers env chain request w (f tt w)
      → Delivers env chain request w (bind_result (branch b (λ v. (v, r)) (λ v. (v, ok tt)) w) f)
  unfolding branch bind_result
  waited-Delivers true (ok tt) f h = h
  waited-Delivers true (err e) f h = (refl, inl refl)
  waited-Delivers false r f h = h

  asked-Delivers :
      {A : Type 0} (text : String) (r : Result A) (f : A → World → World × Result BridgeTx)
      → ((a : A) → r ≡ ok a → Delivers env chain request w (f a w))
      → Delivers env chain request w (bind_result (w, wrap text r) f)
  unfolding bind_result
  asked-Delivers text (ok a) f h = h a refl
  asked-Delivers text (err e) f h = (refl, inl refl)

  submit-Delivers : Delivers env chain request w (submit env chain request w)
  unfolding submit
  submit-Delivers = asked-Delivers _ (env.relay_by_tx request) _ λ response relayed.
      asked-Delivers _ (get_client env chain) _ λ client found.
        waited-Delivers (is_evm client.chain_type) (wrap "waiting for chain" client.wait_for_chain)
          _ (deliver-Delivers _ response client relayed found)

-- A transaction leaves the world alone, or all its updates go through.
exec_tx-Done :
    (env : Environment) (updates : List Row → Result (List Row)) (w : World)
    → ((e : Error) × (exec_tx env updates w ≡ (w, err e)))
      ⊎ ((rows : List Row) × (updates w.rows ≡ ok rows)
          × (exec_tx env updates w ≡ (record w { rows = rows }, ok tt)))
unfolding exec_tx
exec_tx-Done env updates w = elim (Option-cases env.begin_error) [
  | inr (e, failure) ↦ inl (e, rw (failure, exec_tx) refl)
  | inl begun ↦ elim (Result-cases (updates w.rows)) [
    | inr (e, failure) ↦ elim (Option-cases env.rollback_error) [
      | inl clean ↦ inl (e, rw (begun, exec_tx, failure, clean) refl)
      | inr (rb, worse) ↦ inl (joined e rb, rw (begun, exec_tx, failure, worse) refl)
    ]
    | inl (rows, all) ↦ elim (Option-cases env.commit_error) [
      | inl done ↦ inr (rows, all, rw (begun, exec_tx, all, done) refl)
      | inr (e, failure) ↦ inl (e, rw (begun, exec_tx, all, failure) refl)
    ]
  ]
]

module _ (env : Environment) (chain : String) (request : RelayByTxRequest)
    (query : BridgeTx → Transfer → Query) (memory : Memory) (batch : List ℕ) (w : World) where
  abbrev updates : BridgeTx → List Row → Result (List Row)
  updates tx = run_updates env (query tx) memory batch

  recorded :
      (text : String) (tx : BridgeTx) (w' : World)
      → w'.rows ≡ w.rows
      → Called env chain request w w' (ok tx)
      → Submitted env chain request updates w
          (bind_result (wrap_outcome text (exec_tx env (updates tx) w')) (λ _ v. (v, ok tx)))
  unfolding bind_result wrap_outcome
  recorded text tx w' kept called = elim (exec_tx-Done env (updates tx) w') [
    | inl (e, same) ↦ rw same (kept, inr (ok tx, called))
    | inr (rows, all, same) ↦ rw same (written rows called, sym (ap (updates tx) kept) ∙ all)
  ]
    where
      written :
          (rows : List Row)
          → Called env chain request w w' (ok tx)
          → Called env chain request w (record w' { rows = rows }) (ok tx)
      written rows c = record {
        response = c.response;
        client = c.client;
        relayed = c.relayed;
        found = c.found;
        answered = c.answered;
        delivered = c.delivered;
      }

  -- Every submission of a batch: on success `DeliverTx` of the chain's client is called exactly once,
  -- with the tx and the address that the relay service gave for the request, and all updates of the
  -- batch are in the table, for the tx that the call returned; on an error the table is as before and
  -- that call is made at most once. What the chain has more is what the call brought onto it.
  pub submit_and_record-Submitted :
      Submitted env chain request updates w
        (submit_and_record env chain request query memory batch w)
  unfolding submit_and_record bind_result
  submit_and_record-Submitted =
      after (submit env chain request w) (submit-Delivers env chain request w)
    where
      after :
          (o : World × Result BridgeTx)
          → Delivers env chain request w o
          → Submitted env chain request updates w (
              bind_result o λ tx.
                context "updating batch transfers txs" (exec_tx env (updates tx)) >> return tx)
      after (w', ok tx) (kept, called) = recorded _ tx w' kept called
      after (w', err e) failure = failure
