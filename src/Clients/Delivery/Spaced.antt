-- ===== src/Clients/Delivery/Spaced.antt =====
-- The delay between the submissions of a bridge client, over any sequence of calls of `DeliverTx`
-- (shared/bridges/ibcv2/cosmos_bridge_client.go and evm_bridge_client.go).
use platform_relayer.Common.{
  ℕ, ◌≡◌, refl, ◌+◌, ◌≤◌, Bool, true, false, List, [], ◌∷◌, arith, if◌then◌else◌, String, subst,
}
use platform_relayer.Db.{Time}
use platform_relayer.Errors.{Result, ok, err, sentinel, canceled}
use platform_relayer.Bridge.{BridgeTx}
use platform_relayer.Clients.Cosmos.{CosmosBridgeClient}
use platform_relayer.Clients.Cosmos.Submit
use platform_relayer.Clients.Evm.{EvmBridgeClient}
use platform_relayer.Clients.Evm.Submit as EvmSubmit
use platform_relayer.Clients.Delivery.{
  Call, Outcome, submission_start, submission_end, sent_tx, cosmos_outcome, cosmos_submit,
  cosmos_deliver_tx, evm_outcome, evm_deliver_tx,
}

-- A call of `DeliverTx`: its time and its bytes.
pub record Job : Type 0 where
  pub call : Call
  pub bz : List ℕ
  pub address : String

-- The start and the end of a submission.
pub record Slot : Type 0 where
  pub start : Time
  pub end : Time

-- Each submission starts at least the delay after the one before it has ended.
abbrev pub Spaced : Time → Time → List Slot → Type 0
Spaced delay last [] = Unit
Spaced delay last (s ∷ slots) =
    (last + delay ≤ s.start) × (s.start ≤ s.end) × Spaced delay s.end slots

abbrev slot_of : Time → Time → Call → Result BridgeTx → List Slot → List Slot
slot_of last delay call (err e) rest = rest
slot_of last delay call (ok sent) rest =
    record { start = submission_start last delay call.locked; end = submission_end last delay call }
    ∷ rest

-- The submissions that succeed, in their order.
unfoldable pub cosmos_slots :
    Submit.Chain → CosmosBridgeClient → Submit.History → List Job → List Slot
cosmos_slots chain client history [] = []
cosmos_slots chain client history (j ∷ jobs) =
    let done = cosmos_deliver_tx client chain j.call j.bz history in
    slot_of client.last_submission_time client.tx_submission_delay j.call done.result
      (cosmos_slots chain done.client done.history jobs)

unfoldable pub evm_slots :
    EvmSubmit.Chain → EvmBridgeClient → EvmSubmit.History → List Job → List Slot
evm_slots chain client history [] = []
evm_slots chain client history (j ∷ jobs) =
    let done = evm_deliver_tx client chain j.call j.bz j.address history in
    slot_of client.last_submission_time client.tx_submission_delay j.call done.result
      (evm_slots chain done.client done.history jobs)

-- No call gets the lock before the time of the last submission.
unfoldable pub CosmosOrder : Submit.Chain → CosmosBridgeClient → Submit.History → List Job → Type 0
CosmosOrder chain client history [] = Unit
CosmosOrder chain client history (j ∷ jobs) =
    let done = cosmos_deliver_tx client chain j.call j.bz history in
    (client.last_submission_time ≤ j.call.locked) × CosmosOrder chain done.client done.history jobs

unfoldable pub EvmOrder : EvmSubmit.Chain → EvmBridgeClient → EvmSubmit.History → List Job → Type 0
EvmOrder chain client history [] = Unit
EvmOrder chain client history (j ∷ jobs) =
    let done = evm_deliver_tx client chain j.call j.bz j.address history in
    (client.last_submission_time ≤ j.call.locked) × EvmOrder chain done.client done.history jobs

spaced_le :
    (delay last later : Time) (slots : List Slot)
    → last ≤ later
    → Spaced delay later slots
    → Spaced delay last slots
spaced_le delay last later [] le h = tt
spaced_le delay last later (s ∷ slots) le (a, b, h) = (omega (arith, le, a), b, h)

-- What one call does to the time of the last submission, by its result.
abbrev Advances : Time → Time → Call → Result BridgeTx → Time → Type 0
Advances last delay call (err e) next = last ≤ call.locked → last ≤ next
Advances last delay call (ok sent) next =
    (call.cancels ≡ false) × (next ≡ submission_end last delay call)

slot-Spaced :
    (last delay next : Time) (call : Call) (r : Result BridgeTx) (rest : List Slot)
    → Advances last delay call r next
    → last ≤ call.locked
    → Spaced delay next rest
    → Spaced delay last (slot_of last delay call r rest)
unfolding submission_start submission_end
slot-Spaced last delay next call (err e) rest grows order spaced =
    spaced_le delay last next rest (grows order) spaced
slot-Spaced last delay next call (ok sent) rest (goes, end) order spaced =
    (ground arith, ground (arith, goes), subst (λ t. Spaced delay t rest) end spaced)

if_cases :
    {A : Type 0} (P : A → Type 0) (b : Bool) (x y : A)
    → (b ≡ true → P x)
    → (b ≡ false → P y)
    → P (if b then x else y)
if_cases P true x y f g = f refl
if_cases P false x y f g = g refl

-- A call that is cancelled.
canceled-Advances :
    (last delay : Time) (call : Call)
    → call.cancels ≡ true
    → last ≤ call.locked
    → last ≤ submission_end last delay call
unfolding submission_end
canceled-Advances last delay call stops le = ground (arith, stops)

-- What a call leaves: the time of the last submission, and the delay as it was.
abbrev CosmosDelivers :
    CosmosBridgeClient → Call → Outcome CosmosBridgeClient Submit.History → Type 0
CosmosDelivers client call o =
    Advances client.last_submission_time client.tx_submission_delay call o.result
      o.client.last_submission_time
    × (o.client.tx_submission_delay ≡ client.tx_submission_delay)

abbrev EvmDelivers : EvmBridgeClient → Call → Outcome EvmBridgeClient EvmSubmit.History → Type 0
EvmDelivers client call o =
    Advances client.last_submission_time client.tx_submission_delay call o.result
      o.client.last_submission_time
    × (o.client.tx_submission_delay ≡ client.tx_submission_delay)

abbrev end_of_cosmos : CosmosBridgeClient → Call → Time
end_of_cosmos client call =
    submission_end client.last_submission_time client.tx_submission_delay call

abbrev end_of_evm : EvmBridgeClient → Call → Time
end_of_evm client call = submission_end client.last_submission_time client.tx_submission_delay call

cosmos_outcome-Delivers :
    (client : CosmosBridgeClient) (call : Call) (history : Submit.History) (r : Result BridgeTx)
    → call.cancels ≡ false
    → CosmosDelivers client call (cosmos_outcome client (end_of_cosmos client call) history r)
cosmos_outcome-Delivers client call history (err e) goes = (λ le. omega arith, refl)
cosmos_outcome-Delivers client call history (ok sent) goes = ((goes, refl), refl)

cosmos_submit-Delivers :
    (client : CosmosBridgeClient) (chain : Submit.Chain) (call : Call) (bz : List ℕ)
    (history : Submit.History) (r : Result String)
    → call.cancels ≡ false
    → CosmosDelivers client call
        (cosmos_submit client chain bz history (end_of_cosmos client call) r)
cosmos_submit-Delivers client chain call bz history (err e) goes = (λ le. omega arith, refl)
cosmos_submit-Delivers client chain call bz history (ok address) goes =
    let sent = Submit.sign_and_submit client chain bz history in
    cosmos_outcome-Delivers client call sent.0
      (sent_tx "signing and submitting recv tx" address (end_of_cosmos client call) sent.1) goes

cosmos_deliver_tx-Delivers :
    (client : CosmosBridgeClient) (chain : Submit.Chain) (call : Call) (bz : List ℕ)
    (history : Submit.History)
    → CosmosDelivers client call (cosmos_deliver_tx client chain call bz history)
unfolding cosmos_deliver_tx
cosmos_deliver_tx-Delivers client chain call bz history =
    if_cases (CosmosDelivers client call) call.cancels
      (record {
        client = record client { last_submission_time = end_of_cosmos client call };
        history = history;
        result = err (sentinel canceled);
      })
      (cosmos_submit client chain bz history (end_of_cosmos client call)
        (chain.address client.prefix))
      (λ stops.
        (canceled-Advances client.last_submission_time client.tx_submission_delay call stops, refl))
      (cosmos_submit-Delivers client chain call bz history (chain.address client.prefix))

evm_outcome-Delivers :
    (client : EvmBridgeClient) (call : Call) (r : EvmSubmit.History × Result String)
    → call.cancels ≡ false
    → EvmDelivers client call (evm_outcome client (end_of_evm client call) r)
evm_outcome-Delivers client call (history, err e) goes = (λ le. omega arith, refl)
evm_outcome-Delivers client call (history, ok hash) goes = ((goes, refl), refl)

evm_deliver_tx-Delivers :
    (client : EvmBridgeClient) (chain : EvmSubmit.Chain) (call : Call) (bz : List ℕ)
    (address : String) (history : EvmSubmit.History)
    → EvmDelivers client call (evm_deliver_tx client chain call bz address history)
unfolding evm_deliver_tx
evm_deliver_tx-Delivers client chain call bz address history =
    if_cases (EvmDelivers client call) call.cancels
      (record {
        client = record client { last_submission_time = end_of_evm client call };
        history = history;
        result = err (sentinel canceled);
      })
      (evm_outcome client (end_of_evm client call)
        (EvmSubmit.sign_and_submit_data client chain bz address history))
      (λ stops.
        (canceled-Advances client.last_submission_time client.tx_submission_delay call stops, refl))
      (evm_outcome-Delivers client call
        (EvmSubmit.sign_and_submit_data client chain bz address history))

cosmos_slots-Spaced :
    (chain : Submit.Chain) (client : CosmosBridgeClient) (history : Submit.History)
    (jobs : List Job) (delay : Time)
    → client.tx_submission_delay ≡ delay
    → CosmosOrder chain client history jobs
    → Spaced delay client.last_submission_time (cosmos_slots chain client history jobs)
unfolding cosmos_slots CosmosOrder
cosmos_slots-Spaced chain client history [] delay same order = tt
cosmos_slots-Spaced chain client history (j ∷ jobs) delay same (first, order) =
    let done = cosmos_deliver_tx client chain j.call j.bz history in
    let (advances, kept) = cosmos_deliver_tx-Delivers client chain j.call j.bz history in
    subst
      (λ d. Spaced d client.last_submission_time (
        slot_of client.last_submission_time client.tx_submission_delay j.call done.result
          (cosmos_slots chain done.client done.history jobs)))
      same
      (slot-Spaced client.last_submission_time client.tx_submission_delay
        done.client.last_submission_time j.call done.result
        (cosmos_slots chain done.client done.history jobs) advances first
        (cosmos_slots-Spaced chain done.client done.history jobs client.tx_submission_delay kept
          order))

evm_slots-Spaced :
    (chain : EvmSubmit.Chain) (client : EvmBridgeClient) (history : EvmSubmit.History)
    (jobs : List Job) (delay : Time)
    → client.tx_submission_delay ≡ delay
    → EvmOrder chain client history jobs
    → Spaced delay client.last_submission_time (evm_slots chain client history jobs)
unfolding evm_slots EvmOrder
evm_slots-Spaced chain client history [] delay same order = tt
evm_slots-Spaced chain client history (j ∷ jobs) delay same (first, order) =
    let done = evm_deliver_tx client chain j.call j.bz j.address history in
    let (advances, kept) = evm_deliver_tx-Delivers client chain j.call j.bz j.address history in
    subst
      (λ d. Spaced d client.last_submission_time (
        slot_of client.last_submission_time client.tx_submission_delay j.call done.result
          (evm_slots chain done.client done.history jobs)))
      same
      (slot-Spaced client.last_submission_time client.tx_submission_delay
        done.client.last_submission_time j.call done.result
        (evm_slots chain done.client done.history jobs) advances first
        (evm_slots-Spaced chain done.client done.history jobs client.tx_submission_delay kept
          order))

-- Over any calls of `DeliverTx`, cancelled, failed or not, of which none gets the lock before the time
-- of the last submission, each submission of a client that succeeds starts at least the delay after
-- the one before it has ended, and the first at least the delay after the client's last one.
pub deliver_tx-Spaced :
    (cosmos_chain : Submit.Chain) (cosmos : CosmosBridgeClient) (cosmos_history : Submit.History)
    (evm_chain : EvmSubmit.Chain) (evm : EvmBridgeClient) (evm_history : EvmSubmit.History)
    (jobs : List Job)
    → CosmosOrder cosmos_chain cosmos cosmos_history jobs
    → EvmOrder evm_chain evm evm_history jobs
    → Spaced cosmos.tx_submission_delay cosmos.last_submission_time
        (cosmos_slots cosmos_chain cosmos cosmos_history jobs)
      × Spaced evm.tx_submission_delay evm.last_submission_time
          (evm_slots evm_chain evm evm_history jobs)
deliver_tx-Spaced cosmos_chain cosmos cosmos_history evm_chain evm evm_history jobs first second = (
  cosmos_slots-Spaced cosmos_chain cosmos cosmos_history jobs cosmos.tx_submission_delay refl first,
  evm_slots-Spaced evm_chain evm evm_history jobs evm.tx_submission_delay refl second,
)
