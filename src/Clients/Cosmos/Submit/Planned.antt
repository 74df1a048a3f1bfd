-- ===== src/Clients/Cosmos/Submit/Planned.antt =====
-- In which txs `signAndSubmit` of shared/bridges/ibcv2/cosmos_bridge_client.go puts the messages of
-- a tx.
use mathlib.Core.List.{cons-ne-nil, append_assoc}
use platform_relayer.Common.{
  ℕ, ◌≡◌, refl, ◌+◌, Bool, true, false, List, [], ◌∷◌, ◌++◌, ltb, if◌then◌else◌, inl, inr, arith,
  ◌≢◌, Bool-cases, ap, ◌∙◌, sym, ◌==◌, String, subst,
}
use platform_relayer.Errors.{Result, ok, err}
use platform_relayer.Clients.Cosmos.{CosmosBridgeClient}
use platform_relayer.Clients.Cosmos.Submit.{
  SdkMsg, History, Chain, BroadcastResult, is_update, prepare, broadcast, after_broadcast,
  sign_and_submit_messages, client_updates, after_update, keep, submit_updates, submit_rest,
  submit_all, unpack_body, submit_unpacked, sign_and_submit,
}

-- Each update by itself.
unfoldable pub updates : List SdkMsg → List (List SdkMsg)
updates [] = []
updates (m ∷ msgs) = let rest = updates msgs in if is_update m then (m ∷ []) ∷ rest else rest

unfoldable pub others : List SdkMsg → List SdkMsg
others [] = []
others (m ∷ msgs) = let rest = others msgs in if is_update m then rest else m ∷ rest

-- The txs that the messages are to be put in, in this order: one tx for all, or with more than one
-- client update one tx for each update and then one for the other messages.
unfoldable pub plan : List SdkMsg → List (List SdkMsg)
unfolding updates others client_updates
plan msgs = if ltb 1 (client_updates msgs) then updates msgs ++ (others msgs ∷ []) else msgs ∷ []

-- The history after these txs were taken, the first one first.
unfoldable pub take_on : List (List SdkMsg) → History → History
take_on [] history = history
take_on (tx ∷ txs) history = take_on txs (tx ∷ history)

-- The node took a part of the txs, from the first on, and not all.
pub record Stopped (txs : List (List SdkMsg)) (before after : History) : Type 0 where
  pub accepted : List (List SdkMsg)
  pub rest : List (List SdkMsg)
  pub not_all : rest ≢ []
  pub parts : accepted ++ rest ≡ txs
  pub after_lem : after ≡ take_on accepted before

-- On success the node took all of the txs in their order, on an error the first of them at most.
abbrev pub Follows : {A : Type 0} → List (List SdkMsg) → History → History × Result A → Type 0
Follows txs before (after, ok a) = after ≡ take_on txs before
Follows txs before (after, err e) = Stopped txs before after

Stopped-first :
    (tx : List SdkMsg) (txs : List (List SdkMsg)) (history : History)
    → Stopped (tx ∷ txs) history history
unfolding take_on
Stopped-first tx txs history = record {
  accepted = [];
  rest = tx ∷ txs;
  not_all = cons-ne-nil tx txs;
  parts = refl;
  after_lem = refl;
}

Stopped-later :
    (tx : List SdkMsg) {txs : List (List SdkMsg)} {history after : History}
    → Stopped txs (tx ∷ history) after
    → Stopped (tx ∷ txs) history after
unfolding take_on
Stopped-later tx h = record {
  accepted = tx ∷ h.accepted;
  rest = h.rest;
  not_all = h.not_all;
  parts = ap (λ l. tx ∷ l) h.parts;
  after_lem = h.after_lem;
}

after_broadcast-Follows :
    (msgs : List SdkMsg) (history : History) (r : Result BroadcastResult)
    → Follows (msgs ∷ []) history (after_broadcast msgs history r)
unfolding take_on
after_broadcast-Follows msgs history (err e) = Stopped-first msgs [] history
after_broadcast-Follows msgs history (ok result) = elim (Bool-cases (result.code == 0)) [
  | inl taken ↦ rw taken refl
  | inr refused ↦ rw refused (Stopped-first msgs [] history)
]

broadcast-Follows :
    (chain : Chain) (msgs : List SdkMsg) (history : History) (r : Result (List ℕ))
    → Follows (msgs ∷ []) history (broadcast chain msgs history r)
broadcast-Follows chain msgs history (err e) = Stopped-first msgs [] history
broadcast-Follows chain msgs history (ok bytes) =
    after_broadcast-Follows msgs history (chain.broadcast_tx_sync history bytes)

submit-Follows :
    (client : CosmosBridgeClient) (chain : Chain) (msgs : List SdkMsg) (history : History)
    → Follows (msgs ∷ []) history (sign_and_submit_messages client chain msgs history)
unfolding sign_and_submit_messages
submit-Follows client chain msgs history =
    broadcast-Follows chain msgs history (prepare client chain history msgs)

-- What the loop over the updates leaves: the other messages, all updates taken; or it stopped.
abbrev Updated : List SdkMsg → History → History × Result (List SdkMsg) → Type 0
Updated msgs before (after, ok rest) =
    (after ≡ take_on (updates msgs) before) × (rest ≡ others msgs)
Updated msgs before (after, err e) = Stopped (updates msgs) before after

keep-Updated :
    (m : SdkMsg) (msgs : List SdkMsg) (history : History) (r : History × Result (List SdkMsg))
    → is_update m ≡ false
    → Updated msgs history r
    → Updated (m ∷ msgs) history (keep m r)
unfolding updates others
keep-Updated m msgs history (after, ok rest) h u = rw h (u.0, ap (λ l. m ∷ l) u.1)
keep-Updated m msgs history (after, err e) h u = rw h u

Stopped-more :
    {txs : List (List SdkMsg)} {history after : History} (more : List (List SdkMsg))
    → Stopped txs history after
    → Stopped (txs ++ more) history after
Stopped-more more h = record {
  accepted = h.accepted;
  rest = h.rest ++ more;
  not_all = append-ne-nil_of_left h.rest more h.not_all;
  parts = sym (append_assoc h.accepted h.rest more) ∙ ap (λ l. l ++ more) h.parts;
  after_lem = h.after_lem;
}
  where
    append-ne-nil_of_left : (l more : List (List SdkMsg)) → l ≢ [] → l ++ more ≢ []
    append-ne-nil_of_left [] more ne = absurd (ne refl)
    append-ne-nil_of_left (x ∷ l) more ne = cons-ne-nil x (l ++ more)

later-Updated :
    (m : SdkMsg) (msgs : List SdkMsg) (history : History) (r : History × Result (List SdkMsg))
    → is_update m ≡ true
    → Updated msgs ((m ∷ []) ∷ history) r
    → Updated (m ∷ msgs) history r
unfolding updates others take_on
later-Updated m msgs history (after, ok rest) h u = rw h u
later-Updated m msgs history (after, err e) h u = rw h (Stopped-later (m ∷ []) u)

after_update-Updated :
    (m : SdkMsg) (msgs : List SdkMsg) (history : History) (r : History × Result String)
    (next : History → History × Result (List SdkMsg))
    → is_update m ≡ true
    → Follows ((m ∷ []) ∷ []) history r
    → ((h : History) → Updated msgs h (next h))
    → Updated (m ∷ msgs) history (after_update next r)
unfolding updates take_on
after_update-Updated m msgs history (after, ok hash) next h f u =
    later-Updated m msgs history (next after) h
      (subst (λ h'. Updated msgs h' (next after)) f (u after))
after_update-Updated m msgs history (after, err e) next h f u = rw h (Stopped-more (updates msgs) f)

submit_updates_update :
    (client : CosmosBridgeClient) (chain : Chain) (m : SdkMsg) (msgs : List SdkMsg)
    (history : History)
    → is_update m ≡ true
    → submit_updates client chain (m ∷ msgs) history
      ≡ after_update
          (submit_updates client chain msgs)
          (sign_and_submit_messages client chain (m ∷ []) history)
unfolding submit_updates
submit_updates_update client chain m msgs history h = rw (h, submit_updates) refl

submit_updates_other :
    (client : CosmosBridgeClient) (chain : Chain) (m : SdkMsg) (msgs : List SdkMsg)
    (history : History)
    → is_update m ≡ false
    → submit_updates client chain (m ∷ msgs) history
      ≡ keep m (submit_updates client chain msgs history)
unfolding submit_updates
submit_updates_other client chain m msgs history h = rw (h, submit_updates) refl

submit_updates-Updated :
    (client : CosmosBridgeClient) (chain : Chain) (msgs : List SdkMsg) (history : History)
    → Updated msgs history (submit_updates client chain msgs history)
unfolding submit_updates updates others take_on
submit_updates-Updated client chain [] history = (refl, refl)
submit_updates-Updated client chain (m ∷ msgs) history = elim (Bool-cases (is_update m)) [
  | inl update ↦
      subst (λ r. Updated (m ∷ msgs) history r)
        (sym (submit_updates_update client chain m msgs history update))
        (after_update-Updated m msgs history
          (sign_and_submit_messages client chain (m ∷ []) history)
          (submit_updates client chain msgs) update (submit-Follows client chain (m ∷ []) history)
          (submit_updates-Updated client chain msgs))
  | inr another ↦
      subst (λ r. Updated (m ∷ msgs) history r)
        (sym (submit_updates_other client chain m msgs history another))
        (keep-Updated m msgs history (submit_updates client chain msgs history) another
          (submit_updates-Updated client chain msgs history))
]

take_on-append :
    (txs more : List (List SdkMsg)) (history : History)
    → take_on (txs ++ more) history ≡ take_on more (take_on txs history)
unfolding take_on
take_on-append [] more history = refl
take_on-append (tx ∷ txs) more history = take_on-append txs more (tx ∷ history)

-- One more tx after those that were taken.
after-Follows :
    (txs : List (List SdkMsg)) (tx : List SdkMsg) (before after : History)
    (r : History × Result String)
    → after ≡ take_on txs before
    → Follows (tx ∷ []) after r
    → Follows (txs ++ (tx ∷ [])) before r
after-Follows txs tx before after (last, ok hash) taken f =
    f ∙ ap (take_on (tx ∷ [])) taken ∙ sym (take_on-append txs (tx ∷ []) before)
after-Follows txs tx before after (last, err e) taken f = record {
  accepted = txs ++ f.accepted;
  rest = f.rest;
  not_all = f.not_all;
  parts = append_assoc txs f.accepted f.rest ∙ ap (λ l. txs ++ l) f.parts;
  after_lem =
      f.after_lem ∙ ap (take_on f.accepted) taken ∙ sym (take_on-append txs f.accepted before);
}

submit_rest-Follows :
    (client : CosmosBridgeClient) (chain : Chain) (msgs : List SdkMsg) (history : History)
    (r : History × Result (List SdkMsg))
    → Updated msgs history r
    → Follows
        (updates msgs ++ (others msgs ∷ []))
        history
        (submit_rest (sign_and_submit_messages client chain) r)
submit_rest-Follows client chain msgs history (after, ok rest) (taken, rest_lem) = rw rest_lem (
    after-Follows (updates msgs) (others msgs) history after
      (sign_and_submit_messages client chain (others msgs) after) taken
      (submit-Follows client chain (others msgs) after))
submit_rest-Follows client chain msgs history (after, err e) h = Stopped-more (others msgs ∷ []) h

submit_all-Follows :
    (client : CosmosBridgeClient) (chain : Chain) (msgs : List SdkMsg) (history : History)
    → Follows (plan msgs) history (submit_all client chain msgs history)
unfolding submit_all plan
submit_all-Follows client chain msgs history = elim (Bool-cases (ltb 1 (client_updates msgs))) [
  | inl several ↦
      subst
        (λ (b : Bool).
          Follows (if b then updates msgs ++ (others msgs ∷ []) else msgs ∷ []) history (
            if b
            then submit_rest (sign_and_submit_messages client chain)
                (submit_updates client chain msgs history)
            else sign_and_submit_messages client chain msgs history))
        (sym several)
        (submit_rest-Follows client chain msgs history (submit_updates client chain msgs history)
          (submit_updates-Updated client chain msgs history))
  | inr few ↦
      subst
        (λ (b : Bool).
          Follows (if b then updates msgs ++ (others msgs ∷ []) else msgs ∷ []) history (
            if b
            then submit_rest (sign_and_submit_messages client chain)
                (submit_updates client chain msgs history)
            else sign_and_submit_messages client chain msgs history))
        (sym few) (submit-Follows client chain msgs history)
]

-- How many messages of some txs pass a test.
abbrev pub count_msgs : (SdkMsg → Bool) → List SdkMsg → ℕ
count_msgs test [] = 0
count_msgs test (m ∷ msgs) = (if test m then 1 else 0) + count_msgs test msgs

abbrev pub count_txs : (SdkMsg → Bool) → List (List SdkMsg) → ℕ
count_txs test [] = 0
count_txs test (tx ∷ txs) = count_msgs test tx + count_txs test txs

count_txs-append :
    (test : SdkMsg → Bool) (txs more : List (List SdkMsg))
    → count_txs test (txs ++ more) ≡ count_txs test txs + count_txs test more
count_txs-append test [] more = omega arith
count_txs-append test (tx ∷ txs) more = omega (arith, count_txs-append test txs more)

count-split :
    (test : SdkMsg → Bool) (msgs : List SdkMsg)
    → count_txs test (updates msgs) + count_msgs test (others msgs) ≡ count_msgs test msgs
unfolding updates others
count-split test [] = refl
count-split test (m ∷ msgs) = elim (Bool-cases (is_update m)) [
  | inl update ↦ rw update (omega (arith, count-split test msgs))
  | inr another ↦ rw another (omega (arith, count-split test msgs))
]

-- Of messages that were unpacked, each is in exactly one tx.
count-plan :
    (test : SdkMsg → Bool) (msgs : List SdkMsg) → count_txs test (plan msgs) ≡ count_msgs test msgs
unfolding plan
count-plan test msgs =
    ground (arith, count-split test msgs, count_txs-append test (updates msgs) (others msgs ∷ []))

-- Once the messages of a tx are unpacked, `signAndSubmit` puts each of them in exactly one tx, all in
-- one, or with more than one client update each update in its own and then the others in one; on
-- success the node took all of these in this order, and on an error the first of them at most.
pub sign_and_submit-planned :
    (client : CosmosBridgeClient) (chain : Chain) (bz : List ℕ) (history : History)
    (msgs : List SdkMsg)
    → unpack_body chain (chain.unmarshal_body bz) ≡ ok msgs
    → Follows (plan msgs) history (sign_and_submit client chain bz history)
      × ((test : SdkMsg → Bool) → count_txs test (plan msgs) ≡ count_msgs test msgs)
unfolding sign_and_submit
sign_and_submit-planned client chain bz history msgs h = (
  subst (λ r. Follows (plan msgs) history (submit_unpacked (submit_all client chain) history r))
      (sym h) (submit_all-Follows client chain msgs history),
  λ test. count-plan test msgs,
)
