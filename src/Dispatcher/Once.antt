-- ===== src/Dispatcher/Once.antt =====
-- One pipeline for a route, and one place in it for a transfer.
use platform_relayer.Common.{
  ◌≡◌, refl, sym, subst, ◌∙◌, true, false, List, [], ◌∷◌, some, arith, str_eq_iff, Bool-cases,
  Option-cases, inl, inr,
}
use platform_relayer.Errors.{Result, ok, err, sentinel, Result-cases, transfer_already_in_pipeline}
use platform_relayer.Db.{PacketKey, same_packet}
use platform_relayer.Db.Laws.{eq_of_same_packet}
use platform_relayer.Transfer.{Transfer}
use platform_relayer.Config.{ChainConfig}
use platform_relayer.Pipeline.Options.{new_pipeline_opts}
use platform_relayer.Pipeline.Deduper.{
  Deduper, holds, push, new_transfer_key, holds-push_self, holds-push_ne,
}
use platform_relayer.Batch.Recv.{Route}
use platform_relayer.Dispatcher.Manager.{
  RunningPipeline, new_pipeline_key, same_route, lookup, pipeline,
}
use platform_relayer.Dispatcher.Submit.{push_to, submit_to, submit_transfer}

same_route_refl : (r : Route) → same_route r r ≡ true
unfolding same_route
same_route_refl r = ground (
  arith,
  str_eq_iff r.source_chain_id r.source_chain_id,
  str_eq_iff r.source_client_id r.source_client_id,
  str_eq_iff r.destination_chain_id r.destination_chain_id,
  str_eq_iff r.destination_client_id r.destination_client_id,
)

lookup-again :
    (chains : List ChainConfig) (t : Transfer) (before after : List RunningPipeline)
    (p : RunningPipeline)
    → pipeline chains t before ≡ (after, ok p)
    → lookup (new_pipeline_key t) after ≡ some p
unfolding pipeline lookup
lookup-again chains t before after p first =
    elim (Option-cases (lookup (new_pipeline_key t) before)) [
      | inr (found, e) ↦ ground (arith, e)
      | inl missing ↦ elim (Result-cases (new_pipeline_opts chains t)) [
        | inl (options, made) ↦ ground (arith, missing, made, same_route_refl (new_pipeline_key t))
        | inr (e, failure) ↦ absurd (ground (arith, missing, failure))
      ]
    ]

-- After the manager has returned a pipeline, it returns that same one for every transfer of the
-- route, and makes no other.
pub pipeline-again :
    (chains : List ChainConfig) (t u : Transfer) (before after : List RunningPipeline)
    (p : RunningPipeline)
    → pipeline chains t before ≡ (after, ok p)
    → new_pipeline_key u ≡ new_pipeline_key t
    → pipeline chains u after ≡ (after, ok p)
unfolding pipeline
pipeline-again chains t u before after p first same =
    ground (arith, same, lookup-again chains t before after p first)

lookup-push_to :
    (r : Route) (k : PacketKey) (pipelines : List RunningPipeline) (p : RunningPipeline)
    → lookup r pipelines ≡ some p
    → lookup r (push_to r k pipelines) ≡ some (record p { deduper = (push k p.deduper).0 })
unfolding lookup push_to
lookup-push_to r k [] p found = absurd (ground (arith, found))
lookup-push_to r k (q ∷ pipelines) p found = elim (Bool-cases (same_route r q.route)) [
  | inl hit ↦ ground (arith, hit, found)
  | inr miss ↦ ground (arith, miss, found, lookup-push_to r k pipelines p)
]

push_to-held :
    (r : Route) (k : PacketKey) (pipelines : List RunningPipeline) (p : RunningPipeline)
    → lookup r pipelines ≡ some p
    → holds k p.deduper.in_pipeline ≡ true
    → push_to r k pipelines ≡ pipelines
unfolding lookup push_to push
push_to-held r k [] p found held = refl
push_to-held r k (q ∷ pipelines) p found held = elim (Bool-cases (same_route r q.route)) [
  | inl hit ↦ ground (arith, hit, found)
  | inr miss ↦ ground (arith, miss, found, push_to-held r k pipelines p)
]

-- The inversion of a submission that went through.
submit_transfer_ok :
    (chains : List ChainConfig) (t : Transfer) (before after : List RunningPipeline)
    → submit_transfer chains t before ≡ (after, ok tt)
    → (pipelines : List RunningPipeline) × (p : RunningPipeline) × (lookup
          (new_pipeline_key t)
          pipelines
        ≡ some p)
      × (after ≡ push_to (new_pipeline_key t) (new_transfer_key t) pipelines)
unfolding submit_transfer
submit_transfer_ok chains t before after done = elim (Result-cases (pipeline chains t before).1) [
  | inl (p, e) ↦
      let ps = (pipeline chains t before).0 in
      (ps, p, lookup-again chains t before ps p (ground (arith, e)), ground (arith, e))
  | inr (e, failure) ↦ absurd (ground (arith, failure))
]

-- The pipeline of a route is there, and its deduper holds the key.
record Held (r : Route) (k : PacketKey) (pipelines : List RunningPipeline) : Type 0 where
  running : RunningPipeline
  found : lookup r pipelines ≡ some running
  held : holds k running.deduper.in_pipeline ≡ true

same_route_sound : (r s : Route) → same_route r s ≡ true → r ≡ s
unfolding same_route
same_route_sound r s h = ground (
  arith,
  h,
  str_eq_iff r.source_chain_id s.source_chain_id,
  str_eq_iff r.source_client_id s.source_client_id,
  str_eq_iff r.destination_chain_id s.destination_chain_id,
  str_eq_iff r.destination_client_id s.destination_client_id,
)

-- A push to another pipeline leaves the one of a route alone.
lookup-push_to_ne :
    (r s : Route) (k : PacketKey) (pipelines : List RunningPipeline)
    → same_route s r ≡ false
    → lookup s (push_to r k pipelines) ≡ lookup s pipelines
unfolding lookup push_to
lookup-push_to_ne r s k [] n = refl
lookup-push_to_ne r s k (q ∷ pipelines) n = elim (Bool-cases (same_route r q.route)) [
  | inl hit ↦
      let other : same_route s q.route ≡ false =
        subst (λ u. same_route s u ≡ false) (same_route_sound r q.route hit) n in
      rw (hit, other) refl
  | inr miss ↦ rw miss (ground (arith, lookup-push_to_ne r s k pipelines n))
]

-- A push holds on to what a deduper has.
push-held :
    (j k : PacketKey) (d : Deduper)
    → holds k d.in_pipeline ≡ true
    → holds k (push j d).0.in_pipeline ≡ true
push-held j k d h = elim (Bool-cases (same_packet k j)) [
  | inl hit ↦
      subst (λ i. holds k (push i d).0.in_pipeline ≡ true) (eq_of_same_packet k j hit)
        (holds-push_self k d)
  | inr miss ↦ holds-push_ne k j d miss ∙ h
]

push_to-Held :
    (r s : Route) (j k : PacketKey) (pipelines : List RunningPipeline)
    → Held r k pipelines
    → Held r k (push_to s j pipelines)
push_to-Held r s j k pipelines h = elim (Bool-cases (same_route r s)) [
  | inl hit ↦
      subst (λ u. Held r k (push_to u j pipelines)) (same_route_sound r s hit)
        (record {
          running = record h.running { deduper = (push j h.running.deduper).0 };
          found = lookup-push_to r j pipelines h.running h.found;
          held = push-held j k h.running.deduper h.held;
        })
  | inr miss ↦ record {
    running = h.running;
    found = lookup-push_to_ne s r j pipelines miss ∙ h.found;
    held = h.held;
  }
]

pipeline-Held :
    (chains : List ChainConfig) (u : Transfer) (r : Route) (k : PacketKey)
    (pipelines : List RunningPipeline)
    → Held r k pipelines
    → Held r k (pipeline chains u pipelines).0
unfolding pipeline lookup
pipeline-Held chains u r k pipelines h =
    elim (Option-cases (lookup (new_pipeline_key u) pipelines)) [
      | inr (p, e) ↦ rw (e, pipeline) h
      | inl missing ↦ elim (Result-cases (new_pipeline_opts chains u)) [
        | inr (e, failure) ↦ rw (missing, pipeline, failure) h
        | inl (options, made) ↦ elim (Bool-cases (same_route r (new_pipeline_key u))) [
          | inl hit ↦
              absurd (ground (arith, missing, h.found, same_route_sound r (new_pipeline_key u) hit))
          | inr other ↦
              rw (missing, pipeline, made)
                (record { running = h.running; found = rw other h.found; held = h.held })
        ]
      ]
    ]

submit_transfer-Held :
    (chains : List ChainConfig) (u : Transfer) (r : Route) (k : PacketKey)
    (pipelines : List RunningPipeline)
    → Held r k pipelines
    → Held r k (submit_transfer chains u pipelines).0
unfolding submit_transfer
submit_transfer-Held chains u r k pipelines h =
    after (pipeline chains u pipelines) (pipeline-Held chains u r k pipelines h)
  where
    after :
        (o : List RunningPipeline × Result RunningPipeline)
        → Held r k o.0
        → Held r k (submit_to u o).0
    after (ps, ok p) h = push_to-Held r (new_pipeline_key u) (new_transfer_key u) k ps h
    after (ps, err e) h = h

-- Submissions one after the other.
unfoldable pub submit_all :
    List ChainConfig → List Transfer → List RunningPipeline → List RunningPipeline
submit_all chains [] pipelines = pipelines
submit_all chains (u ∷ transfers) pipelines =
    submit_all chains transfers (submit_transfer chains u pipelines).0

submit_all-Held :
    (chains : List ChainConfig) (transfers : List Transfer) (r : Route) (k : PacketKey)
    (pipelines : List RunningPipeline)
    → Held r k pipelines
    → Held r k (submit_all chains transfers pipelines)
unfolding submit_all
submit_all-Held chains [] r k pipelines h = h
submit_all-Held chains (u ∷ transfers) r k pipelines h =
    submit_all-Held chains transfers r k (submit_transfer chains u pipelines).0
      (submit_transfer-Held chains u r k pipelines h)

-- A transfer that was submitted is not taken again while nothing comes out of its pipeline, whatever
-- transfers are submitted in between: a later submission of a transfer of the same packet and route
-- changes no pipeline and returns the error that says so.
pub submit_transfer-once :
    (chains : List ChainConfig) (t again : Transfer) (transfers : List Transfer)
    (before after : List RunningPipeline)
    → submit_transfer chains t before ≡ (after, ok tt)
    → new_pipeline_key again ≡ new_pipeline_key t
    → new_transfer_key again ≡ new_transfer_key t
    → let pipelines = submit_all chains transfers after in
      submit_transfer chains again pipelines
      ≡ (pipelines, err (sentinel transfer_already_in_pipeline))
unfolding submit_transfer pipeline push
submit_transfer-once chains t again transfers before after done route key =
    let (ps, p, found, e) = submit_transfer_ok chains t before after done in
    let k = new_transfer_key t in
    let r = new_pipeline_key t in
    let start : Held r k after = subst (Held r k) (sym e) (record {
      running = record p { deduper = (push k p.deduper).0 };
      found = lookup-push_to r k ps p found;
      held = holds-push_self k p.deduper;
    }) in
    let end = submit_all-Held chains transfers r k after start in
    refused (submit_all chains transfers after) end
  where
    refused :
        (pipelines : List RunningPipeline)
        → Held (new_pipeline_key t) (new_transfer_key t) pipelines
        → submit_transfer chains again pipelines
          ≡ (pipelines, err (sentinel transfer_already_in_pipeline))
    refused pipelines h = ground (
      arith,
      route,
      key,
      h.found,
      h.held,
      push_to-held (new_pipeline_key t) (new_transfer_key t) pipelines h.running h.found h.held,
    )
