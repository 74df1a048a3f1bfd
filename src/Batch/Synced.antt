-- ===== src/Batch/Synced.antt =====
-- The updates of a batch against the transfers that they are for.
use platform_relayer.Common.{
  ℕ, ◌≡◌, sym, subst, ◌∙◌, ap, ◌≢◌, Bool, true, false, List, [], ◌∷◌, some, is_some, option_map,
  arith, Option-cases, inl, inr, if◌then◌else◌,
}
use platform_relayer.Errors.{ok}
use platform_relayer.Db.{Row, PacketKey, Query, query_key, execute, find_row}
use platform_relayer.Transfer.{Transfer, transfer_key, new_transfer}
use platform_relayer.Bridge.{Environment}
use platform_relayer.Consistency.{
  progress, stored_progress, Synced, follow, transfer_key-follow, Synced-execute, Synced-execute_ne,
}
use platform_relayer.Batch.Submit.{Memory, run_updates}

-- What holds of each pointer in a list.
abbrev pub AllIn : (ℕ → Type 0) → List ℕ → Type 0
AllIn P [] = Unit {0}
AllIn P (p ∷ batch) = P p × AllIn P batch

pub AllIn-map :
    (P Q : ℕ → Type 0) (batch : List ℕ) → ((p : ℕ) → P p → Q p) → AllIn P batch → AllIn Q batch
AllIn-map P Q [] f h = tt
AllIn-map P Q (p ∷ batch) f (first, more) = (f p first, AllIn-map P Q batch f more)

pub AllIn-zip :
    (P Q R : ℕ → Type 0) (batch : List ℕ)
    → ((p : ℕ) → P p → Q p → R p)
    → AllIn P batch
    → AllIn Q batch
    → AllIn R batch
AllIn-zip P Q R [] f h k = tt
AllIn-zip P Q R (p ∷ batch) f (a, as₁) (b, bs) = (f p a b, AllIn-zip P Q R batch f as₁ bs)

-- The transfers of the list are of other packets than the given one.
abbrev Elsewhere : PacketKey → Memory → List ℕ → Type 0
Elsewhere k memory batch = AllIn (λ p. k ≢ transfer_key (memory p)) batch

-- The transfers of the list are of packets that differ.
abbrev pub Apart : Memory → List ℕ → Type 0
Apart memory [] = Unit {0}
Apart memory (p ∷ batch) = Elsewhere (transfer_key (memory p)) memory batch × Apart memory batch

-- What a batch step makes of a transfer.
abbrev pub assigned : (Transfer → Transfer) → Transfer → Transfer
assigned assign t = if is_some t.processing_error then t else assign t

-- An update and an assignment that belong together.
pub record Matches (query : Transfer → Query) (assign : Transfer → Transfer) : Type 0 where
  pub own : (t : Transfer) → query_key (query t) ≡ transfer_key t
  pub same_key : (t : Transfer) → transfer_key (assign t) ≡ transfer_key t
  pub follows : (t : Transfer) → progress (follow (query t) t) ≡ progress (assign t)

-- Agreement depends on the key and the progress alone.
pub Synced-same :
    (rows : List Row) (t u : Transfer)
    → transfer_key u ≡ transfer_key t
    → progress u ≡ progress t
    → Synced rows t
    → Synced rows u
unfolding stored_progress
Synced-same rows t u k e s =
    ap (λ j. option_map (λ r. progress (new_transfer r)) (find_row j rows)) k
    ∙ (s ∙ ap some (sym e))

module _ (env : Environment) (query : Transfer → Query) (assign : Transfer → Transfer)
    (m : Matches query assign) where
  run_updates-Elsewhere :
      (memory : Memory) (batch : List ℕ) (t : Transfer) (rows rows' : List Row)
      → run_updates env query memory batch rows ≡ ok rows'
      → Elsewhere (transfer_key t) memory batch
      → Synced rows t
      → Synced rows' t
  unfolding run_updates
  run_updates-Elsewhere memory [] t rows rows' run far s =
      let same : rows ≡ rows' = ground (arith, run) in subst (λ l. Synced l t) same s
  run_updates-Elsewhere memory (p ∷ batch) t rows rows' run (far, more) s =
      elim (Option-cases (memory p).processing_error) [
        | inr (e, errored) ↦
            run_updates-Elsewhere memory batch t rows rows' (ground (arith, errored, run)) more s
        | inl quiet ↦ elim (Option-cases (env.query_error (query (memory p)))) [
          | inr (e, failure) ↦ absurd (ground (arith, quiet, failure))
          | inl passes ↦
              run_updates-Elsewhere memory batch t (execute (query (memory p)) rows) rows'
                (ground (arith, quiet, passes)) more
                (Synced-execute_ne (query (memory p)) rows t (λ e. far (e ∙ m.own (memory p))) s)
        ]
      ]

  -- The update of a transfer's own row leaves it as it is assigned.
  updated :
      (t : Transfer) (rows : List Row) → Synced rows t → Synced (execute (query t) rows) (assign t)
  updated t rows s =
      Synced-same (execute (query t) rows) (follow (query t) t) (assign t)
        (m.same_key t ∙ sym (transfer_key-follow (query t) t)) (sym (m.follows t))
        (Synced-execute (query t) rows t (m.own t) s)

  chosen :
      (rows : List Row) (t : Transfer) (b : Bool)
      → is_some t.processing_error ≡ b
      → Synced rows (if b then t else assign t)
      → Synced rows (assigned assign t)
  chosen rows t b e s = subst (λ c. Synced rows (if c then t else assign t)) (sym e) s

  -- Each transfer that agreed with its row before the updates of a batch, of packets that differ,
  -- agrees with it as it is assigned after them.
  pub run_updates-Synced :
      (memory : Memory) (batch : List ℕ) (rows rows' : List Row)
      → run_updates env query memory batch rows ≡ ok rows'
      → Apart memory batch
      → AllIn (λ p. Synced rows (memory p)) batch
      → AllIn (λ p. Synced rows' (assigned assign (memory p))) batch
  unfolding run_updates
  run_updates-Synced memory [] rows rows' run apart s = tt
  run_updates-Synced memory (p ∷ batch) rows rows' run (far, apart) (first, more) =
      elim (Option-cases (memory p).processing_error) [
        | inr (e, errored) ↦
            let rest : run_updates env query memory batch rows ≡ ok rows' =
              ground (arith, errored, run) in
            (
              chosen rows' (memory p) true (ap is_some errored)
                  (run_updates-Elsewhere memory batch (memory p) rows rows' rest far first),
              run_updates-Synced memory batch rows rows' rest apart more,
            )
        | inl quiet ↦ elim (Option-cases (env.query_error (query (memory p)))) [
          | inr (e, failure) ↦ absurd (ground (arith, quiet, failure))
          | inl passes ↦
              let q = query (memory p) in
              let rest : run_updates env query memory batch (execute q rows) ≡ ok rows' =
                ground (arith, quiet, passes) in
              (
                chosen rows' (memory p) false (ap is_some quiet) (
                    run_updates-Elsewhere memory batch (assign (memory p)) (execute q rows) rows'
                      rest
                      (AllIn-map _ _ batch (λ r ne e. ne (sym (m.same_key (memory p)) ∙ e)) far)
                      (updated (memory p) rows first)),
                run_updates-Synced memory batch (execute q rows) rows' rest apart (
                    AllIn-zip _ _ _ batch
                      (λ r ne s.
                        Synced-execute_ne q rows (memory r) (λ e. ne (sym (e ∙ m.own (memory p))))
                          s)
                      far more),
              )
        ]
      ]
