-- ===== src/RelayerApi/Laws.antt =====
-- What a relay request leaves in the table, and what the service says of it.
use platform_relayer.Common.{
  ◌≡◌, refl, ◌∙◌, ap, ◌⊎◌, Bool, true, false, List, [], ◌∷◌, ◌++◌, is_some, Bool-cases,
  Option-cases, inl, inr, if◌then◌else◌,
}
use platform_relayer.Errors.{Error, ok, err, pg_error, Result-cases}
use platform_relayer.Db.{pending, Row, row_key, find_row}
use platform_relayer.Bridge.{PacketInfo}
use platform_relayer.Config.{get_client_counterparty_chain_id}
use platform_relayer.RelayerApi.{ApiEnvironment, duplicate_key, Submission, Store, is_incomplete}
use platform_relayer.RelayerApi.Relay.{
  new_row, insert_transfer, inserted, relay_packet, relay_packets, relay_submitted, relay,
  check_sender, insert_submission,
}

-- A row that the request itself made: it is pending and names the request's transaction.
abbrev pub MadeBy : Submission → Row → Type 0
MadeBy request r =
    (r.status ≡ pending)
    × (r.source_chain_id ≡ request.chain_id)
    × (r.source_tx_hash ≡ request.tx_hash)

abbrev pub AllMadeBy : Submission → List Row → Type 0
AllMadeBy request [] = Unit {0}
AllMadeBy request (r ∷ rows) = MadeBy request r × AllMadeBy request rows

-- The table afterwards is the table before with rows of the request added.
abbrev pub Extends : Submission → List Row → List Row → Type 0
Extends request before after = (new : List Row) × (after ≡ before ++ new) × AllMadeBy request new

append_nil : (rows : List Row) → rows ≡ rows ++ []
append_nil [] = refl
append_nil (r ∷ rows) = ap (λ x. r ∷ x) (append_nil rows)

append_assoc : (xs ys zs : List Row) → (xs ++ ys) ++ zs ≡ xs ++ (ys ++ zs)
append_assoc [] ys zs = refl
append_assoc (x ∷ xs) ys zs = ap (λ l. x ∷ l) (append_assoc xs ys zs)

AllMadeBy-append :
    (request : Submission) (xs ys : List Row)
    → AllMadeBy request xs
    → AllMadeBy request ys
    → AllMadeBy request (xs ++ ys)
AllMadeBy-append request [] ys a b = b
AllMadeBy-append request (x ∷ xs) ys (first, more) b =
    (first, AllMadeBy-append request xs ys more b)

Extends-refl : (request : Submission) (rows : List Row) → Extends request rows rows
Extends-refl request rows = ([], append_nil rows, tt)

Extends-trans :
    (request : Submission) (a b c : List Row)
    → Extends request a b
    → Extends request b c
    → Extends request a c
Extends-trans request a b c (xs, e, made) (ys, f, more) = (
  xs ++ ys,
  f ∙ ap (λ l. l ++ ys) e ∙ append_assoc a xs ys,
  AllMadeBy-append request xs ys made more,
)

-- An insertion adds the row or leaves the table.
insert_transfer-cases :
    (env : ApiEnvironment) (row : Row) (rows : List Row)
    → (insert_transfer env row rows ≡ ok (rows ++ row ∷ []))
      ⊎ ((e : Error) × (insert_transfer env row rows ≡ err e))
unfolding insert_transfer
insert_transfer-cases env row rows = elim (Option-cases (env.insert_transfer_error row)) [
  | inr (e, failure) ↦ inr (e, rw (failure, insert_transfer) refl)
  | inl passes ↦ elim (Bool-cases (is_some (find_row (row_key row) rows))) [
    | inl seen ↦ inr (pg_error duplicate_key, rw (passes, insert_transfer, seen) refl)
    | inr fresh ↦ inl (rw (passes, insert_transfer, fresh) refl)
  ]
]

module _ (env : ApiEnvironment) (request : Submission) where
  inserted-Extends :
      (row : Row) (rows : List Row)
      → MadeBy request row
      → Extends request rows (inserted rows (insert_transfer env row rows)).1
  inserted-Extends row rows made = elim (insert_transfer-cases env row rows) [
    | inl added ↦ rw added (row ∷ [], refl, (made, tt))
    | inr (e, failure) ↦ rw failure (Extends-refl request rows)
  ]

  relay_packet-Extends :
      (packet : PacketInfo) (rows : List Row)
      → Extends request rows (relay_packet env request packet rows).1
  unfolding relay_packet new_row
  relay_packet-Extends packet rows =
      elim (Result-cases
        (get_client_counterparty_chain_id env.chains request.chain_id packet.source_client)) [
          | inr (e, unclear) ↦ rw (unclear, relay_packet) (Extends-refl request rows)
          | inl (destination, known) ↦
              rw (known, relay_packet)
                (inserted-Extends (new_row request destination packet) rows (refl, refl, refl))
        ]

  relay_packets-Extends :
      (packets : List PacketInfo) (rows : List Row)
      → Extends request rows (relay_packets env request packets rows).1
  unfolding relay_packets
  relay_packets-Extends [] rows = Extends-refl request rows
  relay_packets-Extends (packet ∷ packets) rows =
      let step = relay_packet env request packet rows in
      chosen step.0 (relay_packets env request packets step.1) step
        (Extends-trans request rows step.1 _ (relay_packet-Extends packet rows)
          (relay_packets-Extends packets step.1))
        (relay_packet-Extends packet rows)
    where
      chosen :
          (go : Bool) (rest step : Bool × List Row)
          → Extends request rows rest.1
          → Extends request rows step.1
          → Extends request rows (if go then rest else step).1
      chosen true rest step first second = first
      chosen false rest step first second = second

  relay_submitted-Extends :
      (s : Store) → Extends request s.rows (relay_submitted env request s).0.rows
  unfolding relay_submitted
  relay_submitted-Extends s = elim (Option-cases (env.clients request.chain_id)) [
    | inl missing ↦ rw (missing, relay_submitted) (Extends-refl request s.rows)
    | inr (client, found) ↦
        rw (found, relay_submitted)
          (elim (Option-cases (check_sender env client request.tx_hash)) [
            | inr (e, refused) ↦ rw refused (Extends-refl request s.rows)
            | inl clean ↦
                rw clean
                  (elim (Result-cases
                    (client.send_packets_from_tx request.chain_id request.tx_hash)) [
                      | inr (e, failure) ↦ rw failure (Extends-refl request s.rows)
                      | inl (packets, sent) ↦ rw sent (relay_packets-Extends packets s.rows)
                    ])
          ])
  ]

  -- Whatever a relay request ends in, it changes and removes no row of the table: it only adds
  -- rows, each pending and of the request's own transaction.
  pub relay-Extends : (s : Store) → Extends request s.rows (relay env request s).0.rows
  unfolding relay
  relay-Extends s = elim (Bool-cases (is_incomplete request)) [
    | inl bad ↦ rw bad (Extends-refl request s.rows)
    | inr good ↦ rw good (elim (Option-cases (env.insert_submission_error request)) [
      | inr (e, failure) ↦ rw failure (Extends-refl request s.rows)
      | inl passes ↦ rw passes (
          relay_submitted-Extends
            (record s { submissions = insert_submission request s.submissions }))
    ])
  ]
