-- ===== src/RelayerApi/Again.antt =====
-- A request that is sent twice.
use platform_relayer.Common.{
  ◌≡◌, refl, sym, subst, String, Bool, true, List, [], ◌∷◌, ◌++◌, none, is_some, arith, str_eq_iff,
  Bool-cases, Option-cases, inl, inr, if◌then◌else◌,
}
use platform_relayer.Errors.{ok, Result-cases}
use platform_relayer.Db.{Row, PacketKey, row_key, same_packet, find_row}
use platform_relayer.Db.Laws.{same_packet_refl}
use platform_relayer.Bridge.{PacketInfo}
use platform_relayer.Config.{get_client_counterparty_chain_id}
use platform_relayer.RelayerApi.{ApiEnvironment, Submission, Store, is_incomplete, duplicate_key}
use platform_relayer.RelayerApi.Reported.{relay_submitted-submissions, has_submission-insert}
use platform_relayer.RelayerApi.Relay.{
  new_row, insert_transfer, inserted, relay_packet, relay_packets, relay_submitted, relay,
  check_sender, insert_submission,
}

-- The table has a row for the packet, unless its destination is not configured.
abbrev pub Covered : ApiEnvironment → Submission → List Row → PacketInfo → Type 0
Covered env request rows packet =
    (destination : String)
    → get_client_counterparty_chain_id env.chains request.chain_id packet.source_client
      ≡ ok destination
    → is_some (find_row (row_key (new_row request destination packet)) rows) ≡ true

abbrev pub AllCovered : ApiEnvironment → Submission → List Row → List PacketInfo → Type 0
AllCovered env request rows [] = Unit {0}
AllCovered env request rows (packet ∷ packets) =
    Covered env request rows packet × AllCovered env request rows packets

-- Each packet found before is found after.
abbrev Grows : List Row → List Row → Type 0
Grows before after =
    (k : PacketKey) → is_some (find_row k before) ≡ true → is_some (find_row k after) ≡ true

find_row-append : (k : PacketKey) (rows : List Row) (row : Row) → Grows rows (rows ++ row ∷ [])
unfolding find_row
find_row-append k [] row j h = absurd (ground (arith, h))
find_row-append k (r ∷ rows) row j h = elim (Bool-cases (same_packet j (row_key r))) [
  | inl hit ↦ ground (arith, hit)
  | inr miss ↦ ground (arith, miss, find_row-append k rows row j)
]

find_row-append_self :
    (rows : List Row) (row : Row) → is_some (find_row (row_key row) (rows ++ row ∷ [])) ≡ true
unfolding find_row
find_row-append_self [] row = rw (same_packet_refl (row_key row)) refl
find_row-append_self (r ∷ rows) row = elim (Bool-cases (same_packet (row_key row) (row_key r))) [
  | inl hit ↦ ground (arith, hit)
  | inr miss ↦ ground (arith, miss, find_row-append_self rows row)
]

insert_submission-again :
    (request : Submission) (submissions : List Submission)
    → insert_submission request (insert_submission request submissions)
      ≡ insert_submission request submissions
unfolding insert_submission
insert_submission-again request submissions =
    ground (arith, has_submission-insert request submissions)

module _ (env : ApiEnvironment) (accepts : (row : Row) → env.insert_transfer_error row ≡ none)
    (request : Submission) where
  -- What an insertion leads to where the database accepts it.
  Inserts : Row → List Row → Bool × List Row → Type 0
  Inserts row rows o = (o.0 ≡ true) × Grows rows o.1 × (is_some (find_row (row_key row) o.1) ≡ true)

  inserted-Inserts :
      (row : Row) (rows : List Row)
      → Inserts row rows (inserted rows (insert_transfer env row rows))
  unfolding insert_transfer Inserts
  inserted-Inserts row rows = elim (Bool-cases (is_some (find_row (row_key row) rows))) [
    | inl seen ↦ rw (accepts row, insert_transfer, seen) (refl, (λ k h. h), seen)
    | inr fresh ↦
        rw (accepts row, insert_transfer, fresh)
          (refl, find_row-append (row_key row) rows row, find_row-append_self rows row)
  ]

  relay_packet-Covered :
      (packet : PacketInfo) (rows : List Row)
      → let o = relay_packet env request packet rows in
        (o.0 ≡ true) × Grows rows o.1 × Covered env request o.1 packet
  unfolding relay_packet Inserts
  relay_packet-Covered packet rows =
      elim (Result-cases
        (get_client_counterparty_chain_id env.chains request.chain_id packet.source_client)) [
          | inr (e, unclear) ↦
              rw (unclear, relay_packet)
                (refl, (λ k h. h), λ d other. absurd (ground (arith, other)))
          | inl (destination, known) ↦
              let row = new_row request destination packet in
              let (go, grows, found) = inserted-Inserts row rows in
              rw (known, relay_packet) (go, grows, λ d same. ground (arith, same, found))
        ]

  AllCovered-Grows :
      (packets : List PacketInfo) (before after : List Row)
      → Grows before after
      → AllCovered env request before packets
      → AllCovered env request after packets
  AllCovered-Grows [] before after grows h = tt
  AllCovered-Grows (packet ∷ packets) before after grows (first, more) =
      ((λ d known. grows _ (first d known)), AllCovered-Grows packets before after grows more)

  -- The loop reaches its end.
  Reaches : List PacketInfo → List Row → Bool × List Row → Type 0
  Reaches packets rows o = (o.0 ≡ true) × Grows rows o.1 × AllCovered env request o.1 packets

  relay_packets-Reaches :
      (packets : List PacketInfo) (rows : List Row)
      → Reaches packets rows (relay_packets env request packets rows)
  unfolding relay_packets Reaches
  relay_packets-Reaches [] rows = (refl, (λ k h. h), tt)
  relay_packets-Reaches (packet ∷ packets) rows =
      let step = relay_packet env request packet rows in
      let (go, grows, covered) = relay_packet-Covered packet rows in
      let (done, more, rest) = relay_packets-Reaches packets step.1 in
      subst
        (λ b.
          Reaches (packet ∷ packets) rows
            (if b then relay_packets env request packets step.1 else step))
        (sym go) (done, (λ k h. more k (grows k h)), ((λ d known. more _ (covered d known)), rest))

  relay_packet-again :
      (packet : PacketInfo) (rows : List Row)
      → Covered env request rows packet
      → relay_packet env request packet rows ≡ (true, rows)
  unfolding relay_packet insert_transfer
  relay_packet-again packet rows covered =
      elim (Result-cases
        (get_client_counterparty_chain_id env.chains request.chain_id packet.source_client)) [
          | inr (e, unclear) ↦ rw (unclear, relay_packet) refl
          | inl (destination, known) ↦ ground (
            arith,
            known,
            accepts (new_row request destination packet),
            covered destination known,
            str_eq_iff duplicate_key duplicate_key,
          )
        ]

  relay_packets-again :
      (packets : List PacketInfo) (rows : List Row)
      → AllCovered env request rows packets
      → relay_packets env request packets rows ≡ (true, rows)
  unfolding relay_packets
  relay_packets-again [] rows covered = refl
  relay_packets-again (packet ∷ packets) rows (first, more) =
      ground (arith, relay_packet-again packet rows first, relay_packets-again packets rows more)

  relay_submitted-again :
      (s : Store)
      → relay_submitted env request (relay_submitted env request s).0
        ≡ relay_submitted env request s
  unfolding relay_submitted Reaches
  relay_submitted-again s = elim (Option-cases (env.clients request.chain_id)) [
    | inl missing ↦ ground (arith, missing)
    | inr (client, found) ↦ elim (Option-cases (check_sender env client request.tx_hash)) [
      | inr (e, refused) ↦ ground (arith, found, refused)
      | inl clean ↦
          elim (Result-cases (client.send_packets_from_tx request.chain_id request.tx_hash)) [
            | inr (e, failure) ↦ ground (arith, found, clean, failure)
            | inl (packets, sent) ↦
                let (done, grows, covered) = relay_packets-Reaches packets s.rows in
                let again =
                  relay_packets-again packets (relay_packets env request packets s.rows).1
                    covered in
                ground (arith, found, clean, sent, done, again)
          ]
    ]
  ]

  -- A request that is sent a second time, where the database refuses no row but for the unique
  -- index and all other calls answer as before, gets the same response and changes nothing.
  pub relay-again : (s : Store) → relay env request (relay env request s).0 ≡ relay env request s
  unfolding relay
  relay-again s = elim (Bool-cases (is_incomplete request)) [
    | inl bad ↦ ground (arith, bad)
    | inr good ↦ elim (Option-cases (env.insert_submission_error request)) [
      | inr (e, failure) ↦ ground (arith, good, failure)
      | inl passes ↦
          let s' : Store = record s { submissions = insert_submission request s.submissions } in
          let again = relay_submitted-again s' in
          ground (
            arith,
            good,
            passes,
            again,
            relay_submitted-submissions env request s',
            insert_submission-again request s.submissions,
          )
    ]
  ]
