-- ===== src/RelayerApi/Answered.antt =====
-- What a status request is answered after a relay request (relayerapi/services/relayerapi/service.go).
use platform_relayer.Common.{
  ◌≡◌, refl, ◌↔◌, String, List, [], ◌∷◌, none, arith, Bool-cases, inl, inr, ◌⊎◌, map, str_eq,
  str_eq_iff, ◌&&◌, ap, sym, subst, true, false,
}
use platform_relayer.Among.{Among, here, there}
use platform_relayer.Db.{Row, get_transfers_by_source_tx}
use platform_relayer.RelayerApi.{ApiEnvironment, answer, Submission, Store, is_incomplete}
use platform_relayer.RelayerApi.Relay.{relay, insert_submission}
use platform_relayer.RelayerApi.Status.{PacketStatus, packet_status, status}
use platform_relayer.RelayerApi.Reported.{relay_submitted-submissions, has_submission-insert}

-- A row of the table is of this transaction and is reported as this packet.
abbrev pub ReportedRow : String → String → List Row → PacketStatus → Type 0
ReportedRow chain hash rows p =
    (r : Row) × Among r rows
    × (r.source_chain_id ≡ chain)
    × (r.source_tx_hash ≡ hash)
    × (packet_status r ≡ p)

later :
    {chain hash : String} {rows : List Row} {p : PacketStatus} (r : Row)
    → ReportedRow chain hash rows p
    → ReportedRow chain hash (r ∷ rows) p
later r (s, among, on, of, same) = (s, there among, on, of, same)

reported-from :
    (chain hash : String) (rows : List Row) (p : PacketStatus)
    → Among p (map packet_status (get_transfers_by_source_tx chain hash rows))
    → ReportedRow chain hash rows p
unfolding get_transfers_by_source_tx
reported-from chain hash [] p h = elim h [ ]
reported-from chain hash (r ∷ rows) p h =
    elim (Bool-cases (str_eq r.source_chain_id chain && str_eq r.source_tx_hash hash)) [
      | inr other ↦ later r (reported-from chain hash rows p (rw other at h))
      | inl own ↦ elim (uncons (packet_status r) _ (rw own at h)) [
        | inl same ↦ (
          r,
          here refl,
          ground (arith, own, str_eq_iff r.source_chain_id chain),
          ground (arith, own, str_eq_iff r.source_tx_hash hash),
          sym same,
        )
        | inr rest ↦ later r (reported-from chain hash rows p rest)
      ]
    ]
  where
    uncons : (q : PacketStatus) (l : List PacketStatus) → Among p (q ∷ l) → (p ≡ q) ⊎ Among p l
    uncons q l (here same) = inl same
    uncons q l (there rest) = inr rest

reported-all :
    (chain hash : String) (r : Row) {rows : List Row}
    → r.source_chain_id ≡ chain
    → r.source_tx_hash ≡ hash
    → Among r rows
    → Among (packet_status r) (map packet_status (get_transfers_by_source_tx chain hash rows))
unfolding get_transfers_by_source_tx
reported-all chain hash r on of (here {b} {l} same) =
    let own : (str_eq b.source_chain_id chain && str_eq b.source_tx_hash hash) ≡ true =
      ground (
        arith,
        same,
        on,
        of,
        str_eq_iff b.source_chain_id chain,
        str_eq_iff b.source_tx_hash hash,
      ) in
    rw own (here (ap packet_status same))
reported-all chain hash r on of (there {b} {l} rest) =
    elim (Bool-cases (str_eq b.source_chain_id chain && str_eq b.source_tx_hash hash)) [
      | inl own ↦ rw own (there (reported-all chain hash r on of rest))
      | inr other ↦ rw other (reported-all chain hash r on of rest)
    ]

-- Once the submission of a complete request is recorded, whatever else became of the request, a
-- status request for it, where the two queries succeed, is answered with packets that are exactly those
-- by which the rows of its transaction in the table are reported.
pub status-after_relay :
    (env : ApiEnvironment) (request : Submission) (s : Store)
    → is_incomplete request ≡ false
    → env.insert_submission_error request ≡ none
    → env.get_submission_error request ≡ none
    → env.get_transfers_error request ≡ none
    → let after = (relay env request s).0 in
      (packets : List PacketStatus) × (status env request after ≡ answer packets)
      × ((p : PacketStatus)
          → Among p packets ↔ ReportedRow request.chain_id request.tx_hash after.rows p)
unfolding relay status
status-after_relay env request s good inserts gets lists =
    let after = (relay env request s).0 in
    let s' : Store = record s { submissions = insert_submission request s.submissions } in
    let recorded = relay_submitted-submissions env request s' in
    (
      map packet_status (get_transfers_by_source_tx request.chain_id request.tx_hash after.rows),
      ground (
        arith,
        good,
        inserts,
        gets,
        lists,
        recorded,
        has_submission-insert request s.submissions,
      ),
      λ p. (
        reported-from request.chain_id request.tx_hash after.rows p,
        λ (r, among, on, of, same).
            subst
              (λ q. Among q (
                map packet_status
                  (get_transfers_by_source_tx request.chain_id request.tx_hash after.rows)))
              same (reported-all request.chain_id request.tx_hash r on of among),
      ),
    )
