-- ===== src/RelayerApi/Reported.antt =====
-- What the service reports of a submitted transaction, and whom it refuses.
use platform_relayer.Common.{
  ◌<◌, ◌≤◌, ◌≡◌, refl, ◌↔◌, ◌⊎◌, String, true, false, List, none, some, arith, Bool-cases,
  Option-cases, inl, inr, str_eq_iff,
}
use platform_relayer.Errors.{ok, Result-cases}
use platform_relayer.Db.{Status, is_finished}
use platform_relayer.Bridge.{PacketInfo, BridgeClient, is_evm}
use platform_relayer.RelayerApi.{
  ApiEnvironment, invalid_argument, refuse, Submission, Store, is_incomplete, has_submission,
}
use platform_relayer.RelayerApi.Relay.{
  new_row, relay_submitted, relay, check_sender, is_blacklisted, insert_submission,
}
use platform_relayer.RelayerApi.Status.{
  transfer_state_pending, map_db_status_to_proto, packet_status,
}

-- The service reports a transfer as pending exactly as long as the dispatcher takes it up.
pub map_db_status_to_proto-pending_iff :
    (s : Status) → (map_db_status_to_proto s ≡ transfer_state_pending) ↔ (is_finished s ≡ false)
unfolding map_db_status_to_proto is_finished
map_db_status_to_proto-pending_iff s = (ground arith, ground arith)

-- A packet whose sequence number is a uint64 is reported under its own number exactly if that is below
-- 2 ^ 31 or at least 2 ^ 64 - 2 ^ 31.
pub packet_status-sequence_iff :
    (request : Submission) (destination : String) (packet : PacketInfo)
    → packet.sequence < 18446744073709551616
    → ((packet_status (new_row request destination packet)).sequence_number ≡ packet.sequence)
      ↔ ((packet.sequence < 2147483648) ⊎ (18446744071562067968 ≤ packet.sequence))
unfolding packet_status new_row
packet_status-sequence_iff request destination packet h =
    (λ same. ground (arith, h), λ range. ground (arith, h))

check_sender-blacklisted :
    (env : ApiEnvironment) (client : BridgeClient) (hash sender : String)
    → is_evm client.chain_type ≡ true
    → client.get_transaction_sender hash ≡ ok sender
    → is_blacklisted env sender ≡ true
    → check_sender env client hash ≡ some invalid_argument
unfolding check_sender
check_sender-blacklisted env client hash sender on_evm found listed =
    ground (arith, on_evm, found, listed)

-- A request for an EVM transaction whose sender is on the address list is refused and adds no
-- row, so none of its packets is relayed.
pub relay-blacklisted :
    (env : ApiEnvironment) (request : Submission) (s : Store) (client : BridgeClient)
    (sender : String)
    → is_incomplete request ≡ false
    → env.insert_submission_error request ≡ none
    → env.clients request.chain_id ≡ some client
    → is_evm client.chain_type ≡ true
    → client.get_transaction_sender request.tx_hash ≡ ok sender
    → is_blacklisted env sender ≡ true
    → ((relay env request s).1 ≡ refuse invalid_argument) × ((relay env request s).0.rows ≡ s.rows)
unfolding relay relay_submitted
relay-blacklisted env request s client sender good passes configured on_evm found listed =
    let e = check_sender-blacklisted env client request.tx_hash sender on_evm found listed in
    (ground (arith, good, passes, configured, e), ground (arith, good, passes, configured, e))

pub relay_submitted-submissions :
    (env : ApiEnvironment) (request : Submission) (s : Store)
    → (relay_submitted env request s).0.submissions ≡ s.submissions
unfolding relay_submitted
relay_submitted-submissions env request s = elim (Option-cases (env.clients request.chain_id)) [
  | inl missing ↦ ground (arith, missing)
  | inr (client, found) ↦ elim (Option-cases (check_sender env client request.tx_hash)) [
    | inr (e, refused) ↦ ground (arith, found, refused)
    | inl clean ↦
        elim (Result-cases (client.send_packets_from_tx request.chain_id request.tx_hash)) [
          | inr (e, failure) ↦ ground (arith, found, clean, failure)
          | inl (packets, sent) ↦ ground (arith, found, clean, sent)
        ]
  ]
]

pub has_submission-insert :
    (request : Submission) (submissions : List Submission)
    → has_submission request (insert_submission request submissions) ≡ true
unfolding insert_submission
has_submission-insert request submissions = elim (Bool-cases (has_submission request submissions)) [
  | inl seen ↦ rw (seen, seen) refl
  | inr fresh ↦ ground (
    arith,
    fresh,
    str_eq_iff request.chain_id request.chain_id,
    str_eq_iff request.tx_hash request.tx_hash,
  )
]
