-- ===== src/Transfer/Laws.antt =====
-- When a transfer counts as complete: IsComplete of relayer/ibcv2/ibcv2_transfer.go.
use platform_relayer.Common.{
  ◌≡◌, Option-cases, inl, inr, ◌⊎◌, ◌↔◌, Bool, true, false, none, some, is_some, arith,
}
use platform_relayer.Db.{WriteAckStatus, success, error, unknown}
use platform_relayer.Transfer.{Transfer, is_complete, relays_ack}

-- An ack with a known status that the configuration says not to relay.
abbrev pub NotRelayed : Bool → Bool → WriteAckStatus → Type 0
NotRelayed success_acks error_acks s =
    ((s ≡ success) × (success_acks ≡ false))
    ⊎ (((s ≡ error) ⊎ (s ≡ unknown)) × (error_acks ≡ false))

relays_ack_iff :
    (success_acks error_acks : Bool) (s : WriteAckStatus)
    → (relays_ack success_acks error_acks s ≡ false) ↔ NotRelayed success_acks error_acks s
relays_ack_iff success_acks error_acks success = (ground arith, ground arith)
relays_ack_iff success_acks error_acks error = (ground arith, ground arith)
relays_ack_iff success_acks error_acks unknown = (ground arith, ground arith)

-- What a complete transfer has, as the configuration requires it.
abbrev pub Settled : Bool → Bool → Transfer → Type 0
Settled success_acks error_acks t =
    (is_some t.timeout_tx_hash ≡ true)
    ⊎ ((is_some t.recv_tx_hash ≡ true)
        × (is_some t.write_ack_tx_hash ≡ true)
        × ((is_some t.ack_tx_hash ≡ true)
            ⊎ ((s : WriteAckStatus) × (t.write_ack_status ≡ some s)
                × NotRelayed success_acks error_acks s)))

-- A transfer is complete exactly when it carries no processing error and either its timeout is
-- submitted, or it is received with a write ack and its ack is either submitted or, having a
-- known status, success where success acks are not relayed, or an error or an unknown one where error
-- acks are not.
pub is_complete_iff :
    (success_acks error_acks : Bool) (t : Transfer)
    → (is_complete success_acks error_acks t ≡ true)
      ↔ ((t.processing_error ≡ none) × Settled success_acks error_acks t)
unfolding is_complete
is_complete_iff success_acks error_acks t = elim (Option-cases t.write_ack_status) [
  | inl missing ↦ (ground (arith, missing), ground (arith, missing))
  | inr (s, found) ↦
      let relayed = relays_ack_iff success_acks error_acks s in
      (ground (arith, found, relayed), ground (arith, found, relayed))
]
