-- ===== src/Dispatcher/Alert.antt =====
-- `AlertOnExcessiveRelayLatency`: what it observes of a transfer, and where it panics.
use platform_relayer.Common.{
  ℕ, ◌+◌, ◌*◌, Bool, true, false, ◌&&◌, ◌||◌, not, List, Option, none, some, is_some, ltb,
  if◌then◌else◌,
}
use platform_relayer.Errors.{ok, err}
use platform_relayer.Db.{Time}
use platform_relayer.Transfer.{Transfer, is_complete, is_timed_out}
use platform_relayer.Bridge.{ChainType, evm, cosmos, svm, is_evm}
use platform_relayer.Config.{ChainConfig, get_chain_config}

pub data RelayType : Type 0 where
  send_to_recv recv_to_ack send_to_timeout : RelayType

-- `ongoingRelayType`
unfoldable pub ongoing_relay_type : Bool → Bool → Time → Transfer → Option RelayType
unfolding is_timed_out
ongoing_relay_type success_acks error_acks now t =
    if is_complete success_acks error_acks t
    then none
    else if not (is_some t.write_ack_tx_hash)
    then (if is_timed_out now t then some send_to_timeout else some send_to_recv)
    else some recv_to_ack

-- `panics` where the source chain has no ibcv2 section, whose fields the code reads unchecked.
pub data Alert : Type 0 where
  silent panics : Alert
  observed : RelayType → Alert

-- Minutes in nanoseconds; `time.Since(x) > d` is `x + d < now`.
abbrev pub minutes : ℕ → Time
minutes n = n * 60000000000

abbrev pub is_cosmos : ChainType → Bool
is_cosmos cosmos = true
is_cosmos evm = false
is_cosmos svm = false

abbrev pub excessive : ChainType → Time → Time → Bool
excessive type since now =
    (is_evm type && ltb (since + minutes 60) now)
    || (is_cosmos type && ltb (since + minutes 30) now)

abbrev pub write_ack_time : Transfer → Time
write_ack_time t = elim t.write_ack_tx_time [ none ↦ 0 | some time ↦ time ]

unfoldable pub observe : ChainType → ChainType → Time → Transfer → Option RelayType → Alert
observe source destination now t none = silent
observe source destination now t (some send_to_recv) =
    if excessive source t.source_tx_time now then observed send_to_recv else silent
observe source destination now t (some recv_to_ack) =
    if excessive destination (write_ack_time t) now then observed recv_to_ack else silent
observe source destination now t (some send_to_timeout) =
    if ltb now (t.packet_timeout_timestamp + minutes 5)
    then silent
    else if is_evm source && ltb now (t.source_tx_time + minutes 15)
    then silent
    else observed send_to_timeout

unfoldable pub alert : List ChainConfig → Time → Transfer → Alert
unfolding observe ongoing_relay_type
alert chains now t = elim (get_chain_config chains t.source_chain_id) [
  | err e ↦ silent
  | ok source ↦ elim (get_chain_config chains t.destination_chain_id) [
    | err e ↦ silent
    | ok destination ↦ elim source.ibcv2 [
      | none ↦ panics
      | some ibcv2 ↦
          observe source.type destination.type now t
            (ongoing_relay_type ibcv2.should_relay_success_acks ibcv2.should_relay_error_acks now t)
    ]
  ]
]
