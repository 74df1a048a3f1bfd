-- ===== src/Examples/Service.antt =====
-- The theorems on the pipelines, the dispatcher and the API service.
use platform_relayer.Common.{
  ◌⊎◌, ◌≡◌, refl, ◌≤◌, ◌<◌, ◌↔◌, false, List, [], ◌∷◌, ◌++◌, none, some, arith,
}
use platform_relayer.Errors.{
  ok, Error, err, message, wrapped, sentinel, transfer_already_in_pipeline,
}
use platform_relayer.Db.{find_row, same_packet, failed, pending, is_finished}
use platform_relayer.Transfer.{Transfer, new_transfer, transfer_key}
use platform_relayer.Config.{ChainConfig, get_chain_config, create_indexes}
use platform_relayer.Pipeline.Options.{
  PipelineOptions, BuiltFrom, HasNoZero, new_pipeline_opts, new_pipeline_opts_ok, build_options,
}
use platform_relayer.Pipeline.Deduper.{
  push, holds, Event, pushed, polled, run, Inside, push-Inside, new_deduper, new_transfer_key,
}
use platform_relayer.Among.{Among}
use platform_relayer.RelayerApi.Answered.{ReportedRow, status-after_relay}
use platform_relayer.Dispatcher.Manager.{RunningPipeline, new_pipeline_key, lookup, pipeline}
use platform_relayer.Dispatcher.Alert.{alert}
use platform_relayer.Dispatcher.Submit.{Relayer, submit_transfer, submit_rows, push_to}
use platform_relayer.Dispatcher.Once.{submit_all, submit_transfer-once}
use platform_relayer.Dispatcher.Unroutable.{submit_rows-panics, submit_rows-fails}
use platform_relayer.RelayerApi.{answer}
use platform_relayer.RelayerApi.Relay.{relay, new_row}
use platform_relayer.RelayerApi.Status.{
  map_db_status_to_proto, transfer_state_pending, PacketStatus, packet_status, status,
}
use platform_relayer.RelayerApi.Laws.{Extends, relay-Extends}
use platform_relayer.RelayerApi.Again.{relay-again}
use platform_relayer.RelayerApi.Reported.{
  map_db_status_to_proto-pending_iff, packet_status-sequence_iff,
}
use platform_relayer.Db.{Row, get_unfinished_transfers}
use platform_relayer.RelayerApi.{ApiEnvironment}
use platform_relayer.RelayerApi.Laws.{AllMadeBy}
use platform_relayer.RelayerApi.Polled.{relay-polled}
use platform_relayer.Examples.Data.{
  env, row, world, chain, chains, ibcv2, packet, client, request, store, api,
}

abbrev transfer : Transfer
transfer = new_transfer row

-- A transfer is pushed, leaves twice and is pushed again.
abbrev history : List Event
history =
    pushed (new_transfer_key transfer)
    ∷ polled (new_transfer_key transfer)
    ∷ polled (new_transfer_key transfer)
    ∷ pushed (new_transfer_key transfer)
    ∷ []

push-Inside_example :
    ((push (new_transfer_key transfer) (run history)).1 ≡ false)
    ↔ Inside (new_transfer_key transfer) history
push-Inside_example = push-Inside (new_transfer_key transfer) history

abbrev options : PipelineOptions
options = build_options (chain "1" (some ibcv2)) (chain "cosmoshub" (some ibcv2)) ibcv2 ibcv2

new_pipeline_opts_ok_example : BuiltFrom chains transfer options × HasNoZero options
unfolding new_pipeline_opts get_chain_config create_indexes new_transfer
new_pipeline_opts_ok_example = new_pipeline_opts_ok chains transfer options refl

abbrev made : RunningPipeline
made = record { route = new_pipeline_key transfer; options = options; deduper = new_deduper }

abbrev filled : List RunningPipeline
filled = push_to (new_pipeline_key transfer) (new_transfer_key transfer) (made ∷ [])

filled_lem : submit_transfer chains transfer [] ≡ (filled, ok tt)
unfolding submit_transfer pipeline lookup new_pipeline_opts get_chain_config create_indexes
    new_transfer push holds
filled_lem = refl

-- Another packet of the same route is submitted in between.
abbrev next_transfer : Transfer
next_transfer = new_transfer (record row { packet_sequence_number = 8 })

submit_transfer-once_example :
    submit_transfer chains transfer (submit_all chains (next_transfer ∷ []) filled)
    ≡ (submit_all chains (next_transfer ∷ []) filled, err (sentinel transfer_already_in_pipeline))
submit_transfer-once_example =
    submit_transfer-once chains transfer transfer (next_transfer ∷ []) [] filled filled_lem refl
      refl

-- The relayer before its first poll.
abbrev relayer : Relayer
relayer = record { pipelines = []; world = world row }

-- The source chain has no ibcv2 section.
abbrev bare : List ChainConfig
bare = chain "1" none ∷ chain "cosmoshub" (some ibcv2) ∷ []

submit_rows-panics_example : submit_rows bare env ([] ++ row ∷ []) relayer ≡ none
unfolding get_chain_config create_indexes
submit_rows-panics_example =
    submit_rows-panics bare env [] [] row relayer (chain "1" none) (chain "cosmoshub" (some ibcv2))
      refl refl refl

abbrev unconfigured : Error
unconfigured = wrapped "getting config for chain" (message "chain id not found")

submit_rows-fails_example :
    (s' : Relayer) × (submit_rows [] env (row ∷ []) relayer ≡ some s')
    × (s'.pipelines ≡ [])
    × (find_row (transfer_key transfer) s'.world.rows ≡ some (record row { status = failed }))
unfolding alert lookup new_pipeline_opts get_chain_config create_indexes new_transfer find_row
    same_packet
submit_rows-fails_example =
    submit_rows-fails [] env row row relayer unconfigured refl refl refl refl refl

relay-again_example : relay api request (relay api request store).0 ≡ relay api request store
relay-again_example = relay-again api (λ r. refl) request store

relay-Extends_example : Extends request (row ∷ []) (relay api request store).0.rows
relay-Extends_example = relay-Extends api request store

map_db_status_to_proto-pending_iff_example :
    (map_db_status_to_proto pending ≡ transfer_state_pending) ↔ (is_finished pending ≡ false)
map_db_status_to_proto-pending_iff_example = map_db_status_to_proto-pending_iff pending

-- The source chain is an EVM chain.
abbrev evm_api : ApiEnvironment
evm_api = record api { clients = λ id. some client }

relay-polled_example :
    (new : List Row) × AllMadeBy request new
    × ((relay api request store).0.rows ≡ (row ∷ []) ++ new)
    × (get_unfinished_transfers (relay api request store).0.rows
        ≡ get_unfinished_transfers (row ∷ []) ++ new)
relay-polled_example = relay-polled api request store

status-after_relay_example :
    let after = (relay api request store).0 in
    (packets : List PacketStatus) × (status api request after ≡ answer packets)
    × ((p : PacketStatus) → Among p packets ↔ ReportedRow "1" "0xaa" after.rows p)
status-after_relay_example = status-after_relay api request store refl refl refl refl

packet_status-sequence_iff_example :
    ((packet_status (new_row request "cosmoshub" packet)).sequence_number ≡ 9)
    ↔ ((9 < 2147483648) ⊎ (18446744071562067968 ≤ 9))
packet_status-sequence_iff_example =
    packet_status-sequence_iff request "cosmoshub" packet (omega arith)
