-- ===== src/Dispatcher/Submit.antt =====
-- `RelayDispatcher.SubmitTransfer` and `SubmitWaitingUnfinishedTransfers`. What the goroutines of
-- the pipelines do in the meantime are other steps.
use platform_relayer.Common.{Bool, true, false, List, [], ◌∷◌, Option, none, some, if◌then◌else◌}
use platform_relayer.Errors.{
  Error, Result, ok, err, sentinel, wrapped, errors_is, transfer_already_in_pipeline,
}
use platform_relayer.Db.{Row, PacketKey, failed, update_transfer_state, get_unfinished_transfers}
use platform_relayer.Transfer.{Transfer, new_transfer, transfer_key}
use platform_relayer.Bridge.{World, Environment, exec}
use platform_relayer.Config.{ChainConfig}
use platform_relayer.Batch.Recv.{Route}
use platform_relayer.Pipeline.Deduper.{new_transfer_key, push}
use platform_relayer.Dispatcher.Manager.{RunningPipeline, new_pipeline_key, same_route, pipeline}
use platform_relayer.Dispatcher.Alert.{Alert, alert, silent, panics, observed}

-- A push changes the deduper of the pipeline with the given key.
unfoldable pub push_to : Route → PacketKey → List RunningPipeline → List RunningPipeline
push_to r k [] = []
push_to r k (p ∷ pipelines) =
    if same_route r p.route
    then record p { deduper = (push k p.deduper).0 } ∷ pipelines
    else p ∷ push_to r k pipelines

abbrev pub pushed : Bool → Result (Unit {0})
pushed true = ok tt
pushed false = err (sentinel transfer_already_in_pipeline)

abbrev pub submit_to :
    Transfer
    → List RunningPipeline × Result RunningPipeline
    → List RunningPipeline × Result (Unit {0})
submit_to t (pipelines, err e) =
    (pipelines, err (wrapped "getting pipeline to push transfer onto from manager" e))
submit_to t (pipelines, ok p) = (
  push_to (new_pipeline_key t) (new_transfer_key t) pipelines,
  pushed (push (new_transfer_key t) p.deduper).1,
)

unfoldable pub submit_transfer :
    List ChainConfig → Transfer → List RunningPipeline → List RunningPipeline × Result (Unit {0})
submit_transfer chains t pipelines = submit_to t (pipeline chains t pipelines)

-- The dispatcher's state: the pipelines and the world.
pub record Relayer : Type 0 where
  pub pipelines : List RunningPipeline
  pub world : World

-- The error of a submission: a transfer that is already in its pipeline is left, any other is
-- marked as failed; an error of that update is logged.
unfoldable pub after_submit :
    Environment → Transfer → World → List RunningPipeline × Result (Unit {0}) → Relayer
after_submit env t w (pipelines, ok done) = record { pipelines = pipelines; world = w }
after_submit env t w (pipelines, err e) = record {
  pipelines = pipelines;
  world =
      if errors_is e transfer_already_in_pipeline
      then w
      else (exec env (update_transfer_state failed (transfer_key t)) w).0;
}

abbrev pub is_panic : Alert → Bool
is_panic silent = false
is_panic panics = true
is_panic (observed type) = false

-- The loop over the rows; `none` is a panic.
unfoldable pub submit_rows : List ChainConfig → Environment → List Row → Relayer → Option Relayer
submit_rows chains env [] s = some s
submit_rows chains env (r ∷ rows) s =
    let t = new_transfer r in
    let rest =
      submit_rows chains env rows
        (after_submit env t s.world (submit_transfer chains t s.pipelines)) in
    if is_panic (alert chains env.now t) then none else rest

-- One poll. The query of the unfinished transfers may fail, and then nothing happens.
unfoldable pub submit_waiting_unfinished_transfers :
    List ChainConfig → Environment → Option Error → Relayer → Option Relayer
submit_waiting_unfinished_transfers chains env query_failure s = elim query_failure [
  | some e ↦ some s
  | none ↦ submit_rows chains env (get_unfinished_transfers s.world.rows) s
]
