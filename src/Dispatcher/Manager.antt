-- ===== src/Dispatcher/Manager.antt =====
-- `IBCV2PipelineManager`: the pipelines by the four ids that they are made for.
use platform_relayer.Common.{Bool, ◌&&◌, List, [], ◌∷◌, Option, none, some, str_eq, if◌then◌else◌}
use platform_relayer.Errors.{Result, ok, err, wrapped}
use platform_relayer.Transfer.{Transfer}
use platform_relayer.Config.{ChainConfig}
use platform_relayer.Pipeline.Options.{PipelineOptions, new_pipeline_opts}
use platform_relayer.Pipeline.Deduper.{Deduper, new_deduper}
use platform_relayer.Batch.Recv.{Route}

-- `newPipelineKey`; the route of a pipeline is its key.
abbrev pub new_pipeline_key : Transfer → Route
new_pipeline_key t = record {
  source_chain_id = t.source_chain_id;
  source_client_id = t.packet_source_client_id;
  destination_chain_id = t.destination_chain_id;
  destination_client_id = t.packet_destination_client_id;
}

unfoldable pub same_route : Route → Route → Bool
same_route r s =
    str_eq r.source_chain_id s.source_chain_id
    && (str_eq r.source_client_id s.source_client_id
        && (str_eq r.destination_chain_id s.destination_chain_id
            && str_eq r.destination_client_id s.destination_client_id))

-- A pipeline with the options that it was made with.
pub record RunningPipeline : Type 0 where
  pub route : Route
  pub options : PipelineOptions
  pub deduper : Deduper

unfoldable pub lookup : Route → List RunningPipeline → Option RunningPipeline
lookup r [] = none
lookup r (p ∷ pipelines) = if same_route r p.route then some p else lookup r pipelines

-- `Pipeline`: the pipeline of a transfer, made on first use, and the pipelines after that.
unfoldable pub pipeline :
    List ChainConfig
    → Transfer
    → List RunningPipeline
    → List RunningPipeline × Result RunningPipeline
pipeline chains t pipelines = elim (lookup (new_pipeline_key t) pipelines) [
  | some p ↦ (pipelines, ok p)
  | none ↦ elim (new_pipeline_opts chains t) [
    | err e ↦ (
      pipelines,
      err (wrapped "creating new pipeline for transfer" (wrapped "creating pipeline options" e)),
    )
    | ok options ↦
        let p : RunningPipeline = record {
          route = new_pipeline_key t;
          options = options;
          deduper = new_deduper;
        } in
        (p ∷ pipelines, ok p)
  ]
]
