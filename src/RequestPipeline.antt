-- ===== src/RequestPipeline.antt =====
-- `run_pipeline` of api/src/transport_matters/request_pipeline.py: a parsed request is assigned to
-- a track, and the overrides of its scope rewrite it. The exceptions of `apply_overrides` that
-- Python's own functions raise (`json.dumps` on a NaN, `int` on more than 4300 digits) are the
-- parameter `raises`: on which overrides and request the call raises instead of returning. The
-- manager's `classify_request` is `record_exchange` without a response. `none` is a KeyError of the
-- track manager.
pub mod Curated
use transport_matters.Prelude.{Bool, not, List, Option, none, some, Text, if◌then◌else◌}
use transport_matters.Prelude.Dict.{Dict}
use transport_matters.Ir.{InternalRequest}
use transport_matters.Ir.Value.{Json}
use transport_matters.Override.Model.{Override}
use transport_matters.Override.Audit.{OverrideAudit}
use transport_matters.Override.Store.{
  OverrideStore, OverrideScopeParams, root_scope, is_enabled, get_all,
}
use transport_matters.Override.Pipeline.{apply_overrides}
use transport_matters.Track.{TrackAssignment, RunTrackState}
use transport_matters.Track.Assign.{record_exchange}

-- the two singletons that the pipeline uses
pub record Services : Type 0 where
  pub runs : Dict Text RunTrackState
  pub store : OverrideStore

pub record PipelineResult : Type 0 where
  pub request : InternalRequest
  pub audit : Option OverrideAudit
  pub track_assignment : Option TrackAssignment

unfoldable pub pipeline_scope : Option Text → Option TrackAssignment → Option OverrideScopeParams
pipeline_scope (some run_id) (some a) = some (some run_id, some a.track_id)
pipeline_scope run_id _ = let (run, track) = root_scope run_id in some (some run, some track)

module _ (loads : Text → Option Json) (raises : List Override → InternalRequest → Bool) where
  unfoldable pub curate :
      Option Text → Option TrackAssignment → InternalRequest → Services → PipelineResult × Services
  unfolding pipeline_scope
  curate run_id track_assignment ir s =
      let scope = pipeline_scope run_id track_assignment in
      let (os, store) = get_all s.store scope in
      let (curated, audit) = apply_overrides loads os ir in
      if not (is_enabled s.store scope)
      then (record { request = ir; audit = none; track_assignment = track_assignment }, s)
      else if raises os ir
      then (
        record { request = ir; audit = none; track_assignment = track_assignment },
        record s { store = store },
      )
      else (
        record { request = curated; audit = some audit; track_assignment = track_assignment },
        record s { store = store },
      )

  unfoldable pub run_pipeline :
      InternalRequest → Option Text → Services → Option (PipelineResult × Services)
  unfolding curate
  run_pipeline ir none s = some (curate none none ir s)
  run_pipeline ir (some run_id) s = elim (record_exchange loads s.runs run_id ir none none) [
    | none ↦ none
    | some (a, runs) ↦ some (curate (some run_id) (some a) ir (record s { runs = runs }))
  ]
