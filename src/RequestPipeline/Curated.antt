-- ===== src/RequestPipeline/Curated.antt =====
-- The pipeline never raises, and what it forwards is what the switch and the overrides of one scope
-- say.
use transport_matters.Prelude.{◌≡◌, Option, none, some, Text, if◌then◌else◌, List, Bool, ◌&&◌, not}
use transport_matters.Ir.{InternalRequest}
use transport_matters.Ir.Value.{Json}
use transport_matters.Override.Store.{is_enabled, get_all}
use transport_matters.Override.Pipeline.{apply_overrides}
use transport_matters.RequestPipeline.{Services, PipelineResult, pipeline_scope, Override}

module _ (loads : Text → Option Json) (raises : List Override → InternalRequest → Bool)
    (ir : InternalRequest) where
  -- the request and the audit that the scope of the assigned track gives
  abbrev pub Forwards : Option Text → Services → PipelineResult → Type 0
  Forwards run_id s out =
      let scope = pipeline_scope run_id out.track_assignment in
      let os = (get_all s.store scope).0 in
      let curated = apply_overrides loads os ir in
      let runs = is_enabled s.store scope && not (raises os ir) in
      (out.request ≡ (if runs then curated.0 else ir))
      × (out.audit ≡ (if runs then some curated.1 else none))
