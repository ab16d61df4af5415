-- ===== src/Breakpoint.antt =====
-- api/src/transport_matters/breakpoint.py: the armed mode and the table of paused flows. Each
-- coroutine holds the module's lock while it runs, so it is one step on the state. An
-- `asyncio.Event` is the flag that it carries. Auth headers, the track fields and the live flow
-- object are kept as given and decide nothing; the table is keyed by the flow's id.
pub mod Session
use transport_matters.Prelude.{
  ℕ, Bool, true, false, Option, none, some, List, [], ◌∷◌, Text, codes, map,
}
use transport_matters.Prelude.Dict.{Dict, get, put, remove, text_key}
use transport_matters.Track.{TrackRole, SpawnAnchor}
use transport_matters.Ir.{InternalRequest}
use transport_matters.Override.Audit.{OverrideAudit}

pub data Mode : Type 0 where
  off armed_once : Mode

pub data Transport : Type 0 where
  http websocket : Transport

pub record PausedFlow : Type 0 where
  pub event_set : Bool
  pub original_ir : InternalRequest
  pub curated_ir : InternalRequest
  pub paused_at_ms : ℕ
  pub transport : Transport
  pub audit : Option OverrideAudit
  pub mutated_ir : Option InternalRequest
  pub release_payload : Option Text
  pub dropped : Bool
  pub auth_headers : Dict Text Text
  pub run_id : Option Text
  pub track_id : Option Text
  pub parent_track_id : Option Text
  pub track_display_name : Option Text
  pub track_role : Option TrackRole
  pub spawn_anchor : Option SpawnAnchor
  pub tokens_before : Option ℕ

-- the module's globals
pub record Breakpoints : Type 0 where
  pub mode : Mode
  pub paused : Dict Text PausedFlow

abbrev pub initial : Breakpoints
initial = record { mode = off; paused = [] }

unfoldable pub arm : Breakpoints → Breakpoints
arm b = record b { mode = armed_once }

unfoldable pub disarm : Breakpoints → Breakpoints
disarm b = record b { mode = off }

unfoldable pub is_armed : Breakpoints → Bool
is_armed b = elim b.mode [ off ↦ false | armed_once ↦ true ]

-- what the caller of `pause` gives
pub record PauseRequest : Type 0 where
  pub flow_id : Text
  pub original_ir : InternalRequest
  pub curated_ir : InternalRequest
  pub transport : Transport
  pub audit : Option OverrideAudit
  pub auth_headers : Dict Text Text
  pub run_id : Option Text
  pub track_id : Option Text
  pub parent_track_id : Option Text
  pub track_display_name : Option Text
  pub track_role : Option TrackRole
  pub spawn_anchor : Option SpawnAnchor

abbrev pub paused_flow : PauseRequest → ℕ → PausedFlow
paused_flow r now = record {
  event_set = false;
  original_ir = r.original_ir;
  curated_ir = r.curated_ir;
  paused_at_ms = now;
  transport = r.transport;
  audit = r.audit;
  mutated_ir = none;
  release_payload = none;
  dropped = false;
  auth_headers = r.auth_headers;
  run_id = r.run_id;
  track_id = r.track_id;
  parent_track_id = r.parent_track_id;
  track_display_name = r.track_display_name;
  track_role = r.track_role;
  spawn_anchor = r.spawn_anchor;
  tokens_before = none;
}

unfoldable pub pause : PauseRequest → ℕ → Breakpoints → Breakpoints
pause r now b = record b { paused = put b.paused r.flow_id (paused_flow r now) }

-- an update of a flow that is paused; False where it is not
unfoldable pub update_paused : (PausedFlow → PausedFlow) → Text → Breakpoints → Bool × Breakpoints
update_paused f flow_id b = elim (get b.paused flow_id) [
  | none ↦ (false, b)
  | some pf ↦ (true, record b { paused = put b.paused flow_id (f pf) })
]

unfoldable pub set_tokens_before : Text → Option ℕ → Breakpoints → Bool × Breakpoints
unfolding update_paused
set_tokens_before flow_id tokens =
    update_paused (λ pf. record pf { tokens_before = tokens }) flow_id

unfoldable pub release :
    Text → Option InternalRequest → Option Text → Breakpoints → Bool × Breakpoints
unfolding update_paused
release flow_id mutated_ir release_payload =
    update_paused
      (λ pf. record pf {
        mutated_ir = mutated_ir;
        release_payload = release_payload;
        event_set = true;
      })
      flow_id

unfoldable pub drop : Text → Breakpoints → Bool × Breakpoints
unfolding update_paused
drop = update_paused (λ pf. record pf { dropped = true; event_set = true })

unfoldable pub pop_paused : Text → Breakpoints → Option PausedFlow × Breakpoints
pop_paused flow_id b = (get b.paused flow_id, record b { paused = remove b.paused flow_id })

abbrev pub drop_flow : Text × PausedFlow → Text × PausedFlow
drop_flow (flow_id, pf) = (flow_id, record pf { dropped = true; event_set = true })

unfoldable pub clear_all : Breakpoints → Breakpoints
clear_all b = record b { paused = map drop_flow b.paused }
