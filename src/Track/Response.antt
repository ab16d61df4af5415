-- ===== src/Track/Response.antt =====
-- `TrackManager.observe_response` of api/src/transport_matters/track_manager.py: the tool uses of a
-- response open spawns, wait for agents and kill them.
use transport_matters.Prelude.{
  ℕ, ◌+◌, Option, none, some, List, [], ◌∷◌, Text, codes, text_eq, if◌then◌else◌,
}
use transport_matters.Prelude.Dict.{Dict, get, put, text_key}
use transport_matters.Ir.{ToolUseBlock, ReplyBlock, InternalResponse}
use transport_matters.Ir.Value.{Fields}
use transport_matters.Ir.Value
use transport_matters.Track.{
  TrackRecord, TrackStatus, TrackRole, SpawnProvider, PendingSpawn, RunTrackState, string_or_none,
  string_list, agent_kill_targets,
}

-- `if target in state.tracks: state.tracks[target].status = status`
unfoldable pub set_status : TrackStatus → Text → Dict Text TrackRecord → Dict Text TrackRecord
set_status status target tracks = elim (get tracks target) [
  | none ↦ tracks
  | some t ↦ put tracks target (record t { status = status })
]

unfoldable pub set_all : TrackStatus → List Text → Dict Text TrackRecord → Dict Text TrackRecord
unfolding set_status
set_all status [] tracks = tracks
set_all status (t ∷ ts) tracks = set_all status ts (set_status status t tracks)

-- `d.setdefault(k, v)`
unfoldable pub set_default : Dict Text TrackRecord → Text → TrackRecord → Dict Text TrackRecord
set_default d k v = elim (get d k) [ none ↦ put d k v | some w ↦ d ]

-- where and when a spawn happens
pub record SpawnPlace : Type 0 where
  pub parent_track_id : Text
  pub spawn_id : Text
  pub exchange_id : Option Text
  pub order : ℕ

abbrev pub pending_spawn : SpawnPlace → SpawnProvider → Option Text → Option Text → PendingSpawn
pending_spawn p provider name track = record {
  spawn_id = p.spawn_id;
  provider = provider;
  parent_track_id = p.parent_track_id;
  display_name = name;
  track_id = track;
  spawn_exchange_id = p.exchange_id;
  spawn_tool_use_id = some p.spawn_id;
  spawn_order = some p.order;
}

abbrev pub spawned_track : SpawnPlace → Option Text → TrackRecord
spawned_track p name = record {
  track_id = p.spawn_id;
  parent_track_id = some p.parent_track_id;
  display_name = name;
  role = TrackRole.subagent;
  status = TrackStatus.opened;
  signature = none;
  spawn_exchange_id = p.exchange_id;
  spawn_tool_use_id = some p.spawn_id;
  spawn_order = some p.order;
}

unfoldable pub register_anthropic_spawn : SpawnPlace → Fields → RunTrackState → RunTrackState
unfolding set_default
register_anthropic_spawn p input s =
    let name = string_or_none (Value.get input (codes "subagent_type")) in
    record s {
      open_spawns =
          put s.open_spawns p.spawn_id
            (pending_spawn p SpawnProvider.anthropic name (some p.spawn_id));
      tracks = set_default s.tracks p.spawn_id (spawned_track p name);
    }

unfoldable pub register_codex_spawn : SpawnPlace → Fields → RunTrackState → RunTrackState
register_codex_spawn p input s =
    let name = string_or_none (Value.get input (codes "agent_type")) in
    record s {
      open_spawns = put s.open_spawns p.spawn_id (pending_spawn p SpawnProvider.codex name none);
    }

unfoldable pub register_wait : Text → List Text → RunTrackState → RunTrackState
unfolding set_all
register_wait id [] s = s
register_wait id (t ∷ ts) s = record s {
  wait_targets = put s.wait_targets id (t ∷ ts);
  tracks = set_all TrackStatus.terminating (t ∷ ts) s.tracks;
}

-- one tool use of a response, and the order of the next spawn
unfoldable pub observe_tool_use :
    Text → Option Text → ToolUseBlock → ℕ × RunTrackState → ℕ × RunTrackState
unfolding register_anthropic_spawn register_codex_spawn register_wait set_all
observe_tool_use current exchange_id b (order, s) =
    let used = record s { track_tool_uses = put s.track_tool_uses b.id current } in
    let p : SpawnPlace = record {
      parent_track_id = current;
      spawn_id = b.id;
      exchange_id = exchange_id;
      order = order;
    } in
    if text_eq b.name (codes "Agent")
    then (order + 1, register_anthropic_spawn p b.input used)
    else if text_eq b.name (codes "spawn_agent")
    then (order + 1, register_codex_spawn p b.input used)
    else if text_eq b.name (codes "wait_agent")
    then (order, register_wait b.id (string_list (Value.get b.input (codes "targets"))) used)
    else if text_eq b.name (codes "agent_kill")
    then (
      order,
      record used { tracks = set_all TrackStatus.closed (agent_kill_targets b.input) used.tracks },
    )
    else (order, used)

unfoldable pub observe_blocks :
    Text → Option Text → List ReplyBlock → ℕ × RunTrackState → ℕ × RunTrackState
unfolding observe_tool_use
observe_blocks current exchange_id [] o = o
observe_blocks current exchange_id (ReplyBlock.tool_use b ∷ bs) o =
    observe_blocks current exchange_id bs (observe_tool_use current exchange_id b o)
observe_blocks current exchange_id (b ∷ bs) o = observe_blocks current exchange_id bs o

unfoldable pub observe_response :
    Text → InternalResponse → Option Text → RunTrackState → RunTrackState
unfolding observe_blocks
observe_response current response exchange_id s =
    (observe_blocks current exchange_id response.content (0, s)).1
