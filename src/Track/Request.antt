-- ===== src/Track/Request.antt =====
-- `TrackManager._resolve_tool_results` of api/src/transport_matters/track_manager.py: the tool
-- results of a request close the spawns and waits that they answer. A set of track ids is a list
-- without repetitions.
use transport_matters.Prelude.{
  Bool, true, false, Option, none, some, List, [], ◌∷◌, Text, codes, text_eq, any, if◌then◌else◌,
}
use transport_matters.Prelude.Dict.{Dict, get, put, remove, text_key}
use transport_matters.Ir.{ToolResultBlock}
use transport_matters.Ir.Value.{Json, Fields}
use transport_matters.Ir.Value
use transport_matters.Override.Store.{text_or}
use transport_matters.Track.{
  TrackRecord, TrackStatus, TrackRole, SpawnProvider, PendingSpawn, RunTrackState, string_or_none,
  or_next, json_payload,
}
use transport_matters.Track.Response.{set_status}

abbrev pub add_id : Text → List Text → List Text
add_id t ts = if any (text_eq t) ts then ts else t ∷ ts

abbrev pub parent_of : Dict Text TrackRecord → Text → Option Text
parent_of tracks target = elim (get tracks target) [ none ↦ none | some t ↦ t.parent_track_id ]

-- the parents of the targets that are tracks
unfoldable pub add_parents : Dict Text TrackRecord → List Text → List Text → List Text
add_parents tracks [] ids = ids
add_parents tracks (t ∷ ts) ids =
    add_parents tracks ts (elim (parent_of tracks t) [ none ↦ ids | some p ↦ add_id p ids ])

abbrev pub is_closed : TrackStatus → Bool
is_closed TrackStatus.opened = false
is_closed TrackStatus.terminating = false
is_closed TrackStatus.closed = true

abbrev pub agent_track : Text → Option Text → PendingSpawn → TrackRecord
agent_track agent_id name pending = record {
  track_id = agent_id;
  parent_track_id = some pending.parent_track_id;
  display_name = name;
  role = TrackRole.subagent;
  status = TrackStatus.opened;
  signature = none;
  spawn_exchange_id = pending.spawn_exchange_id;
  spawn_tool_use_id = pending.spawn_tool_use_id;
  spawn_order = pending.spawn_order;
}

-- `statuses` of a wait result that did not time out
unfoldable pub wait_statuses : Fields → Option Fields
wait_statuses payload = elim (Value.get payload (codes "timed_out")) [
  | some (Json.bool true) ↦ none
  | _ ↦ elim (Value.get payload (codes "status")) [ some (Json.obj d) ↦ some d | _ ↦ none ]
]

unfoldable pub close_reported : Fields → List Text → Dict Text TrackRecord → Dict Text TrackRecord
unfolding set_status
close_reported statuses [] tracks = tracks
close_reported statuses (t ∷ ts) tracks =
    close_reported statuses ts
      (if Value.contains statuses t then set_status TrackStatus.closed t tracks else tracks)

-- what the loop over the tool results has gathered
pub record Seen : Type 0 where
  pub state : RunTrackState
  pub parents : List Text
  pub owners : List Text
  pub stale_owner_seen : Bool

abbrev pub single : List Text → Option Text
single (t ∷ []) = some t
single _ = none

-- a result of another tool use: the track that made the use
unfoldable pub owned : ToolResultBlock → Seen → Seen
owned result seen =
    let s = seen.state in
    elim (get s.track_tool_uses result.tool_use_id) [
      | none ↦ seen
      | some owner ↦ elim (get s.tracks owner) [
        | none ↦ record seen { stale_owner_seen = true }
        | some t ↦
            if is_closed t.status
            then record seen { stale_owner_seen = true }
            else record seen { owners = add_id owner seen.owners }
      ]
    ]

module _ (loads : Text → Option Json) where
  unfoldable pub resolve_spawn_tool_result :
      PendingSpawn → ToolResultBlock → RunTrackState → RunTrackState
  unfolding set_status
  resolve_spawn_tool_result pending result s =
      let spawns = remove s.open_spawns pending.spawn_id in
      elim pending.provider [
        | SpawnProvider.anthropic ↦ record s {
          tracks =
              set_status TrackStatus.closed (text_or pending.track_id pending.spawn_id) s.tracks;
          open_spawns = spawns;
        }
        | SpawnProvider.codex ↦ elim (json_payload loads result) [
          | none ↦ record s { open_spawns = spawns }
          | some payload ↦ elim (string_or_none (Value.get payload (codes "agent_id"))) [
            | none ↦ record s { open_spawns = spawns }
            | some agent_id ↦ record s {
              tracks = put s.tracks agent_id (
                  agent_track agent_id
                    (or_next (string_or_none (Value.get payload (codes "nickname")))
                      (or_next pending.display_name (some agent_id)))
                    pending);
              open_spawns = spawns;
            }
          ]
        ]
      ]

  unfoldable pub resolve_wait_result : List Text → ToolResultBlock → RunTrackState → RunTrackState
  unfolding close_reported
  resolve_wait_result targets result s = elim (json_payload loads result) [
    | none ↦ s
    | some payload ↦ elim (wait_statuses payload) [
      | none ↦ s
      | some statuses ↦ record s { tracks = close_reported statuses targets s.tracks }
    ]
  ]

  unfoldable pub resolve_result : ToolResultBlock → Seen → Seen
  unfolding owned resolve_spawn_tool_result resolve_wait_result
  resolve_result result seen =
      let s = seen.state in
      elim (get s.open_spawns result.tool_use_id) [
        | some pending ↦ record seen {
          parents = add_id pending.parent_track_id seen.parents;
          state = resolve_spawn_tool_result pending result s;
        }
        | none ↦ elim (get s.wait_targets result.tool_use_id) [
          | some targets ↦ record seen {
            parents = add_parents s.tracks targets seen.parents;
            state =
                resolve_wait_result targets result
                  (record s { wait_targets = remove s.wait_targets result.tool_use_id });
          }
          | none ↦ owned result seen
        ]
      ]

  unfoldable pub resolve_each : List ToolResultBlock → Seen → Seen
  unfolding resolve_result
  resolve_each [] seen = seen
  resolve_each (r ∷ rs) seen = resolve_each rs (resolve_result r seen)
