-- ===== src/Track/Assign.antt =====
-- `TrackManager.classify_request` and `record_exchange` of
-- api/src/transport_matters/track_manager.py: the track of a request. `none` is a KeyError on
-- `state.tracks`.
use transport_matters.Prelude.{
  Bool, true, false, not, ◌&&◌, ◌==◌, Option, none, some, List, [], ◌∷◌, Text, text_eq, is_some,
  if◌then◌else◌,
}
use transport_matters.Prelude.Dict.{Dict, get, put, contains, text_key}
use transport_matters.Ir.{ToolResultBlock, InternalRequest, InternalResponse}
use transport_matters.Ir.Value.{Json}
use transport_matters.Track.{
  SpawnAnchor, TrackAssignment, TrackSignature, TrackRecord, TrackStatus, TrackRole, RunTrackState,
  tool_results, request_signature, codex_subagent_track_id, codex_display_name_for_track,
}
use transport_matters.Track.Response.{observe_response}
use transport_matters.Track.Request.{Seen, add_parents, is_closed, single, resolve_each}

abbrev pub first_seen : RunTrackState → Seen
first_seen s = record { state = s; parents = []; owners = []; stale_owner_seen = false }

-- the track that the gathered ids name
unfoldable pub named_track : Text → Seen → Option Text
named_track run_id seen = elim seen.parents [
  | p ∷ ps ↦ single (p ∷ ps)
  | [] ↦ elim (single seen.owners) [
    | some owner ↦ some owner
    | none ↦ if seen.stale_owner_seen then some run_id else none
  ]
]

-- `_parent_track_for_tool_result`
unfoldable pub parent_track_for : RunTrackState → List ToolResultBlock → Option Text
parent_track_for s [] = none
parent_track_for s (r ∷ rs) =
    let rest = parent_track_for s rs in
    elim (get s.open_spawns r.tool_use_id) [
      | some pending ↦ some pending.parent_track_id
      | none ↦ elim (get s.wait_targets r.tool_use_id) [
        | none ↦ rest
        | some targets ↦ elim (single (add_parents s.tracks targets [])) [
          | some p ↦ some p
          | none ↦ rest
        ]
      ]
    ]

abbrev pub option_eq : Option Text → Option Text → Bool
option_eq none none = true
option_eq (some a) (some b) = text_eq a b
option_eq _ _ = false

abbrev pub has_signature : Option TrackSignature → TrackSignature → Bool
has_signature none g = false
has_signature (some f) g =
    f.tools_count == g.tools_count && option_eq f.cc_version_suffix g.cc_version_suffix

abbrev pub is_live_subagent : TrackRecord → Bool
is_live_subagent t = elim t.role [
  | TrackRole.parent ↦ false
  | TrackRole.subagent ↦ not (is_closed t.status)
]

-- the ids of the live subagents of which `p` holds, in the order of the tracks
unfoldable pub live_ids : (Option TrackSignature → Bool) → Dict Text TrackRecord → List Text
live_ids p [] = []
live_ids p ((k, t) ∷ d) =
    let rest = live_ids p d in
    if is_live_subagent t && p t.signature then t.track_id ∷ rest else rest

unfoldable pub by_signature : RunTrackState → InternalRequest → Text
unfolding live_ids
by_signature s r = elim (live_ids (λ g. not (is_some g)) s.tracks) [
  | t ∷ ts ↦ t
  | [] ↦ elim (single (live_ids (λ g. has_signature g (request_signature r)) s.tracks)) [
    | some t ↦ t
    | none ↦ s.run_id
  ]
]

abbrev pub subagent_track : Text → Text → TrackRecord
subagent_track track_id run_id = record {
  track_id = track_id;
  parent_track_id = some run_id;
  display_name = none;
  role = TrackRole.subagent;
  status = TrackStatus.opened;
  signature = none;
  spawn_exchange_id = none;
  spawn_tool_use_id = none;
  spawn_order = none;
}

abbrev pub anchor_of : TrackRecord → Option SpawnAnchor
anchor_of t =
    let anchor : SpawnAnchor = record {
      track_spawn_exchange_id = t.spawn_exchange_id;
      track_spawn_tool_use_id = t.spawn_tool_use_id;
      track_spawn_order = t.spawn_order;
    } in
    if is_some t.spawn_exchange_id
    then some anchor
    else (if is_some t.spawn_tool_use_id
        then some anchor
        else (if is_some t.spawn_order then some anchor else none))

abbrev pub assignment_of : TrackRecord → TrackAssignment
assignment_of t = record {
  track_id = t.track_id;
  parent_track_id = t.parent_track_id;
  track_display_name = t.display_name;
  track_role = t.role;
  spawn_anchor = anchor_of t;
}

unfoldable pub assignment : RunTrackState → Text → Option TrackAssignment
assignment s track_id = elim (get s.tracks track_id) [
  | none ↦ none
  | some t ↦ some (assignment_of t)
]

module _ (loads : Text → Option Json) where
  unfoldable pub resolve_tool_results :
      InternalRequest → RunTrackState → Option Text × RunTrackState
  unfolding named_track resolve_each
  resolve_tool_results r s =
      let seen = resolve_each loads (tool_results r.messages) (first_seen s) in
      (named_track s.run_id seen, seen.state)

  -- the state and the id of the track that `_assign_request` looks up
  unfoldable pub choose_track : InternalRequest → RunTrackState → Option Text → RunTrackState × Text
  unfolding parent_track_for by_signature
  choose_track r s (some parent) = (s, parent)
  choose_track r s none = elim (parent_track_for s (tool_results r.messages)) [
    | some parent ↦ (s, parent)
    | none ↦ elim (codex_subagent_track_id loads r) [
      | none ↦ (s, by_signature s r)
      | some t ↦
          if contains s.tracks t
          then (s, t)
          else (record s { tracks = put s.tracks t (subagent_track t s.run_id) }, t)
    ]
  ]

  unfoldable pub observe_track : InternalRequest → Text → Text → TrackRecord → TrackRecord
  observe_track r run_id track_id t =
      let signed = record t {
        signature = elim t.signature [ none ↦ some (request_signature r) | some g ↦ some g ];
      } in
      if text_eq track_id run_id then signed else elim t.display_name [
        | some name ↦ signed
        | none ↦ elim (codex_display_name_for_track loads r track_id) [
          | none ↦ signed
          | some name ↦ record signed { display_name = some name }
        ]
      ]

  unfoldable pub observe_request_signature :
      InternalRequest → Text → RunTrackState → Option RunTrackState
  unfolding observe_track
  observe_request_signature r track_id s = elim (get s.tracks track_id) [
    | none ↦ none
    | some t ↦
        some (record s { tracks = put s.tracks track_id (observe_track r s.run_id track_id t) })
  ]

  -- the assignment of the chosen track, before and after the request is observed on it
  unfoldable pub observe_chosen :
      InternalRequest → RunTrackState → Text → Option (TrackAssignment × RunTrackState)
  unfolding observe_request_signature assignment
  observe_chosen r s track_id = elim (assignment s track_id) [
    | none ↦ none
    | some a ↦ elim (observe_request_signature r a.track_id s) [
      | none ↦ none
      | some after ↦ elim (assignment after a.track_id) [ none ↦ none | some b ↦ some (b, after) ]
    ]
  ]

  unfoldable pub classify_request :
      InternalRequest → RunTrackState → Option (TrackAssignment × RunTrackState)
  unfolding resolve_tool_results choose_track observe_chosen
  classify_request r s =
      let resolved = resolve_tool_results r s in
      let chosen = choose_track r resolved.1 resolved.0 in observe_chosen r chosen.0 chosen.1

abbrev pub root_track : Text → TrackRecord
root_track run_id = record {
  track_id = run_id;
  parent_track_id = none;
  display_name = none;
  role = TrackRole.parent;
  status = TrackStatus.opened;
  signature = none;
  spawn_exchange_id = none;
  spawn_tool_use_id = none;
  spawn_order = none;
}

abbrev pub new_run : Text → RunTrackState
new_run run_id = record {
  run_id = run_id;
  tracks = (run_id, root_track run_id) ∷ [];
  open_spawns = [];
  wait_targets = [];
  track_tool_uses = [];
}

-- `TrackManager._state`
unfoldable pub run_state : Dict Text RunTrackState → Text → RunTrackState
run_state runs run_id = elim (get runs run_id) [ none ↦ new_run run_id | some s ↦ s ]

-- one exchange of a run
unfoldable pub record_exchange :
    (Text → Option Json)
    → Dict Text RunTrackState
    → Text
    → InternalRequest
    → Option InternalResponse
    → Option Text
    → Option (TrackAssignment × Dict Text RunTrackState)
unfolding run_state classify_request observe_response
record_exchange loads runs run_id r response exchange_id =
    elim (classify_request loads r (run_state runs run_id)) [
      | none ↦ none
      | some (a, s) ↦ some (
        a,
        put runs run_id (elim response [
          | none ↦ s
          | some reply ↦ observe_response a.track_id reply exchange_id s
        ]),
      )
    ]
