-- ===== src/Track/Resolved.antt =====
-- A tool result that closes a spawn or a wait keeps a run's state well formed.
use transport_matters.Prelude.{
  ◌≡◌, refl, ◌∙◌, ◌⊎◌, Bool-cases, Option, some, List, [], ◌∷◌, Text, codes, Option-cases, inl, inr,
  arith,
}
use transport_matters.Prelude.Dict.{get, remove, text_key}
use transport_matters.Ir.{ToolResultBlock}
use transport_matters.Ir.Value.{Json, Fields}
use transport_matters.Ir.Value
use transport_matters.Override.Store.{text_or}
use transport_matters.Track.{
  TrackStatus, SpawnProvider, PendingSpawn, RunTrackState, string_or_none, json_payload,
}
use transport_matters.Track.Response.{set_status}
use transport_matters.Track.Request.{
  add_id, parent_of, add_parents, agent_track, wait_statuses, close_reported,
  resolve_spawn_tool_result, resolve_wait_result,
}
use transport_matters.Track.Valid.{
  Tracks, IsTrack, IsLinked, IsRooted, AllTracks, IsValid, Extends, Extends-refl, Extends-trans,
  put-Extends, set_status-Extends, get-linked, remove-IsRooted, IsRooted-grows,
}

-- the run is the same one, and its tracks are those it had and perhaps more
pub record Advances (s after : RunTrackState) : Type 0 where
  pub same_run : after.run_id ≡ s.run_id
  pub extends : Extends s.tracks after.tracks
  pub valid : IsValid after

pub advance :
    (s after : RunTrackState)
    → IsValid s
    → after.run_id ≡ s.run_id
    → Extends s.tracks after.tracks
    → IsRooted after.tracks after.open_spawns
    → Advances s after
advance s after v e x r = record {
  same_run = e;
  extends = x;
  valid = record { root = rw e (x.grows s.run_id v.root); linked = x.linked; rooted = r };
}

pub Advances-trans : (r s t : RunTrackState) → Advances r s → Advances s t → Advances r t
Advances-trans r s t a b = record {
  same_run = b.same_run ∙ a.same_run;
  extends = Extends-trans r.tracks s.tracks t.tracks a.extends b.extends;
  valid = b.valid;
}

pub Advances-refl : (s : RunTrackState) → IsValid s → Advances s s
Advances-refl s v = record { same_run = refl; extends = Extends-refl s.tracks v.linked; valid = v }

pub add_id-tracks :
    (d : Tracks) (k : Text) (ks : List Text)
    → IsTrack d k
    → AllTracks d ks
    → AllTracks d (add_id k ks)
add_id-tracks d k ks t h = ground arith

parent_of-IsTrack : (d : Tracks) (k p : Text) → IsLinked d d → parent_of d k ≡ some p → IsTrack d p
parent_of-IsTrack d k p h e = elim (Option-cases (get d k)) [
  | inl n ↦ ground (arith, n)
  | inr (t, n) ↦ ground (arith, n, (get-linked d d k t h n).2)
]

pub add_parents-tracks :
    (d : Tracks) (ts ks : List Text)
    → IsLinked d d
    → AllTracks d ks
    → AllTracks d (add_parents d ts ks)
unfolding add_parents
add_parents-tracks d [] ks h a = a
add_parents-tracks d (t ∷ ts) ks h a = elim (Option-cases (parent_of d t)) [
  | inl e ↦ rw (e, add_parents) (add_parents-tracks d ts ks h a)
  | inr (p, e) ↦
      rw (e, add_parents)
        (add_parents-tracks d ts (add_id p ks) h
          (add_id-tracks d p ks (parent_of-IsTrack d t p h e) a))
]

close_reported-Extends :
    (statuses : Fields) (ts : List Text) (d : Tracks)
    → IsLinked d d
    → Extends d (close_reported statuses ts d)
unfolding close_reported
close_reported-Extends statuses [] d h = Extends-refl d h
close_reported-Extends statuses (t ∷ ts) d h = elim (Bool-cases (Value.contains statuses t)) [
  | inl e ↦
      let x = set_status-Extends TrackStatus.closed t d h in
      rw (e, close_reported)
        (Extends-trans d (set_status TrackStatus.closed t d) _ x
          (close_reported-Extends statuses ts _ x.linked))
  | inr e ↦ rw (e, close_reported) (close_reported-Extends statuses ts d h)
]

-- the state with other tracks
pub retracked :
    (s : RunTrackState) (d : Tracks)
    → IsValid s
    → Extends s.tracks d
    → Advances s (record s { tracks = d })
retracked s d v x =
    advance s (record s { tracks = d }) v refl x
      (IsRooted-grows s.tracks d x.grows s.open_spawns v.rooted)

provider-cases : (p : SpawnProvider) → (p ≡ SpawnProvider.anthropic) ⊎ (p ≡ SpawnProvider.codex)
provider-cases SpawnProvider.anthropic = inl refl
provider-cases SpawnProvider.codex = inr refl

-- new tracks, and one spawn fewer
resolved :
    (s : RunTrackState) (d : Tracks) (id : Text)
    → IsValid s
    → Extends s.tracks d
    → Advances s (record s { tracks = d; open_spawns = remove s.open_spawns id })
resolved s d id v x =
    advance s (record s { tracks = d; open_spawns = remove s.open_spawns id }) v refl x
      (remove-IsRooted d s.open_spawns id
        (IsRooted-grows s.tracks d x.grows s.open_spawns v.rooted))

module _ (loads : Text → Option Json) where
  pub resolve_spawn-Advances :
      (p : PendingSpawn) (result : ToolResultBlock) (s : RunTrackState)
      → IsValid s
      → IsTrack s.tracks p.parent_track_id
      → Advances s (resolve_spawn_tool_result loads p result s)
  unfolding resolve_spawn_tool_result
  resolve_spawn-Advances p result s v t = elim (provider-cases p.provider) [
    | inl e ↦
        rw (e, resolve_spawn_tool_result)
          (resolved s _ p.spawn_id v (
            set_status-Extends TrackStatus.closed (text_or p.track_id p.spawn_id) s.tracks
              v.linked))
    | inr e ↦ elim (Option-cases (json_payload loads result)) [
      | inl n ↦
          rw (e, n, resolve_spawn_tool_result)
            (resolved s s.tracks p.spawn_id v (Extends-refl s.tracks v.linked))
      | inr (payload, n) ↦
          elim (Option-cases (string_or_none (Value.get payload (codes "agent_id")))) [
            | inl a ↦
                rw (e, n, a, resolve_spawn_tool_result)
                  (resolved s s.tracks p.spawn_id v (Extends-refl s.tracks v.linked))
            | inr (agent_id, a) ↦
                rw (e, n, a, resolve_spawn_tool_result)
                  (resolved s _ p.spawn_id v
                    (put-Extends s.tracks agent_id (agent_track agent_id _ p) v.linked refl t))
          ]
    ]
  ]

  pub resolve_wait-Advances :
      (ts : List Text) (result : ToolResultBlock) (s : RunTrackState)
      → IsValid s
      → Advances s (resolve_wait_result loads ts result s)
  unfolding resolve_wait_result
  resolve_wait-Advances ts result s v = elim (Option-cases (json_payload loads result)) [
    | inl n ↦ rw (n, resolve_wait_result) (Advances-refl s v)
    | inr (payload, n) ↦ elim (Option-cases (wait_statuses payload)) [
      | inl w ↦ rw (n, w, resolve_wait_result) (Advances-refl s v)
      | inr (statuses, w) ↦
          let x = close_reported-Extends statuses ts s.tracks v.linked in
          rw (n, w, resolve_wait_result)
            (advance s _ v refl x (
              IsRooted-grows s.tracks (close_reported statuses ts s.tracks) x.grows s.open_spawns
                v.rooted))
    ]
  ]
