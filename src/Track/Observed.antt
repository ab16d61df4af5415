-- ===== src/Track/Observed.antt =====
-- Observing a response keeps the tracks of its run well formed.
use transport_matters.Prelude.{
  ℕ, Bool, true, false, ◌≡◌, refl, Option, none, some, List, [], ◌∷◌, Text, codes, text_eq,
  Option-cases, inl, inr, if◌then◌else◌,
}
use transport_matters.Prelude.Dict.{get, put, text_key}
use transport_matters.Ir.{ToolUseBlock, ReplyBlock}
use transport_matters.Ir.Value.{Json, Fields}
use transport_matters.Ir.Value
use transport_matters.Track.{
  TrackRecord, TrackStatus, SpawnProvider, PendingSpawn, RunTrackState, string_or_none, string_list,
  agent_kill_targets,
}
use transport_matters.Track.Response.{
  SpawnPlace, pending_spawn, spawned_track, set_default, register_anthropic_spawn,
  register_codex_spawn, register_wait, observe_tool_use, observe_blocks,
}
use transport_matters.Track.Valid.{
  Tracks, IsTrack, HasParent, IsLinked, IsValid, Extends, Extends-refl, put-Extends, IsRooted-grows,
  put-IsRooted, set_all-Extends,
}
use transport_matters.Track.Resolved.{Advances, advance, Advances-refl, Advances-trans, retracked}

-- the tool uses of a response of one track
module _ (current : Text) (exchange_id : Option Text) where
  spawn-Advances :
      (p : SpawnPlace) (d : Tracks) (q : PendingSpawn) (s : RunTrackState)
      → IsValid s
      → Extends s.tracks d
      → IsTrack s.tracks q.parent_track_id
      → Advances s (record s { tracks = d; open_spawns = put s.open_spawns p.spawn_id q })
  spawn-Advances p d q s v x t = advance s _ v refl x (
      put-IsRooted d s.open_spawns p.spawn_id q
        (IsRooted-grows s.tracks d x.grows s.open_spawns v.rooted) (x.grows q.parent_track_id t))

  set_default-Extends :
      (d : Tracks) (k : Text) (t : TrackRecord)
      → IsLinked d d
      → t.track_id ≡ k
      → HasParent d t.parent_track_id
      → Extends d (set_default d k t)
  unfolding set_default
  set_default-Extends d k t h i p = elim (Option-cases (get d k)) [
    | inl e ↦ rw (e, set_default) (put-Extends d k t h i p)
    | inr (w, e) ↦ rw (e, set_default) (Extends-refl d h)
  ]

  register_wait-Advances :
      (id : Text) (ts : List Text) (s : RunTrackState)
      → IsValid s
      → Advances s (register_wait id ts s)
  unfolding register_wait
  register_wait-Advances id [] s v = Advances-refl s v
  register_wait-Advances id (t ∷ ts) s v =
      let x = set_all-Extends TrackStatus.terminating (t ∷ ts) s.tracks v.linked in
      advance s _ v refl x (IsRooted-grows s.tracks _ x.grows s.open_spawns v.rooted)

  branch :
      (s : RunTrackState) (b : Bool) (x y : ℕ × RunTrackState)
      → Advances s x.1
      → Advances s y.1
      → Advances s (if b then x else y).1
  branch s true x y a c = a
  branch s false x y a c = c

  observe_tool_use-Advances :
      (b : ToolUseBlock) (n : ℕ) (s : RunTrackState)
      → IsValid s
      → IsTrack s.tracks current
      → Advances s (observe_tool_use current exchange_id b (n, s)).1
  unfolding observe_tool_use register_anthropic_spawn register_codex_spawn
  observe_tool_use-Advances b n s v t =
      let used = record s { track_tool_uses = put s.track_tool_uses b.id current } in
      let same : Advances s used =
        advance s used v refl (Extends-refl s.tracks v.linked) v.rooted in
      let p : SpawnPlace = record {
        parent_track_id = current;
        spawn_id = b.id;
        exchange_id = exchange_id;
        order = n;
      } in
      let agent = string_or_none (Value.get b.input (codes "subagent_type")) in
      let ts = string_list (Value.get b.input (codes "targets")) in
      branch s (text_eq b.name (codes "Agent")) _ _
        (Advances-trans s used _ same (
          spawn-Advances p _ (pending_spawn p SpawnProvider.anthropic agent (some b.id)) used
            same.valid (set_default-Extends s.tracks b.id (spawned_track p agent) v.linked refl t)
            t))
        (branch s (text_eq b.name (codes "spawn_agent")) _ _
          (Advances-trans s used _ same (
            spawn-Advances p s.tracks
              (pending_spawn p SpawnProvider.codex
                (string_or_none (Value.get b.input (codes "agent_type"))) none)
              used same.valid (Extends-refl s.tracks v.linked) t))
          (branch s (text_eq b.name (codes "wait_agent")) _ _
            (Advances-trans s used _ same (register_wait-Advances b.id ts used same.valid))
            (branch s (text_eq b.name (codes "agent_kill")) _ _
              (Advances-trans s used _ same (
                retracked used _ same.valid (
                  set_all-Extends TrackStatus.closed (agent_kill_targets b.input) s.tracks
                    v.linked)))
              same)))

  -- A response that is observed on a track of a well-formed run leaves the run well formed and with
  -- all its tracks.
  pub observe_blocks-Advances :
      (bs : List ReplyBlock) (n : ℕ) (s : RunTrackState)
      → IsValid s
      → IsTrack s.tracks current
      → Advances s (observe_blocks current exchange_id bs (n, s)).1
  unfolding observe_blocks
  observe_blocks-Advances [] n s v t = Advances-refl s v
  observe_blocks-Advances (ReplyBlock.tool_use b ∷ bs) n s v t =
      let one = observe_tool_use-Advances b n s v t in
      let next = observe_tool_use current exchange_id b (n, s) in
      Advances-trans s next.1 _ one
        (observe_blocks-Advances bs next.0 next.1 one.valid (one.extends.grows current t))
  observe_blocks-Advances (ReplyBlock.text b ∷ bs) n s v t = observe_blocks-Advances bs n s v t
  observe_blocks-Advances (ReplyBlock.thinking b ∷ bs) n s v t = observe_blocks-Advances bs n s v t
  observe_blocks-Advances (ReplyBlock.unknown b ∷ bs) n s v t = observe_blocks-Advances bs n s v t
