-- ===== src/Track/Gathered.antt =====
-- The loop over the tool results keeps a run's state well formed, and gathers ids of tracks only.
use transport_matters.Prelude.{
  true, refl, Bool-cases, Option, List, [], ◌∷◌, Text, Option-cases, inl, inr,
}
use transport_matters.Prelude.Dict.{get, remove, text_key}
use transport_matters.Ir.{ToolResultBlock}
use transport_matters.Ir.Value.{Json}
use transport_matters.Track.{RunTrackState}
use transport_matters.Track.Request.{
  Seen, owned, is_closed, resolve_wait_result, resolve_result, resolve_each,
}
use transport_matters.Track.Valid.{AllTracks, IsValid, Extends-refl, get-rooted, AllTracks-grows}
use transport_matters.Track.Resolved.{
  Advances, advance, Advances-refl, Advances-trans, add_id-tracks, add_parents-tracks,
  resolve_spawn-Advances, resolve_wait-Advances,
}

-- the ids that a loop has gathered are tracks
pub record IsGathered (seen : Seen) : Type 0 where
  pub valid : IsValid seen.state
  pub parents : AllTracks seen.state.tracks seen.parents
  pub owners : AllTracks seen.state.tracks seen.owners

module _ (loads : Text → Option Json) where
  gathered :
      (seen : Seen) (after : RunTrackState) (parents : List Text)
      → IsGathered seen
      → Advances seen.state after
      → AllTracks seen.state.tracks parents
      → IsGathered (record seen { state = after; parents = parents })
  gathered seen after parents g a h =
      let x = a.extends.grows in
      record {
        valid = a.valid;
        parents = AllTracks-grows seen.state.tracks after.tracks x parents h;
        owners = AllTracks-grows seen.state.tracks after.tracks x seen.owners g.owners;
      }

  -- a result of a wait: the wait is over
  resolve_waited :
      (seen : Seen) (ts : List Text) (result : ToolResultBlock)
      → IsGathered seen
      → Advances seen.state (
          resolve_wait_result loads ts result (record seen.state {
            wait_targets = remove seen.state.wait_targets result.tool_use_id;
          }))
  resolve_waited seen ts result g =
      let s = seen.state in
      let popped = record s { wait_targets = remove s.wait_targets result.tool_use_id } in
      let a = advance s popped g.valid refl (Extends-refl s.tracks g.valid.linked) g.valid.rooted in
      Advances-trans s popped _ a (resolve_wait-Advances loads ts result popped a.valid)

  resolve_owned :
      (result : ToolResultBlock) (seen : Seen)
      → IsGathered seen
      → Advances seen.state (owned result seen).state × IsGathered (owned result seen)
  unfolding owned
  resolve_owned result seen g =
      let s = seen.state in
      let a = Advances-refl s g.valid in
      let stale : IsGathered (record seen { stale_owner_seen = true }) = record {
        valid = g.valid;
        parents = g.parents;
        owners = g.owners;
      } in
      elim (Option-cases (get s.track_tool_uses result.tool_use_id)) [
        | inl e ↦ rw (e, owned) (a, g)
        | inr (owner, e) ↦ elim (Option-cases (get s.tracks owner)) [
          | inl n ↦ rw (e, n, owned) (a, stale)
          | inr (t, n) ↦ elim (Bool-cases (is_closed t.status)) [
            | inl c ↦ rw (e, n, c, owned) (a, stale)
            | inr c ↦
                rw (e, n, c, owned)
                  (
                    a,
                    record {
                      valid = g.valid;
                      parents = g.parents;
                      owners = add_id-tracks s.tracks owner seen.owners (rw n refl) g.owners;
                    },
                  )
          ]
        ]
      ]

  resolve_result-gathers :
      (result : ToolResultBlock) (seen : Seen)
      → IsGathered seen
      → Advances seen.state (resolve_result loads result seen).state
        × IsGathered (resolve_result loads result seen)
  unfolding resolve_result
  resolve_result-gathers result seen g =
      elim (Option-cases (get seen.state.open_spawns result.tool_use_id)) [
        | inr (p, e) ↦
            let t =
              get-rooted seen.state.tracks seen.state.open_spawns result.tool_use_id p
                g.valid.rooted e in
            let a = resolve_spawn-Advances loads p result seen.state g.valid t in
            rw (e, resolve_result)
              (
                a,
                gathered seen _ _ g a
                    (add_id-tracks seen.state.tracks p.parent_track_id seen.parents t g.parents),
              )
        | inl e ↦ elim (Option-cases (get seen.state.wait_targets result.tool_use_id)) [
          | inr (ts, w) ↦
              let a = resolve_waited seen ts result g in
              rw (e, w, resolve_result)
                (
                  a,
                  gathered seen _ _ g a (
                      add_parents-tracks seen.state.tracks ts seen.parents g.valid.linked
                        g.parents),
                )
          | inl w ↦ rw (e, w, resolve_result) (resolve_owned result seen g)
        ]
      ]

  -- The tool results of a request leave the state of its run well formed, lose none of its tracks,
  -- and name only tracks.
  pub resolve_each-gathers :
      (results : List ToolResultBlock) (seen : Seen)
      → IsGathered seen
      → Advances seen.state (resolve_each loads results seen).state
        × IsGathered (resolve_each loads results seen)
  unfolding resolve_each
  resolve_each-gathers [] seen g = (Advances-refl seen.state g.valid, g)
  resolve_each-gathers (r ∷ rs) seen g =
      let one = resolve_result-gathers r seen g in
      let rest = resolve_each-gathers rs (resolve_result loads r seen) one.1 in
      (Advances-trans seen.state _ _ one.0 rest.0, rest.1)
