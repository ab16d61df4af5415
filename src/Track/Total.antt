-- ===== src/Track/Total.antt =====
-- The track that a request is given is a track of its run.
use transport_matters.Prelude.{
  Bool, ◌≡◌, refl, Option, none, some, List, [], ◌∷◌, Text, not, subst, ◌⊎◌, Option-cases,
  Bool-cases, inl, inr, is_some, arith,
}
use transport_matters.Prelude.Dict.{get, contains, text_key}
use transport_matters.Ir.{ToolResultBlock, InternalRequest}
use transport_matters.Ir.Value.{Json}
use transport_matters.Track.{
  TrackSignature, RunTrackState, tool_results, request_signature, codex_subagent_track_id,
}
use transport_matters.Track.Request.{Seen, add_parents, single}
use transport_matters.Track.Assign.{
  named_track, parent_track_for, live_ids, has_signature, by_signature, subagent_track,
  choose_track,
}
use transport_matters.Track.Valid.{
  Tracks, IsTrack, HasParent, IsLinked, AllTracks, IsValid, put-Extends, get-rooted, IsRooted-grows,
  put-IsTrack,
}
use transport_matters.Track.Resolved.{Advances, advance, Advances-refl, add_parents-tracks}
use transport_matters.Track.Gathered.{IsGathered}

single-track : (d : Tracks) (ks : List Text) → AllTracks d ks → HasParent d (single ks)
single-track d [] a = tt
single-track d (k ∷ []) a = a.0
single-track d (k ∷ j ∷ ks) a = tt

cons-cases : (ks : List Text) → (ks ≡ []) ⊎ ((k : Text) × (js : List Text) × (ks ≡ k ∷ js))
cons-cases [] = inl refl
cons-cases (k ∷ js) = inr (k, js, refl)

pub named_track-HasParent :
    (seen : Seen)
    → IsGathered seen
    → HasParent seen.state.tracks (named_track seen.state.run_id seen)
unfolding named_track
named_track-HasParent seen g =
    let d = seen.state.tracks in
    elim (cons-cases seen.parents) [
      | inr (p, ps, e) ↦
          rw (e, named_track) (single-track d (p ∷ ps) (subst (AllTracks d) e g.parents))
      | inl e ↦ elim (Option-cases (single seen.owners)) [
        | inr (k, o) ↦
            rw (e, o, named_track) (subst (HasParent d) o (single-track d seen.owners g.owners))
        | inl o ↦ elim (Bool-cases seen.stale_owner_seen) [
          | inl b ↦ rw (e, o, b, named_track) g.valid.root
          | inr b ↦ rw (e, o, b, named_track) tt
        ]
      ]
    ]

live_ids-tracks :
    (p : Option TrackSignature → Bool) (a d : Tracks) → IsLinked a d → AllTracks a (live_ids p d)
unfolding live_ids
live_ids-tracks p a [] h = tt
live_ids-tracks p a ((k, t) ∷ d) h = ground (arith, live_ids-tracks p a d h.3)

by_signature-IsTrack :
    (s : RunTrackState) (r : InternalRequest) → IsValid s → IsTrack s.tracks (by_signature s r)
unfolding by_signature
by_signature-IsTrack s r v =
    let unsigned = live_ids (λ g. not (is_some g)) s.tracks in
    let same = live_ids (λ g. has_signature g (request_signature r)) s.tracks in
    elim (cons-cases unsigned) [
      | inr (t, ts, e) ↦
          rw (e, by_signature)
            (subst (AllTracks s.tracks) e (live_ids-tracks _ s.tracks s.tracks v.linked)).0
      | inl e ↦ elim (Option-cases (single same)) [
        | inl o ↦ rw (e, o, by_signature) v.root
        | inr (t, o) ↦
            rw (e, o, by_signature)
              (subst (HasParent s.tracks) o
                (single-track s.tracks same (live_ids-tracks _ s.tracks s.tracks v.linked)))
      ]
    ]

parent_track_for-HasParent :
    (s : RunTrackState) (rs : List ToolResultBlock)
    → IsValid s
    → HasParent s.tracks (parent_track_for s rs)
unfolding parent_track_for
parent_track_for-HasParent s [] v = tt
parent_track_for-HasParent s (r ∷ rs) v =
    let rest = parent_track_for-HasParent s rs v in
    elim (Option-cases (get s.open_spawns r.tool_use_id)) [
      | inr (p, e) ↦
          rw (e, parent_track_for) (get-rooted s.tracks s.open_spawns r.tool_use_id p v.rooted e)
      | inl e ↦ elim (Option-cases (get s.wait_targets r.tool_use_id)) [
        | inl w ↦ rw (e, w, parent_track_for) rest
        | inr (ts, w) ↦ elim (Option-cases (single (add_parents s.tracks ts []))) [
          | inl o ↦ rw (e, w, o, parent_track_for) rest
          | inr (p, o) ↦
              rw (e, w, o, parent_track_for)
                (subst (HasParent s.tracks) o
                  (single-track s.tracks _ (add_parents-tracks s.tracks ts [] v.linked tt)))
        ]
      ]
    ]

-- what `_assign_request` gives: a later state of the run and one of its tracks
pub record Chosen (s : RunTrackState) (c : RunTrackState × Text) : Type 0 where
  pub advances : Advances s c.0
  pub known : IsTrack c.0.tracks c.1

module _ (loads : Text → Option Json) (r : InternalRequest) where
  pub choose_track-Chosen :
      (s : RunTrackState) (parent : Option Text)
      → IsValid s
      → HasParent s.tracks parent
      → Chosen s (choose_track loads r s parent)
  unfolding choose_track
  choose_track-Chosen s (some p) v h = record { advances = Advances-refl s v; known = h }
  choose_track-Chosen s none v h =
      let rs = tool_results r.messages in
      elim (Option-cases (parent_track_for s rs)) [
        | inr (p, e) ↦
            rw (e, choose_track)
              (record {
                advances = Advances-refl s v;
                known = subst (HasParent s.tracks) e (parent_track_for-HasParent s rs v);
              })
        | inl e ↦ elim (Option-cases (codex_subagent_track_id loads r)) [
          | inl c ↦
              rw (e, c, choose_track)
                (record { advances = Advances-refl s v; known = by_signature-IsTrack s r v })
          | inr (t, c) ↦ elim (Bool-cases (contains s.tracks t)) [
            | inl b ↦
                rw (e, c, b, choose_track) (record { advances = Advances-refl s v; known = b })
            | inr b ↦
                let x = put-Extends s.tracks t (subagent_track t s.run_id) v.linked refl v.root in
                rw (e, c, b, choose_track)
                  (record {
                    advances =
                        advance s _ v refl x
                          (IsRooted-grows s.tracks _ x.grows s.open_spawns v.rooted);
                    known = put-IsTrack s.tracks t (subagent_track t s.run_id);
                  })
          ]
        ]
      ]
