-- ===== src/Track/Exchange.antt =====
-- A request is always assigned to a track of its run: no handler looks up an id that is not there,
-- whatever exchanges came before.
use transport_matters.Prelude.{
  false, ◌≡◌, refl, sym, ◌∙◌, subst, ap, Option, none, some, Text, text_eq, text_eq_refl,
  Option-cases, inl, inr, arith,
}
use transport_matters.Prelude.Dict.{Dict, get, put, get-put, text_key}
use transport_matters.Ir.{InternalRequest, InternalResponse}
use transport_matters.Ir.Value.{Json}
use transport_matters.Track.{TrackAssignment, TrackRecord, RunTrackState, tool_results}
use transport_matters.Track.Response.{observe_response}
use transport_matters.Track.Request.{resolve_each}
use transport_matters.Track.Assign.{
  first_seen, assignment_of, assignment, resolve_tool_results, choose_track, observe_track,
  observe_request_signature, observe_chosen, named_track, classify_request, new_run, run_state,
  record_exchange,
}
use transport_matters.Track.Valid.{
  Tracks, IsTrack, HasParent, IsValid, put-Extends, get-linked, put-IsTrack,
}
use transport_matters.Track.Resolved.{Advances, Advances-refl, Advances-trans, retracked}
use transport_matters.Track.Gathered.{IsGathered, resolve_each-gathers}
use transport_matters.Track.Observed.{observe_blocks-Advances}
use transport_matters.Track.Total.{choose_track-Chosen, named_track-HasParent}

is_some-get : (d : Tracks) (k : Text) → IsTrack d k → (t : TrackRecord) × (get d k ≡ some t)
is_some-get d k h = elim (Option-cases (get d k)) [
  | inl e ↦ ground (arith, e)
  | inr (t, e) ↦ (t, e)
]

module _ (loads : Text → Option Json) (r : InternalRequest) where
  observe_track-same :
      (run_id k : Text) (t : TrackRecord)
      → ((observe_track loads r run_id k t).track_id ≡ t.track_id)
        × ((observe_track loads r run_id k t).parent_track_id ≡ t.parent_track_id)
  unfolding observe_track
  observe_track-same run_id k t = ground arith

  observe-Advances :
      (s : RunTrackState) (k : Text)
      → IsValid s
      → IsTrack s.tracks k
      → (t : TrackRecord) × (get s.tracks k ≡ some t)
        × (t.track_id ≡ k)
        × Advances s (record s { tracks = put s.tracks k (observe_track loads r s.run_id k t) })
  observe-Advances s k v h =
      let found = is_some-get s.tracks k h in
      let l = get-linked s.tracks s.tracks k found.0 v.linked found.1 in
      let same = observe_track-same s.run_id k found.0 in
      (
        found.0,
        found.1,
        l.0,
        retracked s _ v (
            put-Extends s.tracks k (observe_track loads r s.run_id k found.0) v.linked
              (same.0 ∙ l.0) (subst (HasParent s.tracks) (sym same.1) l.2)),
      )

  abbrev Assigns : RunTrackState → Option (TrackAssignment × RunTrackState) → Type 0
  Assigns s result =
      (a : TrackAssignment) × (after : RunTrackState) × (result ≡ some (a, after))
      × IsTrack after.tracks a.track_id
      × Advances s after

  observe_chosen-eq :
      (s : RunTrackState) (k : Text) (t marked : TrackRecord)
      → get s.tracks k ≡ some t
      → t.track_id ≡ k
      → observe_track loads r s.run_id k t ≡ marked
      → observe_chosen loads r s k
        ≡ some (assignment_of marked, record s { tracks = put s.tracks k marked })
  unfolding observe_chosen assignment observe_request_signature
  observe_chosen-eq s k t marked e i m =
      let f : get (put s.tracks k marked) k ≡ some marked =
        ground (arith, get-put s.tracks k k marked, text_eq_refl k) in
      ground (arith, e, i, m, f)

  observe_chosen-Assigns :
      (s : RunTrackState) (k : Text)
      → IsValid s
      → IsTrack s.tracks k
      → Assigns s (observe_chosen loads r s k)
  observe_chosen-Assigns s k v h =
      let found = observe-Advances s k v h in
      let marked = observe_track loads r s.run_id k found.0 in
      (
        assignment_of marked,
        record s { tracks = put s.tracks k marked },
        observe_chosen-eq s k found.0 marked found.1 found.2 refl,
        subst (IsTrack (put s.tracks k marked))
            (sym ((observe_track-same s.run_id k found.0).0 ∙ found.2))
            (put-IsTrack s.tracks k marked),
        found.3,
      )

  -- Every request to a run that is well formed is assigned to a track of the run. The run keeps its
  -- tracks and stays well formed.
  pub classify_request-total :
      (s : RunTrackState)
      → IsValid s
      → (a : TrackAssignment) × (after : RunTrackState) × (classify_request loads r s
          ≡ some (a, after))
        × IsTrack after.tracks a.track_id
        × Advances s after
  unfolding classify_request resolve_tool_results
  classify_request-total s v =
      let results = tool_results r.messages in
      let first : IsGathered (first_seen s) = record { valid = v; parents = tt; owners = tt } in
      let seen = resolve_each loads results (first_seen s) in
      let one = resolve_each-gathers loads results (first_seen s) first in
      let parent = named_track s.run_id seen in
      let two = choose_track-Chosen loads r seen.state parent one.1.valid (
        subst (λ id. HasParent seen.state.tracks (named_track id seen)) one.0.same_run
          (named_track-HasParent seen one.1)) in
      let chosen = choose_track loads r seen.state parent in
      let last = observe_chosen-Assigns chosen.0 chosen.1 two.advances.valid two.known in
      (
        last.0,
        last.1,
        last.2,
        last.3,
        Advances-trans s seen.state _ one.0
            (Advances-trans seen.state chosen.0 _ two.advances last.4),
      )

-- the state after the response, where there is one
abbrev replied : Text → Option Text → Option InternalResponse → RunTrackState → RunTrackState
replied track_id exchange_id response s = elim response [
  | none ↦ s
  | some reply ↦ observe_response track_id reply exchange_id s
]

replied-Advances :
    (track_id : Text) (exchange_id : Option Text) (response : Option InternalResponse)
    (s : RunTrackState)
    → IsValid s
    → IsTrack s.tracks track_id
    → Advances s (replied track_id exchange_id response s)
unfolding observe_response
replied-Advances track_id exchange_id none s v t = Advances-refl s v
replied-Advances track_id exchange_id (some reply) s v t =
    observe_blocks-Advances track_id exchange_id reply.content 0 s v t

run_state-put :
    (runs : Dict Text RunTrackState) (run_id : Text) (s : RunTrackState)
    → run_state (put runs run_id s) run_id ≡ s
unfolding run_state
run_state-put runs run_id s = ground (arith, get-put runs run_id run_id s, text_eq_refl run_id)

record_exchange-eq :
    (loads : Text → Option Json) (runs : Dict Text RunTrackState) (run_id : Text)
    (r : InternalRequest) (response : Option InternalResponse) (exchange_id : Option Text)
    (a : TrackAssignment) (s : RunTrackState)
    → classify_request loads r (run_state runs run_id) ≡ some (a, s)
    → record_exchange loads runs run_id r response exchange_id
      ≡ some (a, put runs run_id (replied a.track_id exchange_id response s))
unfolding record_exchange
record_exchange-eq loads runs run_id r response exchange_id a s e =
    ap
      (λ o. elim o as (λ x. Option (TrackAssignment × Dict Text RunTrackState)) [
        | none ↦ none
        | some x ↦ some (x.0, put runs run_id (replied x.0.track_id exchange_id response x.1))
      ])
      e

-- Every exchange of a run that is well formed is recorded: its request is assigned to a track of
-- the run, and the run stays well formed with all its tracks. A run that is not known yet is well
-- formed.
pub record_exchange-total :
    (loads : Text → Option Json) (runs : Dict Text RunTrackState) (run_id : Text)
    (r : InternalRequest) (response : Option InternalResponse) (exchange_id : Option Text)
    → IsValid (run_state runs run_id)
    → (a : TrackAssignment) × (after : Dict Text RunTrackState) × (record_exchange loads runs run_id
          r response exchange_id
        ≡ some (a, after))
      × IsTrack (run_state after run_id).tracks a.track_id
      × Advances (run_state runs run_id) (run_state after run_id)
      × ((other : Text) → text_eq run_id other ≡ false → get after other ≡ get runs other)
record_exchange-total loads runs run_id r response exchange_id v =
    let now = run_state runs run_id in
    let c = classify_request-total loads r now v in
    let after = replied c.0.track_id exchange_id response c.1 in
    let d = replied-Advances c.0.track_id exchange_id response c.1 c.4.valid c.3 in
    let e = sym (run_state-put runs run_id after) in
    (
      c.0,
      put runs run_id after,
      record_exchange-eq loads runs run_id r response exchange_id c.0 c.1 c.2,
      subst (λ s. IsTrack s.tracks c.0.track_id) e (d.extends.grows c.0.track_id c.3),
      subst (Advances now) e (Advances-trans now c.1 after c.4 d),
      λ other n. ground (arith, get-put runs run_id other after, n),
    )

pub new_run-IsValid : (run_id : Text) → IsValid (new_run run_id)
unfolding get
new_run-IsValid run_id = record {
  root = ground (arith, text_eq_refl run_id);
  linked = (refl, ground (arith, text_eq_refl run_id), tt, tt);
  rooted = tt;
}
