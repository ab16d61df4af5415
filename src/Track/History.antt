-- ===== src/Track/History.antt =====
-- Every sequence of exchanges, of whatever runs, from the empty manager.
use transport_matters.Prelude.{
  true, false, ◌≡◌, refl, sym, ap, subst, Option, none, some, List, [], ◌∷◌, Text, text_eq,
  text_eq_iff, Bool-cases, inl, inr,
}
use transport_matters.Prelude.Dict.{Dict, get, text_key}
use transport_matters.Ir.{InternalRequest, InternalResponse}
use transport_matters.Ir.Value.{Json}
use transport_matters.Track.{TrackAssignment, RunTrackState}
use transport_matters.Track.Assign.{new_run, run_state, record_exchange}
use transport_matters.Track.Valid.{IsTrack, IsValid}
use transport_matters.Track.Exchange.{record_exchange-total, new_run-IsValid}

-- what a caller of `record_exchange` gives
pub record Exchange : Type 0 where
  pub run_id : Text
  pub request : InternalRequest
  pub response : Option InternalResponse
  pub exchange_id : Option Text

-- the assignments of the exchanges, recorded in order; `none` is a KeyError
unfoldable pub record_all :
    (Text → Option Json)
    → Dict Text RunTrackState
    → List Exchange
    → Option (List TrackAssignment × Dict Text RunTrackState)
record_all loads runs [] = some ([], runs)
record_all loads runs (x ∷ xs) =
    elim (record_exchange loads runs x.run_id x.request x.response x.exchange_id) [
      | none ↦ none
      | some (a, after) ↦ elim (record_all loads after xs) [
        | none ↦ none
        | some (rest, end) ↦ some (a ∷ rest, end)
      ]
    ]

abbrev pub AllValid : Dict Text RunTrackState → Type 0
AllValid runs = (k : Text) → IsValid (run_state runs k)

pub empty-AllValid : AllValid []
unfolding run_state get
empty-AllValid k = new_run-IsValid k

-- each exchange, and a track of its run to which it is assigned
abbrev pub AssignsAll : Dict Text RunTrackState → List Exchange → List TrackAssignment → Type 0
AssignsAll runs [] [] = Unit
AssignsAll runs [] (a ∷ rest) = ⊥
AssignsAll runs (x ∷ xs) [] = ⊥
AssignsAll runs (x ∷ xs) (a ∷ rest) =
    IsTrack (run_state runs x.run_id).tracks a.track_id × AssignsAll runs xs rest

abbrev pub Keeps : Dict Text RunTrackState → Dict Text RunTrackState → Type 0
Keeps a b =
    (k track : Text) → IsTrack (run_state a k).tracks track → IsTrack (run_state b k).tracks track

module _ (loads : Text → Option Json) where
  pub record Recorded (runs after : Dict Text RunTrackState) (run_id track_id : Text) : Type 0 where
    pub valid : AllValid after
    pub keeps : Keeps runs after
    pub known : IsTrack (run_state after run_id).tracks track_id

  pub record_exchange-Recorded :
      (runs : Dict Text RunTrackState) (x : Exchange)
      → AllValid runs
      → (a : TrackAssignment) × (after : Dict Text RunTrackState) × (record_exchange loads runs
            x.run_id x.request x.response x.exchange_id
          ≡ some (a, after))
        × Recorded runs after x.run_id a.track_id
  unfolding run_state
  record_exchange-Recorded runs x v =
      let one =
        record_exchange-total loads runs x.run_id x.request x.response x.exchange_id (v x.run_id) in
      let after = one.1 in
      let other : (k : Text) → text_eq x.run_id k ≡ false → run_state runs k ≡ run_state after k =
        λ k n.
          ap (λ o. elim o as (λ q. RunTrackState) [ none ↦ new_run k | some s ↦ s ])
            (sym (one.5 k n)) in
      let same : (k : Text) → text_eq x.run_id k ≡ true → x.run_id ≡ k =
        λ k e. (text_eq_iff x.run_id k).0 e in
      (
        one.0,
        after,
        one.2,
        record {
          valid = λ k. elim (Bool-cases (text_eq x.run_id k)) [
            | inl e ↦ subst (λ j. IsValid (run_state after j)) (same k e) one.4.valid
            | inr n ↦ subst IsValid (other k n) (v k)
          ];
          keeps = λ k track h. elim (Bool-cases (text_eq x.run_id k)) [
            | inl e ↦
                subst
                  (λ j.
                    IsTrack (run_state runs j).tracks track
                    → IsTrack (run_state after j).tracks track)
                  (same k e) (one.4.extends.grows track) h
            | inr n ↦ subst (λ s. IsTrack s.tracks track) (other k n) h
          ];
          known = one.3;
        },
      )

  -- From runs that are all well formed, every sequence of exchanges is recorded to its end: each
  -- request is assigned to a track of its run, which the run still has at the end, and all runs are
  -- well formed.
  pub record_all-total :
      (xs : List Exchange) (runs : Dict Text RunTrackState)
      → AllValid runs
      → (assigned : List TrackAssignment) × (after : Dict Text RunTrackState) × (record_all loads
            runs xs
          ≡ some (assigned, after))
        × AssignsAll after xs assigned
        × AllValid after
        × Keeps runs after
  unfolding record_all
  record_all-total [] runs v = ([], runs, refl, tt, v, λ k track h. h)
  record_all-total (x ∷ xs) runs v =
      let one = record_exchange-Recorded runs x v in
      let rest = record_all-total xs one.1 one.3.valid in
      (
        one.0 ∷ rest.0,
        rest.1,
        rw (one.2, rest.2, record_all) refl,
        (rest.5 x.run_id one.0.track_id one.3.known, rest.3),
        rest.4,
        λ k track h. rest.5 k track (one.3.keeps k track h),
      )
