-- ===== src/Track/Valid.antt =====
-- The well-formedness of a run's tracks: every id that a handler looks up is a track.
use transport_matters.Prelude.{
  true, ◌≡◌, Option, none, some, List, [], ◌∷◌, Text, text_eq_iff, text_eq_refl, arith,
  Option-cases, inl, inr,
}
use transport_matters.Prelude.Dict.{Dict, get, put, remove, contains, get-put, text_key}
use transport_matters.Track.{TrackRecord, TrackStatus, PendingSpawn, RunTrackState}
use transport_matters.Track.Response.{set_status, set_all}

abbrev pub Tracks : Type 0
Tracks = Dict Text TrackRecord

abbrev pub IsTrack : Tracks → Text → Type 0
IsTrack tracks k = contains tracks k ≡ true

abbrev pub HasParent : Tracks → Option Text → Type 0
HasParent tracks none = Unit
HasParent tracks (some p) = IsTrack tracks p

-- each entry carries its key, and its parent is a track
abbrev pub IsLinked : Tracks → Tracks → Type 0
IsLinked tracks [] = Unit
IsLinked tracks ((k, t) ∷ d) =
    (t.track_id ≡ k) × IsTrack tracks k × HasParent tracks t.parent_track_id × IsLinked tracks d

abbrev pub IsRooted : Tracks → Dict Text PendingSpawn → Type 0
IsRooted tracks [] = Unit
IsRooted tracks ((k, p) ∷ d) = IsTrack tracks p.parent_track_id × IsRooted tracks d

abbrev pub AllTracks : Tracks → List Text → Type 0
AllTracks tracks [] = Unit
AllTracks tracks (k ∷ ks) = IsTrack tracks k × AllTracks tracks ks

pub record IsValid (s : RunTrackState) : Type 0 where
  pub root : IsTrack s.tracks s.run_id
  pub linked : IsLinked s.tracks s.tracks
  pub rooted : IsRooted s.tracks s.open_spawns

abbrev pub Grows : Tracks → Tracks → Type 0
Grows a b = (k : Text) → IsTrack a k → IsTrack b k

put-Grows : (d : Tracks) (k : Text) (v : TrackRecord) → Grows d (put d k v)
put-Grows d k v j h = ground (arith, get-put d k j v)

pub put-IsTrack : (d : Tracks) (k : Text) (v : TrackRecord) → IsTrack (put d k v) k
put-IsTrack d k v = ground (arith, get-put d k k v, text_eq_refl k)

module _ (a b : Tracks) (g : Grows a b) where
  pub HasParent-grows : (o : Option Text) → HasParent a o → HasParent b o
  HasParent-grows none h = tt
  HasParent-grows (some p) h = g p h

  IsLinked-grows : (d : Tracks) → IsLinked a d → IsLinked b d
  IsLinked-grows [] h = tt
  IsLinked-grows ((k, t) ∷ d) h =
      (h.0, g k h.1, HasParent-grows t.parent_track_id h.2, IsLinked-grows d h.3)

  pub IsRooted-grows : (d : Dict Text PendingSpawn) → IsRooted a d → IsRooted b d
  IsRooted-grows [] h = tt
  IsRooted-grows ((k, p) ∷ d) h = (g p.parent_track_id h.0, IsRooted-grows d h.1)

  pub AllTracks-grows : (ks : List Text) → AllTracks a ks → AllTracks b ks
  AllTracks-grows [] h = tt
  AllTracks-grows (k ∷ ks) h = (g k h.0, AllTracks-grows ks h.1)

module _ (tracks : Tracks) where
  put-IsLinked :
      (d : Tracks) (k : Text) (v : TrackRecord)
      → IsLinked tracks d
      → v.track_id ≡ k
      → IsTrack tracks k
      → HasParent tracks v.parent_track_id
      → IsLinked tracks (put d k v)
  unfolding put
  put-IsLinked [] k v h e t p = (e, t, p, tt)
  put-IsLinked ((j, w) ∷ d) k v h e t p =
      ground (arith, put-IsLinked d k v h.3 e t p, text_eq_iff j k)

  pub get-linked :
      (d : Tracks) (k : Text) (t : TrackRecord)
      → IsLinked tracks d
      → get d k ≡ some t
      → (t.track_id ≡ k) × IsTrack tracks k × HasParent tracks t.parent_track_id
  unfolding get
  get-linked [] k t h e = cc
  get-linked ((j, w) ∷ d) k t h e = ground (arith, get-linked d k t h.3, text_eq_iff j k)

  pub get-rooted :
      (d : Dict Text PendingSpawn) (k : Text) (p : PendingSpawn)
      → IsRooted tracks d
      → get d k ≡ some p
      → IsTrack tracks p.parent_track_id
  unfolding get
  get-rooted [] k p h e = cc
  get-rooted ((j, w) ∷ d) k p h e = ground (arith, get-rooted d k p h.1)

  pub put-IsRooted :
      (d : Dict Text PendingSpawn) (k : Text) (p : PendingSpawn)
      → IsRooted tracks d
      → IsTrack tracks p.parent_track_id
      → IsRooted tracks (put d k p)
  unfolding put
  put-IsRooted [] k p h t = (t, tt)
  put-IsRooted ((j, w) ∷ d) k p h t = ground (arith, put-IsRooted d k p h.1 t)

  pub remove-IsRooted :
      (d : Dict Text PendingSpawn) (k : Text) → IsRooted tracks d → IsRooted tracks (remove d k)
  unfolding remove
  remove-IsRooted [] k h = tt
  remove-IsRooted ((j, w) ∷ d) k h = ground (arith, remove-IsRooted d k h.1)

-- `b` has the tracks of `a`, and is linked
pub record Extends (a b : Tracks) : Type 0 where
  pub grows : Grows a b
  pub linked : IsLinked b b

pub Extends-refl : (a : Tracks) → IsLinked a a → Extends a a
Extends-refl a h = record { grows = λ k t. t; linked = h }

pub Extends-trans : (a b c : Tracks) → Extends a b → Extends b c → Extends a c
Extends-trans a b c f g = record { grows = λ k t. g.grows k (f.grows k t); linked = g.linked }

pub put-Extends :
    (d : Tracks) (k : Text) (v : TrackRecord)
    → IsLinked d d
    → v.track_id ≡ k
    → HasParent d v.parent_track_id
    → Extends d (put d k v)
put-Extends d k v h e p =
    let g = put-Grows d k v in
    record {
      grows = g;
      linked =
          put-IsLinked (put d k v) d k v (IsLinked-grows d (put d k v) g d h) e (put-IsTrack d k v)
            (HasParent-grows d (put d k v) g v.parent_track_id p);
    }

module _ (status : TrackStatus) where
  pub set_status-Extends :
      (target : Text) (d : Tracks) → IsLinked d d → Extends d (set_status status target d)
  unfolding set_status
  set_status-Extends target d h = elim (Option-cases (get d target)) [
    | inl e ↦ rw (e, set_status) (Extends-refl d h)
    | inr (t, e) ↦
        let l = get-linked d d target t h e in
        rw (e, set_status) (put-Extends d target (record t { status = status }) h l.0 l.2)
  ]

  pub set_all-Extends :
      (ts : List Text) (d : Tracks) → IsLinked d d → Extends d (set_all status ts d)
  unfolding set_all
  set_all-Extends [] d h = Extends-refl d h
  set_all-Extends (t ∷ ts) d h =
      let x = set_status-Extends t d h in
      Extends-trans d (set_status status t d) (set_all status ts (set_status status t d)) x
        (set_all-Extends ts (set_status status t d) x.linked)
