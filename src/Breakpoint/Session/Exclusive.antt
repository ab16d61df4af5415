-- ===== src/Breakpoint/Session/Exclusive.antt =====
-- One flow at a time is presented to the user, and its task always finds it again, whatever tasks
-- fail.
use transport_matters.Prelude.{
  Bool, true, false, not, ◌&&◌, ◌||◌, ◌≡◌, refl, ◌∙◌, Option, none, some, [], ◌∷◌, Text, text_eq,
  text_eq_iff, is_some, if◌then◌else◌, map, arith,
}
use transport_matters.Prelude.Dict.{
  Dict, get, put, IsDict, get-put, get-remove, put-IsDict, remove-IsDict, text_key,
}
use transport_matters.Breakpoint.{
  Breakpoints, PausedFlow, drop_flow, paused_flow, pause, update_paused, set_tokens_before, release,
  drop, pop_paused, clear_all, arm, disarm,
}
use transport_matters.Breakpoint.Session.{
  System, Phase, is_listed, acquired, Route, Step, Reach, start,
}

-- the task holds the serializer
abbrev pub holds : Phase → Bool
holds acquired = true
holds p = is_listed p

pub record IsSerial (s : System) : Type 0 where
  pub table : IsDict s.table.paused
  pub listed :
      (f : Text) → is_some (get s.table.paused f) ≡ (is_listed (s.phase f) || s.abandoned f)
  pub left : (f : Text) → (is_listed (s.phase f) && s.abandoned f) ≡ false
  pub held : (f : Text) → holds (s.phase f) ≡ true → s.holder ≡ some f

clear-keys :
    (d : Dict Text PausedFlow) (f : Text) → is_some (get (map drop_flow d) f) ≡ is_some (get d f)
unfolding get
clear-keys [] f = refl
clear-keys ((g, pf) ∷ d) f = ground (arith, clear-keys d f)

clear-IsDict : (d : Dict Text PausedFlow) → IsDict d → IsDict (map drop_flow d)
clear-IsDict [] h = tt
clear-IsDict ((g, pf) ∷ d) h = ground (arith, clear-IsDict d h.1, clear-keys d g)

put-keys :
    (d : Dict Text PausedFlow) (f k : Text) (pf : PausedFlow)
    → is_some (get (put d f pf) k) ≡ (if text_eq f k then true else is_some (get d k))
put-keys d f k pf = ground (arith, get-put d f k pf)

module _ (g : PausedFlow → PausedFlow) (f : Text) (b : Breakpoints) where
  update_paused-keys :
      (o : Option PausedFlow) (k : Text)
      → get b.paused f ≡ o
      → is_some (get (update_paused g f b).1.paused k) ≡ is_some (get b.paused k)
  unfolding update_paused
  update_paused-keys none k e = rw (e, update_paused)
  update_paused-keys (some pf) k e =
      rw (e, update_paused) (ground (arith, put-keys b.paused f k (g pf), text_eq_iff f k))

  update_paused-IsDict :
      (o : Option PausedFlow)
      → get b.paused f ≡ o
      → IsDict b.paused
      → IsDict (update_paused g f b).1.paused
  unfolding update_paused
  update_paused-IsDict none e h = rw (e, update_paused) h
  update_paused-IsDict (some pf) e h = rw (e, update_paused) (put-IsDict b.paused f (g pf) h)

-- A route neither enters a flow into the table nor takes one out.
record SameKeys (a b : Breakpoints) : Type 0 where
  dict : IsDict a.paused → IsDict b.paused
  keys : (k : Text) → is_some (get b.paused k) ≡ is_some (get a.paused k)

update-SameKeys :
    (g : PausedFlow → PausedFlow) (f : Text) (b : Breakpoints) → SameKeys b (update_paused g f b).1
update-SameKeys g f b = record {
  dict = update_paused-IsDict g f b (get b.paused f) refl;
  keys = λ k. update_paused-keys g f b (get b.paused f) k refl;
}

Route-SameKeys : {a b : Breakpoints} → Route a b → SameKeys a b
unfolding release drop set_tokens_before clear_all arm disarm
Route-SameKeys (Route.arms b) = record { dict = λ h. h; keys = λ k. refl }
Route-SameKeys (Route.disarms b) = record { dict = λ h. h; keys = λ k. refl }
Route-SameKeys (Route.releases b f ir payload) = update-SameKeys _ f b
Route-SameKeys (Route.drops b f) = update-SameKeys _ f b
Route-SameKeys (Route.counts b f n) = update-SameKeys _ f b
Route-SameKeys (Route.clears b) = record {
  dict = clear-IsDict b.paused;
  keys = clear-keys b.paused;
}

Step-IsSerial : {s t : System} → Step s t → IsSerial s → IsSerial t
Step-IsSerial {s} (Step.acquire f p q) v = record {
  table = v.table;
  listed = λ g. ground (arith, v.listed g, v.left g, text_eq_iff f g);
  left = λ g. ground (arith, v.left g, text_eq_iff f g);
  held = λ g. ground (arith, v.held g, v.held f, text_eq_iff f g);
}
Step-IsSerial {s} (Step.register r now p) v = record {
  table = unfold pause in put-IsDict s.table.paused r.flow_id _ v.table;
  listed = λ g.
      unfold pause in
      ground (
        arith,
        v.listed g,
        text_eq_iff r.flow_id g,
        put-keys s.table.paused r.flow_id g (paused_flow r now),
      );
  left = λ g. ground (arith, v.left g, text_eq_iff r.flow_id g);
  held = λ g. ground (arith, v.held g, text_eq_iff r.flow_id g);
}
Step-IsSerial {s} (Step.wake f p e) v = record {
  table = v.table;
  listed = λ g. ground (arith, v.listed g, v.left g, text_eq_iff f g);
  left = λ g. ground (arith, v.left g, text_eq_iff f g);
  held = λ g. ground (arith, v.held g, v.held f, text_eq_iff f g);
}
Step-IsSerial {s} (Step.expire f p) v = record {
  table = v.table;
  listed = λ g. ground (arith, v.listed g, v.left g, text_eq_iff f g);
  left = λ g. ground (arith, v.left g, text_eq_iff f g);
  held = λ g. ground (arith, v.held g, v.held f, text_eq_iff f g);
}
Step-IsSerial {s} (Step.pop f p) v = record {
  table = unfold pop_paused in remove-IsDict s.table.paused f v.table;
  listed = λ g.
      unfold pop_paused in
      ground (arith, v.listed g, v.left g, text_eq_iff f g, get-remove s.table.paused f g v.table);
  left = λ g. ground (arith, v.left g, text_eq_iff f g);
  held = λ g. ground (arith, v.held g, v.held f, text_eq_iff f g);
}
Step-IsSerial {s} (Step.give_up f p) v = record {
  table = v.table;
  listed = λ g. ground (arith, v.listed g, v.left g, text_eq_iff f g);
  left = λ g. ground (arith, v.left g, text_eq_iff f g);
  held = λ g. ground (arith, v.held g, v.held f, text_eq_iff f g);
}
Step-IsSerial {s} (Step.fail_early f p) v = record {
  table = v.table;
  listed = λ g. ground (arith, v.listed g, v.left g, text_eq_iff f g);
  left = λ g. ground (arith, v.left g, text_eq_iff f g);
  held = λ g. ground (arith, v.held g, v.held f, text_eq_iff f g);
}
Step-IsSerial {s} (Step.fail f p) v = record {
  table = v.table;
  listed = λ g. ground (arith, v.listed g, v.left g, text_eq_iff f g);
  left = λ g. ground (arith, v.left g, text_eq_iff f g);
  held = λ g. ground (arith, v.held g, v.held f, text_eq_iff f g);
}
Step-IsSerial {s} (Step.pause_again f p) v = record {
  table = v.table;
  listed = λ g. ground (arith, v.listed g, v.left g, text_eq_iff f g);
  left = λ g. ground (arith, v.left g, text_eq_iff f g);
  held = λ g. ground (arith, v.held g, v.held f, text_eq_iff f g);
}
Step-IsSerial {s} (Step.route b r) v =
    let k = Route-SameKeys r in
    record {
      table = k.dict v.table;
      listed = λ g. k.keys g ∙ v.listed g;
      left = v.left;
      held = v.held;
    }

start-IsSerial : IsSerial start
start-IsSerial = record {
  table = tt;
  listed = λ f. unfold get in refl;
  left = λ f. refl;
  held = λ f h. absurd (ground arith);
}

Reach-IsSerial : {s t : System} → IsSerial s → Reach s t → IsSerial t
Reach-IsSerial v Reach.here = v
Reach-IsSerial v (Reach.next r st) = Step-IsSerial st (Reach-IsSerial v r)

-- the flow is in the table, and not as a remnant of a task that failed
abbrev pub is_presented : System → Text → Bool
is_presented s f = is_some (get s.table.paused f) && not (s.abandoned f)

-- In every interleaving of the tasks, their failures and the routes, two flows that are in the
-- table of paused flows are the same one, unless the task of one of them failed and left its entry
-- behind. And `pop_paused` finds a flow exactly if its task is between its entry and its pop, or
-- failed in between and has not entered the flow again.
pub paused-at_most_one :
    (s : System) (f g : Text)
    → Reach start s
    → ((not (is_presented s f && is_presented s g) || text_eq f g) ≡ true)
      × (is_some (pop_paused f s.table).0 ≡ (is_listed (s.phase f) || s.abandoned f))
unfolding pop_paused
paused-at_most_one s f g r =
    let v = Reach-IsSerial start-IsSerial r in
    (
      ground
          (arith, v.listed f, v.listed g, v.held f, v.held g, v.left f, v.left g, text_eq_iff f g),
      v.listed f,
    )
