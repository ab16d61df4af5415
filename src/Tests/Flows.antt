-- ===== src/Tests/Flows.antt =====
-- Paused flows and subscribers, at concrete inputs.
use transport_matters.Prelude.{
  arith, text_eq, ◌==◌, Bool, true, ◌≡◌, refl, Option, none, some, [], ◌∷◌, Text, codes, is_some,
  if◌then◌else◌, List, all, ltb, not, false, ◌&&◌, ◌||◌,
}
use transport_matters.Prelude.Dict.{get, put, text_key, nat_key}
use transport_matters.Ir.{InternalRequest}
use transport_matters.Breakpoint.{
  Breakpoints, PauseRequest, Transport, paused_flow, initial, pause, release, drop, pop_paused,
}
use transport_matters.Breakpoint.Session.{
  System, start, at, Reach, acquired, awaiting_user, next, here, acquire, register, fail, finished,
  mark, is_listed,
}
use transport_matters.Breakpoint.Session.Exclusive.{is_presented, paused-at_most_one}
use transport_matters.Breakpoint.Session.Outcome.{
  popped, Forwards, IsDropped, release-outcome, drop-outcome,
}
use transport_matters.Ir.Value
use transport_matters.Ir.Value.{Json, Fields, empty, field}
use transport_matters.Broadcast.{Bus, Subscriber, empty_bus, subscribe, emit, deliver, event_text}
use transport_matters.Broadcast.Delivery.{
  IsValid, queue_after, emit-queues, subscribe-fresh, Call, given_ids,
}
use transport_matters.Tests.Requests.{demo}

abbrev ask : PauseRequest
ask = record {
  flow_id = codes "f";
  original_ir = demo;
  curated_ir = demo;
  transport = Transport.http;
  audit = none;
  auth_headers = [];
  run_id = none;
  track_id = none;
  parent_track_id = none;
  track_display_name = none;
  track_role = none;
  spawn_anchor = none;
}

abbrev ask_next : PauseRequest
ask_next = record ask { flow_id = codes "g" }

abbrev held : Breakpoints
held = record initial { paused = (codes "f", paused_flow ask 5) ∷ [] }

abbrev all_same : InternalRequest → InternalRequest → Bool
all_same a b = true

abbrev no_text : InternalRequest → Text
no_text a = []

release-outcome_example :
    Forwards all_same no_text
      (paused_flow ask 5)
      none
      none
      (popped all_same no_text (codes "f") (release (codes "f") none none held).1)
unfolding get text_eq
release-outcome_example =
    release-outcome all_same no_text (codes "f") held (paused_flow ask 5) none none refl refl

drop-outcome_example :
    let dropped_last = (drop (codes "f") (release (codes "f") none none held).1).1 in
    let dropped_first = (release (codes "f") none none (drop (codes "f") held).1).1 in
    IsDropped all_same no_text (popped all_same no_text (codes "f") dropped_last)
    × IsDropped all_same no_text (popped all_same no_text (codes "f") dropped_first)
    × (get (pop_paused (codes "f") dropped_last).1.paused (codes "f") ≡ none)
    × (get (pop_paused (codes "f") dropped_first).1.paused (codes "f") ≡ none)
unfolding get text_eq
drop-outcome_example =
    drop-outcome all_same no_text (codes "f") held (paused_flow ask 5) none none (refl, tt) refl

-- one flow has taken the serializer and waits for the user
abbrev acquired_state : System
acquired_state = record start {
  holder = some (codes "f");
  phase = at start.phase (codes "f") acquired;
}

abbrev paused_state : System
paused_state = record acquired_state {
  table = pause ask 5 acquired_state.table;
  phase = at acquired_state.phase (codes "f") awaiting_user;
  abandoned = mark acquired_state.abandoned (codes "f") false;
}

-- its task is cancelled
abbrev failed_state : System
failed_state = record paused_state {
  holder = none;
  phase = at paused_state.phase (codes "f") finished;
  abandoned = mark paused_state.abandoned (codes "f") true;
}

-- and the next flow is paused, while the entry of the first is still there
abbrev next_acquired : System
next_acquired = record failed_state {
  holder = some (codes "g");
  phase = at failed_state.phase (codes "g") acquired;
}

abbrev next_paused : System
next_paused = record next_acquired {
  table = pause ask_next 6 next_acquired.table;
  phase = at next_acquired.phase (codes "g") awaiting_user;
  abandoned = mark next_acquired.abandoned (codes "g") false;
}

next_paused-Reach : Reach start next_paused
unfolding text_eq
next_paused-Reach =
    next
      (next
        (next (next (next here (acquire (codes "f") refl refl)) (register ask 5 refl))
          (fail (codes "f") refl))
        (acquire (codes "g") refl refl))
      (register ask_next 6 refl)

paused-at_most_one_example :
    ((not (is_presented next_paused (codes "f") && is_presented next_paused (codes "g"))
        || text_eq (codes "f") (codes "g"))
      ≡ true)
    × (is_some (pop_paused (codes "f") next_paused.table).0
        ≡ (is_listed (next_paused.phase (codes "f")) || next_paused.abandoned (codes "f")))
paused-at_most_one_example =
    paused-at_most_one next_paused (codes "f") (codes "g") next_paused-Reach

abbrev one_bus : Bus
one_bus = record { subscribers = (1, record { run_id = codes "r"; queue = [] }) ∷ []; next_id = 1 }

abbrev told_bus : Bus
told_bus = record {
  subscribers = (1, record { run_id = codes "r"; queue = codes "r" ∷ [] }) ∷ [];
  next_id = 1;
}

empty_bus-IsValid : IsValid empty_bus
empty_bus-IsValid = record { ids = tt; bounded = tt }

one_bus-IsValid : IsValid one_bus
unfolding get
one_bus-IsValid = record { ids = (refl, tt); bounded = (omega arith, omega arith, tt) }

first_subscriber : subscribe (codes "r") empty_bus ≡ some (1, one_bus)
unfolding subscribe put
first_subscriber = refl

-- a writer that knows one event
abbrev write : Json → Text
write (Json.obj (field k (Json.str v) empty)) = v
write j = []

first_event : emit write empty (codes "r") one_bus ≡ some told_bus
unfolding emit deliver text_eq Value.put
first_event = refl

emit-queues_example :
    IsValid told_bus
    × (get told_bus.subscribers 1 ≡ elim (get one_bus.subscribers 1) as (λ o. Option Subscriber) [
      | none ↦ none
      | some s ↦
          some (record s { queue = queue_after (codes "r") (event_text write empty (codes "r")) s })
    ])
emit-queues_example =
    emit-queues write empty (codes "r") one_bus told_bus 1 one_bus-IsValid first_event

-- the subscriber leaves, and another one comes
abbrev again : List Call
again = Call.unsubscribe_call 1 ∷ Call.subscribe_call (codes "r") ∷ []

subscribe-fresh_example :
    IsValid one_bus
    × (get empty_bus.subscribers 1 ≡ none)
    × (one_bus.next_id ≡ 1)
    × (get one_bus.subscribers 1 ≡ (
        if 1 == 1
        then some (record { run_id = codes "r"; queue = [] })
        else get empty_bus.subscribers 1))
    × (all (ltb 1) (given_ids write again one_bus) ≡ true)
subscribe-fresh_example =
    subscribe-fresh write again (codes "r") empty_bus one_bus 1 1 empty_bus-IsValid first_subscriber
