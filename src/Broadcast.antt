-- ===== src/Broadcast.antt =====
-- api/src/transport_matters/broadcast.py: server-sent events, delivered to the subscribers of a run.
-- A queue is the list of its items, oldest first; the JSON text of an event is the parameter
-- `dumps`. Python's `_required_run_id` refuses the empty run id.
pub mod Delivery
use transport_matters.Prelude.{
  ℕ, suc, ◌+◌, Bool, true, false, Option, none, some, List, [], ◌∷◌, ◌++◌, Text, codes, text_eq,
  leb, ltb, ◌==◌, length, map, if◌then◌else◌,
}
use transport_matters.Ir.Value
use transport_matters.Ir.Value.{Json, Fields}
use transport_matters.Prelude.Dict.{Dict, put, remove, nat_key}

abbrev pub queue_max_size : ℕ
queue_max_size = 1000

pub record Subscriber : Type 0 where
  pub run_id : Text
  pub queue : List Text

pub record Bus : Type 0 where
  pub subscribers : Dict ℕ Subscriber
  pub next_id : ℕ

abbrev pub empty_bus : Bus
empty_bus = record { subscribers = []; next_id = 0 }

abbrev is_blank : Text → Bool
is_blank [] = true
is_blank (c ∷ cs) = false

-- the subscriber's id, or `none` for the ValueError
unfoldable pub subscribe : Text → Bus → Option (ℕ × Bus)
subscribe run_id bus =
    if is_blank run_id
    then none
    else some (
      bus.next_id + 1,
      record {
        subscribers =
            put bus.subscribers (bus.next_id + 1) (record { run_id = run_id; queue = [] });
        next_id = bus.next_id + 1;
      },
    )

unfoldable pub unsubscribe : ℕ → Bus → Bus
unsubscribe sid bus = record bus { subscribers = remove bus.subscribers sid }

-- `put_nowait`; a full queue drops the event
unfoldable pub deliver : Text → Text → Subscriber → Subscriber
deliver run_id event s =
    if text_eq s.run_id run_id
    then (if ltb (length s.queue) queue_max_size
        then record s { queue = s.queue ++ event ∷ [] }
        else s)
    else s

abbrev pub deliver_entry : Text → Text → ℕ × Subscriber → ℕ × Subscriber
deliver_entry run_id event (sid, s) = (sid, deliver run_id event s)

-- the event with the run's id under the key `run_id`, as JSON text
abbrev pub event_text : (Json → Text) → Fields → Text → Text
event_text dumps event run_id =
    dumps (Json.obj (Value.put event (codes "run_id") (Json.str run_id)))

-- `none` is the ValueError
unfoldable pub emit : (Json → Text) → Fields → Text → Bus → Option Bus
unfolding deliver Value.put
emit dumps event run_id bus =
    let data_text = event_text dumps event run_id in
    if is_blank run_id
    then none
    else some (record bus { subscribers = map (deliver_entry run_id data_text) bus.subscribers })

-- `get_nowait` of the client that owns the queue
unfoldable pub receive : Subscriber → Option (Text × Subscriber)
receive s = elim s.queue [ [] ↦ none | event ∷ rest ↦ some (event, record s { queue = rest }) ]
