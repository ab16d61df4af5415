-- ===== src/Broadcast/Delivery.antt =====
-- Who receives an event, and what the bus keeps.
use mathlib.Core.Option.{some-injective}
use transport_matters.Prelude.{
  ℕ, ◌+◌, ◌≤◌, ◌≡◌, refl, ◌∙◌, ap, subst, Option, none, some, List, [], ◌∷◌, ◌++◌, Text, text_eq,
  leb, ◌==◌, length, length-append, map, if◌then◌else◌, arith, all,
}
use transport_matters.Prelude.Dict.{Dict, get, put, remove, IsDict, get-put, put-IsDict, nat_key}
use transport_matters.Broadcast.{
  Bus, Subscriber, queue_max_size, subscribe, deliver, deliver_entry, emit, Json, Fields,
  unsubscribe, event_text, ltb, true,
}

-- one queue for an id, no id above the counter, and no queue above its size
abbrev pub IsBounded : ℕ → Dict ℕ Subscriber → Type 0
IsBounded n [] = Unit
IsBounded n ((sid, s) ∷ rest) = (sid ≤ n) × (length s.queue ≤ queue_max_size) × IsBounded n rest

pub record IsValid (bus : Bus) : Type 0 where
  pub ids : IsDict bus.subscribers
  pub bounded : IsBounded bus.next_id bus.subscribers

fresh_id : (n : ℕ) (d : Dict ℕ Subscriber) → IsBounded n d → get d (n + 1) ≡ none
unfolding get
fresh_id n [] h = refl
fresh_id n ((sid, s) ∷ d) h = ground (arith, fresh_id n d h.2)

put-IsBounded :
    (n k : ℕ) (d : Dict ℕ Subscriber) (s : Subscriber)
    → IsBounded n d
    → n ≤ k
    → length s.queue ≤ queue_max_size
    → IsBounded k (put d k s)
unfolding put
put-IsBounded n k [] s h le q = (omega arith, q, tt)
put-IsBounded n k ((j, w) ∷ d) s h le q = ground (arith, put-IsBounded n k d s h.2)

remove-IsBounded : (n k : ℕ) (d : Dict ℕ Subscriber) → IsBounded n d → IsBounded n (remove d k)
unfolding remove
remove-IsBounded n k [] h = tt
remove-IsBounded n k ((j, w) ∷ d) h = ground (arith, remove-IsBounded n k d h.2)

module _ (run_id event : Text) where
  deliver-bound :
      (s : Subscriber)
      → length s.queue ≤ queue_max_size
      → length (deliver run_id event s).queue ≤ queue_max_size
  unfolding deliver
  deliver-bound s h = ground (arith, length-append s.queue (event ∷ []))

  get-deliver :
      (d : Dict ℕ Subscriber) (sid : ℕ)
      → get (map (deliver_entry run_id event) d) sid
        ≡ elim (get d sid) as (λ o. Option Subscriber) [
          | none ↦ none
          | some s ↦ some (deliver run_id event s)
        ]
  unfolding get
  get-deliver [] sid = refl
  get-deliver ((j, s) ∷ d) sid = ground (arith, get-deliver d sid)

  map-IsDict : (d : Dict ℕ Subscriber) → IsDict d → IsDict (map (deliver_entry run_id event) d)
  map-IsDict [] h = tt
  map-IsDict ((j, s) ∷ d) h = ground (arith, map-IsDict d h.1, get-deliver d j)

  map-IsBounded :
      (n : ℕ) (d : Dict ℕ Subscriber)
      → IsBounded n d
      → IsBounded n (map (deliver_entry run_id event) d)
  map-IsBounded n [] h = tt
  map-IsBounded n ((j, s) ∷ d) h = (h.0, deliver-bound s h.1, map-IsBounded n d h.2)

-- The queue of a subscriber after an event: longer by the event if the subscriber is of the run and
-- its queue has room, and otherwise as it was.
abbrev pub queue_after : Text → Text → Subscriber → List Text
queue_after run_id event s =
    if text_eq s.run_id run_id
    then (if leb queue_max_size (length s.queue) then s.queue else s.queue ++ event ∷ [])
    else s.queue

deliver-queue :
    (run_id event : Text) (s : Subscriber)
    → deliver run_id event s ≡ record s { queue = queue_after run_id event s }
unfolding deliver
deliver-queue run_id event s = ground arith

-- On a bus within its bounds, an event of a named run, written out as JSON text with the run's id
-- in it, goes to every subscriber of the run with room in its queue and to no other; it makes and
-- ends no subscription, and the bus stays within its bounds.
pub emit-queues :
    (dumps : Json → Text) (event : Fields) (run_id : Text) (bus after : Bus) (sid : ℕ)
    → IsValid bus
    → emit dumps event run_id bus ≡ some after
    → IsValid after
      × (get after.subscribers sid ≡ elim (get bus.subscribers sid) as (λ o. Option Subscriber) [
        | none ↦ none
        | some s ↦ some (record s { queue = queue_after run_id (event_text dumps event run_id) s })
      ])
unfolding emit
emit-queues dumps event [] bus after sid v h = cc
emit-queues dumps event (c ∷ cs) bus after sid v h =
    let r = c ∷ cs in
    let t = event_text dumps event r in
    subst
      (λ a.
        IsValid a
        × (get a.subscribers sid ≡ elim (get bus.subscribers sid) as (λ o. Option Subscriber) [
          | none ↦ none
          | some s ↦ some (record s { queue = queue_after r t s })
        ]))
      (some-injective (record bus { subscribers = map (deliver_entry r t) bus.subscribers }) after
        h)
      (
        record {
          ids = map-IsDict r t bus.subscribers v.ids;
          bounded = map-IsBounded r t bus.next_id bus.subscribers v.bounded;
        },
        get-deliver r t bus.subscribers sid
            ∙ (elim (get bus.subscribers sid)
                as (λ o.
                  (elim o as (λ x. Option Subscriber) [
                    | none ↦ none
                    | some s ↦ some (deliver r t s)
                  ])
                  ≡ (elim o as (λ x. Option Subscriber) [
                    | none ↦ none
                    | some s ↦ some (record s { queue = queue_after r t s })
                  ])) [ none ↦ refl | some s ↦ ap some (deliver-queue r t s) ]),
      )

-- a call of the module, of whichever client
pub data Call : Type 0 where
  subscribe_call : Text → Call
  unsubscribe_call : ℕ → Call
  emit_call : Fields → Text → Call

-- the ids that the calls give to new subscribers, in turn; a call that raises changes nothing
unfoldable pub given_ids : (Json → Text) → List Call → Bus → List ℕ
unfolding subscribe unsubscribe emit
given_ids dumps [] bus = []
given_ids dumps (Call.subscribe_call run_id ∷ calls) bus = elim (subscribe run_id bus) [
  | none ↦ given_ids dumps calls bus
  | some (id, after) ↦ id ∷ given_ids dumps calls after
]
given_ids dumps (Call.unsubscribe_call sid ∷ calls) bus =
    given_ids dumps calls (unsubscribe sid bus)
given_ids dumps (Call.emit_call event run_id ∷ calls) bus = elim (emit dumps event run_id bus) [
  | none ↦ given_ids dumps calls bus
  | some after ↦ given_ids dumps calls after
]

given_ids_above :
    (dumps : Json → Text) (calls : List Call) (n : ℕ) (bus : Bus)
    → n ≤ bus.next_id
    → all (ltb n) (given_ids dumps calls bus) ≡ true
unfolding given_ids subscribe unsubscribe emit
given_ids_above dumps [] n bus h = refl
given_ids_above dumps (Call.subscribe_call [] ∷ calls) n bus h = given_ids_above dumps calls n bus h
given_ids_above dumps (Call.subscribe_call (c ∷ cs) ∷ calls) n bus h =
    let after : Bus = record {
      subscribers = put bus.subscribers (bus.next_id + 1) (record { run_id = c ∷ cs; queue = [] });
      next_id = bus.next_id + 1;
    } in
    ground (arith, given_ids_above dumps calls n after (omega arith))
given_ids_above dumps (Call.unsubscribe_call sid ∷ calls) n bus h =
    given_ids_above dumps calls n (unsubscribe sid bus) h
given_ids_above dumps (Call.emit_call event [] ∷ calls) n bus h =
    given_ids_above dumps calls n bus h
given_ids_above dumps (Call.emit_call event (c ∷ cs) ∷ calls) n bus h =
    given_ids_above dumps calls n
      (record bus {
        subscribers =
            map (deliver_entry (c ∷ cs) (event_text dumps event (c ∷ cs))) bus.subscribers;
      })
      h

-- On a bus within its bounds, a new subscriber to a named run has an id that nobody has, an empty
-- queue, and leaves all others as they were; and the subscribers that any later calls of
-- `subscribe`, `unsubscribe` and `emit` admit all have higher ids, so that the id is never given
-- again.
pub subscribe-fresh :
    (dumps : Json → Text) (calls : List Call) (run_id : Text) (bus after : Bus) (id sid : ℕ)
    → IsValid bus
    → subscribe run_id bus ≡ some (id, after)
    → IsValid after
      × (get bus.subscribers id ≡ none)
      × (after.next_id ≡ id)
      × (get after.subscribers sid ≡ (
          if id == sid
          then some (record { run_id = run_id; queue = [] })
          else get bus.subscribers sid))
      × (all (ltb id) (given_ids dumps calls after) ≡ true)
unfolding subscribe
subscribe-fresh dumps calls [] bus after id sid v h = cc
subscribe-fresh dumps calls (c ∷ cs) bus after id sid v h =
    let r = c ∷ cs in
    subst
      (λ p.
        IsValid p.1
        × (get bus.subscribers p.0 ≡ none)
        × (p.1.next_id ≡ p.0)
        × (get p.1.subscribers sid ≡ (
            if p.0 == sid
            then some (record { run_id = r; queue = [] })
            else get bus.subscribers sid))
        × (all (ltb p.0) (given_ids dumps calls p.1) ≡ true))
      (some-injective
        (
          bus.next_id + 1,
          record bus {
            subscribers =
                put bus.subscribers (bus.next_id + 1) (record { run_id = c ∷ cs; queue = [] });
            next_id = bus.next_id + 1;
          },
        )
        (id, after) h)
      (
        record {
          ids =
              put-IsDict bus.subscribers (bus.next_id + 1) (record { run_id = r; queue = [] })
                v.ids;
          bounded =
              put-IsBounded bus.next_id (bus.next_id + 1) bus.subscribers
                (record { run_id = r; queue = [] }) v.bounded (omega arith) (omega arith);
        },
        fresh_id bus.next_id bus.subscribers v.bounded,
        refl,
        get-put bus.subscribers (bus.next_id + 1) sid (record { run_id = r; queue = [] }),
        given_ids_above dumps calls (bus.next_id + 1)
            (record bus {
              subscribers =
                  put bus.subscribers (bus.next_id + 1) (record { run_id = c ∷ cs; queue = [] });
              next_id = bus.next_id + 1;
            })
            (omega arith),
      )
