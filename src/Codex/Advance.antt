-- ===== src/Codex/Advance.antt =====
-- The messages of a turn, of api/src/transport_matters/codex/derivation_engine.py, from the
-- start and from a cursor: once the turn has started, the two results stay alike.
use transport_matters.Prelude.{
  ◌+◌, Bool, true, false, not, ◌||◌, ◌≡◌, refl, sym, ap, ◌∙◌, subst, inl, inr, List, [], ◌∷◌, Text,
  ◌==◌, if◌then◌else◌, is_some, Bool-cases, Option-cases,
}
use transport_matters.Prelude.Dict.{text_key}
use transport_matters.Ir.Value.{Json, Fields}
use transport_matters.Codex.Protocol.{
  dict_of, is_turn_start, assistant_completed_item, reasoning_completed_item,
  tool_call_completed_item, terminal_status, has_unhashable_call,
}
use transport_matters.Codex.Events.{SemanticEvent}
use transport_matters.Codex.Contract.{
  Derived, DerivationError, ok, absent, raises, ◌>>=◌, OperatorFact, TransportMessageFact,
  TurnDerivationContext,
}
use transport_matters.Codex.Engine.{
  TurnDerivationState, append_event, append_assistant_completion, append_tool_call_completion,
  append_terminal_event, append_server_payload_events,
}
use transport_matters.Codex.Advancing.{
  advance_started, try_start, advance_state, advance_all, is_client,
}
use transport_matters.Codex.Resumed.{Resumes, lifted}
use transport_matters.Codex.Steps.{Alike, advance_started-Alike}

-- a turn that has started, and a result that is an error or one
abbrev pub HasStarted : TurnDerivationState → Type 0
HasStarted s = (s.turn_started ≡ true) × (is_some s.started_at ≡ true)

abbrev pub IsStarted : Derived TurnDerivationState → Type 0
IsStarted (ok t) = HasStarted t
IsStarted absent = ⊥
IsStarted (raises e) = Unit

if-IsStarted :
    (b : Bool) (r s : Derived TurnDerivationState)
    → IsStarted r
    → IsStarted s
    → IsStarted (if b then r else s)
if-IsStarted true r s h g = h
if-IsStarted false r s h g = g

if-Alike :
    (pre : List SemanticEvent) (b : Bool) (r s u v : Derived TurnDerivationState)
    → Alike pre r s
    → Alike pre u v
    → Alike pre (if b then r else u) (if b then s else v)
if-Alike pre true r s u v h g = h
if-Alike pre false r s u v h g = g

bind-Alike :
    (pre : List SemanticEvent) (p q : Derived TurnDerivationState)
    (f g : TurnDerivationState → Derived TurnDerivationState)
    → Alike pre p q
    → IsStarted q
    → ((u v : TurnDerivationState)
        → Resumes pre u v
        → HasStarted v
        → Alike pre (f u) (g v) × IsStarted (g v))
    → Alike pre (p >>= f) (q >>= g) × IsStarted (q >>= g)
bind-Alike pre (ok u) (ok v) f g h b k = k u v h b
bind-Alike pre (ok u) absent f g h b k = absurd h
bind-Alike pre (ok u) (raises i) f g h b k = absurd h
bind-Alike pre absent (ok v) f g h b k = absurd h
bind-Alike pre absent absent f g h b k = absurd b
bind-Alike pre absent (raises i) f g h b k = absurd h
bind-Alike pre (raises i) (ok v) f g h b k = absurd h
bind-Alike pre (raises i) absent f g h b k = absurd h
bind-Alike pre (raises i) (raises j) f g h b k = (h, tt)

module _ (dumps : Json → Text) (context : TurnDerivationContext) (pre : List SemanticEvent) where
  -- what a message does once the turn has started
  abbrev after_start : TransportMessageFact → TurnDerivationState → Derived TurnDerivationState
  after_start m s =
      if is_some s.terminal_status
      then raises DerivationError.message_after_terminal
      else if m.dropped
      then ok (record s { end_index = m.message_index + 1 })
      else advance_started dumps context m (dict_of m.payload_json)
          (record s { end_index = m.message_index + 1 })

  pub advance_state-after_start :
      (facts : List OperatorFact) (m : TransportMessageFact) (s : TurnDerivationState)
      → s.turn_started ≡ true
      → advance_state dumps context facts m s ≡ after_start m s
  unfolding advance_state
  advance_state-after_start facts m s started =
      let seen : TurnDerivationState = record s { end_index = m.message_index + 1 } in
      ap
        (λ b.
          if is_some s.terminal_status
          then raises DerivationError.message_after_terminal
          else if m.dropped
          then (if b || not (m.message_index == context.request_message_index)
              then ok seen
              else absent)
          else if b
          then advance_started dumps context m (dict_of m.payload_json) seen
          else try_start dumps context m (dict_of m.payload_json) facts seen)
        started

  advance_state-Alike :
      (facts facts2 : List OperatorFact) (m : TransportMessageFact) (s t : TurnDerivationState)
      → Resumes pre s t
      → t.turn_started ≡ true
      → Alike pre (advance_state dumps context facts m s) (advance_state dumps context facts2 m t)
  advance_state-Alike facts facts2 m s t h started =
      let whole : TurnDerivationState = lifted pre h.items h.calls t in
      let seen : TurnDerivationState = record t { end_index = m.message_index + 1 } in
      let marked : Resumes pre (lifted pre h.items h.calls seen) seen = record {
        items = h.items;
        calls = h.calls;
        state = refl;
        same_items = h.same_items;
        same_calls = h.same_calls;
      } in
      let both : Alike pre (after_start m whole) (after_start m t) =
        if-Alike pre (is_some t.terminal_status) _ _ _ _ refl (
          if-Alike pre m.dropped _ _ _ _ marked (
            advance_started-Alike dumps context pre m (dict_of m.payload_json) h.items h.calls seen
              h.same_items h.same_calls)) in
      rw
        (
          h.state,
          advance_state-after_start facts m whole started,
          advance_state-after_start facts2 m t started,
        )
        both

  -- a payload leaves the start of the turn as it was
  turn_started_after_payload :
      (m : TransportMessageFact) (p : Fields) (s : TurnDerivationState)
      → ((append_server_payload_events dumps context m p s).turn_started ≡ s.turn_started)
        × ((append_server_payload_events dumps context m p s).started_at ≡ s.started_at)
  unfolding append_server_payload_events append_event append_assistant_completion
      append_tool_call_completion append_terminal_event
  turn_started_after_payload m p s = elim (Option-cases (assistant_completed_item p)) [
    | inr (item, a) ↦ rw (a, append_server_payload_events) (refl, refl)
    | inl a ↦ elim (Option-cases (reasoning_completed_item p)) [
      | inr (item, b) ↦ rw (a, b, append_server_payload_events) (refl, refl)
      | inl b ↦ elim (Option-cases (tool_call_completed_item p)) [
        | inr (item, c) ↦ rw (a, b, c, append_server_payload_events) (refl, refl)
        | inl c ↦ elim (Option-cases (terminal_status p)) [
          | inr (status, f) ↦ rw (a, b, c, f, append_server_payload_events) (refl, refl)
          | inl f ↦ rw (a, b, c, f, append_server_payload_events) (refl, refl)
        ]
      ]
    ]
  ]

  after_start-IsStarted :
      (m : TransportMessageFact) (s : TurnDerivationState)
      → HasStarted s
      → IsStarted (after_start m s)
  unfolding advance_started
  after_start-IsStarted m s started =
      let seen : TurnDerivationState = record s { end_index = m.message_index + 1 } in
      elim (Bool-cases (is_some s.terminal_status)) [
        | inl a ↦ rw (a) tt
        | inr a ↦ rw (a) (
            if-IsStarted m.dropped _ _ started (
              if-IsStarted (is_client dumps context m.direction) _ _
                (if-IsStarted (is_turn_start (dict_of m.payload_json)) _ _ tt started)
                (elim (Option-cases (dict_of m.payload_json)) [
                  | inl n ↦ rw (n) started
                  | inr (p, n) ↦ rw (n) (
                      if-IsStarted (has_unhashable_call p) _ _ tt (
                        (turn_started_after_payload m p seen).0 ∙ started.0,
                        ap is_some (turn_started_after_payload m p seen).1 ∙ started.1,
                      ))
                ])))
      ]

  advance_state-IsStarted :
      (facts : List OperatorFact) (m : TransportMessageFact) (s : TurnDerivationState)
      → HasStarted s
      → IsStarted (advance_state dumps context facts m s)
  advance_state-IsStarted facts m s started =
      subst IsStarted (sym (advance_state-after_start facts m s started.0))
        (after_start-IsStarted m s started)

  pub advance_all-Alike :
      (facts facts2 : List OperatorFact) (ms : List TransportMessageFact)
      (s t : TurnDerivationState)
      → Resumes pre s t
      → HasStarted t
      → Alike pre (advance_all dumps context facts ms s) (advance_all dumps context facts2 ms t)
        × IsStarted (advance_all dumps context facts2 ms t)
  unfolding advance_all
  advance_all-Alike facts facts2 [] s t h started = (h, started)
  advance_all-Alike facts facts2 (m ∷ ms) s t h started =
      let step : IsStarted (advance_state dumps context facts2 m t) =
        advance_state-IsStarted facts2 m t started in
      bind-Alike pre (advance_state dumps context facts m s)
        (advance_state dumps context facts2 m t) (advance_all dumps context facts ms)
        (advance_all dumps context facts2 ms) (advance_state-Alike facts facts2 m s t h started.0)
        step (λ u v a b. advance_all-Alike facts facts2 ms u v a b)
