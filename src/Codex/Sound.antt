-- ===== src/Codex/Sound.antt =====
-- Every step of api/src/transport_matters/codex/derivation_engine.py keeps the events numbered, the
-- open texts dicts and the end unnoted until a terminal message.
use transport_matters.Prelude.{
  ℕ, ◌+◌, Bool, true, false, not, ◌&&◌, ◌||◌, subst, inl, inr, Option, none, some, List, [], ◌∷◌,
  Text, ◌==◌, if◌then◌else◌, is_some, Option-cases, arith, length-append,
}
use transport_matters.Prelude.Dict.{IsDict, remove, remove-IsDict, text_key}
use transport_matters.Ir.Value.{Json, Fields}
use transport_matters.Codex.Protocol.{
  TerminalStatus, dict_of, assistant_completed_item, reasoning_completed_item,
  tool_call_completed_item, terminal_status, has_unhashable_call, has_unhashable_output,
  is_turn_start, iter_tool_output_items,
}
use transport_matters.Codex.OpenTexts.{
  update_open_assistant_items, update_open_tool_calls, tool_call_key,
}
use transport_matters.Codex.Events.{EventSource, SemanticEventKind}
use transport_matters.Codex.Contract.{
  Derived, ok, absent, raises, ◌>>=◌, TransportMessageFact, OperatorFact, TurnDerivationContext,
  DerivationError,
}
use transport_matters.Codex.EventData.{semantic_event}
use transport_matters.Codex.Engine.{
  TurnDerivationState, append_event, append_operator_facts, append_tool_outputs,
  append_assistant_completion, append_tool_call_completion, append_terminal_event,
  append_server_payload_events,
}
use transport_matters.Codex.Advancing.{
  advance_started, try_start, advance_all, advance_state, is_client,
}
use transport_matters.Codex.Resumed.{items-Same, calls-Same}
use transport_matters.Codex.Steps.{close_item-Same}
use transport_matters.Codex.Numbered.{
  IsEvent, IsSound, SoundResult, append-IsNumbered, self, semantic_event-IsEvent,
}

module _ (dumps : Json → Text) (context : TurnDerivationContext) (n : ℕ) where
  pub append_event-IsSound :
      (source : EventSource) (kind : SemanticEventKind) (ts : ℕ) (ref : Option ℕ) (fields : Fields)
      (s : TurnDerivationState)
      → IsSound context n s
      → IsSound context n (append_event dumps context source kind ts ref fields s)
  unfolding append_event
  append_event-IsSound source kind ts ref fields s h =
      let event = semantic_event context s.next_seq source kind ts ref fields in
      record {
        next = rw (length-append s.events (event ∷ [])) (omega arith);
        numbered = append-IsNumbered context n s.events (event ∷ []) h.numbered (
          subst (λ k. IsEvent context k event) h.next
              (semantic_event-IsEvent context s.next_seq source kind ts ref fields),
          tt,
        );
        items = h.items;
        calls = h.calls;
        unended = h.unended;
      }

  append_operator_facts-IsSound :
      (facts : List OperatorFact) (s : TurnDerivationState)
      → IsSound context n s
      → IsSound context n (append_operator_facts dumps context facts s)
  unfolding append_operator_facts
  append_operator_facts-IsSound [] s h = h
  append_operator_facts-IsSound (f ∷ fs) s h =
      append_operator_facts-IsSound fs _ (append_event-IsSound _ _ _ _ _ s h)

  append_tool_outputs-IsSound :
      (m : TransportMessageFact) (items : List (ℕ × Fields)) (s : TurnDerivationState)
      → IsSound context n s
      → IsSound context n (append_tool_outputs dumps context m items s)
  unfolding append_tool_outputs
  append_tool_outputs-IsSound m [] s h = h
  append_tool_outputs-IsSound m ((i, item) ∷ items) s h =
      append_tool_outputs-IsSound m items _ (append_event-IsSound _ _ _ _ _ s h)

  append_assistant_completion-IsSound :
      (m : TransportMessageFact) (item : Fields) (s : TurnDerivationState)
      → IsSound context n s
      → IsSound context n (append_assistant_completion dumps context m item s)
  unfolding append_assistant_completion
  append_assistant_completion-IsSound m item s h = append_event-IsSound _ _ _ _ _ _ (record {
    next = h.next;
    numbered = h.numbered;
    items = (close_item-Same item _ _ (self _ h.items)).left;
    calls = h.calls;
    unended = h.unended;
  })

  append_tool_call_completion-IsSound :
      (m : TransportMessageFact) (item : Fields) (s : TurnDerivationState)
      → IsSound context n s
      → IsSound context n (append_tool_call_completion dumps context m item s)
  unfolding append_tool_call_completion
  append_tool_call_completion-IsSound m item s h = append_event-IsSound _ _ _ _ _ _ (record {
    next = h.next;
    numbered = h.numbered;
    items = h.items;
    calls =
        elim (tool_call_key item)
          as (λ k.
            IsDict (elim k [ none ↦ s.open_tool_calls | some i ↦ remove s.open_tool_calls i ])) [
              | none ↦ h.calls
              | some i ↦ remove-IsDict s.open_tool_calls i h.calls
            ];
    unended = h.unended;
  })

  append_terminal_event-IsSound :
      (m : TransportMessageFact) (payload : Fields) (status : TerminalStatus)
      (s : TurnDerivationState)
      → IsSound context n s
      → IsSound context n (append_terminal_event dumps context m payload status s)
  unfolding append_terminal_event
  append_terminal_event-IsSound m payload status s h = append_event-IsSound _ _ _ _ _ _ (record {
    next = h.next;
    numbered = h.numbered;
    items = h.items;
    calls = h.calls;
    unended = λ e. cc;
  })

  append_server_payload_events-IsSound :
      (m : TransportMessageFact) (p : Fields) (s : TurnDerivationState)
      → IsSound context n s
      → IsSound context n (append_server_payload_events dumps context m p s)
  unfolding append_server_payload_events
  append_server_payload_events-IsSound m p s h =
      let updated : TurnDerivationState = record s {
        open_assistant_items = update_open_assistant_items p s.open_assistant_items;
        open_tool_calls = update_open_tool_calls dumps p s.open_tool_calls;
      } in
      let start : IsSound context n updated = record {
        next = h.next;
        numbered = h.numbered;
        items = (items-Same p _ _ (self _ h.items)).left;
        calls = (calls-Same dumps p _ _ (self _ h.calls)).left;
        unended = h.unended;
      } in
      elim (Option-cases (assistant_completed_item p)) [
        | inr (item, a) ↦
            rw (a, append_server_payload_events)
              (append_assistant_completion-IsSound m item updated start)
        | inl a ↦ elim (Option-cases (reasoning_completed_item p)) [
          | inr (item, b) ↦
              rw (a, b, append_server_payload_events) (append_event-IsSound _ _ _ _ _ updated start)
          | inl b ↦ elim (Option-cases (tool_call_completed_item p)) [
            | inr (item, c) ↦
                rw (a, b, c, append_server_payload_events)
                  (append_tool_call_completion-IsSound m item updated start)
            | inl c ↦ elim (Option-cases (terminal_status p)) [
              | inr (status, f) ↦
                  rw (a, b, c, f, append_server_payload_events)
                    (append_terminal_event-IsSound m p status updated start)
              | inl f ↦ rw (a, b, c, f, append_server_payload_events) start
            ]
          ]
        ]
      ]

  if-SoundResult :
      (b : Bool) (r s : Derived TurnDerivationState)
      → SoundResult context n r
      → SoundResult context n s
      → SoundResult context n (if b then r else s)
  if-SoundResult true r s h g = h
  if-SoundResult false r s h g = g

  bind-SoundResult :
      (r : Derived TurnDerivationState) (f : TurnDerivationState → Derived TurnDerivationState)
      → SoundResult context n r
      → ((s : TurnDerivationState) → IsSound context n s → SoundResult context n (f s))
      → SoundResult context n (r >>= f)
  bind-SoundResult (ok s) f h k = k s h
  bind-SoundResult absent f h k = tt
  bind-SoundResult (raises e) f h k = tt

  try_start-SoundResult :
      (m : TransportMessageFact) (payload : Option Fields) (facts : List OperatorFact)
      (s : TurnDerivationState)
      → IsSound context n s
      → SoundResult context n (try_start dumps context m payload facts s)
  unfolding try_start
  try_start-SoundResult m payload facts s h =
      if-SoundResult
        (is_client dumps context m.direction
          && m.message_index == context.request_message_index
          && is_turn_start payload)
        _ _
        (if-SoundResult (has_unhashable_output payload) _ _ tt (
          append_tool_outputs-IsSound m (iter_tool_output_items payload) _ (
            append_operator_facts-IsSound facts _ (
              append_event-IsSound _ _ _ _ _ _ (record {
                next = h.next;
                numbered = h.numbered;
                items = h.items;
                calls = h.calls;
                unended = h.unended;
              })))))
        tt

  advance_started-SoundResult :
      (m : TransportMessageFact) (payload : Option Fields) (s : TurnDerivationState)
      → IsSound context n s
      → SoundResult context n (advance_started dumps context m payload s)
  unfolding advance_started
  advance_started-SoundResult m payload s h =
      if-SoundResult (is_client dumps context m.direction) _ _
        (if-SoundResult (is_turn_start payload) _ _ tt h)
        (elim payload
          as (λ p. SoundResult context n (elim p [
            | none ↦ ok s
            | some q ↦
                if has_unhashable_call q
                then raises DerivationError.unhashable_type
                else ok (append_server_payload_events dumps context m q s)
          ])) [
            | none ↦ h
            | some q ↦
                if-SoundResult (has_unhashable_call q) _ _ tt
                  (append_server_payload_events-IsSound m q s h)
          ])

  advance_state-SoundResult :
      (facts : List OperatorFact) (m : TransportMessageFact) (s : TurnDerivationState)
      → IsSound context n s
      → SoundResult context n (advance_state dumps context facts m s)
  unfolding advance_state
  advance_state-SoundResult facts m s h =
      let seen : IsSound context n (record s { end_index = m.message_index + 1 }) = record {
        next = h.next;
        numbered = h.numbered;
        items = h.items;
        calls = h.calls;
        unended = h.unended;
      } in
      if-SoundResult (is_some s.terminal_status) _ _ tt (
        if-SoundResult m.dropped _ _
          (if-SoundResult (s.turn_started || not (m.message_index == context.request_message_index))
            _ _ seen tt)
          (if-SoundResult s.turn_started _ _
            (advance_started-SoundResult m (dict_of m.payload_json) _ seen)
            (try_start-SoundResult m (dict_of m.payload_json) facts _ seen)))

  pub advance_all-SoundResult :
      (facts : List OperatorFact) (ms : List TransportMessageFact) (s : TurnDerivationState)
      → IsSound context n s
      → SoundResult context n (advance_all dumps context facts ms s)
  unfolding advance_all
  advance_all-SoundResult facts [] s h = h
  advance_all-SoundResult facts (m ∷ ms) s h =
      bind-SoundResult (advance_state dumps context facts m s) _
        (advance_state-SoundResult facts m s h) (advance_all-SoundResult facts ms)
