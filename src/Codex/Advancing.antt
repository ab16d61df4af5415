-- ===== src/Codex/Advancing.antt =====
-- api/src/transport_matters/codex/derivation_engine.py: the messages of a turn, one after the
-- other, and the state before them.
use transport_matters.Prelude.{
  ℕ, ◌+◌, Bool, true, false, not, ◌&&◌, ◌||◌, Option, none, some, List, [], ◌∷◌, Text, ltb, ◌==◌,
  if◌then◌else◌, is_some,
}
use transport_matters.Prelude.Dict.{text_key}
use transport_matters.Ir.Value.{Json, Fields, empty}
use transport_matters.Codex.Protocol.{
  dict_of, is_turn_start, iter_tool_output_items, has_unhashable_call, has_unhashable_output,
}
use transport_matters.Codex.Events.{DerivationCursor, EventSource, SemanticEventKind}
use transport_matters.Codex.Contract.{
  Derived, DerivationError, ok, absent, raises, ◌>>=◌, next_event_seq, Direction,
  TransportMessageFact, OperatorFact, TurnDerivationContext,
}
use transport_matters.Codex.Engine.{
  TurnDerivationState, append_event, append_operator_facts, append_tool_outputs,
  append_server_payload_events,
}

module _ (dumps : Json → Text) (context : TurnDerivationContext) where
  abbrev pub is_client : Direction → Bool
  is_client Direction.client = true
  is_client Direction.server = false

  -- `_try_start_derivation_state`, whose False is `absent`
  unfoldable pub try_start :
      TransportMessageFact
      → Option Fields
      → List OperatorFact
      → TurnDerivationState
      → Derived TurnDerivationState
  unfolding append_event append_operator_facts append_tool_outputs
  try_start m payload facts s =
      if is_client m.direction
        && m.message_index == context.request_message_index
        && is_turn_start payload
      then (if has_unhashable_output payload
          then raises DerivationError.unhashable_type
          else ok (
              append_tool_outputs dumps context m (iter_tool_output_items payload) (
                append_operator_facts dumps context facts (
                  append_event dumps context EventSource.client SemanticEventKind.turn_started m.ts
                    (some m.message_index) empty
                    (record s { turn_started = true; started_at = some m.ts })))))
      else absent

  -- a message after the start of the turn
  unfoldable pub advance_started :
      TransportMessageFact → Option Fields → TurnDerivationState → Derived TurnDerivationState
  unfolding append_server_payload_events
  advance_started m payload s =
      if is_client m.direction
      then (if is_turn_start payload then raises DerivationError.nested_turn_start else ok s)
      else elim payload [
        | none ↦ ok s
        | some p ↦
            if has_unhashable_call p
            then raises DerivationError.unhashable_type
            else ok (append_server_payload_events dumps context m p s)
      ]

  -- `_advance_derivation_state`
  unfoldable pub advance_state :
      List OperatorFact → TransportMessageFact → TurnDerivationState → Derived TurnDerivationState
  unfolding try_start advance_started
  advance_state facts m s =
      let seen = record s { end_index = m.message_index + 1 } in
      let payload = dict_of m.payload_json in
      if is_some s.terminal_status
      then raises DerivationError.message_after_terminal
      else if m.dropped
      then (if s.turn_started || not (m.message_index == context.request_message_index)
          then ok seen
          else absent)
      else if s.turn_started
      then advance_started m payload seen
      else try_start m payload facts seen

  unfoldable pub advance_all :
      List OperatorFact
      → List TransportMessageFact
      → TurnDerivationState
      → Derived TurnDerivationState
  unfolding advance_state
  advance_all facts [] s = ok s
  advance_all facts (m ∷ ms) s = advance_state facts m s >>= λ t. advance_all facts ms t

  -- `_initial_derivation_state`
  unfoldable pub initial_state :
      Option DerivationCursor → Option ℕ → ℕ → ℕ → Derived TurnDerivationState
  unfolding next_event_seq
  initial_state cursor started_at text_chars tool_calls = next_event_seq cursor >>= λ next_seq.
      ok (record {
        next_seq = next_seq;
        open_assistant_items = elim cursor [ none ↦ [] | some c ↦ c.open_assistant_items ];
        open_tool_calls = elim cursor [ none ↦ [] | some c ↦ c.open_tool_calls ];
        turn_started = elim cursor [
          | none ↦ false
          | some c ↦ ltb context.request_message_index c.next_message_index || ltb 1 next_seq
        ];
        end_index = elim cursor [
          | none ↦ context.request_message_index
          | some c ↦ c.next_message_index
        ];
        started_at = started_at;
        committed_text_chars = text_chars;
        committed_tool_calls = tool_calls;
        terminal_status = none;
        terminal_message_index = none;
        terminal_ts = 0;
        terminal_stop_reason = none;
        events = [];
      })
