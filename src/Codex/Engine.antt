-- ===== src/Codex/Engine.antt =====
-- api/src/transport_matters/codex/derivation_engine.py: a turn is derived from the messages of its
-- transport, by a replay from the start or by an advance from the cursor of an open turn.
use transport_matters.Prelude.{
  ℕ, ◌+◌, Bool, true, false, Option, none, some, List, [], ◌∷◌, ◌++◌, Text, codes, length,
  if◌then◌else◌, or_else,
}
use transport_matters.Prelude.Dict.{remove, text_key}
use transport_matters.Ir.Value.{Json, Fields, empty}
use transport_matters.Ir.Value
use transport_matters.Codex.Protocol.{
  TerminalStatus, status_text, terminal_status, terminal_stop_reason, assistant_completed_item,
  reasoning_completed_item, tool_call_completed_item, anonymous_item_id, text_of, nonempty_text,
}
use transport_matters.Codex.OpenTexts.{
  OpenTexts, open_text, update_open_assistant_items, update_open_tool_calls, tool_call_key,
  tool_call_arguments_text, assistant_item_text, reasoning_item_text,
}
use transport_matters.Codex.Events.{EventSource, SemanticEventKind, SemanticEvent}
use transport_matters.Codex.Contract.{
  TransportMessageFact, OperatorFact, OperatorFactKind, TurnDerivationContext,
}
use transport_matters.Codex.EventData.{
  semantic_event, assistant_item_event_data, tool_call_event_data, terminal_event_data,
  tool_output_event_data,
}

-- An item's id that is not a text counts as no id. `end_index` is `last_message_index + 1`, since
-- the last index is -1 before a message at index 0.
pub record TurnDerivationState : Type 0 where
  pub next_seq : ℕ
  pub open_assistant_items : OpenTexts
  pub open_tool_calls : OpenTexts
  pub turn_started : Bool
  pub end_index : ℕ
  pub started_at : Option ℕ
  pub committed_text_chars : ℕ
  pub committed_tool_calls : ℕ
  pub terminal_status : Option TerminalStatus
  pub terminal_message_index : Option ℕ
  pub terminal_ts : ℕ
  pub terminal_stop_reason : Option Text
  pub events : List SemanticEvent

-- `text or next`
abbrev pub text_or_next : Text → Text → Text
text_or_next [] next = next
text_or_next (c ∷ cs) next = c ∷ cs

abbrev pub is_empty_text : Text → Bool
is_empty_text [] = true
is_empty_text (c ∷ cs) = false

-- the text of a completed item: its own, or what its deltas left open, or what no item's deltas left
unfoldable pub completed_text : Fields → OpenTexts → Text
unfolding text_of open_text
completed_text item d = text_or_next (assistant_item_text item) (
    text_or_next (open_text d (or_else (text_of (Value.get item (codes "id"))) []))
      (open_text d anonymous_item_id))

-- the open items once an item is completed
unfoldable pub close_item : Fields → OpenTexts → OpenTexts
unfolding nonempty_text open_text
close_item item d =
    let closed : OpenTexts = elim (nonempty_text (Value.get item (codes "id"))) [
      | none ↦ d
      | some id ↦ remove d id
    ] in
    if is_empty_text (open_text d anonymous_item_id)
    then closed
    else remove closed anonymous_item_id

module _ (dumps : Json → Text) (context : TurnDerivationContext) where
  -- `append_event`
  unfoldable pub append_event :
      EventSource
      → SemanticEventKind
      → ℕ
      → Option ℕ
      → Fields
      → TurnDerivationState
      → TurnDerivationState
  append_event source kind ts ref fields s = record s {
    next_seq = s.next_seq + 1;
    events = s.events ++ semantic_event context s.next_seq source kind ts ref fields ∷ [];
  }

  abbrev pub fact_kind : OperatorFactKind → SemanticEventKind
  fact_kind OperatorFactKind.request_curated = SemanticEventKind.request_curated
  fact_kind OperatorFactKind.breakpoint_paused = SemanticEventKind.breakpoint_paused
  fact_kind OperatorFactKind.breakpoint_released = SemanticEventKind.breakpoint_released

  abbrev pub fact_source : OperatorFactKind → EventSource
  fact_source OperatorFactKind.request_curated = EventSource.proxy
  fact_source OperatorFactKind.breakpoint_paused = EventSource.operator
  fact_source OperatorFactKind.breakpoint_released = EventSource.operator

  unfoldable pub append_operator_facts :
      List OperatorFact → TurnDerivationState → TurnDerivationState
  unfolding append_event
  append_operator_facts [] s = s
  append_operator_facts (f ∷ fs) s =
      append_operator_facts fs
        (append_event (fact_source f.kind) (fact_kind f.kind) f.ts none f.fields s)

  unfoldable pub append_tool_outputs :
      TransportMessageFact → List (ℕ × Fields) → TurnDerivationState → TurnDerivationState
  unfolding append_event
  append_tool_outputs m [] s = s
  append_tool_outputs m ((i, item) ∷ items) s = append_tool_outputs m items (
      append_event EventSource.client SemanticEventKind.tool_output_submitted m.ts
        (some m.message_index) (tool_output_event_data dumps item i) s)

  unfoldable pub append_assistant_completion :
      TransportMessageFact → Fields → TurnDerivationState → TurnDerivationState
  unfolding append_event completed_text close_item
  append_assistant_completion m item s =
      let text = completed_text item s.open_assistant_items in
      append_event EventSource.server SemanticEventKind.assistant_item_completed m.ts
        (some m.message_index) (assistant_item_event_data item text)
        (record s {
          open_assistant_items = close_item item s.open_assistant_items;
          committed_text_chars = s.committed_text_chars + length text;
        })

  unfoldable pub append_tool_call_completion :
      TransportMessageFact → Fields → TurnDerivationState → TurnDerivationState
  unfolding append_event
  append_tool_call_completion m item s =
      let key = tool_call_key item in
      let arguments : Text = elim key [ none ↦ [] | some k ↦ open_text s.open_tool_calls k ] in
      append_event EventSource.server SemanticEventKind.tool_call_completed m.ts
        (some m.message_index)
        (tool_call_event_data item (text_or_next (tool_call_arguments_text dumps item) arguments))
        (record s {
          open_tool_calls = elim key [
            | none ↦ s.open_tool_calls
            | some k ↦ remove s.open_tool_calls k
          ];
          committed_tool_calls = s.committed_tool_calls + 1;
        })

  abbrev pub terminal_kind : TerminalStatus → SemanticEventKind
  terminal_kind TerminalStatus.completed = SemanticEventKind.response_completed
  terminal_kind TerminalStatus.failed = SemanticEventKind.response_failed

  unfoldable pub append_terminal_event :
      TransportMessageFact → Fields → TerminalStatus → TurnDerivationState → TurnDerivationState
  unfolding append_event
  append_terminal_event m payload status s =
      let reason = or_else (terminal_stop_reason payload) (status_text status) in
      append_event EventSource.server (terminal_kind status) m.ts (some m.message_index)
        (terminal_event_data payload reason)
        (record s {
          terminal_status = some status;
          terminal_message_index = some m.message_index;
          terminal_ts = m.ts;
          terminal_stop_reason = some reason;
        })

  unfoldable pub append_server_payload_events :
      TransportMessageFact → Fields → TurnDerivationState → TurnDerivationState
  unfolding append_event append_assistant_completion append_tool_call_completion
      append_terminal_event
  append_server_payload_events m payload s =
      let updated = record s {
        open_assistant_items = update_open_assistant_items payload s.open_assistant_items;
        open_tool_calls = update_open_tool_calls dumps payload s.open_tool_calls;
      } in
      elim (assistant_completed_item payload) [
        | some item ↦ append_assistant_completion m item updated
        | none ↦ elim (reasoning_completed_item payload) [
          | some item ↦
              append_event EventSource.server SemanticEventKind.assistant_item_completed m.ts
                (some m.message_index) (assistant_item_event_data item (reasoning_item_text item))
                updated
          | none ↦ elim (tool_call_completed_item payload) [
            | some item ↦ append_tool_call_completion m item updated
            | none ↦ elim (terminal_status payload) [
              | some status ↦ append_terminal_event m payload status updated
              | none ↦ updated
            ]
          ]
        ]
      ]
