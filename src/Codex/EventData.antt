-- ===== src/Codex/EventData.antt =====
-- api/src/transport_matters/codex/derivation_events.py: the events of a turn and what they carry.
-- The items are those that the protocol's tests have let pass, whose `type` is a text.
use transport_matters.Prelude.{ℕ, Option, none, some, [], Text, codes, length, or_else, sum_of}
use transport_matters.Prelude.Int.{pos}
use transport_matters.Ir.Value.{Json, Fields, empty}
use transport_matters.Ir.Value
use transport_matters.Codex.Protocol.{
  canonicalize_fields, text_of, nonempty_text, response_status_reason, dict_of,
}
use transport_matters.Codex.OpenTexts.{OpenTexts, json_text_length}
use transport_matters.Codex.Events.{
  EventSource, SemanticEventKind, SemanticEvent, TurnStatus, TerminalCause,
}
use transport_matters.Codex.Contract.{TurnDerivationContext, event_id_for_seq}

-- `append_codex_semantic_event`, whose event goes to the end of the list
unfoldable pub semantic_event :
    TurnDerivationContext
    → ℕ
    → EventSource
    → SemanticEventKind
    → ℕ
    → Option ℕ
    → Fields
    → SemanticEvent
semantic_event c seq source kind ts ref fields = record {
  event_id = event_id_for_seq seq;
  exchange_id = c.exchange_id;
  session_id = c.session_id;
  turn_id = c.turn_id;
  seq = seq;
  ts = ts;
  source = source;
  kind = kind;
  transport_ref = ref;
  fields = canonicalize_fields fields;
  derivation_version = c.derivation_version;
}

-- `if isinstance(value, str) and value: data[key] = value`
abbrev pub put_text : Fields → Text → Option Text → Fields
put_text d k none = d
put_text d k (some t) = Value.put d k (Json.str t)

abbrev pub chars : ℕ → Json
chars n = Json.int (pos n)

abbrev pub item_type : Fields → Json
item_type item = Json.str (or_else (text_of (Value.get item (codes "type"))) [])

unfoldable pub assistant_item_event_data : Fields → Text → Fields
unfolding text_of nonempty_text
assistant_item_event_data item text =
    let typed =
      Value.put (Value.put empty (codes "item_type") (item_type item)) (codes "text_chars")
        (chars (length text)) in
    put_text
      (put_text (put_text typed (codes "item_id") (nonempty_text (Value.get item (codes "id"))))
        (codes "phase") (nonempty_text (Value.get item (codes "phase"))))
      (codes "role") (nonempty_text (Value.get item (codes "role")))

unfoldable pub tool_call_event_data : Fields → Text → Fields
unfolding text_of nonempty_text
tool_call_event_data item arguments =
    let typed =
      Value.put (Value.put empty (codes "item_type") (item_type item)) (codes "arguments_chars")
        (chars (length arguments)) in
    let id = nonempty_text (Value.get item (codes "id")) in
    let call_id : Option Text = elim (nonempty_text (Value.get item (codes "call_id"))) [
      | some c ↦ some c
      | none ↦ id
    ] in
    put_text (put_text (put_text typed (codes "call_id") call_id) (codes "item_id") id)
      (codes "tool_name") (nonempty_text (Value.get item (codes "name")))

unfoldable pub terminal_event_data : Fields → Text → Fields
unfolding dict_of nonempty_text response_status_reason
terminal_event_data payload stop_reason =
    let reason = Value.put empty (codes "stop_reason") (Json.str stop_reason) in
    elim (dict_of (Value.get payload (codes "response"))) [
      | none ↦ reason
      | some response ↦
          put_text
            (put_text reason (codes "response_id")
              (nonempty_text (Value.get response (codes "id"))))
            (codes "response_status") (response_status_reason (some (Json.obj response)))
    ]

abbrev pub turn_status_text : TurnStatus → Text
turn_status_text TurnStatus.opened = codes "open"
turn_status_text TurnStatus.completed = codes "completed"
turn_status_text TurnStatus.failed = codes "failed"
turn_status_text TurnStatus.interrupted = codes "interrupted"

abbrev pub terminal_cause_text : TerminalCause → Text
terminal_cause_text TerminalCause.response_completed = codes "response_completed"
terminal_cause_text TerminalCause.response_failed = codes "response_failed"
terminal_cause_text TerminalCause.websocket_close = codes "websocket_close"

unfoldable pub turn_finalized_event_data :
    TurnStatus → TerminalCause → Text → ℕ → ℕ → Option ℕ → Fields
turn_finalized_event_data status cause stop_reason text_chars tool_calls close_code =
    let d =
      Value.put
        (Value.put
          (Value.put
            (Value.put (Value.put empty (codes "status") (Json.str (turn_status_text status)))
              (codes "terminal_cause") (Json.str (terminal_cause_text cause)))
            (codes "stop_reason") (Json.str stop_reason))
          (codes "text_chars") (chars text_chars))
        (codes "tool_calls") (chars tool_calls) in
    elim close_code [ none ↦ d | some code ↦ Value.put d (codes "close_code") (chars code) ]

unfoldable pub open_assistant_text_chars : OpenTexts → ℕ
open_assistant_text_chars d = sum_of (λ e. length e.1) d

module _ (dumps : Json → Text) where
  unfoldable pub tool_output_event_data : Fields → ℕ → Fields
  unfolding text_of nonempty_text json_text_length
  tool_output_event_data item input_index =
      put_text
        (Value.put
          (Value.put (Value.put empty (codes "input_index") (chars input_index)) (codes "item_type")
            (item_type item))
          (codes "output_chars") (chars (json_text_length dumps (Value.get item (codes "output")))))
        (codes "call_id") (nonempty_text (Value.get item (codes "call_id")))
