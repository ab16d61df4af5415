-- ===== src/Codex/Events.antt =====
-- api/src/transport_matters/codex/events.py: semantic events, cursors and turn summaries, with the
-- checks that pydantic makes when a summary is built. A `datetime` is a number of microseconds.
use transport_matters.Prelude.{
  ℕ, Bool, true, false, not, ◌&&◌, Option, none, some, [], ◌∷◌, Text, leb, ◌==◌, if◌then◌else◌,
  is_some, text_leb,
}
use transport_matters.Ir.Value.{Fields}
use transport_matters.Codex.OpenTexts.{OpenTexts}

pub data EventSource : Type 0 where
  client server proxy operator : EventSource

pub data SemanticEventKind : Type 0 where
  turn_started request_curated breakpoint_paused breakpoint_released : SemanticEventKind
  assistant_item_completed tool_call_completed tool_output_submitted : SemanticEventKind
  response_completed response_failed turn_finalized : SemanticEventKind

pub data TurnStatus : Type 0 where
  opened completed failed interrupted : TurnStatus

pub data TerminalCause : Type 0 where
  response_completed response_failed websocket_close : TerminalCause

-- `_sort_cursor_maps`
unfoldable pub insert_text : Text → Text → OpenTexts → OpenTexts
insert_text k v [] = (k, v) ∷ []
insert_text k v ((j, w) ∷ d) =
    if text_leb k j then (k, v) ∷ (j, w) ∷ d else (j, w) ∷ insert_text k v d

unfoldable pub sort_cursor_map : OpenTexts → OpenTexts
unfolding insert_text
sort_cursor_map [] = []
sort_cursor_map ((k, v) ∷ d) = insert_text k v (sort_cursor_map d)

pub record DerivationCursor : Type 0 where
  pub next_message_index : ℕ
  pub next_seq : ℕ
  pub open_assistant_items : OpenTexts
  pub open_tool_calls : OpenTexts
  pub terminal_seen : Bool

pub record SemanticEvent : Type 0 where
  pub event_id : Text
  pub exchange_id : Text
  pub session_id : Text
  pub turn_id : Text
  pub seq : ℕ
  pub ts : ℕ
  pub source : EventSource
  pub kind : SemanticEventKind
  pub transport_ref : Option ℕ
  pub fields : Fields
  pub derivation_version : ℕ

pub record TurnSummary : Type 0 where
  pub turn_id : Text
  pub exchange_id : Text
  pub session_id : Text
  pub turn_index : ℕ
  pub request_message_index : ℕ
  pub terminal_message_index : Option ℕ
  pub terminal_cause : Option TerminalCause
  pub message_range_start : ℕ
  pub message_range_end : ℕ
  pub model : Text
  pub status : TurnStatus
  pub stop_reason : Option Text
  pub text_chars : ℕ
  pub tool_calls : ℕ
  pub started_at : ℕ
  pub ended_at : Option ℕ
  pub derivation_version : ℕ
  pub cursor : Option DerivationCursor

abbrev pub is_cause : TerminalCause → Option TerminalCause → Bool
is_cause TerminalCause.response_completed (some TerminalCause.response_completed) = true
is_cause TerminalCause.response_failed (some TerminalCause.response_failed) = true
is_cause TerminalCause.websocket_close (some TerminalCause.websocket_close) = true
is_cause _ _ = false

-- the terminal markers that a status asks for
unfoldable pub has_markers : TurnSummary → TurnStatus → Bool
has_markers t TurnStatus.opened =
    not (is_some t.terminal_message_index)
    && not (is_some t.terminal_cause)
    && not (is_some t.ended_at)
    && not (is_some t.stop_reason)
has_markers t TurnStatus.completed =
    is_some t.ended_at
    && is_cause TerminalCause.response_completed t.terminal_cause
    && is_some t.terminal_message_index
    && is_some t.stop_reason
has_markers t TurnStatus.failed =
    is_some t.ended_at
    && is_cause TerminalCause.response_failed t.terminal_cause
    && is_some t.terminal_message_index
    && is_some t.stop_reason
has_markers t TurnStatus.interrupted =
    is_some t.ended_at
    && is_cause TerminalCause.websocket_close t.terminal_cause
    && not (is_some t.terminal_message_index)
    && is_some t.stop_reason

-- `_validate_ranges`
unfoldable pub has_valid_ranges : TurnSummary → Bool
unfolding has_markers
has_valid_ranges t =
    t.request_message_index == t.message_range_start
    && leb t.message_range_start t.message_range_end
    && (elim t.terminal_message_index [
      | none ↦ true
      | some i ↦ leb t.message_range_start i && leb i t.message_range_end
    ])
    && has_markers t t.status
