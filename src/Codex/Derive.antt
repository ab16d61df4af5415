-- ===== src/Codex/Derive.antt =====
-- The end of a turn in api/src/transport_matters/codex/derivation_engine.py: its summary and
-- artifacts, and the two ways to derive them, by replay and by advance.
use transport_matters.Prelude.{
  ℕ, ◌+◌, ◌-◌, false, ◌&&◌, Option, none, some, List, Text, leb, length, if◌then◌else◌, or_else,
}
use transport_matters.Prelude.Dict.{text_key}
use transport_matters.Ir.Value.{Json}
use transport_matters.Codex.Protocol.{TerminalStatus, status_text}
use transport_matters.Codex.OpenTexts.{close_stop_reason}
use transport_matters.Codex.Events.{
  DerivationCursor, EventSource, SemanticEventKind, SemanticEvent, TurnStatus, TerminalCause,
  TurnSummary, sort_cursor_map, has_valid_ranges,
}
use transport_matters.Codex.Contract.{
  Derived, DerivationError, ok, absent, raises, ◌>>=◌, TransportMessageFact, TransportCloseFact,
  OperatorFact, TurnDerivationContext, ReplayRequest, AdvanceRequest, DerivedTurnArtifacts,
  derived_artifacts,
}
use transport_matters.Codex.EventData.{turn_finalized_event_data, open_assistant_text_chars}
use transport_matters.Codex.Engine.{TurnDerivationState, append_event}
use transport_matters.Codex.Advancing.{initial_state, advance_all}

-- the end of a turn: its status and cause, the index and the time of the end, and the reason
pub record TurnEnd : Type 0 where
  pub status : TurnStatus
  pub cause : TerminalCause
  pub index : Option ℕ
  pub ended_at : ℕ
  pub stop_reason : Text
  pub close_code : Option ℕ

abbrev pub terminal_turn_status : TerminalStatus → TurnStatus
terminal_turn_status TerminalStatus.completed = TurnStatus.completed
terminal_turn_status TerminalStatus.failed = TurnStatus.failed

abbrev pub terminal_turn_cause : TerminalStatus → TerminalCause
terminal_turn_cause TerminalStatus.completed = TerminalCause.response_completed
terminal_turn_cause TerminalStatus.failed = TerminalCause.response_failed

unfoldable pub terminal_end : TerminalStatus → TurnDerivationState → TurnEnd
terminal_end status s = record {
  status = terminal_turn_status status;
  cause = terminal_turn_cause status;
  index = s.terminal_message_index;
  ended_at = s.terminal_ts;
  stop_reason = or_else s.terminal_stop_reason (status_text status);
  close_code = none;
}

unfoldable pub close_end : TransportCloseFact → TurnEnd
close_end c = record {
  status = TurnStatus.interrupted;
  cause = TerminalCause.websocket_close;
  index = none;
  ended_at = c.ts;
  stop_reason = close_stop_reason c.close_code;
  close_code = c.close_code;
}

-- how the turn ends: by a terminal message, or else by the close of the transport
unfoldable pub turn_end : Option TransportCloseFact → TurnDerivationState → Option TurnEnd
unfolding terminal_end close_end
turn_end close s = elim s.terminal_status [
  | some status ↦ some (terminal_end status s)
  | none ↦ elim close [ none ↦ none | some c ↦ some (close_end c) ]
]

unfoldable pub open_cursor : TurnDerivationState → DerivationCursor
unfolding sort_cursor_map
open_cursor s = record {
  next_message_index = s.end_index;
  next_seq = s.next_seq;
  open_assistant_items = sort_cursor_map s.open_assistant_items;
  open_tool_calls = sort_cursor_map s.open_tool_calls;
  terminal_seen = false;
}

unfoldable pub summary_text_chars : TurnDerivationState → ℕ
unfolding open_assistant_text_chars
summary_text_chars s = s.committed_text_chars + open_assistant_text_chars s.open_assistant_items

module _ (dumps : Json → Text) (context : TurnDerivationContext) where
  -- `_build_turn_summary`, with the checks of the model
  unfoldable pub build_turn_summary :
      TurnDerivationState
      → ℕ
      → ℕ
      → ℕ
      → Option TurnEnd
      → Option DerivationCursor
      → Derived TurnSummary
  unfolding has_valid_ranges
  build_turn_summary s started_at text_chars tool_calls finish cursor =
      let summary : TurnSummary = record {
        turn_id = context.turn_id;
        exchange_id = context.exchange_id;
        session_id = context.session_id;
        turn_index = context.turn_index;
        request_message_index = context.request_message_index;
        terminal_message_index = elim finish [ none ↦ none | some e ↦ e.index ];
        terminal_cause = elim finish [ none ↦ none | some e ↦ some e.cause ];
        message_range_start = context.request_message_index;
        message_range_end = s.end_index - 1;
        model = context.model;
        status = elim finish [ none ↦ TurnStatus.opened | some e ↦ e.status ];
        stop_reason = elim finish [ none ↦ none | some e ↦ some e.stop_reason ];
        text_chars = text_chars;
        tool_calls = tool_calls;
        started_at = started_at;
        ended_at = elim finish [ none ↦ none | some e ↦ some e.ended_at ];
        derivation_version = context.derivation_version;
        cursor = cursor;
      } in
      if leb 1 s.end_index && has_valid_ranges summary
      then ok summary
      else raises DerivationError.invalid_summary

  -- `_terminal_artifacts` and `_closed_artifacts`
  unfoldable pub append_turn_finalized : TurnEnd → ℕ → ℕ → TurnDerivationState → TurnDerivationState
  unfolding append_event
  append_turn_finalized e text_chars tool_calls s =
      append_event dumps context EventSource.proxy SemanticEventKind.turn_finalized e.ended_at none
        (turn_finalized_event_data e.status e.cause e.stop_reason text_chars tool_calls
          e.close_code)
        s

  -- the events and the summary of `_terminal_artifacts` or `_closed_artifacts`, for totals that are
  -- given
  unfoldable pub ended_artifacts :
      ℕ → TurnEnd → ℕ → ℕ → TurnDerivationState → Derived (List SemanticEvent × TurnSummary)
  unfolding append_turn_finalized build_turn_summary
  ended_artifacts started_at e text_chars tool_calls s =
      build_turn_summary s started_at text_chars tool_calls (some e) none >>= λ turn.
      ok ((append_turn_finalized e text_chars tool_calls s).events, turn)

  -- the events and the summary of `_open_artifacts`
  unfoldable pub open_artifacts :
      ℕ → ℕ → DerivationCursor → TurnDerivationState → Derived (List SemanticEvent × TurnSummary)
  unfolding build_turn_summary
  open_artifacts started_at text_chars cursor s =
      build_turn_summary s started_at text_chars s.committed_tool_calls none (some cursor)
      >>= λ turn. ok (s.events, turn)

  -- `_terminal_artifacts`, `_closed_artifacts` or `_open_artifacts`, before the checks of the
  -- artifacts
  unfoldable pub conclude :
      ℕ
      → Option TransportCloseFact
      → TurnDerivationState
      → Derived (List SemanticEvent × TurnSummary)
  unfolding turn_end ended_artifacts open_artifacts open_cursor summary_text_chars
  conclude started_at close s = elim (turn_end close s) [
    | some e ↦
        ended_artifacts started_at e (summary_text_chars s)
          (s.committed_tool_calls + length s.open_tool_calls) s
    | none ↦ open_artifacts started_at (summary_text_chars s) (open_cursor s) s
  ]

  -- `_finalize_derivation_state`, before the checks of the artifacts
  unfoldable pub finalize_state :
      Option TransportCloseFact → TurnDerivationState → Derived (List SemanticEvent × TurnSummary)
  unfolding conclude
  finalize_state close s =
      if s.turn_started
      then elim s.started_at [ none ↦ absent | some started_at ↦ conclude started_at close s ]
      else absent

  -- `_derive_codex_turn`
  unfoldable pub derive_turn :
      List TransportMessageFact
      → List OperatorFact
      → Option TransportCloseFact
      → Option DerivationCursor
      → Option ℕ
      → ℕ
      → ℕ
      → Derived DerivedTurnArtifacts
  unfolding initial_state advance_all finalize_state derived_artifacts
  derive_turn messages facts close cursor started_at text_chars tool_calls =
      initial_state dumps context cursor started_at text_chars tool_calls >>= λ s.
      advance_all dumps context facts messages s >>= λ t.
      finalize_state close t >>= λ r. derived_artifacts r.0 r.1

-- an advance that starts no turn raises
unfoldable pub require_turn : Derived DerivedTurnArtifacts → Derived DerivedTurnArtifacts
require_turn (ok a) = ok a
require_turn absent = raises DerivationError.missing_turn
require_turn (raises e) = raises e

module _ (dumps : Json → Text) where
  unfoldable pub derive_turn_replay : ReplayRequest → Derived DerivedTurnArtifacts
  unfolding derive_turn
  derive_turn_replay r =
      derive_turn dumps r.context r.transport_messages r.operator_facts r.close none none 0 0

  unfoldable pub derive_turn_incremental : AdvanceRequest → Derived DerivedTurnArtifacts
  unfolding derive_turn require_turn
  derive_turn_incremental r = require_turn (
      derive_turn dumps r.context r.transport_messages r.operator_facts r.close (some r.cursor)
        r.started_at (r.text_chars - open_assistant_text_chars r.cursor.open_assistant_items)
        r.tool_calls)
