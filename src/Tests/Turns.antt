-- ===== src/Tests/Turns.antt =====
-- A turn of a Codex session: the request, a delta of an item, its completion and the end of the
-- response.
use transport_matters.Prelude.{
  ℕ, ◌+◌, true, false, ◌≡◌, refl, ap, ◌∙◌, inr, none, some, List, [], ◌∷◌, ◌++◌, map, Text, codes,
  text_eq, length, or_else,
}
use transport_matters.Ir.Value.{Json, Fields, empty, field}
use transport_matters.Codex.Events.{DerivationCursor}
use transport_matters.Codex.Contract.{
  ◌>>=◌, Derived, DerivationError, ok, absent, raises, Direction, TransportMessageFact,
  TurnDerivationContext, DerivedTurnArtifacts, is_opened, is_nonempty,
}
use transport_matters.Codex.Events.{TurnStatus}
use transport_matters.Codex.Protocol.{
  insert_key, text_of, nonempty_text, dict_of, is_text, has_event_type, is_turn_start,
  terminal_status, response_status_reason, terminal_stop_reason, item_of, assistant_completed_item,
  reasoning_completed_item, is_tool_call, is_tool_output, has_unhashable_call,
  has_unhashable_output, tool_call_completed_item, output_items, iter_tool_output_items,
  canonicalize_json, canonicalize_items, canonicalize_fields, payload_event_type,
}
use transport_matters.Codex.OpenTexts.{
  open_text, open_item_id, append_delta, finish_text, add_item, update_open_assistant_items,
  tool_call_key, content_entry_text, join_entries, assistant_item_text, summary_texts,
  join_paragraphs, reasoning_item_text, compact_json, json_text_length, tool_call_arguments_text,
  update_open_tool_calls,
}
use transport_matters.Codex.Events.{insert_text, sort_cursor_map, has_markers, has_valid_ranges}
use transport_matters.Codex.Contract.{
  next_event_seq, zeros, event_id_for_seq, sort_operator_facts, is_increasing, has_distinct_kinds,
  replay_request, is_event_of, follows, is_contiguous, last_seq, expected_next_seq, is_open_cursor,
  has_valid_artifacts, derived_artifacts,
}
use transport_matters.Codex.EventData.{
  semantic_event, assistant_item_event_data, tool_call_event_data, terminal_event_data,
  turn_finalized_event_data, open_assistant_text_chars, tool_output_event_data,
}
use transport_matters.Codex.Engine.{
  completed_text, close_item, append_event, append_operator_facts, append_tool_outputs,
  append_assistant_completion, append_tool_call_completion, append_terminal_event,
  append_server_payload_events,
}
use transport_matters.Codex.Advancing.{
  try_start, advance_started, advance_state, advance_all, initial_state,
}
use transport_matters.Codex.Derive.{
  terminal_end, turn_end, open_cursor, summary_text_chars, build_turn_summary,
  append_turn_finalized, ended_artifacts, open_artifacts, conclude, finalize_state, derive_turn,
  require_turn, derive_turn_replay, derive_turn_incremental,
}
use transport_matters.Prelude.Dict.{get, put}
use transport_matters.Prelude.Decimal.{nat_text}
use transport_matters.Ir.Value
use transport_matters.Codex.Incremental.{start, replay_of, advance_of}
use transport_matters.Codex.Advances.{
  derive_turn_incremental-append, derive_turn_replay-append, derive_turn_incremental_without_events,
  derive_turn_incremental-raises,
}
use transport_matters.Codex.Update.{
  TransportMessageArtifact, TransportArtifacts, transport_message_facts, message_facts, drop,
  close_fact, updated_artifacts, replay_derived_artifacts, payload_type, message_fact,
  derive_event_type,
}
use transport_matters.Codex.Updated.{updated_artifacts-replay}
use transport_matters.Codex.Checks.{derive_turn_replay_unchecked, derive_turn_replay_after_terminal}

abbrev dumps : Json → Text
dumps v = codes "{}"

abbrev context : TurnDerivationContext
context = record {
  exchange_id = codes "exc";
  session_id = codes "ses";
  turn_id = codes "turn";
  turn_index = 0;
  request_message_index = 0;
  model = codes "gpt";
  derivation_version = 1;
}

abbrev typed : Text → Fields → Json
typed t rest = Json.obj (field (codes "type") (Json.str t) rest)

abbrev message : ℕ → Direction → Json → TransportMessageFact
message i direction payload = record {
  message_index = i;
  ts = 10 + i;
  direction = direction;
  event_type = payload_type (some payload);
  payload_json = some payload;
  dropped = false;
}

abbrev create : TransportMessageFact
create = message 0 Direction.client (typed (codes "response.create") empty)

abbrev delta : TransportMessageFact
delta = message 1 Direction.server (
    Json.obj (
      field (codes "delta") (Json.str (codes "Hi")) (
        field (codes "item_id") (Json.str (codes "msg"))
          (field (codes "type") (Json.str (codes "response.output_text.delta")) empty))))

abbrev second_create : TransportMessageFact
second_create = record create { message_index = 2 }

abbrev more_delta : TransportMessageFact
more_delta = record delta { message_index = 2 }

abbrev completion : TransportMessageFact
completion = message 2 Direction.server (
    Json.obj (
      field (codes "item")
        (Json.obj (
          field (codes "id") (Json.str (codes "msg")) (
            field (codes "role") (Json.str (codes "assistant")) (
              field (codes "status") (Json.str (codes "completed"))
                (field (codes "type") (Json.str (codes "message")) empty)))))
        (field (codes "type") (Json.str (codes "response.output_item.done")) empty)))

abbrev finish : TransportMessageFact
finish = message 3 Direction.server (typed (codes "response.completed") empty)

abbrev no_cursor : DerivationCursor
no_cursor = record {
  next_message_index = 0;
  next_seq = 1;
  open_assistant_items = [];
  open_tool_calls = [];
  terminal_seen = false;
}

abbrev no_turn : DerivedTurnArtifacts
no_turn = record {
  events = [];
  turn = record {
    turn_id = [];
    exchange_id = [];
    session_id = [];
    turn_index = 0;
    request_message_index = 0;
    terminal_message_index = none;
    terminal_cause = none;
    message_range_start = 0;
    message_range_end = 0;
    model = [];
    status = TurnStatus.interrupted;
    stop_reason = none;
    text_chars = 0;
    tool_calls = 0;
    started_at = 0;
    ended_at = none;
    derivation_version = 1;
    cursor = none;
  };
}

abbrev turn_of : Derived DerivedTurnArtifacts → DerivedTurnArtifacts
turn_of (ok a) = a
turn_of absent = no_turn
turn_of (raises e) = no_turn

abbrev replay : List TransportMessageFact → Derived DerivedTurnArtifacts
replay ms = derive_turn_replay dumps (replay_of context ms [] none)

-- the turn after the first two messages, which is open
abbrev opened : DerivedTurnArtifacts
opened = turn_of (replay (create ∷ delta ∷ []))

abbrev opened_cursor : DerivationCursor
opened_cursor = or_else opened.turn.cursor no_cursor

abbrev advance : List TransportMessageFact → Derived DerivedTurnArtifacts
advance ns = derive_turn_incremental dumps (advance_of context opened opened_cursor ns [] none)

abbrev ended : DerivedTurnArtifacts
ended = turn_of (replay (create ∷ delta ∷ completion ∷ finish ∷ []))

abbrev still_opened : DerivedTurnArtifacts
still_opened = turn_of (replay (create ∷ delta ∷ more_delta ∷ []))

-- what the replays and the advances give, computed
runs :
    (replay (create ∷ delta ∷ []) ≡ ok opened)
    × (is_opened opened.turn.status ≡ true)
    × (opened.turn.cursor ≡ some opened_cursor)
    × (is_nonempty opened.events ≡ true)
    × (advance (completion ∷ finish ∷ []) ≡ ok (turn_of (advance (completion ∷ finish ∷ []))))
    × (length (turn_of (advance (completion ∷ finish ∷ []))).events ≡ 3)
    × (replay (create ∷ delta ∷ completion ∷ finish ∷ []) ≡ ok ended)
    × (is_opened ended.turn.status ≡ false)
    × (replay (create ∷ delta ∷ more_delta ∷ []) ≡ ok still_opened)
    × (still_opened.events ≡ opened.events)
    × (is_opened still_opened.turn.status ≡ true)
    × (replay (create ∷ delta ∷ second_create ∷ []) ≡ raises DerivationError.nested_turn_start)
    × (opened_cursor.next_message_index ≡ 2)
unfolding insert_key text_of nonempty_text dict_of is_text has_event_type is_turn_start
    terminal_status response_status_reason terminal_stop_reason item_of assistant_completed_item
    reasoning_completed_item is_tool_call is_tool_output tool_call_completed_item output_items
    iter_tool_output_items open_text open_item_id append_delta finish_text add_item
    update_open_assistant_items tool_call_key content_entry_text join_entries assistant_item_text
    summary_texts join_paragraphs reasoning_item_text compact_json json_text_length
    tool_call_arguments_text update_open_tool_calls canonicalize_json canonicalize_items
    canonicalize_fields insert_text sort_cursor_map has_markers has_valid_ranges next_event_seq
    zeros event_id_for_seq is_event_of follows is_contiguous last_seq expected_next_seq
    is_open_cursor has_valid_artifacts derived_artifacts semantic_event assistant_item_event_data
    tool_call_event_data terminal_event_data turn_finalized_event_data open_assistant_text_chars
    tool_output_event_data completed_text close_item append_event append_operator_facts
    append_tool_outputs append_assistant_completion append_tool_call_completion
    append_terminal_event append_server_payload_events try_start advance_started has_unhashable_call
    has_unhashable_output advance_state advance_all initial_state terminal_end turn_end open_cursor
    summary_text_chars build_turn_summary append_turn_finalized ended_artifacts open_artifacts
    conclude finalize_state derive_turn require_turn derive_turn_replay derive_turn_incremental
    Value.get Value.put get put nat_text text_eq
runs = (refl, refl, refl, refl, refl, refl, refl, refl, refl, refl, refl, refl, refl)

derive_turn_incremental-append_example :
    replay (create ∷ delta ∷ completion ∷ finish ∷ [])
    ≡ ok (record {
      events = opened.events ++ (turn_of (advance (completion ∷ finish ∷ []))).events;
      turn = (turn_of (advance (completion ∷ finish ∷ []))).turn;
    })
derive_turn_incremental-append_example =
    derive_turn_incremental-append dumps context [] [] (create ∷ delta ∷ [])
      (completion ∷ finish ∷ []) none opened opened_cursor
      (turn_of (advance (completion ∷ finish ∷ []))) runs.0 runs.1 runs.2 runs.4

derive_turn_replay-append_example :
    (b : DerivedTurnArtifacts) × (advance (completion ∷ finish ∷ []) ≡ ok b)
    × (ended.events ≡ opened.events ++ b.events)
    × (ended.turn ≡ b.turn)
derive_turn_replay-append_example =
    derive_turn_replay-append dumps context [] [] (create ∷ delta ∷ []) (completion ∷ finish ∷ [])
      none opened opened_cursor ended runs.0 runs.1 runs.2 runs.6 (inr runs.7)

derive_turn_incremental_without_events_example :
    advance (more_delta ∷ []) ≡ raises DerivationError.invalid_artifacts
derive_turn_incremental_without_events_example =
    derive_turn_incremental_without_events dumps context [] [] (create ∷ delta ∷ [])
      (more_delta ∷ []) none opened opened_cursor still_opened runs.0 runs.1 runs.2 runs.3 runs.8
      runs.9 runs.10

derive_turn_incremental-raises_example :
    advance (second_create ∷ []) ≡ raises DerivationError.nested_turn_start
derive_turn_incremental-raises_example =
    derive_turn_incremental-raises dumps context [] [] (create ∷ delta ∷ []) (second_create ∷ [])
      none opened opened_cursor DerivationError.nested_turn_start runs.0 runs.1 runs.2 runs.11

derive_turn_replay_unchecked_example : replay (create ∷ delta ∷ []) ≡ (
    advance_all dumps context [] (create ∷ delta ∷ []) (start dumps context)
    >>= finalize_state dumps context none
    >>= λ r. ok (record { events = r.0; turn = r.1 }))
derive_turn_replay_unchecked_example =
    derive_turn_replay_unchecked dumps context [] (create ∷ delta ∷ []) none refl

derive_turn_replay_after_terminal_example :
    derive_turn_replay dumps (
      replay_of context ((create ∷ delta ∷ completion ∷ finish ∷ []) ++ second_create ∷ []) [] none)
    ≡ raises DerivationError.message_after_terminal
derive_turn_replay_after_terminal_example =
    derive_turn_replay_after_terminal dumps context [] (create ∷ delta ∷ completion ∷ finish ∷ [])
      ended second_create [] none runs.6 runs.7

abbrev artifact : TransportMessageFact → TransportMessageArtifact
artifact m = record {
  ts = some m.ts;
  direction = m.direction;
  event_type = none;
  payload_json = m.payload_json;
  dropped = m.dropped;
}

abbrev transport : TransportArtifacts
transport = record {
  messages = map artifact (create ∷ delta ∷ completion ∷ finish ∷ []);
  close = none;
}

transport_runs :
    (transport_message_facts transport 0 ≡ ok (create ∷ delta ∷ completion ∷ finish ∷ []))
    × (transport_message_facts transport 2 ≡ ok (completion ∷ finish ∷ []))
    × (replay_request
          (replay_of context (create ∷ delta ∷ completion ∷ finish ∷ []) [] (close_fact transport))
        ≡ ok (
            replay_of context
              (create ∷ delta ∷ completion ∷ finish ∷ [])
              []
              (close_fact transport)))
    × (sort_operator_facts [] ≡ [])
unfolding transport_message_facts message_facts message_fact derive_event_type payload_type
    payload_event_type text_of canonicalize_json canonicalize_items canonicalize_fields insert_key
    Value.get text_eq transport_matters.Prelude.text_leb drop replay_request is_increasing
    has_distinct_kinds sort_operator_facts close_fact
transport_runs = (refl, refl, refl, refl)

updated_artifacts-replay_example :
    updated_artifacts dumps opened (codes "exc") (some context) [] transport
    ≡ replay_derived_artifacts dumps (some context) [] transport
unfolding sort_operator_facts
updated_artifacts-replay_example =
    updated_artifacts-replay dumps context [] (create ∷ delta ∷ []) (completion ∷ finish ∷ [])
      transport opened opened_cursor runs.0 runs.1 runs.2 transport_runs.0
      (ap (transport_message_facts transport) runs.12 ∙ transport_runs.1) transport_runs.2
