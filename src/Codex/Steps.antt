-- ===== src/Codex/Steps.antt =====
-- A message from the server, of api/src/transport_matters/codex/derivation_engine.py, handled from
-- the start of its turn and from a cursor: the two states stay alike.
use transport_matters.Prelude.{
  ◌+◌, ◌≡◌, refl, inl, inr, Option, some, List, [], Text, codes, length, or_else, Bool-cases,
  Option-cases,
}
use transport_matters.Prelude.Dict.{remove, text_key}
use transport_matters.Ir.Value.{Json, Fields}
use transport_matters.Ir.Value
use transport_matters.Codex.Protocol.{
  TerminalStatus, anonymous_item_id, text_of, nonempty_text, is_turn_start,
  assistant_completed_item, status_text, terminal_stop_reason, reasoning_completed_item,
  tool_call_completed_item, terminal_status, has_unhashable_call,
}
use transport_matters.Codex.OpenTexts.{
  OpenTexts, open_text, update_open_assistant_items, update_open_tool_calls, tool_call_key,
  tool_call_arguments_text, reasoning_item_text,
}
use transport_matters.Codex.Events.{EventSource, SemanticEventKind, SemanticEvent}
use transport_matters.Codex.Contract.{
  Derived, ok, absent, raises, TransportMessageFact, TurnDerivationContext,
}
use transport_matters.Codex.EventData.{
  assistant_item_event_data, tool_call_event_data, terminal_event_data,
}
use transport_matters.Codex.Engine.{
  TurnDerivationState, append_assistant_completion, append_tool_call_completion,
  append_terminal_event, append_server_payload_events, text_or_next, is_empty_text, completed_text,
  close_item, terminal_kind,
}
use transport_matters.Codex.Advancing.{advance_started, is_client}
use transport_matters.Codex.SameTexts.{Same, Same-remove, open_text-Same}
use transport_matters.Codex.Resumed.{Resumes, lifted, append_event-Resumes, items-Same, calls-Same}

-- two results of a step
abbrev pub Alike :
    List SemanticEvent → Derived TurnDerivationState → Derived TurnDerivationState → Type 0
Alike pre (ok s) (ok t) = Resumes pre s t
Alike pre absent absent = Unit
Alike pre (raises e) (raises f) = e ≡ f
Alike pre _ _ = ⊥

completed_text-Same :
    (item : Fields) (d e : OpenTexts) → Same d e → completed_text item d ≡ completed_text item e
unfolding completed_text
completed_text-Same item d e h =
    rw
      (
        open_text-Same d e anonymous_item_id h,
        open_text-Same d e (or_else (text_of (Value.get item (codes "id"))) []) h,
      )
      refl

pub close_item-Same :
    (item : Fields) (d e : OpenTexts) → Same d e → Same (close_item item d) (close_item item e)
unfolding close_item
close_item-Same item d e h = elim (Bool-cases (is_empty_text (open_text e anonymous_item_id))) [
  | inl a ↦ elim (Option-cases (nonempty_text (Value.get item (codes "id")))) [
    | inl n ↦ rw (n, open_text-Same d e anonymous_item_id h, a, close_item) h
    | inr (id, n) ↦
        rw (n, open_text-Same d e anonymous_item_id h, a, close_item) (Same-remove d e id h)
  ]
  | inr a ↦ elim (Option-cases (nonempty_text (Value.get item (codes "id")))) [
    | inl n ↦
        rw (n, open_text-Same d e anonymous_item_id h, a, close_item)
          (Same-remove d e anonymous_item_id h)
    | inr (id, n) ↦
        rw (n, open_text-Same d e anonymous_item_id h, a, close_item)
          (Same-remove (remove d id) (remove e id) anonymous_item_id (Same-remove d e id h))
  ]
]

module _ (dumps : Json → Text) (context : TurnDerivationContext) (pre : List SemanticEvent) where
  -- a completed item from the server
  append_assistant_completion-Resumes :
      (m : TransportMessageFact) (item : Fields) (d e : OpenTexts) (t : TurnDerivationState)
      → Same d t.open_assistant_items
      → Same e t.open_tool_calls
      → Resumes pre
          (append_assistant_completion dumps context m item (lifted pre d e t))
          (append_assistant_completion dumps context m item t)
  unfolding append_assistant_completion
  append_assistant_completion-Resumes m item d e t hd he =
      let text = completed_text item t.open_assistant_items in
      rw (append_assistant_completion, completed_text-Same item d t.open_assistant_items hd)
        (append_event-Resumes dumps context EventSource.server
          SemanticEventKind.assistant_item_completed m.ts (some m.message_index)
          (assistant_item_event_data item text) pre
          (record (lifted pre d e t) {
            open_assistant_items = close_item item d;
            committed_text_chars = t.committed_text_chars + length text;
          })
          (record t {
            open_assistant_items = close_item item t.open_assistant_items;
            committed_text_chars = t.committed_text_chars + length text;
          })
          (record {
            items = close_item item d;
            calls = e;
            state = refl;
            same_items = close_item-Same item d t.open_assistant_items hd;
            same_calls = he;
          }))

  append_tool_call_completion-Resumes :
      (m : TransportMessageFact) (item : Fields) (d e : OpenTexts) (t : TurnDerivationState)
      → Same d t.open_assistant_items
      → Same e t.open_tool_calls
      → Resumes pre
          (append_tool_call_completion dumps context m item (lifted pre d e t))
          (append_tool_call_completion dumps context m item t)
  unfolding append_tool_call_completion
  append_tool_call_completion-Resumes m item d e t hd he =
      elim (Option-cases (tool_call_key item)) [
        | inl n ↦
            rw (n, append_tool_call_completion)
              (append_event-Resumes dumps context EventSource.server
                SemanticEventKind.tool_call_completed m.ts (some m.message_index)
                (tool_call_event_data item (text_or_next (tool_call_arguments_text dumps item) []))
                pre
                (record (lifted pre d e t) { committed_tool_calls = t.committed_tool_calls + 1 })
                (record t { committed_tool_calls = t.committed_tool_calls + 1 })
                (record { items = d; calls = e; state = refl; same_items = hd; same_calls = he }))
        | inr (k, n) ↦
            rw (n, append_tool_call_completion)
              (rw (open_text-Same e t.open_tool_calls k he) (
                append_event-Resumes dumps context EventSource.server
                  SemanticEventKind.tool_call_completed m.ts (some m.message_index)
                  (tool_call_event_data item (
                    text_or_next (tool_call_arguments_text dumps item)
                      (open_text t.open_tool_calls k)))
                  pre
                  (record (lifted pre d e t) {
                    open_tool_calls = remove e k;
                    committed_tool_calls = t.committed_tool_calls + 1;
                  })
                  (record t {
                    open_tool_calls = remove t.open_tool_calls k;
                    committed_tool_calls = t.committed_tool_calls + 1;
                  })
                  (record {
                    items = d;
                    calls = remove e k;
                    state = refl;
                    same_items = hd;
                    same_calls = Same-remove e t.open_tool_calls k he;
                  })))
      ]

  append_terminal_event-Resumes :
      (m : TransportMessageFact) (payload : Fields) (status : TerminalStatus) (d e : OpenTexts)
      (t : TurnDerivationState)
      → Same d t.open_assistant_items
      → Same e t.open_tool_calls
      → Resumes pre
          (append_terminal_event dumps context m payload status (lifted pre d e t))
          (append_terminal_event dumps context m payload status t)
  unfolding append_terminal_event
  append_terminal_event-Resumes m payload status d e t hd he =
      let reason = or_else (terminal_stop_reason payload) (status_text status) in
      let after : TurnDerivationState = record t {
        terminal_status = some status;
        terminal_message_index = some m.message_index;
        terminal_ts = m.ts;
        terminal_stop_reason = some reason;
      } in
      append_event-Resumes dumps context EventSource.server (terminal_kind dumps context status)
        m.ts (some m.message_index) (terminal_event_data payload reason) pre (lifted pre d e after)
        after (record { items = d; calls = e; state = refl; same_items = hd; same_calls = he })

  append_server_payload_events-Resumes :
      (m : TransportMessageFact) (payload : Fields) (d e : OpenTexts) (t : TurnDerivationState)
      → Same d t.open_assistant_items
      → Same e t.open_tool_calls
      → Resumes pre
          (append_server_payload_events dumps context m payload (lifted pre d e t))
          (append_server_payload_events dumps context m payload t)
  unfolding append_server_payload_events
  append_server_payload_events-Resumes m payload d e t hd he =
      let d1 = update_open_assistant_items payload d in
      let e1 = update_open_tool_calls dumps payload e in
      let after : TurnDerivationState = record t {
        open_assistant_items = update_open_assistant_items payload t.open_assistant_items;
        open_tool_calls = update_open_tool_calls dumps payload t.open_tool_calls;
      } in
      let sd = items-Same payload d t.open_assistant_items hd in
      let se = calls-Same dumps payload e t.open_tool_calls he in
      let start : Resumes pre (lifted pre d1 e1 after) after = record {
        items = d1;
        calls = e1;
        state = refl;
        same_items = sd;
        same_calls = se;
      } in
      elim (Option-cases (assistant_completed_item payload)) [
        | inr (item, a) ↦
            rw (a, append_server_payload_events)
              (append_assistant_completion-Resumes m item d1 e1 after sd se)
        | inl a ↦ elim (Option-cases (reasoning_completed_item payload)) [
          | inr (item, b) ↦
              rw (a, b, append_server_payload_events)
                (append_event-Resumes dumps context EventSource.server
                  SemanticEventKind.assistant_item_completed m.ts (some m.message_index)
                  (assistant_item_event_data item (reasoning_item_text item)) pre
                  (lifted pre d1 e1 after) after start)
          | inl b ↦ elim (Option-cases (tool_call_completed_item payload)) [
            | inr (item, c) ↦
                rw (a, b, c, append_server_payload_events)
                  (append_tool_call_completion-Resumes m item d1 e1 after sd se)
            | inl c ↦ elim (Option-cases (terminal_status payload)) [
              | inr (status, f) ↦
                  rw (a, b, c, f, append_server_payload_events)
                    (append_terminal_event-Resumes m payload status d1 e1 after sd se)
              | inl f ↦ rw (a, b, c, f, append_server_payload_events) start
            ]
          ]
        ]
      ]

  pub advance_started-Alike :
      (m : TransportMessageFact) (payload : Option Fields) (d e : OpenTexts)
      (t : TurnDerivationState)
      → Same d t.open_assistant_items
      → Same e t.open_tool_calls
      → Alike pre
          (advance_started dumps context m payload (lifted pre d e t))
          (advance_started dumps context m payload t)
  unfolding advance_started
  advance_started-Alike m payload d e t hd he =
      let same : Resumes pre (lifted pre d e t) t = record {
        items = d;
        calls = e;
        state = refl;
        same_items = hd;
        same_calls = he;
      } in
      elim (Bool-cases (is_client dumps context m.direction)) [
        | inl a ↦ elim (Bool-cases (is_turn_start payload)) [
          | inl b ↦ rw (a, b, advance_started) refl
          | inr b ↦ rw (a, b, advance_started) same
        ]
        | inr a ↦ elim (Option-cases payload) [
          | inl b ↦ rw (a, b, advance_started) same
          | inr (p, b) ↦ elim (Bool-cases (has_unhashable_call p)) [
            | inl q ↦ rw (a, b, q) refl
            | inr q ↦ rw (a, b, q) (append_server_payload_events-Resumes m p d e t hd he)
          ]
        ]
      ]
