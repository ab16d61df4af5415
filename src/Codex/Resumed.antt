-- ===== src/Codex/Resumed.antt =====
-- A state of the engine and one that has been resumed from a cursor: the first has the earlier
-- events too, and its open texts may stand in another order. Every step keeps them so.
use mathlib.Core.List.{append_assoc}
use transport_matters.Prelude.{
  ℕ, ◌≡◌, refl, inl, inr, Option, List, [], ◌∷◌, ◌++◌, Text, codes, Bool-cases, Option-cases,
}
use transport_matters.Prelude.Dict.{get, text_key}
use transport_matters.Ir.Value.{Json, Fields}
use transport_matters.Ir.Value
use transport_matters.Codex.Protocol.{text_of, nonempty_text, dict_of, has_event_type, is_text}
use transport_matters.Codex.OpenTexts.{
  OpenTexts, open_text, append_delta, finish_text, add_item, open_item_id,
  update_open_assistant_items, update_open_tool_calls, tool_call_key, tool_call_arguments_text,
}
use transport_matters.Codex.Events.{EventSource, SemanticEventKind, SemanticEvent}
use transport_matters.Codex.Contract.{TurnDerivationContext}
use transport_matters.Codex.EventData.{semantic_event}
use transport_matters.Codex.Engine.{TurnDerivationState, append_event}
use transport_matters.Codex.SameTexts.{Same, Same-put, open_text-Same}

abbrev pub lifted :
    List SemanticEvent → OpenTexts → OpenTexts → TurnDerivationState → TurnDerivationState
lifted pre d e t = record t {
  open_assistant_items = d;
  open_tool_calls = e;
  events = pre ++ t.events;
}

pub record Resumes (pre : List SemanticEvent) (s t : TurnDerivationState) : Type 0 where
  pub items : OpenTexts
  pub calls : OpenTexts
  pub state : s ≡ lifted pre items calls t
  pub same_items : Same items t.open_assistant_items
  pub same_calls : Same calls t.open_tool_calls

-- the two dicts after a payload
add_item-Same : (p : Fields) (d e : OpenTexts) → Same d e → Same (add_item p d) (add_item p e)
unfolding add_item
add_item-Same p d e h = elim (Option-cases (dict_of (Value.get p (codes "item")))) [
  | inl n ↦ rw (n, add_item) h
  | inr (item, n) ↦ elim (Option-cases (nonempty_text (Value.get item (codes "id")))) [
    | inl m ↦ rw (n, m, add_item) h
    | inr (id, m) ↦ elim (Bool-cases (is_text (Value.get item (codes "type")) (codes "message"))) [
      | inr b ↦ rw (n, m, b, add_item) h
      | inl b ↦ elim (Option-cases (get e id)) [
        | inl g ↦ rw (n, m, b, h.lookups id, g, add_item) (Same-put d e id [] h)
        | inr (t, g) ↦ rw (n, m, b, h.lookups id, g, add_item) h
      ]
    ]
  ]
]

append_delta-Same :
    (p : Fields) (d e : OpenTexts) → Same d e → Same (append_delta p d) (append_delta p e)
unfolding append_delta
append_delta-Same p d e h = elim (Option-cases (nonempty_text (Value.get p (codes "delta")))) [
  | inl n ↦ rw (n, append_delta) h
  | inr (delta, n) ↦
      rw (n, append_delta)
        (rw (open_text-Same d e (open_item_id p) h)
          (Same-put d e (open_item_id p) (open_text e (open_item_id p) ++ delta) h))
]

finish_text-Same :
    (p : Fields) (d e : OpenTexts) → Same d e → Same (finish_text p d) (finish_text p e)
unfolding finish_text
finish_text-Same p d e h = elim (Option-cases (text_of (Value.get p (codes "text")))) [
  | inl n ↦ rw (n, finish_text) h
  | inr (t, n) ↦ rw (n, finish_text) (Same-put d e (open_item_id p) t h)
]

pub items-Same :
    (p : Fields) (d e : OpenTexts)
    → Same d e
    → Same (update_open_assistant_items p d) (update_open_assistant_items p e)
unfolding update_open_assistant_items
items-Same p d e h = elim (Bool-cases (has_event_type p (codes "response.output_text.delta"))) [
  | inl a ↦ rw (a, update_open_assistant_items) (append_delta-Same p d e h)
  | inr a ↦ elim (Bool-cases (has_event_type p (codes "response.output_text.done"))) [
    | inl b ↦ rw (a, b, update_open_assistant_items) (finish_text-Same p d e h)
    | inr b ↦ elim (Bool-cases (has_event_type p (codes "response.output_item.added"))) [
      | inl c ↦ rw (a, b, c, update_open_assistant_items) (add_item-Same p d e h)
      | inr c ↦ rw (a, b, c, update_open_assistant_items) h
    ]
  ]
]

pub calls-Same :
    (dumps : Json → Text) (p : Fields) (d e : OpenTexts)
    → Same d e
    → Same (update_open_tool_calls dumps p d) (update_open_tool_calls dumps p e)
unfolding update_open_tool_calls
calls-Same dumps p d e h =
    elim (Bool-cases (has_event_type p (codes "response.output_item.added"))) [
      | inl a ↦ elim (Option-cases (dict_of (Value.get p (codes "item")))) [
        | inl n ↦ rw (a, n, update_open_tool_calls) h
        | inr (item, n) ↦ elim (Option-cases (tool_call_key item)) [
          | inl m ↦ rw (a, n, m, update_open_tool_calls) h
          | inr (k, m) ↦
              rw (a, n, m, update_open_tool_calls)
                (Same-put d e k (tool_call_arguments_text dumps item) h)
        ]
      ]
      | inr a ↦ elim (Option-cases (tool_call_key p)) [
        | inl m ↦
            elim (Bool-cases (has_event_type p (codes "response.function_call_arguments.delta"))) [
              | inl b ↦ rw (a, b, m, update_open_tool_calls) h
              | inr b ↦
                  elim (Bool-cases
                    (has_event_type p (codes "response.function_call_arguments.done"))) [
                      | inl c ↦ rw (a, b, c, m, update_open_tool_calls) h
                      | inr c ↦ rw (a, b, c, update_open_tool_calls) h
                    ]
            ]
        | inr (k, m) ↦
            elim (Bool-cases (has_event_type p (codes "response.function_call_arguments.delta"))) [
              | inl b ↦ elim (Option-cases (text_of (Value.get p (codes "delta")))) [
                | inl n ↦ rw (a, b, m, n, update_open_tool_calls) h
                | inr (delta, n) ↦
                    rw (a, b, m, n, update_open_tool_calls)
                      (rw (open_text-Same d e k h) (Same-put d e k (open_text e k ++ delta) h))
              ]
              | inr b ↦
                  elim (Bool-cases
                    (has_event_type p (codes "response.function_call_arguments.done"))) [
                      | inl c ↦ elim (Option-cases (text_of (Value.get p (codes "arguments")))) [
                        | inl n ↦ rw (a, b, c, m, n, update_open_tool_calls) h
                        | inr (t, n) ↦
                            rw (a, b, c, m, n, update_open_tool_calls) (Same-put d e k t h)
                      ]
                      | inr c ↦ rw (a, b, c, update_open_tool_calls) h
                    ]
            ]
      ]
    ]

-- a step that the two states take, with the events that it appends
pub append_event-Resumes :
    (dumps : Json → Text) (context : TurnDerivationContext) (source : EventSource)
    (kind : SemanticEventKind) (ts : ℕ) (ref : Option ℕ) (fields : Fields)
    (pre : List SemanticEvent) (s t : TurnDerivationState)
    → Resumes pre s t
    → Resumes pre
        (append_event dumps context source kind ts ref fields s)
        (append_event dumps context source kind ts ref fields t)
unfolding append_event
append_event-Resumes dumps context source kind ts ref fields pre s t h =
    let event = semantic_event context t.next_seq source kind ts ref fields in
    rw (h.state) (record {
      items = h.items;
      calls = h.calls;
      state = rw (append_assoc pre t.events (event ∷ [])) refl;
      same_items = h.same_items;
      same_calls = h.same_calls;
    })
