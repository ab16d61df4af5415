-- ===== src/Codex/OpenTexts.antt =====
-- api/src/transport_matters/codex/protocol.py: the texts of items, and those that are still open
-- while their deltas come in. `dumps` is `json.dumps` with compact separators.
use transport_matters.Prelude.{
  ℕ, ◌||◌, Option, none, some, List, [], ◌∷◌, ◌++◌, Text, codes, ◌==◌, length, if◌then◌else◌,
  or_else,
}
use transport_matters.Prelude.Dict.{Dict, get, put, text_key}
use transport_matters.Prelude.Decimal.{int_text}
use transport_matters.Prelude.Int.{pos}
use transport_matters.Ir.Value.{Json, Items, nil, cons, Fields, empty, field, true_or_next}
use transport_matters.Ir.Value
use transport_matters.Codex.Protocol.{
  anonymous_item_id, canonicalize_json, dict_of, has_event_type, is_text, nonempty_text, text_of,
}

-- the texts of the open assistant items, and the arguments of the open tool calls
abbrev pub OpenTexts : Type 0
OpenTexts = Dict Text Text

unfoldable pub open_text : OpenTexts → Text → Text
open_text d k = or_else (get d k) []

unfoldable pub open_item_id : Fields → Text
unfolding nonempty_text
open_item_id payload =
    or_else (nonempty_text (Value.get payload (codes "item_id"))) anonymous_item_id

unfoldable pub append_delta : Fields → OpenTexts → OpenTexts
unfolding nonempty_text open_item_id open_text
append_delta payload d = elim (nonempty_text (Value.get payload (codes "delta"))) [
  | none ↦ d
  | some delta ↦ put d (open_item_id payload) (open_text d (open_item_id payload) ++ delta)
]

unfoldable pub finish_text : Fields → OpenTexts → OpenTexts
unfolding text_of open_item_id
finish_text payload d = elim (text_of (Value.get payload (codes "text"))) [
  | none ↦ d
  | some text ↦ put d (open_item_id payload) text
]

unfoldable pub add_item : Fields → OpenTexts → OpenTexts
unfolding dict_of is_text nonempty_text
add_item payload d = elim (dict_of (Value.get payload (codes "item"))) [
  | none ↦ d
  | some item ↦ elim (nonempty_text (Value.get item (codes "id"))) [
    | none ↦ d
    | some id ↦
        if is_text (Value.get item (codes "type")) (codes "message")
        then elim (get d id) [ none ↦ put d id [] | some t ↦ d ]
        else d
  ]
]

unfoldable pub update_open_assistant_items : Fields → OpenTexts → OpenTexts
unfolding append_delta finish_text add_item has_event_type
update_open_assistant_items payload d =
    if has_event_type payload (codes "response.output_text.delta")
    then append_delta payload d
    else if has_event_type payload (codes "response.output_text.done")
    then finish_text payload d
    else if has_event_type payload (codes "response.output_item.added")
    then add_item payload d
    else d

unfoldable pub tool_call_key : Fields → Option Text
unfolding nonempty_text
tool_call_key node = elim (nonempty_text (Value.get node (codes "call_id"))) [
  | some k ↦ some k
  | none ↦
      nonempty_text (true_or_next (Value.get node (codes "item_id")) (Value.get node (codes "id")))
]

unfoldable pub content_entry_text : Fields → Option Text
unfolding text_of is_text
content_entry_text entry =
    let t = Value.get entry (codes "type") in
    let refusal =
      if is_text t (codes "refusal") then text_of (Value.get entry (codes "refusal")) else none in
    if is_text t (codes "output_text") || is_text t (codes "text")
    then elim (text_of (Value.get entry (codes "text"))) [ some s ↦ some s | none ↦ refusal ]
    else refusal

unfoldable pub join_entries : Items → Text
unfolding content_entry_text
join_entries nil = []
join_entries (cons (Json.obj entry) rest) =
    or_else (content_entry_text entry) [] ++ join_entries rest
join_entries (cons _ rest) = join_entries rest

unfoldable pub assistant_item_text : Fields → Text
unfolding join_entries
assistant_item_text item = elim (Value.get item (codes "content")) [
  | some (Json.arr entries) ↦ join_entries entries
  | _ ↦ []
]

unfoldable pub summary_texts : Items → List Text
unfolding nonempty_text
summary_texts nil = []
summary_texts (cons (Json.obj entry) rest) =
    let more = summary_texts rest in
    elim (nonempty_text (Value.get entry (codes "text"))) [ none ↦ more | some s ↦ s ∷ more ]
summary_texts (cons _ rest) = summary_texts rest

-- `"\n\n".join(parts)`
unfoldable pub join_paragraphs : List Text → Text
join_paragraphs [] = []
join_paragraphs (t ∷ []) = t
join_paragraphs (t ∷ u ∷ ts) = t ++ 10 ∷ 10 ∷ join_paragraphs (u ∷ ts)

unfoldable pub reasoning_item_text : Fields → Text
unfolding summary_texts join_paragraphs
reasoning_item_text item = elim (Value.get item (codes "summary")) [
  | some (Json.arr entries) ↦ join_paragraphs (summary_texts entries)
  | _ ↦ []
]

unfoldable pub close_stop_reason : Option ℕ → Text
close_stop_reason none = codes "ws_closed"
close_stop_reason (some code) =
    if code == 1000 || code == 1001
    then codes "ws_closed"
    else codes "ws_close_" ++ int_text (pos code)

module _ (dumps : Json → Text) where
  unfoldable pub compact_json : Json → Text
  compact_json v = dumps (canonicalize_json v)

  unfoldable pub json_text_length : Option Json → ℕ
  unfolding compact_json
  json_text_length none = 0
  json_text_length (some Json.null) = 0
  json_text_length (some (Json.str s)) = length s
  json_text_length (some v) = length (compact_json v)

  unfoldable pub tool_call_arguments_text : Fields → Text
  unfolding compact_json
  tool_call_arguments_text item = elim (Value.get item (codes "arguments")) [
    | none ↦ []
    | some Json.null ↦ []
    | some (Json.str s) ↦ s
    | some v ↦ compact_json v
  ]

  unfoldable pub update_open_tool_calls : Fields → OpenTexts → OpenTexts
  unfolding has_event_type dict_of text_of tool_call_key tool_call_arguments_text open_text
  update_open_tool_calls payload d =
      if has_event_type payload (codes "response.output_item.added")
      then elim (dict_of (Value.get payload (codes "item"))) [
        | none ↦ d
        | some item ↦ elim (tool_call_key item) [
          | none ↦ d
          | some k ↦ put d k (tool_call_arguments_text item)
        ]
      ]
      else if has_event_type payload (codes "response.function_call_arguments.delta")
      then elim (tool_call_key payload) [
        | none ↦ d
        | some k ↦ elim (text_of (Value.get payload (codes "delta"))) [
          | none ↦ d
          | some delta ↦ put d k (open_text d k ++ delta)
        ]
      ]
      else if has_event_type payload (codes "response.function_call_arguments.done")
      then elim (tool_call_key payload) [
        | none ↦ d
        | some k ↦ elim (text_of (Value.get payload (codes "arguments"))) [
          | none ↦ d
          | some a ↦ put d k a
        ]
      ]
      else d
