-- ===== src/Codex/Protocol.antt =====
-- api/src/transport_matters/codex/protocol.py and json_utils.py: what a WebSocket payload says. A
-- payload that is a dict is its fields; `dumps` is `json.dumps` with compact separators.
use transport_matters.Prelude.{
  ℕ, ◌+◌, Bool, false, ◌&&◌, ◌||◌, Option, none, some, List, [], ◌∷◌, Text, codes, text_eq,
  if◌then◌else◌, or_else, text_leb, true,
}
use transport_matters.Prelude.Dict.{text_key}
use transport_matters.Ir.Value.{Json, Items, nil, cons, Fields, empty, field, true_or_next}
use transport_matters.Ir.Value

-- `sorted(value.items())` of a dict, whose keys are different
unfoldable pub insert_key : Text → Json → Fields → Fields
insert_key k v empty = field k v empty
insert_key k v (field j w d) =
    if text_leb k j then field k v (field j w d) else field j w (insert_key k v d)

unfoldable mutual
  unfolding insert_key

  pub canonicalize_json : Json → Json
  canonicalize_json (Json.obj d) = Json.obj (canonicalize_fields d)
  canonicalize_json (Json.arr vs) = Json.arr (canonicalize_items vs)
  canonicalize_json Json.null = Json.null
  canonicalize_json (Json.bool b) = Json.bool b
  canonicalize_json (Json.int n) = Json.int n
  canonicalize_json (Json.float t) = Json.float t
  canonicalize_json (Json.str s) = Json.str s

  pub canonicalize_items : Items → Items
  canonicalize_items nil = nil
  canonicalize_items (cons v vs) = cons (canonicalize_json v) (canonicalize_items vs)

  pub canonicalize_fields : Fields → Fields
  canonicalize_fields empty = empty
  canonicalize_fields (field k v d) = insert_key k (canonicalize_json v) (canonicalize_fields d)

-- `isinstance(value, str)`
unfoldable pub text_of : Option Json → Option Text
text_of (some (Json.str s)) = some s
text_of _ = none

-- `isinstance(value, str) and value`
unfoldable pub nonempty_text : Option Json → Option Text
nonempty_text (some (Json.str (c ∷ cs))) = some (c ∷ cs)
nonempty_text _ = none

-- `isinstance(value, dict)`
unfoldable pub dict_of : Option Json → Option Fields
dict_of (some (Json.obj d)) = some d
dict_of _ = none

-- `value == text`
unfoldable pub is_text : Option Json → Text → Bool
is_text (some (Json.str s)) t = text_eq s t
is_text _ t = false

unfoldable pub payload_event_type : Fields → Option Text
unfolding text_of
payload_event_type payload = text_of (Value.get payload (codes "type"))

unfoldable pub has_event_type : Fields → Text → Bool
unfolding is_text
has_event_type payload t = is_text (Value.get payload (codes "type")) t

unfoldable pub is_turn_start : Option Fields → Bool
unfolding has_event_type
is_turn_start none = false
is_turn_start (some payload) = has_event_type payload (codes "response.create")

pub data TerminalStatus : Type 0 where
  completed failed : TerminalStatus

abbrev pub status_text : TerminalStatus → Text
status_text completed = codes "completed"
status_text failed = codes "failed"

-- of a payload from the server
unfoldable pub terminal_status : Fields → Option TerminalStatus
unfolding has_event_type
terminal_status payload =
    if has_event_type payload (codes "response.completed")
    then some completed
    else if has_event_type payload (codes "response.failed")
    then some failed
    else none

unfoldable pub response_status_reason : Option Json → Option Text
unfolding dict_of nonempty_text
response_status_reason response = elim (dict_of response) [
  | none ↦ none
  | some d ↦ elim (nonempty_text (Value.get d (codes "status"))) [
    | some s ↦ some s
    | none ↦ elim (dict_of (Value.get d (codes "incomplete_details"))) [
      | none ↦ none
      | some i ↦ nonempty_text (Value.get i (codes "reason"))
    ]
  ]
]

unfoldable pub terminal_stop_reason : Fields → Option Text
unfolding terminal_status response_status_reason
terminal_stop_reason payload = elim (terminal_status payload) [
  | none ↦ none
  | some status ↦
      some (
        or_else (response_status_reason (Value.get payload (codes "response")))
          (status_text status))
]

-- the item of a payload of a type
unfoldable pub item_of : Text → Fields → Option Fields
unfolding has_event_type dict_of
item_of t payload =
    if has_event_type payload t then dict_of (Value.get payload (codes "item")) else none

unfoldable pub assistant_completed_item : Fields → Option Fields
unfolding item_of is_text
assistant_completed_item payload = elim (item_of (codes "response.output_item.done") payload) [
  | none ↦ none
  | some item ↦
      if is_text (Value.get item (codes "type")) (codes "message")
        && is_text (Value.get item (codes "role")) (codes "assistant")
        && is_text (Value.get item (codes "status")) (codes "completed")
      then some item
      else none
]

unfoldable pub reasoning_completed_item : Fields → Option Fields
unfolding item_of is_text
reasoning_completed_item payload = elim (item_of (codes "response.output_item.done") payload) [
  | none ↦ none
  | some item ↦
      if is_text (Value.get item (codes "type")) (codes "reasoning") then some item else none
]

-- `in` of a frozenset raises TypeError for a list or a dict
abbrev pub is_unhashable : Option Json → Bool
is_unhashable (some (Json.arr vs)) = true
is_unhashable (some (Json.obj d)) = true
is_unhashable _ = false

-- `item_type in CODEX_TOOL_CALL_ITEM_TYPES`, where it does not raise
unfoldable pub is_tool_call : Option Json → Bool
unfolding is_text
is_tool_call t =
    is_text t (codes "function_call")
    || is_text t (codes "custom_tool_call")
    || is_text t (codes "tool_search_call")

-- `item_type in CODEX_TOOL_OUTPUT_ITEM_TYPES`, where it does not raise
unfoldable pub is_tool_output : Option Json → Bool
unfolding is_text
is_tool_output t =
    is_text t (codes "function_call_output")
    || is_text t (codes "custom_tool_call_output")
    || is_text t (codes "tool_search_output")

unfoldable pub tool_call_completed_item : Fields → Option Fields
unfolding item_of is_tool_call
tool_call_completed_item payload = elim (item_of (codes "response.output_item.done") payload) [
  | none ↦ none
  | some item ↦ if is_tool_call (Value.get item (codes "type")) then some item else none
]

-- `codex_tool_call_completed_item` raises TypeError
unfoldable pub has_unhashable_call : Fields → Bool
unfolding item_of
has_unhashable_call payload = elim (item_of (codes "response.output_item.done") payload) [
  | none ↦ false
  | some item ↦ is_unhashable (Value.get item (codes "type"))
]

-- the tool outputs of a list of inputs, with their places
unfoldable pub output_items : ℕ → Items → List (ℕ × Fields)
unfolding is_tool_output
output_items i nil = []
output_items i (cons (Json.obj item) rest) =
    let more = output_items (i + 1) rest in
    if is_tool_output (Value.get item (codes "type")) then (i, item) ∷ more else more
output_items i (cons _ rest) = output_items (i + 1) rest

unfoldable pub iter_tool_output_items : Option Fields → List (ℕ × Fields)
unfolding output_items
iter_tool_output_items none = []
iter_tool_output_items (some payload) = elim (Value.get payload (codes "input")) [
  | some (Json.arr items) ↦ output_items 0 items
  | _ ↦ []
]

abbrev has_unhashable_item : Items → Bool
has_unhashable_item nil = false
has_unhashable_item (cons (Json.obj item) rest) =
    is_unhashable (Value.get item (codes "type")) || has_unhashable_item rest
has_unhashable_item (cons _ rest) = has_unhashable_item rest

-- `codex_iter_tool_output_items` raises TypeError
unfoldable pub has_unhashable_output : Option Fields → Bool
has_unhashable_output none = false
has_unhashable_output (some payload) = elim (Value.get payload (codes "input")) [
  | some (Json.arr items) ↦ has_unhashable_item items
  | _ ↦ false
]

abbrev pub anonymous_item_id : Text
anonymous_item_id = codes "__anonymous_assistant__"
