-- ===== src/Override/Messages.antt =====
-- api/src/transport_matters/override_ops_messages.py: edits of tools, system parts and messages.
-- An edit returns the new request, the change of the character count, and whether it applied.
-- A Python set of ids is the list of the ids, read by membership.
pub mod Truncation
pub mod Counts
use transport_matters.Prelude.{
  ℕ, Bool, true, false, not, ◌&&◌, Option, none, some, List, [], ◌∷◌, ◌++◌, Text, codes, text_eq,
  ltb, length, get_elem?, set, erase_idx, take, any, filter, sum_of, if◌then◌else◌, map,
}
use transport_matters.Prelude.Int.{ℤ, pos, negsuc, ◌+ℤ◌, ◌-ℤ◌, pos_part}
use transport_matters.Ir.{
  ToolResultBlock, ResultPart, ContentBlock, ToolDef, Message, InternalRequest,
}
use transport_matters.Override.Audit.{tool_chars}

abbrev pub Mutation : Type 0
Mutation = InternalRequest × ℤ × Bool

abbrev pub is_tool_use : ContentBlock → Bool
is_tool_use (ContentBlock.tool_use b) = true
is_tool_use _ = false

abbrev pub is_tool_result : ContentBlock → Bool
is_tool_result (ContentBlock.tool_result b) = true
is_tool_result _ = false

abbrev pub has_block : (ContentBlock → Bool) → List Message → Bool
has_block p = any (λ message. any p message.content)

-- Codex sends tool outputs without the tool uses that they answer
unfoldable pub codex_has_tool_result_only_turn : InternalRequest → Bool
codex_has_tool_result_only_turn ir =
    if text_eq ir.provider (codes "codex")
    then has_block is_tool_result ir.messages && not (has_block is_tool_use ir.messages)
    else false

abbrev pub is_named : Text → ToolDef → Bool
is_named name tool = text_eq tool.name name

unfoldable pub apply_tool_toggle : InternalRequest → Text → Bool → Mutation
apply_tool_toggle ir tool_name enabled =
    if enabled
    then (ir, pos 0, true)
    else if any (is_named tool_name) ir.tools
    then (
      record ir { tools = filter (λ tool. not (is_named tool_name tool)) ir.tools },
      pos 0 -ℤ pos (sum_of tool_chars (filter (is_named tool_name) ir.tools)),
      true,
    )
    else (ir, pos 0, false)

abbrev describe : Text → Text → ToolDef → ToolDef
describe name desc tool = if is_named name tool then record tool { description = desc } else tool

-- `delta` after the loop: that of the last tool of the name
abbrev description_delta : Text → Text → List ToolDef → ℤ → ℤ
description_delta name desc [] delta = delta
description_delta name desc (tool ∷ tools) delta =
    description_delta name desc tools
      (if is_named name tool then pos (length desc) -ℤ pos (length tool.description) else delta)

unfoldable pub apply_tool_description : InternalRequest → Text → Text → Mutation
apply_tool_description ir tool_name new_desc =
    if any (is_named tool_name) ir.tools
    then (
      record ir { tools = map (describe tool_name new_desc) ir.tools },
      description_delta tool_name new_desc ir.tools (pos 0),
      true,
    )
    else (ir, pos 0, false)

-- `xs[index]`, where the caller has refused a negative index and one past the end
abbrev pub elem_at {ℓ} : {A : Type ℓ} → List A → ℤ → Option A
elem_at xs (pos n) = get_elem? xs n
elem_at xs (negsuc n) = none

unfoldable pub apply_system_part_toggle : InternalRequest → ℤ → Bool → Mutation
apply_system_part_toggle ir index enabled =
    if enabled then (ir, pos 0, true) else elim (elem_at ir.system index) [
      | none ↦ (ir, pos 0, false)
      | some removed ↦ (
        record ir { system = erase_idx ir.system (pos_part index) },
        pos 0 -ℤ pos (length removed.text),
        true,
      )
    ]

unfoldable pub apply_system_part_text : InternalRequest → ℤ → Text → Mutation
apply_system_part_text ir index new_text = elim (elem_at ir.system index) [
  | none ↦ (ir, pos 0, false)
  | some part ↦ (
    record ir { system = set ir.system (pos_part index) (record part { text = new_text }) },
    pos (length new_text) -ℤ pos (length part.text),
    true,
  )
]

-- the texts of the text blocks, joined
unfoldable pub result_text : List ResultPart → Text
result_text [] = []
result_text (ResultPart.text b ∷ parts) = b.text ++ result_text parts
result_text (ResultPart.image b ∷ parts) = result_text parts
result_text (ResultPart.unknown b ∷ parts) = result_text parts

abbrev pub truncation_mark : Text
truncation_mark = codes " [truncated]"

-- what the loop carries: the change of the count, and the last text that a result was left with
abbrev pub Tally : Type 0
Tally = ℤ × Option Text

unfoldable pub truncate_result : ℕ → ToolResultBlock → Tally → ToolResultBlock × Tally
unfolding result_text
truncate_result max_chars b (delta, curated) =
    let original = result_text b.content in
    let truncated = take max_chars original ++ truncation_mark in
    if ltb max_chars (length original)
    then (
      record b {
        content = ResultPart.text (record { text = truncated; provider_data = none }) ∷ [];
      },
      (delta +ℤ (pos (length truncated) -ℤ pos (length original)), some truncated),
    )
    else (b, (delta, some original))

unfoldable pub truncate_block : Text → ℕ → ContentBlock → Tally → ContentBlock × Tally
unfolding truncate_result
truncate_block id max_chars (ContentBlock.tool_result b) tally =
    let (b', tally') = truncate_result max_chars b tally in
    if text_eq b.tool_use_id id
    then (ContentBlock.tool_result b', tally')
    else (ContentBlock.tool_result b, tally)
truncate_block id max_chars block tally = (block, tally)

unfoldable pub truncate_content : Text → ℕ → List ContentBlock → Tally → List ContentBlock × Tally
truncate_content id max_chars [] tally = ([], tally)
truncate_content id max_chars (b ∷ bs) tally =
    let (b', tally') = truncate_block id max_chars b tally in
    let (bs', tally'') = truncate_content id max_chars bs tally' in (b' ∷ bs', tally'')

abbrev pub is_result_of : Text → ContentBlock → Bool
is_result_of id (ContentBlock.tool_result b) = text_eq b.tool_use_id id
is_result_of id _ = false

-- a user message that holds the result
abbrev pub is_target : Text → Message → Bool
is_target id message = text_eq message.role (codes "user") && any (is_result_of id) message.content

unfoldable pub truncate_messages : Text → ℕ → List Message → Tally → List Message × Tally
truncate_messages id max_chars [] tally = ([], tally)
truncate_messages id max_chars (m ∷ ms) tally =
    let (content, tally') = truncate_content id max_chars m.content tally in
    let (m', after) =
      (if is_target id m then (record m { content = content }, tally') else (m, tally)) in
    let (ms', last) = truncate_messages id max_chars ms after in (m' ∷ ms', last)

-- `max_chars` is positive where this is called
unfoldable pub apply_truncate_tool_result :
    InternalRequest → Text → ℕ → InternalRequest × ℤ × Bool × Option Text
apply_truncate_tool_result ir tool_use_id max_chars =
    let (messages, tally) = truncate_messages tool_use_id max_chars ir.messages (pos 0, none) in
    if any (is_target tool_use_id) ir.messages
    then (record ir { messages = messages }, tally.0, true, tally.1)
    else (ir, pos 0, false, none)
