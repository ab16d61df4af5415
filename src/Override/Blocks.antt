-- ===== src/Override/Blocks.antt =====
-- api/src/transport_matters/override_ops_messages.py, continued: edits of one message block, and
-- the clean-up of the curated messages.
pub mod Clean
use transport_matters.Prelude.{
  Bool, true, false, not, ◌||◌, none, some, List, [], ◌∷◌, Text, text_eq, length, set, erase_idx,
  filter, if◌then◌else◌,
}
use transport_matters.Prelude.Int.{ℤ, pos, ◌-ℤ◌, pos_part}
use transport_matters.Ir.{ContentBlock, Message, InternalRequest}
use transport_matters.Override.Audit.{block_chars}
use transport_matters.Override.Messages.{Mutation, elem_at}

-- `new_messages[msg_idx]` with the content replaced
abbrev pub set_content : InternalRequest → ℤ → Message → List ContentBlock → InternalRequest
set_content ir msg_idx message content = record ir {
  messages = set ir.messages (pos_part msg_idx) (record message { content = content });
}

unfoldable pub apply_message_block_toggle : InternalRequest → ℤ → ℤ → Mutation
apply_message_block_toggle ir msg_idx blk_idx = elim (elem_at ir.messages msg_idx) [
  | none ↦ (ir, pos 0, false)
  | some message ↦ elim (elem_at message.content blk_idx) [
    | none ↦ (ir, pos 0, false)
    | some block ↦ (
      set_content ir msg_idx message (erase_idx message.content (pos_part blk_idx)),
      pos 0 -ℤ pos (block_chars block),
      true,
    )
  ]
]

rewrite_block : InternalRequest → ℤ → ℤ → Text → Message → ContentBlock → Mutation
rewrite_block ir msg_idx blk_idx new_text message (ContentBlock.text b) = (
  set_content ir msg_idx message
      (set message.content (pos_part blk_idx) (ContentBlock.text (record b { text = new_text }))),
  pos (length new_text) -ℤ pos (length b.text),
  true,
)
rewrite_block ir msg_idx blk_idx new_text message _ = (ir, pos 0, false)

unfoldable pub apply_message_text : InternalRequest → ℤ → ℤ → Text → Mutation
unfolding rewrite_block
apply_message_text ir msg_idx blk_idx new_text = elim (elem_at ir.messages msg_idx) [
  | none ↦ (ir, pos 0, false)
  | some message ↦ elim (elem_at message.content blk_idx) [
    | none ↦ (ir, pos 0, false)
    | some block ↦ rewrite_block ir msg_idx blk_idx new_text message block
  ]
]

abbrev pub mem : Text → List Text → Bool
mem id [] = false
mem id (x ∷ xs) = text_eq x id || mem id xs

-- the loop that collects `use_ids` and `result_ids`, over one message
abbrev pub block_use_ids : List ContentBlock → List Text → List Text
block_use_ids [] rest = rest
block_use_ids (ContentBlock.tool_use b ∷ bs) rest = b.id ∷ block_use_ids bs rest
block_use_ids (_ ∷ bs) rest = block_use_ids bs rest

abbrev pub block_result_ids : List ContentBlock → List Text → List Text
block_result_ids [] rest = rest
block_result_ids (ContentBlock.tool_result b ∷ bs) rest = b.tool_use_id ∷ block_result_ids bs rest
block_result_ids (_ ∷ bs) rest = block_result_ids bs rest

unfoldable pub use_ids : List Message → List Text
use_ids [] = []
use_ids (m ∷ ms) = block_use_ids m.content (use_ids ms)

unfoldable pub result_ids : List Message → List Text
result_ids [] = []
result_ids (m ∷ ms) = block_result_ids m.content (result_ids ms)

-- `xs - ys` of sets
abbrev pub without : List Text → List Text → List Text
without xs ys = filter (λ x. not (mem x ys)) xs

-- `xs & ys`
abbrev pub both : List Text → List Text → List Text
both xs ys = filter (λ x. mem x ys) xs

abbrev pub is_empty : Text → Bool
is_empty [] = true
is_empty (c ∷ cs) = false

-- whether the second loop keeps the block
unfoldable pub is_kept : List Text → List Text → ContentBlock → Bool
is_kept orphan_uses orphan_results (ContentBlock.text b) = not (is_empty b.text)
is_kept orphan_uses orphan_results (ContentBlock.tool_use b) = not (mem b.id orphan_uses)
is_kept orphan_uses orphan_results (ContentBlock.tool_result b) =
    not (mem b.tool_use_id orphan_results)
is_kept orphan_uses orphan_results _ = true

abbrev pub no_blocks : List ContentBlock → Bool
no_blocks [] = true
no_blocks (b ∷ bs) = false

unfoldable pub clean_messages : (ContentBlock → Bool) → List Message → List Message
clean_messages keep [] = []
clean_messages keep (m ∷ ms) =
    let kept_blocks = filter keep m.content in
    let cleaned = clean_messages keep ms in
    if no_blocks kept_blocks then cleaned else record m { content = kept_blocks } ∷ cleaned

unfoldable pub sanitize_curated_messages : InternalRequest → Bool → InternalRequest
unfolding use_ids result_ids clean_messages is_kept
sanitize_curated_messages ir preserve_orphan_tool_results =
    let uses = use_ids ir.messages in
    let results = result_ids ir.messages in
    let paired = both uses results in
    let orphan_uses = without uses paired in
    let orphan_results = (if preserve_orphan_tool_results then [] else without results paired) in
    record ir { messages = clean_messages (is_kept orphan_uses orphan_results) ir.messages }
