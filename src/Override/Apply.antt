-- ===== src/Override/Apply.antt =====
-- The apply pipeline of api/src/transport_matters/overrides.py. `json.loads` is the parameter
-- `loads`, with `none` for a `JSONDecodeError`. A step returns the changed context.
use transport_matters.Prelude.{
  ℕ, suc, Bool, true, false, Option, none, some, List, ◌∷◌, Text, any, if◌then◌else◌, is_some,
}
use transport_matters.Prelude.Int.{ℤ, pos, int_key}
use transport_matters.Prelude.Dict.{Dict, put}
use transport_matters.Ir.{InternalRequest}
use transport_matters.Override.Model.{OverrideValue, str, bool, int}
use transport_matters.Override.Targets.{
  parse_tool_name, parse_system_index, parse_tool_result_id, parse_message_target,
  adjust_system_index, adjust_blk_index, mem_ℤ, removed_at,
}
use transport_matters.Override.Messages.{
  Mutation, apply_tool_toggle, apply_tool_description, apply_system_part_toggle,
  apply_system_part_text, apply_truncate_tool_result, elem_at, is_named,
}
use transport_matters.Override.Blocks.{apply_message_block_toggle, apply_message_text}

-- `_OverrideApplyContext`
pub record Context : Type 0 where
  pub original_ir : InternalRequest
  pub current_ir : InternalRequest
  pub removed_system_indices : List ℤ
  pub removed_blk_indices : Dict ℤ (List ℤ)

-- `_OverrideApplyResult`
pub record ApplyResult : Type 0 where
  pub applied : Bool
  pub chars_delta : ℤ
  pub curated_value : Option Text

abbrev pub not_applied : ApplyResult
not_applied = record { applied = false; chars_delta = pos 0; curated_value = none }

-- `_OverrideApplyResult(applied=...)`
abbrev pub reports : Bool → ApplyResult
reports applied = record { applied = applied; chars_delta = pos 0; curated_value = none }

abbrev pub Step : Type 0
Step = ApplyResult × Context

-- `_mutate_current_ir`
unfoldable pub mutate_current_ir : Context → Mutation → Option Text → Step
mutate_current_ir context (ir, delta, applied) curated_value = (
  record {
    applied = applied;
    chars_delta = delta;
    curated_value = if applied then curated_value else none;
  },
  record context { current_ir = ir },
)

unfoldable pub tool_toggle_step : Context → Text → OverrideValue → Step
unfolding mutate_current_ir
tool_toggle_step context target value = elim (parse_tool_name target) [
  | none ↦ (not_applied, context)
  | some name ↦ elim value [
    | bool true ↦ (reports (any (is_named name) context.original_ir.tools), context)
    | bool false ↦ mutate_current_ir context (apply_tool_toggle context.current_ir name false) none
    | _ ↦ (not_applied, context)
  ]
]

unfoldable pub tool_description_step : Context → Text → OverrideValue → Step
unfolding mutate_current_ir
tool_description_step context target value = elim (parse_tool_name target) [
  | none ↦ (not_applied, context)
  | some name ↦ elim value [
    | str text ↦
        mutate_current_ir context (apply_tool_description context.current_ir name text) (some text)
    | _ ↦ (not_applied, context)
  ]
]

-- `removed_system_indices.add(index)` if the toggle applied
note_removed : ℤ → Step → Step
note_removed index (result, context) =
    if result.applied
    then (
      result,
      record context { removed_system_indices = index ∷ context.removed_system_indices },
    )
    else (result, context)

-- the end of `_apply_system_part_toggle`, for a value of False
unfoldable pub remove_system_part : Context → ℤ → Step
unfolding mutate_current_ir note_removed
remove_system_part context index =
    if mem_ℤ index context.removed_system_indices
    then (not_applied, context)
    else note_removed index (
        mutate_current_ir context
          (apply_system_part_toggle context.current_ir
            (adjust_system_index index context.removed_system_indices) false)
          none)

unfoldable pub system_part_toggle_step : Context → Text → OverrideValue → Step
system_part_toggle_step context target value = elim (parse_system_index target) [
  | none ↦ (not_applied, context)
  | some index ↦ elim value [
    | bool true ↦ (reports (is_some (elem_at context.original_ir.system index)), context)
    | bool false ↦ remove_system_part context index
    | _ ↦ (not_applied, context)
  ]
]

-- the end of `_apply_system_part_text`
unfoldable pub rewrite_system_part : Context → ℤ → Text → Step
unfolding mutate_current_ir
rewrite_system_part context index text =
    if mem_ℤ index context.removed_system_indices
    then (not_applied, context)
    else mutate_current_ir context
        (apply_system_part_text context.current_ir
          (adjust_system_index index context.removed_system_indices) text)
        (some text)

unfoldable pub system_part_text_step : Context → Text → OverrideValue → Step
system_part_text_step context target value = elim (parse_system_index target) [
  | none ↦ (not_applied, context)
  | some index ↦ elim value [
    | str text ↦ rewrite_system_part context index text
    | _ ↦ (not_applied, context)
  ]
]

-- `isinstance(value, int)`: Python's True and False are the ints 1 and 0. Only a positive limit
-- goes on.
abbrev pub positive_limit : OverrideValue → Option ℕ
positive_limit (int (pos (suc n))) = some (suc n)
positive_limit (bool true) = some 1
positive_limit _ = none

unfoldable pub truncate_tool_result_step : Context → Text → OverrideValue → Step
truncate_tool_result_step context target value = elim (parse_tool_result_id target) [
  | none ↦ (not_applied, context)
  | some id ↦ elim (positive_limit value) [
    | none ↦ (not_applied, context)
    | some limit ↦
        let (ir, delta, applied, curated) =
          apply_truncate_tool_result context.current_ir id limit in
        (
          record { applied = applied; chars_delta = delta; curated_value = curated },
          record context { current_ir = ir },
        )
  ]
]

-- `removed_blk_indices.setdefault(msg_idx, set()).add(original_blk_idx)` if the toggle applied
note_removed_block : ℤ → ℤ → Step → Step
note_removed_block msg_idx blk_idx (result, context) =
    if result.applied
    then (
      result,
      record context {
        removed_blk_indices =
            put context.removed_blk_indices msg_idx
              (blk_idx ∷ removed_at context.removed_blk_indices msg_idx);
      },
    )
    else (result, context)

-- the block that stands at the two indices in the original request
abbrev pub original_block? : Context → ℤ → ℤ → Bool
original_block? context msg_idx blk_idx = elim (elem_at context.original_ir.messages msg_idx) [
  | none ↦ false
  | some message ↦ is_some (elem_at message.content blk_idx)
]

unfoldable pub message_block_toggle_step : Context → Text → OverrideValue → Step
unfolding mutate_current_ir note_removed_block
message_block_toggle_step context target value = elim (parse_message_target target) [
  | none ↦ (not_applied, context)
  | some (msg_idx, blk_idx) ↦ elim value [
    | bool true ↦ (reports (original_block? context msg_idx blk_idx), context)
    | bool false ↦ elim (adjust_blk_index msg_idx blk_idx context.removed_blk_indices) [
      | none ↦ (not_applied, context)
      | some adjusted ↦ note_removed_block msg_idx blk_idx (
          mutate_current_ir context (apply_message_block_toggle context.current_ir msg_idx adjusted)
            none)
    ]
    | _ ↦ (not_applied, context)
  ]
]

unfoldable pub message_text_step : Context → Text → OverrideValue → Step
unfolding mutate_current_ir
message_text_step context target value = elim (parse_message_target target) [
  | none ↦ (not_applied, context)
  | some (msg_idx, blk_idx) ↦ elim value [
    | str text ↦ elim (adjust_blk_index msg_idx blk_idx context.removed_blk_indices) [
      | none ↦ (not_applied, context)
      | some adjusted ↦
          mutate_current_ir context (apply_message_text context.current_ir msg_idx adjusted text)
            (some text)
    ]
    | _ ↦ (not_applied, context)
  ]
]
