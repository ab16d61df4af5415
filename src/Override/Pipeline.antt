-- ===== src/Override/Pipeline.antt =====
-- `apply_overrides` of api/src/transport_matters/overrides.py: the steps in priority order, the
-- clean-up and the audit. `json.loads` is the parameter `loads`.
pub mod System
pub mod Order
use transport_matters.Prelude.{ℕ, ◌+◌, Option, none, some, List, [], ◌∷◌, Text, leb, if◌then◌else◌}
use transport_matters.Ir.Value.{Json}
use transport_matters.Ir.{InternalRequest}
use transport_matters.Override.Model.{
  Override, OverrideKind, OverrideValue, str, kind_text, priority, tool_toggle, tool_description,
  system_part_toggle, system_part_text, truncate_tool_result, message_block_toggle, message_text,
  sampling_set, provider_extras_set,
}
use transport_matters.Override.Targets.{parse_sampling_field, parse_provider_extras_key}
use transport_matters.Override.Audit.{OverrideAudit, OverrideAuditEntry, count_chars_parts}
use transport_matters.Override.Messages.{codex_has_tool_result_only_turn}
use transport_matters.Override.Blocks.{sanitize_curated_messages}
use transport_matters.Override.Metadata.{apply_sampling_set, apply_provider_extras_set}
use transport_matters.Override.Apply.{
  Context, Step, not_applied, mutate_current_ir, tool_toggle_step, tool_description_step,
  system_part_toggle_step, system_part_text_step, truncate_tool_result_step,
  message_block_toggle_step, message_text_step,
}

-- `sorted(overrides, key=...)` is stable
unfoldable pub insert_by_priority : Override → List Override → List Override
insert_by_priority o [] = o ∷ []
insert_by_priority o (p ∷ ps) =
    if leb (priority o.kind) (priority p.kind) then o ∷ p ∷ ps else p ∷ insert_by_priority o ps

unfoldable pub sort_by_priority : List Override → List Override
unfolding insert_by_priority priority
sort_by_priority [] = []
sort_by_priority (o ∷ os) = insert_by_priority o (sort_by_priority os)

-- `_build_override_audit`
unfoldable pub build_override_audit :
    List OverrideAuditEntry → ℕ × ℕ × ℕ → ℕ × ℕ × ℕ → OverrideAudit
build_override_audit entries (sys_before, tools_before, msgs_before)
      (sys_after, tools_after, msgs_after) =
    record {
      entries = entries;
      chars_before = sys_before + tools_before + msgs_before;
      chars_after = sys_after + tools_after + msgs_after;
      system_chars_before = sys_before;
      system_chars_after = sys_after;
      tools_chars_before = tools_before;
      tools_chars_after = tools_after;
      messages_chars_before = msgs_before;
      messages_chars_after = msgs_after;
    }

-- `_sanitize_current_ir`
unfoldable pub sanitize_current_ir : Context → Context
sanitize_current_ir context = record context {
  current_ir =
      sanitize_curated_messages context.current_ir
        (codex_has_tool_result_only_turn context.original_ir);
}

abbrev pub new_context : InternalRequest → Context
new_context ir = record {
  original_ir = ir;
  current_ir = ir;
  removed_system_indices = [];
  removed_blk_indices = [];
}

module _ (loads : Text → Option Json) where
  unfoldable pub sampling_step : Context → Text → OverrideValue → Step
  unfolding mutate_current_ir
  sampling_step context target value = elim (parse_sampling_field target) [
    | none ↦ (not_applied, context)
    | some name ↦ elim value [
      | str text ↦ elim (loads text) [
        | none ↦ (not_applied, context)
        | some parsed ↦
            mutate_current_ir context (apply_sampling_set context.current_ir name parsed) none
      ]
      | _ ↦ (not_applied, context)
    ]
  ]

  unfoldable pub provider_extras_step : Context → Text → OverrideValue → Step
  unfolding mutate_current_ir
  provider_extras_step context target value = elim (parse_provider_extras_key target) [
    | none ↦ (not_applied, context)
    | some key ↦ elim value [
      | str text ↦ elim (loads text) [
        | none ↦ (not_applied, context)
        | some parsed ↦
            mutate_current_ir context (apply_provider_extras_set context.current_ir key parsed) none
      ]
      | _ ↦ (not_applied, context)
    ]
  ]

  -- `_apply_override_value`
  unfoldable pub apply_override_value : Context → OverrideKind → Text → OverrideValue → Step
  apply_override_value context tool_toggle = tool_toggle_step context
  apply_override_value context tool_description = tool_description_step context
  apply_override_value context system_part_toggle = system_part_toggle_step context
  apply_override_value context system_part_text = system_part_text_step context
  apply_override_value context truncate_tool_result = truncate_tool_result_step context
  apply_override_value context message_block_toggle = message_block_toggle_step context
  apply_override_value context message_text = message_text_step context
  apply_override_value context sampling_set = sampling_step context
  apply_override_value context provider_extras_set = provider_extras_step context

  -- `_apply_override`
  unfoldable pub apply_override : Context → Override → OverrideAuditEntry × Context
  apply_override context o =
      let (result, after) = apply_override_value context o.kind o.target o.value in
      (
        record {
          kind = kind_text o.kind;
          target = o.target;
          applied = result.applied;
          chars_delta = result.chars_delta;
          curated_value = result.curated_value;
        },
        after,
      )

  unfoldable pub apply_each : Context → List Override → List OverrideAuditEntry × Context
  apply_each context [] = ([], context)
  apply_each context (o ∷ os) =
      let (entry, next) = apply_override context o in
      let (entries, last) = apply_each next os in (entry ∷ entries, last)

  unfoldable pub apply_overrides : List Override → InternalRequest → InternalRequest × OverrideAudit
  unfolding sort_by_priority
  apply_overrides overrides ir =
      let (entries, context) = apply_each (new_context ir) (sort_by_priority overrides) in
      let cleaned = sanitize_current_ir context in
      (
        cleaned.current_ir,
        build_override_audit entries (count_chars_parts ir) (count_chars_parts cleaned.current_ir),
      )
