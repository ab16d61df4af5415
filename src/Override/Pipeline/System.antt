-- ===== src/Override/Pipeline/System.antt =====
-- System parts are edited by their original index: the pipeline, which shifts indices as parts go,
-- refines edits that never shift one.
use transport_matters.Prelude.{
  true, false, ◌≡◌, refl, ◌∙◌, sym, Option, none, some, List, [], ◌∷◌, Text, get_elem?, set,
  if◌then◌else◌, Option-cases, inl, inr, is_some, arith,
}
use transport_matters.Prelude.Int.{ℤ, pos, negsuc, pos_part}
use transport_matters.Ir.Value.{Json}
use transport_matters.Ir.{SystemPart, InternalRequest}
use transport_matters.Override.Model.{
  Override, OverrideKind, OverrideValue, str, bool, int, nothing, tool_toggle, tool_description,
  system_part_toggle, system_part_text, truncate_tool_result, message_block_toggle, message_text,
  sampling_set, provider_extras_set,
}
use transport_matters.Override.Targets.{mem_ℤ, parse_system_index, adjust_system_index}
use transport_matters.Override.Messages.{
  elem_at, apply_system_part_toggle, apply_system_part_text, apply_tool_toggle,
  apply_tool_description, apply_truncate_tool_result,
}
use transport_matters.Override.Survivors.{
  survivors, survivors-none, IsIndexSet, elem_at-shift, erase_idx-shift, set-shift,
}
use transport_matters.Override.Blocks.{
  sanitize_curated_messages, apply_message_block_toggle, apply_message_text,
}
use transport_matters.Override.Metadata.{apply_sampling_set, apply_provider_extras_set}
use transport_matters.Override.Apply.{
  Step, Context, not_applied, tool_toggle_step, tool_description_step, truncate_tool_result_step,
  message_block_toggle_step, message_text_step, system_part_toggle_step, system_part_text_step,
  remove_system_part, rewrite_system_part,
}
use transport_matters.Override.Pipeline.{
  sampling_step, provider_extras_step, apply_override_value, apply_override, apply_each,
  apply_overrides, sort_by_priority, new_context, sanitize_current_ir,
}

-- the indices taken out so far, and the parts under their original indices
pub record Parts : Type 0 where
  pub removed : List ℤ
  pub base : List SystemPart

abbrev pub take_out : Parts → ℤ → Parts
take_out p z =
    if mem_ℤ z p.removed
    then p
    else if is_some (elem_at p.base z)
    then record p { removed = z ∷ p.removed }
    else p

abbrev pub rewrite : Parts → ℤ → Text → Parts
rewrite p z text = if mem_ℤ z p.removed then p else elim (elem_at p.base z) [
  | none ↦ p
  | some part ↦ record p { base = set p.base (pos_part z) (record part { text = text }) }
]

-- What an override does to the system parts.
unfoldable pub edit_parts : Parts → OverrideKind → Text → OverrideValue → Parts
edit_parts p system_part_toggle target (bool false) = elim (parse_system_index target) [
  | none ↦ p
  | some z ↦ take_out p z
]
edit_parts p system_part_text target (str text) = elim (parse_system_index target) [
  | none ↦ p
  | some z ↦ rewrite p z text
]
edit_parts p kind target value = p

unfoldable pub edit_all : Parts → List Override → Parts
edit_all p [] = p
edit_all p (o ∷ os) = edit_all (edit_parts p o.kind o.target o.value) os

pub record Shows (context : Context) (p : Parts) : Type 0 where
  pub removed : context.removed_system_indices ≡ p.removed
  pub indices : IsIndexSet p.removed
  pub current : context.current_ir.system ≡ survivors 0 p.removed p.base

module _ (context : Context) (p : Parts) (shows : Shows context p) where
  found :
      (z : ℤ)
      → mem_ℤ z p.removed ≡ false
      → elem_at context.current_ir.system (adjust_system_index z context.removed_system_indices)
        ≡ elem_at p.base z
  unfolding adjust_system_index
  found z h = rw (shows.current, shows.removed) (elem_at-shift p.removed p.base shows.indices z h)

  remove-Shows : (z : ℤ) → Shows (remove_system_part context z).1 (take_out p z)
  unfolding remove_system_part apply_system_part_toggle adjust_system_index
  remove-Shows (pos i) =
      ground (arith, found (pos i), erase_idx-shift p.removed p.base shows.indices i)
  remove-Shows (negsuc i) = ground (arith, found (negsuc i))

  rewrite-Shows :
      (z : ℤ) (text : Text) → Shows (rewrite_system_part context z text).1 (rewrite p z text)
  unfolding rewrite_system_part apply_system_part_text adjust_system_index
  rewrite-Shows (pos i) text = elim (Option-cases (get_elem? p.base i)) [
    | inl e ↦ ground (arith, found (pos i))
    | inr (part, e) ↦ ground (
      arith,
      found (pos i),
      set-shift p.removed p.base shows.indices i (record part { text = text }),
    )
  ]
  rewrite-Shows (negsuc i) text = ground (arith, found (negsuc i))

  toggle-Shows :
      (target : Text) (value : OverrideValue)
      → Shows
          (system_part_toggle_step context target value).1
          (edit_parts p system_part_toggle target value)
  unfolding system_part_toggle_step edit_parts
  toggle-Shows target (str s) = ground arith
  toggle-Shows target (int n) = ground arith
  toggle-Shows target nothing = ground arith
  toggle-Shows target (bool true) = ground arith
  toggle-Shows target (bool false) =
      elim (parse_system_index target)
        as (λ o.
          Shows
            (elim o as (λ x. Step) [
              | none ↦ (not_applied, context)
              | some z ↦ remove_system_part context z
            ]).1
            (elim o as (λ x. Parts) [ none ↦ p | some z ↦ take_out p z ])) [
              | none ↦ shows
              | some z ↦ remove-Shows z
            ]

  text-Shows :
      (target : Text) (value : OverrideValue)
      → Shows
          (system_part_text_step context target value).1
          (edit_parts p system_part_text target value)
  unfolding system_part_text_step edit_parts
  text-Shows target (bool b) = ground arith
  text-Shows target (int n) = ground arith
  text-Shows target nothing = ground arith
  text-Shows target (str text) =
      elim (parse_system_index target)
        as (λ o.
          Shows
            (elim o as (λ x. Step) [
              | none ↦ (not_applied, context)
              | some z ↦ rewrite_system_part context z text
            ]).1
            (elim o as (λ x. Parts) [ none ↦ p | some z ↦ rewrite p z text ])) [
              | none ↦ shows
              | some z ↦ rewrite-Shows z text
            ]

-- the steps of the other kinds leave the system parts alone
record Leaves (before after : Context) : Type 0 where
  system : after.current_ir.system ≡ before.current_ir.system
  removed : after.removed_system_indices ≡ before.removed_system_indices

Leaves-Shows : {c d : Context} {p : Parts} → Leaves c d → Shows c p → Shows d p
Leaves-Shows l s = record {
  removed = l.removed ∙ s.removed;
  indices = s.indices;
  current = l.system ∙ s.current;
}

module _ (c : Context) (target : Text) (value : OverrideValue) where
  tool_toggle-Leaves : Leaves c (tool_toggle_step c target value).1
  unfolding tool_toggle_step apply_tool_toggle
  tool_toggle-Leaves = ground arith

  tool_description-Leaves : Leaves c (tool_description_step c target value).1
  unfolding tool_description_step apply_tool_description
  tool_description-Leaves = ground arith

  truncate-Leaves : Leaves c (truncate_tool_result_step c target value).1
  unfolding truncate_tool_result_step apply_truncate_tool_result
  truncate-Leaves = ground arith

  block_toggle-Leaves : Leaves c (message_block_toggle_step c target value).1
  unfolding message_block_toggle_step apply_message_block_toggle
  block_toggle-Leaves = ground arith

  message_text-Leaves : Leaves c (message_text_step c target value).1
  unfolding message_text_step apply_message_text
  message_text-Leaves = ground arith

  sampling-Leaves : (loads : Text → Option Json) → Leaves c (sampling_step loads c target value).1
  unfolding sampling_step apply_sampling_set
  sampling-Leaves loads = ground arith

  extras-Leaves :
      (loads : Text → Option Json) → Leaves c (provider_extras_step loads c target value).1
  unfolding provider_extras_step apply_provider_extras_set
  extras-Leaves loads = ground arith

module _ (loads : Text → Option Json) where
  value-Shows :
      (c : Context) (p : Parts) (kind : OverrideKind) (target : Text) (value : OverrideValue)
      → Shows c p
      → Shows (apply_override_value loads c kind target value).1 (edit_parts p kind target value)
  unfolding apply_override_value edit_parts
  value-Shows c p system_part_toggle target value s = toggle-Shows c p s target value
  value-Shows c p system_part_text target value s = text-Shows c p s target value
  value-Shows c p tool_toggle target value s = Leaves-Shows (tool_toggle-Leaves c target value) s
  value-Shows c p tool_description target value s =
      Leaves-Shows (tool_description-Leaves c target value) s
  value-Shows c p truncate_tool_result target value s =
      Leaves-Shows (truncate-Leaves c target value) s
  value-Shows c p message_block_toggle target value s =
      Leaves-Shows (block_toggle-Leaves c target value) s
  value-Shows c p message_text target value s = Leaves-Shows (message_text-Leaves c target value) s
  value-Shows c p sampling_set target value s =
      Leaves-Shows (sampling-Leaves c target value loads) s
  value-Shows c p provider_extras_set target value s =
      Leaves-Shows (extras-Leaves c target value loads) s

  each-Shows :
      (os : List Override) (c : Context) (p : Parts)
      → Shows c p
      → Shows (apply_each loads c os).1 (edit_all p os)
  unfolding apply_each edit_all apply_override
  each-Shows [] c p s = s
  each-Shows (o ∷ os) c p s =
      each-Shows os _ (edit_parts p o.kind o.target o.value)
        (value-Shows c p o.kind o.target o.value s)

  -- The system parts of the curated request are what the overrides, in priority order and each at
  -- its original index, leave of the original parts: no index is ever shifted in `edit_all`, so an
  -- override hits the part that it names whatever was removed before it.
  pub system-apply_overrides :
      (os : List Override) (ir : InternalRequest)
      → let p = edit_all (record { removed = []; base = ir.system }) (sort_by_priority os) in
        (apply_overrides loads os ir).0.system ≡ survivors 0 p.removed p.base
  unfolding apply_overrides sanitize_current_ir sanitize_curated_messages
  system-apply_overrides os ir =
      (each-Shows (sort_by_priority os) (new_context ir) (record { removed = []; base = ir.system })
        (record {
          removed = refl;
          indices = tt;
          current = sym (survivors-none 0 ir.system);
        })).current
