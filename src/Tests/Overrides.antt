-- ===== src/Tests/Overrides.antt =====
-- The override pipeline, its targets and its store, at concrete inputs.
use transport_matters.Prelude.{
  true, false, ◌≡◌, ◌↔◌, ◌&&◌, none, some, Option, [], ◌∷◌, Text, codes, refl, all, map, is_some,
  if◌then◌else◌, List,
}
use transport_matters.Prelude.Int.{pos, negsuc, ◌-ℤ◌}
use transport_matters.Override.Targets.{
  parse_system_index, system_target, parse_message_target, message_block_target, is_index,
  adjust_system_index, int_value,
}
use transport_matters.Override.Targets.RoundTrip.{parse_system_index_iff}
use transport_matters.Override.Targets.Blocks.{parse_message_target_iff}
use transport_matters.Override.Blocks.{mem, use_ids, result_ids, sanitize_curated_messages}
use transport_matters.Override.Blocks.Clean.{
  sanitize-paired, sanitize_idem, sanitize-solid, is_solid,
}
use transport_matters.Override.Survivors.{survivors}
use transport_matters.Override.Pipeline.{
  apply_overrides, sort_by_priority, sanitize_current_ir, apply_each, apply_override,
  apply_override_value,
}
use transport_matters.Override.Apply.{
  system_part_text_step, rewrite_system_part, system_part_toggle_step, remove_system_part,
}
use transport_matters.Override.Messages.{apply_system_part_toggle, apply_system_part_text}
use transport_matters.Override.Pipeline.System.{edit_all, system-apply_overrides}
use transport_matters.Override.Store.{
  OverrideStore, new_store, upsert, remove_override, clear, is_enabled, set_enabled,
  normalize_scope, override_key, is_nothing,
}
use transport_matters.Override.Model.{Override}
use transport_matters.Override.Store.Views.{
  IsValid, view, same, view-upsert, view-remove_override, upsert-IsValid,
}
use transport_matters.Override.Store.Scopes.{is_enabled-set_enabled, view-clear}
use transport_matters.Tests.Requests.{demo, edits, cut_first, edit_third, no_json}

-- The removal of part 0 does not move the edit of part 2.
curated_system :
    map (λ p. p.text) (apply_overrides no_json edits demo).0.system ≡ codes "two" ∷ codes "3" ∷ []
unfolding apply_overrides sanitize_current_ir sanitize_curated_messages apply_each apply_override
    apply_override_value system_part_text_step parse_system_index is_index rewrite_system_part
    system_part_toggle_step remove_system_part apply_system_part_toggle adjust_system_index ◌-ℤ◌
    int_value apply_system_part_text
curated_system = refl

system-apply_overrides_example :
    let p = edit_all (record { removed = []; base = demo.system }) (sort_by_priority edits) in
    (apply_overrides no_json edits demo).0.system ≡ survivors 0 p.removed p.base
system-apply_overrides_example = system-apply_overrides no_json edits demo

sanitize-paired_example :
    let after = (sanitize_curated_messages demo false).messages in
    (mem (codes "t2") (use_ids after)
      ≡ (mem (codes "t2") (use_ids demo.messages) && mem (codes "t2") (result_ids demo.messages)))
    × (mem (codes "t2") (result_ids after) ≡ (
        if false
        then mem (codes "t2") (result_ids demo.messages)
        else mem (codes "t2") (use_ids demo.messages)
          && mem (codes "t2") (result_ids demo.messages)))
sanitize-paired_example = sanitize-paired demo false (codes "t2")

sanitize_idem_example :
    sanitize_curated_messages (sanitize_curated_messages demo false) false
    ≡ sanitize_curated_messages demo false
sanitize_idem_example = sanitize_idem demo false

sanitize-solid_example : all is_solid (sanitize_curated_messages demo false).messages ≡ true
sanitize-solid_example = sanitize-solid demo false

parse_system_index_iff_example :
    (parse_system_index (codes "system:-2") ≡ some (negsuc 1))
    ↔ (codes "system:-2" ≡ system_target (negsuc 1))
parse_system_index_iff_example = parse_system_index_iff (codes "system:-2") (negsuc 1)

parse_message_target_iff_example :
    (parse_message_target (codes "msg:0:blk:12") ≡ some (pos 0, pos 12))
    ↔ (codes "msg:0:blk:12" ≡ message_block_target (pos 0) (pos 12))
parse_message_target_iff_example = parse_message_target_iff (codes "msg:0:blk:12") (pos 0) (pos 12)

-- the edits of two kinds, the other way round
abbrev mixed : List Override
mixed = cut_first ∷ edit_third ∷ []

abbrev run_scope : Option Text × Option Text
run_scope = (some (codes "run"), none)

abbrev one_override : OverrideStore
one_override = upsert new_store cut_first (some run_scope)

new_store-IsValid : IsValid new_store
new_store-IsValid = record { scopes = tt; keys = tt; switches = tt }

one_override-IsValid : IsValid one_override
one_override-IsValid = upsert-IsValid new_store (some run_scope) cut_first new_store-IsValid

view-upsert_example :
    view
      (upsert one_override edit_third (some run_scope))
      (codes "run", codes "run")
      (override_key cut_first)
    ≡ (if same (normalize_scope (some run_scope)) (codes "run", codes "run")
          && same (override_key edit_third) (override_key cut_first)
        then (if is_nothing edit_third.value then none else some edit_third)
        else view one_override (codes "run", codes "run") (override_key cut_first))
view-upsert_example =
    view-upsert one_override (some run_scope) edit_third (codes "run", codes "run")
      (override_key cut_first) one_override-IsValid

view-remove_override_example :
    let (found, after) =
      remove_override one_override
        (codes "system_part_toggle")
        (codes "system:0")
        (some run_scope) in
    (found
      ≡ is_some (
          view one_override
            (normalize_scope (some run_scope))
            (codes "system_part_toggle", codes "system:0")))
    × (view after (codes "run", codes "run") (override_key cut_first) ≡ (
        if same (normalize_scope (some run_scope)) (codes "run", codes "run")
          && same (codes "system_part_toggle", codes "system:0") (override_key cut_first)
        then none
        else view one_override (codes "run", codes "run") (override_key cut_first)))
view-remove_override_example =
    view-remove_override one_override (some run_scope) (codes "system_part_toggle")
      (codes "system:0") (codes "run", codes "run") (override_key cut_first) one_override-IsValid

is_enabled-set_enabled_example :
    is_enabled (set_enabled one_override false (some run_scope)) none ≡ (
      if same (normalize_scope (some run_scope)) (normalize_scope none)
      then false
      else is_enabled one_override none)
is_enabled-set_enabled_example =
    is_enabled-set_enabled one_override one_override-IsValid false (some run_scope) none

view-clear_example :
    let after = clear one_override (some run_scope) in
    (view after (normalize_scope (some run_scope)) (override_key cut_first) ≡ (
      if same (normalize_scope (some run_scope)) (normalize_scope (some run_scope))
      then none
      else view one_override (normalize_scope (some run_scope)) (override_key cut_first)))
    × (is_enabled after (some run_scope) ≡ (
        if same (normalize_scope (some run_scope)) (normalize_scope (some run_scope))
        then true
        else is_enabled one_override (some run_scope)))
view-clear_example =
    view-clear one_override one_override-IsValid run_scope (some run_scope) (override_key cut_first)
