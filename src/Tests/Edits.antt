-- ===== src/Tests/Edits.antt =====
-- The edits of a request and the canonical text, at concrete inputs.
use transport_matters.Prelude.{
  true, false, ◌≡◌, refl, [], ◌∷◌, codes, all, any, ◌≢◌, arith, text_eq, map,
}
use transport_matters.Prelude.Int.{pos, ◌+ℤ◌}
use transport_matters.Ir.Value.{Json, Fields, empty, field, get}
use transport_matters.Canonical.{canonical_json}
use transport_matters.Canonical.Order.{swap, canonical_json-Reordered}
use transport_matters.Override.Audit.{tools_chars, system_chars}
use transport_matters.Override.Messages.{
  apply_tool_toggle, apply_tool_description, apply_system_part_toggle, apply_system_part_text,
  apply_truncate_tool_result, is_named,
}
use transport_matters.Override.Messages.Truncation.{
  message_fits, truncated_message, truncate-bounds,
}
use transport_matters.Override.Messages.Counts.{
  apply_tool_toggle-counts, apply_tool_description-counts, system_part-counts,
}
use transport_matters.Override.Targets.{split}
use transport_matters.Override.Metadata.{apply_provider_extras_set}
use transport_matters.Override.Metadata.Paths.{
  nested_get, expected, AllProper, IsProper, apply_provider_extras_set-get,
}
use transport_matters.Tests.Requests.{demo, extras}

truncate-bounds_example :
    let after = (apply_truncate_tool_result demo (codes "t1") 6).0 in
    (after ≡ record demo { messages = map (truncated_message (codes "t1") 6) demo.messages })
    × (all (message_fits (codes "t1") 6) after.messages ≡ true)
    × ((apply_truncate_tool_result after (codes "t1") 6).0 ≡ after)
truncate-bounds_example = truncate-bounds (codes "t1") 6 demo

apply_tool_toggle-counts_example :
    let (after, delta, applied) = apply_tool_toggle demo (codes "read") false in
    (pos (tools_chars after.tools) ≡ pos (tools_chars demo.tools) +ℤ delta)
    × (any (is_named (codes "read")) after.tools ≡ false)
    × (applied ≡ any (is_named (codes "read")) demo.tools)
apply_tool_toggle-counts_example = apply_tool_toggle-counts (codes "read") demo

apply_tool_description-counts_example :
    let (after, delta, applied) =
      apply_tool_description demo (codes "read") (codes "reads a file") in
    (pos (tools_chars after.tools) ≡ pos (tools_chars demo.tools) +ℤ delta)
    × (applied ≡ any (is_named (codes "read")) demo.tools)
unfolding text_eq
apply_tool_description-counts_example =
    apply_tool_description-counts (codes "read") demo (codes "reads a file") refl

system_part-counts_example :
    let (cut, cut_delta, _) = apply_system_part_toggle demo (pos 1) false in
    let (edited, edit_delta, _) = apply_system_part_text demo (pos 1) (codes "a new text") in
    (pos (system_chars cut.system) ≡ pos (system_chars demo.system) +ℤ cut_delta)
    × (pos (system_chars edited.system) ≡ pos (system_chars demo.system) +ℤ edit_delta)
system_part-counts_example = system_part-counts demo (pos 1) (codes "a new text")

extras-AllProper : AllProper extras
unfolding AllProper IsProper get
extras-AllProper = (refl, (refl, tt, tt), tt)

demo_key : split b'.' (codes "thinking.budget") ≡ codes "thinking" ∷ codes "budget" ∷ []
unfolding split
demo_key = refl

apply_provider_extras_set-get_example :
    let (after, delta, applied) =
      apply_provider_extras_set demo (codes "thinking.budget") (Json.int (pos 9)) in
    (applied ≡ true
      → nested_get after.provider_extras (codes "thinking") (codes "budget" ∷ [])
        ≡ expected (Json.int (pos 9)))
    × (applied ≡ false → after ≡ demo)
    × (delta ≡ pos 0)
apply_provider_extras_set-get_example =
    apply_provider_extras_set-get demo (codes "thinking.budget") (codes "thinking")
      (codes "budget" ∷ []) (Json.int (pos 9)) extras-AllProper demo_key

abbrev ab : Fields
ab = field (codes "a") Json.null (field (codes "b") (Json.bool true) empty)

abbrev ba : Fields
ba = field (codes "b") (Json.bool true) (field (codes "a") Json.null empty)

a_not_b : codes "a" ≢ codes "b"
a_not_b e = ground (arith, e)

canonical_json-Reordered_example : canonical_json (Json.obj ab) ≡ canonical_json (Json.obj ba)
canonical_json-Reordered_example = canonical_json-Reordered (swap a_not_b)
