-- ===== src/Override/Messages/Counts.antt =====
-- The reported changes of the character counts, against the counts themselves.
use transport_matters.Prelude.{
  ℕ, ◌+◌, true, false, not, ◌≡◌, refl, ap, Option, none, some, List, [], ◌∷◌, Text, length,
  get_elem?, set, erase_idx, any, filter, sum_of, map, if◌then◌else◌, zero, suc, Bool-cases, inl,
  inr, arith,
}
use transport_matters.Prelude.Int.{
  ℤ, pos, negsuc, ◌+ℤ◌, ◌-ℤ◌, pos_part, neg_part, +ℤ_parts, int_laws,
}
use transport_matters.Ir.{ToolDef, SystemPart, InternalRequest}
use transport_matters.Override.Audit.{tool_chars, tools_chars, system_chars}
use transport_matters.Override.Messages.{
  apply_tool_toggle, apply_tool_description, is_named, describe, description_delta,
  apply_system_part_toggle, apply_system_part_text,
}

-- a removal and a replacement, as changes of a count
minus : (a b c : ℕ) → a + c ≡ b → pos a ≡ pos b +ℤ (pos 0 -ℤ pos c)
unfolding ◌+ℤ◌ ◌-ℤ◌
minus a b c h = ground arith

exchange : (a b c d : ℕ) → a + c ≡ b + d → pos a ≡ pos b +ℤ (pos d -ℤ pos c)
unfolding ◌+ℤ◌ ◌-ℤ◌
exchange a b c d h = ground arith

unchanged : (a : ℕ) → pos a ≡ pos a +ℤ pos 0
unfolding ◌+ℤ◌
unchanged a = ground arith

more : (a b c : ℕ) (d : ℤ) → pos a ≡ pos b +ℤ d → pos (c + a) ≡ pos (c + b) +ℤ d
more a b c d h = omega (int_laws, +ℤ_parts (pos b) d, ap pos_part h, ap neg_part h)

module _ (name : Text) where
  tools_chars-filter :
      (tools : List ToolDef)
      → sum_of tool_chars (filter (λ t. not (is_named name t)) tools)
          + sum_of tool_chars (filter (is_named name) tools)
        ≡ sum_of tool_chars tools
  tools_chars-filter [] = omega arith
  tools_chars-filter (t ∷ tools) = ground (arith, tools_chars-filter tools)

  any-filter-not :
      (tools : List ToolDef)
      → any (is_named name) (filter (λ t. not (is_named name t)) tools) ≡ false
  any-filter-not [] = refl
  any-filter-not (t ∷ tools) = ground (arith, any-filter-not tools)

  -- The change that the removal of a tool reports is the change of the tools' count, no tool of the
  -- name is left, and the removal applies exactly when one was there.
  pub apply_tool_toggle-counts :
      (ir : InternalRequest)
      → let (after, delta, applied) = apply_tool_toggle ir name false in
        (pos (tools_chars after.tools) ≡ pos (tools_chars ir.tools) +ℤ delta)
        × (any (is_named name) after.tools ≡ false)
        × (applied ≡ any (is_named name) ir.tools)
  unfolding apply_tool_toggle tools_chars
  apply_tool_toggle-counts ir = elim (Bool-cases (any (is_named name) ir.tools)) [
    | inl e ↦ rw e (minus _ _ _ (tools_chars-filter ir.tools), any-filter-not ir.tools, refl)
    | inr e ↦ rw e (unchanged _, e, refl)
  ]

  -- no two tools have the name
  abbrev pub AtMostOne : List ToolDef → Type 0
  AtMostOne [] = Unit
  AtMostOne (t ∷ tools) =
      if is_named name t then (any (is_named name) tools ≡ false) else AtMostOne tools

  module _ (desc : Text) where
    describe_absent :
        (tools : List ToolDef) (d : ℤ)
        → any (is_named name) tools ≡ false
        → (map (describe name desc) tools ≡ tools) × (description_delta name desc tools d ≡ d)
    describe_absent [] d h = (refl, refl)
    describe_absent (t ∷ tools) d h = ground (arith, describe_absent tools d)

    describe-counts :
        (tools : List ToolDef)
        → AtMostOne tools
        → any (is_named name) tools ≡ true
        → pos (sum_of tool_chars (map (describe name desc) tools))
          ≡ pos (sum_of tool_chars tools) +ℤ description_delta name desc tools (pos 0)
    unfolding tool_chars
    describe-counts [] one h = absurd (ground arith)
    describe-counts (t ∷ tools) one h = elim (Bool-cases (is_named name t)) [
      | inl e ↦
          let (same, last) =
            describe_absent tools (pos (length desc) -ℤ pos (length t.description)) (rw e at one) in
          rw (e, same, last) (exchange _ _ (length t.description) (length desc) (omega arith))
      | inr e ↦ rw e (more _ _ (tool_chars t) _ (describe-counts tools (rw e at one) (rw e at h)))
    ]

  -- Where no two tools have the name, the change that a new description reports is the change of the
  -- tools' count.
  pub apply_tool_description-counts :
      (ir : InternalRequest) (desc : Text)
      → AtMostOne ir.tools
      → let (after, delta, applied) = apply_tool_description ir name desc in
        (pos (tools_chars after.tools) ≡ pos (tools_chars ir.tools) +ℤ delta)
        × (applied ≡ any (is_named name) ir.tools)
  unfolding apply_tool_description tools_chars
  apply_tool_description-counts ir desc one = elim (Bool-cases (any (is_named name) ir.tools)) [
    | inl e ↦ rw e (describe-counts desc ir.tools one e, refl)
    | inr e ↦ rw e (unchanged _, refl)
  ]

sum_of-set :
    (f : SystemPart → ℕ) (xs : List SystemPart) (i : ℕ) (x y : SystemPart)
    → get_elem? xs i ≡ some x
    → sum_of f (set xs i y) + f x ≡ sum_of f xs + f y
sum_of-set f [] i x y h = absurd (ground arith)
sum_of-set f (z ∷ xs) zero x y h = ground arith
sum_of-set f (z ∷ xs) (suc i) x y h = omega (arith, sum_of-set f xs i x y h)

sum_of-erase :
    (f : SystemPart → ℕ) (xs : List SystemPart) (i : ℕ) (x : SystemPart)
    → get_elem? xs i ≡ some x
    → sum_of f (erase_idx xs i) + f x ≡ sum_of f xs
sum_of-erase f [] i x h = absurd (ground arith)
sum_of-erase f (z ∷ xs) zero x h = ground arith
sum_of-erase f (z ∷ xs) (suc i) x h = omega (arith, sum_of-erase f xs i x h)

toggle-counts :
    (ir : InternalRequest) (n : ℕ) (o : Option SystemPart)
    → get_elem? ir.system n ≡ o
    → let (cut, delta, _) = apply_system_part_toggle ir (pos n) false in
      pos (system_chars cut.system) ≡ pos (system_chars ir.system) +ℤ delta
unfolding apply_system_part_toggle system_chars
toggle-counts ir n none e = rw (e, apply_system_part_toggle) (unchanged _)
toggle-counts ir n (some part) e =
    rw (e, apply_system_part_toggle)
      (minus _ _ _ (sum_of-erase (λ p. length p.text) ir.system n part e))

text-counts :
    (ir : InternalRequest) (n : ℕ) (text : Text) (o : Option SystemPart)
    → get_elem? ir.system n ≡ o
    → let (edited, delta, _) = apply_system_part_text ir (pos n) text in
      pos (system_chars edited.system) ≡ pos (system_chars ir.system) +ℤ delta
unfolding apply_system_part_text system_chars
text-counts ir n text none e = rw (e, apply_system_part_text) (unchanged _)
text-counts ir n text (some part) e =
    rw (e, apply_system_part_text)
      (exchange _ _ _ _
        (sum_of-set (λ p. length p.text) ir.system n part (record part { text = text }) e))

-- The change that an edit of a system part reports is the change of the system parts' count, for a
-- removal and for a new text, whether it applies or not.
pub system_part-counts :
    (ir : InternalRequest) (index : ℤ) (text : Text)
    → let (cut, cut_delta, _) = apply_system_part_toggle ir index false in
      let (edited, edit_delta, _) = apply_system_part_text ir index text in
      (pos (system_chars cut.system) ≡ pos (system_chars ir.system) +ℤ cut_delta)
      × (pos (system_chars edited.system) ≡ pos (system_chars ir.system) +ℤ edit_delta)
unfolding apply_system_part_toggle apply_system_part_text system_chars
system_part-counts ir (negsuc n) text = (unchanged _, unchanged _)
system_part-counts ir (pos n) text = (
  toggle-counts ir n (get_elem? ir.system n) refl,
  text-counts ir n text (get_elem? ir.system n) refl,
)
