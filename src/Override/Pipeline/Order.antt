-- ===== src/Override/Pipeline/Order.antt =====
-- The order of the edits: kind by kind, as overrides.py documents it, and as they were stored within
-- one kind.
use transport_matters.Prelude.{
  Bool, List, [], false, filter, leb, suc, true, zero, ℕ, ◌++◌, ◌+◌, ◌==◌, ◌∷◌,
}
use transport_matters.Override.Model.{
  Override, priority, OverrideKind, tool_toggle, tool_description, system_part_toggle,
  system_part_text, truncate_tool_result, message_block_toggle, message_text, sampling_set,
  provider_extras_set,
}

abbrev pub is_kind : OverrideKind → OverrideKind → Bool
is_kind tool_toggle tool_toggle = true
is_kind tool_description tool_description = true
is_kind system_part_toggle system_part_toggle = true
is_kind system_part_text system_part_text = true
is_kind truncate_tool_result truncate_tool_result = true
is_kind message_block_toggle message_block_toggle = true
is_kind message_text message_text = true
is_kind sampling_set sampling_set = true
is_kind provider_extras_set provider_extras_set = true
is_kind _ _ = false

abbrev pub of_kind : OverrideKind → Override → Bool
of_kind k o = is_kind k o.kind

-- the order that overrides.py fixes: toggles before rewrites of one part, what is global before what
-- is targeted, and last what changes no text
abbrev pub documented_order : List OverrideKind
documented_order =
    tool_toggle ∷ tool_description ∷ system_part_toggle ∷ system_part_text ∷ truncate_tool_result
    ∷ message_block_toggle ∷ message_text ∷ sampling_set ∷ provider_extras_set ∷ []

-- the overrides of each kind in turn, as they are stored
abbrev pub by_kind : List OverrideKind → List Override → List Override
by_kind [] os = []
by_kind (k ∷ ks) os = filter (of_kind k) os ++ by_kind ks os

abbrev no_later_than : Override → Override → Bool
no_later_than o p = leb (priority o.kind) (priority p.kind)

abbrev of_priority : ℕ → Override → Bool
of_priority n o = priority o.kind == n

-- the overrides of `m` priorities from `n` on, in turn
abbrev from_priority : ℕ → ℕ → List Override → List Override
from_priority n zero os = []
from_priority n (suc m) os = filter (of_priority n) os ++ from_priority (n + 1) m os
