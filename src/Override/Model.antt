-- ===== src/Override/Model.antt =====
-- The `Override` model of api/src/transport_matters/overrides.py.
use transport_matters.Prelude.{ℕ, Bool, Text, codes}
use transport_matters.Prelude.Int.{ℤ}

pub data OverrideKind : Type 0 where
  tool_toggle tool_description system_part_toggle system_part_text : OverrideKind
  message_block_toggle message_text truncate_tool_result : OverrideKind
  sampling_set provider_extras_set : OverrideKind

-- the literal that stands for a kind
abbrev pub kind_text : OverrideKind → Text
kind_text tool_toggle = codes "tool_toggle"
kind_text tool_description = codes "tool_description"
kind_text system_part_toggle = codes "system_part_toggle"
kind_text system_part_text = codes "system_part_text"
kind_text message_block_toggle = codes "message_block_toggle"
kind_text message_text = codes "message_text"
kind_text truncate_tool_result = codes "truncate_tool_result"
kind_text sampling_set = codes "sampling_set"
kind_text provider_extras_set = codes "provider_extras_set"

-- `_PRIORITY`
unfoldable pub priority : OverrideKind → ℕ
priority tool_toggle = 1
priority tool_description = 2
priority system_part_toggle = 3
priority system_part_text = 4
priority truncate_tool_result = 5
priority message_block_toggle = 6
priority message_text = 7
priority sampling_set = 8
priority provider_extras_set = 9

-- `str | bool | int | None`
pub data OverrideValue : Type 0 where
  str : Text → OverrideValue
  bool : Bool → OverrideValue
  int : ℤ → OverrideValue
  nothing : OverrideValue

pub record Override : Type 0 where
  pub kind : OverrideKind
  pub target : Text
  pub value : OverrideValue
