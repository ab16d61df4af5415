-- ===== src/Override/Targets.antt =====
-- api/src/transport_matters/override_targets.py: the textual targets of overrides.
use transport_matters.Prelude.{
  ℕ, ◌+◌, ◌-◌, Bool, true, false, ◌&&◌, ◌||◌, Option, none, some, List, [], ◌∷◌, ◌++◌, Text, codes,
  text_eq, ◌==◌, ltb, if◌then◌else◌, or_else,
}
use transport_matters.Prelude.Int.{ℤ, pos, negsuc, ◌-ℤ◌, ltb_ℤ, eq_ℤ, int_key}
use transport_matters.Prelude.Dict.{Dict, get}
use transport_matters.Prelude.Decimal.{int_text, digits_value, is_positive}
pub mod RoundTrip
pub mod Blocks

-- `_INDEX_RE.fullmatch(raw)`, with `_INDEX_RE = ^(0|-?[1-9][0-9]*)$`
unfoldable pub is_index : Text → Bool
unfolding is_positive
is_index [] = false
is_index (c ∷ []) = if c == b'0' then true else is_positive (c ∷ [])
is_index (c ∷ d ∷ cs) = if c == b'-' then is_positive (d ∷ cs) else is_positive (c ∷ d ∷ cs)

abbrev negate : ℕ → ℤ
negate n = if ltb 0 n then negsuc (n - 1) else pos 0

-- `int(raw)` of a text that matched
unfoldable pub int_value : Text → ℤ
unfolding digits_value
int_value [] = pos 0
int_value (c ∷ cs) = if c == b'-' then negate (digits_value 0 cs) else pos (digits_value 0 (c ∷ cs))

abbrev pub tool_prefix : Text
tool_prefix = codes "tool:"

abbrev pub system_prefix : Text
system_prefix = codes "system:"

abbrev pub tool_result_prefix : Text
tool_result_prefix = codes "toolresult:"

abbrev pub sampling_prefix : Text
sampling_prefix = codes "sampling:"

abbrev pub provider_extras_prefix : Text
provider_extras_prefix = codes "provider_extras:"

unfoldable pub tool_target : Text → Text
tool_target name = tool_prefix ++ name

unfoldable pub system_target : ℤ → Text
system_target index = system_prefix ++ int_text index

unfoldable pub tool_result_target : Text → Text
tool_result_target tool_use_id = tool_result_prefix ++ tool_use_id

unfoldable pub sampling_target : Text → Text
sampling_target field_name = sampling_prefix ++ field_name

unfoldable pub provider_extras_target : Text → Text
provider_extras_target key = provider_extras_prefix ++ key

unfoldable pub message_block_target : ℤ → ℤ → Text
message_block_target msg_idx blk_idx =
    codes "msg:" ++ (int_text msg_idx ++ (codes ":blk:" ++ int_text blk_idx))

-- the text after the prefix
unfoldable pub parse_prefixed : Text → Text → Option Text
parse_prefixed target [] = some target
parse_prefixed [] (p ∷ ps) = none
parse_prefixed (c ∷ cs) (p ∷ ps) = if c == p then parse_prefixed cs ps else none

as_index : Option Text → Option ℤ
as_index none = none
as_index (some raw) = if is_index raw then some (int_value raw) else none

unfoldable pub parse_prefixed_int : Text → Text → Option ℤ
unfolding parse_prefixed as_index
parse_prefixed_int target prefix = as_index (parse_prefixed target prefix)

unfoldable pub parse_tool_name : Text → Option Text
unfolding parse_prefixed
parse_tool_name target = parse_prefixed target tool_prefix

unfoldable pub parse_system_index : Text → Option ℤ
unfolding parse_prefixed_int
parse_system_index target = parse_prefixed_int target system_prefix

unfoldable pub parse_tool_result_id : Text → Option Text
unfolding parse_prefixed
parse_tool_result_id target = parse_prefixed target tool_result_prefix

unfoldable pub parse_sampling_field : Text → Option Text
unfolding parse_prefixed
parse_sampling_field target = parse_prefixed target sampling_prefix

unfoldable pub parse_provider_extras_key : Text → Option Text
unfolding parse_prefixed
parse_provider_extras_key target = parse_prefixed target provider_extras_prefix

abbrev onto : ℕ → List Text → List Text
onto c [] = (c ∷ []) ∷ []
onto c (t ∷ ts) = (c ∷ t) ∷ ts

-- `text.split(sep)` for a separator of one character: never empty
unfoldable pub split : ℕ → Text → List Text
split sep [] = [] ∷ []
split sep (c ∷ cs) = if c == sep then [] ∷ split sep cs else onto c (split sep cs)

message_parts : List Text → Option (ℤ × ℤ)
message_parts (kind ∷ msg ∷ mid ∷ blk ∷ []) =
    if text_eq kind (codes "msg") && text_eq mid (codes "blk")
    then (if is_index msg && is_index blk then some (int_value msg, int_value blk) else none)
    else none
message_parts _ = none

unfoldable pub parse_message_target : Text → Option (ℤ × ℤ)
unfolding split message_parts
parse_message_target target = message_parts (split b':' target)

-- `sum(1 for prior in removed if prior < index)`
unfoldable pub count_below : ℤ → List ℤ → ℕ
count_below index [] = 0
count_below index (prior ∷ removed) =
    (if ltb_ℤ prior index then 1 else 0) + count_below index removed

unfoldable pub shift_after_removals : ℤ → List ℤ → ℤ
unfolding count_below
shift_after_removals index removed = index -ℤ pos (count_below index removed)

unfoldable pub adjust_system_index : ℤ → List ℤ → ℤ
unfolding shift_after_removals
adjust_system_index original_index removed_indices =
    shift_after_removals original_index removed_indices

abbrev pub mem_ℤ : ℤ → List ℤ → Bool
mem_ℤ z [] = false
mem_ℤ z (x ∷ xs) = eq_ℤ x z || mem_ℤ z xs

-- `removed_blk_indices.get(msg_idx, set())`
abbrev pub removed_at : Dict ℤ (List ℤ) → ℤ → List ℤ
removed_at removed msg_idx = or_else (get removed msg_idx) []

unfoldable pub adjust_blk_index : ℤ → ℤ → Dict ℤ (List ℤ) → Option ℤ
unfolding shift_after_removals
adjust_blk_index msg_idx original_blk_idx removed_blk_indices =
    let removed = removed_at removed_blk_indices msg_idx in
    if mem_ℤ original_blk_idx removed
    then none
    else some (shift_after_removals original_blk_idx removed)
