-- ===== src/Override/Metadata.antt =====
-- api/src/transport_matters/override_ops_metadata.py: edits of the sampling parameters and of the
-- provider extras.
pub mod Paths
use transport_matters.Prelude.{
  Bool, true, false, ◌&&◌, ◌||◌, Option, none, some, List, [], ◌∷◌, Text, codes, text_eq, leb,
  length, any, if◌then◌else◌,
}
use transport_matters.Prelude.Int.{ℤ, pos, negsuc}
use transport_matters.Ir.Value.{
  Json, null, int, float, str, arr, obj, Items, nil, cons, Fields, empty, field, get, put, remove,
}
use transport_matters.Ir.{SamplingParams, InternalRequest}
use transport_matters.Override.Messages.{Mutation}
use transport_matters.Override.Targets.{split, parse_prefixed}

-- the literals of `SAMPLING_FIELDS`
pub data SamplingField : Type 0 where
  max_tokens temperature top_p top_k stop_sequences : SamplingField

-- `field in SAMPLING_FIELDS`
unfoldable pub sampling_field : Text → Option SamplingField
sampling_field name =
    if text_eq name (codes "max_tokens")
    then some max_tokens
    else if text_eq name (codes "temperature")
    then some temperature
    else if text_eq name (codes "top_p")
    then some top_p
    else if text_eq name (codes "top_k")
    then some top_k
    else if text_eq name (codes "stop_sequences")
    then some stop_sequences
    else none

all_texts : Items → Bool
all_texts nil = true
all_texts (cons (str s) xs) = all_texts xs
all_texts (cons _ xs) = false

is_number_or_null : Json → Bool
is_number_or_null null = true
is_number_or_null (int n) = true
is_number_or_null (float x) = true
is_number_or_null _ = false

at_least_one : ℤ → Bool
at_least_one (pos n) = leb 1 n
at_least_one (negsuc n) = false

-- a JSON true or false is no number here, though Python's `bool` is an `int`
unfoldable pub sampling_value_valid : SamplingField → Json → Bool
unfolding all_texts is_number_or_null at_least_one
sampling_value_valid max_tokens (int n) = at_least_one n
sampling_value_valid max_tokens _ = false
sampling_value_valid temperature value = is_number_or_null value
sampling_value_valid top_p value = is_number_or_null value
sampling_value_valid top_k null = true
sampling_value_valid top_k (int n) = true
sampling_value_valid top_k _ = false
sampling_value_valid stop_sequences (arr xs) = all_texts xs
sampling_value_valid stop_sequences _ = false

-- `sampling.model_copy(update={field: value})`
unfoldable pub set_sampling : SamplingField → Json → SamplingParams → SamplingParams
set_sampling max_tokens value s = record s { max_tokens = value }
set_sampling temperature value s = record s { temperature = value }
set_sampling top_p value s = record s { top_p = value }
set_sampling top_k value s = record s { top_k = value }
set_sampling stop_sequences value s = record s { stop_sequences = value }

unfoldable pub apply_sampling_set : InternalRequest → Text → Json → Mutation
apply_sampling_set ir name value = elim (sampling_field name) [
  | none ↦ (ir, pos 0, false)
  | some at ↦
      if sampling_value_valid at value
      then (record ir { sampling = set_sampling at value ir.sampling }, pos 0, true)
      else (ir, pos 0, false)
]

abbrev pub dunder : Text
dunder = codes "__"

starts_with : Text → Text → Bool
unfolding parse_prefixed
starts_with text prefix = elim (parse_prefixed text prefix) [ none ↦ false | some _ ↦ true ]

ends_with : Text → Text → Bool
ends_with [] suffix = text_eq [] suffix
ends_with (c ∷ cs) suffix = text_eq (c ∷ cs) suffix || ends_with cs suffix

unfoldable pub is_forbidden_segment : Text → Bool
unfolding starts_with ends_with
is_forbidden_segment segment =
    text_eq segment (codes "constructor")
    || (starts_with segment dunder && ends_with segment dunder && leb 4 (length segment))

-- `set_nested_path` over the path's first segment and the rest; `none` where the source returns
-- False. The source leaves a half-changed copy there, which its only caller drops.
unfoldable pub set_nested_path : Fields → Text → List Text → Json → Option Fields
set_nested_path node segment [] value = some (put node segment value)
set_nested_path node segment (next ∷ rest) value = elim (get node segment) [
  | none ↦ elim (set_nested_path empty next rest value) [
    | none ↦ none
    | some child ↦ some (put node segment (obj child))
  ]
  | some (obj fields) ↦ elim (set_nested_path fields next rest value) [
    | none ↦ none
    | some child ↦ some (put node segment (obj child))
  ]
  | some _ ↦ none
]

no_fields : Fields → Bool
no_fields empty = true
no_fields (field k v d) = false

-- the second loop: an emptied child is taken out of its parent
unfoldable pub prune_child : Fields → Text → Fields → Fields
unfolding no_fields
prune_child node segment child =
    if no_fields child then remove node segment else put node segment (obj child)

-- `delete_nested_path`: the changed root, and whether the walk reached the leaf's parent. On a
-- missing intermediate the source returns before it prunes.
unfoldable pub delete_nested_path : Fields → Text → List Text → Option (Fields × Bool)
unfolding prune_child
delete_nested_path node segment [] = some (remove node segment, true)
delete_nested_path node segment (next ∷ rest) = elim (get node segment) [
  | none ↦ some (node, false)
  | some (obj fields) ↦ elim (delete_nested_path fields next rest) [
    | none ↦ none
    | some (child, true) ↦ some (prune_child node segment child, true)
    | some (child, false) ↦ some (node, false)
  ]
  | some _ ↦ none
]

is_empty : Text → Bool
is_empty [] = true
is_empty (c ∷ cs) = false

-- `if value is None` deletes, any other value is set
edit_extras : Fields → Text → List Text → Json → Option Fields
edit_extras extras segment rest null = elim (delete_nested_path extras segment rest) [
  | none ↦ none
  | some (root, reached) ↦ some root
]
edit_extras extras segment rest value = set_nested_path extras segment rest value

with_path : InternalRequest → List Text → Json → Mutation
unfolding edit_extras
with_path ir [] value = (ir, pos 0, false)
with_path ir (segment ∷ rest) value = elim (edit_extras ir.provider_extras segment rest value) [
  | none ↦ (ir, pos 0, false)
  | some extras ↦ (record ir { provider_extras = extras }, pos 0, true)
]

unfoldable pub apply_provider_extras_set : InternalRequest → Text → Json → Mutation
unfolding is_empty is_forbidden_segment with_path split
apply_provider_extras_set ir key value =
    let path = split b'.' key in
    if is_empty key
    then (ir, pos 0, false)
    else if any (λ segment. is_empty segment || is_forbidden_segment segment) path
    then (ir, pos 0, false)
    else with_path ir path value
