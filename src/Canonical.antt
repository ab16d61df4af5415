-- ===== src/Canonical.antt =====
-- api/src/transport_matters/canonicalization.py: compact JSON text with sorted keys.
pub mod Order
use transport_matters.Prelude.{
  ℕ, ◌+◌, ◌-◌, ◌/◌, ◌%◌, Bool, true, false, ◌||◌, Option, none, some, List, [], ◌∷◌, ◌++◌, Text,
  codes, text_leb, ltb, ◌==◌, if◌then◌else◌,
}
use transport_matters.Prelude.Decimal.{int_text}
use transport_matters.Ir.Value.{
  Json, null, bool, int, float, str, arr, obj, Items, nil, cons, Fields, empty, field,
}

hex_digit : ℕ → ℕ
hex_digit n = if ltb n 10 then 48 + n else 87 + n

-- `json.dumps` of one character, with `ensure_ascii=False`
unfoldable pub escape : ℕ → Text
unfolding hex_digit
escape c =
    if c == 0x22
    then codes "\\\""
    else if c == 0x5c
    then codes "\\\\"
    else if c == 10
    then codes "\\n"
    else if c == 13
    then codes "\\r"
    else if c == 9
    then codes "\\t"
    else if c == 12
    then codes "\\f"
    else if c == 8
    then codes "\\b"
    else if ltb c 32
    then codes "\\u00" ++ (hex_digit (c / 16) ∷ hex_digit (c % 16) ∷ [])
    else c ∷ []

unfoldable pub escape_all : Text → Text
unfolding escape
escape_all [] = []
escape_all (c ∷ cs) = escape c ++ escape_all cs

unfoldable pub json_string : Text → Text
unfolding escape_all
json_string value = b'"' ∷ escape_all value ++ b'"' ∷ []

unfoldable pub comma_join : List Text → Text
comma_join [] = []
comma_join (t ∷ []) = t
comma_join (t ∷ u ∷ ts) = t ++ b',' ∷ comma_join (u ∷ ts)

-- `sorted` by key, over pairs of a key and the text of its value
unfoldable pub insert_field : Text × Text → List (Text × Text) → List (Text × Text)
insert_field f [] = f ∷ []
insert_field f (g ∷ fs) = if text_leb f.0 g.0 then f ∷ g ∷ fs else g ∷ insert_field f fs

unfoldable pub sort_fields : List (Text × Text) → List (Text × Text)
unfolding insert_field
sort_fields [] = []
sort_fields (f ∷ fs) = insert_field f (sort_fields fs)

unfoldable pub render_fields : List (Text × Text) → List Text
unfolding json_string
render_fields [] = []
render_fields ((key, value) ∷ fs) = (json_string key ++ b':' ∷ value) ∷ render_fields fs

unfoldable pub canonical_fields : List (Text × Text) → Text
unfolding render_fields comma_join
canonical_fields fs = b'{' ∷ comma_join (render_fields fs) ++ b'}' ∷ []

-- `_canonical_mapping`, over the texts of the values
unfoldable pub canonical_mapping : List (Text × Text) → Text
unfolding canonical_fields sort_fields
canonical_mapping fs = canonical_fields (sort_fields fs)

unfoldable mutual
  unfolding json_string comma_join canonical_mapping

  pub canonical_json : Json → Text
  canonical_json null = codes "null"
  canonical_json (bool b) = if b then codes "true" else codes "false"
  canonical_json (int n) = int_text n
  canonical_json (float printed) = printed
  canonical_json (str s) = json_string s
  canonical_json (arr xs) = b'[' ∷ comma_join (canonical_items xs) ++ b']' ∷ []
  canonical_json (obj fs) = canonical_mapping (canonical_values fs)

  pub canonical_items : Items → List Text
  canonical_items nil = []
  canonical_items (cons x xs) = canonical_json x ∷ canonical_items xs

  pub canonical_values : Fields → List (Text × Text)
  canonical_values empty = []
  canonical_values (field k v fs) = (k, canonical_json v) ∷ canonical_values fs
