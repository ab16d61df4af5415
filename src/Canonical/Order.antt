-- ===== src/Canonical/Order.antt =====
-- The canonical text does not depend on the order in which a dict was filled.
use transport_matters.Prelude.{
  ◌≡◌, ◌≢◌, refl, ap, ◌∙◌, List, [], ◌∷◌, Text, text_leb_total, text_leb_trans, text_leb_antisym,
  arith,
}
use transport_matters.Ir.Value.{Json, obj, Fields, field}
use transport_matters.Canonical.{
  insert_field, sort_fields, canonical_json, canonical_values, canonical_mapping, canonical_fields,
}

-- The same entries in another order, at any depth. The keys of a dict differ.
pub data Reordered : Fields → Fields → Type 0 where
  same : {d : Fields} → Reordered d d
  under :
      {k : Text} {v : Json} {d e : Fields} → Reordered d e → Reordered (field k v d) (field k v e)
  inside :
      {k : Text} {a b d : Fields}
      → Reordered a b
      → Reordered (field k (obj a) d) (field k (obj b) d)
  swap :
      {k j : Text} {v w : Json} {d : Fields}
      → k ≢ j
      → Reordered (field k v (field j w d)) (field j w (field k v d))
  trans : {a b c : Fields} → Reordered a b → Reordered b c → Reordered a c

insert_field_comm :
    (f g : Text × Text) (fs : List (Text × Text))
    → f.0 ≢ g.0
    → insert_field f (insert_field g fs) ≡ insert_field g (insert_field f fs)
unfolding insert_field
insert_field_comm f g [] h = ground (arith, text_leb_total f.0 g.0, text_leb_antisym f.0 g.0)
insert_field_comm f g (x ∷ fs) h = ground (
  arith,
  insert_field_comm f g fs h,
  text_leb_total f.0 g.0,
  text_leb_antisym f.0 g.0,
  text_leb_trans f.0 g.0 x.0,
  text_leb_trans g.0 f.0 x.0,
  text_leb_total f.0 x.0,
  text_leb_total g.0 x.0,
  text_leb_trans f.0 x.0 g.0,
  text_leb_trans g.0 x.0 f.0,
)

sort-Reordered :
    {d e : Fields}
    → Reordered d e
    → sort_fields (canonical_values d) ≡ sort_fields (canonical_values e)
unfolding canonical_json sort_fields
sort-Reordered same = refl
sort-Reordered (under {k = k} {v = v} r) =
    ap (insert_field (k, canonical_json v)) (sort-Reordered r)
sort-Reordered (inside {k = k} {d = d} r) =
    ap
      (λ (fs : List (Text × Text)).
        insert_field (k, canonical_fields fs) (sort_fields (canonical_values d)))
      (sort-Reordered r)
sort-Reordered (swap {k = k} {j = j} {v = v} {w = w} {d = d} h) =
    insert_field_comm (k, canonical_json v) (j, canonical_json w) (sort_fields (canonical_values d))
      h
sort-Reordered (trans r s) = sort-Reordered r ∙ sort-Reordered s

-- Two dicts that hold the same entries in another order, at any depth of nested dicts, have one
-- canonical text.
pub canonical_json-Reordered :
    {d e : Fields} → Reordered d e → canonical_json (obj d) ≡ canonical_json (obj e)
unfolding canonical_json canonical_mapping
canonical_json-Reordered r = ap canonical_fields (sort-Reordered r)
