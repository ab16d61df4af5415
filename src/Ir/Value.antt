-- ===== src/Ir/Value.antt =====
-- JSON values as Python holds them: `dict` is a list of fields in insertion order.
use transport_matters.Prelude.{
  Bool, Option, none, some, Text, text_eq, text_eq_iff, if◌then◌else◌, ◌≡◌, refl, arith, is_some,
  false, not, ◌==◌, true, codes, ◌∷◌, [], ◌∷◌,
}
use transport_matters.Prelude.Int.{ℤ, pos, negsuc}

mutual
  pub data Json : Type 0 where
    null : Json
    bool : Bool → Json
    int : ℤ → Json
    float : Text → Json
    str : Text → Json
    arr : Items → Json
    obj : Fields → Json

  pub data Items : Type 0 where
    nil : Items
    cons : Json → Items → Items

  pub data Fields : Type 0 where
    empty : Fields
    field : Text → Json → Fields → Fields

-- `d.get(k)`
unfoldable pub get : Fields → Text → Option Json
get empty k = none
get (field j v d) k = if text_eq j k then some v else get d k

-- `d[k] = v`
unfoldable pub put : Fields → Text → Json → Fields
put empty k v = field k v empty
put (field j w d) k v = if text_eq j k then field j v d else field j w (put d k v)

-- `d.pop(k, None)`
unfoldable pub remove : Fields → Text → Fields
remove empty k = empty
remove (field j w d) k = if text_eq j k then d else field j w (remove d k)

-- `k in d`
abbrev pub contains : Fields → Text → Bool
contains d k = is_some (get d k)

-- no key twice, as in every dict
abbrev pub IsDict : Fields → Type 0
IsDict empty = Unit
IsDict (field j v d) = (get d j ≡ none) × IsDict d

pub get-put :
    (d : Fields) (k j : Text) (v : Json)
    → get (put d k v) j ≡ (if text_eq k j then some v else get d j)
unfolding get put
get-put empty k j v = refl
get-put (field i w d) k j v =
    ground (arith, get-put d k j v, text_eq_iff i k, text_eq_iff i j, text_eq_iff k j)

pub get-remove :
    (d : Fields) (k j : Text)
    → IsDict d
    → get (remove d k) j ≡ (if text_eq k j then none else get d j)
unfolding get remove
get-remove empty k j h = ground arith
get-remove (field i w d) k j h =
    ground (arith, get-remove d k j h.1, text_eq_iff i k, text_eq_iff i j, text_eq_iff k j)

pub put-IsDict : (d : Fields) (k : Text) (v : Json) → IsDict d → IsDict (put d k v)
unfolding get put
put-IsDict empty k v h = (refl, tt)
put-IsDict (field i w d) k v h =
    ground (arith, put-IsDict d k v h.1, get-put d k i v, text_eq_iff i k, text_eq_iff k i)

-- Python's truth of a JSON value; a float is held as its canonical text
unfoldable pub is_true : Json → Bool
is_true null = false
is_true (bool b) = b
is_true (int (pos n)) = not (n == 0)
is_true (int (negsuc n)) = true
is_true (float t) = not (text_eq t (codes "0"))
is_true (str []) = false
is_true (str (c ∷ cs)) = true
is_true (arr nil) = false
is_true (arr (cons v vs)) = true
is_true (obj empty) = false
is_true (obj (field k v d)) = true

-- `a or b`
abbrev pub true_or_next : Option Json → Option Json → Option Json
true_or_next none b = b
true_or_next (some v) b = if is_true v then some v else b
