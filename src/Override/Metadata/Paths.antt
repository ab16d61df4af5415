-- ===== src/Override/Metadata/Paths.antt =====
-- Dotted paths into the provider extras: what a set and a delete leave to be read.
use transport_matters.Prelude.{
  Bool, true, false, not, ◌≡◌, refl, ◌∙◌, Option, none, some, List, [], ◌∷◌, Text, text_eq,
  text_eq_iff, text_eq_refl, if◌then◌else◌, Option-cases, Bool-cases, inl, inr, arith,
}
use transport_matters.Prelude.Int.{pos}
use transport_matters.Ir.Value.{
  Json, null, bool, int, float, str, arr, obj, Fields, empty, field, get, put, get-put, get-remove,
  IsDict,
}
use transport_matters.Ir.{InternalRequest}
use transport_matters.Override.Targets.{split}
use transport_matters.Override.Metadata.{
  set_nested_path, delete_nested_path, prune_child, edit_extras, apply_provider_extras_set,
}

-- what stands at the end of a path
unfoldable pub nested_get : Fields → Text → List Text → Option Json
nested_get node segment [] = get node segment
nested_get node segment (next ∷ rest) = elim (get node segment) [
  | none ↦ none
  | some (obj fields) ↦ nested_get fields next rest
  | some _ ↦ none
]

-- the two paths part before either ends
unfoldable pub diverge : Text → List Text → Text → List Text → Bool
diverge s (n ∷ p) t (m ∷ q) = let below = diverge n p m q in if text_eq s t then below else true
diverge s [] t q = not (text_eq s t)
diverge s (n ∷ p) t [] = not (text_eq s t)

nested_get-put_self :
    (node child : Fields) (s n : Text) (p : List Text)
    → nested_get (put node s (obj child)) s (n ∷ p) ≡ nested_get child n p
unfolding nested_get
nested_get-put_self node child s n p = ground (arith, get-put node s s (obj child), text_eq_refl s)

nested_get-put_ne :
    (node : Fields) (s t : Text) (v : Json) (q : List Text)
    → text_eq s t ≡ false
    → nested_get (put node s v) t q ≡ nested_get node t q
unfolding nested_get
nested_get-put_ne node s t v [] h = rw (get-put, h)
nested_get-put_ne node s t v (m ∷ q) h = ground (arith, get-put node s t v)

-- the child that a set goes on in: a missing intermediate is a new empty dict
child_of : Fields → Text → Option Fields
child_of node s = elim (get node s) [ none ↦ some empty | some (obj fs) ↦ some fs | some _ ↦ none ]

set_inv :
    (node node' : Fields) (s n : Text) (p : List Text) (v : Json)
    → set_nested_path node s (n ∷ p) v ≡ some node'
    → (fs : Fields) × (child : Fields) × (child_of node s ≡ some fs)
      × (set_nested_path fs n p v ≡ some child)
      × (node' ≡ put node s (obj child))
unfolding set_nested_path child_of
set_inv node node' s n p v h = go (get node s) refl
  where
    go :
        (o : Option Json)
        → get node s ≡ o
        → (fs : Fields) × (child : Fields) × (child_of node s ≡ some fs)
          × (set_nested_path fs n p v ≡ some child)
          × (node' ≡ put node s (obj child))
    go none e = elim (Option-cases (set_nested_path empty n p v)) [
      | inl bad ↦ absurd (ground arith)
      | inr (child, ok) ↦ (empty, child, ground arith, ok, ground arith)
    ]
    go (some (obj fs)) e = elim (Option-cases (set_nested_path fs n p v)) [
      | inl bad ↦ absurd (ground arith)
      | inr (child, ok) ↦ (fs, child, ground arith, ok, ground arith)
    ]
    go (some w) e = absurd (ground arith)

-- A set path reads as the value.
set-get :
    (p : List Text) (node node' : Fields) (s : Text) (v : Json)
    → set_nested_path node s p v ≡ some node'
    → nested_get node' s p ≡ some v
unfolding set_nested_path nested_get
set-get [] node node' s v h = ground (arith, get-put node s s v, text_eq_refl s)
set-get (n ∷ p) node node' s v h =
    let (fs, child, found, inner, e) = set_inv node node' s n p v h in
    rw e (nested_get-put_self node child s n p ∙ set-get p fs child n v inner)

nested_get-empty : (m : Text) (q : List Text) → nested_get empty m q ≡ none
unfolding nested_get get
nested_get-empty m [] = refl
nested_get-empty m (n ∷ q) = refl

child-get :
    (node fs : Fields) (s m : Text) (q : List Text)
    → child_of node s ≡ some fs
    → nested_get fs m q ≡ nested_get node s (m ∷ q)
unfolding nested_get child_of
child-get node fs s m q h = ground (arith, nested_get-empty m q)

-- Every path that parts from it reads as before.
set-get_ne :
    (p q : List Text) (node node' : Fields) (s t : Text) (v : Json)
    → set_nested_path node s p v ≡ some node'
    → diverge s p t q ≡ true
    → nested_get node' t q ≡ nested_get node t q
unfolding diverge set_nested_path
set-get_ne [] q node node' s t v h d =
    let e : node' ≡ put node s v = ground arith in
    rw e (nested_get-put_ne node s t v q (ground arith))
set-get_ne (n ∷ p) [] node node' s t v h d =
    let (fs, child, found, inner, e) = set_inv node node' s n p v h in
    rw e (nested_get-put_ne node s t (obj child) [] (ground arith))
set-get_ne (n ∷ p) (m ∷ q) node node' s t v h d =
    let (fs, child, found, inner, e) = set_inv node node' s n p v h in
    elim (Bool-cases (text_eq s t)) [
      | inl same ↦
          let st : s ≡ t = (text_eq_iff s t).0 same in
          rw (e, ← st)
            (nested_get-put_self node child s m q
              ∙ set-get_ne p q fs child n m v inner (ground arith)
              ∙ child-get node fs s m q found)
      | inr other ↦ rw e (nested_get-put_ne node s t (obj child) (m ∷ q) other)
    ]

-- every dict at every depth has each key once
unfoldable mutual
  pub IsProper : Json → Type 0
  IsProper (obj fs) = AllProper fs
  IsProper null = Unit
  IsProper (bool b) = Unit
  IsProper (int n) = Unit
  IsProper (float x) = Unit
  IsProper (str t) = Unit
  IsProper (arr xs) = Unit

  pub AllProper : Fields → Type 0
  AllProper empty = Unit
  AllProper (field k v fs) = (get fs k ≡ none) × IsProper v × AllProper fs

AllProper-IsDict : (fs : Fields) → AllProper fs → IsDict fs
unfolding IsProper
AllProper-IsDict empty h = tt
AllProper-IsDict (field k v fs) h = (h.0, AllProper-IsDict fs h.2)

AllProper-get : (fs gs : Fields) (k : Text) → AllProper fs → get fs k ≡ some (obj gs) → AllProper gs
unfolding IsProper get
AllProper-get empty gs k h e = absurd (ground arith)
AllProper-get (field j v fs) gs k h e = elim (Bool-cases (text_eq j k)) [
  | inl m ↦ let same : v ≡ obj gs = ground arith in rw same at h.1
  | inr m ↦ AllProper-get fs gs k h.2 (ground arith)
]

prune_child-get :
    (node child : Fields) (s n : Text) (p : List Text)
    → IsDict node
    → nested_get child n p ≡ none
    → nested_get (prune_child node s child) s (n ∷ p) ≡ none
unfolding prune_child nested_get
prune_child-get node child s n p d h =
    ground (arith, get-remove node s s d, get-put node s s (obj child), text_eq_refl s)

delete_unreached :
    (p : List Text) (node root : Fields) (s : Text)
    → delete_nested_path node s p ≡ some (root, false)
    → root ≡ node
unfolding delete_nested_path
delete_unreached [] node root s h = absurd (ground arith)
delete_unreached (n ∷ p) node root s h = ground arith

-- one level of `delete_nested_path`, from what the levels below leave
delete_step :
    (n : Text) (p : List Text) (node root : Fields) (reached : Bool) (s : Text)
    → AllProper node
    → delete_nested_path node s (n ∷ p) ≡ some (root, reached)
    → ((fs child : Fields) (r : Bool)
        → AllProper fs
        → delete_nested_path fs n p ≡ some (child, r)
        → nested_get child n p ≡ none)
    → nested_get root s (n ∷ p) ≡ none
unfolding delete_nested_path
delete_step n p node root reached s ok h ih = go (get node s) refl
  where
    go : (o : Option Json) → get node s ≡ o → nested_get root s (n ∷ p) ≡ none
    go none e = unfold nested_get in ground arith
    go (some (obj fs)) e = elim (Option-cases (delete_nested_path fs n p)) [
      | inl bad ↦ absurd (ground arith)
      | inr ((child, true), done) ↦
          let r : root ≡ prune_child node s child = ground arith in
          rw r (
            prune_child-get node child s n p (AllProper-IsDict node ok)
              (ih fs child true (AllProper-get node fs s ok e) done))
      | inr ((child, false), done) ↦
          let r : root ≡ node = ground arith in
          let c : child ≡ fs = delete_unreached p fs child n done in
          let gone : nested_get fs n p ≡ none =
            rw c at (ih fs child false (AllProper-get node fs s ok e) done) in
          rw r (unfold nested_get in ground arith)
    ]
    go (some w) e = absurd (ground arith)

-- A deleted path reads as nothing.
delete-get :
    (p : List Text) (node root : Fields) (reached : Bool) (s : Text)
    → AllProper node
    → delete_nested_path node s p ≡ some (root, reached)
    → nested_get root s p ≡ none
unfolding delete_nested_path nested_get
delete-get [] node root reached s ok h =
    ground (arith, get-remove node s s (AllProper-IsDict node ok), text_eq_refl s)
delete-get (n ∷ p) node root reached s ok h =
    delete_step n p node root reached s ok h (λ fs child r k e. delete-get p fs child r n k e)

-- what an applied edit of a dotted key leaves to be read
abbrev pub expected : Json → Option Json
expected null = none
expected v = some v

edit_extras-get :
    (extras root : Fields) (s : Text) (p : List Text) (v : Json)
    → AllProper extras
    → edit_extras extras s p v ≡ some root
    → nested_get root s p ≡ expected v
unfolding edit_extras
edit_extras-get extras root s p null ok h = elim (Option-cases (delete_nested_path extras s p)) [
  | inl bad ↦ absurd (ground arith)
  | inr ((r, reached), e) ↦ delete-get p extras root reached s ok (ground arith)
]
edit_extras-get extras root s p (bool b) ok h = set-get p extras root s (bool b) h
edit_extras-get extras root s p (int n) ok h = set-get p extras root s (int n) h
edit_extras-get extras root s p (float x) ok h = set-get p extras root s (float x) h
edit_extras-get extras root s p (str t) ok h = set-get p extras root s (str t) h
edit_extras-get extras root s p (arr xs) ok h = set-get p extras root s (arr xs) h
edit_extras-get extras root s p (obj fs) ok h = set-get p extras root s (obj fs) h

-- Where every dict has each key once: an edit of a dotted key that applies leaves the value at its
-- path, or nothing there if the value is null, and changes no character count; one that does not
-- apply leaves the request as it was.
pub apply_provider_extras_set-get :
    (ir : InternalRequest) (key s : Text) (p : List Text) (v : Json)
    → AllProper ir.provider_extras
    → split b'.' key ≡ s ∷ p
    → let (after, delta, applied) = apply_provider_extras_set ir key v in
      (applied ≡ true → nested_get after.provider_extras s p ≡ expected v)
      × (applied ≡ false → after ≡ ir)
      × (delta ≡ pos 0)
unfolding apply_provider_extras_set
apply_provider_extras_set-get ir key s p v ok e = (
  λ h. edit_extras-get ir.provider_extras _ s p v ok (ground arith),
  λ h. ground arith,
  ground arith,
)
