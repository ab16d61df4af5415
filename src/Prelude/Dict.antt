-- ===== src/Prelude/Dict.antt =====
-- Python's `dict` as an association list in insertion order, over keys with a Boolean equality.
-- An assignment to a key that is present keeps its place; a new key goes to the end.
use Prim.Native.Nat.{ℕ}
use mathlib.Core.Path.{◌≡◌, refl, sym, ap, ◌∙◌}
use mathlib.Core.Logic.{◌↔◌, ◌⊎◌, inl, inr, ◌≢◌}
use mathlib.Core.Bool.{Bool, true, false}
use mathlib.Core.Option.{Option, none, some}
use mathlib.Core.List.{List, [], ◌∷◌}
use native.Mathlib.Omega.{arith}
use transport_matters.Prelude.Tests.{◌==◌, ==_iff, if◌then◌else◌, is_some, Bool-cases}
use transport_matters.Prelude.Chars.{Text, text_eq, text_eq_iff}

pub record Eq {ℓ} (K : Type ℓ) : Type ℓ where
  pub beq : K → K → Bool
  pub beq_iff : (a b : K) → (beq a b ≡ true) ↔ (a ≡ b)

instance abbrev pub text_key : Eq Text
text_key = record { beq = text_eq; beq_iff = text_eq_iff }

instance abbrev pub nat_key : Eq ℕ
nat_key = record { beq = ◌==◌; beq_iff = ==_iff }

abbrev pub pair_eq {ℓ} : {K : Type ℓ} → (K → K → Bool) → K × K → K × K → Bool
pair_eq eq (a, b) (c, d) = if eq a c then eq b d else false

pub pair_eq_iff : (p q : Text × Text) → (pair_eq text_eq p q ≡ true) ↔ (p ≡ q)
pair_eq_iff (a, b) (c, d) = ground (arith, text_eq_iff a c, text_eq_iff b d)

instance abbrev pub pair_key : Eq (Text × Text)
pair_key = record { beq = pair_eq text_eq; beq_iff = pair_eq_iff }

abbrev pub Dict {ℓ} : Type ℓ → Type ℓ → Type ℓ
Dict K V = List (K × V)

module _ {ℓ} {K V : Type ℓ} ⦃e : Eq K⦄ where
  -- `d.get(k)`
  unfoldable pub get : Dict K V → K → Option V
  get [] k = none
  get ((j, v) ∷ d) k = if e.beq j k then some v else get d k

  -- `d[k] = v`
  unfoldable pub put : Dict K V → K → V → Dict K V
  put [] k v = (k, v) ∷ []
  put ((j, w) ∷ d) k v = if e.beq j k then (j, v) ∷ d else (j, w) ∷ put d k v

  -- `d.pop(k, None)`
  unfoldable pub remove : Dict K V → K → Dict K V
  remove [] k = []
  remove ((j, w) ∷ d) k = if e.beq j k then d else (j, w) ∷ remove d k

  -- `k in d`
  abbrev pub contains : Dict K V → K → Bool
  contains d k = is_some (get d k)

  -- every key stands once
  abbrev pub IsDict : Dict K V → Type ℓ
  IsDict [] = Unit
  IsDict ((j, v) ∷ d) = (get d j ≡ none) × IsDict d

  pub get-put :
      (d : Dict K V) (k j : K) (v : V) → get (put d k v) j ≡ (if e.beq k j then some v else get d j)
  unfolding get put
  get-put [] k j v = refl
  get-put ((i, w) ∷ d) k j v =
      ground (arith, get-put d k j v, e.beq_iff i k, e.beq_iff i j, e.beq_iff k j)

  pub get-remove :
      (d : Dict K V) (k j : K)
      → IsDict d
      → get (remove d k) j ≡ (if e.beq k j then none else get d j)
  unfolding get remove
  get-remove [] k j h = ground arith
  get-remove ((i, w) ∷ d) k j h =
      ground (arith, get-remove d k j h.1, e.beq_iff i k, e.beq_iff i j, e.beq_iff k j)

  pub put-IsDict : (d : Dict K V) (k : K) (v : V) → IsDict d → IsDict (put d k v)
  unfolding get put
  put-IsDict [] k v h = (refl, tt)
  put-IsDict ((i, w) ∷ d) k v h =
      ground (arith, put-IsDict d k v h.1, get-put d k i v, e.beq_iff i k, e.beq_iff k i)

  pub remove-IsDict : (d : Dict K V) (k : K) → IsDict d → IsDict (remove d k)
  unfolding get remove
  remove-IsDict [] k h = tt
  remove-IsDict ((i, w) ∷ d) k h = ground (arith, remove-IsDict d k h.1, get-remove d k i h.1)

  pub get-put_same : (d : Dict K V) (k : K) (v : V) → get (put d k v) k ≡ some v
  get-put_same d k v = ground (arith, get-put d k k v, (e.beq_iff k k).1 refl)

  pub get-put_other : (d : Dict K V) (k j : K) (v : V) → (k ≢ j) → get (put d k v) j ≡ get d j
  get-put_other d k j v n = elim (Bool-cases (e.beq k j)) [
    | inl q ↦ absurd (n ((e.beq_iff k j).0 q))
    | inr q ↦ rw (get-put d k j v, q) refl
  ]

  -- what is found after an assignment is new, or was there before under another key
  pub get-put_found :
      (d : Dict K V) (k j : K) (v w : V)
      → get (put d k v) j ≡ some w
      → ((k ≡ j) × (v ≡ w)) ⊎ ((k ≢ j) × (get d j ≡ some w))
  get-put_found d k j v w h = elim (Bool-cases (e.beq k j)) [
    | inl q ↦
        let found : some v ≡ some w = ground (arith, get-put d k j v, q, h) in
        inl ((e.beq_iff k j).0 q, cc)
    | inr q ↦
        inr
          (λ same. ground (arith, q, (e.beq_iff k j).1 same), ground (arith, get-put d k j v, q, h))
  ]

  pub get-remove_found :
      (d : Dict K V) (k j : K) (w : V)
      → IsDict d
      → get (remove d k) j ≡ some w
      → (k ≢ j) × (get d j ≡ some w)
  get-remove_found d k j w i h = elim (Bool-cases (e.beq k j)) [
    | inl q ↦ ground (arith, get-remove d k j i, q, h)
    | inr q ↦ (
      λ same. ground (arith, q, (e.beq_iff k j).1 same),
      ground (arith, get-remove d k j i, q, h),
    )
  ]

  pub get-remove_other :
      (d : Dict K V) (k j : K) → IsDict d → (k ≢ j) → get (remove d k) j ≡ get d j
  get-remove_other d k j i n = elim (Bool-cases (e.beq k j)) [
    | inl q ↦ absurd (n ((e.beq_iff k j).0 q))
    | inr q ↦ rw (get-remove d k j i, q) refl
  ]

  -- a new key that is removed again
  pub get-remove-put :
      (d : Dict K V) (k j : K) (v : V)
      → IsDict d
      → get d k ≡ none
      → get (remove (put d k v) k) j ≡ get d j
  get-remove-put d k j v i h = elim (Bool-cases (e.beq k j)) [
    | inl q ↦
        let gone : get (remove (put d k v) k) j ≡ none =
          rw (get-remove (put d k v) k j (put-IsDict d k v i), q) refl in
        gone ∙ sym h ∙ ap (get d) ((e.beq_iff k j).0 q)
    | inr q ↦ rw (get-remove (put d k v) k j (put-IsDict d k v i), q, get-put d k j v, q) refl
  ]

  pub get-remove_absent :
      (d : Dict K V) (k j : K) → IsDict d → get d k ≡ none → get (remove d k) j ≡ get d j
  get-remove_absent d k j i h = elim (Bool-cases (e.beq k j)) [
    | inl q ↦
        let gone : get (remove d k) j ≡ none = rw (get-remove d k j i, q) refl in
        gone ∙ sym h ∙ ap (get d) ((e.beq_iff k j).0 q)
    | inr q ↦ rw (get-remove d k j i, q) refl
  ]

  pub get-put_again :
      (d : Dict K V) (k j : K) (v : V) → get d k ≡ some v → get (put d k v) j ≡ get d j
  get-put_again d k j v h = elim (Bool-cases (e.beq k j)) [
    | inl q ↦
        let found : get (put d k v) j ≡ some v = rw (get-put d k j v, q) refl in
        found ∙ sym h ∙ ap (get d) ((e.beq_iff k j).0 q)
    | inr q ↦ rw (get-put d k j v, q) refl
  ]
