-- ===== src/Override/Targets/RoundTrip.antt =====
-- Targets are printed and parsed one to one.
use transport_matters.Prelude.{
  ℕ, zero, suc, ◌+◌, ◌-◌, ◌*◌, ◌<◌, ◌≤◌, true, ◌≡◌, ◌↔◌, refl, ap, sym, ◌∙◌, Option, none, some, [],
  ◌∷◌, ◌++◌, Text, ◌==◌, inl, inr, Bool-cases, arith,
}
use transport_matters.Prelude.Int.{ℤ, pos, negsuc}
use transport_matters.Prelude.Decimal.{
  int_text, nat_text, digits_value, is_positive, digits_value-nat_text, nat_text-digits_value,
  is_positive-nat_text, nat_text_one,
}
use transport_matters.Override.Targets.{
  is_index, int_value, negate, parse_prefixed, parse_prefixed_int, as_index, parse_system_index,
  system_target, system_prefix,
}

pub parse_prefixed-append : (p t : Text) → parse_prefixed (p ++ t) p ≡ some t
unfolding parse_prefixed
parse_prefixed-append [] t = refl
parse_prefixed-append (c ∷ p) t = ground (arith, parse_prefixed-append p t)

pub parse_prefixed_inv : (t p r : Text) → parse_prefixed t p ≡ some r → p ++ r ≡ t
unfolding parse_prefixed
parse_prefixed_inv t [] r h = cc
parse_prefixed_inv [] (c ∷ p) r h = cc
parse_prefixed_inv (d ∷ t) (c ∷ p) r h = ground (arith, parse_prefixed_inv t p r)

-- a positive number's text is an index, unless a sign stands before it
is_index_of_positive : (t : Text) → is_positive t ≡ true → is_index t ≡ true
unfolding is_index
is_index_of_positive [] h = cc
is_index_of_positive (c ∷ []) h = ground arith
is_index_of_positive (c ∷ d ∷ cs) h = ground arith

int_value_of_positive : (t : Text) → is_positive t ≡ true → int_value t ≡ pos (digits_value 0 t)
unfolding int_value is_positive
int_value_of_positive [] h = cc
int_value_of_positive (c ∷ cs) h = ground arith

is_index_of_negative : (t : Text) → is_positive t ≡ true → is_index (45 ∷ t) ≡ true
unfolding is_index
is_index_of_negative [] h = cc
is_index_of_negative (c ∷ cs) h = h

pub is_index-int_text : (z : ℤ) → is_index (int_text z) ≡ true
unfolding int_text
is_index-int_text (pos zero) = rw (nat_text_one 0 (omega arith)) (unfold is_index in refl)
is_index-int_text (pos (suc n)) =
    is_index_of_positive (nat_text (suc n)) (is_positive-nat_text (suc n) (omega arith))
is_index-int_text (negsuc n) =
    is_index_of_negative (nat_text (n + 1)) (is_positive-nat_text (n + 1) (omega arith))

pub int_value-int_text : (z : ℤ) → int_value (int_text z) ≡ z
unfolding int_text
int_value-int_text (pos zero) = rw (nat_text_one 0 (omega arith)) (unfold int_value in refl)
int_value-int_text (pos (suc n)) =
    int_value_of_positive (nat_text (suc n)) (is_positive-nat_text (suc n) (omega arith))
    ∙ ap pos (digits_value-nat_text (suc n))
int_value-int_text (negsuc n) =
    unfold int_value in rw (digits_value-nat_text (n + 1)) (ground arith)

nat_text_of_positive : (t : Text) → is_positive t ≡ true → nat_text (digits_value 0 t) ≡ t
unfolding is_positive digits_value
nat_text_of_positive [] h = cc
nat_text_of_positive (c ∷ cs) h =
    nat_text-digits_value (0 * 10 + (c - 48)) cs (ground arith) (ground arith)
    ∙ rw (nat_text_one (0 * 10 + (c - 48)) (ground arith)) (ap (λ (d : ℕ). d ∷ cs) (ground arith))

le-digits_value : (acc : ℕ) (t : Text) → acc ≤ digits_value acc t
unfolding digits_value
le-digits_value acc [] = omega arith
le-digits_value acc (c ∷ cs) = omega (arith, le-digits_value (acc * 10 + (c - 48)) cs)

positive_value : (t : Text) → is_positive t ≡ true → 0 < digits_value 0 t
unfolding is_positive digits_value
positive_value [] h = cc
positive_value (c ∷ cs) h = ground (arith, le-digits_value (0 * 10 + (c - 48)) cs)

int_text_of_positive : (t : Text) → is_positive t ≡ true → int_text (int_value t) ≡ t
int_text_of_positive t h =
    rw (int_value_of_positive t h) (unfold int_text in nat_text_of_positive t h)

negate_text : (n : ℕ) (t : Text) → 0 < n → nat_text n ≡ t → int_text (negate n) ≡ 45 ∷ t
negate_text zero t h e = elim h [ ]
negate_text (suc n) t h e =
    let value : negate (suc n) ≡ negsuc n = ground arith in
    let next : n + 1 ≡ suc n = omega arith in
    rw value (unfold int_text in rw next (ap (λ (u : Text). 45 ∷ u) e))

int_text_of_negative : (t : Text) → is_positive t ≡ true → int_text (int_value (45 ∷ t)) ≡ 45 ∷ t
unfolding int_value
int_text_of_negative t h =
    negate_text (digits_value 0 t) t (positive_value t h) (nat_text_of_positive t h)

zero_text : (c : ℕ) → c ≡ 48 → int_text (int_value (c ∷ [])) ≡ c ∷ []
zero_text c e = rw e (rw (nat_zero) (unfold int_text in nat_text_one 0 (omega arith)))
  where
    nat_zero : int_value (48 ∷ []) ≡ pos 0
    nat_zero = unfold int_value digits_value in refl

-- An index is printed back as it was written: no two texts stand for one index.
pub int_text-int_value : (t : Text) → is_index t ≡ true → int_text (int_value t) ≡ t
unfolding is_index
int_text-int_value [] h = cc
int_text-int_value (c ∷ []) h = elim (Bool-cases (c == 48)) [
  | inl e ↦ zero_text c (ground arith)
  | inr e ↦ int_text_of_positive (c ∷ []) (ground arith)
]
int_text-int_value (c ∷ d ∷ cs) h = elim (Bool-cases (c == 45)) [
  | inl e ↦
      let same : c ≡ 45 = ground arith in rw same (int_text_of_negative (d ∷ cs) (ground arith))
  | inr e ↦ int_text_of_positive (c ∷ d ∷ cs) (ground arith)
]

-- Parsing what `system_target` builds gives the index.
pub parse_system_index-system_target : (z : ℤ) → parse_system_index (system_target z) ≡ some z
unfolding parse_system_index system_target
parse_system_index-system_target z = ground (arith, is_index-int_text z, int_value-int_text z)

as_index_inv : (o : Option Text) (z : ℤ) → as_index o ≡ some z → o ≡ some (int_text z)
unfolding as_index
as_index_inv none z h = cc
as_index_inv (some raw) z h = ground (arith, int_text-int_value raw)

parse_prefixed_int_inv :
    (t p : Text) (z : ℤ) → parse_prefixed_int t p ≡ some z → p ++ int_text z ≡ t
parse_prefixed_int_inv t p z h =
    parse_prefixed_inv t p (int_text z)
      (as_index_inv (parse_prefixed t p) z (unfold parse_prefixed_int in h))

-- The texts that parse as a system target are exactly those that `system_target` builds, and each
-- stands for one index.
pub parse_system_index_iff :
    (t : Text) (z : ℤ) → (parse_system_index t ≡ some z) ↔ (t ≡ system_target z)
parse_system_index_iff t z = (
  λ h. sym (unfold parse_system_index system_target in parse_prefixed_int_inv t system_prefix z h),
  λ e. rw e (parse_system_index-system_target z),
)
