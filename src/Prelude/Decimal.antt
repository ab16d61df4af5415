-- ===== src/Prelude/Decimal.antt =====
-- `str(n)` and `int(text)` of Python on decimal texts.
use Prim.Native.Nat.{ℕ, zero, suc, ◌+◌, ◌-◌, ◌*◌, ◌/◌, ◌%◌, ◌<◌}
use mathlib.Core.Path.{◌≡◌, refl, ap, sym, ◌∙◌}
use mathlib.Core.Bool.{Bool, true, false, ◌&&◌}
use mathlib.Core.List.{[], ◌∷◌, ◌++◌, append_assoc}
use mathlib.Core.Logic.{inl, inr}
use native.Mathlib.Omega.{arith}
use transport_matters.Prelude.Tests.{ltb, leb, Bool-cases, if◌then◌else◌}
use transport_matters.Prelude.Lists.{all, all-append}
use transport_matters.Prelude.Chars.{Text}
use transport_matters.Prelude.Int.{ℤ, pos, negsuc}

abbrev pub is_digit : ℕ → Bool
is_digit c = leb 48 c && leb c 57

-- `fuel` bounds the number of digits
print_from : ℕ → ℕ → Text
print_from zero n = []
print_from (suc fuel) n =
    let front = print_from fuel (n / 10) in
    if ltb n 10 then (48 + n) ∷ [] else front ++ (48 + n % 10) ∷ []

-- `str(n)` of a natural number; it has fewer digits than `n + 1`
unfoldable pub nat_text : ℕ → Text
unfolding print_from
nat_text n = print_from (suc n) n

-- `int(text)` of a text of digits, read from the left
unfoldable pub digits_value : ℕ → Text → ℕ
digits_value acc [] = acc
digits_value acc (c ∷ cs) = digits_value (acc * 10 + (c - 48)) cs

-- `str(z)`
unfoldable pub int_text : ℤ → Text
unfolding nat_text
int_text (pos n) = nat_text n
int_text (negsuc n) = 45 ∷ nat_text (n + 1)

print_from_fuel : (f g n : ℕ) → n < f → n < g → print_from f n ≡ print_from g n
unfolding print_from
print_from_fuel zero g n h k = elim h [ ]
print_from_fuel (suc f) zero n h k = elim k [ ]
print_from_fuel (suc f) (suc g) n h k = elim (Bool-cases (ltb n 10)) [
  | inl small ↦ rw small
  | inr big ↦ rw big (
      ap (λ t. t ++ (48 + n % 10) ∷ [])
        (print_from_fuel f g (n / 10) (ground arith) (ground arith)))
]

-- a digit more at the right end
pub nat_text_step : (n d : ℕ) → 0 < n → d < 10 → nat_text (n * 10 + d) ≡ nat_text n ++ (48 + d) ∷ []
unfolding nat_text
nat_text_step n d h k =
    let big : ltb (n * 10 + d) 10 ≡ false = ground arith in
    let front : (n * 10 + d) / 10 ≡ n = omega arith in
    let last : (n * 10 + d) % 10 ≡ d = omega arith in
    rw (big, front, last)
      (ap (λ t. t ++ (48 + d) ∷ [])
        (print_from_fuel (n * 10 + d) (suc n) n (omega arith) (omega arith)))

pub digits_value-snoc :
    (acc c : ℕ) (cs : Text) → digits_value acc (cs ++ c ∷ []) ≡ digits_value acc cs * 10 + (c - 48)
unfolding digits_value
digits_value-snoc acc c [] = refl
digits_value-snoc acc c (d ∷ cs) = digits_value-snoc (acc * 10 + (d - 48)) c cs

digits_value-print_from : (f n : ℕ) → n < f → digits_value 0 (print_from f n) ≡ n
unfolding print_from
digits_value-print_from zero n h = elim h [ ]
digits_value-print_from (suc f) n h = elim (Bool-cases (ltb n 10)) [
  | inl small ↦ rw small (unfold digits_value in omega arith)
  | inr big ↦
      rw (big, digits_value-snoc)
        (rw (digits_value-print_from f (n / 10) (ground arith)) (omega arith))
]

-- Reading back a printed number gives the number.
pub digits_value-nat_text : (n : ℕ) → digits_value 0 (nat_text n) ≡ n
unfolding nat_text
digits_value-nat_text n = digits_value-print_from (suc n) n (omega arith)

-- Printing what was read: digits after a number that is not 0 are kept as they stand.
pub nat_text-digits_value :
    (n : ℕ) (cs : Text)
    → 0 < n
    → all is_digit cs ≡ true
    → nat_text (digits_value n cs) ≡ nat_text n ++ cs
unfolding digits_value
nat_text-digits_value n [] h k = sym (append-nil-text (nat_text n))
  where
    append-nil-text : (t : Text) → t ++ [] ≡ t
    append-nil-text [] = refl
    append-nil-text (x ∷ xs) = ap (◌∷◌ x) (append-nil-text xs)
nat_text-digits_value n (c ∷ cs) h k =
    nat_text-digits_value (n * 10 + (c - 48)) cs (omega arith) (ground arith)
    ∙ rw (nat_text_step n (c - 48) h (ground arith), append_assoc)
        (let e : 48 + (c - 48) ≡ c = ground arith in rw e)

-- `[1-9][0-9]*`, matched against the whole text
unfoldable pub is_positive : Text → Bool
is_positive [] = false
is_positive (c ∷ cs) = leb 49 c && leb c 57 && all is_digit cs

is_positive-snoc :
    (t : Text) (d : ℕ) → is_positive t ≡ true → d < 10 → is_positive (t ++ (48 + d) ∷ []) ≡ true
unfolding is_positive
is_positive-snoc [] d h k = cc
is_positive-snoc (c ∷ cs) d h k = ground (arith, all-append is_digit cs ((48 + d) ∷ []))

is_positive-print_from : (f n : ℕ) → n < f → 0 < n → is_positive (print_from f n) ≡ true
unfolding print_from
is_positive-print_from zero n h k = elim h [ ]
is_positive-print_from (suc f) n h k = elim (Bool-cases (ltb n 10)) [
  | inl small ↦ rw small (unfold is_positive in ground arith)
  | inr big ↦ rw big (
      is_positive-snoc (print_from f (n / 10)) (n % 10)
        (is_positive-print_from f (n / 10) (ground arith) (ground arith)) (omega arith))
]

-- A printed positive number is a text of digits that does not begin with 0.
pub is_positive-nat_text : (n : ℕ) → 0 < n → is_positive (nat_text n) ≡ true
unfolding nat_text
is_positive-nat_text n h = is_positive-print_from (suc n) n (omega arith) h

pub nat_text_one : (d : ℕ) → d < 10 → nat_text d ≡ (48 + d) ∷ []
unfolding nat_text
nat_text_one d h = let e : ltb d 10 ≡ true = ground arith in rw e
