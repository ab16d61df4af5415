-- ===== src/Override/Survivors.antt =====
-- The index arithmetic behind `adjust_system_index` and `adjust_blk_index`: what is left of a list
-- when the elements at some original indices are taken out, and where the others then stand.
use transport_matters.Prelude.{
  ℕ, zero, suc, ◌+◌, ◌-◌, ◌<◌, ◌≤◌, false, ◌≡◌, refl, ap, List, [], ◌∷◌, get_elem?, set, erase_idx,
  if◌then◌else◌, Bool-cases, inl, inr, arith,
}
use transport_matters.Prelude.Int.{ℤ, pos, negsuc, ◌-ℤ◌, eq_ℤ, eq_ℤ_iff, pos_part}
use transport_matters.Override.Targets.{mem_ℤ, count_below, shift_after_removals}
use transport_matters.Override.Messages.{elem_at}

abbrev pub IsNatural : ℤ → Type 0
IsNatural (pos n) = Unit
IsNatural (negsuc n) = ⊥

-- a set of indices: none twice, none negative
abbrev pub IsIndexSet : List ℤ → Type 0
IsIndexSet [] = Unit
IsIndexSet (z ∷ zs) = IsNatural z × (mem_ℤ z zs ≡ false) × IsIndexSet zs

module _ {ℓ} {A : Type ℓ} where
  -- the elements whose index, counted from `start`, is not in the set
  unfoldable pub survivors : ℕ → List ℤ → List A → List A
  survivors start removed [] = []
  survivors start removed (x ∷ xs) =
      let rest = survivors (suc start) removed xs in
      if mem_ℤ (pos start) removed then rest else x ∷ rest

  pub survivors-none : (start : ℕ) (xs : List A) → survivors start [] xs ≡ xs
  unfolding survivors
  survivors-none start [] = refl
  survivors-none start (x ∷ xs) = ap (◌∷◌ x) (survivors-none (suc start) xs)

-- how many of `count` indices from `start` on are in the set
gone : ℕ → ℕ → List ℤ → ℕ
gone start zero removed = 0
gone start (suc count) removed =
    (if mem_ℤ (pos start) removed then 1 else 0) + gone (suc start) count removed

gone-le : (start count : ℕ) (removed : List ℤ) → gone start count removed ≤ count
unfolding gone
gone-le start zero removed = omega arith
gone-le start (suc count) removed = ground (arith, gone-le (suc start) count removed)

count_below-zero : (removed : List ℤ) → IsIndexSet removed → count_below (pos 0) removed ≡ 0
unfolding count_below
count_below-zero [] h = refl
count_below-zero (pos n ∷ zs) h = ground (arith, count_below-zero zs h.2)
count_below-zero (negsuc n ∷ zs) h = absurd h.0

count_below-suc :
    (n : ℕ) (removed : List ℤ)
    → IsIndexSet removed
    → count_below (pos (suc n)) removed
      ≡ (if mem_ℤ (pos n) removed then 1 else 0) + count_below (pos n) removed
unfolding count_below
count_below-suc n [] h = omega arith
count_below-suc n (negsuc m ∷ zs) h = absurd h.0
count_below-suc n (pos m ∷ zs) h =
    ground (arith, count_below-suc n zs h.2, eq_ℤ_iff (pos m) (pos n))

count_below-gone :
    (start count : ℕ) (removed : List ℤ)
    → IsIndexSet removed
    → count_below (pos (start + count)) removed
      ≡ count_below (pos start) removed + gone start count removed
unfolding gone
count_below-gone start zero removed h =
    let e : start + 0 ≡ start = omega arith in rw e (omega arith)
count_below-gone start (suc count) removed h =
    let e : start + suc count ≡ suc start + count = omega arith in
    rw e
      (omega (arith, count_below-gone (suc start) count removed h, count_below-suc start removed h))

-- Where an index that is not in the set stands after the removals.
shift-pos :
    (i : ℕ) (removed : List ℤ)
    → IsIndexSet removed
    → shift_after_removals (pos i) removed ≡ pos (i - gone 0 i removed)
unfolding shift_after_removals ◌-ℤ◌
shift-pos i removed h =
    let e : 0 + i ≡ i = omega arith in
    let c : count_below (pos i) removed ≡ gone 0 i removed =
      omega (arith, rw e at (count_below-gone 0 i removed h), count_below-zero removed h) in
    rw c (ground (arith, gone-le 0 i removed))

-- A negative index stays negative.
shift-negsuc : (i : ℕ) (removed : List ℤ) → pos_part (shift_after_removals (negsuc i) removed) ≡ 0
unfolding shift_after_removals ◌-ℤ◌
shift-negsuc i removed = ground arith

module _ {ℓ} {A : Type ℓ} where
  survivors-get :
      (start i : ℕ) (removed : List ℤ) (xs : List A)
      → mem_ℤ (pos (start + i)) removed ≡ false
      → get_elem? (survivors start removed xs) (i - gone start i removed) ≡ get_elem? xs i
  unfolding survivors gone
  survivors-get start i removed [] h = refl
  survivors-get start zero removed (x ∷ xs) h =
      let e : start + 0 ≡ start = omega arith in
      let h' : mem_ℤ (pos start) removed ≡ false = rw e at h in rw h'
  survivors-get start (suc i) removed (x ∷ xs) h =
      let e : start + suc i ≡ suc start + i = omega arith in
      let ih = survivors-get (suc start) i removed xs (rw e at h) in
      elim (Bool-cases (mem_ℤ (pos start) removed)) [
        | inl m ↦
            let c : suc i - (1 + gone (suc start) i removed) ≡ i - gone (suc start) i removed =
              omega arith in
            rw (m, c) ih
        | inr m ↦
            let c : suc i - (0 + gone (suc start) i removed)
                ≡ suc (i - gone (suc start) i removed) =
              omega (arith, gone-le (suc start) i removed) in
            rw (m, c) ih
      ]

  survivors-set :
      (start i : ℕ) (removed : List ℤ) (xs : List A) (v : A)
      → mem_ℤ (pos (start + i)) removed ≡ false
      → set (survivors start removed xs) (i - gone start i removed) v
        ≡ survivors start removed (set xs i v)
  unfolding survivors gone
  survivors-set start i removed [] v h = refl
  survivors-set start zero removed (x ∷ xs) v h =
      let e : start + 0 ≡ start = omega arith in
      let h' : mem_ℤ (pos start) removed ≡ false = rw e at h in rw h'
  survivors-set start (suc i) removed (x ∷ xs) v h =
      let e : start + suc i ≡ suc start + i = omega arith in
      let ih = survivors-set (suc start) i removed xs v (rw e at h) in
      elim (Bool-cases (mem_ℤ (pos start) removed)) [
        | inl m ↦
            let c : suc i - (1 + gone (suc start) i removed) ≡ i - gone (suc start) i removed =
              omega arith in
            rw (m, c) ih
        | inr m ↦
            let c : suc i - (0 + gone (suc start) i removed)
                ≡ suc (i - gone (suc start) i removed) =
              omega (arith, gone-le (suc start) i removed) in
            rw (m, c) (ap (◌∷◌ x) ih)
      ]

  survivors-before :
      (start k : ℕ) (removed : List ℤ) (xs : List A)
      → k < start
      → survivors start (pos k ∷ removed) xs ≡ survivors start removed xs
  unfolding survivors
  survivors-before start k removed [] h = refl
  survivors-before start k removed (x ∷ xs) h =
      ground (arith, survivors-before (suc start) k removed xs (omega arith))

  survivors-erase :
      (start i : ℕ) (removed : List ℤ) (xs : List A)
      → mem_ℤ (pos (start + i)) removed ≡ false
      → erase_idx (survivors start removed xs) (i - gone start i removed)
        ≡ survivors start (pos (start + i) ∷ removed) xs
  unfolding survivors gone
  survivors-erase start i removed [] h = refl
  survivors-erase start zero removed (x ∷ xs) h =
      let e : start + 0 ≡ start = omega arith in
      let h' : mem_ℤ (pos start) removed ≡ false = rw e at h in
      ground (arith, h', survivors-before (suc start) (start + 0) removed xs)
  survivors-erase start (suc i) removed (x ∷ xs) h =
      let e : start + suc i ≡ suc start + i = omega arith in
      let other : eq_ℤ (pos (suc start + i)) (pos start) ≡ false = ground arith in
      let ih = survivors-erase (suc start) i removed xs (rw e at h) in
      elim (Bool-cases (mem_ℤ (pos start) removed)) [
        | inl m ↦
            let c : suc i - (1 + gone (suc start) i removed) ≡ i - gone (suc start) i removed =
              omega arith in
            rw (e, other, m, c) ih
        | inr m ↦
            let c : suc i - (0 + gone (suc start) i removed)
                ≡ suc (i - gone (suc start) i removed) =
              omega (arith, gone-le (suc start) i removed) in
            rw (e, other, m, c) (ap (◌∷◌ x) ih)
      ]

  module _ (removed : List ℤ) (xs : List A) (set_ok : IsIndexSet removed) where
    -- The shifted index finds, among the survivors, the element of the original index, and nothing
    -- for an index that is negative or past the end.
    pub elem_at-shift :
        (z : ℤ)
        → mem_ℤ z removed ≡ false
        → elem_at (survivors 0 removed xs) (shift_after_removals z removed) ≡ elem_at xs z
    elem_at-shift (pos i) h =
        let e : 0 + i ≡ i = omega arith in
        rw (shift-pos i removed set_ok) (survivors-get 0 i removed xs (rw e h))
    elem_at-shift (negsuc i) h = unfold shift_after_removals ◌-ℤ◌ in ground arith

    -- Taking that element out leaves what is left without that index too.
    pub erase_idx-shift :
        (i : ℕ)
        → mem_ℤ (pos i) removed ≡ false
        → erase_idx (survivors 0 removed xs) (pos_part (shift_after_removals (pos i) removed))
          ≡ survivors 0 (pos i ∷ removed) xs
    erase_idx-shift i h =
        let e : 0 + i ≡ i = omega arith in
        rw (shift-pos i removed set_ok) (rw e at (survivors-erase 0 i removed xs (rw e h)))

    -- Writing it is a write at the original index.
    pub set-shift :
        (i : ℕ) (v : A)
        → mem_ℤ (pos i) removed ≡ false
        → set (survivors 0 removed xs) (pos_part (shift_after_removals (pos i) removed)) v
          ≡ survivors 0 removed (set xs i v)
    set-shift i v h =
        let e : 0 + i ≡ i = omega arith in
        rw (shift-pos i removed set_ok) (survivors-set 0 i removed xs v (rw e h))
