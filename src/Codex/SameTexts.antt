-- ===== src/Codex/SameTexts.antt =====
-- Two dicts of open texts that answer every lookup alike: what the engine computes from them is the
-- same, and sorted they are one. A cursor holds the sorted dicts.
use transport_matters.Prelude.{
  suc, ◌+◌, true, false, ◌≡◌, refl, sym, ◌∙◌, inl, inr, none, some, [], ◌∷◌, Text, text_eq,
  text_eq_iff, text_eq_refl, length, if◌then◌else◌, sum_of, Bool-cases, arith, text_leb,
  text_leb_antisym, text_leb_trans, text_leb_total,
}
use transport_matters.Prelude.Dict.{
  get, put, remove, IsDict, get-put, get-remove, put-IsDict, remove-IsDict, text_key,
}
use transport_matters.Codex.OpenTexts.{OpenTexts, open_text}
use transport_matters.Codex.Events.{insert_text, sort_cursor_map}
use transport_matters.Codex.EventData.{open_assistant_text_chars}

pub record Same (d e : OpenTexts) : Type 0 where
  pub left : IsDict d
  pub right : IsDict e
  pub lookups : (k : Text) → get d k ≡ get e k

pub Same-put : (d e : OpenTexts) (k v : Text) → Same d e → Same (put d k v) (put e k v)
Same-put d e k v h = record {
  left = put-IsDict d k v h.left;
  right = put-IsDict e k v h.right;
  lookups = λ j. rw (get-put d k j v, get-put e k j v, h.lookups j) refl;
}

pub Same-remove : (d e : OpenTexts) (k : Text) → Same d e → Same (remove d k) (remove e k)
Same-remove d e k h = record {
  left = remove-IsDict d k h.left;
  right = remove-IsDict e k h.right;
  lookups = λ j. rw (get-remove d k j h.left, get-remove e k j h.right, h.lookups j) refl;
}

pub open_text-Same : (d e : OpenTexts) (k : Text) → Same d e → open_text d k ≡ open_text e k
unfolding open_text
open_text-Same d e k h = rw (h.lookups k) refl

-- the sum and the number of the entries without one
open_chars-remove :
    (d : OpenTexts) (k v : Text)
    → get d k ≡ some v
    → (sum_of (λ e. length e.1) d ≡ length v + sum_of (λ e. length e.1) (remove d k))
      × (length d ≡ suc (length (remove d k)))
unfolding get remove
open_chars-remove [] k v e = cc
open_chars-remove ((j, w) ∷ d) k v e = ground (arith, open_chars-remove d k v)

pub measures-Same :
    (d e : OpenTexts)
    → Same d e
    → (open_assistant_text_chars d ≡ open_assistant_text_chars e) × (length d ≡ length e)
unfolding open_assistant_text_chars get
measures-Same [] [] h = (refl, refl)
measures-Same [] ((k, v) ∷ e) h = ground (arith, h.lookups k, text_eq_refl k)
measures-Same ((k, v) ∷ d) e h =
    let found : get e k ≡ some v = ground (arith, h.lookups k, text_eq_refl k) in
    let rest : Same d (remove e k) = record {
      left = h.left.1;
      right = remove-IsDict e k h.right;
      lookups =
          λ j. ground (arith, h.lookups j, get-remove e k j h.right, text_eq_iff k j, h.left.0);
    } in
    ground (arith, measures-Same d (remove e k) rest, open_chars-remove e k v found)

get-insert_text :
    (k v : Text) (d : OpenTexts) (j : Text)
    → get d k ≡ none
    → get (insert_text k v d) j ≡ (if text_eq k j then some v else get d j)
unfolding insert_text get
get-insert_text k v [] j h = refl
get-insert_text k v ((i, w) ∷ d) j h =
    ground (arith, get-insert_text k v d j, text_eq_iff i k, text_eq_iff i j, text_eq_iff k j)

insert_text-IsDict :
    (k v : Text) (d : OpenTexts) → get d k ≡ none → IsDict d → IsDict (insert_text k v d)
unfolding insert_text get
insert_text-IsDict k v [] h n = (refl, tt)
insert_text-IsDict k v ((i, w) ∷ d) h n =
    ground
      (arith, insert_text-IsDict k v d, get-insert_text k v d i, text_eq_iff i k, text_eq_iff k i)

pub Same-sort : (d : OpenTexts) → IsDict d → Same d (sort_cursor_map d)
unfolding sort_cursor_map get
Same-sort [] h = record { left = tt; right = tt; lookups = λ k. refl }
Same-sort ((k, v) ∷ d) h =
    let s = Same-sort d h.1 in
    let fresh : get (sort_cursor_map d) k ≡ none = sym (s.lookups k) ∙ h.0 in
    record {
      left = h;
      right = insert_text-IsDict k v (sort_cursor_map d) fresh s.right;
      lookups = λ j. ground (arith, get-insert_text k v (sort_cursor_map d) j fresh, s.lookups j);
    }

-- no key of the dict is before `k`
abbrev IsAbove : Text → OpenTexts → Type 0
IsAbove k [] = Unit
IsAbove k ((j, w) ∷ d) = (text_leb k j ≡ true) × IsAbove k d

abbrev IsSorted : OpenTexts → Type 0
IsSorted [] = Unit
IsSorted ((k, v) ∷ d) = IsAbove k d × IsSorted d

IsAbove-trans : (k j : Text) (d : OpenTexts) → text_leb k j ≡ true → IsAbove j d → IsAbove k d
IsAbove-trans k j [] h a = tt
IsAbove-trans k j ((i, w) ∷ d) h a = (text_leb_trans k j i h a.0, IsAbove-trans k j d h a.1)

insert_text-IsAbove :
    (i k v : Text) (d : OpenTexts)
    → text_leb i k ≡ true
    → IsAbove i d
    → IsAbove i (insert_text k v d)
unfolding insert_text
insert_text-IsAbove i k v [] h a = (h, tt)
insert_text-IsAbove i k v ((j, w) ∷ d) h a = ground (arith, insert_text-IsAbove i k v d h a.1)

insert_text-IsSorted : (k v : Text) (d : OpenTexts) → IsSorted d → IsSorted (insert_text k v d)
unfolding insert_text
insert_text-IsSorted k v [] s = (tt, tt)
insert_text-IsSorted k v ((j, w) ∷ d) s = elim (Bool-cases (text_leb k j)) [
  | inl e ↦ rw (e, insert_text) ((e, IsAbove-trans k j d e s.0), s)
  | inr e ↦
      let back : text_leb j k ≡ true = ground (arith, text_leb_total j k, e) in
      rw (e, insert_text) (insert_text-IsAbove j k v d back s.0, insert_text-IsSorted k v d s.1)
]

sort_cursor_map-IsSorted : (d : OpenTexts) → IsSorted (sort_cursor_map d)
unfolding sort_cursor_map
sort_cursor_map-IsSorted [] = tt
sort_cursor_map-IsSorted ((k, v) ∷ d) =
    insert_text-IsSorted k v (sort_cursor_map d) (sort_cursor_map-IsSorted d)

get-IsAbove : (k j v : Text) (d : OpenTexts) → IsAbove k d → get d j ≡ some v → text_leb k j ≡ true
unfolding get
get-IsAbove k j v [] a e = cc
get-IsAbove k j v ((i, w) ∷ d) a e = ground (arith, get-IsAbove k j v d a.1, text_eq_iff i j)

-- the smallest key of two sorted dicts with the same lookups
first_key :
    (k v j w : Text) (d e : OpenTexts)
    → IsAbove k d
    → IsAbove j e
    → Same ((k, v) ∷ d) ((j, w) ∷ e)
    → k ≡ j
unfolding get
first_key k v j w d e a b h = elim (Bool-cases (text_eq k j)) [
  | inl q ↦ (text_eq_iff k j).0 q
  | inr n ↦
      let m : text_eq j k ≡ false = ground (arith, text_eq_iff k j, text_eq_iff j k, n) in
      let there : get e k ≡ some v = ground (arith, h.lookups k, text_eq_refl k, m) in
      let here : get d j ≡ some w = ground (arith, h.lookups j, text_eq_refl j, n) in
      text_leb_antisym k j (get-IsAbove k j w d a here) (get-IsAbove j k v e b there)
]

sorted_unique : (d e : OpenTexts) → IsSorted d → IsSorted e → Same d e → d ≡ e
unfolding get
sorted_unique [] [] s t h = refl
sorted_unique [] ((j, w) ∷ e) s t h = ground (arith, h.lookups j, text_eq_refl j)
sorted_unique ((k, v) ∷ d) [] s t h = ground (arith, h.lookups k, text_eq_refl k)
sorted_unique ((k, v) ∷ d) ((j, w) ∷ e) s t h =
    let q = first_key k v j w d e s.0 t.0 h in
    let rest : Same d e = record {
      left = h.left.1;
      right = h.right.1;
      lookups = λ i.
          ground (arith, h.lookups i, text_eq_iff k i, text_eq_iff j i, q, h.left.0, h.right.0);
    } in
    let value : v ≡ w = ground (arith, h.lookups k, text_eq_refl k, text_eq_iff j k, q) in
    ground (arith, q, value, sorted_unique d e s.1 t.1 rest)

pub sort-Same : (d e : OpenTexts) → Same d e → sort_cursor_map d ≡ sort_cursor_map e
sort-Same d e h =
    let a = Same-sort d h.left in
    let b = Same-sort e h.right in
    sorted_unique (sort_cursor_map d) (sort_cursor_map e) (sort_cursor_map-IsSorted d)
      (sort_cursor_map-IsSorted e)
      (record {
        left = a.right;
        right = b.right;
        lookups = λ k. sym (a.lookups k) ∙ h.lookups k ∙ b.lookups k;
      })
