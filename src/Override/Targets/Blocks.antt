-- ===== src/Override/Targets/Blocks.antt =====
-- The target of a message block, `msg:{idx}:blk:{idx}`, is printed and parsed one to one.
use transport_matters.Prelude.{
  ℕ, zero, suc, ◌+◌, Bool, true, not, ◌≡◌, ◌↔◌, refl, ap, sym, ◌∙◌, some, List, [], ◌∷◌, ◌++◌, Text,
  codes, text_eq, text_eq_iff, ◌==◌, all, inl, inr, Bool-cases, arith,
}
use transport_matters.Prelude.Int.{ℤ, pos, negsuc}
use transport_matters.Prelude.Decimal.{
  int_text, nat_text, is_positive, is_digit, is_positive-nat_text,
}
use transport_matters.Override.Targets.{
  split, onto, message_parts, parse_message_target, message_block_target,
}
use transport_matters.Override.Targets.RoundTrip.{
  is_index-int_text, int_value-int_text, int_text-int_value,
}

-- No separator occurs in the text.
abbrev free_of : ℕ → Text → Bool
free_of sep = all (λ c. not (c == sep))

split_free : (sep : ℕ) (t : Text) → free_of sep t ≡ true → split sep t ≡ t ∷ []
unfolding split
split_free sep [] h = refl
split_free sep (c ∷ cs) h = ground (arith, split_free sep cs)

split-append :
    (sep : ℕ) (s t : Text) → free_of sep s ≡ true → split sep (s ++ sep ∷ t) ≡ s ∷ split sep t
unfolding split
split-append sep [] t h = ground arith
split-append sep (c ∷ cs) t h = ground (arith, split-append sep cs t)

join : ℕ → List Text → Text
join sep [] = []
join sep (t ∷ []) = t
join sep (t ∷ u ∷ ts) = t ++ sep ∷ join sep (u ∷ ts)

join-onto :
    (sep c : ℕ) (t : Text) (ts : List Text) → join sep (onto c (t ∷ ts)) ≡ c ∷ join sep (t ∷ ts)
unfolding join
join-onto sep c t [] = refl
join-onto sep c t (u ∷ ts) = refl

join-empty :
    (sep : ℕ) (t : Text) (ts : List Text) → join sep ([] ∷ t ∷ ts) ≡ sep ∷ join sep (t ∷ ts)
unfolding join
join-empty sep t ts = refl

split_cons : (sep : ℕ) (s : Text) → (t : Text) × (ts : List Text) × (split sep s ≡ t ∷ ts)
unfolding split
split_cons sep [] = ([], [], refl)
split_cons sep (c ∷ cs) =
    let (t, ts, e) = split_cons sep cs in
    elim (Bool-cases (c == sep)) [
      | inl cut ↦ ([], split sep cs, rw cut)
      | inr kept ↦ (c ∷ t, ts, rw (kept, e))
    ]

join-split : (sep : ℕ) (s : Text) → join sep (split sep s) ≡ s
unfolding split
join-split sep [] = unfold join in refl
join-split sep (c ∷ cs) =
    let (t, ts, e) = split_cons sep cs in
    let back : join sep (t ∷ ts) ≡ cs = rw e at (join-split sep cs) in
    elim (Bool-cases (c == sep)) [
      | inl cut ↦ let same : c ≡ sep = ground arith in rw (cut, e, join-empty, back) (rw same)
      | inr kept ↦ rw (kept, e, join-onto, back)
    ]

free_of_digits : (t : Text) → all is_digit t ≡ true → free_of b':' t ≡ true
free_of_digits [] h = refl
free_of_digits (c ∷ cs) h = ground (arith, free_of_digits cs)

free_of_positive : (t : Text) → is_positive t ≡ true → free_of b':' t ≡ true
unfolding is_positive
free_of_positive [] h = refl
free_of_positive (c ∷ cs) h = ground (arith, free_of_digits cs)

free_of-int_text : (z : ℤ) → free_of b':' (int_text z) ≡ true
unfolding int_text
free_of-int_text (pos zero) = refl
free_of-int_text (pos (suc n)) =
    free_of_positive (nat_text (suc n)) (is_positive-nat_text (suc n) (omega arith))
free_of-int_text (negsuc n) =
    free_of_positive (nat_text (n + 1)) (is_positive-nat_text (n + 1) (omega arith))

abbrev parts_of : ℤ → ℤ → List Text
parts_of msg blk = codes "msg" ∷ int_text msg ∷ codes "blk" ∷ int_text blk ∷ []

split-message_block_target :
    (msg blk : ℤ) → split b':' (message_block_target msg blk) ≡ parts_of msg blk
unfolding message_block_target
split-message_block_target msg blk =
    split-append b':' (codes "msg") (int_text msg ++ (codes ":blk:" ++ int_text blk)) refl
    ∙ ap (◌∷◌ (codes "msg")) (
        split-append b':' (int_text msg) (codes "blk:" ++ int_text blk) (free_of-int_text msg)
        ∙ ap (◌∷◌ (int_text msg)) (
            split-append b':' (codes "blk") (int_text blk) refl
            ∙ ap (◌∷◌ (codes "blk")) (split_free b':' (int_text blk) (free_of-int_text blk))))

message_parts_inv :
    (ts : List Text) (msg blk : ℤ) → message_parts ts ≡ some (msg, blk) → ts ≡ parts_of msg blk
unfolding message_parts
message_parts_inv (kind ∷ m ∷ mid ∷ b ∷ []) msg blk h = ground (
  arith,
  text_eq_iff kind (codes "msg"),
  text_eq_iff mid (codes "blk"),
  int_text-int_value m,
  int_text-int_value b,
)
message_parts_inv _ msg blk h = cc

pub parse_message_target-message_block_target :
    (msg blk : ℤ) → parse_message_target (message_block_target msg blk) ≡ some (msg, blk)
unfolding parse_message_target
parse_message_target-message_block_target msg blk = rw (split-message_block_target msg blk) (
    unfold message_parts text_eq in
    ground (
      arith,
      is_index-int_text msg,
      is_index-int_text blk,
      int_value-int_text msg,
      int_value-int_text blk,
    ))

-- The texts that parse as a message block target are exactly those that `message_block_target`
-- builds, and each stands for one pair of indices.
pub parse_message_target_iff :
    (t : Text) (msg blk : ℤ)
    → (parse_message_target t ≡ some (msg, blk)) ↔ (t ≡ message_block_target msg blk)
parse_message_target_iff t msg blk = (
  λ h.
      sym (join-split b':' t)
      ∙ ap (join b':') (
          message_parts_inv (split b':' t) msg blk (unfold parse_message_target in h)
          ∙ sym (split-message_block_target msg blk))
      ∙ join-split b':' (message_block_target msg blk),
  λ e. rw e (parse_message_target-message_block_target msg blk),
)
