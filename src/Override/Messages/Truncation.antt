-- ===== src/Override/Messages/Truncation.antt =====
-- Truncation of tool results: the bound that it keeps, and that a second pass changes nothing.
use mathlib.Core.List.{append-nil, map}
use transport_matters.Prelude.{
  ℕ, ◌+◌, ◌<◌, ◌≤◌, Bool, true, false, ◌≡◌, refl, ap, none, List, [], ◌∷◌, ◌++◌, Text, codes, leb,
  text_eq, ltb, length, take, any, all, if◌then◌else◌, length-append, length-take_lt,
  take-append_lt, Bool-cases, inl, inr, arith, sym, ◌∙◌,
}
use transport_matters.Prelude.Int.{pos}
use transport_matters.Ir.{ToolResultBlock, ContentBlock, Message, InternalRequest, ResultPart}
use transport_matters.Override.Messages.{
  result_text, truncation_mark, Tally, truncate_result, truncate_block, truncate_content,
  is_result_of, is_target, truncate_messages, apply_truncate_tool_result,
}

-- the text that a truncation leaves
abbrev cut_text : ℕ → Text → Text
cut_text n original = take n original ++ truncation_mark

length-cut_text : (n : ℕ) (t : Text) → n < length t → length (cut_text n t) ≡ n + 12
length-cut_text n t h =
    omega (arith, length-append {0} (take n t) truncation_mark, length-take_lt {0} n t h)

cut_text-cut_text : (n : ℕ) (t : Text) → n < length t → cut_text n (cut_text n t) ≡ cut_text n t
cut_text-cut_text n t h =
    ap (λ (u : Text). u ++ truncation_mark) (take-append_lt n t truncation_mark h)

module _ (n : ℕ) (b : ToolResultBlock) (t t' : Tally) where
  truncate_result_again :
      (truncate_result n (truncate_result n b t).0 t').0 ≡ (truncate_result n b t).0
  unfolding truncate_result result_text
  truncate_result_again = elim (Bool-cases (ltb n (length (result_text b.content)))) [
    | inl long ↦
        let l : n < length (result_text b.content) = ground arith in
        let e : cut_text n (result_text b.content) ++ [] ≡ cut_text n (result_text b.content) =
          append-nil _ in
        let again : ltb n (length (cut_text n (result_text b.content))) ≡ true =
          ground (arith, length-cut_text n (result_text b.content) l) in
        rw (long, e, again, cut_text-cut_text n (result_text b.content) l) refl
    | inr short ↦ rw (short, short)
  ]

  truncate_result-id : (truncate_result n b t).0.tool_use_id ≡ b.tool_use_id
  unfolding truncate_result
  truncate_result-id = ground arith

  truncate_result-bound : length (result_text (truncate_result n b t).0.content) ≤ n + 12
  unfolding truncate_result result_text
  truncate_result-bound = elim (Bool-cases (ltb n (length (result_text b.content)))) [
    | inl long ↦
        rw (long, append-nil (cut_text n (result_text b.content)))
          (omega (arith, length-cut_text n (result_text b.content) (ground arith)))
    | inr short ↦ rw short (ground arith)
  ]

module _ (id : Text) (n : ℕ) where
  truncate_block_again :
      (b : ContentBlock) (t t' : Tally)
      → (truncate_block id n (truncate_block id n b t).0 t').0 ≡ (truncate_block id n b t).0
  unfolding truncate_block
  truncate_block_again (ContentBlock.tool_result b) t t' =
      elim (Bool-cases (text_eq b.tool_use_id id)) [
        | inl e ↦ ground (arith, truncate_result_again n b t t')
        | inr e ↦ ground arith
      ]
  truncate_block_again b t t' = refl

  truncate_content_again :
      (bs : List ContentBlock) (t t' : Tally)
      → (truncate_content id n (truncate_content id n bs t).0 t').0 ≡ (truncate_content id n bs t).0
  unfolding truncate_content
  truncate_content_again [] t t' = refl
  truncate_content_again (b ∷ bs) t t' =
      let first = truncate_block id n b t in
      ground (
        arith,
        truncate_block_again b t t',
        truncate_content_again bs first.1 (truncate_block id n first.0 t').1,
      )

  truncate_content-targets :
      (bs : List ContentBlock) (t : Tally)
      → any (is_result_of id) (truncate_content id n bs t).0 ≡ any (is_result_of id) bs
  unfolding truncate_content truncate_block truncate_result
  truncate_content-targets [] t = refl
  truncate_content-targets (ContentBlock.tool_result b ∷ bs) t =
      ground
        (arith, truncate_content-targets bs (truncate_block id n (ContentBlock.tool_result b) t).1)
  truncate_content-targets (b ∷ bs) t = ground (arith, truncate_content-targets bs t)

  truncate_messages_again :
      (ms : List Message) (t t' : Tally)
      → (truncate_messages id n (truncate_messages id n ms t).0 t').0
        ≡ (truncate_messages id n ms t).0
  unfolding truncate_messages
  truncate_messages_again [] t t' = refl
  truncate_messages_again (m ∷ ms) t t' = elim (Bool-cases (is_target id m)) [
    | inl e ↦
        let (content, after) = truncate_content id n m.content t in
        ground (
          arith,
          truncate_content-targets m.content t,
          truncate_content_again m.content t t',
          truncate_messages_again ms after (truncate_content id n content t').1,
        )
    | inr e ↦ ground (arith, truncate_messages_again ms t t')
  ]

-- a result, if its text is longer than the limit, as its first characters and the mark
abbrev pub truncated_result : ℕ → ToolResultBlock → ToolResultBlock
truncated_result n b =
    if ltb n (length (result_text b.content))
    then record b {
      content =
          ResultPart.text (record {
            text = take n (result_text b.content) ++ codes " [truncated]";
            provider_data = none;
          })
          ∷ [];
    }
    else b

abbrev pub truncated_block : Text → ℕ → ContentBlock → ContentBlock
truncated_block id n (ContentBlock.tool_result b) =
    ContentBlock.tool_result (if text_eq b.tool_use_id id then truncated_result n b else b)
truncated_block id n b = b

abbrev pub truncated_message : Text → ℕ → Message → Message
truncated_message id n m =
    if text_eq m.role (codes "user")
    then record m { content = map (truncated_block id n) m.content }
    else m

-- every result of the id in a user message is at most so long
abbrev pub fits : Text → ℕ → ContentBlock → Bool
fits id n (ContentBlock.tool_result b) =
    if text_eq b.tool_use_id id then leb (length (result_text b.content)) (n + 12) else true
fits id n _ = true

abbrev pub message_fits : Text → ℕ → Message → Bool
message_fits id n m = if text_eq m.role (codes "user") then all (fits id n) m.content else true

module _ (id : Text) (n : ℕ) where
  truncate_content-fits :
      (bs : List ContentBlock) (t : Tally) → all (fits id n) (truncate_content id n bs t).0 ≡ true
  unfolding truncate_content truncate_block
  truncate_content-fits [] t = refl
  truncate_content-fits (ContentBlock.tool_result b ∷ bs) t = ground (
    arith,
    truncate_content-fits bs (truncate_block id n (ContentBlock.tool_result b) t).1,
    truncate_result-bound n b t,
    truncate_result-id n b t,
  )
  truncate_content-fits (b ∷ bs) t = ground (arith, truncate_content-fits bs t)

  no_target-fits :
      (bs : List ContentBlock) → any (is_result_of id) bs ≡ false → all (fits id n) bs ≡ true
  no_target-fits [] h = refl
  no_target-fits (ContentBlock.tool_result b ∷ bs) h = ground (arith, no_target-fits bs)
  no_target-fits (b ∷ bs) h = ground (arith, no_target-fits bs)

  truncate_messages-fits :
      (ms : List Message) (t : Tally)
      → all (message_fits id n) (truncate_messages id n ms t).0 ≡ true
  unfolding truncate_messages
  truncate_messages-fits [] t = refl
  truncate_messages-fits (m ∷ ms) t = elim (Bool-cases (is_target id m)) [
    | inl e ↦
        let (content, after) = truncate_content id n m.content t in
        ground (arith, truncate_content-fits m.content t, truncate_messages-fits ms after)
    | inr e ↦ ground (arith, truncate_messages-fits ms t, no_target-fits m.content)
  ]

  untargeted-fits :
      (ms : List Message) → any (is_target id) ms ≡ false → all (message_fits id n) ms ≡ true
  untargeted-fits [] h = refl
  untargeted-fits (m ∷ ms) h = ground (arith, untargeted-fits ms, no_target-fits m.content)

  truncate_result-value :
      (b : ToolResultBlock) (t : Tally) → (truncate_result n b t).0 ≡ truncated_result n b
  unfolding truncate_result
  truncate_result-value b t = elim (Bool-cases (ltb n (length (result_text b.content)))) [
    | inl long ↦ rw long refl
    | inr short ↦ rw short refl
  ]

  truncate_content-map :
      (bs : List ContentBlock) (t : Tally)
      → (truncate_content id n bs t).0 ≡ map (truncated_block id n) bs
  unfolding truncate_content truncate_block
  truncate_content-map [] t = refl
  truncate_content-map (ContentBlock.tool_result b ∷ bs) t = ground (
    arith,
    truncate_result-value b t,
    truncate_content-map bs (truncate_block id n (ContentBlock.tool_result b) t).1,
  )
  truncate_content-map (b ∷ bs) t = ground (arith, truncate_content-map bs t)

  no_target-map :
      (bs : List ContentBlock)
      → any (is_result_of id) bs ≡ false
      → map (truncated_block id n) bs ≡ bs
  no_target-map [] h = refl
  no_target-map (ContentBlock.tool_result b ∷ bs) h = ground (arith, no_target-map bs)
  no_target-map (b ∷ bs) h = ground (arith, no_target-map bs)

  untargeted-message : (m : Message) → is_target id m ≡ false → truncated_message id n m ≡ m
  untargeted-message m h = elim (Bool-cases (text_eq m.role (codes "user"))) [
    | inl u ↦
        let none_here : any (is_result_of id) m.content ≡ false = ground arith in
        rw u (
          ap (λ (c : List ContentBlock). record m { content = c })
            (no_target-map m.content none_here))
    | inr u ↦ rw u refl
  ]

  truncate_messages-map :
      (ms : List Message) (t : Tally)
      → (truncate_messages id n ms t).0 ≡ map (truncated_message id n) ms
  unfolding truncate_messages
  truncate_messages-map [] t = refl
  truncate_messages-map (m ∷ ms) t = elim (Bool-cases (is_target id m)) [
    | inl e ↦
        let u : text_eq m.role (codes "user") ≡ true = ground arith in
        let after = (truncate_content id n m.content t).1 in
        rw (e, u)
          (ap
              (λ (c : List ContentBlock).
                record m { content = c } ∷ (truncate_messages id n ms after).0)
              (truncate_content-map m.content t)
            ∙ ap
                (λ (l : List Message).
                  record m { content = map (truncated_block id n) m.content } ∷ l)
                (truncate_messages-map ms after))
    | inr e ↦
        rw (e, untargeted-message m e)
          (ap (λ (l : List Message). m ∷ l) (truncate_messages-map ms t))
  ]

  untargeted-map :
      (ms : List Message) → any (is_target id) ms ≡ false → map (truncated_message id n) ms ≡ ms
  untargeted-map [] h = refl
  untargeted-map (m ∷ ms) h = ground (arith, untargeted-map ms, untargeted-message m)

  -- The truncation changes the messages alone, and of them only the results of the id in user
  -- messages whose text is longer than `n` characters: each becomes one text, the first `n`
  -- characters and the mark. So no such result is left with more than `n` characters and the mark,
  -- and a second truncation to the same limit leaves the request as it is.
  pub truncate-bounds :
      (ir : InternalRequest)
      → let after = (apply_truncate_tool_result ir id n).0 in
        (after ≡ record ir { messages = map (truncated_message id n) ir.messages })
        × (all (message_fits id n) after.messages ≡ true)
        × ((apply_truncate_tool_result after id n).0 ≡ after)
  unfolding apply_truncate_tool_result
  truncate-bounds ir = (
    elim (Bool-cases (any (is_target id) ir.messages)) [
      | inl e ↦ rw e (
          ap (λ (l : List Message). record ir { messages = l })
            (truncate_messages-map ir.messages (pos 0, none)))
      | inr e ↦ rw e (
          ap (λ (l : List Message). record ir { messages = l })
            (sym (untargeted-map ir.messages e)))
    ],
    ground (arith, truncate_messages-fits ir.messages (pos 0, none), untargeted-fits ir.messages),
    ground (arith, truncate_messages_again id n ir.messages (pos 0, none) (pos 0, none)),
  )
