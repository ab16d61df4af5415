-- ===== src/Override/Blocks/Clean.antt =====
-- What `sanitize_curated_messages` leaves: tool calls with their results, no empty text, no empty
-- message; and it leaves a clean request alone.
use transport_matters.Prelude.{
  Bool, true, false, not, ◌&&◌, ◌≡◌, refl, ap, ◌∙◌, List, [], ◌∷◌, Text, text_eq_iff, filter, all,
  if◌then◌else◌, arith,
}
use transport_matters.Ir.{ContentBlock, Message, InternalRequest}
use transport_matters.Override.Blocks.{
  mem, block_use_ids, block_result_ids, use_ids, result_ids, without, both, is_empty, is_kept,
  no_blocks, clean_messages, sanitize_curated_messages,
}

mem-filter :
    (p : Text → Bool) (id : Text) (xs : List Text) → mem id (filter p xs) ≡ (mem id xs && p id)
mem-filter p id [] = refl
mem-filter p id (x ∷ xs) = ground (arith, mem-filter p id xs, text_eq_iff x id)

module _ (id : Text) (ou or : List Text) where
  block_use_ids-kept :
      (bs : List ContentBlock) (rest rest' : List Text)
      → mem id rest' ≡ (mem id rest && not (mem id ou))
      → mem id (block_use_ids (filter (is_kept ou or) bs) rest')
        ≡ (mem id (block_use_ids bs rest) && not (mem id ou))
  unfolding is_kept
  block_use_ids-kept [] rest rest' h = h
  block_use_ids-kept (ContentBlock.tool_use b ∷ bs) rest rest' h =
      ground (arith, block_use_ids-kept bs rest rest' h, text_eq_iff b.id id)
  block_use_ids-kept (b ∷ bs) rest rest' h = ground (arith, block_use_ids-kept bs rest rest' h)

  block_result_ids-kept :
      (bs : List ContentBlock) (rest rest' : List Text)
      → mem id rest' ≡ (mem id rest && not (mem id or))
      → mem id (block_result_ids (filter (is_kept ou or) bs) rest')
        ≡ (mem id (block_result_ids bs rest) && not (mem id or))
  unfolding is_kept
  block_result_ids-kept [] rest rest' h = h
  block_result_ids-kept (ContentBlock.tool_result b ∷ bs) rest rest' h =
      ground (arith, block_result_ids-kept bs rest rest' h, text_eq_iff b.tool_use_id id)
  block_result_ids-kept (b ∷ bs) rest rest' h =
      ground (arith, block_result_ids-kept bs rest rest' h)

module _ (keep : ContentBlock → Bool) (m : Message) (ms : List Message) where
  -- a message that is dropped held no block any more
  use_ids-clean_cons :
      use_ids (clean_messages keep (m ∷ ms))
      ≡ block_use_ids (filter keep m.content) (use_ids (clean_messages keep ms))
  unfolding use_ids clean_messages
  use_ids-clean_cons = ground arith

  result_ids-clean_cons :
      result_ids (clean_messages keep (m ∷ ms))
      ≡ block_result_ids (filter keep m.content) (result_ids (clean_messages keep ms))
  unfolding result_ids clean_messages
  result_ids-clean_cons = ground arith

module _ (id : Text) (ou or : List Text) where
  use_ids-clean :
      (ms : List Message)
      → mem id (use_ids (clean_messages (is_kept ou or) ms))
        ≡ (mem id (use_ids ms) && not (mem id ou))
  use_ids-clean [] = unfold use_ids clean_messages in refl
  use_ids-clean (m ∷ ms) =
      ap (mem id) (use_ids-clean_cons (is_kept ou or) m ms) ∙ step m ms (use_ids-clean ms)
    where
      step :
          (m : Message) (ms : List Message)
          → mem id (use_ids (clean_messages (is_kept ou or) ms))
            ≡ (mem id (use_ids ms) && not (mem id ou))
          → mem id (
              block_use_ids
                (filter (is_kept ou or) m.content)
                (use_ids (clean_messages (is_kept ou or) ms)))
            ≡ (mem id (use_ids (m ∷ ms)) && not (mem id ou))
      step m ms h = unfold use_ids in block_use_ids-kept id ou or m.content (use_ids ms) _ h

  result_ids-clean :
      (ms : List Message)
      → mem id (result_ids (clean_messages (is_kept ou or) ms))
        ≡ (mem id (result_ids ms) && not (mem id or))
  result_ids-clean [] = unfold result_ids clean_messages in refl
  result_ids-clean (m ∷ ms) =
      ap (mem id) (result_ids-clean_cons (is_kept ou or) m ms) ∙ step m ms (result_ids-clean ms)
    where
      step :
          (m : Message) (ms : List Message)
          → mem id (result_ids (clean_messages (is_kept ou or) ms))
            ≡ (mem id (result_ids ms) && not (mem id or))
          → mem id (
              block_result_ids
                (filter (is_kept ou or) m.content)
                (result_ids (clean_messages (is_kept ou or) ms)))
            ≡ (mem id (result_ids (m ∷ ms)) && not (mem id or))
      step m ms h =
          unfold result_ids in block_result_ids-kept id ou or m.content (result_ids ms) _ h

-- the ids without a partner, by membership
mem-orphans :
    (id : Text) (xs uses results : List Text)
    → mem id (without xs (both uses results)) ≡ (mem id xs && not (mem id uses && mem id results))
mem-orphans id xs uses results = ground (
  arith,
  mem-filter (λ x. not (mem x (both uses results))) id xs,
  mem-filter (λ x. mem x results) id uses,
)

abbrev pub orphan_results : Bool → List Text → List Text → List Text
orphan_results preserve uses results = if preserve then [] else without results (both uses results)

-- After the clean-up a tool call is there exactly when it was there with a result of its id. So is a
-- result, unless orphaned results are kept: then every result is still there.
pub sanitize-paired :
    (ir : InternalRequest) (preserve : Bool) (id : Text)
    → let before = ir.messages in
      let after = (sanitize_curated_messages ir preserve).messages in
      (mem id (use_ids after) ≡ (mem id (use_ids before) && mem id (result_ids before)))
      × (mem id (result_ids after) ≡ (
          if preserve
          then mem id (result_ids before)
          else mem id (use_ids before) && mem id (result_ids before)))
unfolding sanitize_curated_messages
sanitize-paired ir preserve id =
    let uses = use_ids ir.messages in
    let results = result_ids ir.messages in
    let ou = without uses (both uses results) in
    let or = orphan_results preserve uses results in
    let left = mem-orphans id uses uses results in
    let right = mem-orphans id results uses results in
    (
      ground (arith, use_ids-clean id ou or ir.messages, left),
      ground (arith, result_ids-clean id ou or ir.messages, right),
    )

filter-filter :
    (keep keep' : ContentBlock → Bool) (bs : List ContentBlock)
    → ((b : ContentBlock) → keep b ≡ true → keep' b ≡ true)
    → filter keep' (filter keep bs) ≡ filter keep bs
filter-filter keep keep' [] h = refl
filter-filter keep keep' (b ∷ bs) h = ground (arith, filter-filter keep keep' bs h, h b)

clean-clean :
    (keep keep' : ContentBlock → Bool) (ms : List Message)
    → ((b : ContentBlock) → keep b ≡ true → keep' b ≡ true)
    → clean_messages keep' (clean_messages keep ms) ≡ clean_messages keep ms
unfolding clean_messages
clean-clean keep keep' [] h = refl
clean-clean keep keep' (m ∷ ms) h =
    ground (arith, clean-clean keep keep' ms h, filter-filter keep keep' m.content h)

module _ (ir : InternalRequest) (preserve : Bool) (id : Text) where
  no_orphan_use :
      let after = (sanitize_curated_messages ir preserve).messages in
      mem id (without (use_ids after) (both (use_ids after) (result_ids after))) ≡ false
  no_orphan_use =
      let after = (sanitize_curated_messages ir preserve).messages in
      ground (
        arith,
        mem-orphans id (use_ids after) (use_ids after) (result_ids after),
        sanitize-paired ir preserve id,
      )

  no_orphan_result :
      let after = (sanitize_curated_messages ir preserve).messages in
      mem id (orphan_results preserve (use_ids after) (result_ids after)) ≡ false
  no_orphan_result =
      let after = (sanitize_curated_messages ir preserve).messages in
      ground (
        arith,
        mem-orphans id (result_ids after) (use_ids after) (result_ids after),
        sanitize-paired ir preserve id,
      )

is_kept_mono :
    (ou or ou' or' : List Text)
    → ((id : Text) → mem id ou' ≡ false)
    → ((id : Text) → mem id or' ≡ false)
    → (b : ContentBlock) → is_kept ou or b ≡ true
    → is_kept ou' or' b ≡ true
unfolding is_kept
is_kept_mono ou or ou' or' h k (ContentBlock.tool_use b) e = ground (arith, h b.id)
is_kept_mono ou or ou' or' h k (ContentBlock.tool_result b) e = ground (arith, k b.tool_use_id)
is_kept_mono ou or ou' or' h k (ContentBlock.text b) e = e
is_kept_mono ou or ou' or' h k b e = refl

-- The clean-up of a clean request changes nothing: one pass finds all there is to drop.
pub sanitize_idem :
    (ir : InternalRequest) (preserve : Bool)
    → sanitize_curated_messages (sanitize_curated_messages ir preserve) preserve
      ≡ sanitize_curated_messages ir preserve
unfolding sanitize_curated_messages
sanitize_idem ir preserve =
    let after = sanitize_curated_messages ir preserve in
    let uses = use_ids after.messages in
    let results = result_ids after.messages in
    let uses_before = use_ids ir.messages in
    let results_before = result_ids ir.messages in
    ap (λ (ms : List Message). record ir { messages = ms })
      (clean-clean
        (is_kept (without uses_before (both uses_before results_before))
          (orphan_results preserve uses_before results_before))
        (is_kept (without uses (both uses results)) (orphan_results preserve uses results))
        ir.messages
        (is_kept_mono _ _ _ _ (no_orphan_use ir preserve) (no_orphan_result ir preserve)))

abbrev pub says_something : ContentBlock → Bool
says_something (ContentBlock.text b) = not (is_empty b.text)
says_something _ = true

-- a message with a block, and no empty text among its blocks
abbrev pub is_solid : Message → Bool
is_solid m = not (no_blocks m.content) && all says_something m.content

all-kept :
    (ou or : List Text) (bs : List ContentBlock)
    → all says_something (filter (is_kept ou or) bs) ≡ true
unfolding is_kept
all-kept ou or [] = refl
all-kept ou or (ContentBlock.text b ∷ bs) = ground (arith, all-kept ou or bs)
all-kept ou or (b ∷ bs) = ground (arith, all-kept ou or bs)

clean-solid :
    (ou or : List Text) (ms : List Message)
    → all is_solid (clean_messages (is_kept ou or) ms) ≡ true
unfolding clean_messages
clean-solid ou or [] = refl
clean-solid ou or (m ∷ ms) = ground (arith, clean-solid ou or ms, all-kept ou or m.content)

-- After the clean-up every message has a block, and no text block is empty.
pub sanitize-solid :
    (ir : InternalRequest) (preserve : Bool)
    → all is_solid (sanitize_curated_messages ir preserve).messages ≡ true
unfolding sanitize_curated_messages
sanitize-solid ir preserve = clean-solid _ _ ir.messages
