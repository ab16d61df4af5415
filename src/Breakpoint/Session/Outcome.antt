-- ===== src/Breakpoint/Session/Outcome.antt =====
-- What a release, a drop and their races leave for the task that pops its flow.
use transport_matters.Prelude.{
  Bool, true, false, not, ◌≡◌, refl, Option, none, some, Text, text_eq_refl, or_else, if◌then◌else◌,
  arith,
}
use transport_matters.Prelude.Dict.{IsDict, get, get-put, get-remove, text_key, remove, put-IsDict}
use transport_matters.Ir.{InternalRequest}
use transport_matters.Breakpoint.{Breakpoints, PausedFlow, update_paused, release, drop, pop_paused}
use transport_matters.Breakpoint.Session.{PauseOutcome, pause_outcome}

-- an update is read back
update-get :
    (g : PausedFlow → PausedFlow) (f : Text) (b : Breakpoints) (pf : PausedFlow)
    → get b.paused f ≡ some pf
    → (get (update_paused g f b).1.paused f ≡ some (g pf)) × ((update_paused g f b).0 ≡ true)
unfolding update_paused
update-get g f b pf e = (
  rw (e, update_paused) (ground (arith, get-put b.paused f f (g pf), text_eq_refl f)),
  rw (e, update_paused),
)

update-IsDict :
    (g : PausedFlow → PausedFlow) (f : Text) (b : Breakpoints) (pf : PausedFlow)
    → get b.paused f ≡ some pf
    → IsDict b.paused
    → IsDict (update_paused g f b).1.paused
unfolding update_paused
update-IsDict g f b pf e h = rw (e, update_paused) (put-IsDict b.paused f (g pf) h)

module _ (same : InternalRequest → InternalRequest → Bool) (outbound : InternalRequest → Text) where
  -- the outcome of the pop that follows
  abbrev pub popped : Text → Breakpoints → Option PauseOutcome
  popped f b = pause_outcome same outbound (pop_paused f b).0

  -- the user sent a request back, and it is not the curated one
  abbrev pub differs : Option InternalRequest → InternalRequest → Bool
  differs none curated_ir = false
  differs (some ir) curated_ir = not (same ir curated_ir)

  abbrev pub Forwards :
      PausedFlow → Option InternalRequest → Option Text → Option PauseOutcome → Type 0
  Forwards pf edited payload none = ⊥
  Forwards pf edited payload (some o) =
      let final = or_else edited pf.curated_ir in
      (o.final_ir ≡ some final)
      × (o.mutated_manually ≡ differs edited pf.curated_ir)
      × (o.audit ≡ (if o.mutated_manually then none else pf.audit))
      × (o.release_payload ≡ elim payload [
        | some p ↦ some p
        | none ↦ if same final pf.original_ir then none else some (outbound final)
      ])

  -- A flow that is paused and not dropped, and then released, forwards the request that the user
  -- sent back, or else the curated one. It counts as edited by hand exactly if the user's request
  -- differs from the curated one, and then carries no audit. A payload that the user gave is the
  -- one that is sent; without one the request is written anew if it differs from the original, and
  -- left as it is if not.
  pub release-outcome :
      (f : Text) (b : Breakpoints) (pf : PausedFlow) (edited : Option InternalRequest)
      (payload : Option Text)
      → get b.paused f ≡ some pf
      → pf.dropped ≡ false
      → Forwards pf edited payload (popped f (release f edited payload b).1)
  unfolding release pop_paused pause_outcome
  release-outcome f b pf none none e d = rw ((update-get _ f b pf e).0, d) (refl, refl, refl, refl)
  release-outcome f b pf none (some p) e d =
      rw ((update-get _ f b pf e).0, d) (refl, refl, refl, refl)
  release-outcome f b pf (some ir) none e d =
      rw ((update-get _ f b pf e).0, d) (refl, refl, refl, refl)
  release-outcome f b pf (some ir) (some p) e d =
      rw ((update-get _ f b pf e).0, d) (refl, refl, refl, refl)

  -- the outcome of a dropped flow
  abbrev pub IsDropped : Option PauseOutcome → Type 0
  IsDropped none = ⊥
  IsDropped (some o) =
      (o.final_ir ≡ none)
      × (o.mutated_manually ≡ false)
      × (o.audit ≡ none)
      × (o.release_payload ≡ none)

  -- A drop of a paused flow is final, whether it comes before or after a release: the pop that
  -- follows forwards no request and no payload, reports no edit and no audit, and leaves the flow
  -- out of the table.
  pub drop-outcome :
      (f : Text) (b : Breakpoints) (pf : PausedFlow) (edited : Option InternalRequest)
      (payload : Option Text)
      → IsDict b.paused
      → get b.paused f ≡ some pf
      → let dropped_last = (drop f (release f edited payload b).1).1 in
        let dropped_first = (release f edited payload (drop f b).1).1 in
        IsDropped (popped f dropped_last)
        × IsDropped (popped f dropped_first)
        × (get (pop_paused f dropped_last).1.paused f ≡ none)
        × (get (pop_paused f dropped_first).1.paused f ≡ none)
  unfolding release drop pop_paused pause_outcome
  drop-outcome f b pf edited payload ok e =
      let mark = (λ (p : PausedFlow). record p { dropped = true; event_set = true }) in
      let send = (λ (p : PausedFlow). record p {
        mutated_ir = edited;
        release_payload = payload;
        event_set = true;
      }) in
      let sent = (update-get send f b pf e).0 in
      let marked = (update-get mark f b pf e).0 in
      let gone : (c : Breakpoints) → IsDict c.paused → get (remove c.paused f) f ≡ none =
        λ c h. ground (arith, get-remove c.paused f f h, text_eq_refl f) in
      (
        rw (update-get mark f (update_paused send f b).1 (send pf) sent).0 (refl, refl, refl, refl),
        rw (update-get send f (update_paused mark f b).1 (mark pf) marked).0
            (refl, refl, refl, refl),
        gone (drop f (release f edited payload b).1).1
            (update-IsDict mark f _ (send pf) sent (update-IsDict send f b pf e ok)),
        gone (release f edited payload (drop f b).1).1
            (update-IsDict send f _ (mark pf) marked (update-IsDict mark f b pf e ok)),
      )
