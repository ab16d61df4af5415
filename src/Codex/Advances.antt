-- ===== src/Codex/Advances.antt =====
-- The turns that api/src/transport_matters/codex/derivation_engine.py derives by an advance from the
-- cursor of an open turn, and by a replay of all its messages.
use transport_matters.Prelude.{
  true, false, ◌≡◌, refl, sym, ap, ◌∙◌, subst, ◌≢◌, ◌⊎◌, inl, inr, Option, none, some, List, [],
  ◌∷◌, ◌++◌, Text, length, arith, length-append,
}
use transport_matters.Ir.Value.{Json}
use transport_matters.Codex.Events.{DerivationCursor, SemanticEvent}
use transport_matters.Codex.Contract.{
  Derived, DerivationError, ok, absent, raises, TransportMessageFact, TransportCloseFact,
  OperatorFact, TurnDerivationContext, is_opened, DerivedTurnArtifacts, is_nonempty,
}
use transport_matters.Codex.Derive.{derive_turn_replay, require_turn, derive_turn_incremental}
use transport_matters.Codex.Incremental.{replay_of, advance_of}
use transport_matters.Codex.Agreement.{Outcome, resumed-Outcome}

ok_of_Outcome :
    (x y : Derived DerivedTurnArtifacts) (b : DerivedTurnArtifacts) (pre : List SemanticEvent)
    → require_turn y ≡ ok b
    → Outcome x y pre
    → x ≡ ok (record { events = pre ++ b.events; turn = b.turn })
unfolding require_turn
ok_of_Outcome (ok w) (ok y) b pre e h =
    let same : y ≡ b = cc in
    ap ok (
      subst (λ v. w ≡ record { events = pre ++ v.events; turn = v.turn }) same
        (λ i. record { events = h.0 i; turn = h.1 i }))
ok_of_Outcome (ok w) absent b pre e h = absurd h
ok_of_Outcome (ok w) (raises j) b pre e h = cc
ok_of_Outcome absent (ok y) b pre e h = absurd h
ok_of_Outcome absent absent b pre e h = absurd h
ok_of_Outcome absent (raises j) b pre e h = absurd h
ok_of_Outcome (raises i) (ok y) b pre e h = absurd h
ok_of_Outcome (raises i) absent b pre e h = absurd h
ok_of_Outcome (raises i) (raises j) b pre e h = cc

rest_of_Outcome :
    (w : DerivedTurnArtifacts) (y : Derived DerivedTurnArtifacts) (pre : List SemanticEvent)
    → Outcome (ok w) y pre
    → (w.events ≢ pre) ⊎ (is_opened w.turn.status ≡ false)
    → (b : DerivedTurnArtifacts) × (require_turn y ≡ ok b)
      × (w.events ≡ pre ++ b.events)
      × (w.turn ≡ b.turn)
unfolding require_turn
rest_of_Outcome w (ok b) pre h n = (b, refl, h.0, h.1)
rest_of_Outcome w absent pre h n = absurd h
rest_of_Outcome w (raises e) pre h (inl n) = absurd (n h.1)
rest_of_Outcome w (raises e) pre h (inr n) = cc

-- a list that is not longer for what is appended
append_nothing {ℓ} : {A : Type ℓ} → (xs ys : List A) → xs ≡ xs ++ ys → is_nonempty ys ≡ false
append_nothing xs [] h = refl
append_nothing xs (y ∷ ys) h = absurd (omega (arith, ap length h, length-append xs (y ∷ ys)))

invalid_of_Outcome :
    (w : DerivedTurnArtifacts) (y : Derived DerivedTurnArtifacts) (pre : List SemanticEvent)
    → Outcome (ok w) y pre
    → is_nonempty pre ≡ true
    → w.events ≡ pre
    → is_opened w.turn.status ≡ true
    → require_turn y ≡ raises DerivationError.invalid_artifacts
unfolding require_turn
invalid_of_Outcome w (ok b) pre h k g m =
    let none_left = append_nothing pre b.events (sym g ∙ h.0) in
    let still : is_opened b.turn.status ≡ true = sym (ap (λ v. is_opened v.status) h.1) ∙ m in
    ground (arith, h.2, none_left, k, still)
invalid_of_Outcome w absent pre h k g m = absurd h
invalid_of_Outcome w (raises e) pre h k g m = ap raises h.0

raises_of_Outcome :
    (i : DerivationError) (y : Derived DerivedTurnArtifacts) (pre : List SemanticEvent)
    → Outcome (raises i) y pre
    → require_turn y ≡ raises i
unfolding require_turn
raises_of_Outcome i (ok b) pre h = absurd h
raises_of_Outcome i absent pre h = absurd h
raises_of_Outcome i (raises j) pre h = ap raises (sym h)

module _ (dumps : Json → Text) (c : TurnDerivationContext) (facts facts2 : List OperatorFact)
    (ms ns : List TransportMessageFact) (close : Option TransportCloseFact)
    (a : DerivedTurnArtifacts) (cursor : DerivationCursor) where
  -- An open turn that has been derived, and the messages that follow it: if an advance over them
  -- from the cursor gives artifacts, then a replay of all the messages gives the events of both,
  -- one after the other, and the turn of the advance.
  pub derive_turn_incremental-append :
      (b : DerivedTurnArtifacts)
      → derive_turn_replay dumps (replay_of c ms facts none) ≡ ok a
      → is_opened a.turn.status ≡ true
      → a.turn.cursor ≡ some cursor
      → derive_turn_incremental dumps (advance_of c a cursor ns facts2 close) ≡ ok b
      → derive_turn_replay dumps (replay_of c (ms ++ ns) facts close)
        ≡ ok (record { events = a.events ++ b.events; turn = b.turn })
  derive_turn_incremental-append b h o e g =
      let r = resumed-Outcome dumps c facts facts2 ms ns close a cursor h o e in
      ok_of_Outcome _ r.0 b a.events (sym r.1 ∙ g) r.2

  -- The other way round: if a replay of all the messages gives a turn, then an advance over the
  -- last of them gives the rest of its events and the same turn, provided that there is such an
  -- event, or that the turn is no longer open.
  pub derive_turn_replay-append :
      (w : DerivedTurnArtifacts)
      → derive_turn_replay dumps (replay_of c ms facts none) ≡ ok a
      → is_opened a.turn.status ≡ true
      → a.turn.cursor ≡ some cursor
      → derive_turn_replay dumps (replay_of c (ms ++ ns) facts close) ≡ ok w
      → (w.events ≢ a.events) ⊎ (is_opened w.turn.status ≡ false)
      → (b : DerivedTurnArtifacts) × (derive_turn_incremental dumps
            (advance_of c a cursor ns facts2 close)
          ≡ ok b)
        × (w.events ≡ a.events ++ b.events)
        × (w.turn ≡ b.turn)
  derive_turn_replay-append w h o e g n =
      let r = resumed-Outcome dumps c facts facts2 ms ns close a cursor h o e in
      let rest = rest_of_Outcome w r.0 a.events (subst (λ x. Outcome x r.0 a.events) g r.2) n in
      (rest.0, r.1 ∙ rest.1, rest.2, rest.3)

  -- An open turn with an event, and messages after which a replay finds no further event and the
  -- turn still open: an advance over them raises, since its artifacts do not pass the checks.
  pub derive_turn_incremental_without_events :
      (w : DerivedTurnArtifacts)
      → derive_turn_replay dumps (replay_of c ms facts none) ≡ ok a
      → is_opened a.turn.status ≡ true
      → a.turn.cursor ≡ some cursor
      → is_nonempty a.events ≡ true
      → derive_turn_replay dumps (replay_of c (ms ++ ns) facts close) ≡ ok w
      → w.events ≡ a.events
      → is_opened w.turn.status ≡ true
      → derive_turn_incremental dumps (advance_of c a cursor ns facts2 close)
        ≡ raises DerivationError.invalid_artifacts
  derive_turn_incremental_without_events w h o e k g n m =
      let r = resumed-Outcome dumps c facts facts2 ms ns close a cursor h o e in
      r.1 ∙ invalid_of_Outcome w r.0 a.events (subst (λ x. Outcome x r.0 a.events) g r.2) k n m

  -- An open turn, and messages for which a replay raises: the advance over the last of them raises
  -- the same.
  pub derive_turn_incremental-raises :
      (i : DerivationError)
      → derive_turn_replay dumps (replay_of c ms facts none) ≡ ok a
      → is_opened a.turn.status ≡ true
      → a.turn.cursor ≡ some cursor
      → derive_turn_replay dumps (replay_of c (ms ++ ns) facts close) ≡ raises i
      → derive_turn_incremental dumps (advance_of c a cursor ns facts2 close) ≡ raises i
  derive_turn_incremental-raises i h o e g =
      let r = resumed-Outcome dumps c facts facts2 ms ns close a cursor h o e in
      r.1 ∙ raises_of_Outcome i r.0 a.events (subst (λ x. Outcome x r.0 a.events) g r.2)
