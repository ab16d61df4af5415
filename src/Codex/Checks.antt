-- ===== src/Codex/Checks.antt =====
-- The checks and the errors of a replay in api/src/transport_matters/codex/derivation_engine.py.
use transport_matters.Prelude.{
  ℕ, Bool, true, false, ◌≡◌, refl, sym, ap, ◌∙◌, subst, inl, inr, Option, none, some, List, ◌∷◌,
  ◌++◌, Text, ◌==◌, if◌then◌else◌, is_some, Option-cases, arith,
}
use transport_matters.Ir.Value.{Json}
use transport_matters.Codex.Events.{SemanticEvent, TurnSummary}
use transport_matters.Codex.Contract.{
  Derived, DerivationError, ok, absent, raises, ◌>>=◌, TransportMessageFact, TransportCloseFact,
  OperatorFact, TurnDerivationContext, is_opened, DerivedTurnArtifacts, derived_artifacts,
  derivation_version,
}
use transport_matters.Codex.Engine.{TurnDerivationState}
use transport_matters.Codex.Advancing.{advance_all, advance_state}
use transport_matters.Codex.Derive.{
  turn_end, open_artifacts, build_turn_summary, conclude, finalize_state, derive_turn_replay,
  terminal_end,
}
use transport_matters.Codex.Sound.{advance_all-SoundResult}
use transport_matters.Codex.Validity.{SummaryResult}
use transport_matters.Codex.Incremental.{
  replay_of, start, start-IsSound, replay_is, advance_all-append, bind_ok, derived_artifacts_ok,
}
use transport_matters.Codex.Results.{bind-SummaryResult}
use transport_matters.Codex.Opened.{unclosed, begun}
use transport_matters.Codex.Agreement.{whole_checked}

checked_whole :
    (c : TurnDerivationContext) (x : Derived (List SemanticEvent × TurnSummary))
    → (c.derivation_version == derivation_version) ≡ true
    → SummaryResult c 1 x
    → (x >>= λ r. derived_artifacts r.0 r.1) ≡ (x >>= λ r. ok (record { events = r.0; turn = r.1 }))
checked_whole c (ok (es, t)) v h = whole_checked c es t v h
checked_whole c absent v h = refl
checked_whole c (raises e) v h = refl

-- A result of a state that did not end without a terminal message
abbrev EndResult : TurnDerivationState → Derived (List SemanticEvent × TurnSummary) → Type 0
EndResult s (ok (es, t)) = is_opened t.status ≡ false → is_some s.terminal_status ≡ true
EndResult s absent = Unit
EndResult s (raises e) = Unit

EndResult-terminal :
    (s : TurnDerivationState) (r : Derived (List SemanticEvent × TurnSummary))
    → is_some s.terminal_status ≡ true
    → EndResult s r
EndResult-terminal s (ok x) h = λ o. h
EndResult-terminal s absent h = tt
EndResult-terminal s (raises e) h = tt

summary-EndResult :
    (b : Bool) (s : TurnDerivationState) (es : List SemanticEvent) (t : TurnSummary)
    → is_opened t.status ≡ true
    → EndResult s ((if b then ok t else raises DerivationError.invalid_summary) >>= λ u. ok (es, u))
summary-EndResult false s es t o = tt
summary-EndResult true s es t o = λ n. ground (arith, o, n)

advance_state_terminal :
    (dumps : Json → Text) (c : TurnDerivationContext) (facts : List OperatorFact)
    (m : TransportMessageFact) (s : TurnDerivationState)
    → is_some s.terminal_status ≡ true
    → advance_state dumps c facts m s ≡ raises DerivationError.message_after_terminal
unfolding advance_state
advance_state_terminal dumps c facts m s h = rw (h) refl

module _ (dumps : Json → Text) (c : TurnDerivationContext) (facts : List OperatorFact)
    (ms : List TransportMessageFact) where
  -- For the derivation version of the code, the checks of the artifacts pass whatever a replay has
  -- derived: it gives the events and the summary as the engine finalizes them, or the engine's
  -- error.
  pub derive_turn_replay_unchecked :
      (close : Option TransportCloseFact)
      → c.derivation_version ≡ derivation_version
      → derive_turn_replay dumps (replay_of c ms facts close) ≡ (
          advance_all dumps c facts ms (start dumps c) >>= finalize_state dumps c close >>= λ r.
          ok (record { events = r.0; turn = r.1 }))
  derive_turn_replay_unchecked close v =
      replay_is dumps c facts ms close
      ∙ checked_whole c
          (advance_all dumps c facts ms (start dumps c) >>= finalize_state dumps c close)
          (ground (arith, v))
          (bind-SummaryResult dumps c 1 close (advance_all dumps c facts ms (start dumps c))
            (advance_all-SoundResult dumps c 1 facts ms (start dumps c) (start-IsSound dumps c)))

  conclude-EndResult :
      (started_at : ℕ) (s : TurnDerivationState)
      → s.terminal_status ≡ none
      → EndResult s (conclude dumps c started_at none s)
  unfolding conclude turn_end terminal_end open_artifacts build_turn_summary
  conclude-EndResult started_at s n =
      subst (λ r. EndResult s (unclosed dumps c started_at r s)) (sym n)
        (summary-EndResult _ s _ _ refl)

  finalize_state-EndResult : (s : TurnDerivationState) → EndResult s (finalize_state dumps c none s)
  unfolding finalize_state
  finalize_state-EndResult s = elim (Option-cases s.terminal_status) [
    | inr (status, n) ↦ EndResult-terminal s (finalize_state dumps c none s) (ap is_some n)
    | inl n ↦
        elim s.turn_started
          as (λ b. EndResult s (if b then begun dumps c s.started_at s else absent)) [
            | false ↦ tt
            | true ↦ elim s.started_at as (λ r. EndResult s (begun dumps c r s)) [
              | none ↦ tt
              | some i ↦ conclude-EndResult i s n
            ]
          ]
  ]

  -- After a replay of a transport that is not closed has given a turn that has ended, a replay with
  -- a further message raises, whatever comes after it.
  pub derive_turn_replay_after_terminal :
      (a : DerivedTurnArtifacts) (m : TransportMessageFact) (ns : List TransportMessageFact)
      (close : Option TransportCloseFact)
      → derive_turn_replay dumps (replay_of c ms facts none) ≡ ok a
      → is_opened a.turn.status ≡ false
      → derive_turn_replay dumps (replay_of c (ms ++ m ∷ ns) facts close)
        ≡ raises DerivationError.message_after_terminal
  unfolding advance_all
  derive_turn_replay_after_terminal a m ns close h o =
      let result =
        bind_ok (advance_all dumps c facts ms (start dumps c) >>= finalize_state dumps c none) _ a
          (sym (replay_is dumps c facts ms none) ∙ h) in
      let state =
        bind_ok (advance_all dumps c facts ms (start dumps c)) (finalize_state dumps c none)
          result.0 result.1 in
      let s : TurnDerivationState = state.0 in
      let made = derived_artifacts_ok result.0.0 result.0.1 a result.2 in
      let ended : is_some s.terminal_status ≡ true =
        subst (EndResult s) state.2 (finalize_state-EndResult s)
          (subst (λ b. is_opened b.turn.status ≡ false) made.1 o) in
      let stopped : advance_all dumps c facts (m ∷ ns) s
          ≡ raises DerivationError.message_after_terminal =
        ap (λ r. r >>= λ t. advance_all dumps c facts ns t)
          (advance_state_terminal dumps c facts m s ended) in
      replay_is dumps c facts (ms ++ m ∷ ns) close
      ∙ ap (λ r. r >>= finalize_state dumps c close >>= λ x. derived_artifacts x.0 x.1)
          (advance_all-append dumps c facts ms (m ∷ ns) (start dumps c)
            ∙ ap (λ r. r >>= λ u. advance_all dumps c facts (m ∷ ns) u) state.1
            ∙ stopped)
