-- ===== src/Codex/Results.antt =====
-- The results of an advance and of a replay in
-- api/src/transport_matters/codex/derivation_engine.py: they extend one another, are summaries, and
-- are there.
use transport_matters.Prelude.{
  ℕ, ◌-◌, Bool, true, false, ◌≡◌, refl, sym, ap, ◌∙◌, subst, inl, inr, Option, none, some, List,
  Text, if◌then◌else◌, Option-cases, arith,
}
use transport_matters.Ir.Value.{Json}
use transport_matters.Codex.Events.{DerivationCursor, SemanticEvent, TurnSummary}
use transport_matters.Codex.Contract.{
  Derived, DerivationError, ok, absent, raises, ◌>>=◌, TransportMessageFact, TransportCloseFact,
  OperatorFact, TurnDerivationContext, DerivedTurnArtifacts, derived_artifacts,
}
use transport_matters.Codex.EventData.{open_assistant_text_chars}
use transport_matters.Codex.Engine.{TurnDerivationState}
use transport_matters.Codex.Advancing.{initial_state, advance_all}
use transport_matters.Codex.Derive.{
  turn_end, conclude, ended_artifacts, open_artifacts, build_turn_summary, open_cursor,
  finalize_state, derive_turn, require_turn, derive_turn_incremental,
}
use transport_matters.Codex.Steps.{Alike}
use transport_matters.Codex.Advance.{HasStarted, IsStarted}
use transport_matters.Codex.Conclude.{Extends, finalize_state-Extends}
use transport_matters.Codex.Numbered.{IsSound, SoundResult}
use transport_matters.Codex.Validity.{SummaryResult}
use transport_matters.Codex.Summaries.{finalize_state-SummaryResult}
use transport_matters.Codex.Opened.{IsOpenEnd, resumed, initial_state-resumed}
use transport_matters.Codex.Incremental.{IsPresent, advance_of, bind_bind, concluded}

module _ (dumps : Json → Text) (c : TurnDerivationContext) where
  pub advance_is :
      (facts : List OperatorFact) (ns : List TransportMessageFact)
      (close : Option TransportCloseFact) (a : DerivedTurnArtifacts) (cursor : DerivationCursor)
      (s : TurnDerivationState)
      → a.turn.cursor ≡ some cursor
      → IsSound c 1 s
      → IsOpenEnd c s a.events a.turn
      → derive_turn_incremental dumps (advance_of c a cursor ns facts close)
        ≡ require_turn
            (concluded dumps c close (advance_all dumps c facts ns (resumed dumps c a.turn s)))
  unfolding derive_turn_incremental derive_turn
  advance_is facts ns close a cursor s e h o =
      let here : some cursor ≡ some (open_cursor s) = sym e ∙ o.cursor in
      let begun : initial_state dumps c (some cursor) (some a.turn.started_at)
            (a.turn.text_chars - open_assistant_text_chars cursor.open_assistant_items)
            a.turn.tool_calls
          ≡ ok (resumed dumps c a.turn s) =
        subst
          (λ d.
            initial_state dumps c d (some a.turn.started_at)
              (a.turn.text_chars
                - elim d [ none ↦ 0 | some x ↦ open_assistant_text_chars x.open_assistant_items ])
              a.turn.tool_calls
            ≡ ok (resumed dumps c a.turn s))
          (sym here) (initial_state-resumed dumps c a.events a.turn s h) in
      ap
        (λ r. require_turn (
          r >>= λ t. advance_all dumps c facts ns t >>= λ u.
          finalize_state dumps c close u >>= λ x. derived_artifacts x.0 x.1))
        begun
      ∙ ap require_turn
          (bind_bind (advance_all dumps c facts ns (resumed dumps c a.turn s)) _ _ _ (λ t. refl))

  pub bind-Extends :
      (pre : List SemanticEvent) (close : Option TransportCloseFact)
      (p q : Derived TurnDerivationState)
      → Alike pre p q
      → Extends pre (p >>= finalize_state dumps c close) (q >>= finalize_state dumps c close)
  bind-Extends pre close (ok s) (ok t) h = finalize_state-Extends dumps c pre close s t h
  bind-Extends pre close (ok s) absent h = absurd h
  bind-Extends pre close (ok s) (raises e) h = absurd h
  bind-Extends pre close absent (ok t) h = absurd h
  bind-Extends pre close absent absent h = tt
  bind-Extends pre close absent (raises e) h = absurd h
  bind-Extends pre close (raises e) (ok t) h = absurd h
  bind-Extends pre close (raises e) absent h = absurd h
  bind-Extends pre close (raises e) (raises f) h = h

  build_turn_summary-IsPresent :
      (b : Bool) (es : List SemanticEvent) (t : TurnSummary)
      → IsPresent ((if b then ok t else raises DerivationError.invalid_summary) >>= λ u. ok (es, u))
  build_turn_summary-IsPresent true es t = tt
  build_turn_summary-IsPresent false es t = tt

  conclude-IsPresent :
      (started_at : ℕ) (close : Option TransportCloseFact) (s : TurnDerivationState)
      → IsPresent (conclude dumps c started_at close s)
  unfolding conclude ended_artifacts open_artifacts build_turn_summary
  conclude-IsPresent started_at close s = elim (Option-cases (turn_end close s)) [
    | inl n ↦ rw (n, conclude) (build_turn_summary-IsPresent _ _ _)
    | inr (e, n) ↦ rw (n, conclude) (build_turn_summary-IsPresent _ _ _)
  ]

  finalize_state-IsPresent :
      (close : Option TransportCloseFact) (s : TurnDerivationState)
      → HasStarted s
      → IsPresent (finalize_state dumps c close s)
  unfolding finalize_state
  finalize_state-IsPresent close s h = elim (Option-cases s.started_at) [
    | inl n ↦ ground (arith, n, h.1)
    | inr (i, n) ↦
        let concluded_at : finalize_state dumps c close s ≡ conclude dumps c i close s = λ k.
          if h.0 k
          then elim (n k) [ none ↦ absent | some j ↦ conclude dumps c j close s ]
          else absent in
        subst IsPresent (sym concluded_at) (conclude-IsPresent i close s)
  ]

  pub bind-IsPresent :
      (close : Option TransportCloseFact) (r : Derived TurnDerivationState)
      → IsStarted r
      → IsPresent (r >>= finalize_state dumps c close)
  bind-IsPresent close (ok s) h = finalize_state-IsPresent close s h
  bind-IsPresent close absent h = absurd h
  bind-IsPresent close (raises e) h = tt

  pub bind-SummaryResult :
      (n : ℕ) (close : Option TransportCloseFact) (p : Derived TurnDerivationState)
      → SoundResult c n p
      → SummaryResult c n (p >>= finalize_state dumps c close)
  bind-SummaryResult n close (ok s) h = finalize_state-SummaryResult dumps c n close s h
  bind-SummaryResult n close absent h = tt
  bind-SummaryResult n close (raises e) h = tt
