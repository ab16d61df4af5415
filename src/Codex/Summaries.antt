-- ===== src/Codex/Summaries.antt =====
-- What api/src/transport_matters/codex/derivation_engine.py concludes from a sound state is a
-- summary of the context, with numbered events.
use transport_matters.Prelude.{
  ℕ, ◌+◌, Bool, true, false, ◌≡◌, refl, subst, inl, inr, Option, none, some, List, Text, length,
  if◌then◌else◌, Option-cases, arith,
}
use transport_matters.Ir.Value.{Json}
use transport_matters.Codex.Events.{SemanticEvent, TurnSummary}
use transport_matters.Codex.Contract.{
  DerivationError, ok, absent, raises, ◌>>=◌, TransportCloseFact, TurnDerivationContext, is_opened,
}
use transport_matters.Codex.Engine.{TurnDerivationState}
use transport_matters.Codex.Derive.{
  TurnEnd, turn_end, open_cursor, append_turn_finalized, build_turn_summary, summary_text_chars,
  ended_artifacts, open_artifacts, conclude, finalize_state,
}
use transport_matters.Codex.Numbered.{IsNumbered, IsSound}
use transport_matters.Codex.Sound.{append_event-IsSound}
use transport_matters.Codex.Validity.{IsEnded, IsSummary, SummaryResult, turn_end-IsEnded}

module _ (dumps : Json → Text) (context : TurnDerivationContext) (n : ℕ) where
  -- the summary that the engine builds, once its checks have passed
  summary-SummaryResult :
      (b : Bool) (es : List SemanticEvent) (next : ℕ) (t : TurnSummary)
      → next ≡ n + length es
      → IsNumbered context n es
      → (b ≡ true → IsSummary context next t)
      → SummaryResult context n
          ((if b then ok t else raises DerivationError.invalid_summary) >>= λ u. ok (es, u))
  summary-SummaryResult false es next t e h k = tt
  summary-SummaryResult true es next t e h k = (h, subst (λ m. IsSummary context m t) e (k refl))

  ended_artifacts-SummaryResult :
      (started_at : ℕ) (e : TurnEnd) (text_chars tool_calls : ℕ) (s : TurnDerivationState)
      → is_opened e.status ≡ false
      → IsSound context n s
      → SummaryResult context n (ended_artifacts dumps context started_at e text_chars tool_calls s)
  unfolding ended_artifacts append_turn_finalized build_turn_summary
  ended_artifacts-SummaryResult started_at e text_chars tool_calls s ended h =
      let g = append_event-IsSound dumps context n _ _ _ _ _ s h in
      summary-SummaryResult _ _ _ _ g.next g.numbered (λ b. record {
        exchange_id = refl;
        session_id = refl;
        turn_id = refl;
        version = refl;
        cursor = λ a. ground (arith, a, ended);
      })

  open_artifacts-SummaryResult :
      (started_at text_chars : ℕ) (s : TurnDerivationState)
      → IsSound context n s
      → SummaryResult context n
          (open_artifacts dumps context started_at text_chars (open_cursor s) s)
  unfolding open_artifacts build_turn_summary open_cursor
  open_artifacts-SummaryResult started_at text_chars s h =
      summary-SummaryResult _ _ _ _ h.next h.numbered (λ b. record {
        exchange_id = refl;
        session_id = refl;
        turn_id = refl;
        version = refl;
        cursor = λ a. (open_cursor s, refl, refl, (ground (arith, b)), refl);
      })

  conclude-SummaryResult :
      (started_at : ℕ) (close : Option TransportCloseFact) (s : TurnDerivationState)
      → IsSound context n s
      → SummaryResult context n (conclude dumps context started_at close s)
  unfolding conclude
  conclude-SummaryResult started_at close s h = elim (Option-cases (turn_end close s)) [
    | inl a ↦ rw (a, conclude) (open_artifacts-SummaryResult started_at (summary_text_chars s) s h)
    | inr (e, a) ↦
        rw (a, conclude)
          (ended_artifacts-SummaryResult started_at e _ _ s
            (subst IsEnded a (turn_end-IsEnded close s)) h)
  ]

  pub finalize_state-SummaryResult :
      (close : Option TransportCloseFact) (s : TurnDerivationState)
      → IsSound context n s
      → SummaryResult context n (finalize_state dumps context close s)
  unfolding finalize_state
  finalize_state-SummaryResult close s h =
      elim s.turn_started
        as (λ b. SummaryResult context n (
          if b
          then elim s.started_at [ none ↦ absent | some i ↦ conclude dumps context i close s ]
          else absent)) [
            | false ↦ tt
            | true ↦
                elim s.started_at
                  as (λ r.
                    SummaryResult context n
                      (elim r [ none ↦ absent | some i ↦ conclude dumps context i close s ])) [
                        | none ↦ tt
                        | some i ↦ conclude-SummaryResult i close s h
                      ]
          ]
