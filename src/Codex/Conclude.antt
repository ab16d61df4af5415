-- ===== src/Codex/Conclude.antt =====
-- The end of a turn, of api/src/transport_matters/codex/derivation_engine.py, derived from the
-- start and from a cursor: the summary is the same, and the first has the earlier events too.
use transport_matters.Prelude.{
  ℕ, ◌+◌, true, false, ◌≡◌, refl, sym, ap, subst, Option, none, some, List, [], ◌∷◌, ◌++◌, Text,
  length, if◌then◌else◌,
}
use mathlib.Core.List.{append_assoc}
use transport_matters.Ir.Value.{Json}
use transport_matters.Codex.OpenTexts.{OpenTexts}
use transport_matters.Codex.Events.{
  DerivationCursor, EventSource, SemanticEventKind, SemanticEvent, TurnSummary,
}
use transport_matters.Codex.Contract.{
  Derived, ok, absent, raises, ◌>>=◌, TransportCloseFact, TurnDerivationContext,
}
use transport_matters.Codex.EventData.{turn_finalized_event_data, semantic_event}
use transport_matters.Codex.Engine.{TurnDerivationState, append_event}
use transport_matters.Codex.Derive.{
  TurnEnd, turn_end, open_cursor, append_turn_finalized, build_turn_summary, summary_text_chars,
  ended_artifacts, open_artifacts, terminal_end, conclude, finalize_state,
}
use transport_matters.Codex.SameTexts.{Same, measures-Same, sort-Same}
use transport_matters.Codex.Resumed.{Resumes, lifted}

-- two results with their events
abbrev pub Extends :
    List SemanticEvent
    → Derived (List SemanticEvent × TurnSummary)
    → Derived (List SemanticEvent × TurnSummary)
    → Type 0
Extends pre (ok (es, t)) (ok (fs, u)) = (es ≡ pre ++ fs) × (t ≡ u)
Extends pre absent absent = Unit
Extends pre (raises e) (raises f) = e ≡ f
Extends pre _ _ = ⊥

summary-Extends :
    (pre es fs : List SemanticEvent) (r : Derived TurnSummary)
    → es ≡ pre ++ fs
    → Extends pre (r >>= λ t. ok (es, t)) (r >>= λ t. ok (fs, t))
summary-Extends pre es fs (ok t) h = (h, refl)
summary-Extends pre es fs absent h = tt
summary-Extends pre es fs (raises e) h = refl

summary_text_chars-Same :
    (pre : List SemanticEvent) (d c : OpenTexts) (t : TurnDerivationState)
    → Same d t.open_assistant_items
    → summary_text_chars (lifted pre d c t) ≡ summary_text_chars t
unfolding summary_text_chars
summary_text_chars-Same pre d c t h =
    ap (λ n. t.committed_text_chars + n) (measures-Same d t.open_assistant_items h).0

open_cursor-Same :
    (pre : List SemanticEvent) (d c : OpenTexts) (t : TurnDerivationState)
    → Same d t.open_assistant_items
    → Same c t.open_tool_calls
    → open_cursor (lifted pre d c t) ≡ open_cursor t
unfolding open_cursor
open_cursor-Same pre d c t hd hc =
    rw (sort-Same d t.open_assistant_items hd, sort-Same c t.open_tool_calls hc) refl

turn_end-lifted :
    (pre : List SemanticEvent) (d c : OpenTexts) (close : Option TransportCloseFact)
    (t : TurnDerivationState)
    → turn_end close (lifted pre d c t) ≡ turn_end close t
unfolding turn_end terminal_end
turn_end-lifted pre d c close t = refl

module _ (dumps : Json → Text) (context : TurnDerivationContext) (pre : List SemanticEvent) where
  ended_artifacts-Extends :
      (started_at : ℕ) (e : TurnEnd) (text_chars tool_calls : ℕ) (d c : OpenTexts)
      (t : TurnDerivationState)
      → Extends pre
          (ended_artifacts dumps context started_at e text_chars tool_calls (lifted pre d c t))
          (ended_artifacts dumps context started_at e text_chars tool_calls t)
  unfolding ended_artifacts build_turn_summary append_turn_finalized append_event
  ended_artifacts-Extends started_at e text_chars tool_calls d c t =
      let event =
        semantic_event context t.next_seq EventSource.proxy SemanticEventKind.turn_finalized
          e.ended_at none
          (turn_finalized_event_data e.status e.cause e.stop_reason text_chars tool_calls
            e.close_code) in
      summary-Extends pre ((pre ++ t.events) ++ event ∷ []) (t.events ++ event ∷ [])
        (build_turn_summary dumps context t started_at text_chars tool_calls (some e) none)
        (append_assoc pre t.events (event ∷ []))

  open_artifacts-Extends :
      (started_at text_chars : ℕ) (cursor : DerivationCursor) (d c : OpenTexts)
      (t : TurnDerivationState)
      → Extends pre
          (open_artifacts dumps context started_at text_chars cursor (lifted pre d c t))
          (open_artifacts dumps context started_at text_chars cursor t)
  unfolding open_artifacts build_turn_summary
  open_artifacts-Extends started_at text_chars cursor d c t =
      summary-Extends pre (pre ++ t.events) t.events
        (build_turn_summary dumps context t started_at text_chars t.committed_tool_calls none
          (some cursor))
        refl

  -- `conclude`, given what it computes of the state
  abbrev concluded :
      ℕ
      → Option TurnEnd
      → ℕ
      → ℕ
      → DerivationCursor
      → TurnDerivationState
      → Derived (List SemanticEvent × TurnSummary)
  concluded started_at finish text_chars tool_calls cursor s = elim finish [
    | some e ↦ ended_artifacts dumps context started_at e text_chars tool_calls s
    | none ↦ open_artifacts dumps context started_at text_chars cursor s
  ]

  concluded-Extends :
      (started_at : ℕ) (finish : Option TurnEnd) (text_chars tool_calls : ℕ)
      (cursor : DerivationCursor) (d c : OpenTexts) (t : TurnDerivationState)
      → Extends pre
          (concluded started_at finish text_chars tool_calls cursor (lifted pre d c t))
          (concluded started_at finish text_chars tool_calls cursor t)
  concluded-Extends started_at (some e) text_chars tool_calls cursor d c t =
      ended_artifacts-Extends started_at e text_chars tool_calls d c t
  concluded-Extends started_at none text_chars tool_calls cursor d c t =
      open_artifacts-Extends started_at text_chars cursor d c t

  conclude-Extends :
      (started_at : ℕ) (close : Option TransportCloseFact) (d c : OpenTexts)
      (t : TurnDerivationState)
      → Same d t.open_assistant_items
      → Same c t.open_tool_calls
      → Extends pre
          (conclude dumps context started_at close (lifted pre d c t))
          (conclude dumps context started_at close t)
  unfolding conclude
  conclude-Extends started_at close d c t hd hc =
      let whole : TurnDerivationState = lifted pre d c t in
      let chars : summary_text_chars whole ≡ summary_text_chars t =
        summary_text_chars-Same pre d c t hd in
      let calls : length c ≡ length t.open_tool_calls = (measures-Same c t.open_tool_calls hc).1 in
      let cursor : open_cursor whole ≡ open_cursor t = open_cursor-Same pre d c t hd hc in
      let finish : turn_end close whole ≡ turn_end close t = turn_end-lifted pre d c close t in
      let same : conclude dumps context started_at close whole
          ≡ concluded started_at (turn_end close t) (summary_text_chars t)
              (t.committed_tool_calls + length t.open_tool_calls) (open_cursor t) whole =
        (λ i.
          concluded started_at (finish i) (chars i) (t.committed_tool_calls + calls i) (cursor i)
            whole) in
      subst (λ r. Extends pre r (conclude dumps context started_at close t)) (sym same)
        (concluded-Extends started_at (turn_end close t) (summary_text_chars t)
          (t.committed_tool_calls + length t.open_tool_calls) (open_cursor t) d c t)

  lifted-Extends :
      (close : Option TransportCloseFact) (d c : OpenTexts) (t : TurnDerivationState)
      → Same d t.open_assistant_items
      → Same c t.open_tool_calls
      → Extends pre
          (finalize_state dumps context close (lifted pre d c t))
          (finalize_state dumps context close t)
  unfolding finalize_state
  lifted-Extends close d c t hd hc =
      elim t.turn_started
        as (λ b.
          Extends pre
            (if b
              then elim t.started_at [
                | none ↦ absent
                | some i ↦ conclude dumps context i close (lifted pre d c t)
              ]
              else absent)
            (if b
              then elim t.started_at [ none ↦ absent | some i ↦ conclude dumps context i close t ]
              else absent)) [
                | false ↦ tt
                | true ↦
                    elim t.started_at
                      as (λ r.
                        Extends pre
                          (elim r [
                            | none ↦ absent
                            | some i ↦ conclude dumps context i close (lifted pre d c t)
                          ])
                          (elim r [ none ↦ absent | some i ↦ conclude dumps context i close t ])) [
                            | none ↦ tt
                            | some i ↦ conclude-Extends i close d c t hd hc
                          ]
              ]

  pub finalize_state-Extends :
      (close : Option TransportCloseFact) (s t : TurnDerivationState)
      → Resumes pre s t
      → Extends pre (finalize_state dumps context close s) (finalize_state dumps context close t)
  finalize_state-Extends close s t h =
      subst
        (λ u.
          Extends pre (finalize_state dumps context close u) (finalize_state dumps context close t))
        (sym h.state) (lifted-Extends close h.items h.calls t h.same_items h.same_calls)
