-- ===== src/Codex/Opened.antt =====
-- The open turn that a replay of api/src/transport_matters/codex/derivation_engine.py leaves, and
-- the state that an advance starts from, which resumes it.
use transport_matters.Prelude.{
  ℕ, ◌+◌, ◌-◌, Bool, true, false, ◌||◌, ◌≡◌, refl, sym, subst, inl, inr, Option, none, some, List,
  [], Text, ltb, length, if◌then◌else◌, Bool-cases, Option-cases, arith,
}
use mathlib.Core.List.{append-nil}
use transport_matters.Ir.Value.{Json}
use transport_matters.Codex.Protocol.{TerminalStatus}
use transport_matters.Codex.Events.{SemanticEvent, TurnSummary, has_valid_ranges, sort_cursor_map}
use transport_matters.Codex.Contract.{
  Derived, DerivationError, ok, absent, raises, ◌>>=◌, TurnDerivationContext, is_opened,
  next_event_seq,
}
use transport_matters.Codex.EventData.{open_assistant_text_chars}
use transport_matters.Codex.Engine.{TurnDerivationState}
use transport_matters.Codex.Advancing.{initial_state}
use transport_matters.Codex.Derive.{
  TurnEnd, turn_end, open_cursor, build_turn_summary, summary_text_chars, ended_artifacts,
  open_artifacts, conclude, finalize_state, terminal_end, terminal_turn_status,
}
use transport_matters.Codex.Update.{turn_context}
use transport_matters.Codex.SameTexts.{Same-sort, measures-Same}
use transport_matters.Codex.Resumed.{Resumes}
use transport_matters.Codex.Numbered.{IsSound}

-- the artifacts of an open turn, and the state that they come from
pub record IsOpenEnd (c : TurnDerivationContext) (s : TurnDerivationState) (es : List SemanticEvent)
    (t : TurnSummary) : Type 0 where
  pub started : s.turn_started ≡ true
  pub unended : s.terminal_status ≡ none
  pub started_at : s.started_at ≡ some t.started_at
  pub events : es ≡ s.events
  pub text_chars : t.text_chars ≡ summary_text_chars s
  pub tool_calls : t.tool_calls ≡ s.committed_tool_calls
  pub cursor : t.cursor ≡ some (open_cursor s)
  pub context : turn_context c.exchange_id t ≡ c
  pub version : t.derivation_version ≡ c.derivation_version
  pub range : ltb c.request_message_index s.end_index ≡ true

abbrev pub OpenResult :
    TurnDerivationContext
    → TurnDerivationState
    → Derived (List SemanticEvent × TurnSummary)
    → Type 0
OpenResult c s (ok (es, t)) = is_opened t.status ≡ true → IsOpenEnd c s es t
OpenResult c s absent = Unit
OpenResult c s (raises e) = Unit

terminal_turn_status_is_ended :
    (status : TerminalStatus) → is_opened (terminal_turn_status status) ≡ false
terminal_turn_status_is_ended TerminalStatus.completed = refl
terminal_turn_status_is_ended TerminalStatus.failed = refl

module _ (dumps : Json → Text) (context : TurnDerivationContext) where
  summary-OpenResult :
      (b : Bool) (s : TurnDerivationState) (es : List SemanticEvent) (t : TurnSummary)
      → (b ≡ true → is_opened t.status ≡ true → IsOpenEnd context s es t)
      → OpenResult context s
          ((if b then ok t else raises DerivationError.invalid_summary) >>= λ u. ok (es, u))
  summary-OpenResult false s es t k = tt
  summary-OpenResult true s es t k = k refl

  -- `conclude`, of a transport that is not closed, given the terminal status
  abbrev pub unclosed :
      ℕ → Option TerminalStatus → TurnDerivationState → Derived (List SemanticEvent × TurnSummary)
  unclosed started_at r s =
      elim (elim r as (λ x. Option TurnEnd) [
        | some status ↦ some (terminal_end status s)
        | none ↦ none
      ]) [
        | some e ↦
            ended_artifacts dumps context started_at e (summary_text_chars s)
              (s.committed_tool_calls + length s.open_tool_calls) s
        | none ↦ open_artifacts dumps context started_at (summary_text_chars s) (open_cursor s) s
      ]

  conclude-OpenResult :
      (started_at : ℕ) (s : TurnDerivationState)
      → s.turn_started ≡ true
      → s.started_at ≡ some started_at
      → OpenResult context s (conclude dumps context started_at none s)
  unfolding conclude ended_artifacts open_artifacts build_turn_summary turn_end terminal_end
      has_valid_ranges turn_context
  conclude-OpenResult started_at s started at = elim (Option-cases s.terminal_status) [
    | inl a ↦
        subst (λ r. OpenResult context s (unclosed started_at r s)) (sym a)
          (summary-OpenResult _ s _ _ (λ b o. record {
            started = started;
            unended = a;
            started_at = at;
            events = refl;
            text_chars = refl;
            tool_calls = refl;
            cursor = refl;
            context = refl;
            version = refl;
            range = ground (arith, b);
          }))
    | inr (status, a) ↦
        subst (λ r. OpenResult context s (unclosed started_at r s)) (sym a)
          (summary-OpenResult _ s _ _
            (λ b o. ground (arith, o, terminal_turn_status_is_ended status)))
  ]

  abbrev pub begun : Option ℕ → TurnDerivationState → Derived (List SemanticEvent × TurnSummary)
  begun r s = elim r [ none ↦ absent | some i ↦ conclude dumps context i none s ]

  pub finalize_state-OpenResult :
      (s : TurnDerivationState) → OpenResult context s (finalize_state dumps context none s)
  unfolding finalize_state
  finalize_state-OpenResult s = elim (Bool-cases s.turn_started) [
    | inr a ↦
        subst (λ b. OpenResult context s (if b then begun s.started_at s else absent)) (sym a) tt
    | inl a ↦
        subst (λ b. OpenResult context s (if b then begun s.started_at s else absent)) (sym a)
          (elim (Option-cases s.started_at) [
            | inl n ↦ subst (λ r. OpenResult context s (begun r s)) (sym n) tt
            | inr (i, n) ↦
                subst (λ r. OpenResult context s (begun r s)) (sym n) (conclude-OpenResult i s a n)
          ])
  ]

  -- the state of an advance, before its messages
  abbrev pub resumed : TurnSummary → TurnDerivationState → TurnDerivationState
  resumed t s = record {
    next_seq = s.next_seq;
    open_assistant_items = sort_cursor_map s.open_assistant_items;
    open_tool_calls = sort_cursor_map s.open_tool_calls;
    turn_started = ltb context.request_message_index s.end_index || ltb 1 s.next_seq;
    end_index = s.end_index;
    started_at = some t.started_at;
    committed_text_chars =
        t.text_chars - open_assistant_text_chars (sort_cursor_map s.open_assistant_items);
    committed_tool_calls = t.tool_calls;
    terminal_status = none;
    terminal_message_index = none;
    terminal_ts = 0;
    terminal_stop_reason = none;
    events = [];
  }

  pub initial_state-resumed :
      (es : List SemanticEvent) (t : TurnSummary) (s : TurnDerivationState)
      → IsSound context 1 s
      → initial_state dumps context
          (some (open_cursor s))
          (some t.started_at)
          (t.text_chars - open_assistant_text_chars (open_cursor s).open_assistant_items)
          t.tool_calls
        ≡ ok (resumed t s)
  unfolding initial_state next_event_seq open_cursor
  initial_state-resumed es t s h =
      let positive : ltb s.next_seq 1 ≡ false = ground (arith, h.next) in rw (positive) refl

  pub resumed-Resumes :
      (es : List SemanticEvent) (t : TurnSummary) (s : TurnDerivationState)
      → IsSound context 1 s
      → IsOpenEnd context s es t
      → Resumes s.events s (resumed t s)
  unfolding summary_text_chars
  resumed-Resumes es t s h o =
      let a = Same-sort s.open_assistant_items h.items in
      let b = Same-sort s.open_tool_calls h.calls in
      let chars : s.committed_text_chars
          ≡ t.text_chars - open_assistant_text_chars (sort_cursor_map s.open_assistant_items) =
        omega (arith, o.text_chars, (measures-Same _ _ a).0) in
      let started : s.turn_started
          ≡ (ltb context.request_message_index s.end_index || ltb 1 s.next_seq) =
        ground (arith, o.started, o.range) in
      let calm = h.unended o.unended in
      record {
        items = s.open_assistant_items;
        calls = s.open_tool_calls;
        state = λ i. record {
          next_seq = s.next_seq;
          open_assistant_items = s.open_assistant_items;
          open_tool_calls = s.open_tool_calls;
          turn_started = started i;
          end_index = s.end_index;
          started_at = o.started_at i;
          committed_text_chars = chars i;
          committed_tool_calls = sym o.tool_calls i;
          terminal_status = o.unended i;
          terminal_message_index = calm.0 i;
          terminal_ts = calm.1 i;
          terminal_stop_reason = calm.2 i;
          events = sym (append-nil s.events) i;
        };
        same_items = a;
        same_calls = b;
      }
