-- ===== src/Codex/Agreement.antt =====
-- The advance and the replay of api/src/transport_matters/codex/derivation_engine.py: the artifacts
-- of an open turn, then of an advance over the messages that follow, and of a replay of them all.
use transport_matters.Prelude.{
  ℕ, ◌+◌, Bool, true, false, not, ◌||◌, ◌≡◌, refl, sym, ap, ◌∙◌, subst, inl, inr, Option, none,
  some, List, [], ◌∷◌, ◌++◌, Text, ◌==◌, length, if◌then◌else◌, Bool-cases, arith,
}
use mathlib.Core.List.{append-nil}
use transport_matters.Ir.Value.{Json}
use transport_matters.Codex.Events.{DerivationCursor, SemanticEvent, TurnSummary}
use transport_matters.Codex.Contract.{
  Derived, DerivationError, ok, absent, raises, ◌>>=◌, TransportMessageFact, TransportCloseFact,
  OperatorFact, TurnDerivationContext, is_opened, DerivedTurnArtifacts, derived_artifacts,
  has_valid_artifacts, is_nonempty, derivation_version,
}
use transport_matters.Codex.Engine.{TurnDerivationState}
use transport_matters.Codex.Advancing.{advance_all}
use transport_matters.Codex.Derive.{
  finalize_state, derive_turn_replay, require_turn, derive_turn_incremental,
}
use transport_matters.Codex.Update.{turn_context}
use transport_matters.Codex.Resumed.{Resumes}
use transport_matters.Codex.Advance.{advance_all-Alike}
use transport_matters.Codex.Conclude.{Extends}
use transport_matters.Codex.Numbered.{IsSound}
use transport_matters.Codex.Sound.{advance_all-SoundResult}
use transport_matters.Codex.Validity.{SummaryResult, passes, has_valid_artifacts-passes}
use transport_matters.Codex.Opened.{IsOpenEnd, resumed, resumed-Resumes}
use transport_matters.Codex.Incremental.{
  replay_of, advance_of, concluded, start, replay_is, opened_state, IsPresent, advance_all-append,
}
use transport_matters.Codex.Results.{advance_is, bind-Extends, bind-IsPresent, bind-SummaryResult}

-- the artifacts, checked
abbrev checked : Derived (List SemanticEvent × TurnSummary) → Derived DerivedTurnArtifacts
checked r = r >>= λ x. derived_artifacts x.0 x.1

-- the events and the turn of a replay of all the messages, and of an advance over the last of them
record IsAgreed (c : TurnDerivationContext) (pre : List SemanticEvent)
    (x y : Derived (List SemanticEvent × TurnSummary)) : Type 0 where
  version : (c.derivation_version == derivation_version) ≡ true
  extends : Extends pre x y
  present : IsPresent y
  whole : SummaryResult c 1 x
  rest : SummaryResult c (1 + length pre) y

check-passes :
    (c : TurnDerivationContext) (n : ℕ) (es : List SemanticEvent) (t : TurnSummary) (b : Bool)
    → SummaryResult c n (ok (es, t))
    → passes c n es t ≡ b
    → checked (ok (es, t)) ≡ (
        if b
        then ok (record { events = es; turn = t })
        else raises DerivationError.invalid_artifacts)
unfolding derived_artifacts
check-passes c n es t b h e =
    ap
      (λ v.
        if v
        then ok (record { events = es; turn = t })
        else raises DerivationError.invalid_artifacts)
      (has_valid_artifacts-passes c n es t h.0 h.1 ∙ e)

pub whole_checked :
    (c : TurnDerivationContext) (es : List SemanticEvent) (t : TurnSummary)
    → (c.derivation_version == derivation_version) ≡ true
    → SummaryResult c 1 (ok (es, t))
    → checked (ok (es, t)) ≡ ok (record { events = es; turn = t })
whole_checked c es t v h = check-passes c 1 es t true h (ground (arith, v))

-- the three outcomes of the two
abbrev pub Outcome :
    Derived DerivedTurnArtifacts → Derived DerivedTurnArtifacts → List SemanticEvent → Type 0
Outcome (ok w) (ok b) pre =
    (w.events ≡ pre ++ b.events)
    × (w.turn ≡ b.turn)
    × ((not (is_opened b.turn.status) || is_nonempty b.events || not (is_nonempty pre)) ≡ true)
Outcome (ok w) (raises e) pre =
    (e ≡ DerivationError.invalid_artifacts) × (w.events ≡ pre) × (is_opened w.turn.status ≡ true)
Outcome (raises e) (raises f) pre = e ≡ f
Outcome _ _ pre = ⊥

is_nonempty-length {ℓ} : {A : Type ℓ} → (xs : List A) → (1 + length xs == 1) ≡ not (is_nonempty xs)
is_nonempty-length [] = refl
is_nonempty-length (x ∷ xs) = ground arith

is_nonempty_empty {ℓ} : {A : Type ℓ} → (xs : List A) → is_nonempty xs ≡ false → xs ≡ []
is_nonempty_empty [] h = refl
is_nonempty_empty (x ∷ xs) h = cc

agreed-Outcome :
    (c : TurnDerivationContext) (pre : List SemanticEvent)
    (x y : Derived (List SemanticEvent × TurnSummary))
    → IsAgreed c pre x y
    → Outcome (checked x) (checked y) pre
agreed-Outcome c pre (ok (es, t)) (ok (fs, u)) h =
    let w = whole_checked c es t h.version h.whole in
    elim (Bool-cases (passes c (1 + length pre) fs u)) [
      | inl b ↦
          rw (w, check-passes c (1 + length pre) fs u true h.rest b)
            (h.extends.0, h.extends.1, ground (arith, b, is_nonempty-length pre))
      | inr b ↦
          rw (w, check-passes c (1 + length pre) fs u false h.rest b)
            (
              refl,
              h.extends.0
                  ∙ ap (λ l. pre ++ l) (is_nonempty_empty fs (ground (arith, b, h.version)))
                  ∙ append-nil pre,
              ap (λ v. is_opened v.status) h.extends.1 ∙ ground (arith, b, h.version),
            )
    ]
agreed-Outcome c pre (ok x) absent h = absurd h.extends
agreed-Outcome c pre (ok x) (raises e) h = absurd h.extends
agreed-Outcome c pre absent (ok y) h = absurd h.extends
agreed-Outcome c pre absent absent h = absurd h.present
agreed-Outcome c pre absent (raises e) h = absurd h.extends
agreed-Outcome c pre (raises e) (ok y) h = absurd h.extends
agreed-Outcome c pre (raises e) absent h = absurd h.extends
agreed-Outcome c pre (raises e) (raises f) h = h.extends

artifacts_version :
    (c : TurnDerivationContext) (es : List SemanticEvent) (t : TurnSummary)
    → t.derivation_version ≡ c.derivation_version
    → has_valid_artifacts es t ≡ true
    → (c.derivation_version == derivation_version) ≡ true
unfolding has_valid_artifacts
artifacts_version c es t e h = ground (arith, e, h)

module _ (dumps : Json → Text) (c : TurnDerivationContext) (facts facts2 : List OperatorFact)
    (ms ns : List TransportMessageFact) (close : Option TransportCloseFact)
    (a : DerivedTurnArtifacts) (cursor : DerivationCursor) where
  -- the messages that follow an open turn, derived in the two ways
  pub resumed-Outcome :
      derive_turn_replay dumps (replay_of c ms facts none) ≡ ok a
      → is_opened a.turn.status ≡ true
      → a.turn.cursor ≡ some cursor
      → (y : Derived DerivedTurnArtifacts) × (derive_turn_incremental dumps
            (advance_of c a cursor ns facts2 close)
          ≡ require_turn y)
        × Outcome (derive_turn_replay dumps (replay_of c (ms ++ ns) facts close)) y a.events
        × (turn_context c.exchange_id a.turn ≡ c)
  resumed-Outcome h o e =
      let found = opened_state dumps c facts ms a h o in
      let s : TurnDerivationState = found.0 in
      let sound : IsSound c 1 s = found.2 in
      let ended : IsOpenEnd c s a.events a.turn = found.3 in
      let t : TurnDerivationState = resumed dumps c a.turn s in
      let same : Resumes s.events s t = resumed-Resumes dumps c a.events a.turn s sound ended in
      let alike =
        advance_all-Alike dumps c s.events facts facts2 ns s t same
          (ground (arith, ended.range), refl) in
      let agreed : IsAgreed c s.events
          (advance_all dumps c facts ns s >>= finalize_state dumps c close)
          (advance_all dumps c facts2 ns t >>= finalize_state dumps c close) =
        record {
          version = artifacts_version c a.events a.turn ended.version found.4;
          extends =
              bind-Extends dumps c s.events close (advance_all dumps c facts ns s)
                (advance_all dumps c facts2 ns t) alike.0;
          present = bind-IsPresent dumps c close (advance_all dumps c facts2 ns t) alike.1;
          whole =
              bind-SummaryResult dumps c 1 close (advance_all dumps c facts ns s)
                (advance_all-SoundResult dumps c 1 facts ns s sound);
          rest =
              bind-SummaryResult dumps c (1 + length s.events) close
                (advance_all dumps c facts2 ns t)
                (advance_all-SoundResult dumps c (1 + length s.events) facts2 ns t (record {
                  next = omega (arith, sound.next);
                  numbered = tt;
                  items = same.same_items.right;
                  calls = same.same_calls.right;
                  unended = λ n. (refl, refl, refl);
                }));
        } in
      let whole : derive_turn_replay dumps (replay_of c (ms ++ ns) facts close)
          ≡ concluded dumps c close (advance_all dumps c facts ns s) =
        replay_is dumps c facts (ms ++ ns) close
        ∙ ap (concluded dumps c close) (
            advance_all-append dumps c facts ms ns (start dumps c)
            ∙ ap (λ r. r >>= λ u. advance_all dumps c facts ns u) found.1) in
      let rest : Derived DerivedTurnArtifacts =
        concluded dumps c close (advance_all dumps c facts2 ns t) in
      (
        rest,
        advance_is dumps c facts2 ns close a cursor s e sound ended,
        subst
            (λ es. Outcome (derive_turn_replay dumps (replay_of c (ms ++ ns) facts close)) rest es)
            (sym ended.events)
            (subst (λ r. Outcome r rest s.events) (sym whole)
              (agreed-Outcome c s.events _ _ agreed)),
        ended.context,
      )
