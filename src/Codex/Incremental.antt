-- ===== src/Codex/Incremental.antt =====
-- A turn derived by an advance from the cursor of an open turn, and by a replay of all its
-- messages, in api/src/transport_matters/codex/derivation_engine.py.
use transport_matters.Prelude.{
  Bool, true, false, ◌≡◌, refl, sym, ◌∙◌, subst, Option, none, some, List, [], ◌∷◌, ◌++◌, Text,
  if◌then◌else◌, arith,
}
use transport_matters.Ir.Value.{Json}
use transport_matters.Codex.Events.{DerivationCursor, SemanticEvent, TurnSummary}
use transport_matters.Codex.Contract.{
  Derived, DerivationError, ok, absent, raises, ◌>>=◌, TransportMessageFact, TransportCloseFact,
  OperatorFact, TurnDerivationContext, is_opened, DerivedTurnArtifacts, derived_artifacts,
  has_valid_artifacts, ReplayRequest, AdvanceRequest,
}
use transport_matters.Codex.Engine.{TurnDerivationState}
use transport_matters.Codex.Advancing.{initial_state, advance_all, advance_state}
use transport_matters.Codex.Derive.{finalize_state, derive_turn, derive_turn_replay}
use transport_matters.Codex.Numbered.{IsSound, SoundResult}
use transport_matters.Codex.Sound.{advance_all-SoundResult}
use transport_matters.Codex.Opened.{IsOpenEnd, OpenResult, finalize_state-OpenResult}

-- the request for the messages of a turn from the start, and the one for those after the open turn
-- `a`
abbrev pub replay_of :
    TurnDerivationContext
    → List TransportMessageFact
    → List OperatorFact
    → Option TransportCloseFact
    → ReplayRequest
replay_of c messages facts close = record {
  context = c;
  transport_messages = messages;
  operator_facts = facts;
  close = close;
}

abbrev pub advance_of :
    TurnDerivationContext
    → DerivedTurnArtifacts
    → DerivationCursor
    → List TransportMessageFact
    → List OperatorFact
    → Option TransportCloseFact
    → AdvanceRequest
advance_of c a cursor messages facts close = record {
  context = c;
  transport_messages = messages;
  operator_facts = facts;
  close = close;
  cursor = cursor;
  started_at = some a.turn.started_at;
  text_chars = a.turn.text_chars;
  tool_calls = a.turn.tool_calls;
}

pub bind_ok {ℓ κ} :
    {A : Type ℓ} {B : Type κ}
    → (r : Derived A) (f : A → Derived B) (y : B) → (r >>= f) ≡ ok y
    → (x : A) × (r ≡ ok x) × (f x ≡ ok y)
bind_ok (ok x) f y h = (x, refl, h)
bind_ok absent f y h = cc
bind_ok (raises e) f y h = cc

pub bind_bind {ℓ κ μ} :
    {A : Type ℓ} {B : Type κ} {C : Type μ}
    → (r : Derived A) (f : A → Derived B) (g : B → Derived C) (h : A → Derived C)
    → ((x : A) → h x ≡ (f x >>= g))
    → (r >>= h) ≡ (r >>= f >>= g)
bind_bind (ok x) f g h e = e x
bind_bind absent f g h e = refl
bind_bind (raises i) f g h e = refl

if_ok {ℓ} :
    {A : Type ℓ}
    → (b : Bool) (x y : A) (e : DerivationError) → (if b then ok x else raises e) ≡ ok y
    → (b ≡ true) × (y ≡ x)
if_ok true x y e h = (refl, cc)
if_ok false x y e h = cc

pub derived_artifacts_ok :
    (es : List SemanticEvent) (t : TurnSummary) (a : DerivedTurnArtifacts)
    → derived_artifacts es t ≡ ok a
    → (has_valid_artifacts es t ≡ true) × (a ≡ record { events = es; turn = t })
unfolding derived_artifacts
derived_artifacts_ok es t a h = if_ok (has_valid_artifacts es t) _ a _ h

-- a result that is an error or a turn
abbrev pub IsPresent : Derived (List SemanticEvent × TurnSummary) → Type 0
IsPresent (ok x) = Unit
IsPresent absent = ⊥
IsPresent (raises e) = Unit

module _ (dumps : Json → Text) (c : TurnDerivationContext) where
  pub advance_all-append :
      (facts : List OperatorFact) (ms ns : List TransportMessageFact) (s : TurnDerivationState)
      → advance_all dumps c facts (ms ++ ns) s
        ≡ (advance_all dumps c facts ms s >>= λ t. advance_all dumps c facts ns t)
  unfolding advance_all
  advance_all-append facts [] ns s = refl
  advance_all-append facts (m ∷ ms) ns s =
      bind_bind (advance_state dumps c facts m s) _ _ _ (advance_all-append facts ms ns)

  -- the state before the first message
  abbrev pub start : TurnDerivationState
  start = record {
    next_seq = 1;
    open_assistant_items = [];
    open_tool_calls = [];
    turn_started = false;
    end_index = c.request_message_index;
    started_at = none;
    committed_text_chars = 0;
    committed_tool_calls = 0;
    terminal_status = none;
    terminal_message_index = none;
    terminal_ts = 0;
    terminal_stop_reason = none;
    events = [];
  }

  abbrev pub concluded :
      Option TransportCloseFact → Derived TurnDerivationState → Derived DerivedTurnArtifacts
  concluded close r = (r >>= finalize_state dumps c close) >>= λ x. derived_artifacts x.0 x.1

  pub start-IsSound : IsSound c 1 start
  start-IsSound = record {
    next = omega arith;
    numbered = tt;
    items = tt;
    calls = tt;
    unended = λ e. (refl, refl, refl);
  }

  pub replay_is :
      (facts : List OperatorFact) (ms : List TransportMessageFact)
      (close : Option TransportCloseFact)
      → derive_turn_replay dumps (replay_of c ms facts close)
        ≡ concluded close (advance_all dumps c facts ms start)
  unfolding derive_turn_replay derive_turn initial_state
  replay_is facts ms close = bind_bind (advance_all dumps c facts ms start) _ _ _ (λ t. refl)

  -- the state of an open turn
  pub opened_state :
      (facts : List OperatorFact) (ms : List TransportMessageFact) (a : DerivedTurnArtifacts)
      → derive_turn_replay dumps (replay_of c ms facts none) ≡ ok a
      → is_opened a.turn.status ≡ true
      → (s : TurnDerivationState) × (advance_all dumps c facts ms start ≡ ok s)
        × IsSound c 1 s
        × IsOpenEnd c s a.events a.turn
        × (has_valid_artifacts a.events a.turn ≡ true)
  opened_state facts ms a h o =
      let result =
        bind_ok (advance_all dumps c facts ms start >>= finalize_state dumps c none) _ a
          (sym (replay_is facts ms none) ∙ h) in
      let state =
        bind_ok (advance_all dumps c facts ms start) (finalize_state dumps c none) result.0
          result.1 in
      let s : TurnDerivationState = state.0 in
      let made = derived_artifacts_ok result.0.0 result.0.1 a result.2 in
      let sound : IsSound c 1 s =
        subst (SoundResult c 1) state.1
          (advance_all-SoundResult dumps c 1 facts ms start start-IsSound) in
      let ends : OpenResult c s (ok result.0) =
        subst (OpenResult c s) state.2 (finalize_state-OpenResult dumps c s) in
      let ended : IsOpenEnd c s a.events a.turn =
        subst (λ b. is_opened b.turn.status ≡ true → IsOpenEnd c s b.events b.turn) (sym made.1)
          ends o in
      (
        s,
        state.1,
        sound,
        ended,
        subst (λ b. has_valid_artifacts b.events b.turn ≡ true) (sym made.1) made.0,
      )
