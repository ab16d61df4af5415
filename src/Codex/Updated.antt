-- ===== src/Codex/Updated.antt =====
-- The artifacts of an open turn, brought up to date by
-- api/src/transport_matters/codex/exchange_derivation.py: they are those of a replay of the whole
-- transport.
use transport_matters.Prelude.{
  Bool, true, false, ◌≡◌, refl, sym, ap, ◌∙◌, subst, ◌⊎◌, inl, inr, Option, none, some, List, [],
  ◌∷◌, ◌++◌, Text, if◌then◌else◌, Bool-cases,
}
use transport_matters.Ir.Value.{Json}
use transport_matters.Codex.Events.{DerivationCursor}
use transport_matters.Codex.Contract.{
  Derived, DerivationError, ok, absent, raises, ◌>>=◌, TransportMessageFact, TransportCloseFact,
  OperatorFact, TurnDerivationContext, is_opened, DerivedTurnArtifacts, derived_artifacts,
  has_valid_artifacts, replay_request, advance_request, sort_operator_facts,
}
use transport_matters.Codex.Advancing.{advance_all}
use transport_matters.Codex.Derive.{
  finalize_state, derive_turn_replay, require_turn, derive_turn_incremental,
}
use transport_matters.Codex.Update.{
  or_replay, TransportArtifacts, transport_message_facts, close_fact, is_validation_error, caught,
  replay_derived_artifacts, advance_open_turn, advance_derived_artifacts, updated_artifacts,
}
use transport_matters.Codex.Incremental.{
  replay_of, advance_of, start, replay_is, bind_ok, derived_artifacts_ok,
}
use transport_matters.Codex.Agreement.{Outcome, resumed-Outcome}

-- the events of an advance after those of the turn
abbrev extended : DerivedTurnArtifacts → Derived DerivedTurnArtifacts → Derived DerivedTurnArtifacts
extended a r = caught r >>= λ b. derived_artifacts (a.events ++ b.events) b.turn

or_replay-Outcome :
    (a : DerivedTurnArtifacts) (x y : Derived DerivedTurnArtifacts)
    → ((w : DerivedTurnArtifacts) → x ≡ ok w → has_valid_artifacts w.events w.turn ≡ true)
    → Outcome x y a.events
    → or_replay (extended a (require_turn y)) x ≡ x
unfolding require_turn caught derived_artifacts or_replay
or_replay-Outcome a (ok w) (ok b) v h =
    let checks : has_valid_artifacts (a.events ++ b.events) b.turn ≡ true =
      subst (λ es. has_valid_artifacts es b.turn ≡ true) h.0
        (subst (λ t. has_valid_artifacts w.events t ≡ true) h.1 (v w refl)) in
    rw (checks) (λ i. ok (record { events = sym h.0 i; turn = sym h.1 i }))
or_replay-Outcome a (ok w) absent v h = absurd h
or_replay-Outcome a (ok w) (raises e) v h = rw (h.0) refl
or_replay-Outcome a absent (ok b) v h = absurd h
or_replay-Outcome a absent absent v h = absurd h
or_replay-Outcome a absent (raises e) v h = absurd h
or_replay-Outcome a (raises e) (ok b) v h = absurd h
or_replay-Outcome a (raises e) absent v h = absurd h
or_replay-Outcome a (raises e) (raises f) v h =
    subst (λ g. or_replay (extended a (raises g)) (raises e) ≡ raises e) h
      (elim (Bool-cases (is_validation_error e)) [ inl b ↦ rw (b) refl | inr b ↦ rw (b) refl ])

-- what a replay gives has been checked
replay-valid :
    (dumps : Json → Text) (c : TurnDerivationContext) (facts : List OperatorFact)
    (ms : List TransportMessageFact) (close : Option TransportCloseFact) (w : DerivedTurnArtifacts)
    → derive_turn_replay dumps (replay_of c ms facts close) ≡ ok w
    → has_valid_artifacts w.events w.turn ≡ true
replay-valid dumps c facts ms close w h =
    let result =
      bind_ok (advance_all dumps c facts ms (start dumps c) >>= finalize_state dumps c close) _ w
        (sym (replay_is dumps c facts ms close) ∙ h) in
    let made = derived_artifacts_ok result.0.0 result.0.1 w result.2 in
    subst (λ b. has_valid_artifacts b.events b.turn ≡ true) (sym made.1) made.0

if_raises_cases {ℓ} :
    {A : Type ℓ}
    → (b : Bool) (x : A)
    → ((if b then ok x else raises DerivationError.invalid_request) ≡ ok x)
      ⊎ ((if b then ok x else raises DerivationError.invalid_request)
          ≡ raises DerivationError.invalid_request)
if_raises_cases true x = inl refl
if_raises_cases false x = inr refl

-- the replay of a transport whose request is valid
replay_of_transport :
    (dumps : Json → Text) (c : TurnDerivationContext) (facts sorted : List OperatorFact)
    (fs : List TransportMessageFact) (t : TransportArtifacts)
    → transport_message_facts t 0 ≡ ok fs
    → replay_request (replay_of c fs facts (close_fact t))
      ≡ ok (replay_of c fs sorted (close_fact t))
    → replay_derived_artifacts dumps (some c) facts t
      ≡ derive_turn_replay dumps (replay_of c fs sorted (close_fact t))
unfolding replay_derived_artifacts replay_request
replay_of_transport dumps c facts sorted [] t whole request =
    ap
      (λ (q : Derived (List TransportMessageFact)). q >>= λ messages. elim messages [
        | [] ↦ absent
        | n ∷ ns ↦ replay_request (replay_of c (n ∷ ns) facts (close_fact t)) >>= λ r.
            derive_turn_replay dumps r
      ])
      whole
replay_of_transport dumps c facts sorted (m ∷ ms) t whole request =
    ap
      (λ (q : Derived (List TransportMessageFact)). q >>= λ messages. elim messages [
        | [] ↦ absent
        | n ∷ ns ↦ replay_request (replay_of c (n ∷ ns) facts (close_fact t)) >>= λ r.
            derive_turn_replay dumps r
      ])
      whole
    ∙ ap (λ q. q >>= λ r. derive_turn_replay dumps r) request

advance_request-cases :
    (c : TurnDerivationContext) (a : DerivedTurnArtifacts) (cursor : DerivationCursor)
    (ns : List TransportMessageFact) (close : Option TransportCloseFact)
    → (advance_request (advance_of c a cursor ns [] close) ≡ ok (advance_of c a cursor ns [] close))
      ⊎ (advance_request (advance_of c a cursor ns [] close)
          ≡ raises DerivationError.invalid_request)
unfolding advance_request sort_operator_facts
advance_request-cases c a cursor ns close = if_raises_cases _ _

-- the advance whose request is checked first
or_replay_request :
    (dumps : Json → Text) (c : TurnDerivationContext) (a : DerivedTurnArtifacts)
    (cursor : DerivationCursor) (ns : List TransportMessageFact) (close : Option TransportCloseFact)
    (x y : Derived DerivedTurnArtifacts)
    → ((w : DerivedTurnArtifacts) → x ≡ ok w → has_valid_artifacts w.events w.turn ≡ true)
    → derive_turn_incremental dumps (advance_of c a cursor ns [] close) ≡ require_turn y
    → Outcome x y a.events
    → or_replay
        (extended a (
          advance_request (advance_of c a cursor ns [] close) >>= λ q.
          derive_turn_incremental dumps q))
        x
      ≡ x
unfolding caught or_replay
or_replay_request dumps c a cursor ns close x y v same h =
    elim (advance_request-cases c a cursor ns close) [
      | inl ok_request ↦
          ap (λ p. or_replay (extended a (p >>= λ q. derive_turn_incremental dumps q)) x) ok_request
          ∙ ap (λ p. or_replay (extended a p) x) same
          ∙ or_replay-Outcome a x y v h
      | inr bad ↦
          ap (λ p. or_replay (extended a (p >>= λ q. derive_turn_incremental dumps q)) x) bad
    ]

-- An open turn that a replay of the messages `ms` has derived, whose cursor stands before the
-- messages `ns` of a transport with the messages `ms` and `ns`: the turn brought up to date with
-- the transport is the turn of a replay of the transport, or the error of that replay, whatever the
-- advance gives.
pub updated_artifacts-replay :
    (dumps : Json → Text) (c : TurnDerivationContext) (facts : List OperatorFact)
    (ms ns : List TransportMessageFact) (t : TransportArtifacts) (a : DerivedTurnArtifacts)
    (cursor : DerivationCursor)
    → derive_turn_replay dumps (replay_of c ms (sort_operator_facts facts) none) ≡ ok a
    → is_opened a.turn.status ≡ true
    → a.turn.cursor ≡ some cursor
    → transport_message_facts t 0 ≡ ok (ms ++ ns)
    → transport_message_facts t cursor.next_message_index ≡ ok ns
    → replay_request (replay_of c (ms ++ ns) facts (close_fact t))
      ≡ ok (replay_of c (ms ++ ns) (sort_operator_facts facts) (close_fact t))
    → updated_artifacts dumps a c.exchange_id (some c) facts t
      ≡ replay_derived_artifacts dumps (some c) facts t
unfolding updated_artifacts advance_derived_artifacts advance_open_turn
updated_artifacts-replay dumps c facts ms ns t a cursor h o e whole rest request =
    let r =
      resumed-Outcome dumps c (sort_operator_facts facts) [] ms ns (close_fact t) a cursor h o e in
    let y : Derived DerivedTurnArtifacts = r.0 in
    let x : Derived DerivedTurnArtifacts =
      derive_turn_replay dumps
        (replay_of c (ms ++ ns) (sort_operator_facts facts) (close_fact t)) in
    let replayed : replay_derived_artifacts dumps (some c) facts t ≡ x =
      replay_of_transport dumps c facts (sort_operator_facts facts) (ms ++ ns) t whole request in
    let advanced : advance_derived_artifacts dumps a c.exchange_id t
        ≡ extended a (
            advance_request (advance_of c a cursor ns [] (close_fact t)) >>= λ q.
            derive_turn_incremental dumps q) =
      (λ i.
        if o i
        then elim (e i) [
          | none ↦ ok a
          | some d ↦ transport_message_facts t d.next_message_index >>= λ fs.
              advance_open_turn dumps a c.exchange_id d (close_fact t) fs
        ]
        else ok a)
      ∙ (λ i. rest i >>= λ fs. advance_open_turn dumps a c.exchange_id cursor (close_fact t) fs)
      ∙ (λ i. extended a (
          advance_request (advance_of (r.3 i) a cursor ns [] (close_fact t)) >>= λ q.
          derive_turn_incremental dumps q)) in
    ap (λ z. or_replay z (replay_derived_artifacts dumps (some c) facts t)) advanced
    ∙ ap
        (λ z.
          or_replay
            (extended a (
              advance_request (advance_of c a cursor ns [] (close_fact t)) >>= λ q.
              derive_turn_incremental dumps q))
            z)
        replayed
    ∙ or_replay_request dumps c a cursor ns (close_fact t) x y
        (λ w g. replay-valid dumps c (sort_operator_facts facts) (ms ++ ns) (close_fact t) w g) r.1
        r.2
    ∙ sym replayed
