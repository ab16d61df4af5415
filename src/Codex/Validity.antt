-- ===== src/Codex/Validity.antt =====
-- The checks of the artifacts in api/src/transport_matters/codex/derivation_contract.py, of what the
-- engine concludes from a sound state.
use transport_matters.Prelude.{
  ℕ, suc, ◌+◌, Bool, true, false, not, ◌&&◌, ◌||◌, ◌≡◌, refl, sym, ap, ◌∙◌, inl, inr, Option, none,
  some, List, [], ◌∷◌, text_eq, text_eq_iff, ◌==◌, length, if◌then◌else◌, all, Bool-cases, arith,
}
use transport_matters.Codex.Protocol.{TerminalStatus}
use transport_matters.Codex.Events.{DerivationCursor, SemanticEvent, TurnSummary}
use transport_matters.Codex.Contract.{
  Derived, ok, absent, raises, TransportCloseFact, TurnDerivationContext, event_id_for_seq,
  is_event_of, follows, is_contiguous, last_seq, expected_next_seq, is_open_cursor, is_opened,
  has_valid_artifacts, is_nonempty, derivation_version,
}
use transport_matters.Codex.Engine.{TurnDerivationState}
use transport_matters.Codex.Derive.{TurnEnd, turn_end, terminal_end, close_end}
use transport_matters.Codex.Numbered.{IsEvent, IsNumbered}

-- a summary of the context, with the cursor of the next event if it is open
pub record IsSummary (c : TurnDerivationContext) (next : ℕ) (t : TurnSummary) : Type 0 where
  pub exchange_id : t.exchange_id ≡ c.exchange_id
  pub session_id : t.session_id ≡ c.session_id
  pub turn_id : t.turn_id ≡ c.turn_id
  pub version : t.derivation_version ≡ c.derivation_version
  pub cursor :
      is_opened t.status ≡ true
      → (d : DerivationCursor) × (t.cursor ≡ some d)
        × (d.terminal_seen ≡ false)
        × (d.next_message_index ≡ t.message_range_end + 1)
        × (d.next_seq ≡ next)

abbrev pub SummaryResult :
    TurnDerivationContext → ℕ → Derived (List SemanticEvent × TurnSummary) → Type 0
SummaryResult c n (ok (es, t)) = IsNumbered c n es × IsSummary c (n + length es) t
SummaryResult c n absent = Unit
SummaryResult c n (raises e) = Unit

is_event_of-IsEvent :
    (c : TurnDerivationContext) (n : ℕ) (e : SemanticEvent) (next : ℕ) (t : TurnSummary)
    → IsEvent c n e
    → IsSummary c next t
    → is_event_of t e ≡ true
unfolding is_event_of
is_event_of-IsEvent c n e next t h s =
    let exchange : text_eq e.exchange_id t.exchange_id ≡ true =
      (text_eq_iff _ _).1 (h.exchange_id ∙ sym s.exchange_id) in
    let session : text_eq e.session_id t.session_id ≡ true =
      (text_eq_iff _ _).1 (h.session_id ∙ sym s.session_id) in
    let turn : text_eq e.turn_id t.turn_id ≡ true =
      (text_eq_iff _ _).1 (h.turn_id ∙ sym s.turn_id) in
    let version : (e.derivation_version == t.derivation_version) ≡ true =
      ground (arith, h.version, s.version) in
    let id : text_eq e.event_id (event_id_for_seq e.seq) ≡ true =
      (text_eq_iff _ _).1 (h.event_id ∙ ap event_id_for_seq (sym h.seq)) in
    rw (exchange, session, turn, version, id) refl

all-is_event_of :
    (c : TurnDerivationContext) (n : ℕ) (es : List SemanticEvent) (next : ℕ) (t : TurnSummary)
    → IsNumbered c n es
    → IsSummary c next t
    → all (is_event_of t) es ≡ true
all-is_event_of c n [] next t h s = refl
all-is_event_of c n (e ∷ es) next t h s =
    rw (is_event_of-IsEvent c n e next t h.0 s) (all-is_event_of c (suc n) es next t h.1 s)

follows-IsNumbered :
    (c : TurnDerivationContext) (n : ℕ) (es : List SemanticEvent)
    → IsNumbered c (suc n) es
    → follows n es ≡ true
unfolding follows
follows-IsNumbered c n [] h = refl
follows-IsNumbered c n (e ∷ es) h = ground (arith, h.0.seq, follows-IsNumbered c (suc n) es h.1)

is_contiguous-IsNumbered :
    (c : TurnDerivationContext) (n : ℕ) (es : List SemanticEvent)
    → IsNumbered c n es
    → is_contiguous es ≡ true
unfolding is_contiguous
is_contiguous-IsNumbered c n [] h = refl
is_contiguous-IsNumbered c n (e ∷ es) h = rw (h.0.seq) (follows-IsNumbered c n es h.1)

expected_next_seq-IsNumbered :
    (c : TurnDerivationContext) (n : ℕ) (es : List SemanticEvent)
    → IsNumbered c n es
    → expected_next_seq es ≡ (if is_nonempty es then n + length es else 1)
unfolding expected_next_seq last_seq
expected_next_seq-IsNumbered c n [] h = refl
expected_next_seq-IsNumbered c n (e ∷ []) h = rw (h.0.seq) (omega arith)
expected_next_seq-IsNumbered c n (e ∷ f ∷ es) h =
    expected_next_seq-IsNumbered c (suc n) (f ∷ es) h.1 ∙ omega arith

open_seq_check :
    (c : TurnDerivationContext) (n : ℕ) (es : List SemanticEvent) (next : ℕ)
    → IsNumbered c n es
    → next ≡ n + length es
    → (next == expected_next_seq es) ≡ (is_nonempty es || n == 1)
open_seq_check c n [] next h e =
    rw (e, expected_next_seq-IsNumbered c n [] h) (ap (λ k. k == 1) (omega arith))
open_seq_check c n (f ∷ es) next h e =
    rw (e, expected_next_seq-IsNumbered c n (f ∷ es) h) (ground arith)

is_open_cursor_lem :
    (es : List SemanticEvent) (t : TurnSummary) (d : DerivationCursor) (b : Bool)
    → d.terminal_seen ≡ false
    → (d.next_message_index == t.message_range_end + 1) ≡ true
    → (d.next_seq == expected_next_seq es) ≡ b
    → is_open_cursor es t (some d) ≡ b
unfolding is_open_cursor
is_open_cursor_lem es t d b seen message seq = λ i. not (seen i) && message i && seq i

open_turn_check :
    (c : TurnDerivationContext) (n : ℕ) (es : List SemanticEvent) (t : TurnSummary)
    → IsNumbered c n es
    → IsSummary c (n + length es) t
    → (if is_opened t.status then is_open_cursor es t t.cursor else true)
      ≡ (not (is_opened t.status) || is_nonempty es || n == 1)
open_turn_check c n es t h s = elim (Bool-cases (is_opened t.status)) [
  | inr a ↦ rw (a) refl
  | inl a ↦
      let d = (s.cursor a).0 in
      let e = s.cursor a in
      let message : (d.next_message_index == t.message_range_end + 1) ≡ true =
        ground (arith, e.3) in
      let seq : (d.next_seq == expected_next_seq es) ≡ (is_nonempty es || n == 1) =
        open_seq_check c n es d.next_seq h e.4 in
      let check : is_open_cursor es t (some d) ≡ (is_nonempty es || n == 1) =
        is_open_cursor_lem es t d (is_nonempty es || n == 1) e.2 message seq in
      (λ i. if a i then is_open_cursor es t (e.1 i) else true)
      ∙ check
      ∙ sym (ap (λ b. not b || is_nonempty es || n == 1) a)
]

-- what the artifacts of a sound state are checked for
abbrev pub passes : TurnDerivationContext → ℕ → List SemanticEvent → TurnSummary → Bool
passes c n es t =
    c.derivation_version == derivation_version
    && (not (is_opened t.status) || is_nonempty es || n == 1)

pub has_valid_artifacts-passes :
    (c : TurnDerivationContext) (n : ℕ) (es : List SemanticEvent) (t : TurnSummary)
    → IsNumbered c n es
    → IsSummary c (n + length es) t
    → has_valid_artifacts es t ≡ passes c n es t
unfolding has_valid_artifacts
has_valid_artifacts-passes c n es t h s =
    let events = all-is_event_of c n es (n + length es) t h s in
    let contiguous = is_contiguous-IsNumbered c n es h in
    let open_turn : (if is_opened t.status then is_open_cursor es t t.cursor else true)
        ≡ (not (is_opened t.status) || is_nonempty es || n == 1) =
      open_turn_check c n es t h s in
    let checked : has_valid_artifacts es t ≡ (
        c.derivation_version == derivation_version
        && true
        && true
        && (not (is_opened t.status) || is_nonempty es || n == 1)) =
      λ i. (s.version i == derivation_version) && events i && contiguous i && open_turn i in
    checked ∙ ground arith

-- an end that is not open
abbrev pub IsEnded : Option TurnEnd → Type 0
IsEnded none = Unit
IsEnded (some e) = is_opened e.status ≡ false

terminal_end-IsEnded :
    (status : TerminalStatus) (s : TurnDerivationState) → IsEnded (some (terminal_end status s))
unfolding terminal_end
terminal_end-IsEnded TerminalStatus.completed s = refl
terminal_end-IsEnded TerminalStatus.failed s = refl

pub turn_end-IsEnded :
    (close : Option TransportCloseFact) (s : TurnDerivationState) → IsEnded (turn_end close s)
unfolding turn_end close_end
turn_end-IsEnded close s =
    elim s.terminal_status
      as (λ r. IsEnded (elim r [
        | some status ↦ some (terminal_end status s)
        | none ↦ elim close [ none ↦ none | some c ↦ some (close_end c) ]
      ])) [
        | some status ↦ terminal_end-IsEnded status s
        | none ↦
            elim close as (λ r. IsEnded (elim r [ none ↦ none | some c ↦ some (close_end c) ])) [
              | none ↦ tt
              | some c ↦ refl
            ]
      ]
