-- ===== src/Codex/Contract.antt =====
-- api/src/transport_matters/codex/derivation_contract.py: the facts that the engine reads, the
-- checks of its requests and artifacts, and the numbering of events. What raises is `raises`, and
-- `absent` is a None. A payload is given as `_canonicalize_payload_json` leaves it; only dicts say
-- anything.
use transport_matters.Prelude.{
  ℕ, zero, suc, ◌+◌, ◌-◌, Bool, true, false, not, ◌&&◌, ◌||◌, Option, none, some, List, [], ◌∷◌,
  ◌++◌, Text, codes, text_eq, ltb, leb, ◌==◌, length, if◌then◌else◌, is_some, any, all,
}
use transport_matters.Prelude.Decimal.{nat_text}
use transport_matters.Ir.Value.{Json, Fields}
use transport_matters.Codex.Events.{DerivationCursor, SemanticEvent, TurnStatus, TurnSummary}

-- The last four are pydantic's ValidationError, `unhashable_type` is a TypeError, and the others
-- are a plain ValueError.
pub data DerivationError : Type 0 where
  message_after_terminal nested_turn_start missing_turn invalid_seq unhashable_type :
      DerivationError
  invalid_fact invalid_request invalid_summary invalid_artifacts : DerivationError

pub data Derived {ℓ} (A : Type ℓ) : Type ℓ where
  ok : A → Derived A
  absent : Derived A
  raises : DerivationError → Derived A

infixl 5 ◌>>=◌
abbrev pub ◌>>=◌ {ℓ κ} : {A : Type ℓ} {B : Type κ} → Derived A → (A → Derived B) → Derived B
ok a >>= f = f a
absent >>= f = absent
raises e >>= f = raises e

abbrev pub derivation_version : ℕ
derivation_version = 1

abbrev pub initial_event_seq : ℕ
initial_event_seq = 1

unfoldable pub next_event_seq : Option DerivationCursor → Derived ℕ
next_event_seq none = ok initial_event_seq
next_event_seq (some c) =
    if ltb c.next_seq initial_event_seq then raises invalid_seq else ok c.next_seq

unfoldable pub zeros : ℕ → Text
zeros zero = []
zeros (suc n) = b'0' ∷ zeros n

-- `codex_event_id_for_seq`, of a number that `next_event_seq` has let pass
unfoldable pub event_id_for_seq : ℕ → Text
unfolding zeros
event_id_for_seq seq = codes "evt_" ++ zeros (6 - length (nat_text seq)) ++ nat_text seq

pub data Direction : Type 0 where
  client server : Direction

pub record TransportMessageFact : Type 0 where
  pub message_index : ℕ
  pub ts : ℕ
  pub direction : Direction
  pub event_type : Option Text
  pub payload_json : Option Json
  pub dropped : Bool

pub record TransportCloseFact : Type 0 where
  pub ts : ℕ
  pub close_code : Option ℕ
  pub close_reason : Option Text

pub data OperatorFactKind : Type 0 where
  request_curated breakpoint_paused breakpoint_released : OperatorFactKind

pub record OperatorFact : Type 0 where
  pub kind : OperatorFactKind
  pub ts : ℕ
  pub fields : Fields

pub record TurnDerivationContext : Type 0 where
  pub exchange_id : Text
  pub session_id : Text
  pub turn_id : Text
  pub turn_index : ℕ
  pub request_message_index : ℕ
  pub model : Text
  pub derivation_version : ℕ

abbrev pub precedence : OperatorFactKind → ℕ
precedence request_curated = 1
precedence breakpoint_paused = 2
precedence breakpoint_released = 3

-- the sort key of a fact is its time, and then the precedence of its kind
abbrev pub comes_first : OperatorFact → OperatorFact → Bool
comes_first f g = ltb f.ts g.ts || (f.ts == g.ts && leb (precedence f.kind) (precedence g.kind))

unfoldable pub insert_fact : OperatorFact → List OperatorFact → List OperatorFact
insert_fact f [] = f ∷ []
insert_fact f (g ∷ gs) = if comes_first f g then f ∷ g ∷ gs else g ∷ insert_fact f gs

-- `_sort_operator_facts`
unfoldable pub sort_operator_facts : List OperatorFact → List OperatorFact
unfolding insert_fact
sort_operator_facts [] = []
sort_operator_facts (f ∷ fs) = insert_fact f (sort_operator_facts fs)

unfoldable pub is_increasing : List TransportMessageFact → Bool
is_increasing [] = true
is_increasing (m ∷ []) = true
is_increasing (m ∷ n ∷ ms) = ltb m.message_index n.message_index && is_increasing (n ∷ ms)

unfoldable pub has_distinct_kinds : List OperatorFact → Bool
has_distinct_kinds [] = true
has_distinct_kinds (f ∷ fs) =
    not (any (λ g. precedence f.kind == precedence g.kind) fs) && has_distinct_kinds fs

pub record ReplayRequest : Type 0 where
  pub context : TurnDerivationContext
  pub transport_messages : List TransportMessageFact
  pub operator_facts : List OperatorFact
  pub close : Option TransportCloseFact

pub record AdvanceRequest : Type 0 where
  pub context : TurnDerivationContext
  pub transport_messages : List TransportMessageFact
  pub operator_facts : List OperatorFact
  pub close : Option TransportCloseFact
  pub cursor : DerivationCursor
  pub started_at : Option ℕ
  pub text_chars : ℕ
  pub tool_calls : ℕ

abbrev pub starts_at : ℕ → List TransportMessageFact → Bool
starts_at i [] = true
starts_at i (m ∷ ms) = m.message_index == i

abbrev pub is_nonempty {ℓ} : {A : Type ℓ} → List A → Bool
is_nonempty [] = false
is_nonempty (x ∷ xs) = true

-- the construction of a request, which sorts the facts and checks the messages
unfoldable pub replay_request : ReplayRequest → Derived ReplayRequest
unfolding is_increasing has_distinct_kinds sort_operator_facts
replay_request r =
    if is_increasing r.transport_messages
      && has_distinct_kinds r.operator_facts
      && is_nonempty r.transport_messages
      && starts_at r.context.request_message_index r.transport_messages
    then ok (record r { operator_facts = sort_operator_facts r.operator_facts })
    else raises invalid_request

unfoldable pub advance_request : AdvanceRequest → Derived AdvanceRequest
unfolding is_increasing has_distinct_kinds sort_operator_facts
advance_request r =
    if is_increasing r.transport_messages
      && has_distinct_kinds r.operator_facts
      && leb initial_event_seq r.cursor.next_seq
      && not r.cursor.terminal_seen
      && starts_at r.cursor.next_message_index r.transport_messages
      && (leb r.cursor.next_message_index r.context.request_message_index || is_some r.started_at)
    then ok (record r { operator_facts = sort_operator_facts r.operator_facts })
    else raises invalid_request

pub record DerivedTurnArtifacts : Type 0 where
  pub events : List SemanticEvent
  pub turn : TurnSummary

-- an event that belongs to the turn, and is numbered by its seq
unfoldable pub is_event_of : TurnSummary → SemanticEvent → Bool
unfolding event_id_for_seq
is_event_of t e =
    text_eq e.exchange_id t.exchange_id
    && text_eq e.session_id t.session_id
    && text_eq e.turn_id t.turn_id
    && e.derivation_version == t.derivation_version
    && text_eq e.event_id (event_id_for_seq e.seq)

-- each event after the one of seq `previous` follows the one before it
unfoldable pub follows : ℕ → List SemanticEvent → Bool
follows previous [] = true
follows previous (e ∷ es) = e.seq == previous + 1 && follows e.seq es

unfoldable pub is_contiguous : List SemanticEvent → Bool
unfolding follows
is_contiguous [] = true
is_contiguous (e ∷ es) = follows e.seq es

unfoldable pub last_seq : List SemanticEvent → Option ℕ
last_seq [] = none
last_seq (e ∷ []) = some e.seq
last_seq (e ∷ f ∷ es) = last_seq (f ∷ es)

unfoldable pub expected_next_seq : List SemanticEvent → ℕ
unfolding last_seq
expected_next_seq es = elim (last_seq es) [ none ↦ initial_event_seq | some n ↦ n + 1 ]

-- what an open turn asks of its cursor
unfoldable pub is_open_cursor : List SemanticEvent → TurnSummary → Option DerivationCursor → Bool
unfolding expected_next_seq
is_open_cursor es t none = false
is_open_cursor es t (some c) =
    not c.terminal_seen
    && c.next_message_index == t.message_range_end + 1
    && c.next_seq == expected_next_seq es

abbrev pub is_opened : TurnStatus → Bool
is_opened TurnStatus.opened = true
is_opened TurnStatus.completed = false
is_opened TurnStatus.failed = false
is_opened TurnStatus.interrupted = false

-- `_validate_artifacts`
unfoldable pub has_valid_artifacts : List SemanticEvent → TurnSummary → Bool
unfolding is_event_of is_contiguous is_open_cursor
has_valid_artifacts es t =
    t.derivation_version == derivation_version
    && all (is_event_of t) es
    && is_contiguous es
    && (if is_opened t.status then is_open_cursor es t t.cursor else true)

unfoldable pub derived_artifacts : List SemanticEvent → TurnSummary → Derived DerivedTurnArtifacts
unfolding has_valid_artifacts
derived_artifacts es t =
    if has_valid_artifacts es t
    then ok (record { events = es; turn = t })
    else raises invalid_artifacts
