-- ===== src/Codex/Update.antt =====
-- api/src/transport_matters/codex/exchange_derivation.py: the artifacts of a turn, brought up to
-- date with its transport. The context and the operator facts of a replay, which come from the
-- flow, are given.
use transport_matters.Prelude.{
  ℕ, zero, suc, ◌+◌, Bool, true, false, Option, none, some, List, [], ◌∷◌, ◌++◌, Text, text_eq,
  if◌then◌else◌, text_eq,
}
use transport_matters.Ir.Value.{Json}
use transport_matters.Codex.Protocol.{payload_event_type, canonicalize_json}
use transport_matters.Codex.Events.{DerivationCursor, TurnSummary}
use transport_matters.Codex.Contract.{
  Derived, DerivationError, ok, absent, raises, ◌>>=◌, Direction, TransportMessageFact,
  TransportCloseFact, OperatorFact, TurnDerivationContext, is_opened, DerivedTurnArtifacts,
  derived_artifacts, replay_request, advance_request,
}
use transport_matters.Codex.Derive.{derive_turn_replay, derive_turn_incremental}

pub record TransportMessageArtifact : Type 0 where
  pub ts : Option ℕ
  pub direction : Direction
  pub event_type : Option Text
  pub payload_json : Option Json
  pub dropped : Bool

pub record TransportCloseArtifacts : Type 0 where
  pub ts : Option ℕ
  pub close_code : Option ℕ
  pub close_reason : Option Text

pub record TransportArtifacts : Type 0 where
  pub messages : List TransportMessageArtifact
  pub close : Option TransportCloseArtifacts

-- `messages[start_index:]`
unfoldable pub drop {ℓ} : {A : Type ℓ} → ℕ → List A → List A
drop zero xs = xs
drop (suc n) [] = []
drop (suc n) (x ∷ xs) = drop n xs

-- the `type` that a payload states
unfoldable pub payload_type : Option Json → Option Text
unfolding payload_event_type
payload_type (some (Json.obj d)) = payload_event_type d
payload_type _ = none

-- the validator `_derive_event_type`, on the `event_type` given and the payload
unfoldable pub derive_event_type : Option Text → Option Json → Derived (Option Text)
unfolding payload_type
derive_event_type event_type payload_json = elim (payload_type payload_json) [
  | none ↦ ok event_type
  | some stated ↦ elim event_type [
    | none ↦ ok (some stated)
    | some given ↦
        if text_eq given stated then ok (some given) else raises DerivationError.invalid_fact
  ]
]

-- the validators of `CodexTransportMessageFact`, on a message with a time
unfoldable pub message_fact : ℕ → ℕ → TransportMessageArtifact → Derived TransportMessageFact
unfolding derive_event_type canonicalize_json
message_fact i ts m = derive_event_type m.event_type m.payload_json >>= λ event_type. ok (record {
  message_index = i;
  ts = ts;
  direction = m.direction;
  event_type = event_type;
  payload_json = elim m.payload_json [ none ↦ none | some j ↦ some (canonicalize_json j) ];
  dropped = m.dropped;
})

unfoldable pub message_facts :
    ℕ → List TransportMessageArtifact → Derived (List TransportMessageFact)
unfolding message_fact
message_facts i [] = ok []
message_facts i (m ∷ ms) =
    let rest = message_facts (i + 1) ms in
    elim m.ts [ none ↦ absent | some ts ↦ message_fact i ts m >>= λ f. rest >>= λ fs. ok (f ∷ fs) ]

-- `_codex_transport_message_facts`
unfoldable pub transport_message_facts :
    TransportArtifacts → ℕ → Derived (List TransportMessageFact)
unfolding drop message_facts
transport_message_facts t start_index = message_facts start_index (drop start_index t.messages)

-- `_codex_close_fact`
unfoldable pub close_fact : TransportArtifacts → Option TransportCloseFact
close_fact t = elim t.close [
  | none ↦ none
  | some c ↦ elim c.ts [
    | none ↦ none
    | some ts ↦ some (record { ts = ts; close_code = c.close_code; close_reason = c.close_reason })
  ]
]

-- `_codex_turn_context`, of a turn that there is
unfoldable pub turn_context : Text → TurnSummary → TurnDerivationContext
turn_context exchange_id t = record {
  exchange_id = exchange_id;
  session_id = t.session_id;
  turn_id = t.turn_id;
  turn_index = t.turn_index;
  request_message_index = t.request_message_index;
  model = t.model;
  derivation_version = t.derivation_version;
}

-- pydantic's ValidationError
abbrev pub is_validation_error : DerivationError → Bool
is_validation_error DerivationError.invalid_fact = true
is_validation_error DerivationError.invalid_request = true
is_validation_error DerivationError.invalid_summary = true
is_validation_error DerivationError.invalid_artifacts = true
is_validation_error DerivationError.message_after_terminal = false
is_validation_error DerivationError.nested_turn_start = false
is_validation_error DerivationError.missing_turn = false
is_validation_error DerivationError.invalid_seq = false
is_validation_error DerivationError.unhashable_type = false

-- `except ValidationError: return None`
unfoldable pub caught : Derived DerivedTurnArtifacts → Derived DerivedTurnArtifacts
caught (ok a) = ok a
caught absent = absent
caught (raises e) = if is_validation_error e then absent else raises e

-- what an advance has given, or else the replay
unfoldable pub or_replay :
    Derived DerivedTurnArtifacts → Derived DerivedTurnArtifacts → Derived DerivedTurnArtifacts
or_replay (ok a) r = ok a
or_replay absent r = r
or_replay (raises e) r = raises e

module _ (dumps : Json → Text) where
  unfoldable pub replay_derived_artifacts :
      Option TurnDerivationContext
      → List OperatorFact
      → TransportArtifacts
      → Derived DerivedTurnArtifacts
  unfolding transport_message_facts close_fact replay_request derive_turn_replay
  replay_derived_artifacts context facts t = transport_message_facts t 0 >>= λ messages.
      elim messages [
        | [] ↦ absent
        | m ∷ ms ↦ elim context [
          | none ↦ absent
          | some c ↦
              replay_request (record {
                context = c;
                transport_messages = m ∷ ms;
                operator_facts = facts;
                close = close_fact t;
              })
              >>= λ r. derive_turn_replay dumps r
        ]
      ]

  -- the advance of an open turn over the facts of its transport
  unfoldable pub advance_open_turn :
      DerivedTurnArtifacts
      → Text
      → DerivationCursor
      → Option TransportCloseFact
      → List TransportMessageFact
      → Derived DerivedTurnArtifacts
  unfolding turn_context advance_request derive_turn_incremental caught derived_artifacts
  advance_open_turn a exchange_id cursor close messages =
      caught (
        advance_request (record {
          context = turn_context exchange_id a.turn;
          transport_messages = messages;
          operator_facts = [];
          close = close;
          cursor = cursor;
          started_at = some a.turn.started_at;
          text_chars = a.turn.text_chars;
          tool_calls = a.turn.tool_calls;
        })
        >>= λ r. derive_turn_incremental dumps r)
      >>= λ b. derived_artifacts (a.events ++ b.events) b.turn

  unfoldable pub advance_derived_artifacts :
      DerivedTurnArtifacts → Text → TransportArtifacts → Derived DerivedTurnArtifacts
  unfolding transport_message_facts close_fact advance_open_turn
  advance_derived_artifacts a exchange_id t =
      if is_opened a.turn.status
      then elim a.turn.cursor [
        | none ↦ ok a
        | some cursor ↦ transport_message_facts t cursor.next_message_index >>= λ messages.
            advance_open_turn a exchange_id cursor (close_fact t) messages
      ]
      else ok a

  -- the artifacts of an open turn, advanced, or else replayed
  unfoldable pub updated_artifacts :
      DerivedTurnArtifacts
      → Text
      → Option TurnDerivationContext
      → List OperatorFact
      → TransportArtifacts
      → Derived DerivedTurnArtifacts
  unfolding advance_derived_artifacts replay_derived_artifacts or_replay
  updated_artifacts a exchange_id context facts t =
      or_replay (advance_derived_artifacts a exchange_id t)
        (replay_derived_artifacts context facts t)
