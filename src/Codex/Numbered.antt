-- ===== src/Codex/Numbered.antt =====
-- The events that api/src/transport_matters/codex/derivation_engine.py appends: they are numbered
-- one after the other from the first, and belong to the turn. Its open texts are dicts, and until a
-- terminal message it notes no end.
use transport_matters.Prelude.{
  ℕ, suc, ◌+◌, ◌≡◌, refl, subst, Option, none, List, [], ◌∷◌, ◌++◌, length, arith,
}
use transport_matters.Prelude.Dict.{IsDict, text_key}
use transport_matters.Ir.Value.{Fields}
use transport_matters.Codex.OpenTexts.{OpenTexts}
use transport_matters.Codex.Events.{EventSource, SemanticEventKind, SemanticEvent}
use transport_matters.Codex.Contract.{
  Derived, ok, absent, raises, TurnDerivationContext, event_id_for_seq,
}
use transport_matters.Codex.EventData.{semantic_event}
use transport_matters.Codex.Engine.{TurnDerivationState}
use transport_matters.Codex.SameTexts.{Same}

-- an event of the context, with its number
pub record IsEvent (c : TurnDerivationContext) (n : ℕ) (e : SemanticEvent) : Type 0 where
  pub event_id : e.event_id ≡ event_id_for_seq n
  pub exchange_id : e.exchange_id ≡ c.exchange_id
  pub session_id : e.session_id ≡ c.session_id
  pub turn_id : e.turn_id ≡ c.turn_id
  pub seq : e.seq ≡ n
  pub version : e.derivation_version ≡ c.derivation_version

abbrev pub IsNumbered : TurnDerivationContext → ℕ → List SemanticEvent → Type 0
IsNumbered c n [] = Unit
IsNumbered c n (e ∷ es) = IsEvent c n e × IsNumbered c (suc n) es

pub semantic_event-IsEvent :
    (c : TurnDerivationContext) (n : ℕ) (source : EventSource) (kind : SemanticEventKind) (ts : ℕ)
    (ref : Option ℕ) (fields : Fields)
    → IsEvent c n (semantic_event c n source kind ts ref fields)
unfolding semantic_event
semantic_event-IsEvent c n source kind ts ref fields = record {
  event_id = refl;
  exchange_id = refl;
  session_id = refl;
  turn_id = refl;
  seq = refl;
  version = refl;
}

pub append-IsNumbered :
    (c : TurnDerivationContext) (n : ℕ) (es fs : List SemanticEvent)
    → IsNumbered c n es
    → IsNumbered c (n + length es) fs
    → IsNumbered c n (es ++ fs)
append-IsNumbered c n [] fs h g = subst (λ k. IsNumbered c k fs) (omega arith) g
append-IsNumbered c n (e ∷ es) fs h g =
    (h.0, append-IsNumbered c (suc n) es fs h.1 (subst (λ k. IsNumbered c k fs) (omega arith) g))

-- no end is noted
abbrev pub IsUnended : TurnDerivationState → Type 0
IsUnended s =
    (s.terminal_status ≡ none)
    → (s.terminal_message_index ≡ none) × (s.terminal_ts ≡ 0) × (s.terminal_stop_reason ≡ none)

pub record IsSound (c : TurnDerivationContext) (n : ℕ) (s : TurnDerivationState) : Type 0 where
  pub next : s.next_seq ≡ n + length s.events
  pub numbered : IsNumbered c n s.events
  pub items : IsDict s.open_assistant_items
  pub calls : IsDict s.open_tool_calls
  pub unended : IsUnended s

abbrev pub SoundResult : TurnDerivationContext → ℕ → Derived TurnDerivationState → Type 0
SoundResult c n (ok s) = IsSound c n s
SoundResult c n absent = Unit
SoundResult c n (raises e) = Unit

pub self : (d : OpenTexts) → IsDict d → Same d d
self d h = record { left = h; right = h; lookups = λ k. refl }
