-- ===== src/Breakpoint/Session.antt =====
-- The pause protocol of api/src/transport_matters/pause_session.py: `_run_pause` as one task for
-- each flow at a time, under the pause serializer, with the routes that release or drop flows in
-- between. Structural equality of two requests is pydantic's: the parameter `same`. The adapter's
-- `outbound_request` is the parameter `outbound`.
pub mod Exclusive
pub mod Outcome
use transport_matters.Prelude.{
  ℕ, Bool, true, false, not, Option, none, some, List, [], ◌∷◌, Text, text_eq, if◌then◌else◌, ◌≡◌,
  ◌≢◌,
}
use transport_matters.Prelude.Dict.{Dict, get, text_key}
use transport_matters.Ir.{InternalRequest}
use transport_matters.Override.Audit.{OverrideAudit}
use transport_matters.Breakpoint.{
  Breakpoints, PausedFlow, PauseRequest, pause, set_tokens_before, release, drop, pop_paused,
  clear_all, arm, disarm, initial,
}

-- `_PauseOutcome`; a dropped flow has no request to forward
pub record PauseOutcome : Type 0 where
  pub pf : PausedFlow
  pub final_ir : Option InternalRequest
  pub mutated_manually : Bool
  pub audit : Option OverrideAudit
  pub release_payload : Option Text

module _ (same : InternalRequest → InternalRequest → Bool) (outbound : InternalRequest → Text) where
  -- request_diff.py
  unfoldable pub request_unchanged : InternalRequest → InternalRequest → Bool
  request_unchanged original_ir curated_ir = same curated_ir original_ir

  unfoldable pub outbound_request_if_changed : InternalRequest → InternalRequest → Option Text
  unfolding request_unchanged
  outbound_request_if_changed original_ir curated_ir =
      if request_unchanged original_ir curated_ir then none else some (outbound curated_ir)

  unfoldable pub resolve_paused_flow : PausedFlow → InternalRequest × Bool × Option OverrideAudit
  resolve_paused_flow pf = elim pf.mutated_ir [
    | none ↦ (pf.curated_ir, false, pf.audit)
    | some ir ↦
        let mutated = not (same ir pf.curated_ir) in
        (ir, mutated, if mutated then none else pf.audit)
  ]

  unfoldable pub release_payload_of : PausedFlow → InternalRequest → Option Text
  unfolding outbound_request_if_changed
  release_payload_of pf final_ir = elim pf.release_payload [
    | none ↦ outbound_request_if_changed pf.original_ir final_ir
    | some payload ↦ some payload
  ]

  -- the end of `_run_pause`, on what `pop_paused` returned
  unfoldable pub pause_outcome : Option PausedFlow → Option PauseOutcome
  unfolding resolve_paused_flow release_payload_of
  pause_outcome none = none
  pause_outcome (some pf) =
      let (final_ir, mutated, audit) = resolve_paused_flow pf in
      if pf.dropped
      then some (record {
        pf = pf;
        final_ir = none;
        mutated_manually = false;
        audit = none;
        release_payload = none;
      })
      else some (record {
        pf = pf;
        final_ir = some final_ir;
        mutated_manually = mutated;
        audit = audit;
        release_payload = release_payload_of pf final_ir;
      })

-- where the task of a flow stands in `_run_pause`
pub data Phase : Type 0 where
  waiting_for_serializer acquired awaiting_user resumed finished : Phase

-- the task is between the entry into the table and `pop_paused`
abbrev pub is_listed : Phase → Bool
is_listed awaiting_user = true
is_listed resumed = true
is_listed _ = false

-- The module's table, the holder of the serializer, and the tasks. `abandoned` is not in the
-- source: it marks the flows whose entry was left in the table by a task that ended with an
-- exception.
pub record System : Type 0 where
  pub table : Breakpoints
  pub holder : Option Text
  pub phase : Text → Phase
  pub abandoned : Text → Bool

abbrev pub mark : (Text → Bool) → Text → Bool → Text → Bool
mark marked f b g = if text_eq f g then b else marked g

abbrev pub at : (Text → Phase) → Text → Phase → Text → Phase
at phase f p g = if text_eq f g then p else phase g

-- What a route of the API may do to the table at any moment.
pub data Route : Breakpoints → Breakpoints → Type 0 where
  arms : (b : Breakpoints) → Route b (arm b)
  disarms : (b : Breakpoints) → Route b (disarm b)
  releases :
      (b : Breakpoints) (f : Text) (ir : Option InternalRequest) (payload : Option Text)
      → Route b (release f ir payload b).1
  drops : (b : Breakpoints) (f : Text) → Route b (drop f b).1
  counts : (b : Breakpoints) (f : Text) (n : Option ℕ) → Route b (set_tokens_before f n b).1
  clears : (b : Breakpoints) → Route b (clear_all b)

abbrev pub event_is_set : Breakpoints → Text → Bool
event_is_set b f = elim (get b.paused f) [ none ↦ false | some pf ↦ pf.event_set ]

-- One step: a task goes on to its next await, or a route runs. `expire` is the timeout of
-- `asyncio.wait_for`, which may come at any time. A cancellation or another exception ends a task
-- at any point: while it waits for the serializer (`give_up`), before its flow is in the table
-- (`fail_early`), or after (`fail`); the serializer is then free, and no one takes the entry out.
-- The messages of a websocket flow come one after another and may each pause it (`pause_again`).
pub data Step (s : System) : System → Type 0 where
  acquire :
      (f : Text)
      → s.phase f ≡ waiting_for_serializer
      → s.holder ≡ none
      → Step s (record s { holder = some f; phase = at s.phase f acquired })
  register :
      (r : PauseRequest) (now : ℕ)
      → s.phase r.flow_id ≡ acquired
      → Step s (record s {
        table = pause r now s.table;
        phase = at s.phase r.flow_id awaiting_user;
        abandoned = mark s.abandoned r.flow_id false;
      })
  wake :
      (f : Text)
      → s.phase f ≡ awaiting_user
      → event_is_set s.table f ≡ true
      → Step s (record s { phase = at s.phase f resumed })
  expire :
      (f : Text) → s.phase f ≡ awaiting_user → Step s (record s { phase = at s.phase f resumed })
  pop :
      (f : Text)
      → s.phase f ≡ resumed
      → Step s (record s {
        table = (pop_paused f s.table).1;
        holder = none;
        phase = at s.phase f finished;
      })
  give_up :
      (f : Text)
      → s.phase f ≡ waiting_for_serializer
      → Step s (record s { phase = at s.phase f finished })
  fail_early :
      (f : Text)
      → s.phase f ≡ acquired
      → Step s (record s { holder = none; phase = at s.phase f finished })
  fail :
      (f : Text)
      → is_listed (s.phase f) ≡ true
      → Step s (record s {
        holder = none;
        phase = at s.phase f finished;
        abandoned = mark s.abandoned f true;
      })
  pause_again :
      (f : Text)
      → s.phase f ≡ finished
      → Step s (record s { phase = at s.phase f waiting_for_serializer })
  route : (b : Breakpoints) → Route s.table b → Step s (record s { table = b })

pub data Reach (s : System) : System → Type 0 where
  here : Reach s s
  next : {t u : System} → Reach s t → Step t u → Reach s u

abbrev pub start : System
start = record {
  table = initial;
  holder = none;
  phase = λ f. waiting_for_serializer;
  abandoned = λ f. false;
}
