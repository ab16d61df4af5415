-- ===== src/Tests/Proxies.antt =====
-- A shared proxy whose subprocess answers as it is told, with one run registered.
use transport_matters.Prelude.{
  ◌≤◌, Bool, true, false, ◌≡◌, refl, none, some, List, [], ◌∷◌, codes, text_eq, is_some,
}
use transport_matters.Prelude.Dict.{get, text_key, nat_key}
use transport_matters.Ir.Value.{empty}
use transport_matters.SharedProxy.Payloads.{
  BindingPayload, ProxyModeKind, OverrideSnapshot, ProxyRunBinding, scope_key,
  binding_payload_from_binding, infer_mode_kind, mode_spec, mode_spec-binding_payload_from_binding,
  ControlRequest,
}
use transport_matters.SharedProxy.Manager.{
  Proxy, SharedProxyManager, register, deregister, set_overrides,
}
use transport_matters.SharedProxy.Manager.{
  ensure_started, start_process, rehydrate, send_all, rehydrate_requests,
}
use transport_matters.SharedProxy.Restarted.{logged, ensure_started-restarted}
use transport_matters.SharedProxy.Registered.{
  IsConsistent, Registers, Call, run_calls, run_calls-IsConsistent, register-Registers,
}
use transport_matters.SharedProxy.Deregistered.{
  Deregisters, Sets, deregister-Deregisters, set_overrides-Sets,
}

-- the answers to come
abbrev answers : Proxy (List Bool)
answers = record {
  is_running = λ w. true;
  is_cancelled = λ w. false;
  start = λ w. (true, w);
  wait_until_ready = λ w. (true, w);
  request = λ r w. elim w [ [] ↦ (true, []) | b ∷ bs ↦ (b, bs) ];
}

abbrev claude : ProxyRunBinding
claude = record {
  run_id = some (codes "r1");
  harness = some (codes "claude");
  working_dir = none;
  storage_root = none;
  listen_port = some 8080;
  upstream = some (codes "https://api");
  agent_home_dir = none;
  owned_native_session_id = none;
  owned_source_descriptor = none;
  space_id = none;
  worktree_id = none;
  launch_fields = empty;
  default_client_passthrough = [];
  breakpoint_skip_models = [];
}

abbrev payload : BindingPayload
payload = record {
  run_id = codes "r1";
  harness = some (codes "claude");
  working_dir = none;
  storage_root = none;
  listen_port = 8080;
  upstream = some (codes "https://api");
  agent_home_dir = none;
  owned_native_session_id = none;
  owned_source_descriptor = none;
  space_id = none;
  worktree_id = none;
  launch_fields = empty;
  default_client_passthrough = [];
  breakpoint_skip_models = [];
  mode_kind = ProxyModeKind.reverse;
}

abbrev second : BindingPayload
second = record payload { run_id = codes "r2"; listen_port = 8081 }

abbrev manager : List Bool → SharedProxyManager (List Bool)
manager replies = record {
  proxy = replies;
  by_run_id = [];
  by_listen_port = [];
  overrides = [];
  needs_rehydrate = false;
}

manager-IsConsistent : (replies : List Bool) → IsConsistent (manager replies)
unfolding get
manager-IsConsistent replies = record {
  runs_dict = tt;
  ports_dict = tt;
  named = λ r b e. cc;
  owned = λ p r e. cc;
}

-- the second registration is refused by the subprocess
abbrev calls : List Call
calls = Call.register_call payload ∷ Call.register_call second ∷ []

run_calls-IsConsistent_example :
    IsConsistent (run_calls answers calls (manager (true ∷ false ∷ [])))
run_calls-IsConsistent_example =
    run_calls-IsConsistent answers calls (manager (true ∷ false ∷ []))
      (manager-IsConsistent (true ∷ false ∷ []))

register-Registers_example :
    Registers second (manager (false ∷ [])) (register answers second (manager (false ∷ [])))
register-Registers_example =
    register-Registers answers second (manager (false ∷ [])) (manager-IsConsistent (false ∷ []))

abbrev registered : SharedProxyManager (List Bool)
registered = run_calls answers (Call.register_call payload ∷ []) (manager [])

deregister-Deregisters_example :
    Deregisters answers (codes "r1") registered (deregister answers (codes "r1") registered)
deregister-Deregisters_example = deregister-Deregisters answers (codes "r1") registered (
    run_calls-IsConsistent answers (Call.register_call payload ∷ []) (manager [])
      (manager-IsConsistent []))

abbrev no_overrides : OverrideSnapshot
no_overrides = record { enabled = true; overrides = [] }

set_overrides-Sets_example :
    Sets answers
      (some (codes "r1"), none)
      no_overrides
      (manager (false ∷ []))
      (set_overrides answers (some (codes "r1"), none) no_overrides (manager (false ∷ [])))
set_overrides-Sets_example =
    set_overrides-Sets answers (some (codes "r1"), none) no_overrides (manager (false ∷ [])) tt

claude_is_sent : binding_payload_from_binding claude ≡ some payload
unfolding binding_payload_from_binding infer_mode_kind text_eq
claude_is_sent = refl

mode_spec-binding_payload_from_binding_example :
    (is_some (mode_spec payload) ≡ true) × (1 ≤ payload.listen_port) × (payload.listen_port ≤ 65535)
mode_spec-binding_payload_from_binding_example =
    mode_spec-binding_payload_from_binding claude payload claude_is_sent

abbrev stopped : Proxy (List Bool)
stopped = record answers { is_running = λ w. false }

-- a manager with a run, whose process does not run
abbrev with_run : SharedProxyManager (List Bool × List ControlRequest)
with_run = record {
  proxy = ([], []);
  by_run_id = (codes "r1", payload) ∷ [];
  by_listen_port = (8080, codes "r1") ∷ [];
  overrides = ((some (codes "r1"), none), no_overrides) ∷ [];
  needs_rehydrate = false;
}

restarts : (ensure_started (logged stopped) with_run).0 ≡ true
unfolding ensure_started start_process rehydrate send_all rehydrate_requests logged
restarts = refl

ensure_started-restarted_example :
    ((ensure_started (logged stopped) with_run).1.proxy.1
      ≡ ControlRequest.register_listener payload
        ∷ ControlRequest.set_overrides (some (codes "r1"), none) no_overrides
        ∷ [])
    × ((ensure_started (logged stopped) with_run).1.needs_rehydrate ≡ false)
ensure_started-restarted_example = ensure_started-restarted stopped with_run refl restarts
