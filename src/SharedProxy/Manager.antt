-- ===== src/SharedProxy/Manager.antt =====
-- api/src/transport_matters/shared_proxy/manager.py: the mirror of the bindings and overrides, kept
-- in step with the subprocess. The subprocess, its control channel and the wait for it are given:
-- each tells whether it raises, and its next state; `is_cancelled` tells after a request that
-- raised whether that was the CancelledError of its task, which `except Exception` does not catch.
use transport_matters.Prelude.{
  ℕ, Bool, true, false, not, ◌&&◌, ◌||◌, Option, none, some, List, [], ◌∷◌, ◌++◌, map, Text,
  if◌then◌else◌, filter,
}
use transport_matters.Prelude.Dict.{Dict, get, put, remove, contains, text_key, nat_key}
use transport_matters.SharedProxy.Payloads.{
  BindingPayload, OverrideScope, OverrideSnapshot, ControlRequest, option_eq, scope_key,
}

pub record Proxy (W : Type 0) : Type 0 where
  pub is_running : W → Bool
  pub start : W → Bool × W
  pub wait_until_ready : W → Bool × W
  pub request : ControlRequest → W → Bool × W
  pub is_cancelled : W → Bool

pub record SharedProxyManager (W : Type 0) : Type 0 where
  pub proxy : W
  pub by_run_id : Dict Text BindingPayload
  pub by_listen_port : Dict ℕ Text
  pub overrides : Dict OverrideScope OverrideSnapshot
  pub needs_rehydrate : Bool

pub data ManagerError : Type 0 where
  run_registered port_registered not_registered proxy_failed cancelled_request : ManagerError

module _ {W : Type 0} (control : Proxy W) where
  -- requests, up to the first that raises
  unfoldable pub send_all : List ControlRequest → W → Bool × W
  send_all [] w = (true, w)
  send_all (r ∷ rs) w = let q = control.request r w in if q.0 then send_all rs q.1 else (false, q.1)

  unfoldable pub rehydrate_requests : SharedProxyManager W → List ControlRequest
  rehydrate_requests m =
      map (λ e. ControlRequest.register_listener e.1) m.by_run_id
      ++ map (λ e. ControlRequest.set_overrides e.0 e.1) m.overrides

  -- `_rehydrate_locked`, where it is needed
  unfoldable pub rehydrate : SharedProxyManager W → Bool × SharedProxyManager W
  unfolding send_all rehydrate_requests
  rehydrate m =
      if m.needs_rehydrate
      then (let q = send_all (rehydrate_requests m) m.proxy in
          (q.0, record m { proxy = q.1; needs_rehydrate = not q.0 }))
      else (true, m)

  unfoldable pub start_process : SharedProxyManager W → Bool × SharedProxyManager W
  start_process m =
      if control.is_running m.proxy
      then (true, m)
      else (let q = control.start m.proxy in
          (q.0, record m { proxy = q.1; needs_rehydrate = q.0 || m.needs_rehydrate }))

  -- `_ensure_started_locked`
  unfoldable pub ensure_started : SharedProxyManager W → Bool × SharedProxyManager W
  unfolding start_process rehydrate
  ensure_started m =
      let started = start_process m in
      let ready = control.wait_until_ready started.1.proxy in
      let waited = record started.1 { proxy = ready.1 } in
      if started.0 then (if ready.0 then rehydrate waited else (false, waited)) else started

  -- `register`; an error, or none. A call that is cancelled during its request is not rolled back.
  unfoldable pub register :
      BindingPayload → SharedProxyManager W → Option ManagerError × SharedProxyManager W
  unfolding ensure_started get put remove
  register b m =
      let ready = ensure_started m in
      let n = ready.1 in
      let reply = control.request (ControlRequest.register_listener b) n.proxy in
      let runs = put n.by_run_id b.run_id b in
      let ports = put n.by_listen_port b.listen_port b.run_id in
      if contains m.by_run_id b.run_id
      then (some run_registered, m)
      else if contains m.by_listen_port b.listen_port
      then (some port_registered, m)
      else if not ready.0
      then (some proxy_failed, n)
      else if reply.0
      then (none, record n { proxy = reply.1; by_run_id = runs; by_listen_port = ports })
      else if control.is_cancelled reply.1
      then (
        some cancelled_request,
        record n { proxy = reply.1; by_run_id = runs; by_listen_port = ports },
      )
      else (
        some proxy_failed,
        record n {
          proxy = reply.1;
          by_run_id = remove runs b.run_id;
          by_listen_port = remove ports b.listen_port;
        },
      )

  abbrev pub is_of_run : Text → OverrideScope × OverrideSnapshot → Bool
  is_of_run run_id e = option_eq e.0.0 (some run_id)

  -- `deregister`
  unfoldable pub deregister :
      Text → SharedProxyManager W → Option ManagerError × SharedProxyManager W
  unfolding ensure_started get remove
  deregister run_id m =
      let ready = ensure_started m in
      let n = ready.1 in
      let reply = control.request (ControlRequest.deregister_listener run_id) n.proxy in
      elim (get m.by_run_id run_id) [
        | none ↦ (some not_registered, m)
        | some b ↦
            if not ready.0
            then (some proxy_failed, n)
            else if reply.0
            then (
              none,
              record n {
                proxy = reply.1;
                by_run_id = remove n.by_run_id run_id;
                by_listen_port = remove n.by_listen_port b.listen_port;
                overrides = filter (λ e. not (is_of_run run_id e)) n.overrides;
              },
            )
            else (some proxy_failed, record n { proxy = reply.1 })
      ]

  -- the overrides of a scope as they were
  unfoldable pub restore :
      OverrideScope
      → Option OverrideSnapshot
      → Dict OverrideScope OverrideSnapshot
      → Dict OverrideScope OverrideSnapshot
  unfolding put remove
  restore key none d = remove d key
  restore key (some previous) d = put d key previous

  -- Its request comes before its entry, so a cancelled call leaves the entries that the rollback
  -- restores.
  unfoldable pub set_overrides :
      OverrideScope
      → OverrideSnapshot
      → SharedProxyManager W
      → Option ManagerError × SharedProxyManager W
  unfolding ensure_started restore get put
  set_overrides key payload m =
      let previous = get m.overrides key in
      let ready = ensure_started m in
      let n = ready.1 in
      let reply = control.request (ControlRequest.set_overrides key payload) n.proxy in
      if not ready.0
      then (some proxy_failed, record n { overrides = restore key previous n.overrides })
      else if reply.0
      then (none, record n { proxy = reply.1; overrides = put n.overrides key payload })
      else (
        some proxy_failed,
        record n { proxy = reply.1; overrides = restore key previous n.overrides },
      )

  unfoldable pub supervise : SharedProxyManager W → Option ManagerError × SharedProxyManager W
  unfolding ensure_started
  supervise m =
      let ready = ensure_started m in
      if control.is_running m.proxy && not m.needs_rehydrate
      then (none, m)
      else (if ready.0 then none else some proxy_failed, ready.1)
