-- ===== src/SharedProxy/Registered.antt =====
-- The calls of api/src/transport_matters/shared_proxy/manager.py: what each leaves in the tables,
-- also when the subprocess or its control channel raises.
use transport_matters.Prelude.{
  ℕ, Bool, true, false, not, ◌&&◌, ◌≡◌, refl, sym, ap, ◌∙◌, subst, ◌≢◌, inl, inr, Option, none,
  some, List, [], ◌∷◌, Text, if◌then◌else◌, is_some, Option-cases,
}
use transport_matters.Prelude.Dict.{
  get, put, contains, text_key, nat_key, get-put_same, get-put_other, get-remove-put,
}
use transport_matters.SharedProxy.Payloads.{
  BindingPayload, OverrideScope, OverrideSnapshot, ControlRequest, scope_key,
}
use transport_matters.SharedProxy.Manager.{
  Proxy, SharedProxyManager, ManagerError, register, deregister, set_overrides, supervise,
  ensure_started,
}
use transport_matters.SharedProxy.Mirror.{
  IsMirrored, put-IsMirrored, remove-IsMirrored, Keeps, ensure_started-Keeps,
}

abbrev pub IsConsistent : {W : Type 0} → SharedProxyManager W → Type 0
IsConsistent m = IsMirrored m.by_run_id m.by_listen_port

-- a call of the manager
pub data Call : Type 0 where
  register_call : BindingPayload → Call
  deregister_call : Text → Call
  set_overrides_call : OverrideScope → OverrideSnapshot → Call
  supervise_call : Call

-- what a registration leaves: the binding in both tables, also where its request was cancelled, or,
-- on any other error, every lookup as it was
abbrev pub Registers :
    {W : Type 0}
    → BindingPayload
    → SharedProxyManager W
    → Option ManagerError × SharedProxyManager W
    → Type 0
Registers b m (none, n) =
    (get n.by_run_id b.run_id ≡ some b)
    × (get n.by_listen_port b.listen_port ≡ some b.run_id)
    × ((r : Text) → b.run_id ≢ r → get n.by_run_id r ≡ get m.by_run_id r)
    × (n.overrides ≡ m.overrides)
Registers b m (some ManagerError.cancelled_request, n) =
    (get n.by_run_id b.run_id ≡ some b)
    × (get n.by_listen_port b.listen_port ≡ some b.run_id)
    × ((r : Text) → b.run_id ≢ r → get n.by_run_id r ≡ get m.by_run_id r)
    × (n.overrides ≡ m.overrides)
Registers b m (some e, n) =
    ((r : Text) → get n.by_run_id r ≡ get m.by_run_id r)
    × ((p : ℕ) → get n.by_listen_port p ≡ get m.by_listen_port p)
    × (n.overrides ≡ m.overrides)

-- a key that is not there
fresh : {V : Type 0} → (o : Option V) → is_some o ≡ false → o ≡ none
fresh none h = refl
fresh (some v) h = cc

module _ {W : Type 0} (control : Proxy W) where
  unfoldable pub run_call : Call → SharedProxyManager W → Option ManagerError × SharedProxyManager W
  unfolding register deregister set_overrides supervise
  run_call (register_call b) m = register control b m
  run_call (deregister_call r) m = deregister control r m
  run_call (set_overrides_call key payload) m = set_overrides control key payload m
  run_call supervise_call m = supervise control m

  unfoldable pub run_calls : List Call → SharedProxyManager W → SharedProxyManager W
  unfolding run_call
  run_calls [] m = m
  run_calls (c ∷ cs) m = run_calls cs (run_call c m).1

  pub if-P :
      (P : Option ManagerError × SharedProxyManager W → Type 0) (b : Bool)
      (x y : Option ManagerError × SharedProxyManager W)
      → (b ≡ true → P x)
      → (b ≡ false → P y)
      → P (if◌then◌else◌ {A = Option ManagerError × SharedProxyManager W} b x y)
  if-P P true x y h g = h refl
  if-P P false x y h g = g refl

  pub ensure_started-IsConsistent :
      (m : SharedProxyManager W) → IsConsistent m → IsConsistent (ensure_started control m).1
  ensure_started-IsConsistent m h =
      let k : Keeps control m (ensure_started control m).1 = ensure_started-Keeps control m in
      subst (λ x. IsMirrored (ensure_started control m).1.by_run_id x) (sym k.1)
        (subst (λ x. IsMirrored x m.by_listen_port) (sym k.0) h)

  register-IsConsistent :
      (b : BindingPayload) (m : SharedProxyManager W)
      → IsConsistent m
      → IsConsistent (register control b m).1
  unfolding register
  register-IsConsistent b m h =
      let n : SharedProxyManager W = (ensure_started control m).1 in
      let k : Keeps control m n = ensure_started-Keeps control m in
      let same : IsConsistent n = ensure_started-IsConsistent m h in
      let P : Option ManagerError × SharedProxyManager W → Type 0 = λ x. IsConsistent x.1 in
      if-P P (contains m.by_run_id b.run_id) _ _ (λ c. h)
        (λ c.
          if-P P (contains m.by_listen_port b.listen_port) _ _ (λ d. h)
            (λ d.
              let put_in : IsMirrored (put n.by_run_id b.run_id b)
                  (put n.by_listen_port b.listen_port b.run_id) =
                put-IsMirrored n.by_run_id n.by_listen_port b
                  (ap (λ x. get x b.run_id) k.0 ∙ fresh (get m.by_run_id b.run_id) c)
                  (ap (λ x. get x b.listen_port) k.1 ∙ fresh (get m.by_listen_port b.listen_port) d)
                  same in
              if-P P (not (ensure_started control m).0) _ _ (λ f. same)
                (λ f.
                  if-P P (control.request (ControlRequest.register_listener b) n.proxy).0 _ _
                    (λ g. put_in)
                    (λ g.
                      if-P P
                        (control.is_cancelled
                          (control.request (ControlRequest.register_listener b) n.proxy).1)
                        _ _ (λ q. put_in)
                        (λ q.
                          remove-IsMirrored (put n.by_run_id b.run_id b)
                            (put n.by_listen_port b.listen_port b.run_id) b.run_id b
                            (get-put_same n.by_run_id b.run_id b) put_in)))))

  deregister-IsConsistent :
      (r : Text) (m : SharedProxyManager W)
      → IsConsistent m
      → IsConsistent (deregister control r m).1
  unfolding deregister
  deregister-IsConsistent r m h =
      let n : SharedProxyManager W = (ensure_started control m).1 in
      let k : Keeps control m n = ensure_started-Keeps control m in
      let same : IsConsistent n = ensure_started-IsConsistent m h in
      let P : Option ManagerError × SharedProxyManager W → Type 0 = λ x. IsConsistent x.1 in
      elim (Option-cases (get m.by_run_id r)) [
        | inl e ↦ rw (e, deregister) h
        | inr (b, e) ↦
            rw (e, deregister)
              (if-P P (not (ensure_started control m).0) _ _ (λ f. same)
                (λ f.
                  if-P P (control.request (ControlRequest.deregister_listener r) n.proxy).0 _ _
                    (λ g.
                      remove-IsMirrored n.by_run_id n.by_listen_port r b (ap (λ x. get x r) k.0 ∙ e)
                        same)
                    (λ g. same)))
      ]

  -- The runs by id and the runs by port mirror one another after any calls, also after those that
  -- raise, whatever the subprocess and its control channel do, provided that they do before.
  pub run_calls-IsConsistent :
      (cs : List Call) (m : SharedProxyManager W) → IsConsistent m → IsConsistent (run_calls cs m)
  unfolding run_calls run_call set_overrides supervise
  run_calls-IsConsistent [] m h = h
  run_calls-IsConsistent (register_call b ∷ cs) m h =
      run_calls-IsConsistent cs _ (register-IsConsistent b m h)
  run_calls-IsConsistent (deregister_call r ∷ cs) m h =
      run_calls-IsConsistent cs _ (deregister-IsConsistent r m h)
  run_calls-IsConsistent (set_overrides_call key payload ∷ cs) m h = run_calls-IsConsistent cs _ (
      let same : IsConsistent (ensure_started control m).1 = ensure_started-IsConsistent m h in
      if-P (λ x. IsConsistent x.1) (not (ensure_started control m).0) _ _ (λ f. same)
        (λ f.
          if-P (λ x. IsConsistent x.1)
            (control.request (ControlRequest.set_overrides key payload)
              (ensure_started control m).1.proxy).0
            _ _ (λ g. same) (λ g. same)))
  run_calls-IsConsistent (supervise_call ∷ cs) m h = run_calls-IsConsistent cs _ (
      if-P (λ x. IsConsistent x.1) (control.is_running m.proxy && not m.needs_rehydrate) _ _
        (λ f. h) (λ f. ensure_started-IsConsistent m h))

  -- On tables that mirror one another, a registration that returns, or that is cancelled during its
  -- request, enters the binding in both tables and leaves the other runs and the overrides alone;
  -- where it raises anything else, every lookup and the overrides are as they were.
  pub register-Registers :
      (b : BindingPayload) (m : SharedProxyManager W)
      → IsConsistent m
      → Registers b m (register control b m)
  unfolding register
  register-Registers b m h =
      let n : SharedProxyManager W = (ensure_started control m).1 in
      let k : Keeps control m n = ensure_started-Keeps control m in
      let same : IsConsistent n = ensure_started-IsConsistent m h in
      let no_run : contains m.by_run_id b.run_id ≡ false → get n.by_run_id b.run_id ≡ none =
        λ c. ap (λ x. get x b.run_id) k.0 ∙ fresh (get m.by_run_id b.run_id) c in
      let no_port : contains m.by_listen_port b.listen_port ≡ false
          → get n.by_listen_port b.listen_port ≡ none =
        λ d. ap (λ x. get x b.listen_port) k.1 ∙ fresh (get m.by_listen_port b.listen_port) d in
      let as_was : Registers b m (some ManagerError.proxy_failed, n) =
        (λ r. ap (λ x. get x r) k.0, λ p. ap (λ x. get x p) k.1, k.2) in
      let reply = control.request (ControlRequest.register_listener b) n.proxy in
      let entered : Registers b m (
        none,
        record n {
          proxy = reply.1;
          by_run_id = put n.by_run_id b.run_id b;
          by_listen_port = put n.by_listen_port b.listen_port b.run_id;
        },
      ) =
        (
          get-put_same n.by_run_id b.run_id b,
          get-put_same n.by_listen_port b.listen_port b.run_id,
          λ r other. get-put_other n.by_run_id b.run_id r b other ∙ ap (λ x. get x r) k.0,
          k.2,
        ) in
      if-P (Registers b m) (contains m.by_run_id b.run_id) _ _ (λ c. (λ r. refl, λ p. refl, refl))
        (λ c.
          if-P (Registers b m) (contains m.by_listen_port b.listen_port) _ _
            (λ d. (λ r. refl, λ p. refl, refl))
            (λ d.
              if-P (Registers b m) (not (ensure_started control m).0) _ _ (λ f. as_was)
                (λ f.
                  if-P (Registers b m)
                    (control.request (ControlRequest.register_listener b) n.proxy).0 _ _
                    (λ g. entered)
                    (λ g.
                      if-P (Registers b m)
                        (control.is_cancelled
                          (control.request (ControlRequest.register_listener b) n.proxy).1)
                        _ _ (λ q. entered)
                        (λ q. (
                          λ r.
                              get-remove-put n.by_run_id b.run_id r b same.runs_dict (no_run c)
                              ∙ ap (λ x. get x r) k.0,
                          λ p.
                              get-remove-put n.by_listen_port b.listen_port p b.run_id
                                same.ports_dict (no_port d)
                              ∙ ap (λ x. get x p) k.1,
                          k.2,
                        ))))))
