-- ===== src/SharedProxy/Deregistered.antt =====
-- The other calls of api/src/transport_matters/shared_proxy/manager.py: a run that is deregistered,
-- and overrides that are set.
use mathlib.Core.Option.{some-injective}
use transport_matters.Prelude.{
  true, not, ◌≡◌, refl, sym, ap, ◌∙◌, subst, ◌≢◌, inl, inr, Option, none, some, [], ◌∷◌, Text,
  text_eq_refl, filter, Option-cases, arith, if◌then◌else◌, text_eq, ℕ, Bool-cases, ◌==◌,
  text_eq_iff, false,
}
use transport_matters.Prelude.Dict.{
  Dict, get, text_key, nat_key, IsDict, get-remove, get-put_same, get-put_other, get-remove_absent,
  get-put_again, remove,
}
use transport_matters.SharedProxy.Payloads.{
  OverrideScope, OverrideSnapshot, ControlRequest, scope_key, BindingPayload, option_eq, scope_eq,
  scope_eq_iff,
}
use transport_matters.SharedProxy.Manager.{
  Proxy, SharedProxyManager, ManagerError, deregister, set_overrides, ensure_started, restore,
  is_of_run,
}
use transport_matters.SharedProxy.Mirror.{IsMirrored, Keeps, ensure_started-Keeps}
use transport_matters.SharedProxy.Registered.{IsConsistent, if-P}

-- the entry of a port, once the run is gone
abbrev pub port_without : Text → Option Text → Option Text
port_without r none = none
port_without r (some s) = if text_eq s r then none else some s

remove-port :
    (runs : Dict Text BindingPayload) (ports : Dict ℕ Text) (r : Text) (b : BindingPayload) (p : ℕ)
    → IsMirrored runs ports
    → get runs r ≡ some b
    → get (remove ports b.listen_port) p ≡ port_without r (get ports p)
remove-port runs ports r b p h there = elim (Bool-cases (b.listen_port == p)) [
  | inl same ↦
      let at_port : b.listen_port ≡ p = ground arith in
      let here : get ports p ≡ some r = ap (get ports) (sym at_port) ∙ (h.named r b there).1 in
      rw (get-remove ports b.listen_port p h.ports_dict, same, here, text_eq_refl r) refl
  | inr other ↦
      rw (get-remove ports b.listen_port p h.ports_dict, other)
        (elim (Option-cases (get ports p)) [
          | inl e ↦ rw e refl
          | inr (s, e) ↦ elim (Bool-cases (text_eq s r)) [
            | inl q ↦
                let c = h.owned p s e in
                let mine : some c.0 ≡ some b =
                  sym c.1 ∙ ap (get runs) ((text_eq_iff s r).0 q) ∙ there in
                let port : b.listen_port ≡ p =
                  ap BindingPayload.listen_port (sym (some-injective c.0 b mine)) ∙ c.2 in
                absurd (ground (arith, port))
            | inr q ↦ rw (e, q) refl
          ]
        ])
]

module _ {W : Type 0} (control : Proxy W) where
  filter-overrides :
      (r : Text) (d : Dict OverrideScope OverrideSnapshot) (key : OverrideScope)
      → get (filter (λ e. not (is_of_run control r e)) d) key
        ≡ (if option_eq key.0 (some r) then none else get d key)
  unfolding get
  filter-overrides r [] key = ground arith
  filter-overrides r ((k, v) ∷ d) key = elim (Bool-cases (scope_eq k key)) [
    | inl same ↦
        let e : k ≡ key = (scope_eq_iff k key).0 same in
        elim (Bool-cases (option_eq k.0 (some r))) [
          | inl q ↦
              let q' : option_eq key.0 (some r) ≡ true =
                ap (λ (x : OverrideScope). option_eq x.0 (some r)) (sym e) ∙ q in
              rw q (filter-overrides r d key ∙ rw q' refl)
          | inr q ↦
              let q' : option_eq key.0 (some r) ≡ false =
                ap (λ (x : OverrideScope). option_eq x.0 (some r)) (sym e) ∙ q in
              rw (q, q', get, same) refl
        ]
    | inr other ↦ elim (Bool-cases (option_eq k.0 (some r))) [
      | inl q ↦ rw (q, other) (filter-overrides r d key)
      | inr q ↦ rw (q, get, other) (filter-overrides r d key)
    ]
  ]

  -- what it leaves to deregister a run: nothing of the run, or, on an error, the tables as they were
  abbrev pub Deregisters :
      Text → SharedProxyManager W → Option ManagerError × SharedProxyManager W → Type 0
  Deregisters r m (none, n) =
      ((s : Text) → get n.by_run_id s ≡ (if text_eq r s then none else get m.by_run_id s))
      × ((p : ℕ) → get n.by_listen_port p ≡ port_without r (get m.by_listen_port p))
      × ((key : OverrideScope)
          → get n.overrides key ≡ (if option_eq key.0 (some r) then none else get m.overrides key))
  Deregisters r m (some e, n) = Keeps control m n

  -- On tables that mirror one another, a call that deregisters a run and does not raise takes out
  -- exactly the entry of the run, the port that is the run's, and the overrides of every scope of
  -- the run; every other run, port and scope has the entry it had. A call that raises leaves the
  -- tables and the overrides as they were.
  pub deregister-Deregisters :
      (r : Text) (m : SharedProxyManager W)
      → IsConsistent m
      → Deregisters r m (deregister control r m)
  unfolding deregister
  deregister-Deregisters r m h =
      let n : SharedProxyManager W = (ensure_started control m).1 in
      let k : Keeps control m n = ensure_started-Keeps control m in
      elim (Option-cases (get m.by_run_id r)) [
        | inl e ↦ rw (e, deregister) (refl, refl, refl)
        | inr (b, e) ↦
            rw (e, deregister)
              (if-P control (Deregisters r m) (not (ensure_started control m).0) _ _ (λ f. k)
                (λ f.
                  if-P control (Deregisters r m)
                    (control.request (ControlRequest.deregister_listener r) n.proxy).0 _ _
                    (λ g. (
                      λ s.
                          subst
                            (λ d.
                              get (remove d r) s
                              ≡ (if text_eq r s then none else get m.by_run_id s))
                            (sym k.0) (get-remove m.by_run_id r s h.runs_dict),
                      λ p.
                          subst
                            (λ d.
                              get (remove d b.listen_port) p
                              ≡ port_without r (get m.by_listen_port p))
                            (sym k.1) (remove-port m.by_run_id m.by_listen_port r b p h e),
                      λ key.
                          subst
                            (λ d.
                              get (filter (λ e. not (is_of_run control r e)) d) key
                              ≡ (if option_eq key.0 (some r) then none else get m.overrides key))
                            (sym k.2) (filter-overrides r m.overrides key),
                    ))
                    (λ g. k)))
      ]

  -- what it leaves to set the overrides of a scope
  abbrev pub Sets :
      OverrideScope
      → OverrideSnapshot
      → SharedProxyManager W
      → Option ManagerError × SharedProxyManager W
      → Type 0
  Sets key payload m (none, n) =
      (get n.overrides key ≡ some payload)
      × ((s : OverrideScope) → key ≢ s → get n.overrides s ≡ get m.overrides s)
  Sets key payload m (some e, n) = (s : OverrideScope) → get n.overrides s ≡ get m.overrides s

  restore-get :
      (key s : OverrideScope) (d : Dict OverrideScope OverrideSnapshot)
      → IsDict d
      → get (restore control key (get d key) d) s ≡ get d s
  unfolding restore
  restore-get key s d h = elim (Option-cases (get d key)) [
    | inl e ↦ rw (e, restore) (get-remove_absent d key s h e)
    | inr (v, e) ↦ rw (e, restore) (get-put_again d key s v e)
  ]

  -- Where the overrides are a dict, those of a scope that are set are found again, and those of
  -- other scopes are left alone; or else the call raises, and then all the overrides are as they
  -- were.
  pub set_overrides-Sets :
      (key : OverrideScope) (payload : OverrideSnapshot) (m : SharedProxyManager W)
      → IsDict m.overrides
      → Sets key payload m (set_overrides control key payload m)
  unfolding set_overrides
  set_overrides-Sets key payload m h =
      let n : SharedProxyManager W = (ensure_started control m).1 in
      let k : Keeps control m n = ensure_started-Keeps control m in
      let as_was : (s : OverrideScope)
          → get (restore control key (get m.overrides key) n.overrides) s ≡ get m.overrides s =
        λ s.
          ap (λ d. get (restore control key (get m.overrides key) d) s) k.2
          ∙ restore-get key s m.overrides h in
      if-P control (Sets key payload m) (not (ensure_started control m).0) _ _ (λ f. as_was)
        (λ f.
          if-P control (Sets key payload m)
            (control.request (ControlRequest.set_overrides key payload) n.proxy).0 _ _
            (λ g. (
              get-put_same n.overrides key payload,
              λ s other. get-put_other n.overrides key s payload other ∙ ap (λ x. get x s) k.2,
            ))
            (λ g. as_was))
