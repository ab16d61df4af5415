-- ===== src/SharedProxy/Restarted.antt =====
-- A subprocess that has been started again, by api/src/transport_matters/shared_proxy/manager.py,
-- and the requests that it has accepted since.
use transport_matters.Prelude.{
  Bool, true, false, not, ◌||◌, ◌≡◌, refl, sym, ap, ◌∙◌, inl, inr, List, [], ◌∷◌, ◌++◌,
  if◌then◌else◌, Bool-cases,
}
use mathlib.Core.List.{append_assoc, append-nil, map}
use transport_matters.SharedProxy.Payloads.{ControlRequest}
use transport_matters.SharedProxy.Manager.{
  Proxy, SharedProxyManager, send_all, rehydrate_requests, rehydrate, start_process, ensure_started,
}

-- a proxy, with the requests that its process has accepted since it was started
unfoldable pub logged : {W : Type 0} → Proxy W → Proxy (W × List ControlRequest)
logged control = record {
  is_running = λ x. control.is_running x.0;
  is_cancelled = λ x. control.is_cancelled x.0;
  start = λ x. ((control.start x.0).0, ((control.start x.0).1, []));
  wait_until_ready =
      λ x. ((control.wait_until_ready x.0).0, ((control.wait_until_ready x.0).1, x.1));
  request = λ r x. (
    (control.request r x.0).0,
    ((control.request r x.0).1, if (control.request r x.0).0 then x.1 ++ r ∷ [] else x.1),
  );
}

true_is_not_false : true ≡ false → ⊥
true_is_not_false h = cc

module _ {W : Type 0} (control : Proxy W) where
  -- all the requests are accepted, if none raises
  send_all-accepted :
      (rs : List ControlRequest) (x : W × List ControlRequest)
      → (send_all (logged control) rs x).0 ≡ true
      → (send_all (logged control) rs x).1.1 ≡ x.1 ++ rs
  unfolding send_all logged
  send_all-accepted [] x h = sym (append-nil x.1)
  send_all-accepted (r ∷ rs) x h =
      let w : W = (control.request r x.0).1 in
      let step : Bool → Bool × (W × List ControlRequest) = λ b.
        if b
        then send_all (logged control) rs (w, if b then x.1 ++ r ∷ [] else x.1)
        else (false, (w, if b then x.1 ++ r ∷ [] else x.1)) in
      elim (Bool-cases (control.request r x.0).0) [
        | inl a ↦
            let after : send_all (logged control) (r ∷ rs) x
                ≡ send_all (logged control) rs (w, x.1 ++ r ∷ []) =
              ap step a in
            ap (λ q. q.1.1) after
            ∙ send_all-accepted rs (w, x.1 ++ r ∷ []) (sym (ap (λ q. q.0) after) ∙ h)
            ∙ append_assoc x.1 (r ∷ []) rs
        | inr a ↦
            let raised : (send_all (logged control) (r ∷ rs) x).0 ≡ false =
              ap (λ b. (step b).0) a in
            absurd (true_is_not_false (sym h ∙ raised))
      ]

  abbrev M : Type 0
  M = SharedProxyManager (W × List ControlRequest)

  rehydrate-accepted :
      (m : M)
      → m.needs_rehydrate ≡ true
      → m.proxy.1 ≡ []
      → (rehydrate (logged control) m).0 ≡ true
      → ((rehydrate (logged control) m).1.proxy.1 ≡ rehydrate_requests (logged control) m)
        × ((rehydrate (logged control) m).1.needs_rehydrate ≡ false)
  unfolding rehydrate
  rehydrate-accepted m needed empty_log h =
      let q : Bool × (W × List ControlRequest) =
        send_all (logged control) (rehydrate_requests (logged control) m) m.proxy in
      let sent : rehydrate (logged control) m
          ≡ (q.0, record m { proxy = q.1; needs_rehydrate = not q.0 }) =
        ap
          (λ b.
            if◌then◌else◌ {A = Bool × M} b
              (q.0, record m { proxy = q.1; needs_rehydrate = not q.0 }) (true, m))
          needed in
      let all_sent : q.0 ≡ true = sym (ap (λ r. r.0) sent) ∙ h in
      (
        ap (λ r. r.1.proxy.1) sent
            ∙ send_all-accepted (rehydrate_requests (logged control) m) m.proxy all_sent
            ∙ ap (λ l. l ++ rehydrate_requests (logged control) m) empty_log,
        ap (λ r. r.1.needs_rehydrate) sent ∙ ap not all_sent,
      )

  -- `ensure_started`, after the process has been started or not
  abbrev from_started : Bool × M → Bool × M
  from_started p =
      let ready = (logged control).wait_until_ready p.1.proxy in
      let waited : M = record p.1 { proxy = ready.1 } in
      if p.0 then (if ready.0 then rehydrate (logged control) waited else (false, waited)) else p

  from_started-accepted :
      (b : Bool) (m : M)
      → (b ≡ true → m.needs_rehydrate ≡ true)
      → m.proxy.1 ≡ []
      → (from_started (b, m)).0 ≡ true
      → ((from_started (b, m)).1.proxy.1 ≡ rehydrate_requests (logged control) m)
        × ((from_started (b, m)).1.needs_rehydrate ≡ false)
  unfolding logged rehydrate_requests
  from_started-accepted false m needed empty_log h = absurd (true_is_not_false (sym h))
  from_started-accepted true m needed empty_log h =
      let ready = (logged control).wait_until_ready m.proxy in
      let waited : M = record m { proxy = ready.1 } in
      let step : Bool → Bool × M =
        λ b. if◌then◌else◌ {A = Bool × M} b (rehydrate (logged control) waited) (false, waited) in
      elim (Bool-cases ready.0) [
        | inl a ↦
            let sent =
              rehydrate-accepted waited (needed refl) empty_log
                (sym (ap (λ b. (step b).0) a) ∙ h) in
            (
              ap (λ b. (step b).1.proxy.1) a ∙ sent.0,
              ap (λ b. (step b).1.needs_rehydrate) a ∙ sent.1,
            )
        | inr a ↦ absurd (true_is_not_false (sym h ∙ ap (λ b. (step b).0) a))
      ]

  -- Where the process does not run, a start that succeeds leaves exactly these requests accepted by
  -- the new process: one that registers each binding of the table of runs, in the order of the
  -- table, and after them one that sets the overrides of each scope that has any, in their order.
  -- Nothing is then left to be sent.
  pub ensure_started-restarted :
      (m : SharedProxyManager (W × List ControlRequest))
      → control.is_running m.proxy.0 ≡ false
      → (ensure_started (logged control) m).0 ≡ true
      → ((ensure_started (logged control) m).1.proxy.1
          ≡ map (λ e. ControlRequest.register_listener e.1) m.by_run_id
            ++ map (λ e. ControlRequest.set_overrides e.0 e.1) m.overrides)
        × ((ensure_started (logged control) m).1.needs_rehydrate ≡ false)
  unfolding ensure_started start_process logged rehydrate_requests
  ensure_started-restarted m stopped h =
      let q = (logged control).start m.proxy in
      let n : M = record m { proxy = q.1; needs_rehydrate = q.0 || m.needs_rehydrate } in
      let begun : ensure_started (logged control) m ≡ from_started (q.0, n) =
        ap (λ b. from_started (if◌then◌else◌ {A = Bool × M} b (true, m) (q.0, n))) stopped in
      let sent =
        from_started-accepted q.0 n (λ b. ap (λ c. c || m.needs_rehydrate) b) refl
          (sym (ap (λ r. r.0) begun) ∙ h) in
      (ap (λ r. r.1.proxy.1) begun ∙ sent.0, ap (λ r. r.1.needs_rehydrate) begun ∙ sent.1)
