-- ===== src/SharedProxy/Mirror.antt =====
-- The tables of api/src/transport_matters/shared_proxy/manager.py: the runs by id and the runs by
-- port mirror one another, whatever the subprocess does.
use transport_matters.Prelude.{
  ℕ, Bool, true, false, ◌≡◌, refl, sym, ap, ◌∙◌, subst, ◌≢◌, inl, inr, none, some, Text,
  if◌then◌else◌,
}
use transport_matters.Prelude.Dict.{
  Dict, get, put, remove, text_key, nat_key, IsDict, put-IsDict, remove-IsDict, get-put_same,
  get-put_other, get-put_found, get-remove_found, get-remove_other,
}
use transport_matters.SharedProxy.Payloads.{BindingPayload, scope_key}
use transport_matters.SharedProxy.Manager.{
  Proxy, SharedProxyManager, ensure_started, start_process, rehydrate,
}

pub record IsMirrored (runs : Dict Text BindingPayload) (ports : Dict ℕ Text) : Type 0 where
  pub runs_dict : IsDict runs
  pub ports_dict : IsDict ports
  pub named :
      (r : Text) (b : BindingPayload)
      → get runs r ≡ some b
      → (b.run_id ≡ r) × (get ports b.listen_port ≡ some r)
  pub owned :
      (p : ℕ) (r : Text)
      → get ports p ≡ some r
      → (b : BindingPayload) × (get runs r ≡ some b) × (b.listen_port ≡ p)

not_none {ℓ} : {A : Type ℓ} {x : A} → some x ≡ none → ⊥
not_none h = cc

some_same {ℓ} : {A : Type ℓ} {x y : A} → some x ≡ some y → x ≡ y
some_same h = cc

pub put-IsMirrored :
    (runs : Dict Text BindingPayload) (ports : Dict ℕ Text) (b : BindingPayload)
    → get runs b.run_id ≡ none
    → get ports b.listen_port ≡ none
    → IsMirrored runs ports
    → IsMirrored (put runs b.run_id b) (put ports b.listen_port b.run_id)
put-IsMirrored runs ports b fresh_run fresh_port h = record {
  runs_dict = put-IsDict runs b.run_id b h.runs_dict;
  ports_dict = put-IsDict ports b.listen_port b.run_id h.ports_dict;
  named = λ r c e. elim (get-put_found runs b.run_id r b c e) [
    | inl (same, new) ↦
        subst
          (λ x. (x.run_id ≡ r) × (get (put ports b.listen_port b.run_id) x.listen_port ≡ some r))
          new (same, get-put_same ports b.listen_port b.run_id ∙ ap some same)
    | inr (other, old) ↦
        let before = h.named r c old in
        let apart : b.listen_port ≢ c.listen_port =
          λ q. absurd (not_none (sym before.1 ∙ ap (get ports) (sym q) ∙ fresh_port)) in
        (before.0, get-put_other ports b.listen_port c.listen_port b.run_id apart ∙ before.1)
  ];
  owned = λ p r e. elim (get-put_found ports b.listen_port p b.run_id r e) [
    | inl (same, new) ↦
        (b, ap (get (put runs b.run_id b)) (sym new) ∙ get-put_same runs b.run_id b, same)
    | inr (other, old) ↦
        let before = h.owned p r old in
        let apart : b.run_id ≢ r =
          λ q. absurd (not_none (sym before.1 ∙ ap (get runs) (sym q) ∙ fresh_run)) in
        (before.0, get-put_other runs b.run_id r b apart ∙ before.1, before.2)
  ];
}

pub remove-IsMirrored :
    (runs : Dict Text BindingPayload) (ports : Dict ℕ Text) (r : Text) (b : BindingPayload)
    → get runs r ≡ some b
    → IsMirrored runs ports
    → IsMirrored (remove runs r) (remove ports b.listen_port)
remove-IsMirrored runs ports r b there h =
    let mine = h.named r b there in
    record {
      runs_dict = remove-IsDict runs r h.runs_dict;
      ports_dict = remove-IsDict ports b.listen_port h.ports_dict;
      named = λ s c e.
          let old = get-remove_found runs r s c h.runs_dict e in
          let before = h.named s c old.1 in
          let apart : b.listen_port ≢ c.listen_port =
            λ q. old.0 (some_same (sym mine.1 ∙ ap (get ports) q ∙ before.1)) in
          (
            before.0,
            get-remove_other ports b.listen_port c.listen_port h.ports_dict apart ∙ before.1,
          );
      owned = λ p s e.
          let old = get-remove_found ports b.listen_port p s h.ports_dict e in
          let before = h.owned p s old.1 in
          let apart : r ≢ s = λ q. old.0 (
            ap BindingPayload.listen_port (some_same (sym there ∙ ap (get runs) q ∙ before.1))
            ∙ before.2) in
          (before.0, get-remove_other runs r s h.runs_dict apart ∙ before.1, before.2);
    }

module _ {W : Type 0} (control : Proxy W) where
  abbrev pub Keeps : SharedProxyManager W → SharedProxyManager W → Type 0
  Keeps m n =
      (n.by_run_id ≡ m.by_run_id)
      × (n.by_listen_port ≡ m.by_listen_port)
      × (n.overrides ≡ m.overrides)

  if-Keeps :
      (m : SharedProxyManager W) (b : Bool) (x y : Bool × SharedProxyManager W)
      → Keeps m x.1
      → Keeps m y.1
      → Keeps m (if◌then◌else◌ {A = Bool × SharedProxyManager W} b x y).1
  if-Keeps m true x y h g = h
  if-Keeps m false x y h g = g

  Keeps-trans : (l m n : SharedProxyManager W) → Keeps l m → Keeps m n → Keeps l n
  Keeps-trans l m n h g = (g.0 ∙ h.0, g.1 ∙ h.1, g.2 ∙ h.2)

  rehydrate-Keeps : (m : SharedProxyManager W) → Keeps m (rehydrate control m).1
  unfolding rehydrate
  rehydrate-Keeps m = if-Keeps m m.needs_rehydrate _ _ (refl, refl, refl) (refl, refl, refl)

  start_process-Keeps : (m : SharedProxyManager W) → Keeps m (start_process control m).1
  unfolding start_process
  start_process-Keeps m =
      if-Keeps m (control.is_running m.proxy) _ _ (refl, refl, refl) (refl, refl, refl)

  pub ensure_started-Keeps : (m : SharedProxyManager W) → Keeps m (ensure_started control m).1
  unfolding ensure_started
  ensure_started-Keeps m =
      let started = start_process control m in
      let kept : Keeps m started.1 = start_process-Keeps m in
      let ready = control.wait_until_ready started.1.proxy in
      let waited : SharedProxyManager W = record started.1 { proxy = ready.1 } in
      if-Keeps m started.0 _ _
        (if-Keeps m ready.0 _ _
          (Keeps-trans m waited (rehydrate control waited).1 kept (rehydrate-Keeps waited)) kept)
        kept
