-- ===== src/Override/Store/Views.antt =====
-- The store against its contract: a map from a scope and a key to an override, and a switch for
-- each scope.
use transport_matters.Prelude.{
  Bool, ◌≡◌, ap, ◌∙◌, Option, none, some, [], ◌∷◌, Text, if◌then◌else◌, ◌&&◌, or_else, is_some, inl,
  inr, Bool-cases, Option-cases, arith,
}
use transport_matters.Prelude.Dict.{
  Dict, get, put, remove, IsDict, get-put, get-remove, put-IsDict, remove-IsDict, pair_key,
  pair_eq_iff,
}
use transport_matters.Override.Model.{Override}
use transport_matters.Override.Store.{
  OverrideStore, OverrideScope, OverrideScopeParams, OverrideKey, normalize_scope, scoped_overrides,
  store_scoped, upsert, override_key, is_nothing, remove_override,
}

abbrev pub same : Text × Text → Text × Text → Bool
same = pair_key.beq

-- the override that stands at a key in a scope
unfoldable pub view : OverrideStore → OverrideScope → OverrideKey → Option Override
view store scope key = get (or_else (get store.overrides scope) []) key

-- every dict has each key once
abbrev pub AllDicts : Dict OverrideScope (Dict OverrideKey Override) → Type 0
AllDicts [] = Unit
AllDicts ((scope, scoped) ∷ rest) = IsDict scoped × AllDicts rest

pub record IsValid (store : OverrideStore) : Type 0 where
  pub scopes : IsDict store.overrides
  pub keys : AllDicts store.overrides
  pub switches : IsDict store.enabled

get-AllDicts :
    (d : Dict OverrideScope (Dict OverrideKey Override)) (scope : OverrideScope)
    → AllDicts d
    → IsDict (or_else (get d scope) [])
unfolding get
get-AllDicts [] scope h = tt
get-AllDicts ((j, v) ∷ d) scope h = ground (arith, get-AllDicts d scope h.1)

put-AllDicts :
    (d : Dict OverrideScope (Dict OverrideKey Override)) (scope : OverrideScope)
    (scoped : Dict OverrideKey Override)
    → AllDicts d
    → IsDict scoped
    → AllDicts (put d scope scoped)
unfolding put
put-AllDicts [] scope scoped h k = (k, tt)
put-AllDicts ((j, v) ∷ d) scope scoped h k = ground (arith, put-AllDicts d scope scoped h.1 k)

pub remove-AllDicts :
    (d : Dict OverrideScope (Dict OverrideKey Override)) (scope : OverrideScope)
    → AllDicts d
    → AllDicts (remove d scope)
unfolding remove
remove-AllDicts [] scope h = tt
remove-AllDicts ((j, v) ∷ d) scope h = ground (arith, remove-AllDicts d scope h.1)

module _ (store : OverrideStore) (scope : Option OverrideScopeParams) where
  pub scoped_overrides-eq :
      (scoped_overrides store scope).0 ≡ or_else (get store.overrides (normalize_scope scope)) []
  unfolding scoped_overrides
  scoped_overrides-eq = ground arith

  -- to enter an empty scope changes nothing that can be read
  view-scoped_overrides :
      (at : OverrideScope) (key : OverrideKey)
      → view (scoped_overrides store scope).1 at key ≡ view store at key
  unfolding scoped_overrides view
  view-scoped_overrides at key = ground (
    arith,
    get-put store.overrides (normalize_scope scope) at [],
    pair_eq_iff (normalize_scope scope) at,
  )

  view-store_scoped :
      (scoped : Dict OverrideKey Override) (at : OverrideScope) (key : OverrideKey)
      → view (store_scoped store scope scoped) at key
        ≡ (if same (normalize_scope scope) at then get scoped key else view store at key)
  unfolding store_scoped view
  view-store_scoped scoped at key =
      ground (arith, get-put store.overrides (normalize_scope scope) at scoped)

  pub scoped_overrides-IsValid : IsValid store → IsValid (scoped_overrides store scope).1
  unfolding scoped_overrides
  scoped_overrides-IsValid valid =
      elim (Option-cases (get store.overrides (normalize_scope scope))) [
        | inl e ↦
            rw (e, scoped_overrides)
              (record {
                scopes = put-IsDict store.overrides (normalize_scope scope) [] valid.scopes;
                keys = put-AllDicts store.overrides (normalize_scope scope) [] valid.keys tt;
                switches = valid.switches;
              })
        | inr (d, e) ↦ rw (e, scoped_overrides) valid
      ]

  pub store_scoped-IsValid :
      (scoped : Dict OverrideKey Override)
      → IsDict scoped
      → IsValid store
      → IsValid (store_scoped store scope scoped)
  unfolding store_scoped
  store_scoped-IsValid scoped h valid = record {
    scopes = put-IsDict store.overrides (normalize_scope scope) scoped valid.scopes;
    keys = put-AllDicts store.overrides (normalize_scope scope) scoped valid.keys h;
    switches = valid.switches;
  }

  pub scoped_overrides-IsDict : IsValid store → IsDict (scoped_overrides store scope).0
  scoped_overrides-IsDict valid =
      rw scoped_overrides-eq (get-AllDicts store.overrides (normalize_scope scope) valid.keys)

  -- the scope's dict, read through the view
  get-scoped_overrides :
      (key : OverrideKey)
      → get (scoped_overrides store scope).0 key ≡ view store (normalize_scope scope) key
  unfolding view
  get-scoped_overrides key = rw scoped_overrides-eq

-- a dict that replaces a scope's own is all that a method changes
view_after :
    (store : OverrideStore) (scope : Option OverrideScopeParams)
    (scoped : Dict OverrideKey Override) (at : OverrideScope) (key : OverrideKey)
    → view (store_scoped (scoped_overrides store scope).1 scope scoped) at key
      ≡ (if same (normalize_scope scope) at then get scoped key else view store at key)
view_after store scope scoped at key =
    view-store_scoped (scoped_overrides store scope).1 scope scoped at key
    ∙ rw (view-scoped_overrides store scope at key)

module _ (store : OverrideStore) (scope : Option OverrideScopeParams) where
  -- In a store with one entry for each key: after `upsert` the key holds the override, or nothing
  -- if its value is None; every other key of every scope is as it was.
  pub view-upsert :
      (o : Override) (at : OverrideScope) (key : OverrideKey)
      → IsValid store
      → view (upsert store o scope) at key ≡ (
          if same (normalize_scope scope) at && same (override_key o) key
          then (if is_nothing o.value then none else some o)
          else view store at key)
  unfolding upsert
  view-upsert o at key valid =
      let scoped = (scoped_overrides store scope).0 in
      ground (
        arith,
        view_after store scope (remove scoped (override_key o)) at key,
        view_after store scope (put scoped (override_key o) o) at key,
        get-remove scoped (override_key o) key (scoped_overrides-IsDict store scope valid),
        get-put scoped (override_key o) key o,
        get-scoped_overrides store scope key,
        pair_eq_iff (normalize_scope scope) at,
      )

  -- In a store with one entry for each key: `remove` reports whether the key was there, and takes
  -- it and nothing else away.
  pub view-remove_override :
      (kind target : Text) (at : OverrideScope) (key : OverrideKey)
      → IsValid store
      → let (found, after) = remove_override store kind target scope in
        (found ≡ is_some (view store (normalize_scope scope) (kind, target)))
        × (view after at key ≡ (
            if same (normalize_scope scope) at && same (kind, target) key
            then none
            else view store at key))
  unfolding remove_override
  view-remove_override kind target at key valid =
      let scoped = (scoped_overrides store scope).0 in
      (
        ap is_some (get-scoped_overrides store scope (kind, target)),
        ground (
          arith,
          view_after store scope (remove scoped (kind, target)) at key,
          get-remove scoped (kind, target) key (scoped_overrides-IsDict store scope valid),
          get-scoped_overrides store scope key,
          pair_eq_iff (normalize_scope scope) at,
        ),
      )

  -- `upsert` keeps one entry for a key.
  pub upsert-IsValid : (o : Override) → IsValid store → IsValid (upsert store o scope)
  unfolding upsert
  upsert-IsValid o valid =
      let scoped = (scoped_overrides store scope).0 in
      let h = scoped_overrides-IsDict store scope valid in
      let entered = scoped_overrides-IsValid store scope valid in
      elim (Bool-cases (is_nothing o.value)) [
        | inl e ↦
            rw e (store_scoped-IsValid _ scope _ (remove-IsDict scoped (override_key o) h) entered)
        | inr e ↦
            rw e (store_scoped-IsValid _ scope _ (put-IsDict scoped (override_key o) o h) entered)
      ]
