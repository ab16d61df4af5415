-- ===== src/Override/Store/Scopes.antt =====
-- Scopes are separate: the switch of a scope, what `clear` removes, and the list that a scope gives.
use transport_matters.Prelude.{
  [], Bool, true, false, ◌≡◌, ap, Option, none, some, map, Text, if◌then◌else◌, or_else, arith,
}
use transport_matters.Prelude.Dict.{get, get-put, get-remove, put-IsDict, remove-IsDict, pair_key}
use transport_matters.Override.Store.{
  OverrideStore, OverrideScopeParams, OverrideKey, normalize_scope, is_enabled, set_enabled,
  scoped_overrides, remove_override, get_all, clear,
}
use transport_matters.Override.Store.Views.{
  IsValid, same, view, remove-AllDicts, scoped_overrides-eq, scoped_overrides-IsValid,
  scoped_overrides-IsDict, store_scoped-IsValid,
}

module _ (store : OverrideStore) (valid : IsValid store) where
  -- In a store with one entry for each key: a scope is on until it is switched off, and the switch
  -- of one scope leaves the others alone.
  pub is_enabled-set_enabled :
      (value : Bool) (scope other : Option OverrideScopeParams)
      → is_enabled (set_enabled store value scope) other ≡ (
          if same (normalize_scope scope) (normalize_scope other)
          then value
          else is_enabled store other)
  unfolding is_enabled set_enabled
  is_enabled-set_enabled true scope other =
      rw (get-remove store.enabled (normalize_scope scope) (normalize_scope other) valid.switches)
        (ground arith)
  is_enabled-set_enabled false scope other =
      rw (get-put store.enabled (normalize_scope scope) (normalize_scope other) false)
        (ground arith)

  -- In a store with one entry for each key: `clear` of a scope empties it and switches it on; the
  -- other scopes keep both.
  pub view-clear :
      (scope : OverrideScopeParams) (other : Option OverrideScopeParams) (key : OverrideKey)
      → let after = clear store (some scope) in
        (view after (normalize_scope other) key ≡ (
          if same (normalize_scope (some scope)) (normalize_scope other)
          then none
          else view store (normalize_scope other) key))
        × (is_enabled after other ≡ (
            if same (normalize_scope (some scope)) (normalize_scope other)
            then true
            else is_enabled store other))
  unfolding clear view is_enabled get
  view-clear scope other key = (
    ground (
      arith,
      get-remove store.overrides (normalize_scope (some scope)) (normalize_scope other)
          valid.scopes,
    ),
    ground (
      arith,
      get-remove store.enabled (normalize_scope (some scope)) (normalize_scope other)
          valid.switches,
    ),
  )

  pub clear-IsValid : (scope : Option OverrideScopeParams) → IsValid (clear store scope)
  unfolding clear
  clear-IsValid none = record { scopes = tt; keys = tt; switches = tt }
  clear-IsValid (some scope) = record {
    scopes = remove-IsDict store.overrides _ valid.scopes;
    keys = remove-AllDicts store.overrides _ valid.keys;
    switches = remove-IsDict store.enabled _ valid.switches;
  }

  pub set_enabled-IsValid :
      (value : Bool) (scope : Option OverrideScopeParams) → IsValid (set_enabled store value scope)
  unfolding set_enabled
  set_enabled-IsValid true scope = record {
    scopes = valid.scopes;
    keys = valid.keys;
    switches = remove-IsDict store.enabled _ valid.switches;
  }
  set_enabled-IsValid false scope = record {
    scopes = valid.scopes;
    keys = valid.keys;
    switches = put-IsDict store.enabled _ false valid.switches;
  }

  pub remove_override-IsValid :
      (kind target : Text) (scope : Option OverrideScopeParams)
      → IsValid (remove_override store kind target scope).1
  unfolding remove_override
  remove_override-IsValid kind target scope =
      store_scoped-IsValid _ scope _
        (remove-IsDict (scoped_overrides store scope).0 (kind, target)
          (scoped_overrides-IsDict store scope valid))
        (scoped_overrides-IsValid store scope valid)

pub get_all-eq :
    (store : OverrideStore) (scope : Option OverrideScopeParams)
    → (get_all store scope).0
      ≡ map (λ e. e.1) (or_else (get store.overrides (normalize_scope scope)) [])
unfolding get_all
get_all-eq store scope = ap (map (λ e. e.1)) (scoped_overrides-eq store scope)
