-- ===== src/Override/Store.antt =====
-- api/src/transport_matters/override_state.py: the override store, by scope.
-- A method that changes `self` returns the new store; `get_all` does too, since reading a scope
-- that is not there enters an empty one.
pub mod Views
pub mod Scopes
use transport_matters.Prelude.{
  Bool, true, false, Option, none, some, List, [], ◌∷◌, map, Text, codes, if◌then◌else◌, is_some,
  or_else,
}
use transport_matters.Prelude.Dict.{Dict, get, put, remove, text_key, pair_key}
use transport_matters.Override.Model.{Override, OverrideValue, nothing, kind_text}

abbrev pub OverrideScope : Type 0
OverrideScope = Text × Text

abbrev pub OverrideScopeParams : Type 0
OverrideScopeParams = Option Text × Option Text

abbrev pub OverrideKey : Type 0
OverrideKey = Text × Text

abbrev pub legacy_scope_id : Text
legacy_scope_id = codes "__legacy__"

-- `text or default`: an absent and an empty text are both false
abbrev pub text_or : Option Text → Text → Text
text_or none default = default
text_or (some []) default = default
text_or (some (c ∷ cs)) default = c ∷ cs

unfoldable pub root_scope : Option Text → OverrideScope
root_scope run_id = (text_or run_id legacy_scope_id, text_or run_id legacy_scope_id)

unfoldable pub normalize_scope : Option OverrideScopeParams → OverrideScope
unfolding root_scope
normalize_scope none = root_scope none
normalize_scope (some (run_id, track_id)) =
    let scope_run_id = text_or run_id legacy_scope_id in
    (scope_run_id, text_or track_id scope_run_id)

unfoldable pub scope_from_params : Option Text → Option Text → OverrideScope
unfolding normalize_scope
scope_from_params run_id track_id = normalize_scope (some (run_id, track_id))

pub record OverrideStore : Type 0 where
  pub overrides : Dict OverrideScope (Dict OverrideKey Override)
  pub enabled : Dict OverrideScope Bool

-- `OverrideStore()`
abbrev pub new_store : OverrideStore
new_store = record { overrides = []; enabled = [] }

unfoldable pub is_enabled : OverrideStore → Option OverrideScopeParams → Bool
is_enabled store scope = or_else (get store.enabled (normalize_scope scope)) true

unfoldable pub set_enabled : OverrideStore → Bool → Option OverrideScopeParams → OverrideStore
set_enabled store value scope =
    let normalized = normalize_scope scope in
    if value
    then record store { enabled = remove store.enabled normalized }
    else record store { enabled = put store.enabled normalized false }

-- `_scoped_overrides`: the scope's dict, and the store with it entered
unfoldable pub scoped_overrides :
    OverrideStore → Option OverrideScopeParams → Dict OverrideKey Override × OverrideStore
scoped_overrides store scope =
    let normalized = normalize_scope scope in
    elim (get store.overrides normalized) [
      | some scoped ↦ (scoped, store)
      | none ↦ ([], record store { overrides = put store.overrides normalized [] })
    ]

-- the scope's dict is changed in place
unfoldable pub store_scoped :
    OverrideStore → Option OverrideScopeParams → Dict OverrideKey Override → OverrideStore
store_scoped store scope scoped = record store {
  overrides = put store.overrides (normalize_scope scope) scoped;
}

abbrev pub override_key : Override → OverrideKey
override_key o = (kind_text o.kind, o.target)

abbrev pub is_nothing : OverrideValue → Bool
is_nothing nothing = true
is_nothing _ = false

unfoldable pub upsert : OverrideStore → Override → Option OverrideScopeParams → OverrideStore
unfolding scoped_overrides store_scoped
upsert store o scope =
    let (scoped, entered) = scoped_overrides store scope in
    store_scoped entered scope
      (if is_nothing o.value then remove scoped (override_key o) else put scoped (override_key o) o)

unfoldable pub remove_override :
    OverrideStore → Text → Text → Option OverrideScopeParams → Bool × OverrideStore
unfolding scoped_overrides store_scoped
remove_override store kind target scope =
    let (scoped, entered) = scoped_overrides store scope in
    (is_some (get scoped (kind, target)), store_scoped entered scope (remove scoped (kind, target)))

unfoldable pub get_all : OverrideStore → Option OverrideScopeParams → List Override × OverrideStore
unfolding scoped_overrides
get_all store scope =
    let (scoped, entered) = scoped_overrides store scope in (map (λ e. e.1) scoped, entered)

unfoldable pub clear : OverrideStore → Option OverrideScopeParams → OverrideStore
clear store none = new_store
clear store (some scope) =
    let normalized = normalize_scope (some scope) in
    record {
      overrides = remove store.overrides normalized;
      enabled = remove store.enabled normalized;
    }
