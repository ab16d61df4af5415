-- ===== src/SharedProxy/Payloads.antt =====
-- api/src/transport_matters/shared_proxy/models.py and the bindings of binding.py: what is sent to
-- the subprocess. A path is its text, as is a storage root.
use transport_matters.Prelude.{
  ℕ, ◌≤◌, Bool, true, false, ◌&&◌, ◌≡◌, refl, ◌↔◌, Option, none, some, List, ◌∷◌, ◌++◌, Text, codes,
  text_eq, text_eq_iff, leb, if◌then◌else◌, is_some, arith,
}
use transport_matters.Prelude.Dict.{Eq}
use transport_matters.Prelude.Decimal.{nat_text}
use transport_matters.Ir.Value.{Fields}
use transport_matters.Override.Model.{Override}

pub data ProxyModeKind : Type 0 where
  reverse regular : ProxyModeKind

pub record ProxyRunBinding : Type 0 where
  pub run_id : Option Text
  pub harness : Option Text
  pub working_dir : Option Text
  pub storage_root : Option Text
  pub listen_port : Option ℕ
  pub upstream : Option Text
  pub agent_home_dir : Option Text
  pub owned_native_session_id : Option Text
  pub owned_source_descriptor : Option Text
  pub space_id : Option Text
  pub worktree_id : Option Text
  pub launch_fields : Fields
  pub default_client_passthrough : List Text
  pub breakpoint_skip_models : List Text

pub record BindingPayload : Type 0 where
  pub run_id : Text
  pub harness : Option Text
  pub working_dir : Option Text
  pub storage_root : Option Text
  pub listen_port : ℕ
  pub upstream : Option Text
  pub agent_home_dir : Option Text
  pub owned_native_session_id : Option Text
  pub owned_source_descriptor : Option Text
  pub space_id : Option Text
  pub worktree_id : Option Text
  pub launch_fields : Fields
  pub default_client_passthrough : List Text
  pub breakpoint_skip_models : List Text
  pub mode_kind : ProxyModeKind

-- `_infer_mode_kind`; a ValueError is `none`
unfoldable pub infer_mode_kind : ProxyRunBinding → Option ProxyModeKind
infer_mode_kind b =
    if (elim b.harness [ none ↦ false | some h ↦ text_eq h (codes "codex") ])
    then some regular
    else elim b.upstream [ some (c ∷ cs) ↦ some reverse | _ ↦ none ]

-- `binding_payload_from_binding`; an error, of the range of ports too, is `none`
unfoldable pub binding_payload_from_binding : ProxyRunBinding → Option BindingPayload
unfolding infer_mode_kind
binding_payload_from_binding b = elim b.run_id [
  | none ↦ none
  | some run_id ↦ elim b.listen_port [
    | none ↦ none
    | some listen_port ↦ elim (infer_mode_kind b) [
      | none ↦ none
      | some mode_kind ↦
          if leb 1 listen_port && leb listen_port 65535
          then some (record {
            run_id = run_id;
            harness = b.harness;
            working_dir = b.working_dir;
            storage_root = b.storage_root;
            listen_port = listen_port;
            upstream = b.upstream;
            agent_home_dir = b.agent_home_dir;
            owned_native_session_id = b.owned_native_session_id;
            owned_source_descriptor = b.owned_source_descriptor;
            space_id = b.space_id;
            worktree_id = b.worktree_id;
            launch_fields = b.launch_fields;
            default_client_passthrough = b.default_client_passthrough;
            breakpoint_skip_models = b.breakpoint_skip_models;
            mode_kind = mode_kind;
          })
          else none
    ]
  ]
]

-- `mode_spec`; a ValueError is `none`
unfoldable pub mode_spec : BindingPayload → Option Text
mode_spec p = elim p.mode_kind [
  | regular ↦ some (codes "regular@127.0.0.1:" ++ nat_text p.listen_port)
  | reverse ↦ elim p.upstream [
    | none ↦ none
    | some upstream ↦
        some (codes "reverse:" ++ upstream ++ codes "@127.0.0.1:" ++ nat_text p.listen_port)
  ]
]

-- the scope of overrides: a run, and a track of it
abbrev pub OverrideScope : Type 0
OverrideScope = Option Text × Option Text

abbrev pub option_eq : Option Text → Option Text → Bool
option_eq none none = true
option_eq (some a) (some b) = text_eq a b
option_eq _ _ = false

pub option_eq_iff : (a b : Option Text) → (option_eq a b ≡ true) ↔ (a ≡ b)
option_eq_iff none none = (λ h. refl, λ h. refl)
option_eq_iff none (some b) = (λ h. cc, λ h. cc)
option_eq_iff (some a) none = (λ h. cc, λ h. cc)
option_eq_iff (some a) (some b) = ground (arith, text_eq_iff a b)

abbrev pub scope_eq : OverrideScope → OverrideScope → Bool
scope_eq a b = option_eq a.0 b.0 && option_eq a.1 b.1

pub scope_eq_iff : (a b : OverrideScope) → (scope_eq a b ≡ true) ↔ (a ≡ b)
scope_eq_iff (a, b) (c, d) = ground (arith, option_eq_iff a c, option_eq_iff b d)

instance abbrev pub scope_key : Eq OverrideScope
scope_key = record { beq = scope_eq; beq_iff = scope_eq_iff }

pub record OverrideSnapshot : Type 0 where
  pub enabled : Bool
  pub overrides : List Override

pub data ControlRequest : Type 0 where
  ping : ControlRequest
  register_listener : BindingPayload → ControlRequest
  deregister_listener : Text → ControlRequest
  set_overrides : OverrideScope → OverrideSnapshot → ControlRequest

-- Every payload of a binding has a mode spec, and a port of the range 1 to 65535.
pub mode_spec-binding_payload_from_binding :
    (b : ProxyRunBinding) (p : BindingPayload)
    → binding_payload_from_binding b ≡ some p
    → (is_some (mode_spec p) ≡ true) × (1 ≤ p.listen_port) × (p.listen_port ≤ 65535)
unfolding binding_payload_from_binding mode_spec infer_mode_kind
mode_spec-binding_payload_from_binding b p h = ground (arith, h)
