-- ===== src/Webhooks.antt =====
-- The registration of the webhooks: resources/cluster/maroonedpodsserver.go of
-- pkg/maroonedpods-operator. The client is never nil here: `GetActiveMaroonedPods` calls it before the
-- test for a nil client. Both kinds of webhook share one record.
pub mod Registered
pub mod Service
pub mod Reach
pub mod Tests
use maroonedpods.Prelude.{
  find, ℕ, String, ◌==◌, Bool, true, false, ◌&&◌, Option, none, some, List, [], ◌∷◌, map, leb,
  Result, ok, err, if◌then◌else◌,
}
use maroonedpods.Admission.{controller_resource_name}
use maroonedpods.Cr.{MaroonedPods, Cluster, Deployment, get_active_maroonedpods, get_deployment}

pub record ServiceReference : Type 0 where
  pub namespace : String
  pub name : String
  pub path : String
  pub port : ℕ

pub record Rule : Type 0 where
  pub operations : List String
  pub api_groups : List String
  pub api_versions : List String
  pub scope : String
  pub resources : List String

pub record Webhook : Type 0 where
  pub name : String
  pub admission_review_versions : List String
  pub failure_policy : String
  pub side_effects : String
  pub match_policy : String
  pub namespace_selector : Option String
  pub rules : List Rule
  pub service : ServiceReference
  pub ca_bundle : Option String

-- `label` is the value of the one label, `maroonedpods.io`.
pub record Configuration : Type 0 where
  pub kind : String
  pub name : String
  pub label : String
  pub webhooks : List Webhook

-- An object of the list that is applied to the cluster; a nil pointer to a configuration is an object.
pub data Object : Type 0 where
  mutating : Configuration → Object
  validating : Option Configuration → Object

abbrev pub server_resource_name : String
server_resource_name = "maroonedpods-server"

abbrev pub mutating_webhook_configuration_name : String
mutating_webhook_configuration_name = "maroonedpods-mutator"

abbrev pub validating_webhook_configuration_name : String
validating_webhook_configuration_name = "maroonedpods-validator"

abbrev pub server_service_name : String
server_service_name = server_resource_name

abbrev pub serve_path : String
serve_path = "/serve-path"

abbrev pub signer_bundle : String
signer_bundle = "maroonedpods-server-signer-bundle"

-- `getAPIServerCABundle`; an empty bundle is not nil
unfoldable pub api_server_ca_bundle : Cluster → String → Option String
api_server_ca_bundle c ns = elim (c.get_config_map_data ns signer_bundle) [
  | err e ↦ none
  | ok entries ↦ find "ca-bundle.crt" entries
]

unfoldable pub is_ready : Result (Option Deployment) → Bool
is_ready (err e) = false
is_ready (ok none) = false
is_ready (ok (some d)) = leb 1 d.ready_replicas

-- the tests that set `includeHooks`
unfoldable pub include_hooks : Cluster → String → Bool
unfolding is_ready
include_hooks c ns =
    is_ready (get_deployment c server_resource_name ns)
    && is_ready (get_deployment c controller_resource_name ns)

-- `cr, _ := util.GetActiveMaroonedPods(c)`
unfoldable pub active_or_nil : Cluster → Option MaroonedPods
active_or_nil c = elim (get_active_maroonedpods c) [ err e ↦ none | ok cr ↦ cr ]

abbrev pub webhook :
    String → Option String → List String → List String → String → Option String → Webhook
webhook name selector operations resources ns bundle = record {
  name = name;
  admission_review_versions = "v1" ∷ "v1beta1" ∷ [];
  failure_policy = "Fail";
  side_effects = "None";
  match_policy = "Equivalent";
  namespace_selector = selector;
  rules =
      record {
        operations = operations;
        api_groups = "*" ∷ [];
        api_versions = "*" ∷ [];
        scope = "Namespaced";
        resources = resources;
      }
      ∷ [];
  service = record { namespace = ns; name = server_service_name; path = serve_path; port = 443 };
  ca_bundle = bundle;
}

unfoldable pub mutating_hooks : MaroonedPods → String → List Webhook
mutating_hooks cr ns =
    webhook "gater.maroonedpods.io" cr.namespace_selector ("CREATE" ∷ []) ("pods" ∷ []) ns none ∷ []

unfoldable pub validating_hooks : MaroonedPods → String → List Webhook
validating_hooks cr ns =
    webhook "maroonedpods.validator" none ("CREATE" ∷ "UPDATE" ∷ []) ("maroonedpods" ∷ []) ns none
    ∷ webhook "remove.pod.gate.validator" cr.namespace_selector ("UPDATE" ∷ []) ("pods" ∷ []) ns
        none
    ∷ []

-- the loop that sets the bundle, if there is one
unfoldable pub with_bundle : Option String → List Webhook → List Webhook
with_bundle none hooks = hooks
with_bundle (some bundle) hooks = map (λ (h : Webhook). record h { ca_bundle = some bundle }) hooks

abbrev pub configuration : String → String → List Webhook → Configuration
configuration kind name hooks = record {
  kind = kind;
  name = name;
  label = server_service_name;
  webhooks = hooks;
}

unfoldable pub create_gating_mutating_webhook : Cluster → String → Option Configuration
unfolding mutating_hooks with_bundle
create_gating_mutating_webhook c ns = elim (active_or_nil c) [
  | none ↦ none
  | some cr ↦
      let hooks = if include_hooks c ns then mutating_hooks cr ns else [] in
      some (
        configuration "MutatingWebhookConfiguration" mutating_webhook_configuration_name
          (with_bundle (api_server_ca_bundle c ns) hooks))
]

unfoldable pub create_gating_validating_webhook : Cluster → String → Option Configuration
unfolding validating_hooks with_bundle
create_gating_validating_webhook c ns = elim (active_or_nil c) [
  | none ↦ none
  | some cr ↦
      let hooks = if include_hooks c ns then validating_hooks cr ns else [] in
      some (
        configuration "ValidatingWebhookConfiguration" validating_webhook_configuration_name
          (with_bundle (api_server_ca_bundle c ns) hooks))
]

-- `createDynamicMutatingGatingServerResources`: only the mutating configuration is tested for nil
unfoldable pub dynamic_resources : Cluster → String → List Object
dynamic_resources c ns =
    let validating_object = validating (create_gating_validating_webhook c ns) in
    elim (create_gating_mutating_webhook c ns) [
      | none ↦ validating_object ∷ []
      | some m ↦ mutating m ∷ validating_object ∷ []
    ]
