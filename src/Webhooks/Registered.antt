-- ===== src/Webhooks/Registered.antt =====
-- maroonedpodsserver.go: which webhooks are registered in which state of the cluster.
use maroonedpods.Prelude.{
  ◌≤◌, String, ◌==◌, ◌≡◌, ◌⊎◌, ◌↔◌, inl, inr, Bool, none, [], ◌∷◌, arith, any, Option-cases,
  if◌then◌else◌, ok,
}
use maroonedpods.Cr.{MaroonedPods, Cluster, Deployment}
use maroonedpods.Webhooks.{
  Webhook, Rule, validating, active_or_nil, api_server_ca_bundle, create_gating_mutating_webhook,
  create_gating_validating_webhook, dynamic_resources,
}

-- the cluster has the deployment, with a replica that is ready
pub record IsReady (c : Cluster) (name ns : String) : Type 0 where
  pub deployment : Deployment
  pub found : c.get_deployment_of name ns ≡ ok deployment
  pub replica : 1 ≤ deployment.ready_replicas

abbrev pub BothReady : Cluster → String → Type 0
BothReady c ns = IsReady c "maroonedpods-server" ns × IsReady c "maroonedpods-controller" ns

-- the operations on resources that are sent to be mutated, and to be validated
abbrev pub Mutated : String → String → Type 0
Mutated operation resource = (operation ≡ "CREATE") × (resource ≡ "pods")

abbrev pub Validated : String → String → Type 0
Validated operation resource =
    ((operation ≡ "UPDATE") × (resource ≡ "pods"))
    ⊎ (((operation ≡ "CREATE") ⊎ (operation ≡ "UPDATE")) × (resource ≡ "maroonedpods"))

abbrev pub about_pods : Webhook → Bool
about_pods h = any (λ (r : Rule). any (λ s. s == "pods") r.resources) h.rules

-- A webhook is enforced, under the bundle of the cluster, and on pods in the namespaces that the resource
-- selects.
pub record IsAsked (c : Cluster) (ns : String) (cr : MaroonedPods) (h : Webhook) : Type 0 where
  pub enforced : h.failure_policy ≡ "Fail"
  pub trusted : h.ca_bundle ≡ api_server_ca_bundle c ns
  pub selected : h.namespace_selector ≡ (if about_pods h then cr.namespace_selector else none)

module _ (c : Cluster) (ns : String) where
  -- The list of objects to apply is a single nil configuration exactly if no resource is active.
  pub dynamic_resources_nil_iff :
      (dynamic_resources c ns ≡ validating none ∷ []) ↔ (active_or_nil c ≡ none)
  unfolding dynamic_resources create_gating_mutating_webhook create_gating_validating_webhook
  dynamic_resources_nil_iff = elim (Option-cases (active_or_nil c)) [
    | inl e ↦ ground arith
    | inr (cr, e) ↦ ground arith
  ]
