-- ===== src/Webhooks/Service.antt =====
-- maroonedpodsserver.go: the service that the registered webhooks name.
use maroonedpods.Prelude.{
  String, ◌≡◌, refl, inl, inr, Bool, true, false, Option, none, some, List, [], ◌∷◌, ◌++◌, arith,
  Option-cases, if◌then◌else◌, In, first, later, Each,
}
use maroonedpods.Cr.{Cluster}
use maroonedpods.Webhooks.{
  Webhook, ServiceReference, Object, mutating, validating, include_hooks, active_or_nil,
  api_server_ca_bundle, create_gating_mutating_webhook, create_gating_validating_webhook,
  dynamic_resources, with_bundle, configuration, mutating_webhook_configuration_name,
  validating_webhook_configuration_name, mutating_hooks, validating_hooks,
}

-- the webhooks of the configurations among the objects
unfoldable pub hooks_in : List Object → List Webhook
hooks_in [] = []
hooks_in (mutating m ∷ objects) = m.webhooks ++ hooks_in objects
hooks_in (validating none ∷ objects) = hooks_in objects
hooks_in (validating (some v) ∷ objects) = v.webhooks ++ hooks_in objects

-- the webhooks that are registered in a state of the cluster
abbrev pub registered_hooks : Cluster → String → List Webhook
registered_hooks c ns = hooks_in (dynamic_resources c ns)

-- Every registered webhook names the one service.
module _ (c : Cluster) (ns : String) where
  abbrev reference : ServiceReference
  reference = record {
    namespace = ns;
    name = "maroonedpods-server";
    path = "/serve-path";
    port = 443;
  }

  abbrev Refers : List Webhook → Type 0
  Refers hooks = Each (λ (h : Webhook). h.service ≡ reference) hooks

  Refers-append : (xs ys : List Webhook) → Refers xs → Refers ys → Refers (xs ++ ys)
  Refers-append [] ys p q = q
  Refers-append (x ∷ xs) ys (one, p) q = (one, Refers-append xs ys p q)

  Refers-with_bundle :
      (bundle : Option String) (hooks : List Webhook)
      → Refers hooks
      → Refers (with_bundle bundle hooks)
  unfolding with_bundle
  Refers-with_bundle none hooks p = p
  Refers-with_bundle (some b) [] p = tt
  Refers-with_bundle (some b) (h ∷ hooks) (one, p) = (one, Refers-with_bundle (some b) hooks p)

  Refers-if :
      (on : Bool) (bundle : Option String) (hooks : List Webhook)
      → Refers hooks
      → Refers (with_bundle bundle (if on then hooks else []))
  Refers-if true bundle hooks p = Refers-with_bundle bundle hooks p
  Refers-if false bundle hooks p = Refers-with_bundle bundle [] tt

  Refers-registered_hooks : Refers (registered_hooks c ns)
  unfolding hooks_in dynamic_resources create_gating_mutating_webhook
      create_gating_validating_webhook mutating_hooks validating_hooks
  Refers-registered_hooks = elim (Option-cases (active_or_nil c)) [
    | inl e ↦
        let nothing : dynamic_resources c ns ≡ validating none ∷ [] = ground arith in rw nothing tt
    | inr (cr, e) ↦
        let bundle = api_server_ca_bundle c ns in
        let on = include_hooks c ns in
        let one = Refers-if on bundle (mutating_hooks cr ns) (refl, tt) in
        let two = Refers-if on bundle (validating_hooks cr ns) (refl, (refl, tt)) in
        let both : dynamic_resources c ns
            ≡ mutating (
                configuration "MutatingWebhookConfiguration" mutating_webhook_configuration_name
                  (with_bundle bundle (if on then mutating_hooks cr ns else [])))
              ∷ validating (
                  some (
                    configuration "ValidatingWebhookConfiguration"
                      validating_webhook_configuration_name
                      (with_bundle bundle (if on then validating_hooks cr ns else []))))
              ∷ [] =
          ground arith in
        rw both (Refers-append _ _ one (Refers-append _ [] two tt))
  ]

  Refers-In :
      (h : Webhook) {hooks : List Webhook} → In h hooks → Refers hooks → h.service ≡ reference
  Refers-In h first (one, p) = one
  Refers-In h (later i) (one, p) = Refers-In h i p

  -- Every webhook that is registered names the service of the server in the namespace.
  pub registered_hooks-service :
      (h : Webhook) → In h (registered_hooks c ns) → h.service ≡ reference
  registered_hooks-service h i = Refers-In h i Refers-registered_hooks
