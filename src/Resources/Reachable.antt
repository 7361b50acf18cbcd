-- ===== src/Resources/Reachable.antt =====
-- From the API server to the handler: the service that the webhooks name, the pods that it selects, the
-- port that they listen on, and the names of the certificate that they serve.
use maroonedpods.Prelude.{
  ℕ, String, ◌≡◌, refl, eq_refl, Bool, true, false, Option, none, some, List, [], ◌∷◌, arith, any,
  nat_eq, ◌&&◌, concat, find, ok, ap, ◌∙◌, In, first, later,
}
use maroonedpods.Rbac.Rule.{member}
use maroonedpods.Cr.{MaroonedPods, Cluster}
use maroonedpods.Rotation.{
  CertificateDefinition, get_certificate_definitions, create_certificate_definitions,
  default_definitions, complete,
}
use maroonedpods.Rotation.Sync.{Secret, target_creator, serving}
use maroonedpods.Admission.Mux.{Route, route}
use maroonedpods.Webhooks.{
  Webhook, ServiceReference, serve_path, server_service_name, server_resource_name,
}
use maroonedpods.Webhooks.Service.{registered_hooks, registered_hooks-service}
use maroonedpods.Resources.{
  Builder, IsBuilder, Container, ContainerPort, Deployment, PodSpec, Service, Object, service,
  deployment,
}
use maroonedpods.Resources.Util.{
  default_port, maroonedpods_label, create_deployment, create_container,
}
use maroonedpods.Resources.Server.{
  create_server_service, create_server_deployment, with_priority, spread,
}
use maroonedpods.Resources.Namespaced.{
  FactoryArgs, create_resource_group, server_group, server_resources, or_namespace,
}

-- some container of the deployment has the port
abbrev pub exposes : Deployment → ℕ → Bool
exposes d port =
    any (λ (c : Container). any (λ (p : ContainerPort). nat_eq p.container_port port) c.ports)
      d.template_spec.containers

abbrev pub is_health : Route → Bool
is_health Route.health = true
is_health _ = false

abbrev pub probed_at : ℕ → Container → Bool
probed_at port c = elim c.readiness_probe [
  | none ↦ false
  | some p ↦ nat_eq p.port port && is_health (route p.path)
]

-- some container of the deployment is probed at the port, on the health route
abbrev pub probes : Deployment → ℕ → Bool
probes d port = any (probed_at port) d.template_spec.containers

-- Traffic for the service's port reaches pods of the deployment, at the port of the program.
pub record Reaches (r : ServiceReference) (port : ℕ) (s : Service) (d : Deployment) : Type 0 where
  pub same_name : s.name ≡ r.name
  pub same_namespace : s.namespace ≡ r.namespace
  pub label : String
  pub value : String
  pub selector : s.selector ≡ (label, value) ∷ []
  pub selected : find label d.template_labels ≡ some value
  pub mapped : s.ports ≡ record { port = r.port; target_port = port; protocol = "TCP" } ∷ []
  pub exposed : exposes d port ≡ true
  pub routed : route r.path ≡ Route.admission
  pub probed : probes d port ≡ true

abbrev pub reference : String → ServiceReference
reference ns = record { namespace = ns; name = server_service_name; path = serve_path; port = 443 }

-- the deployment of the server's group of objects
server_deployment : Builder → FactoryArgs → Deployment
server_deployment b args =
    create_server_deployment b args.maroonedpods_server_image args.pull_policy
      args.image_pull_secrets args.priority_class_name args.verbosity args.infra_node_placement

with_priority-template_labels :
    (priority : String) (d : Deployment)
    → (with_priority priority d).template_labels ≡ d.template_labels
with_priority-template_labels priority d = ground arith

spread-containers :
    (infra : Option String) (name : String) (spec : PodSpec)
    → (spread infra name spec).containers ≡ spec.containers
spread-containers none name spec = refl
spread-containers (some infra) name spec = refl

server_deployment_label :
    (b : Builder) (args : FactoryArgs)
    → IsBuilder b
    → find maroonedpods_label (server_deployment b args).template_labels ≡ some server_resource_name
unfolding server_deployment create_server_deployment create_deployment
server_deployment_label b args laws =
    ap (find maroonedpods_label) (
      with_priority-template_labels args.priority_class_name (
        create_deployment b server_resource_name maroonedpods_label server_resource_name
          server_resource_name args.image_pull_secrets 2 args.infra_node_placement))
    ∙ unfold create_deployment in
      laws.deployment_label server_resource_name "" maroonedpods_label server_resource_name
        server_resource_name 2 _ args.infra_node_placement

server_deployment_port :
    (b : Builder) (args : FactoryArgs)
    → (exposes (server_deployment b args) default_port ≡ true)
      × (probes (server_deployment b args) default_port ≡ true)
unfolding server_deployment create_server_deployment create_container any route
server_deployment_port b args = (
  rw (spread-containers args.infra_node_placement) refl,
  rw (spread-containers args.infra_node_placement) refl,
)

-- the service and the deployment as the group's objects hold them
placed_service : Builder → FactoryArgs → Service
placed_service b args =
    let s = create_server_service b in
    record s { namespace = or_namespace args.namespace s.namespace }

placed_deployment : Builder → FactoryArgs → Deployment
unfolding server_deployment
placed_deployment b args =
    let d = server_deployment b args in
    record d { namespace = or_namespace args.namespace d.namespace }

reference-Reaches :
    (b : Builder) (args : FactoryArgs)
    → IsBuilder b
    → Reaches
        (reference args.namespace)
        default_port
        (placed_service b args)
        (placed_deployment b args)
unfolding placed_service placed_deployment create_server_service route
reference-Reaches b args laws =
    let (exposed, probed) = server_deployment_port b args in
    record {
      same_name = laws.service_name "maroonedpods-server" maroonedpods_label server_resource_name;
      same_namespace =
          rw (laws.service_namespace "maroonedpods-server" maroonedpods_label server_resource_name)
            refl;
      label = maroonedpods_label;
      value = server_resource_name;
      selector =
          laws.service_selector "maroonedpods-server" maroonedpods_label server_resource_name;
      selected = server_deployment_label b args laws;
      mapped = refl;
      exposed = exposed;
      routed = refl;
      probed = probed;
    }

-- Whatever webhook is registered in whatever state of the cluster, the service that it names is among the objects of the server, and
-- so is a deployment whose pods the service selects, if the builder sets names, labels and selectors;
-- the service's port leads to the port at which the server listens, where the webhook's path is that
-- of the admission handler, and the readiness probe asks for the health route.
pub webhook-Reaches :
    (b : Builder) (args : FactoryArgs) (c : Cluster) (h : Webhook)
    → IsBuilder b
    → In h (registered_hooks c args.namespace)
    → (objects : List Object) × (s : Service) × (d : Deployment) × (create_resource_group b
          server_group args
        ≡ ok objects)
      × In (service s) objects
      × In (deployment d) objects
      × Reaches h.service default_port s d
unfolding create_resource_group server_resources placed_service placed_deployment
webhook-Reaches b args c h laws i = (
  _,
  placed_service b args,
  placed_deployment b args,
  refl,
  later (later (later first)),
  later (later (later (later first))),
  rw (registered_hooks-service c args.namespace h i) (reference-Reaches b args laws),
)

member_third : (a b c : String) → member c (a ∷ b ∷ c ∷ []) ≡ true
unfolding member any
member_third a b c = ground (arith, eq_refl c)

-- The one certificate that the operator makes for a secret of its namespace is for the host name, among
-- others, by which the API server calls the service of every webhook that is registered, in whatever
-- state of the cluster.
pub webhook_certified :
    (ns : String) (mp : Option MaroonedPods) (c : Cluster) (h : Webhook) (secret : Secret)
    → In h (registered_hooks c ns)
    → secret.namespace ≡ ns
    → (d : CertificateDefinition) × (names : List String) × (get_certificate_definitions ns mp
        ≡ d ∷ [])
      × (target_creator d secret ≡ some (serving names))
      × (member (concat (h.service.name ∷ "." ∷ h.service.namespace ∷ ".svc" ∷ [])) names ≡ true)
unfolding get_certificate_definitions create_certificate_definitions default_definitions complete
    target_creator
webhook_certified ns mp c h secret i same =
    let called = registered_hooks-service c ns h i in
    (_, _, refl, refl, rw (called, same) (member_third _ _ _))
