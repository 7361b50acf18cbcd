-- ===== src/Resources/Tests.antt =====
-- A builder that keeps what it is given, and the objects that it makes.
use maroonedpods.Prelude.{
  ℕ, String, ◌≡◌, refl, none, some, List, [], ◌∷◌, Result, ok, true, false, find, concat, eq_refl,
  In, first,
}
use maroonedpods.Rbac.Rule.{PolicyRule, member}
use maroonedpods.Cr.{
  MaroonedPods, Cluster, get_active_maroonedpods, active_resources, get_deployment,
}
use maroonedpods.Rotation.{CertificateDefinition, get_certificate_definitions}
use maroonedpods.Rotation.Sync.{Secret, target_creator, serving}
use maroonedpods.Webhooks.{
  Webhook, webhook, dynamic_resources, create_gating_mutating_webhook,
  create_gating_validating_webhook, active_or_nil, include_hooks, api_server_ca_bundle,
}
use maroonedpods.Webhooks.Service.{hooks_in, registered_hooks}
use maroonedpods.Resources.{
  Builder, IsBuilder, Container, PodSpec, Deployment, Service, ServiceAccount, Role, RoleBinding,
  Object, service, deployment,
}
use maroonedpods.Resources.Util.{default_port}
use maroonedpods.Resources.Namespaced.{
  FactoryArgs, create_resource_group, server_group, controller_group,
}
use maroonedpods.Resources.Accounts.{RunsAs, create_resource_group-RunsAs}
use maroonedpods.Resources.Csv.{
  ClusterServiceVersionData, ClusterServiceVersion, CsvStrategySpec, csv_of,
  create_cluster_service_version,
}
use maroonedpods.Resources.Reachable.{Reaches, webhook-Reaches, webhook_certified}

abbrev account_of : String → String → ServiceAccount
account_of name namespace = record { name = name; namespace = namespace }

abbrev role_of : String → List PolicyRule → Role
role_of name rules = record { name = name; namespace = ""; rules = rules }

abbrev binding_of : String → String → String → String → RoleBinding
binding_of name role_ref account namespace = record {
  name = name;
  namespace = "";
  role_ref = role_ref;
  service_account = account;
  service_account_namespace = namespace;
}

abbrev container_of : String → String → String → Container
container_of name image pull_policy = record {
  name = name;
  image = image;
  image_pull_policy = pull_policy;
  termination_message_policy = "";
  termination_message_path = "";
  args = [];
  security_context = none;
  ports = [];
  env = [];
  readiness_probe = none;
  requests = [];
  volume_mounts = [];
}

abbrev deployment_of : String → String → String → String → String → ℕ → PodSpec → Deployment
deployment_of name namespace k v account replicas spec = record {
  name = name;
  namespace = namespace;
  labels = (k, v) ∷ [];
  replicas = replicas;
  selector = (k, v) ∷ [];
  template_labels = (k, v) ∷ [];
  template_spec = record spec { service_account_name = account };
  strategy = none;
}

abbrev pub builder : Builder
builder = record {
  create_container = container_of;
  create_deployment =
      λ name ns k v account replicas spec infra. deployment_of name ns k v account replicas spec;
  create_operator_deployment = deployment_of;
  create_service = λ name k v. record {
    name = name;
    namespace = "";
    selector = (k, v) ∷ [];
    service_type = "";
    ports = [];
  };
  create_service_account = λ name. account_of name "";
  create_operator_service_account = account_of;
  create_role = role_of;
  create_cluster_role = role_of;
  create_operator_cluster_role = role_of;
  create_role_binding = binding_of;
  create_cluster_role_binding = binding_of;
  create_operator_cluster_role_binding = binding_of;
}

find_own : (k v : String) → find k ((k, v) ∷ []) ≡ some v
unfolding find
find_own k v = rw (eq_refl k) refl

pub builder-IsBuilder : IsBuilder builder
builder-IsBuilder = record {
  service_selector = λ n k v. refl;
  service_namespace = λ n k v. refl;
  service_name = λ n k v. refl;
  deployment_label = λ n ns k v sa r spec infra. find_own k v;
  deployment_namespace = λ n ns k v sa r spec infra. refl;
  deployment_account = λ n ns k v sa r spec infra. refl;
  service_account_name = λ n. refl;
  service_account_namespace = λ n. refl;
  role_rules = λ n rules. refl;
  cluster_role_rules = λ n rules. refl;
  operator_cluster_role_rules = λ n rules. refl;
}

abbrev pub args : FactoryArgs
args = record {
  operator_version = "v1";
  controller_image = "controller:v1";
  deploy_cluster_resources = "true";
  maroonedpods_server_image = "server:v1";
  verbosity = "2";
  pull_policy = "IfNotPresent";
  image_pull_secrets = "pull" ∷ [];
  priority_class_name = "critical";
  namespace = "ns";
  infra_node_placement = none;
}

abbrev pub cr : MaroonedPods
cr = record {
  name = "m";
  uid = "u";
  being_deleted = false;
  image_pull_policy = "Always";
  priority_class = some "mine";
  infra = "";
  phase = "Deployed";
  namespace_selector = some "gated=yes";
  cert_config = none;
}

abbrev cluster : Cluster
cluster = record {
  list_maroonedpods = ok (cr ∷ []);
  get_maroonedpods = λ name. ok cr;
  get_deployment_of = λ name ns. ok (record { ready_replicas = 1 });
  has_priority_class = λ name. true;
  get_config_map_data = λ ns name. ok (("ca-bundle.crt", "PEM") ∷ []);
}

abbrev hook : Webhook
hook =
    webhook "gater.maroonedpods.io" (some "gated=yes") ("CREATE" ∷ []) ("pods" ∷ []) "ns"
      (some "PEM")

hook-In : In hook (registered_hooks cluster "ns")
unfolding hooks_in dynamic_resources create_gating_mutating_webhook create_gating_validating_webhook
    active_or_nil get_active_maroonedpods active_resources include_hooks get_deployment
    api_server_ca_bundle find
hook-In = first

webhook-Reaches_example :
    (objects : List Object) × (s : Service) × (d : Deployment) × (create_resource_group builder
        server_group args
      ≡ ok objects)
    × In (service s) objects
    × In (deployment d) objects
    × Reaches hook.service default_port s d
webhook-Reaches_example = webhook-Reaches builder args cluster hook builder-IsBuilder hook-In

abbrev target : Secret
target = record { name = "maroonedpods-server-cert"; namespace = "ns"; annotations = none }

webhook_certified_example :
    (d : CertificateDefinition) × (names : List String) × (get_certificate_definitions "ns"
        (some cr)
      ≡ d ∷ [])
    × (target_creator d target ≡ some (serving names))
    × (member (concat (hook.service.name ∷ "." ∷ hook.service.namespace ∷ ".svc" ∷ [])) names
        ≡ true)
webhook_certified_example = webhook_certified "ns" (some cr) cluster hook target hook-In refl

abbrev data_ : ClusterServiceVersionData
data_ = record {
  csv_version = "0.1.0";
  replaces_csv_version = "";
  namespace = "ns";
  image_pull_policy = "Always";
  image_pull_secrets = [];
  icon_base64 = "";
  verbosity = "1";
  operator_version = "v1";
  controller_image = "controller:v1";
  webhook_server_image = "server:v1";
  operator_image = "operator:v1";
}

abbrev marshal : CsvStrategySpec → Result String
marshal s = ok "strategy"

abbrev csv : ClusterServiceVersion
csv = csv_of builder marshal some "[]" data_ "0.1.0" "strategy"

created_csv : create_cluster_service_version builder marshal some "[]" data_ ≡ some (ok csv)
unfolding create_cluster_service_version
created_csv = refl

create_resource_group-RunsAs_example :
    (controller : List Object) × (server : List Object) × (create_resource_group builder
        controller_group args
      ≡ ok controller)
    × (create_resource_group builder server_group args ≡ ok server)
    × RunsAs controller args.namespace true
    × RunsAs server args.namespace false
create_resource_group-RunsAs_example = create_resource_group-RunsAs builder args builder-IsBuilder
