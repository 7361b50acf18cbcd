-- ===== src/Resources.antt =====
-- The objects that the operator applies to the cluster, and those that install the operator: the
-- factories of pkg/maroonedpods-operator/resources. The objects are Kubernetes types, of which the
-- fields that the code sets are here; a field that is left at its zero value is left out, or "" or 0.
pub mod Util
pub mod Server
pub mod Controller
pub mod Namespaced
pub mod Operator
pub mod Csv
pub mod Reachable
pub mod Accounts
pub mod Install
pub mod Order
pub mod Cluster
pub mod Tests
use maroonedpods.Prelude.{ℕ, String, Bool, Option, List, Map, ◌≡◌, some, ◌∷◌, [], find}
use maroonedpods.Rbac.Rule.{PolicyRule}

-- a text, or the value of a field of the pod
pub data EnvValue : Type 0 where
  text : String → EnvValue
  field_path : String → EnvValue

pub record EnvVar : Type 0 where
  pub name : String
  pub value : EnvValue

pub record ContainerPort : Type 0 where
  pub name : String
  pub container_port : ℕ
  pub protocol : String

-- an HTTP GET
pub record Probe : Type 0 where
  pub scheme : String
  pub path : String
  pub port : ℕ
  pub initial_delay_seconds : ℕ
  pub period_seconds : ℕ
  pub failure_threshold : ℕ
  pub success_threshold : ℕ
  pub timeout_seconds : ℕ

pub record SecurityContext : Type 0 where
  pub seccomp_profile : String
  pub allow_privilege_escalation : Bool
  pub run_as_non_root : Bool
  pub drop_capabilities : List String

pub record VolumeMount : Type 0 where
  pub name : String
  pub mount_path : String
  pub read_only : Bool

-- a volume from a secret, with its keys and their paths
pub record Volume : Type 0 where
  pub name : String
  pub secret_name : String
  pub items : Map
  pub default_mode : ℕ

pub record Container : Type 0 where
  pub name : String
  pub image : String
  pub image_pull_policy : String
  pub termination_message_policy : String
  pub termination_message_path : String
  pub args : List String
  pub security_context : Option SecurityContext
  pub ports : List ContainerPort
  pub env : List EnvVar
  pub readiness_probe : Option Probe
  pub requests : Map
  pub volume_mounts : List VolumeMount

-- a preferred anti-affinity to pods with the labels
pub record AntiAffinity : Type 0 where
  pub match_labels : Map
  pub topology_key : String
  pub weight : ℕ

pub record PodSpec : Type 0 where
  pub run_as_non_root : Bool
  pub image_pull_secrets : List String
  pub node_selector : Map
  pub tolerations : List (String × String)
  pub service_account_name : String
  pub priority_class_name : String
  pub containers : List Container
  pub volumes : List Volume
  pub anti_affinity : Option AntiAffinity

-- `strategy` is the type and the number that may be unavailable
pub record Deployment : Type 0 where
  pub name : String
  pub namespace : String
  pub labels : Map
  pub replicas : ℕ
  pub selector : Map
  pub template_labels : Map
  pub template_spec : PodSpec
  pub strategy : Option (String × ℕ)

pub record ServicePort : Type 0 where
  pub port : ℕ
  pub target_port : ℕ
  pub protocol : String

pub record Service : Type 0 where
  pub name : String
  pub namespace : String
  pub selector : Map
  pub service_type : String
  pub ports : List ServicePort

pub record ServiceAccount : Type 0 where
  pub name : String
  pub namespace : String

-- a `Role`, or a `ClusterRole`, which has no namespace
pub record Role : Type 0 where
  pub name : String
  pub namespace : String
  pub rules : List PolicyRule

pub record RoleBinding : Type 0 where
  pub name : String
  pub namespace : String
  pub role_ref : String
  pub service_account : String
  pub service_account_namespace : String

pub data Object : Type 0 where
  custom_resource_definition : String → Object
  service_account : ServiceAccount → Object
  role cluster_role : Role → Object
  role_binding cluster_role_binding : RoleBinding → Object
  service : Service → Object
  deployment : Deployment → Object

-- `ResourceBuilder` of the lifecycle SDK, with the labels of pkg/util/util.go; the last argument of
-- `create_deployment` is the placement on nodes.
pub record Builder : Type 0 where
  pub create_container : String → String → String → Container
  pub create_deployment :
      String → String → String → String → String → ℕ → PodSpec → Option String → Deployment
  pub create_operator_deployment :
      String → String → String → String → String → ℕ → PodSpec → Deployment
  pub create_service : String → String → String → Service
  pub create_service_account : String → ServiceAccount
  pub create_operator_service_account : String → String → ServiceAccount
  pub create_role : String → List PolicyRule → Role
  pub create_cluster_role : String → List PolicyRule → Role
  pub create_operator_cluster_role : String → List PolicyRule → Role
  pub create_role_binding : String → String → String → String → RoleBinding
  pub create_cluster_role_binding : String → String → String → String → RoleBinding
  pub create_operator_cluster_role_binding : String → String → String → String → RoleBinding

-- What the documentation of the builder says: an object has the name, the rules and the parts that it
-- is created with, a deployment runs under its account, a service selects by the one label, and a deployment's pods have it.
pub record IsBuilder (b : Builder) : Type 0 where
  pub service_selector : (n k v : String) → (b.create_service n k v).selector ≡ (k, v) ∷ []
  pub service_namespace : (n k v : String) → (b.create_service n k v).namespace ≡ ""
  pub service_name : (n k v : String) → (b.create_service n k v).name ≡ n
  pub deployment_label :
      (n ns k v sa : String) (r : ℕ) (spec : PodSpec) (infra : Option String)
      → find k (b.create_deployment n ns k v sa r spec infra).template_labels ≡ some v
  pub deployment_namespace :
      (n ns k v sa : String) (r : ℕ) (spec : PodSpec) (infra : Option String)
      → (b.create_deployment n ns k v sa r spec infra).namespace ≡ ns
  pub deployment_account :
      (n ns k v sa : String) (r : ℕ) (spec : PodSpec) (infra : Option String)
      → (b.create_deployment n ns k v sa r spec infra).template_spec.service_account_name ≡ sa
  pub service_account_name : (n : String) → (b.create_service_account n).name ≡ n
  pub service_account_namespace : (n : String) → (b.create_service_account n).namespace ≡ ""
  pub role_rules : (n : String) (rules : List PolicyRule) → (b.create_role n rules).rules ≡ rules
  pub cluster_role_rules :
      (n : String) (rules : List PolicyRule) → (b.create_cluster_role n rules).rules ≡ rules
  pub operator_cluster_role_rules :
      (n : String) (rules : List PolicyRule)
      → (b.create_operator_cluster_role n rules).rules ≡ rules
