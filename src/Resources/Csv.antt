-- ===== src/Resources/Csv.antt =====
-- resources/operator/operator.go, `createClusterServiceVersion`: the same installation for the
-- Operator Lifecycle Manager.
use maroonedpods.Prelude.{
  String, Bool, true, Option, none, some, List, [], ◌∷◌, Map, Result, ok, err, concat,
}
use maroonedpods.Rbac.Rule.{PolicyRule}
use maroonedpods.Rbac.Operator.{operator_cluster_rules, operator_role_rules}
use maroonedpods.Resources.{Deployment, Builder}
use maroonedpods.Resources.Util.{priority_class, operator_service_account_name}
use maroonedpods.Resources.Namespaced.{FactoryArgs}
use maroonedpods.Resources.Operator.{operator_deployment}

pub record ClusterServiceVersionData : Type 0 where
  pub csv_version : String
  pub replaces_csv_version : String
  pub namespace : String
  pub image_pull_policy : String
  pub image_pull_secrets : List String
  pub icon_base64 : String
  pub verbosity : String
  pub operator_version : String
  pub controller_image : String
  pub webhook_server_image : String
  pub operator_image : String

pub record CsvPermissions : Type 0 where
  pub service_account_name : String
  pub rules : List PolicyRule

-- the name, and the specification of the deployment
pub record CsvDeployments : Type 0 where
  pub name : String
  pub spec : Deployment

pub record CsvStrategySpec : Type 0 where
  pub permissions : List CsvPermissions
  pub cluster_permissions : List CsvPermissions
  pub deployments : List CsvDeployments

pub record Descriptor : Type 0 where
  pub description : String
  pub display_name : String
  pub path : String
  pub x_descriptors : List String

-- `CRDDescription`; a resource is its kind, name and version
pub record CrdDescription : Type 0 where
  pub name : String
  pub version : String
  pub kind : String
  pub display_name : String
  pub description : String
  pub resources : List (String × String × String)
  pub spec_descriptors : List Descriptor
  pub status_descriptors : List Descriptor

pub record ClusterServiceVersion : Type 0 where
  pub name : String
  pub namespace : String
  pub annotations : Map
  pub display_name : String
  pub description : String
  pub keywords : List String
  pub version : String
  pub maturity : String
  pub replaces : String
  pub maintainers : Map
  pub provider : String
  pub links : Map
  pub icon : String × String
  pub labels : Map
  pub selector : Map
  pub install_modes : List (String × Bool)
  pub strategy_name : String
  pub strategy_spec_raw : String
  pub owned : List CrdDescription

abbrev owner_labels : Map
owner_labels =
    ("alm-owner-maroonedpods", "maroonedpods-operator")
    ∷ ("operated-by", "maroonedpods-operator")
    ∷ []

abbrev descriptor : String → String → String → String → Descriptor
descriptor description display_name path kind = record {
  description = description;
  display_name = display_name;
  path = path;
  x_descriptors = concat ("urn:alm:descriptor:" ∷ kind ∷ []) ∷ [];
}

abbrev pub owned_description : CrdDescription
owned_description = record {
  name = "maroonedpods.io";
  version = "v1alpha1";
  kind = "MaroonedPods";
  display_name = "MaroonedPods deployment";
  description = "Represents a maroonedpods deployment";
  resources = ("ConfigMap", "maroonedpods-operator-leader-election-helper", "v1") ∷ [];
  spec_descriptors =
      descriptor "The ImageRegistry to use for the MaroonedPods components." "ImageRegistry"
        "imageRegistry" "text"
      ∷ descriptor "The ImageTag to use for the MaroonedPods components." "ImageTag" "imageTag"
          "text"
      ∷ descriptor "The ImagePullPolicy to use for the MaroonedPods components." "ImagePullPolicy"
          "imagePullPolicy" "io.kubernetes:imagePullPolicy"
      ∷ [];
  status_descriptors =
      descriptor "The deployment phase." "Phase" "phase" "io.kubernetes.phase"
      ∷ descriptor "Explanation for the current status of the MAroonedPods deployment." "Conditions"
          "conditions" "io.kubernetes.conditions"
      ∷ descriptor "The observed version of the MaroonedPods deployment."
          "Observed MAroonedPods Version" "observedVersion" "text"
      ∷ descriptor "The targeted version of the MaroonedPods deployment."
          "Target MaroonedPods Version" "targetVersion" "text"
      ∷ descriptor "The version of the MaroonedPods Operator" "MaroonedPods Operator Version"
          "operatorVersion" "text"
      ∷ [];
}

-- the arguments that the data stand for
unfoldable pub args_of : ClusterServiceVersionData → FactoryArgs
args_of data_ = record {
  operator_version = data_.operator_version;
  controller_image = data_.controller_image;
  deploy_cluster_resources = "true";
  maroonedpods_server_image = data_.webhook_server_image;
  verbosity = data_.verbosity;
  pull_policy = data_.image_pull_policy;
  image_pull_secrets = data_.image_pull_secrets;
  priority_class_name = "";
  namespace = data_.namespace;
  infra_node_placement = none;
}

abbrev pub in_critical_class : Deployment → Deployment
in_critical_class d = record d {
  template_spec = record (d.template_spec) { priority_class_name = priority_class };
}

module _ (b : Builder) where
  unfoldable pub strategy_spec : ClusterServiceVersionData → CsvStrategySpec
  unfolding operator_deployment args_of
  strategy_spec data_ = record {
    permissions =
        record { service_account_name = operator_service_account_name; rules = operator_role_rules }
        ∷ [];
    cluster_permissions =
        record {
          service_account_name = operator_service_account_name;
          rules = operator_cluster_rules;
        }
        ∷ [];
    deployments =
        record {
          name = "maroonedpods-operator";
          spec = in_critical_class (operator_deployment b (args_of data_) data_.operator_image);
        }
        ∷ [];
  }

-- encoding/json on the strategy, `semver.New`, and the JSON text of the example
module _ (b : Builder) (marshal : CsvStrategySpec → Result String)
    (new_semver : String → Option String) (alm_examples : String) where
  unfoldable pub csv_of : ClusterServiceVersionData → String → String → ClusterServiceVersion
  unfolding concat
  csv_of data_ version raw = record {
    name = concat ("maroonedpodsoperator." ∷ data_.csv_version ∷ []);
    namespace = data_.namespace;
    annotations =
        ("capabilities", "Full Lifecycle")
        ∷ ("categories", "Storage,Virtualization")
        ∷ ("alm-examples", alm_examples)
        ∷ ("description", "Creates and maintains MaroonedPods deployments")
        ∷ [];
    display_name = "MaroonedPods";
    description =
        "\nMaroonedPods schedules pods on a dedicated VirtualMachines acting as nodes and provided by KubeVirt\n\n_The MAroonedPods Operator does not support updates yet._\n";
    keywords = "MaroonedPods" ∷ "Virtualization" ∷ "MultiTenancy" ∷ [];
    version = version;
    maturity = "alpha";
    replaces = data_.replaces_csv_version;
    maintainers = ("KubeVirt project", "kubevirt-dev@googlegroups.com") ∷ [];
    provider = "MaroonedPods project";
    links =
        ("MaroonedPods", "https://github.com/vladikr/maroonedPods")
        ∷ ("Source Code", "https://github.com/vladikr/maroonedPods")
        ∷ [];
    icon = (data_.icon_base64, "image/png");
    labels = owner_labels;
    selector = owner_labels;
    install_modes =
        ("OwnNamespace", true)
        ∷ ("SingleNamespace", true)
        ∷ ("MultiNamespace", true)
        ∷ ("AllNamespaces", true)
        ∷ [];
    strategy_name = "deployment";
    strategy_spec_raw = raw;
    owned = owned_description ∷ [];
  }

  -- `none` is the panic of `semver.New`
  unfoldable pub create_cluster_service_version :
      ClusterServiceVersionData → Option (Result ClusterServiceVersion)
  unfolding csv_of
  create_cluster_service_version data_ = elim (marshal (strategy_spec b data_)) [
    | err e ↦ some (err e)
    | ok raw ↦ elim (new_semver data_.csv_version) [
      | none ↦ none
      | some version ↦ some (ok (csv_of data_ version raw))
    ]
  ]
