-- ===== src/Build/Manifests.antt =====
-- tools/manifest-generator/manifest-generator.go and tools/csv-generator/csv-generator.go. An object is
-- printed by `MarshallObject`, a copy from KubeVirt, which is a parameter; writing to the output succeeds.
use maroonedpods.Prelude.{
  String, ◌==◌, Bool, true, false, Option, none, some, List, [], ◌∷◌, Result, ok, err, Error,
  if◌then◌else◌, ◌>>=◌, Map, put, not, is_some,
}
use maroonedpods.Resources.{Builder, Object}
use maroonedpods.Resources.Namespaced.{FactoryArgs, create_resource_group}
use maroonedpods.Resources.Operator.{OperatorArgs, create_operator_resource_group}
use maroonedpods.Resources.Csv.{
  ClusterServiceVersionData, ClusterServiceVersion, create_cluster_service_version, CsvStrategySpec,
}

-- the flags of the two programs, under one name where they have it
pub record Flags : Type 0 where
  pub docker_repo : String
  pub docker_tag : String
  pub operator_version : String
  pub generated_manifests_path : String
  pub deploy_cluster_resources : String
  pub operator_image : String
  pub controller_image : String
  pub maroonedpods_server_image : String
  pub verbosity : String
  pub pull_policy : String
  pub cr_name : String
  pub namespace : String
  -- of the generator of the cluster service version
  pub csv_version : String
  pub replaces_csv_version : String
  pub maroonedpods_logo_base64 : String
  pub dump_crds : Bool

-- what is written, and whether the program goes on; it ends by `klog.Fatalf` or a panic otherwise
pub record Output : Type 0 where
  pub written : List String
  pub completed : Bool

abbrev pub refused : Output
refused = record { written = []; completed = false }

-- `getOperatorResources`' arguments
unfoldable pub operator_args_of : Flags → OperatorArgs
operator_args_of f = record {
  namespaced_args = record {
    operator_version = f.operator_version;
    controller_image = f.controller_image;
    deploy_cluster_resources = f.deploy_cluster_resources;
    maroonedpods_server_image = f.maroonedpods_server_image;
    verbosity = f.verbosity;
    pull_policy = f.pull_policy;
    image_pull_secrets = [];
    priority_class_name = "";
    namespace = f.namespace;
    infra_node_placement = none;
  };
  image = f.operator_image;
}

-- `getNamespacedResources`' arguments
unfoldable pub namespaced_args_of : Flags → FactoryArgs
namespaced_args_of f = record {
  operator_version = f.operator_version;
  controller_image = f.controller_image;
  deploy_cluster_resources = "";
  maroonedpods_server_image = f.maroonedpods_server_image;
  verbosity = f.verbosity;
  pull_policy = f.pull_policy;
  image_pull_secrets = [];
  priority_class_name = "";
  namespace = f.namespace;
  infra_node_placement = none;
}

-- the data of csv-generator's `main`
unfoldable pub csv_data_of : Flags → ClusterServiceVersionData
csv_data_of f = record {
  csv_version = f.csv_version;
  replaces_csv_version = f.replaces_csv_version;
  namespace = f.namespace;
  image_pull_policy = f.pull_policy;
  image_pull_secrets = [];
  icon_base64 = f.maroonedpods_logo_base64;
  verbosity = f.verbosity;
  operator_version = f.operator_version;
  controller_image = f.controller_image;
  webhook_server_image = f.maroonedpods_server_image;
  operator_image = f.operator_image;
}

module _ (b : Builder) where
  unfoldable pub get_operator_resources : Flags → String → Result (List Object)
  unfolding operator_args_of
  get_operator_resources f resource_group =
      create_operator_resource_group b resource_group (operator_args_of f)

  unfoldable pub get_namespaced_resources : Flags → String → Result (List Object)
  unfolding namespaced_args_of
  get_namespaced_resources f code_group = create_resource_group b code_group (namespaced_args_of f)

  -- `resourceGetterMap`
  unfoldable pub resource_getter : String → Option (Flags → String → Result (List Object))
  resource_getter resource_type =
      if resource_type == "namespaced"
      then some get_namespaced_resources
      else if resource_type == "operator"
      then some get_operator_resources
      else none

  module _ (marshall_object : Object → Result String) where
    -- the loop over the resources; what is written before an error stays written
    unfoldable pub print_objects : List Object → Output
    print_objects [] = record { written = []; completed = true }
    print_objects (o ∷ os) = elim (marshall_object o) [
      | err _ ↦ refused
      | ok text ↦ let rest = print_objects os in record rest { written = text ∷ rest.written }
    ]

    unfoldable pub generate_from_code : Flags → String → String → Output
    unfolding resource_getter print_objects
    generate_from_code f resource_type resource_group = elim (resource_getter resource_type) [
      | none ↦ refused
      | some getter ↦ elim (getter f resource_group) [
        | err _ ↦ refused
        | ok resources ↦ print_objects resources
      ]
    ]

-- an entry of the directory of generated manifests
pub record Manifest : Type 0 where
  pub name : String
  pub is_dir : Bool
  pub content : Result String

-- the fields that are set; OperatorVersion and others are never
pub record TemplateData : Type 0 where
  pub flags : Flags
  pub generated_manifests : Map

unfoldable pub generated_manifests_of : List Manifest → Map → Result Map
generated_manifests_of [] found = ok found
generated_manifests_of (m ∷ manifests) found =
    let without = generated_manifests_of manifests found in
    let with_it = λ (text : String). generated_manifests_of manifests (put m.name text found) in
    if m.is_dir then without else m.content >>= with_it

-- `generateFromFile`, where the file is opened and the directory read; `execute` is what the template
-- writes and its error
unfoldable pub generate_from_file :
    Option Error → Result (List Manifest) → (TemplateData → String × Option Error) → Flags → Output
unfolding generated_manifests_of
generate_from_file open_error directory execute f = elim open_error [
  | some _ ↦ refused
  | none ↦ elim (directory >>= λ manifests. generated_manifests_of manifests []) [
    | err _ ↦ refused
    | ok found ↦
        let (text, failed) = execute (record { flags = f; generated_manifests = found }) in
        record { written = text ∷ []; completed = not (is_some failed) }
  ]
]

-- the end of `main`: a template that is named goes first
unfoldable pub manifest_main : String → (String → Output) → Output → Output
manifest_main template from_file from_code =
    if template == "" then from_code else from_file template

-- csv-generator's `main`, with what it calls for a version, a strategy and the examples
module _ (b : Builder) (marshal : CsvStrategySpec → Result String)
    (new_semver : String → Option String) (alm_examples : String)
    (marshall_csv : ClusterServiceVersion → Result String) (marshall_crd : Result String) where
  dumped : Flags → String → Output
  dumped f csv_text =
      if f.dump_crds
      then elim marshall_crd [
        | err _ ↦ record { written = csv_text ∷ []; completed = false }
        | ok crd_text ↦ record { written = csv_text ∷ crd_text ∷ []; completed = true }
      ]
      else record { written = csv_text ∷ []; completed = true }

  unfoldable pub csv_main : Flags → Output
  unfolding dumped csv_data_of
  csv_main f =
      elim (create_cluster_service_version b marshal new_semver alm_examples (csv_data_of f)) [
        | none ↦ refused
        | some created ↦ elim (created >>= marshall_csv) [
          | err _ ↦ refused
          | ok csv_text ↦ dumped f csv_text
        ]
      ]
