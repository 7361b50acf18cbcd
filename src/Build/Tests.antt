-- ===== src/Build/Tests.antt =====
-- One definition with a backtick, and flags for both generators.
use maroonedpods.Prelude.{
  suc, String, ◌≡◌, refl, true, false, some, List, [], ◌∷◌, map, Result, ok, all, length,
}
use maroonedpods.Build.Crds.{
  Text, codes, Tools, Crds, CustomResourceDefinition, generate_go_file, names_of, read_crds,
}
use maroonedpods.Build.GoSource.{entries_of}
use maroonedpods.Build.Readable.{described, body_of, all_plain, generate_go_file-Readable}
use maroonedpods.Build.Manifests.{Flags, csv_data_of, generate_from_code}
use maroonedpods.Build.Printed.{generate_from_code-InstallsAlike}
use maroonedpods.Resources.{Object}
use maroonedpods.Resources.Operator.{create_operator_resource_group}
use maroonedpods.Resources.Csv.{
  CsvStrategySpec, ClusterServiceVersion, csv_of, create_cluster_service_version,
}
use maroonedpods.Resources.Install.{IsBinder, InstallsAlike, operator_args}
use maroonedpods.Resources.Tests.{builder, builder-IsBuilder}

abbrev definition : CustomResourceDefinition
definition = record { singular = "maroonedpods"; spec = codes "a`b"; status = some (codes "s") }

abbrev tools : Tools
tools = record { has_yaml_suffix = λ name. true; marshal = λ crd. crd.spec; sort = λ names. names }

abbrev crds : Crds
crds = ("maroonedpods", definition) ∷ []

two_files :
    read_crds tools
      (record { name = "a.yaml"; is_dir = false; decoded = ok definition }
        ∷ record { name = "b.yaml"; is_dir = false; decoded = ok definition }
        ∷ [])
      []
    ≡ ok crds
unfolding read_crds
two_files = refl

abbrev flags : Flags
flags = record {
  docker_repo = "";
  docker_tag = "";
  operator_version = "v1";
  generated_manifests_path = "";
  deploy_cluster_resources = "true";
  operator_image = "o";
  controller_image = "c";
  maroonedpods_server_image = "s";
  verbosity = "1";
  pull_policy = "Always";
  cr_name = "";
  namespace = "ns";
  csv_version = "0.0.0";
  replaces_csv_version = "";
  maroonedpods_logo_base64 = "";
  dump_crds = false;
}

abbrev spec_text : CsvStrategySpec → Result String
spec_text s = ok "spec"

abbrev created : ClusterServiceVersion
created = csv_of builder spec_text some "[]" (csv_data_of flags) "0.0.0" "spec"

is_created :
    create_cluster_service_version builder spec_text some "[]" (csv_data_of flags)
    ≡ some (ok created)
unfolding create_cluster_service_version csv_data_of
is_created = refl

builder-IsBinder : IsBinder builder
builder-IsBinder = record {
  role_name_of = λ n rules. refl;
  cluster_role_name_of = λ n rules. refl;
  account_of = λ n ns. refl;
  binding_of = λ n r sa ns. (refl, refl, refl);
  cluster_binding_of = λ n r sa ns. (refl, refl, refl);
  deployment_account_of = λ n ns k v sa replicas spec. refl;
}

generate_from_code-InstallsAlike_example :
    (s : CsvStrategySpec) × (os : List Object) × (spec_text s ≡ ok created.strategy_spec_raw)
    × InstallsAlike builder (csv_data_of flags) s
    × (create_operator_resource_group builder "everything" (operator_args (csv_data_of flags))
        ≡ ok os)
    × (generate_from_code builder (λ o. ok "object") flags "operator" "everything"
        ≡ record { written = map (λ o. "object") os; completed = true })
generate_from_code-InstallsAlike_example =
    generate_from_code-InstallsAlike builder (λ o. "object") spec_text some "[]" flags created
      builder-IsBuilder builder-IsBinder refl is_created

names_plain : all_plain tools (names_of tools crds) ≡ true
unfolding all
names_plain = refl

generate_go_file-Readable_example :
    (file : Text) × (es : List (Text × Text)) × (generate_go_file tools crds ≡ some file)
    × (described tools crds (names_of tools crds) ≡ some es)
    × (entries_of (suc (length (names_of tools crds))) (body_of file) ≡ some es)
generate_go_file-Readable_example =
    generate_go_file-Readable tools crds (λ p names. refl) names_plain
