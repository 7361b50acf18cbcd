-- ===== src/Build/Printed.antt =====
-- What the two generators print for the same flags.
use maroonedpods.Prelude.{
  String, ◌≡◌, refl, ap, ◌∙◌, true, List, [], ◌∷◌, map, Option, Result, ok, some,
}
use maroonedpods.Resources.{Builder, IsBuilder, Object}
use maroonedpods.Resources.Operator.{create_operator_resource_group}
use maroonedpods.Resources.Csv.{
  ClusterServiceVersion, CsvStrategySpec, create_cluster_service_version, args_of,
}
use maroonedpods.Resources.Install.{
  IsBinder, InstallsAlike, operator_args, create_cluster_service_version-InstallsAlike,
}
use maroonedpods.Build.Manifests.{
  Flags, operator_args_of, csv_data_of, get_operator_resources, print_objects, generate_from_code,
}

print_objects_all :
    (b : Builder) (text : Object → String) (os : List Object)
    → print_objects b (λ o. ok (text o)) os ≡ record { written = map text os; completed = true }
unfolding print_objects
print_objects_all b text [] = refl
print_objects_all b text (o ∷ os) = rw (print_objects_all b text os) refl

same_args :
    (f : Flags)
    → f.deploy_cluster_resources ≡ "true"
    → operator_args_of f ≡ operator_args (csv_data_of f)
unfolding operator_args_of csv_data_of args_of
same_args f deploys = rw deploys refl

printed :
    (b : Builder) (text : Object → String) (f : Flags) (os : List Object)
    → create_operator_resource_group b "everything" (operator_args_of f) ≡ ok os
    → generate_from_code b (λ o. ok (text o)) f "operator" "everything"
      ≡ record { written = map text os; completed = true }
unfolding generate_from_code get_operator_resources
printed b text f os made = rw (made, generate_from_code) (print_objects_all b text os)

-- If the flag for the cluster's resources is "true", as the other generator takes it to be, every object
-- can be printed, and the builder gives objects the rules, names and accounts that they are created with:
-- the manifests of everything that the one generator prints, in order, are objects that install the same as
-- the strategy in the cluster service version that the other creates for the same flags, but for the
-- priority class of the operator's pods: the rules of two roles that are bound to the operator's account,
-- and the deployment that runs under it.
pub generate_from_code-InstallsAlike :
    (b : Builder) (text : Object → String) (marshal : CsvStrategySpec → Result String)
    (new_semver : String → Option String) (alm_examples : String) (f : Flags)
    (csv : ClusterServiceVersion)
    → IsBuilder b
    → IsBinder b
    → f.deploy_cluster_resources ≡ "true"
    → create_cluster_service_version b marshal new_semver alm_examples (csv_data_of f)
      ≡ some (ok csv)
    → (s : CsvStrategySpec) × (os : List Object) × (marshal s ≡ ok csv.strategy_spec_raw)
      × InstallsAlike b (csv_data_of f) s
      × (create_operator_resource_group b "everything" (operator_args (csv_data_of f)) ≡ ok os)
      × (generate_from_code b (λ o. ok (text o)) f "operator" "everything"
          ≡ record { written = map text os; completed = true })
generate_from_code-InstallsAlike b text marshal new_semver alm_examples f csv laws binder deploys
      created =
    let (s, carried, alike) =
      create_cluster_service_version-InstallsAlike b marshal new_semver alm_examples (csv_data_of f)
        csv laws binder created in
    let made =
      ap (create_operator_resource_group b "everything") (same_args f deploys) ∙ alike.manifests in
    (s, _, carried, alike, alike.manifests, printed b text f _ made)
