-- ===== src/Resources/Install.antt =====
-- The two ways to install the operator: the manifests, and the cluster service version.
use maroonedpods.Prelude.{
  ℕ, String, ◌≡◌, refl, sym, ◌∙◌, List, Option, some, [], ◌∷◌, Result, ok, arith, Result-cases,
  Option-cases, inl, inr,
}
use maroonedpods.Rbac.Operator.{operator_cluster_rules, operator_role_rules}
use maroonedpods.Resources.{
  Builder, IsBuilder, Deployment, PodSpec, Role, RoleBinding, ServiceAccount,
  custom_resource_definition, service_account, role, cluster_role, role_binding,
  cluster_role_binding, deployment,
}
use maroonedpods.Resources.Util.{operator_service_account_name, create_operator_deployment}
use maroonedpods.Rbac.Rule.{PolicyRule}
use maroonedpods.Resources.Operator.{
  OperatorArgs, create_operator_resource_group, operator_factory_function, aggregate_factory_func,
  create_crd, create_cluster_rbac, create_namespaced_rbac, create_deployment, create_cluster_role,
  create_namespaced_role, create_cluster_role_binding, create_namespaced_role_binding,
  operator_deployment, cluster_role_name, role_name,
}
use maroonedpods.Resources.Csv.{
  ClusterServiceVersionData, ClusterServiceVersion, CsvStrategySpec, args_of, in_critical_class,
  strategy_spec, create_cluster_service_version,
}

abbrev pub operator_args : ClusterServiceVersionData → OperatorArgs
operator_args data_ = record { namespaced_args = args_of data_; image = data_.operator_image }

-- What the documentation of the builder says of the objects that bind: they have the names and the account
-- that they are created with, and the operator's deployment runs under its account.
pub record IsBinder (b : Builder) : Type 0 where
  pub role_name_of : (n : String) (rules : List PolicyRule) → (b.create_role n rules).name ≡ n
  pub cluster_role_name_of :
      (n : String) (rules : List PolicyRule) → (b.create_operator_cluster_role n rules).name ≡ n
  pub account_of :
      (n ns : String) → b.create_operator_service_account n ns ≡ record { name = n; namespace = ns }
  pub binding_of :
      (n r sa ns : String)
      → ((b.create_role_binding n r sa ns).role_ref ≡ r)
        × ((b.create_role_binding n r sa ns).service_account ≡ sa)
        × ((b.create_role_binding n r sa ns).service_account_namespace ≡ ns)
  pub cluster_binding_of :
      (n r sa ns : String)
      → ((b.create_operator_cluster_role_binding n r sa ns).role_ref ≡ r)
        × ((b.create_operator_cluster_role_binding n r sa ns).service_account ≡ sa)
        × ((b.create_operator_cluster_role_binding n r sa ns).service_account_namespace ≡ ns)
  pub deployment_account_of :
      (n ns k v sa : String) (replicas : ℕ) (spec : PodSpec)
      → (b.create_operator_deployment n ns k v sa replicas spec).template_spec.service_account_name
        ≡ sa

-- the binding gives the role to the account
pub record Binds (rb : RoleBinding) (r : Role) (a : ServiceAccount) : Type 0 where
  pub refers : rb.role_ref ≡ r.name
  pub subject : rb.service_account ≡ a.name
  pub placed : rb.service_account_namespace ≡ a.namespace

-- The manifests of everything, and a strategy that installs the same: the rules of the two roles, which the
-- manifests bind to the operator's account, for that account, and the deployment that runs under it, but for
-- its priority class, which is the critical one in the strategy.
pub record InstallsAlike (b : Builder) (data_ : ClusterServiceVersionData) (s : CsvStrategySpec)
    : Type 0 where
  pub cluster : Role
  pub namespaced : Role
  pub cluster_binding : RoleBinding
  pub binding : RoleBinding
  pub account : ServiceAccount
  pub operator : Deployment
  pub manifests :
      create_operator_resource_group b "everything" (operator_args data_)
      ≡ ok (
          custom_resource_definition "maroonedpods"
          ∷ cluster_role cluster
          ∷ cluster_role_binding cluster_binding
          ∷ service_account account
          ∷ role namespaced
          ∷ role_binding binding
          ∷ deployment operator
          ∷ [])
  pub own_account :
      account ≡ record { name = operator_service_account_name; namespace = data_.namespace }
  pub bound_cluster : Binds cluster_binding cluster account
  pub bound : Binds binding namespaced account
  pub in_namespace :
      (namespaced.namespace ≡ data_.namespace) × (binding.namespace ≡ data_.namespace)
  pub runs : operator.template_spec.service_account_name ≡ operator_service_account_name
  pub cluster_permissions :
      s.cluster_permissions
      ≡ record { service_account_name = operator_service_account_name; rules = cluster.rules } ∷ []
  pub permissions :
      s.permissions
      ≡ record { service_account_name = operator_service_account_name; rules = namespaced.rules }
        ∷ []
  pub deployments :
      s.deployments
      ≡ record { name = "maroonedpods-operator"; spec = in_critical_class operator } ∷ []

strategy_spec-InstallsAlike :
    (b : Builder) (data_ : ClusterServiceVersionData)
    → IsBuilder b
    → IsBinder b
    → InstallsAlike b data_ (strategy_spec b data_)
unfolding strategy_spec create_operator_resource_group create_crd create_cluster_rbac
    create_namespaced_rbac create_deployment create_cluster_role create_namespaced_role
    create_cluster_role_binding create_namespaced_role_binding operator_deployment
    create_operator_deployment
strategy_spec-InstallsAlike b data_ laws binder = record {
  cluster = create_cluster_role b;
  namespaced = create_namespaced_role b data_.namespace;
  cluster_binding = create_cluster_role_binding b data_.namespace;
  binding = create_namespaced_role_binding b data_.namespace;
  account = b.create_operator_service_account operator_service_account_name data_.namespace;
  operator = operator_deployment b (args_of data_) data_.operator_image;
  manifests = unfold operator_factory_function aggregate_factory_func args_of in refl;
  own_account = binder.account_of operator_service_account_name data_.namespace;
  bound_cluster =
      let (role_ref, sa, ns) =
        binder.cluster_binding_of operator_service_account_name cluster_role_name
          operator_service_account_name data_.namespace in
      record {
        refers =
            role_ref ∙ sym (binder.cluster_role_name_of cluster_role_name operator_cluster_rules);
        subject = rw (binder.account_of operator_service_account_name data_.namespace) sa;
        placed = rw (binder.account_of operator_service_account_name data_.namespace) ns;
      };
  bound =
      let (role_ref, sa, ns) =
        binder.binding_of operator_service_account_name role_name operator_service_account_name
          data_.namespace in
      record {
        refers = role_ref ∙ sym (binder.role_name_of role_name operator_role_rules);
        subject = rw (binder.account_of operator_service_account_name data_.namespace) sa;
        placed = rw (binder.account_of operator_service_account_name data_.namespace) ns;
      };
  in_namespace = (refl, refl);
  runs = binder.deployment_account_of _ _ _ _ operator_service_account_name _ _;
  cluster_permissions =
      rw (laws.operator_cluster_role_rules cluster_role_name operator_cluster_rules) refl;
  permissions = rw (laws.role_rules role_name operator_role_rules) refl;
  deployments = refl;
}

marshalled :
    (b : Builder) (marshal : CsvStrategySpec → Result String) (new_semver : String → Option String)
    (alm_examples : String) (data_ : ClusterServiceVersionData) (csv : ClusterServiceVersion)
    → create_cluster_service_version b marshal new_semver alm_examples data_ ≡ some (ok csv)
    → marshal (strategy_spec b data_) ≡ ok csv.strategy_spec_raw
unfolding create_cluster_service_version
marshalled b marshal new_semver alm_examples data_ csv h =
    elim (Result-cases (marshal (strategy_spec b data_))) [
      | inr (e, failed) ↦ ground arith
      | inl (raw, done) ↦ elim (Option-cases (new_semver data_.csv_version)) [
        | inl e ↦ ground arith
        | inr (version, e) ↦ ground arith
      ]
    ]

-- A cluster service version that is created carries the text of a strategy that installs what the
-- manifests of everything install, but for the priority class, if the builder gives the objects the rules,
-- names and accounts that they are created with.
pub create_cluster_service_version-InstallsAlike :
    (b : Builder) (marshal : CsvStrategySpec → Result String) (new_semver : String → Option String)
    (alm_examples : String) (data_ : ClusterServiceVersionData) (csv : ClusterServiceVersion)
    → IsBuilder b
    → IsBinder b
    → create_cluster_service_version b marshal new_semver alm_examples data_ ≡ some (ok csv)
    → (s : CsvStrategySpec) × (marshal s ≡ ok csv.strategy_spec_raw) × InstallsAlike b data_ s
create_cluster_service_version-InstallsAlike b marshal new_semver alm_examples data_ csv laws binder
      h =
    (
      strategy_spec b data_,
      marshalled b marshal new_semver alm_examples data_ csv h,
      strategy_spec-InstallsAlike b data_ laws binder,
    )
