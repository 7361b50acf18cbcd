-- ===== src/Resources/Operator.antt =====
-- resources/operator/operator.go and factory.go: the objects that install the operator.
use maroonedpods.Prelude.{
  String, ◌==◌, Option, none, some, List, [], ◌∷◌, ◌++◌, Result, ok, err, failure, concat,
  if◌then◌else◌,
}
use maroonedpods.Rbac.Operator.{operator_cluster_rules, operator_role_rules}
use maroonedpods.Resources.{
  EnvVar, text, ContainerPort, Container, SecurityContext, Deployment, Role, RoleBinding, Builder,
  Object, custom_resource_definition, service_account, role, cluster_role, role_binding,
  cluster_role_binding, deployment,
}
use maroonedpods.Resources.Util.{
  operator_service_account_name, create_container, create_operator_deployment,
}
use maroonedpods.Resources.Namespaced.{FactoryArgs}

abbrev pub role_name : String
role_name = "maroonedpods-operator"

abbrev pub cluster_role_name : String
cluster_role_name = "maroonedpods-operator-cluster"

-- `FactoryArgs` of this package
pub record OperatorArgs : Type 0 where
  pub namespaced_args : FactoryArgs
  pub image : String

abbrev env_text : String → String → EnvVar
env_text name value = record { name = name; value = text value }

unfoldable pub create_operator_env_var :
    String → String → String → String → String → String → List EnvVar
create_operator_env_var version deploy_cluster_resources controller_image server_image verbosity
      pull_policy =
    env_text "DEPLOY_CLUSTER_RESOURCES" deploy_cluster_resources
    ∷ env_text "OPERATOR_VERSION" version
    ∷ env_text "CONTROLLER_IMAGE" controller_image
    ∷ env_text "MAROONEDPODS_SERVER_IMAGE" server_image
    ∷ env_text "VERBOSITY" verbosity
    ∷ env_text "PULL_POLICY" pull_policy
    ∷ env_text "MONITORING_NAMESPACE" ""
    ∷ []

abbrev pub prometheus_ports : List ContainerPort
prometheus_ports = record { name = "metrics"; container_port = 8080; protocol = "TCP" } ∷ []

abbrev drop_all : Option SecurityContext → Option SecurityContext
drop_all none = none
drop_all (some c) = some (record c { drop_capabilities = "ALL" ∷ [] })

module _ (b : Builder) where
  unfoldable pub create_cluster_role : Role
  create_cluster_role = b.create_operator_cluster_role cluster_role_name operator_cluster_rules

  unfoldable pub create_cluster_role_binding : String → RoleBinding
  create_cluster_role_binding namespace =
      b.create_operator_cluster_role_binding operator_service_account_name cluster_role_name
        operator_service_account_name namespace

  unfoldable pub create_cluster_rbac : OperatorArgs → List Object
  unfolding create_cluster_role create_cluster_role_binding
  create_cluster_rbac args =
      cluster_role create_cluster_role
      ∷ cluster_role_binding (create_cluster_role_binding args.namespaced_args.namespace)
      ∷ []

  unfoldable pub create_namespaced_role : String → Role
  create_namespaced_role namespace = record (b.create_role role_name operator_role_rules) {
    namespace = namespace;
  }

  unfoldable pub create_namespaced_role_binding : String → RoleBinding
  create_namespaced_role_binding namespace =
      record (b.create_role_binding operator_service_account_name role_name
        operator_service_account_name namespace) { namespace = namespace }

  unfoldable pub create_namespaced_rbac : OperatorArgs → List Object
  unfolding create_namespaced_role create_namespaced_role_binding
  create_namespaced_rbac args =
      let namespace = args.namespaced_args.namespace in
      service_account (b.create_operator_service_account operator_service_account_name namespace)
      ∷ role (create_namespaced_role namespace)
      ∷ role_binding (create_namespaced_role_binding namespace)
      ∷ []

  operator_container : FactoryArgs → String → Container
  unfolding create_container create_operator_env_var
  operator_container args image =
      let c = create_container b "maroonedpods-operator" image args.verbosity args.pull_policy in
      record c {
        ports = prometheus_ports;
        security_context = drop_all c.security_context;
        requests = ("cpu", "10m") ∷ ("memory", "150Mi") ∷ [];
        env =
            create_operator_env_var args.operator_version args.deploy_cluster_resources
              args.controller_image args.maroonedpods_server_image args.verbosity args.pull_policy;
      }

  -- `createOperatorDeployment`; the arguments that it takes one by one are fields here
  unfoldable pub operator_deployment : FactoryArgs → String → Deployment
  unfolding operator_container create_operator_deployment
  operator_deployment args image =
      let d =
        create_operator_deployment b "maroonedpods-operator" args.namespace "name"
          "maroonedpods-operator" operator_service_account_name args.image_pull_secrets 1 in
      record d {
        template_spec = record (d.template_spec) {
          containers = operator_container args image ∷ [];
        };
      }

  unfoldable pub create_deployment : OperatorArgs → List Object
  create_deployment args = deployment (operator_deployment args.namespaced_args args.image) ∷ []

  -- the definition is decoded from a text that the build generates
  unfoldable pub create_crd : OperatorArgs → List Object
  create_crd args = custom_resource_definition "maroonedpods" ∷ []

  unfoldable pub aggregate_factory_func :
      List (OperatorArgs → List Object) → OperatorArgs → List Object
  aggregate_factory_func [] args = []
  aggregate_factory_func (f ∷ fs) args = f args ++ aggregate_factory_func fs args

  unfoldable pub operator_factory_function : String → Option (OperatorArgs → List Object)
  unfolding aggregate_factory_func
  operator_factory_function group =
      if group == "operator-cluster-rbac"
      then some create_cluster_rbac
      else if group == "operator-rbac"
      then some create_namespaced_rbac
      else if group == "operator-deployment"
      then some create_deployment
      else if group == "operator-crd"
      then some create_crd
      else if group == "everything"
      then some (
          aggregate_factory_func
            (create_crd ∷ create_cluster_rbac ∷ create_namespaced_rbac ∷ create_deployment ∷ []))
      else none

  unfoldable pub create_operator_resource_group : String → OperatorArgs → Result (List Object)
  unfolding operator_factory_function
  create_operator_resource_group group args = elim (operator_factory_function group) [
    | none ↦ err (failure (concat ("group " ∷ group ∷ " does not exist" ∷ [])))
    | some f ↦ ok (f args)
  ]
