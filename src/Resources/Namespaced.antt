-- ===== src/Resources/Namespaced.antt =====
-- resources/namespaced/factory.go: all objects of the operator's namespace. Go walks the map of the
-- factory functions in any order, which is an argument here.
use maroonedpods.Prelude.{
  String, ◌==◌, Option, none, some, List, [], ◌∷◌, map, Result, ok, err, failure, concat,
  if◌then◌else◌,
}
use maroonedpods.Resources.{
  Object, custom_resource_definition, service_account, role, cluster_role, role_binding,
  cluster_role_binding, service, deployment, Builder,
}
use maroonedpods.Resources.Order.{collect}
use maroonedpods.Resources.Server.{
  create_server_role, create_server_role_binding, create_server_service_account,
  create_server_service, create_server_deployment,
}
use maroonedpods.Resources.Controller.{
  create_controller_service_account, create_controller_role_binding, create_controller_role,
  create_controller_deployment,
}

pub record FactoryArgs : Type 0 where
  pub operator_version : String
  pub controller_image : String
  pub deploy_cluster_resources : String
  pub maroonedpods_server_image : String
  pub verbosity : String
  pub pull_policy : String
  pub image_pull_secrets : List String
  pub priority_class_name : String
  pub namespace : String
  pub infra_node_placement : Option String

-- `assignNamspaceIfMissing`
abbrev pub or_namespace : String → String → String
or_namespace ns own = if own == "" then ns else own

unfoldable pub assign_namespace_if_missing : String → Object → Object
assign_namespace_if_missing ns (custom_resource_definition name) = custom_resource_definition name
assign_namespace_if_missing ns (service_account o) =
    service_account (record o { namespace = or_namespace ns o.namespace })
assign_namespace_if_missing ns (role o) =
    role (record o { namespace = or_namespace ns o.namespace })
assign_namespace_if_missing ns (cluster_role o) =
    cluster_role (record o { namespace = or_namespace ns o.namespace })
assign_namespace_if_missing ns (role_binding o) =
    role_binding (record o { namespace = or_namespace ns o.namespace })
assign_namespace_if_missing ns (cluster_role_binding o) =
    cluster_role_binding (record o { namespace = or_namespace ns o.namespace })
assign_namespace_if_missing ns (service o) =
    service (record o { namespace = or_namespace ns o.namespace })
assign_namespace_if_missing ns (deployment o) =
    deployment (record o { namespace = or_namespace ns o.namespace })

abbrev pub server_group : String
server_group = "maroonedpodsServer"

abbrev pub controller_group : String
controller_group = "controller"

module _ (b : Builder) where
  unfoldable pub server_resources : FactoryArgs → List Object
  server_resources args =
      role (create_server_role b)
      ∷ role_binding (create_server_role_binding b)
      ∷ service_account (create_server_service_account b)
      ∷ service (create_server_service b)
      ∷ deployment (
          create_server_deployment b args.maroonedpods_server_image args.pull_policy
            args.image_pull_secrets args.priority_class_name args.verbosity
            args.infra_node_placement)
      ∷ []

  unfoldable pub controller_resources : FactoryArgs → List Object
  controller_resources args =
      service_account (create_controller_service_account b)
      ∷ role_binding (create_controller_role_binding b)
      ∷ role (create_controller_role b)
      ∷ deployment (
          create_controller_deployment b args.controller_image args.verbosity args.pull_policy
            args.image_pull_secrets args.priority_class_name args.infra_node_placement)
      ∷ []

  -- `factoryFunctions`
  unfoldable pub factory_function : String → Option (FactoryArgs → List Object)
  factory_function group =
      if group == server_group
      then some server_resources
      else if group == controller_group
      then some controller_resources
      else none

  unfoldable pub create_resource_group : String → FactoryArgs → Result (List Object)
  unfolding assign_namespace_if_missing factory_function
  create_resource_group group args = elim (factory_function group) [
    | none ↦ err (failure (concat ("group " ∷ group ∷ " does not exist" ∷ [])))
    | some f ↦ ok (map (assign_namespace_if_missing args.namespace) (f args))
  ]

  -- `CreateAllResources`, over the groups in the order in which the map is walked
  unfoldable pub create_all_resources : List String → FactoryArgs → Result (List Object)
  create_all_resources groups args = collect (λ group. create_resource_group group args) groups
