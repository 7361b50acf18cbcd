-- ===== src/Resources/Cluster.antt =====
-- resources/cluster/factory.go, controller.go and maroonedpodsserver.go: the objects of the cluster. Go
-- walks the maps of the factory functions in any order, which is an argument here.
use maroonedpods.Prelude.{
  String, ◌==◌, Bool, true, false, all, Option, none, some, List, [], ◌∷◌, Result, ok, err, failure,
  concat, if◌then◌else◌,
}
use maroonedpods.Admission.{controller_resource_name}
use maroonedpods.Cr.{Cluster}
use maroonedpods.Rbac.Controller.{controller_cluster_rules}
use maroonedpods.Rbac.Server.{server_cluster_rules}
use maroonedpods.Webhooks.{server_resource_name, dynamic_resources}
use maroonedpods.Webhooks
use maroonedpods.Resources.{
  Builder, Role, RoleBinding, Object, custom_resource_definition, cluster_role,
  cluster_role_binding,
}
use maroonedpods.Resources.Order.{collect}

-- the group's objects, or the error of a missing group
unfoldable pub group_objects {ℓ} : {A : Type ℓ} → String → Option (List A) → Result (List A)
group_objects group none = err (failure (concat ("group " ∷ group ∷ " does not exist" ∷ [])))
group_objects group (some objects) = ok objects

module _ (b : Builder) where
  unfoldable pub create_controller_cluster_role : Role
  create_controller_cluster_role =
      b.create_cluster_role controller_resource_name controller_cluster_rules

  unfoldable pub create_controller_cluster_role_binding : String → RoleBinding
  create_controller_cluster_role_binding namespace =
      b.create_cluster_role_binding controller_resource_name controller_resource_name
        controller_resource_name namespace

  unfoldable pub create_api_server_cluster_role : Role
  create_api_server_cluster_role = b.create_cluster_role server_resource_name server_cluster_rules

  unfoldable pub create_api_server_cluster_role_binding : String → RoleBinding
  create_api_server_cluster_role_binding namespace =
      b.create_cluster_role_binding server_resource_name server_resource_name server_resource_name
        namespace

  unfoldable pub create_static_controller_resources : String → List Object
  unfolding create_controller_cluster_role create_controller_cluster_role_binding
  create_static_controller_resources namespace =
      cluster_role create_controller_cluster_role
      ∷ cluster_role_binding (create_controller_cluster_role_binding namespace)
      ∷ []

  unfoldable pub create_static_server_resources : String → List Object
  unfolding create_api_server_cluster_role create_api_server_cluster_role_binding
  create_static_server_resources namespace =
      cluster_role create_api_server_cluster_role
      ∷ cluster_role_binding (create_api_server_cluster_role_binding namespace)
      ∷ []

  -- the definition is decoded from a text that the build generates
  unfoldable pub create_crd_resources : List Object
  create_crd_resources = custom_resource_definition "maroonedpods" ∷ []

  -- `staticFactoryFunctions`
  unfoldable pub static_factory_function : String → String → Option (List Object)
  static_factory_function namespace group =
      if group == "maroonedpods-server-rbac"
      then some (create_static_server_resources namespace)
      else if group == "controller-rbac"
      then some (create_static_controller_resources namespace)
      else if group == "crd-resources"
      then some create_crd_resources
      else none

  -- `CreateAllStaticResources`, over the groups in the order in which the map is walked
  unfoldable pub create_all_static_resources : String → List String → Result (List Object)
  unfolding group_objects
  create_all_static_resources namespace groups =
      collect (λ group. group_objects group (static_factory_function namespace group)) groups

-- a nil pointer to a configuration has no kind to ask for
unfoldable pub has_kind : Webhooks.Object → Bool
has_kind (Webhooks.Object.validating none) = false
has_kind _ = true

module _ (c : Cluster) (namespace : String) where
  -- `dynamicFactoryFunctions`
  unfoldable pub dynamic_factory_function : String → Option (List Webhooks.Object)
  dynamic_factory_function group =
      if group == "webhooks-server-registrations"
      then some (dynamic_resources c namespace)
      else none

  -- `none` is the panic of `ValidateGVKs` on a nil object, which only a dynamic group has. The groups are the
  -- keys of the map, so that no group is missing when it comes to the check.
  unfoldable pub create_all_dynamic_resources : List String → Option (Result (List Webhooks.Object))
  unfolding group_objects
  create_all_dynamic_resources groups =
      elim (collect (λ group. group_objects group (dynamic_factory_function group)) groups) [
        | err e ↦ some (err e)
        | ok objects ↦ if all has_kind objects then some (ok objects) else none
      ]
