-- ===== src/Rbac/Kinds.antt =====
-- pkg/maroonedpods-operator/cr-manager.go, `GetDependantResourcesListObjects`: the kinds of object
-- that the operator creates, watches, updates and deletes.
use maroonedpods.Prelude.{String, List, [], ◌∷◌}

pub data Kind : Type 0 where
  custom_resource_definition cluster_role_binding cluster_role deployment service : Kind
  role_binding role service_account : Kind

unfoldable pub dependant_kinds : List Kind
dependant_kinds =
    custom_resource_definition ∷ cluster_role_binding ∷ cluster_role ∷ deployment ∷ service
    ∷ role_binding ∷ role ∷ service_account ∷ []

-- the API group and the resource of a kind
abbrev pub group_of : Kind → String
group_of custom_resource_definition = "apiextensions.k8s.io"
group_of cluster_role_binding = "rbac.authorization.k8s.io"
group_of cluster_role = "rbac.authorization.k8s.io"
group_of deployment = "apps"
group_of service = ""
group_of role_binding = "rbac.authorization.k8s.io"
group_of role = "rbac.authorization.k8s.io"
group_of service_account = ""

abbrev pub resource_of : Kind → String
resource_of custom_resource_definition = "customresourcedefinitions"
resource_of cluster_role_binding = "clusterrolebindings"
resource_of cluster_role = "clusterroles"
resource_of deployment = "deployments"
resource_of service = "services"
resource_of role_binding = "rolebindings"
resource_of role = "roles"
resource_of service_account = "serviceaccounts"
