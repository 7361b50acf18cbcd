-- ===== src/Rbac/Operator.antt =====
-- What maroonedpods-operator may do: resources/operator/operator.go of pkg/maroonedpods-operator,
-- and `GetClusterRolePolicyRules` of resources/cluster/factory.go.
use maroonedpods.Prelude.{List, [], ◌∷◌, ◌++◌}
use maroonedpods.Rbac.Rule.{PolicyRule, rule}
use maroonedpods.Rbac.Controller.{controller_cluster_rules}
use maroonedpods.Rbac.Server.{server_cluster_rules}

-- the rules of the roles that the operator creates in the cluster
unfoldable pub cluster_role_policy_rules : List PolicyRule
cluster_role_policy_rules = controller_cluster_rules ++ server_cluster_rules

unfoldable pub operator_own_rules : List PolicyRule
operator_own_rules =
    rule ("rbac.authorization.k8s.io" ∷ []) ("clusterrolebindings" ∷ "clusterroles" ∷ [])
      ("create" ∷ "get" ∷ "list" ∷ "watch" ∷ "delete" ∷ "update" ∷ [])
    ∷ rule ("apiextensions.k8s.io" ∷ [])
        ("customresourcedefinitions" ∷ "customresourcedefinitions/status" ∷ [])
        ("create" ∷ "get" ∷ "list" ∷ "watch" ∷ "delete" ∷ "update" ∷ [])
    ∷ rule ("maroonedpods.io" ∷ []) ("mps" ∷ "mps/finalizers" ∷ [])
        ("get" ∷ "list" ∷ "watch" ∷ "delete" ∷ "update" ∷ [])
    ∷ rule ("maroonedpods.io" ∷ []) ("mps/status" ∷ []) ("get" ∷ "update" ∷ "patch" ∷ [])
    ∷ rule ("admissionregistration.k8s.io" ∷ [])
        ("mutatingwebhookconfigurations" ∷ "validatingwebhookconfigurations" ∷ [])
        ("update" ∷ "list" ∷ "watch" ∷ "create" ∷ "get" ∷ "delete" ∷ [])
    ∷ rule ("scheduling.k8s.io" ∷ []) ("priorityclasses" ∷ []) ("get" ∷ "list" ∷ "watch" ∷ [])
    ∷ []

unfoldable pub operator_cluster_rules : List PolicyRule
operator_cluster_rules = operator_own_rules ++ cluster_role_policy_rules

unfoldable pub operator_role_rules : List PolicyRule
operator_role_rules =
    rule ("" ∷ []) ("serviceaccounts" ∷ "configmaps" ∷ "events" ∷ "secrets" ∷ "services" ∷ [])
      ("create" ∷ "get" ∷ "list" ∷ "watch" ∷ "delete" ∷ "update" ∷ [])
    ∷ rule ("" ∷ []) ("pods" ∷ "services" ∷ "endpoints" ∷ [])
        ("get" ∷ "list" ∷ "watch" ∷ "create" ∷ "update" ∷ [])
    ∷ rule ("apps" ∷ []) ("deployments" ∷ "deployments/finalizers" ∷ [])
        ("create" ∷ "get" ∷ "list" ∷ "watch" ∷ "delete" ∷ "update" ∷ [])
    ∷ rule ("monitoring.coreos.com" ∷ []) ("servicemonitors" ∷ "prometheusrules" ∷ [])
        ("get" ∷ "list" ∷ "watch" ∷ "create" ∷ "delete" ∷ "update" ∷ "patch" ∷ [])
    ∷ rule ("coordination.k8s.io" ∷ []) ("leases" ∷ [])
        ("get" ∷ "list" ∷ "watch" ∷ "delete" ∷ "update" ∷ "create" ∷ "patch" ∷ [])
    ∷ rule ("rbac.authorization.k8s.io" ∷ []) ("rolebindings" ∷ "roles" ∷ [])
        ("create" ∷ "get" ∷ "list" ∷ "watch" ∷ "delete" ∷ "update" ∷ [])
    ∷ []
