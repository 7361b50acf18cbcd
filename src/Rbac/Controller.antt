-- ===== src/Rbac/Controller.antt =====
-- What maroonedpods-controller may do: resources/cluster/controller.go and
-- resources/namespaced/controller.go of pkg/maroonedpods-operator.
use maroonedpods.Prelude.{List, [], ◌∷◌}
use maroonedpods.Rbac.Rule.{PolicyRule, rule}

unfoldable pub controller_cluster_rules : List PolicyRule
controller_cluster_rules =
    rule ("" ∷ []) ("events" ∷ []) ("create" ∷ "patch" ∷ [])
    ∷ rule ("" ∷ []) ("nodes" ∷ []) ("get" ∷ "list" ∷ "watch" ∷ "update" ∷ "patch" ∷ [])
    ∷ rule ("" ∷ []) ("pods" ∷ []) ("update" ∷ "list" ∷ "watch" ∷ "get" ∷ "patch" ∷ [])
    ∷ rule ("" ∷ []) ("persistentvolumeclaims" ∷ []) ("list" ∷ "watch" ∷ "get" ∷ [])
    ∷ rule ("apiextensions.k8s.io" ∷ []) ("customresourcedefinitions" ∷ [])
        ("list" ∷ "watch" ∷ "get" ∷ [])
    ∷ rule ("" ∷ []) ("resourcequotas" ∷ [])
        ("list" ∷ "watch" ∷ "update" ∷ "create" ∷ "delete" ∷ [])
    ∷ rule ("maroonedpods.io" ∷ []) ("maroonedpods" ∷ [])
        ("get" ∷ "update" ∷ "watch" ∷ "list" ∷ "delete" ∷ "patch" ∷ [])
    ∷ rule ("maroonedpods.io" ∷ []) ("maroonedpods/status" ∷ []) ("update" ∷ "patch" ∷ [])
    ∷ rule ("kubevirt.io" ∷ []) ("kubevirts" ∷ []) ("list" ∷ "watch" ∷ [])
    ∷ rule ("kubevirt.io" ∷ []) ("virtualmachineinstances" ∷ [])
        ("watch" ∷ "list" ∷ "get" ∷ "create" ∷ "update" ∷ "delete" ∷ "patch" ∷ [])
    ∷ rule ("kubevirt.io" ∷ []) ("virtualmachineinstances/status" ∷ []) ("patch" ∷ [])
    ∷ rule ("admissionregistration.k8s.io" ∷ []) ("validatingwebhookconfigurations" ∷ [])
        ("create" ∷ "get" ∷ "delete" ∷ [])
    ∷ rule ("maroonedpods.io" ∷ []) ("mps" ∷ []) ("list" ∷ "watch" ∷ [])
    ∷ []

unfoldable pub controller_role_rules : List PolicyRule
controller_role_rules =
    rule ("" ∷ []) ("configmaps" ∷ []) ("get" ∷ "list" ∷ "watch" ∷ [])
    ∷ rule ("" ∷ []) ("endpoints" ∷ []) ("get" ∷ "list" ∷ "watch" ∷ "create" ∷ "update" ∷ [])
    ∷ rule ("" ∷ []) ("secrets" ∷ []) ("get" ∷ "list" ∷ "watch" ∷ [])
    ∷ rule ("coordination.k8s.io" ∷ []) ("leases" ∷ [])
        ("get" ∷ "list" ∷ "watch" ∷ "delete" ∷ "update" ∷ "create" ∷ "patch" ∷ [])
    ∷ []
