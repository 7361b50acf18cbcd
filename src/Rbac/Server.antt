-- ===== src/Rbac/Server.antt =====
-- What maroonedpods-server may do: resources/cluster/maroonedpodsserver.go and
-- resources/namespaced/maroonedpodsserver.go of pkg/maroonedpods-operator.
use maroonedpods.Prelude.{List, [], ◌∷◌}
use maroonedpods.Rbac.Rule.{PolicyRule, rule}

unfoldable pub server_cluster_rules : List PolicyRule
server_cluster_rules =
    rule ("kubevirt.io" ∷ []) ("kubevirts" ∷ []) ("list" ∷ "watch" ∷ [])
    ∷ rule ("" ∷ []) ("resourcequotas" ∷ []) ("list" ∷ "watch" ∷ "update" ∷ "create" ∷ [])
    ∷ []

unfoldable pub server_role_rules : List PolicyRule
server_role_rules = rule ("" ∷ []) ("secrets" ∷ []) ("get" ∷ "list" ∷ "watch" ∷ []) ∷ []
