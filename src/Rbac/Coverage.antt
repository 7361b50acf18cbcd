-- ===== src/Rbac/Coverage.antt =====
-- The operator holds what it grants and what it needs, and the controller no more than its task.
use maroonedpods.Prelude.{String, ◌≡◌, refl, Bool, true, false, List, [], ◌∷◌, arith, ◌||◌, all}
use maroonedpods.Rbac.Rule.{PolicyRule, member, permits, covers, covers-permits}
use maroonedpods.Rbac.Controller.{controller_cluster_rules, controller_role_rules}
use maroonedpods.Rbac.Server.{server_cluster_rules, server_role_rules}
use maroonedpods.Rbac.Operator.{
  operator_own_rules, operator_cluster_rules, operator_role_rules, cluster_role_policy_rules,
}
use maroonedpods.Rbac.Kinds.{Kind, group_of, resource_of}

-- what the operator's two roles permit it in its own namespace
abbrev pub operator_permits : String → String → String → Bool
operator_permits group resource verb =
    permits operator_cluster_rules group resource verb
    || permits operator_role_rules group resource verb

pub controller_cluster : covers operator_cluster_rules controller_cluster_rules ≡ true
unfolding covers operator_cluster_rules operator_own_rules cluster_role_policy_rules
    controller_cluster_rules server_cluster_rules
controller_cluster = refl

pub server_cluster : covers operator_cluster_rules server_cluster_rules ≡ true
unfolding covers operator_cluster_rules operator_own_rules cluster_role_policy_rules
    controller_cluster_rules server_cluster_rules
server_cluster = refl

pub controller_role : covers operator_role_rules controller_role_rules ≡ true
unfolding covers operator_role_rules controller_role_rules
controller_role = refl

pub server_role : covers operator_role_rules server_role_rules ≡ true
unfolding covers operator_role_rules server_role_rules
server_role = refl

pub data Scope : Type 0 where
  cluster namespaced : Scope

pub data Program : Type 0 where
  controller server : Program

-- the rules of the role that the operator creates for a program
abbrev pub granted_rules : Scope → Program → List PolicyRule
granted_rules cluster controller = controller_cluster_rules
granted_rules cluster server = server_cluster_rules
granted_rules namespaced controller = controller_role_rules
granted_rules namespaced server = server_role_rules

abbrev pub own_rules : Scope → List PolicyRule
own_rules cluster = operator_cluster_rules
own_rules namespaced = operator_role_rules

-- The operator escalates no privilege: whatever a role that it creates for the controller or the
-- server permits, cluster-wide or in the namespace, the operator's own role of that scope permits.
pub no_escalation :
    (scope : Scope) (program : Program) (group resource verb : String)
    → permits (granted_rules scope program) group resource verb ≡ true
    → permits (own_rules scope) group resource verb ≡ true
no_escalation cluster controller g r v = covers-permits _ g r v _ controller_cluster
no_escalation cluster server g r v = covers-permits _ g r v _ server_cluster
no_escalation namespaced controller g r v = covers-permits _ g r v _ controller_role
no_escalation namespaced server g r v = covers-permits _ g r v _ server_role

abbrev pub managing_verbs : List String
managing_verbs = "create" ∷ "get" ∷ "list" ∷ "watch" ∷ "update" ∷ "delete" ∷ []

-- By its two roles together, in its own namespace, the operator may create, get, list, watch,
-- update and delete every kind of object that it depends on.
pub operator_manages :
    (k : Kind)
    → all (λ verb. operator_permits (group_of k) (resource_of k) verb) managing_verbs ≡ true
unfolding operator_cluster_rules operator_own_rules cluster_role_policy_rules
    controller_cluster_rules server_cluster_rules operator_role_rules permits all
operator_manages Kind.custom_resource_definition = refl
operator_manages _ = refl

-- The controller's cluster role permits on pods exactly update, list, watch, get and patch, and
-- nothing on secrets; its role in the namespace permits nothing on pods.
pub controller_least_privilege :
    (verb : String)
    → (permits controller_cluster_rules "" "pods" verb
        ≡ member verb ("update" ∷ "list" ∷ "watch" ∷ "get" ∷ "patch" ∷ []))
      × (permits controller_cluster_rules "" "secrets" verb ≡ false)
      × (permits controller_role_rules "" "pods" verb ≡ false)
unfolding permits controller_cluster_rules controller_role_rules
controller_least_privilege verb = (ground arith, refl, refl)
