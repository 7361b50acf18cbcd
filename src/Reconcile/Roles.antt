-- ===== src/Reconcile/Roles.antt =====
-- The roles among the objects that the operator applies, against the operator's own.
use maroonedpods.Prelude.{
  ◌≡◌, refl, ap, sym, ◌∙◌, Bool, true, false, Option, none, some, List, [], ◌∷◌, ◌++◌, map, all,
  all-append, arith, inl, inr,
}
use maroonedpods.Cr.{MaroonedPods, Cluster}
use maroonedpods.Rbac.Rule.{covers}
use maroonedpods.Rbac.Operator.{operator_cluster_rules, operator_role_rules}
use maroonedpods.Rbac.Coverage.{controller_cluster, server_cluster, controller_role, server_role}
use maroonedpods.Rotation.{ObjectMeta, CertificateDefinition, get_certificate_definitions}
use maroonedpods.Webhooks
use maroonedpods.Webhooks.{dynamic_resources}
use maroonedpods.Resources.Order.{all-Perm}
use maroonedpods.Resources.{Builder, IsBuilder, role, cluster_role}
use maroonedpods.Admission.{controller_resource_name}
use maroonedpods.Rbac.Controller.{controller_cluster_rules, controller_role_rules}
use maroonedpods.Rbac.Server.{server_cluster_rules, server_role_rules}
use maroonedpods.Webhooks.{server_resource_name}
use maroonedpods.Resources.Cluster.{
  create_static_controller_resources, create_static_server_resources, create_crd_resources,
  create_controller_cluster_role, create_api_server_cluster_role,
}
use maroonedpods.Resources.Controller.{create_controller_role}
use maroonedpods.Resources.Server.{create_server_role}
use maroonedpods.Resources.Namespaced.{
  FactoryArgs, assign_namespace_if_missing, server_resources, controller_resources,
}
use maroonedpods.Reconcile.{
  Applied, created, registered, applied, Walk, get_all_resources, certificate_objects,
  get_namespaced_args, one_of, signer_secret, cert_bundle_configmap, target_secret,
}
use maroonedpods.Reconcile.Objects.{
  IsWalk, expected_objects, static_objects, namespaced_objects, get_all_resources-Perm,
}

-- an applied role has no rule that the operator's role of the same scope does not cover
abbrev pub granted_safely : Applied → Bool
granted_safely (created (role r)) = covers operator_role_rules r.rules
granted_safely (created (cluster_role r)) = covers operator_cluster_rules r.rules
granted_safely _ = true

registered_safely :
    (objects : List Webhooks.Object) → all granted_safely (map registered objects) ≡ true
unfolding all
registered_safely [] = refl
registered_safely (o ∷ objects) = registered_safely objects

all_both :
    (xs ys : List Applied)
    → all granted_safely xs ≡ true
    → all granted_safely ys ≡ true
    → all granted_safely (xs ++ ys) ≡ true
all_both xs ys first second = all-append granted_safely xs ys ∙ rw (first, second) refl

one_of_safely :
    (make : ObjectMeta → Applied) (meta : Option ObjectMeta)
    → ((m : ObjectMeta) → granted_safely (make m) ≡ true)
    → all granted_safely (one_of make meta) ≡ true
unfolding all one_of
one_of_safely make none safe = refl
one_of_safely make (some m) safe = rw (safe m) refl

certificates_safely :
    (definitions : List CertificateDefinition)
    → all granted_safely (certificate_objects definitions) ≡ true
unfolding all certificate_objects
certificates_safely [] = refl
certificates_safely (cd ∷ definitions) =
    let rest = certificate_objects definitions in
    let bundle = one_of cert_bundle_configmap cd.cert_bundle_configmap in
    let target = one_of target_secret cd.target_secret in
    all_both (one_of signer_secret cd.signer_secret) (bundle ++ (target ++ rest))
      (one_of_safely signer_secret cd.signer_secret (λ m. refl))
      (all_both bundle (target ++ rest)
        (one_of_safely cert_bundle_configmap cd.cert_bundle_configmap (λ m. refl))
        (all_both target rest (one_of_safely target_secret cd.target_secret (λ m. refl))
          (certificates_safely definitions)))

module _ (b : Builder) (laws : IsBuilder b) (c : Cluster) (args : FactoryArgs)
    (cr : MaroonedPods) where
  static_safely :
      (deploy_cluster : Bool)
      → all granted_safely (map created (static_objects b c args cr deploy_cluster)) ≡ true
  unfolding all static_objects create_static_controller_resources create_static_server_resources
      create_crd_resources create_controller_cluster_role create_api_server_cluster_role
  static_safely false = refl
  static_safely true =
      rw
        (
          laws.cluster_role_rules controller_resource_name controller_cluster_rules,
          laws.cluster_role_rules server_resource_name server_cluster_rules,
          controller_cluster,
          server_cluster,
        )
        refl

  namespaced_safely :
      (own : FactoryArgs)
      → all granted_safely (map created (namespaced_objects b c args cr own)) ≡ true
  unfolding all namespaced_objects assign_namespace_if_missing server_resources controller_resources
      create_controller_role create_server_role
  namespaced_safely own =
      rw
        (
          laws.role_rules controller_resource_name controller_role_rules,
          laws.role_rules server_resource_name server_role_rules,
          controller_role,
          server_role,
        )
        refl

  expected_safely :
      (deploy_cluster : Bool)
      → all granted_safely (expected_objects b c args cr deploy_cluster) ≡ true
  unfolding expected_objects
  expected_safely deploy_cluster =
      let own = get_namespaced_args c args (some cr) in
      let static = map created (static_objects b c args cr deploy_cluster) in
      let namespaced = map created (namespaced_objects b c args cr own) in
      let dynamic = map registered (dynamic_resources c args.namespace) in
      let definitions = get_certificate_definitions args.namespace (some cr) in
      let certs = certificate_objects definitions in
      all_both static (namespaced ++ (dynamic ++ certs)) (static_safely deploy_cluster) (
        all_both namespaced (dynamic ++ certs) (namespaced_safely own) (
          all_both dynamic certs (registered_safely (dynamic_resources c args.namespace))
            (certificates_safely definitions)))

  -- Whatever the orders of the maps, no role among the objects that the operator applies grants
  -- anything that the operator's own role of the same scope does not cover, if the builder gives roles
  -- the rules that they are created with.
  pub get_all_resources_no_escalation :
      (deploy_cluster : Bool) (walk : Walk) (objects : List Applied)
      → IsWalk walk
      → get_all_resources b deploy_cluster c args walk cr ≡ applied objects
      → all granted_safely objects ≡ true
  get_all_resources_no_escalation deploy_cluster walk objects w h =
      elim (get_all_resources-Perm b c args cr deploy_cluster walk w) [
        | inl (inactive, crashed) ↦ absurd (ground arith)
        | inr (active, found, all_objects, listed, perm) ↦
            let same : all_objects ≡ objects = ground arith in
            ap (all granted_safely) (sym same)
            ∙ sym (all-Perm granted_safely perm)
            ∙ expected_safely deploy_cluster
      ]
