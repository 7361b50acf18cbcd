-- ===== src/Reconcile/Objects.antt =====
-- Which objects `GetAllResources` lists, whatever the orders of the maps.
use mathlib.Core.List.Perm
use mathlib.Core.List.{Perm, Permᴰ, append-nil}
use maroonedpods.Prelude.{
  String, ◌≡◌, refl, ap, Bool, true, false, all, Option-cases, inl, inr, ◌⊎◌, ◌∙◌, arith, none,
  some, List, [], ◌∷◌, ◌++◌, map, Result, ok, if◌then◌else◌,
}
use maroonedpods.Cr.{MaroonedPods, Cluster}
use maroonedpods.Rotation.{get_certificate_definitions}
use maroonedpods.Webhooks.{
  dynamic_resources, active_or_nil, create_gating_mutating_webhook,
  create_gating_validating_webhook,
}
use maroonedpods.Webhooks
use maroonedpods.Resources.{Builder, Object}
use maroonedpods.Resources.Order.{collect, collect-Perm, all-Perm}
use maroonedpods.Resources.Namespaced.{
  FactoryArgs, server_group, controller_group, server_resources, controller_resources,
  assign_namespace_if_missing, create_all_resources, create_resource_group, factory_function,
}
use maroonedpods.Resources.Cluster.{
  create_all_static_resources, create_static_server_resources, create_static_controller_resources,
  create_crd_resources, static_factory_function, create_all_dynamic_resources,
  dynamic_factory_function, group_objects, has_kind,
}
use maroonedpods.Reconcile.{
  Applied, created, registered, applied, panicked, Walk, get_namespaced_args, certificate_objects,
  get_all_resources, static_step,
}

abbrev pub static_groups : List String
static_groups = "maroonedpods-server-rbac" ∷ "controller-rbac" ∷ "crd-resources" ∷ []

abbrev pub namespaced_groups : List String
namespaced_groups = server_group ∷ controller_group ∷ []

abbrev pub dynamic_groups : List String
dynamic_groups = "webhooks-server-registrations" ∷ []

-- every key of every map once
pub record IsWalk (walk : Walk) : Type 0 where
  pub static : Permᴰ static_groups walk.static
  pub namespaced : Permᴰ namespaced_groups walk.namespaced
  pub dynamic : Permᴰ dynamic_groups walk.dynamic

module _ (b : Builder) (c : Cluster) (args : FactoryArgs) (cr : MaroonedPods) where
  unfoldable pub static_objects : Bool → List Object
  static_objects deploy_cluster =
      if deploy_cluster
      then create_static_server_resources b args.namespace
        ++ (create_static_controller_resources b args.namespace ++ create_crd_resources b)
      else []

  unfoldable pub namespaced_objects : FactoryArgs → List Object
  namespaced_objects own =
      map (assign_namespace_if_missing own.namespace)
        (server_resources b own ++ controller_resources b own)

  -- all objects by their component
  unfoldable pub expected_objects : Bool → List Applied
  unfolding static_objects namespaced_objects
  expected_objects deploy_cluster =
      let own = get_namespaced_args c args (some cr) in
      map created (static_objects deploy_cluster)
      ++ (map created (namespaced_objects own)
          ++ (map registered (dynamic_resources c args.namespace)
              ++ certificate_objects (get_certificate_definitions args.namespace (some cr))))

  static_canonical :
      create_all_static_resources b args.namespace static_groups ≡ ok (static_objects true)
  unfolding create_all_static_resources collect static_objects static_factory_function
      create_crd_resources
  static_canonical = refl

  namespaced_canonical :
      create_all_resources b namespaced_groups (get_namespaced_args c args (some cr))
      ≡ ok (namespaced_objects (get_namespaced_args c args (some cr)))
  unfolding create_all_resources collect create_resource_group namespaced_objects server_resources
      controller_resources factory_function
  namespaced_canonical = refl

  abbrev dynamic_step : String → Result (List Webhooks.Object)
  dynamic_step group = group_objects group (dynamic_factory_function c args.namespace group)

  dynamic_canonical : collect dynamic_step dynamic_groups ≡ ok (dynamic_resources c args.namespace)
  unfolding collect group_objects dynamic_factory_function
  dynamic_canonical = ap ok (append-nil (dynamic_resources c args.namespace))

  -- only without an active resource there is a nil object
  has_kinds-none :
      active_or_nil c ≡ none → all has_kind (dynamic_resources c args.namespace) ≡ false
  unfolding all has_kind dynamic_resources create_gating_mutating_webhook
      create_gating_validating_webhook
  has_kinds-none e = ground arith

  has_kinds-some :
      (active : MaroonedPods)
      → active_or_nil c ≡ some active
      → all has_kind (dynamic_resources c args.namespace) ≡ true
  unfolding all has_kind dynamic_resources create_gating_mutating_webhook
      create_gating_validating_webhook
  has_kinds-some active e = ground arith

  static_walked :
      (deploy_cluster : Bool) (walk : Walk)
      → IsWalk walk
      → (crs : List Object) × (static_step b deploy_cluster args.namespace walk ≡ ok crs)
        × Perm (static_objects deploy_cluster) crs
  unfolding static_step create_all_static_resources static_objects
  static_walked true walk w = collect-Perm _ w.static (static_objects true) static_canonical
  static_walked false walk w = ([], refl, Perm.refl [])

  namespaced_walked :
      (walk : Walk)
      → IsWalk walk
      → (nsrs : List Object) × (create_all_resources b walk.namespaced
            (get_namespaced_args c args (some cr))
          ≡ ok nsrs)
        × Perm (namespaced_objects (get_namespaced_args c args (some cr))) nsrs
  unfolding create_all_resources namespaced_objects
  namespaced_walked walk w =
      collect-Perm _ w.namespaced (namespaced_objects (get_namespaced_args c args (some cr)))
        namespaced_canonical

  dynamic_checked :
      (groups : List String) (drs : List Webhooks.Object)
      → collect dynamic_step groups ≡ ok drs
      → create_all_dynamic_resources c args.namespace groups
        ≡ (if all has_kind drs then some (ok drs) else none)
  unfolding create_all_dynamic_resources
  dynamic_checked groups drs walked = rw (create_all_dynamic_resources, walked) refl

  dynamic_walked :
      (walk : Walk)
      → IsWalk walk
      → (drs : List Webhooks.Object) × (create_all_dynamic_resources c args.namespace walk.dynamic
          ≡ (if all has_kind (dynamic_resources c args.namespace) then some (ok drs) else none))
        × Perm (dynamic_resources c args.namespace) drs
  dynamic_walked walk w =
      let (drs, walked, perm) =
        collect-Perm dynamic_step w.dynamic (dynamic_resources c args.namespace)
          dynamic_canonical in
      (drs, dynamic_checked walk.dynamic drs walked ∙ rw (all-Perm has_kind perm) refl, perm)

  get_all_resources-applied :
      (deploy_cluster : Bool) (walk : Walk) (crs nsrs : List Object) (drs : List Webhooks.Object)
      → static_step b deploy_cluster args.namespace walk ≡ ok crs
      → create_all_resources b walk.namespaced (get_namespaced_args c args (some cr)) ≡ ok nsrs
      → create_all_dynamic_resources c args.namespace walk.dynamic ≡ some (ok drs)
      → get_all_resources b deploy_cluster c args walk cr
        ≡ applied (
            map created crs
            ++ (map created nsrs
                ++ (map registered drs
                    ++ certificate_objects (get_certificate_definitions args.namespace (some cr)))))
  unfolding get_all_resources
  get_all_resources-applied deploy_cluster walk crs nsrs drs e e' e'' =
      rw (e, e', e'', get_all_resources) refl

  -- In whatever orders the three maps of factory functions are walked, `GetAllResources` fails in no
  -- group. If a resource is active it applies the objects of all components, in some order, each as often
  -- as listed; if none is, the check of the kinds panics.
  pub get_all_resources-Perm :
      (deploy_cluster : Bool) (walk : Walk)
      → IsWalk walk
      → ((active_or_nil c ≡ none) × (get_all_resources b deploy_cluster c args walk cr ≡ panicked))
        ⊎ ((active : MaroonedPods) × (active_or_nil c ≡ some active)
            × (all : List Applied) × (get_all_resources b deploy_cluster c args walk cr
                ≡ applied all)
            × Perm (expected_objects deploy_cluster) all)
  unfolding expected_objects get_all_resources
  get_all_resources-Perm deploy_cluster walk w =
      let (crs, walked, perm) = static_walked deploy_cluster walk w in
      let (nsrs, walked', perm') = namespaced_walked walk w in
      let (drs, walked'', perm'') = dynamic_walked walk w in
      elim (Option-cases (active_or_nil c)) [
        | inl e ↦
            let crashed : create_all_dynamic_resources c args.namespace walk.dynamic ≡ none =
              walked'' ∙ rw (has_kinds-none e) refl in
            inl (e, rw (get_all_resources, walked, walked', crashed) refl)
        | inr (active, e) ↦
            let made : create_all_dynamic_resources c args.namespace walk.dynamic ≡ some (ok drs) =
              walked'' ∙ rw (has_kinds-some active e) refl in
            inr (
              active,
              e,
              _,
              get_all_resources-applied deploy_cluster walk crs nsrs drs walked walked' made,
              Perm.append (Perm.map created perm) (
                  Perm.append (Perm.map created perm')
                    (Perm.append (Perm.map registered perm'') (Perm.refl _))),
            )
      ]
