-- ===== src/Reconcile/Tests.antt =====
-- A resource that claims the installation, in a cluster that has one priority class.
use mathlib.Core.List.{Perm, Permᴰ}
use maroonedpods.Prelude.{
  all, ◌⊎◌, inl, inr, ◌≡◌, refl, none, some, [], ◌∷◌, List, ok, err, not_found, true, if◌then◌else◌,
  ◌==◌, arith,
}
use maroonedpods.Cr.{MaroonedPods, Cluster, get_active_maroonedpods, active_resources}
use maroonedpods.Webhooks.{active_or_nil}
use maroonedpods.Resources.Tests.{builder, builder-IsBuilder, args, cr}
use maroonedpods.Reconcile.{Applied, applied, panicked, Walk, get_all_resources}
use maroonedpods.Reconcile.Objects.{IsWalk, expected_objects, get_all_resources-Perm}
use maroonedpods.Reconcile.Roles.{granted_safely, get_all_resources_no_escalation}

abbrev cluster : Cluster
cluster = record {
  list_maroonedpods = ok (cr ∷ []);
  get_maroonedpods = λ name. if name == "m" then ok cr else err not_found;
  get_deployment_of = λ name ns. ok (record { ready_replicas = 1 });
  has_priority_class = λ name. name == "mine";
  get_config_map_data = λ ns name. ok [];
}

abbrev walk : Walk
walk = record {
  static = "controller-rbac" ∷ "maroonedpods-server-rbac" ∷ "crd-resources" ∷ [];
  namespaced = "controller" ∷ "maroonedpodsServer" ∷ [];
  dynamic = "webhooks-server-registrations" ∷ [];
}

walk-IsWalk : IsWalk walk
walk-IsWalk = record {
  static = Permᴰ.swap refl refl;
  namespaced = Permᴰ.swap refl refl;
  dynamic = Permᴰ.cons refl Permᴰ.nil;
}

get_all_resources-Perm_example :
    ((active_or_nil cluster ≡ none)
      × (get_all_resources builder true cluster args walk cr ≡ panicked))
    ⊎ ((active : MaroonedPods) × (active_or_nil cluster ≡ some active)
        × (all : List Applied) × (get_all_resources builder true cluster args walk cr ≡ applied all)
        × Perm (expected_objects builder cluster args cr true) all)
get_all_resources-Perm_example =
    get_all_resources-Perm builder cluster args cr true walk walk-IsWalk

active : active_or_nil cluster ≡ some cr
unfolding active_or_nil get_active_maroonedpods active_resources
active = refl

listed : (all : List Applied) × (get_all_resources builder true cluster args walk cr ≡ applied all)
listed = elim (get_all_resources-Perm builder cluster args cr true walk walk-IsWalk) [
  | inl (e, _) ↦ let is_active = active in absurd (ground arith)
  | inr (_, _, all, applies, _) ↦ (all, applies)
]

get_all_resources_no_escalation_example : all granted_safely listed.0 ≡ true
get_all_resources_no_escalation_example =
    get_all_resources_no_escalation builder builder-IsBuilder cluster args cr true walk listed.0
      walk-IsWalk listed.1
