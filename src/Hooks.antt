-- ===== src/Hooks.antt =====
-- pkg/maroonedpods-operator/reconciler-hooks.go, and `getConfigMap` and `IsCreating` beside it: the
-- config map by which one MaroonedPods resource owns the installation.
pub mod Sanity
pub mod Tests
use maroonedpods.Prelude.{
  String, ◌==◌, Bool, true, false, not, ◌&&◌, ◌||◌, Option, none, some, Result, ok, err, Error,
  failure, not_found, concat, [], ◌∷◌, if◌then◌else◌, ◌>>=◌,
}
use maroonedpods.Cr.{MaroonedPods, Cluster}

-- k8s.io/apimachinery's `OwnerReference`; `controller` of a config map is what `GetControllerOf` gives
pub record OwnerReference : Type 0 where
  pub kind : String
  pub name : String
  pub uid : String

pub record ConfigMap : Type 0 where
  pub controller : Option OwnerReference
  pub being_deleted : Bool

-- What the sanity check of a resource comes to. `panicked` is the read of a nil config map.
pub data SanityResult : Type 0 where
  panicked sane requeued reconciled_error : SanityResult
  failed : Error → SanityResult

-- `client.Get` of the config map, in the operator's namespace
unfoldable pub get_config_map : Result ConfigMap → Result (Option ConfigMap)
get_config_map (ok cm) = ok (some cm)
get_config_map (err not_found) = ok none
get_config_map (err (failure e)) = err (failure e)

unfoldable pub is_creating : Result ConfigMap → Bool
unfolding get_config_map
is_creating read = elim (get_config_map read) [
  | err e ↦ true
  | ok found ↦ elim found [ none ↦ true | some cm ↦ false ]
]

owner_gone : OwnerReference → Result MaroonedPods → Result Bool
owner_gone ref (ok owner) = ok (not (not owner.being_deleted && owner.uid == ref.uid))
owner_gone ref (err not_found) = ok true
owner_gone ref (err (failure e)) = err (failure e)

unfoldable pub config_map_owner_deleted : Cluster → ConfigMap → Result Bool
unfolding owner_gone
config_map_owner_deleted c cm = elim cm.controller [
  | none ↦ ok true
  | some ref ↦
      if not (ref.kind == "MaroonedPods")
      then err (failure (concat ("unexpected configmap owner kind \"" ∷ ref.kind ∷ "\"" ∷ [])))
      else owner_gone ref (c.get_maroonedpods ref.name)
]

-- `metav1.IsControlledBy`
abbrev pub is_controlled_by : ConfigMap → MaroonedPods → Bool
is_controlled_by cm cr = elim cm.controller [ none ↦ false | some ref ↦ ref.uid == cr.uid ]

unfoldable pub check_sanity : Cluster → Result ConfigMap → MaroonedPods → SanityResult
unfolding get_config_map config_map_owner_deleted
check_sanity c read cr = elim (get_config_map read) [
  | err e ↦ failed e
  | ok found ↦ elim found [
    | none ↦ panicked
    | some cm ↦ if is_controlled_by cm cr then sane else elim (config_map_owner_deleted c cm) [
      | err e ↦ failed e
      | ok owner_deleted ↦ if owner_deleted || cm.being_deleted then requeued else reconciled_error
    ]
  ]
]
