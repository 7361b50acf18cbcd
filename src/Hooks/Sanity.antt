-- ===== src/Hooks/Sanity.antt =====
-- reconciler-hooks.go: when a resource is refused.
use maroonedpods.Prelude.{
  eq_iff, ◌≡◌, refl, ◌≢◌, ◌↔◌, inl, inr, true, false, some, Option-cases, Result-cases, Result, ok,
  err, failure, not_found, arith,
}
use maroonedpods.Cr.{MaroonedPods, Cluster}
use maroonedpods.Hooks.{
  OwnerReference, ConfigMap, panicked, sane, reconciled_error, get_config_map, owner_gone,
  config_map_owner_deleted, is_controlled_by, check_sanity,
}

-- Another resource owns the installation, and neither it nor the config map is being deleted.
pub record IsOwnedByOther (c : Cluster) (cm : ConfigMap) (cr : MaroonedPods) : Type 0 where
  pub ref : OwnerReference
  pub owner : MaroonedPods
  pub controlled : cm.controller ≡ some ref
  pub kind : ref.kind ≡ "MaroonedPods"
  pub found : c.get_maroonedpods ref.name ≡ ok owner
  pub owner_stays : owner.being_deleted ≡ false
  pub same_owner : owner.uid ≡ ref.uid
  pub other : ref.uid ≢ cr.uid
  pub stays : cm.being_deleted ≡ false

module _ (c : Cluster) (cr : MaroonedPods) where
  refused-IsOwnedByOther :
      (cm : ConfigMap) → check_sanity c (ok cm) cr ≡ reconciled_error → IsOwnedByOther c cm cr
  unfolding check_sanity get_config_map config_map_owner_deleted owner_gone
  refused-IsOwnedByOther cm h = elim (Option-cases cm.controller) [
    | inl e ↦ ground arith
    | inr (ref, e) ↦ elim (Result-cases (c.get_maroonedpods ref.name)) [
      | inr (error, f) ↦ elim error [ not_found ↦ ground arith | failure t ↦ ground arith ]
      | inl (owner, f) ↦ record {
        ref = ref;
        owner = owner;
        controlled = e;
        kind = (eq_iff ref.kind "MaroonedPods").0 (ground arith);
        found = f;
        owner_stays = ground arith;
        same_owner = (eq_iff owner.uid ref.uid).0 (ground arith);
        other = ground (arith, eq_iff ref.uid cr.uid);
        stays = ground arith;
      }
    ]
  ]

  IsOwnedByOther-refused :
      (cm : ConfigMap) → IsOwnedByOther c cm cr → check_sanity c (ok cm) cr ≡ reconciled_error
  unfolding check_sanity get_config_map config_map_owner_deleted owner_gone
  IsOwnedByOther-refused cm o = ground (
    arith,
    o.controlled,
    o.found,
    o.owner_stays,
    o.stays,
    o.other,
    (eq_iff o.ref.kind "MaroonedPods").1 o.kind,
    (eq_iff o.owner.uid o.ref.uid).1 o.same_owner,
    eq_iff o.ref.uid cr.uid,
  )

  -- With a config map, a resource is put into the error state exactly if another resource owns the
  -- installation and neither that nor the config map is being deleted; it passes exactly if the
  -- config map is under its own control.
  pub check_sanity_iff :
      (cm : ConfigMap)
      → ((check_sanity c (ok cm) cr ≡ reconciled_error) ↔ IsOwnedByOther c cm cr)
        × ((check_sanity c (ok cm) cr ≡ sane) ↔ (is_controlled_by cm cr ≡ true))
  unfolding check_sanity get_config_map
  check_sanity_iff cm = ((refused-IsOwnedByOther cm, IsOwnedByOther-refused cm), ground arith)

  -- The check reads a nil config map exactly if there is no config map.
  pub check_sanity_panics_iff :
      (read : Result ConfigMap) → (check_sanity c read cr ≡ panicked) ↔ (read ≡ err not_found)
  unfolding check_sanity get_config_map
  check_sanity_panics_iff (err not_found) = (λ h. refl, λ h. refl)
  check_sanity_panics_iff (err (failure e)) = ground arith
  check_sanity_panics_iff (ok cm) = elim (Result-cases (config_map_owner_deleted c cm)) [
    | inl (gone, e) ↦ ground arith
    | inr (error, e) ↦ ground arith
  ]
