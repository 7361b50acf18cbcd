-- ===== src/Hooks/Tests.antt =====
-- The sanity check of a second resource.
use maroonedpods.Prelude.{String, ◌≡◌, ◌↔◌, true, false, none, some, [], ◌∷◌, ok, err, not_found}
use maroonedpods.Cr.{MaroonedPods, Cluster}
use maroonedpods.Hooks.{ConfigMap, check_sanity, reconciled_error, sane, is_controlled_by}
use maroonedpods.Hooks.Sanity.{IsOwnedByOther, check_sanity_iff}

abbrev resource : String → MaroonedPods
resource uid = record {
  name = uid;
  uid = uid;
  being_deleted = false;
  image_pull_policy = "";
  priority_class = none;
  infra = "";
  phase = "Deployed";
  namespace_selector = none;
  cert_config = none;
}

abbrev cluster : Cluster
cluster = record {
  list_maroonedpods = ok (resource "first" ∷ resource "second" ∷ []);
  get_maroonedpods = λ name. ok (resource name);
  get_deployment_of = λ name ns. err not_found;
  has_priority_class = λ name. true;
  get_config_map_data = λ ns name. err not_found;
}

abbrev claimed : ConfigMap
claimed = record {
  controller = some (record { kind = "MaroonedPods"; name = "first"; uid = "first" });
  being_deleted = false;
}

check_sanity_iff_example :
    ((check_sanity cluster (ok claimed) (resource "second") ≡ reconciled_error)
      ↔ IsOwnedByOther cluster claimed (resource "second"))
    × ((check_sanity cluster (ok claimed) (resource "second") ≡ sane)
        ↔ (is_controlled_by claimed (resource "second") ≡ true))
check_sanity_iff_example = check_sanity_iff cluster (resource "second") claimed
