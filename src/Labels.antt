-- ===== src/Labels.antt =====
-- pkg/util/util.go: the labels that the operator sets on its objects. Go walks a map in any order; the
-- lists here have an order, which no theorem's result depends on.
pub mod Merged
pub mod Tests
use maroonedpods.Prelude.{
  String, ◌==◌, Bool, true, false, ◌||◌, Option, none, some, List, [], ◌∷◌, if◌then◌else◌, Map,
  find, put,
}

abbrev pub part_of_label : String
part_of_label = "app.kubernetes.io/part-of"

abbrev pub version_label : String
version_label = "app.kubernetes.io/version"

abbrev pub managed_by_label : String
managed_by_label = "app.kubernetes.io/managed-by"

abbrev pub component_label : String
component_label = "app.kubernetes.io/component"

put_all : Map → Map → Map
put_all [] dest = dest
put_all ((k, v) ∷ src) dest = put_all src (put k v dest)

-- a nil destination is made empty
unfoldable pub merge_labels : Map → Option Map → Map
unfolding put_all
merge_labels src none = put_all src []
merge_labels src (some dest) = put_all src dest

unfoldable pub recommended_installer_labels : Map → Map
recommended_installer_labels [] = []
recommended_installer_labels ((k, v) ∷ labels) =
    let rest = recommended_installer_labels labels in
    if k == part_of_label || k == version_label then put k v rest else rest

-- the labels that `SetRecommendedLabels` sets on an object with the labels `existing`
unfoldable pub set_recommended_labels : Option Map → Map → String → Map
unfolding merge_labels
set_recommended_labels existing installer_labels controller_name =
    let static_labels =
      (managed_by_label, controller_name) ∷ (component_label, "multi-tenant") ∷ [] in
    merge_labels installer_labels (some (merge_labels static_labels existing))
