-- ===== src/Labels/Tests.antt =====
-- The labels of an object of an installation that sets its part-of label.
use maroonedpods.Prelude.{◌≡◌, ◌||◌, ◌==◌, none, some, [], ◌∷◌, if◌then◌else◌, Map, find}
use maroonedpods.Labels.{
  part_of_label, version_label, managed_by_label, set_recommended_labels,
  recommended_installer_labels,
}
use maroonedpods.Labels.Merged.{first_of, entries_of, static_label, find-set_recommended_labels}

abbrev theirs : Map
theirs = (managed_by_label, "helm") ∷ ("app", "m") ∷ []

abbrev installer : Map
installer = (part_of_label, "suite") ∷ ("owner", "me") ∷ []

find-set_recommended_labels_example :
    find part_of_label
      (set_recommended_labels (some theirs) (recommended_installer_labels installer) "operator")
    ≡ first_of
        (if part_of_label == part_of_label || part_of_label == version_label
          then find part_of_label installer
          else none)
        (first_of
          (static_label "operator" part_of_label)
          (find part_of_label (entries_of (some theirs))))
find-set_recommended_labels_example =
    find-set_recommended_labels part_of_label (some theirs) installer "operator"
