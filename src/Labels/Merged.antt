-- ===== src/Labels/Merged.antt =====
-- util.go: which value a label has in the end.
use maroonedpods.Prelude.{
  String, ◌==◌, eq_iff, ◌≡◌, refl, inl, inr, Bool, true, false, ◌||◌, Option, none, some, [], ◌∷◌,
  arith, if◌then◌else◌, not, Bool-cases, Map, find, put, find-put, find-put_other, is_some, ◌&&◌,
}
use maroonedpods.Labels.{
  part_of_label, version_label, managed_by_label, component_label, put_all, merge_labels,
  recommended_installer_labels, set_recommended_labels,
}

-- no key stands twice
unfoldable pub distinct : Map → Bool
distinct [] = true
distinct ((k, v) ∷ rest) = not (is_some (find k rest)) && distinct rest

-- the first map that has the label
abbrev pub first_of : Option String → Option String → Option String
first_of (some v) other = some v
first_of none other = other

abbrev pub entries_of : Option Map → Map
entries_of none = []
entries_of (some entries) = entries

find-put_all :
    (key : String) (src dest : Map)
    → distinct src ≡ true
    → find key (put_all src dest) ≡ first_of (find key src) (find key dest)
unfolding distinct find put_all
find-put_all key [] dest d = refl
find-put_all key ((k, v) ∷ src) dest d =
    let rest = find-put_all key src (put k v dest) (ground arith) in
    elim (Bool-cases (k == key)) [
      | inl e ↦
          let same : k ≡ key = (eq_iff k key).0 e in
          let here : find key (put k v dest) ≡ some v = rw (← same) (find-put k v dest) in
          let once : find key src ≡ none = rw (← same) (ground arith) in ground arith
      | inr e ↦
          let other = find-put_other k key v dest (ground (arith, eq_iff k key)) in ground arith
    ]

-- Merging labels overwrites: what the source has is taken, and what it has not is kept.
pub find-merge_labels :
    (key : String) (src : Map) (dest : Option Map)
    → distinct src ≡ true
    → find key (merge_labels src dest) ≡ first_of (find key src) (find key (entries_of dest))
unfolding merge_labels
find-merge_labels key src none d = find-put_all key src [] d
find-merge_labels key src (some dest) d = find-put_all key src dest d

find-recommended :
    (key : String) (labels : Map)
    → find key (recommended_installer_labels labels)
      ≡ (if key == part_of_label || key == version_label then find key labels else none)
unfolding recommended_installer_labels find
find-recommended key [] = ground arith
find-recommended key ((k, v) ∷ labels) =
    let rest = find-recommended key labels in
    elim (Bool-cases (k == key)) [
      | inl e ↦
          let same : k ≡ key = (eq_iff k key).0 e in
          let here : find key (put k v (recommended_installer_labels labels)) ≡ some v =
            rw (← same) (find-put k v (recommended_installer_labels labels)) in
          let part : (k == part_of_label) ≡ (key == part_of_label) = rw (same) refl in
          let version : (k == version_label) ≡ (key == version_label) = rw (same) refl in
          ground arith
      | inr e ↦
          let other =
            find-put_other k key v (recommended_installer_labels labels)
              (ground (arith, eq_iff k key)) in
          ground arith
    ]

distinct-put :
    (k v : String) (entries : Map) → distinct entries ≡ true → distinct (put k v entries) ≡ true
unfolding distinct put find
distinct-put k v [] d = refl
distinct-put k v ((key, value) ∷ rest) d = elim (Bool-cases (key == k)) [
  | inl e ↦
      let same : key ≡ k = (eq_iff key k).0 e in
      let absent : is_some (find k rest) ≡ false = rw (← same) (ground arith) in ground arith
  | inr e ↦
      let others = distinct-put k v rest (ground arith) in
      let other = find-put_other k key v rest (ground (arith, eq_iff key k)) in ground arith
]

recommended_distinct : (labels : Map) → distinct (recommended_installer_labels labels) ≡ true
unfolding recommended_installer_labels
recommended_distinct [] = unfold distinct in refl
recommended_distinct ((k, v) ∷ labels) =
    let rest = recommended_distinct labels in
    ground (arith, distinct-put k v (recommended_installer_labels labels) rest)

-- the labels that every object has from the operator itself
abbrev pub static_label : String → String → Option String
static_label controller_name key =
    if managed_by_label == key
    then some controller_name
    else if component_label == key
    then some "multi-tenant"
    else none

-- An object gets its part-of and version labels from the resource, where that has them, else its
-- managed-by and component labels from the operator, and else keeps the labels that it had.
pub find-set_recommended_labels :
    (key : String) (existing : Option Map) (cr_labels : Map) (controller_name : String)
    → find key
        (set_recommended_labels existing (recommended_installer_labels cr_labels) controller_name)
      ≡ first_of
          (if key == part_of_label || key == version_label then find key cr_labels else none)
          (first_of (static_label controller_name key) (find key (entries_of existing)))
unfolding set_recommended_labels
find-set_recommended_labels key existing cr_labels controller_name =
    let static_labels : Map =
      (managed_by_label, controller_name) ∷ (component_label, "multi-tenant") ∷ [] in
    rw
      (
        find-merge_labels key (recommended_installer_labels cr_labels)
            (some (merge_labels static_labels existing)) (recommended_distinct cr_labels),
        find-recommended key cr_labels,
        find-merge_labels key static_labels existing (unfold distinct find in refl),
      )
      (unfold find in refl)
