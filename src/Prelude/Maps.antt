-- ===== src/Prelude/Maps.antt =====
-- Go's maps from strings to strings, as lists of entries without duplicate keys.
use mathlib.Core.Path.{◌≡◌}
use mathlib.Core.Logic.{◌≢◌, inl, inr}
use mathlib.Core.Option.{Option, none, some}
use mathlib.Core.List.{List, [], ◌∷◌}
use Prim.Native.String.{String}
use native.Mathlib.Omega.{arith}
use text.Mathlib.Text.{◌==◌}
use text.Mathlib.TextEquality.{eq_iff}
use text.Mathlib.TextPositions.{eq_refl}
use maroonedpods.Prelude.Tests.{if◌then◌else◌, Bool-cases}

abbrev pub Map : Type 0
Map = List (String × String)

unfoldable pub find : String → Map → Option String
find key [] = none
find key ((k, v) ∷ rest) = if k == key then some v else find key rest

unfoldable pub put : String → String → Map → Map
put key value [] = (key, value) ∷ []
put key value ((k, v) ∷ rest) = if k == key then (k, value) ∷ rest else (k, v) ∷ put key value rest

pub find-put : (k v : String) (entries : Map) → find k (put k v entries) ≡ some v
unfolding find put
find-put k v [] = ground (arith, eq_refl k)
find-put k v ((key, value) ∷ rest) = elim (Bool-cases (key == k)) [
  | inl e ↦ ground (arith, eq_refl k)
  | inr e ↦ ground (arith, find-put k v rest)
]

pub find-put_other :
    (k j v : String) (entries : Map) → j ≢ k → find j (put k v entries) ≡ find j entries
unfolding find put
find-put_other k j v [] n = ground (arith, eq_iff k j)
find-put_other k j v ((key, value) ∷ rest) n =
    let others = find-put_other k j v rest n in
    ground (arith, eq_iff k j, eq_iff key k, eq_iff key j)
