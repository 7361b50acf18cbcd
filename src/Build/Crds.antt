-- ===== src/Build/Crds.antt =====
-- tools/crd-generator/crd-generator.go: the Go file with the texts of the resource definitions. A text
-- that is written is a list of code points, and writing it succeeds.
use Prim.Native.Char.{code}
use maroonedpods.Prelude.{
  ℕ, String, ◌==◌, nat_eq, Bool, Option, none, some, List, [], ◌∷◌, ◌++◌, map, Result, ok, err,
  if◌then◌else◌, ◌>>=◌, failure,
}

abbrev pub Text : Type 0
Text = List ℕ

abbrev pub codes : String → Text
codes String.[] = []
codes (String.◌∷◌ c s) = code c ∷ codes s

-- ` and " of the Go source
abbrev pub backtick : ℕ
backtick = 96

abbrev pub quote : ℕ
quote = 34

-- what stands for a backtick: ` + "`" + `
abbrev pub spliced : Text → Text
spliced rest = 96 ∷ 32 ∷ 43 ∷ 32 ∷ 34 ∷ 96 ∷ 34 ∷ 32 ∷ 43 ∷ 32 ∷ 96 ∷ rest

-- `strings.ReplaceAll` of the backtick
unfoldable pub replace_backticks : Text → Text
replace_backticks [] = []
replace_backticks (c ∷ s) =
    let rest = replace_backticks s in if nat_eq c backtick then spliced rest else c ∷ rest

-- the line of one definition, by the format `variable`, and what follows it
unfoldable pub entry : Text → Text → Text → Text
unfolding replace_backticks
entry crdname text rest =
    9
    ∷ quote
    ∷ (crdname
        ++ quote ∷ 58 ∷ 32 ∷ backtick ∷ (replace_backticks text ++ backtick ∷ 44 ∷ 10 ∷ rest))

-- the three lines that are written first, the second one blank before it
abbrev pub header : Text → Text
header rest =
    codes "package resources"
    ++ 10
      ∷ 10
      ∷ (codes "// MaroonedPodsCRDs is a map containing yaml strings of all CRDs"
          ++ 10
            ∷ (codes "var MaroonedPodsCRDs map[string]string = map[string]string{" ++ 10 ∷ rest))

abbrev pub footer : Text
footer = 125 ∷ 10 ∷ []

-- a definition: its status, and the rest
pub record CustomResourceDefinition : Type 0 where
  pub singular : String
  pub spec : Text
  pub status : Option Text

-- a directory entry and what the decoder makes of the file
pub record File : Type 0 where
  pub name : String
  pub is_dir : Bool
  pub decoded : Result CustomResourceDefinition

abbrev pub Crds : Type 0
Crds = List (String × CustomResourceDefinition)

unfoldable pub put_crd : String → CustomResourceDefinition → Crds → Crds
put_crd name crd [] = (name, crd) ∷ []
put_crd name crd ((n, c) ∷ crds) =
    if n == name then (name, crd) ∷ crds else (n, c) ∷ put_crd name crd crds

unfoldable pub find_crd : String → Crds → Option CustomResourceDefinition
find_crd name [] = none
find_crd name ((n, c) ∷ crds) = if n == name then some c else find_crd name crds

-- `strings.HasSuffix(filename, ".yaml")`, `yaml.Marshal`, whose error is not looked at, and `sort.Strings`
pub record Tools : Type 0 where
  pub has_yaml_suffix : String → Bool
  pub marshal : CustomResourceDefinition → Text
  pub sort : List String → List String

module _ (t : Tools) where
  -- the loop over the files; a file that cannot be read or parsed is a panic
  unfoldable pub read_crds : List File → Crds → Result Crds
  unfolding put_crd
  read_crds [] crds = ok crds
  read_crds (f ∷ files) crds =
      let with_crd =
        λ (crd : CustomResourceDefinition). read_crds files (put_crd crd.singular crd crds) in
      let without = read_crds files crds in
      if f.is_dir
      then without
      else if t.has_yaml_suffix f.name
      then f.decoded >>= with_crd
      else without

  -- the loop over the sorted names; a name that the map lacks would be a nil pointer
  unfoldable pub entries : Crds → List String → Option Text
  unfolding find_crd entry
  entries crds [] = some footer
  entries crds (name ∷ names) = elim (find_crd name crds) [
    | none ↦ none
    | some crd ↦ elim (entries crds names) [
      | none ↦ none
      | some rest ↦ some (entry (codes name) (t.marshal (record crd { status = none })) rest)
    ]
  ]

  abbrev pub names_of : Crds → List String
  names_of crds = map (λ (e : String × CustomResourceDefinition). e.0) crds

  unfoldable pub generate_go_file : Crds → Option Text
  unfolding entries
  generate_go_file crds = elim (entries crds (t.sort (names_of crds))) [
    | none ↦ none
    | some rest ↦ some (header rest)
  ]

  -- `main`: the file, a panic, or a nil pointer
  unfoldable pub crd_main : List File → Result (Option Text)
  unfolding read_crds generate_go_file
  crd_main [] = err (failure "Povided crdDir is empty")
  crd_main (f ∷ files) = read_crds (f ∷ files) [] >>= λ crds. ok (generate_go_file crds)
