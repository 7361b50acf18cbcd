-- ===== src/Build/Readable.antt =====
-- The generated file is read back by Go.
use maroonedpods.Prelude.{
  ℕ, suc, nat_eq, String, ◌≡◌, refl, ◌∙◌, not, Bool, true, ◌||◌, Option, none, some, List, [], ◌∷◌,
  ◌++◌, arith, all, length, if◌then◌else◌, Bool-cases, Option-cases, inl, inr, is_some, eq_refl,
}
use maroonedpods.Build.Crds.{
  Text, codes, backtick, quote, replace_backticks, entry, header, footer, Tools, Crds, find_crd,
  CustomResourceDefinition, entries, names_of, generate_go_file,
}
use maroonedpods.Build.GoSource.{raw, value_of, key_of, expect, entry_of, entries_of, skip_line}

-- a text as a raw literal gives it
unfoldable pub without_returns : Text → Text
without_returns [] = []
without_returns (c ∷ s) = let rest = without_returns s in if nat_eq c 13 then rest else c ∷ rest

value_of-replace_backticks :
    (text rest : Text)
    → value_of raw (replace_backticks text ++ backtick ∷ 44 ∷ rest)
      ≡ some (without_returns text, rest)
unfolding value_of replace_backticks without_returns
value_of-replace_backticks [] rest = refl
value_of-replace_backticks (c ∷ text) rest = elim (Bool-cases (nat_eq c 96)) [
  | inl e ↦ ground (arith, value_of-replace_backticks text rest)
  | inr e ↦ ground (arith, value_of-replace_backticks text rest)
]

-- no quote, no backslash and no line feed, as in every name that Kubernetes admits
abbrev pub is_plain : ℕ → Bool
is_plain c = not (nat_eq c 34 || nat_eq c 92 || nat_eq c 10)

key_of-append :
    (key rest : Text) → all is_plain key ≡ true → key_of (key ++ quote ∷ rest) ≡ some (key, rest)
unfolding key_of all
key_of-append [] rest plain = refl
key_of-append (c ∷ key) rest plain = ground (arith, key_of-append key rest)

entry_of-entry :
    (key text rest : Text)
    → all is_plain key ≡ true
    → entry_of (entry key text rest) ≡ some ((key, without_returns text), rest)
unfolding entry_of entry value_of
entry_of-entry key text rest plain =
    let k =
      key_of-append key (58 ∷ 32 ∷ backtick ∷ (replace_backticks text ++ backtick ∷ 44 ∷ 10 ∷ rest))
        plain in
    let v = value_of-replace_backticks text (10 ∷ rest) in rw (k, v) refl

entries_of-cons :
    (fuel : ℕ) (line rest : Text) (e : Text × Text) (es : List (Text × Text))
    → expect 125 line ≡ none
    → entry_of line ≡ some (e, rest)
    → entries_of fuel rest ≡ some es
    → entries_of (suc fuel) line ≡ some (e ∷ es)
unfolding entries_of
entries_of-cons fuel line rest e es open_ one more = ground arith

module _ (t : Tools) where
  -- the text of a definition, without its status, as the map has it
  abbrev pub text_of : CustomResourceDefinition → Text
  text_of crd = without_returns (t.marshal (record crd { status = none }))

  -- what the map in the file holds, name by name
  unfoldable pub described : Crds → List String → Option (List (Text × Text))
  described crds [] = some []
  described crds (name ∷ names) = elim (find_crd name crds) [
    | none ↦ none
    | some crd ↦ elim (described crds names) [
      | none ↦ none
      | some es ↦ some ((codes name, text_of crd) ∷ es)
    ]
  ]

  abbrev pub all_plain : List String → Bool
  all_plain names = all (λ name. all is_plain (codes name)) names

  abbrev pub all_found : Crds → List String → Bool
  all_found crds names = all (λ name. is_some (find_crd name crds)) names

  entries_of-entries :
      (crds : Crds) (names : List String)
      → all_plain names ≡ true
      → all_found crds names ≡ true
      → (text : Text) × (es : List (Text × Text)) × (entries t crds names ≡ some text)
        × (described crds names ≡ some es)
        × (entries_of (suc (length names)) text ≡ some es)
  unfolding entries described entry entries_of all
  entries_of-entries crds [] plain found = (footer, [], refl, refl, refl)
  entries_of-entries crds (name ∷ names) plain found = elim (Option-cases (find_crd name crds)) [
    | inl e ↦ absurd (ground arith)
    | inr (crd, e) ↦ with_entry crd e (entries_of-entries crds names (ground arith) (ground arith))
  ]
    where
      with_entry :
          (crd : CustomResourceDefinition)
          → find_crd name crds ≡ some crd
          → (text : Text) × (es : List (Text × Text)) × (entries t crds names ≡ some text)
            × (described crds names ≡ some es)
            × (entries_of (suc (length names)) text ≡ some es)
          → (text : Text) × (es : List (Text × Text)) × (entries t crds (name ∷ names) ≡ some text)
            × (described crds (name ∷ names) ≡ some es)
            × (entries_of (suc (suc (length names))) text ≡ some es)
      with_entry crd e (text, es, printed, told, read) = (
        entry (codes name) (t.marshal (record crd { status = none })) text,
        (codes name, text_of crd) ∷ es,
        rw (e, printed, entries) refl,
        rw (e, told, described) refl,
        entries_of-cons (suc (length names))
            (entry (codes name) (t.marshal (record crd { status = none })) text) text
            (codes name, text_of crd) es refl
            (entry_of-entry (codes name) (t.marshal (record crd { status = none })) text
              (ground arith))
            read,
      )

all_mono :
    (p q : String → Bool) (names : List String)
    → ((n : String) → p n ≡ true → q n ≡ true)
    → all p names ≡ true
    → all q names ≡ true
unfolding all
all_mono p q [] more h = refl
all_mono p q (n ∷ names) more h = ground (arith, more n, all_mono p q names more)

find_crd-cons :
    (n name : String) (c : CustomResourceDefinition) (crds : Crds)
    → is_some (find_crd name crds) ≡ true
    → is_some (find_crd name ((n, c) ∷ crds)) ≡ true
unfolding find_crd
find_crd-cons n name c crds h = ground arith

find_crd-head :
    (n : String) (c : CustomResourceDefinition) (crds : Crds)
    → is_some (find_crd n ((n, c) ∷ crds)) ≡ true
unfolding find_crd
find_crd-head n c crds = rw (eq_refl n) refl

names_of-all_found : (t : Tools) (crds : Crds) → all_found t crds (names_of t crds) ≡ true
unfolding all
names_of-all_found t [] = refl
names_of-all_found t ((n, c) ∷ crds) =
    let found = names_of-all_found t crds in
    let later = all_mono _ _ (names_of t crds) (λ name. find_crd-cons n name c crds) found in
    rw (later, find_crd-head n c crds) refl

-- `sort.Strings` only changes the order
abbrev pub Sorts : Tools → Type 0
Sorts t = (p : String → Bool) (names : List String) → all p (t.sort names) ≡ all p names

-- the file behind its four lines in front of the entries
abbrev pub body_of : Text → Text
body_of file = skip_line (skip_line (skip_line (skip_line file)))

-- If sorting only changes the order, and the names of the definitions hold no quote, backslash or line
-- feed, then the Go file is written, and the literal of the map in it is read back by Go: its keys are
-- the names in the sorted order, and the value of each is the text of its definition without the
-- status, whatever backticks it holds; only carriage returns are lost.
pub generate_go_file-Readable :
    (t : Tools) (crds : Crds)
    → Sorts t
    → all_plain t (names_of t crds) ≡ true
    → (file : Text) × (es : List (Text × Text)) × (generate_go_file t crds ≡ some file)
      × (described t crds (t.sort (names_of t crds)) ≡ some es)
      × (entries_of (suc (length (t.sort (names_of t crds)))) (body_of file) ≡ some es)
unfolding generate_go_file skip_line
generate_go_file-Readable t crds sorts plain =
    let names = t.sort (names_of t crds) in
    let (text, es, printed, told, read) =
      entries_of-entries t crds names (sorts _ (names_of t crds) ∙ plain)
        (sorts _ (names_of t crds) ∙ names_of-all_found t crds) in
    (header text, es, rw (printed, generate_go_file) refl, told, read)
