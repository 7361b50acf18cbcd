-- ===== src/Build/GoSource.antt =====
-- How Go reads the file: lines to skip, and the entries of a literal of a map of strings, whose values
-- are raw and interpreted string literals joined by +. Of an interpreted literal no escape is read.
use maroonedpods.Prelude.{ℕ, zero, suc, nat_eq, Option, none, some, List, [], ◌∷◌, if◌then◌else◌}
use maroonedpods.Build.Crds.{Text}

abbrev pub with_head : ℕ → Option (Text × Text) → Option (Text × Text)
with_head c none = none
with_head c (some (value, rest)) = some (c ∷ value, rest)

-- before an operand, in a raw literal, in an interpreted one, behind an operand
pub data Mode : Type 0 where
  before raw quoted behind : Mode

-- the value of the expression up to its comma, and what follows the comma; a raw literal drops carriage
-- returns
unfoldable pub value_of : Mode → Text → Option (Text × Text)
value_of mode [] = none
value_of before (c ∷ s) =
    let operand = value_of raw s in
    let text = value_of quoted s in
    let blank = value_of before s in
    if nat_eq c 96
    then operand
    else if nat_eq c 34
    then text
    else if nat_eq c 32
    then blank
    else none
value_of raw (c ∷ s) =
    let end = value_of behind s in
    let rest = value_of raw s in
    if nat_eq c 96 then end else if nat_eq c 13 then rest else with_head c rest
value_of quoted (c ∷ s) =
    let end = value_of behind s in
    let rest = value_of quoted s in
    if nat_eq c 34
    then end
    else if nat_eq c 92
    then none
    else if nat_eq c 10
    then none
    else with_head c rest
value_of behind (c ∷ s) =
    let operand = value_of before s in
    let blank = value_of behind s in
    if nat_eq c 44
    then some ([], s)
    else if nat_eq c 43
    then operand
    else if nat_eq c 32
    then blank
    else none

-- a key, up to its quote
unfoldable pub key_of : Text → Option (Text × Text)
key_of [] = none
key_of (c ∷ s) =
    let rest = key_of s in
    if nat_eq c 34
    then some ([], s)
    else if nat_eq c 92
    then none
    else if nat_eq c 10
    then none
    else with_head c rest

-- the rest, if the text begins with the code point
abbrev pub expect : ℕ → Text → Option Text
expect d [] = none
expect d (c ∷ s) = if nat_eq c d then some s else none

infixl 4 ◌>>=?◌
abbrev pub ◌>>=?◌ {ℓ κ} : {A : Type ℓ} {B : Type κ} → Option A → (A → Option B) → Option B
none >>=? f = none
some a >>=? f = f a

-- a line: tab, key, colon and blank, value, line feed
unfoldable pub entry_of : Text → Option ((Text × Text) × Text)
unfolding key_of value_of
entry_of s = expect 9 s >>=? expect 34 >>=? key_of >>=? λ k.
    expect 58 k.1 >>=? expect 32 >>=? value_of before >>=? λ v.
    expect 10 v.1 >>=? λ rest. some ((k.0, v.0), rest)

-- the entries up to the brace, at most as many as there is fuel
unfoldable pub entries_of : ℕ → Text → Option (List (Text × Text))
unfolding entry_of
entries_of zero s = none
entries_of (suc fuel) s = elim (expect 125 s) [
  | some _ ↦ some []
  | none ↦ entry_of s >>=? λ e. entries_of fuel e.1 >>=? λ es. some (e.0 ∷ es)
]

unfoldable pub skip_line : Text → Text
skip_line [] = []
skip_line (c ∷ s) = let rest = skip_line s in if nat_eq c 10 then s else rest
