-- ===== src/Settings/Suites.antt =====
-- Which number a name of a cipher suite stands for.
use maroonedpods.Prelude.{
  ℕ, String, ◌≡◌, refl, ◌==◌, eq_iff, Option, none, some, List, [], ◌∷◌, ◌++◌, if◌then◌else◌,
  Option-cases, inl, inr, arith,
}
use maroonedpods.Settings.{
  CipherSuite, Ids, put_id, find_id, put_suites, cipher_suite_name_map, known_ids, cipher_suite_ids,
}

-- the number of the last suite of the name
unfoldable pub last_id : String → List CipherSuite → Option ℕ
last_id name [] = none
last_id name (s ∷ suites) = elim (last_id name suites) [
  | some id ↦ some id
  | none ↦ if s.name == name then some s.id else none
]

unfoldable pub last_ids : List CipherSuite → List String → List ℕ
last_ids suites [] = []
last_ids suites (name ∷ names) = elim (last_id name suites) [
  | none ↦ last_ids suites names
  | some id ↦ id ∷ last_ids suites names
]

find_id-put_id :
    (k name : String) (id : ℕ) (ids : Ids)
    → find_id k (put_id name id ids) ≡ (if name == k then some id else find_id k ids)
unfolding find_id put_id
find_id-put_id k name id [] = refl
find_id-put_id k name id ((n, i) ∷ ids) =
    let rest = find_id-put_id k name id ids in
    ground (arith, eq_iff n name, eq_iff name k, eq_iff n k)

abbrev or_ids : Option ℕ → Option ℕ → Option ℕ
or_ids (some id) _ = some id
or_ids none other = other

find_id-put_suites :
    (k : String) (suites : List CipherSuite) (ids : Ids)
    → find_id k (put_suites suites ids) ≡ or_ids (last_id k suites) (find_id k ids)
unfolding put_suites last_id
find_id-put_suites k [] ids = refl
find_id-put_suites k (s ∷ suites) ids =
    let rest = find_id-put_suites k suites (put_id s.name s.id ids) in
    let this = find_id-put_id k s.name s.id ids in ground arith

last_id-append :
    (k : String) (suites others : List CipherSuite)
    → last_id k (suites ++ others) ≡ or_ids (last_id k others) (last_id k suites)
unfolding last_id
last_id-append k [] others = elim (Option-cases (last_id k others)) [
  | inl e ↦ ground arith
  | inr (id, e) ↦ ground arith
]
last_id-append k (s ∷ suites) others = let rest = last_id-append k suites others in ground arith

find_id-last_id :
    (suites insecure : List CipherSuite) (k : String)
    → find_id k (cipher_suite_name_map suites insecure) ≡ last_id k (suites ++ insecure)
unfolding cipher_suite_name_map find_id
find_id-last_id suites insecure k =
    let all = find_id-put_suites k insecure (put_suites suites []) in
    let some_ = find_id-put_suites k suites [] in
    let both = last_id-append k suites insecure in ground arith

-- The numbers for a list of names are those of the suites with these names, in the order of the names,
-- where a name that no suite has is left out, and a name that several suites have stands for the last
-- of them, an insecure one before a secure one.
pub cipher_suite_ids-last_ids :
    (suites insecure : List CipherSuite) (names : List String)
    → cipher_suite_ids suites insecure names ≡ last_ids (suites ++ insecure) names
unfolding cipher_suite_ids known_ids last_ids
cipher_suite_ids-last_ids suites insecure [] = refl
cipher_suite_ids-last_ids suites insecure (name ∷ names) =
    let rest = cipher_suite_ids-last_ids suites insecure names in
    let this = find_id-last_id suites insecure name in ground arith
