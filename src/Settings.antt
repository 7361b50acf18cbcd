-- ===== src/Settings.antt =====
-- What the programs take from their surroundings: the namespace and the TLS names of pkg/util/util.go,
-- the client of pkg/client/maroonedpodsCli.go, and the watch of pkg/maroonedpods-operator/cruft.go.
pub mod Suites
pub mod Once
pub mod Watched
pub mod Tests
use maroonedpods.Prelude.{
  ℕ, String, ◌==◌, Bool, true, false, Option, none, some, List, [], ◌∷◌, ◌++◌, Result, ok, err,
  Error, if◌then◌else◌, nat_eq, not,
}
use maroonedpods.Cr.{Cluster, get_active_maroonedpods}

-- `read` is the file of the service account, and `trim_space` strings.TrimSpace
unfoldable pub get_namespace : (String → String) → Result String → String
get_namespace trim_space (err e) = "maroonedpods"
get_namespace trim_space (ok data_) =
    if trim_space data_ == "" then "maroonedpods" else trim_space data_

-- the names of github.com/openshift/api, and the numbers of crypto/tls
unfoldable pub tls_version : String → ℕ
tls_version version =
    if version == "VersionTLS10"
    then 769
    else if version == "VersionTLS11"
    then 770
    else if version == "VersionTLS12"
    then 771
    else if version == "VersionTLS13"
    then 772
    else 771

pub record CipherSuite : Type 0 where
  pub name : String
  pub id : ℕ

-- a map from names to numbers, with one entry for a name
abbrev pub Ids : Type 0
Ids = List (String × ℕ)

unfoldable pub put_id : String → ℕ → Ids → Ids
put_id name id [] = (name, id) ∷ []
put_id name id ((n, i) ∷ ids) = if n == name then (n, id) ∷ ids else (n, i) ∷ put_id name id ids

unfoldable pub find_id : String → Ids → Option ℕ
find_id name [] = none
find_id name ((n, i) ∷ ids) = if n == name then some i else find_id name ids

unfoldable pub put_suites : List CipherSuite → Ids → Ids
unfolding put_id
put_suites [] ids = ids
put_suites (s ∷ suites) ids = put_suites suites (put_id s.name s.id ids)

-- the arguments are crypto/tls's two lists
unfoldable pub cipher_suite_name_map : List CipherSuite → List CipherSuite → Ids
cipher_suite_name_map suites insecure = put_suites insecure (put_suites suites [])

unfoldable pub known_ids : Ids → List String → List ℕ
known_ids ids [] = []
known_ids ids (name ∷ names) = elim (find_id name ids) [
  | none ↦ known_ids ids names
  | some id ↦ id ∷ known_ids ids names
]

unfoldable pub cipher_suite_ids : List CipherSuite → List CipherSuite → List String → List ℕ
cipher_suite_ids suites insecure names = known_ids (cipher_suite_name_map suites insecure) names

-- the package's variables: whether `once` has run, and the client, which is nil before
pub record Package (Client : Type 0) : Type 0 where
  pub done : Bool
  pub client : Option Client

abbrev pub client_of {ℓ} : {C : Type ℓ} → Result C → Option C
client_of (ok c) = some c
client_of (err _) = none

abbrev pub error_of {ℓ} : {C : Type ℓ} → Result C → Option Error
error_of (ok _) = none
error_of (err e) = some e

-- `GetMaroonedPodsClient`; `made` is what making a client would give. A failure assigns nil.
unfoldable pub get_client :
    {C : Type 0} → Package C → Result C → Package C × (Option C × Option Error)
get_client p made =
    if p.done
    then (p, (p.client, none))
    else (record { done = true; client = client_of made }, (client_of made, error_of made))

-- the map function of `watchMaroonedPodsCRD`: the requests for an object, where `none` is the read of
-- the name of a nil resource
unfoldable pub watch_requests : Cluster → String → Option (List String)
watch_requests c name =
    if not (name == "mps.maroonpods.io") then some [] else elim (get_active_maroonedpods c) [
      | err e ↦ some []
      | ok active ↦ elim active [ none ↦ none | some cr ↦ some (cr.name ∷ []) ]
    ]
