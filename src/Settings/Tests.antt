-- ===== src/Settings/Tests.antt =====
-- Names of suites, a namespace, and a client that is not made.
use maroonedpods.Prelude.{ℕ, ◌≡◌, refl, none, List, [], ◌∷◌, map, Result, ok, err, failure}
use maroonedpods.Settings.{
  CipherSuite, find_id, cipher_suite_name_map, known_ids, put_suites, cipher_suite_ids,
  get_namespace, tls_version, client_of, error_of,
}
use maroonedpods.Settings.Once.{fresh, get_clients, get_clients-first}

abbrev suites : List CipherSuite
suites = record { name = "A"; id = 1 } ∷ record { name = "B"; id = 2 } ∷ []

abbrev insecure : List CipherSuite
insecure = record { name = "B"; id = 9 } ∷ []

ids : cipher_suite_ids suites insecure ("B" ∷ "C" ∷ "A" ∷ []) ≡ 9 ∷ 1 ∷ []
unfolding cipher_suite_ids cipher_suite_name_map known_ids find_id put_suites
ids = refl

default_namespace : get_namespace (λ s. s) (ok "") ≡ "maroonedpods"
unfolding get_namespace
default_namespace = refl

version : tls_version "VersionTLS13" ≡ 772
unfolding tls_version
version = refl

abbrev refused : Result ℕ
refused = err (failure "no configuration")

abbrev later : List (Result ℕ)
later = ok 1 ∷ ok 2 ∷ []

get_clients-first_example :
    get_clients fresh (refused ∷ later)
    ≡ (client_of refused, error_of refused) ∷ map (λ _. (client_of refused, none)) later
get_clients-first_example = get_clients-first refused later
