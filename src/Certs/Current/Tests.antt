-- ===== src/Certs/Current/Tests.antt =====
-- The secret's manager and the handshake, on the small encoding of Pem/Toy.
use maroonedpods.Prelude.{
  ℕ, ◌≡◌, refl, ◌≢◌, ◌⊎◌, none, some, [], ◌∷◌, arith, eq_iff, ok, err, failure, concat,
  if◌then◌else◌, ◌==◌,
}
use maroonedpods.Certs.Pem.{parse_certs_pem, is_plain_certificate}
use maroonedpods.Certs.Pem.Toy.{toy, toy_shrinks}
use maroonedpods.Certs.Current.{
  Tls, Secret, Certificate, SecretManager, Store, load_pair, new_secret_manager, handshake,
}
use maroonedpods.Certs.Current.Serving.{Loads, polls, Seen, polls-Seen, handshake_served}

abbrev tls : Tls
tls = record { x509 = toy; Pair = ℕ; key_pair = λ c k. ok 5 }

abbrev secret : Secret
secret = record {
  resource_version = "17";
  data_at = λ key. if key == "tls.crt" then 1 ∷ [] else 2 ∷ [];
}

abbrev filled : Store tls
filled = λ key. if key == "mp/cert" then ok (some secret) else ok none

abbrev broken : Store tls
broken = λ key. err (failure "index error")

abbrev manager : SecretManager tls
manager = record {
  secret_key = "mp/cert";
  tls_crt = "tls.crt";
  tls_key = "tls.key";
  revision = "";
  crt = none;
}

abbrev crt : Certificate tls
crt = record { pair = 5; leaf = 41 }

manager_is_new : new_secret_manager tls "cert" "mp" ≡ manager
unfolding new_secret_manager concat
manager_is_new = refl

loads : Loads tls filled manager secret crt
unfolding load_pair parse_certs_pem is_plain_certificate
loads = record { stored = refl; loads = refl }

new_revision : secret.resource_version ≢ manager.revision
new_revision = ground (arith, eq_iff "17" "")

polls-Seen_example :
    (s' : SecretManager tls) × (polls tls (broken ∷ filled ∷ []) manager ≡ some s')
    × ((s'.crt ≡ manager.crt)
        ⊎ ((c : Certificate tls) × (s'.crt ≡ some c) × Seen tls manager c (broken ∷ filled ∷ [])))
polls-Seen_example = polls-Seen tls toy_shrinks (broken ∷ filled ∷ []) manager

handshake_served_example :
    (s' : SecretManager tls) × (c : Certificate tls) × (handshake tls crt broken manager
      ≡ some (s', ok c))
    × ((s'.crt ≡ some c) ⊎ ((s'.crt ≡ none) × (c ≡ crt)))
handshake_served_example = handshake_served tls toy_shrinks crt broken manager
