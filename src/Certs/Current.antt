-- ===== src/Certs/Current.antt =====
-- pkg/certificates/bootstrap/cert-manager.go: the manager that serves the certificate of a secret,
-- the fallback around it, and pkg/util/util.go's `SetupTLS`, which hands their certificate to TLS.
-- `none` is a crash: an index out of range, or a loop that ran out of fuel.
pub mod Serving
pub mod Tests
use maroonedpods.Prelude.{
  ℕ, String, ◌==◌, Bool, true, false, Option, none, some, List, [], ◌∷◌, Result, ok, err, Error,
  failure, concat, if◌then◌else◌, ◌>>=◌,
}
use maroonedpods.Certs.Pem.{Bytes, X509, Parsed, parse_certs_pem}

-- crypto/x509 and crypto/tls, at what the managers call
pub record Tls : Type 1 where
  pub x509 : X509
  pub Pair : Type 0
  pub key_pair : Bytes → Bytes → Result Pair

-- k8s.io/api/core/v1; a missing key of the data reads as no bytes
pub record Secret : Type 0 where
  pub resource_version : String
  pub data_at : String → Bytes

abbrev pub cert_bytes_value : String
cert_bytes_value = "tls.crt"

abbrev pub key_bytes_value : String
key_bytes_value = "tls.key"

module _ (t : Tls) where
  open t use {x509, Pair, key_pair}

  -- `tls.Certificate` with its `Leaf`
  pub record Certificate : Type 0 where
    pub pair : Pair
    pub leaf : x509.Certificate

  -- `crt.Leaf = leaf[0]`, where `ParseCertsPEM` gave no error
  with_leaf : Pair → Parsed x509.Certificate → Option (Result Certificate)
  with_leaf pair p = elim p.error [
    | some e ↦ some (err e)
    | none ↦ elim p.certs [ [] ↦ none | leaf ∷ _ ↦ some (ok (record { pair = pair; leaf = leaf })) ]
  ]

  -- `X509KeyPair`, then `ParseCertsPEM` for the leaf
  unfoldable pub load_pair : Bytes → Bytes → Option (Result Certificate)
  unfolding with_leaf
  load_pair cert_bytes key_bytes = elim (key_pair cert_bytes key_bytes) [
    | err e ↦ some (err e)
    | ok pair ↦ elim (parse_certs_pem x509 cert_bytes) [ none ↦ none | some p ↦ with_leaf pair p ]
  ]

  -- the fields that `Current` reads and writes
  pub record SecretManager : Type 0 where
    pub secret_key : String
    pub tls_crt : String
    pub tls_key : String
    pub revision : String
    pub crt : Option Certificate

  -- `GetByKey` of the informer's store: an error, or the secret if it exists
  abbrev pub Store : Type 0
  Store = String → Result (Option Secret)

  unfoldable pub new_secret_manager : String → String → SecretManager
  new_secret_manager name namespace = record {
    secret_key = concat (namespace ∷ "/" ∷ name ∷ []);
    tls_crt = cert_bytes_value;
    tls_key = key_bytes_value;
    revision = "";
    crt = none;
  }

  -- what `Current` does with a secret of a new revision
  refresh : SecretManager → Secret → Option (SecretManager × Option Certificate)
  refresh s secret = elim (load_pair (secret.data_at s.tls_crt) (secret.data_at s.tls_key)) [
    | none ↦ none
    | some loaded ↦ elim loaded [
      | err e ↦ some (s, s.crt)
      | ok crt ↦ some (record s { revision = secret.resource_version; crt = some crt }, some crt)
    ]
  ]

  unfoldable pub secret_current :
      Store → SecretManager → Option (SecretManager × Option Certificate)
  unfolding refresh
  secret_current store s = elim (store s.secret_key) [
    | err e ↦ some (s, s.crt)
    | ok found ↦ elim found [
      | none ↦ some (s, s.crt)
      | some secret ↦
          if secret.resource_version == s.revision then some (s, s.crt) else refresh s secret
    ]
  ]

  -- `FallbackCertificateManager.Current`, given what the manager inside it returned
  unfoldable pub fallback_current : Certificate → Option Certificate → Option Certificate
  fallback_current fallback crt = elim crt [ some c ↦ some c | none ↦ some fallback ]

  -- `GetCertificate` of the configuration that `SetupTLS` makes
  unfoldable pub get_certificate : Option Certificate → Result Certificate
  get_certificate current = elim current [
    | none ↦ err (failure "No server certificate, server is not yet ready to receive traffic")
    | some c ↦ ok c
  ]

  -- a TLS handshake of the controller: a fallback manager around a secret manager, under `SetupTLS`
  unfoldable pub handshake :
      Certificate → Store → SecretManager → Option (SecretManager × Result Certificate)
  handshake fallback store s = elim (secret_current store s) [
    | none ↦ none
    | some r ↦ some (r.0, get_certificate (fallback_current fallback r.1))
  ]
