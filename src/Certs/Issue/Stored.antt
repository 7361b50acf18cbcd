-- ===== src/Certs/Issue/Stored.antt =====
-- pkg/certificates/certificates.go, and `NewFallbackCertificateManager` of bootstrap/cert-manager.go:
-- the two certificates that a program issues to itself. `none` is a panic; both drop the errors of
-- the issuing, so that a key pair is nil where it failed.
use maroonedpods.Prelude.{
  ℕ, ◌*◌, String, Option, none, some, [], ◌∷◌, Result, ok, err, Error, concat,
}
use maroonedpods.Certs.Pem.{Bytes, X509, ecdsa_private}
use maroonedpods.Certs.Pem.Encode.{Encoder, encode_cert_pem, encode_private_key_pem}
use maroonedpods.Certs.Current.{Tls, Certificate}
use maroonedpods.Certs.Crypto.{Crypto}
use maroonedpods.Certs.Issue.{KeyPair, new_ca, new_server_key_pair}

-- client-go's store of certificate files
pub record Files : Type 1 where
  pub State : Type 0
  pub new_file_store : State → String → String → State × Option Error
  pub update : State → Bytes → Bytes → State × Option Error

abbrev pub day : ℕ
day = 86400

abbrev pub pair_of {ℓ} : {A : Type ℓ} → Result A → Option A
pair_of (ok pair) = some pair
pair_of (err _) = none

module _ (x : X509) (c : Crypto x) where
  unfoldable pub without_error :
      Option (c.State × Result (KeyPair x c)) → Option (c.State × Option (KeyPair x c))
  without_error none = none
  without_error (some (st, made)) = some (st, pair_of made)

  -- `NewCA` and `NewServerKeyPair`, with their errors dropped
  unfoldable pub self_issued :
      c.State → String → String → String → ℕ → Option (c.State × Option (KeyPair x c))
  self_issued st common_name name namespace duration =
      let (st1, ca) = new_ca x c st "kubevirt.io" (7 * day) in
      without_error (
        new_server_key_pair x c st1 (pair_of ca) common_name name namespace "cluster.local" [] []
          duration)

  -- the common name of `GenerateSelfSignedCert`
  abbrev pub pod_name : String → String → String
  pod_name name namespace = concat (name ∷ "." ∷ namespace ∷ ".pod.cluster.local" ∷ [])

  module _ (e : Encoder x) (files : Files) where
    unfoldable pub stored : files.State → Option (KeyPair x c) → Option (files.State × Option Error)
    stored disk none = none
    stored disk (some pair) = some (
        files.update disk (encode_cert_pem x e pair.cert)
          (encode_private_key_pem x e (ecdsa_private pair.key)))

    -- the states after, and the error; the store that is returned is a handle of the files
    unfoldable pub generate_self_signed_cert :
        c.State
        → files.State
        → String
        → String
        → String
        → Option (c.State × files.State × Option Error)
    generate_self_signed_cert st disk certs_directory name namespace =
        elim (self_issued st (pod_name name namespace) name namespace day) [
          | none ↦ none
          | some made ↦
              let (disk1, opened) = files.new_file_store disk name certs_directory in
              elim opened [
                | some failed ↦ some (made.0, disk1, some failed)
                | none ↦ elim (stored disk1 made.1) [
                  | none ↦ none
                  | some done ↦ some (made.0, done.0, done.1)
                ]
              ]
        ]

module _ (t : Tls) (c : Crypto t.x509) (e : Encoder t.x509) where
  unfoldable pub fallback_of : Option (KeyPair t.x509 c) → Option (Certificate t)
  fallback_of none = none
  fallback_of (some pair) =
      elim (t.key_pair (encode_cert_pem t.x509 e pair.cert)
        (encode_private_key_pem t.x509 e (ecdsa_private pair.key))) [
          | err failed ↦ none
          | ok crt ↦ some (record { pair = crt; leaf = pair.cert })
        ]

  -- the certificate of the manager, whose other field is the argument; a pair that does not fit is
  -- logged as critical, which panics
  unfoldable pub new_fallback_certificate : c.State → Option (c.State × Certificate t)
  new_fallback_certificate st =
      elim (self_issued t.x509 c st "fallback.certificate.kubevirt.io" "fallback" "fallback"
        (3560 * day)) [
          | none ↦ none
          | some made ↦ elim (fallback_of made.1) [ none ↦ none | some crt ↦ some (made.0, crt) ]
        ]
