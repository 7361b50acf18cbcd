-- ===== src/Certs/Issue/Readable.antt =====
-- What a program that issues a certificate to itself can read back, and what it is for.
use maroonedpods.Prelude.{
  ℕ, ◌*◌, String, ◌≡◌, ◌≢◌, ap, ◌∙◌, sym, Option, none, some, List, [], ◌∷◌, ◌++◌, Result, ok, err,
  arith, Option-cases, Result-cases, inl, inr,
}
use mathlib.Core.List.{append-nil}
use maroonedpods.Certs.Pem.{
  Bytes, X509, ec_private_key_block_type, ecdsa_private, parse_certs_pem, parse_private_key_pem,
}
use maroonedpods.Certs.Pem.Blocks.{Shrinks}
use maroonedpods.Certs.Pem.Encode.{
  Encoder, IsEncoder, ec_key, plain_block, encode_cert_pem, encode_certs, encode_private_key_pem,
}
use maroonedpods.Certs.Pem.ReadBack.{parse_certs_pem-encode_certs, parse_private_key_pem-encode}
use maroonedpods.Certs.Current.{Tls, Certificate}
use maroonedpods.Certs.Crypto.{Crypto, IsCrypto}
use maroonedpods.Certs.Issue.{
  KeyPair, new_ca, new_server_key_pair, signed_pair, service_names, parsed_ips,
}
use maroonedpods.Certs.Issue.Signed.{IsServing, new_server_key_pair-IsServing}
use maroonedpods.Certs.Issue.Stored.{
  Files, day, pair_of, self_issued, without_error, pod_name, stored, generate_self_signed_cert,
  fallback_of, new_fallback_certificate,
}

module _ (x : X509) (c : Crypto x) where
  without_error-some :
      (r : Option (c.State × Result (KeyPair x c))) (st : c.State) (pair : KeyPair x c)
      → without_error x c r ≡ some (st, some pair)
      → r ≡ some (st, ok pair)
  unfolding without_error
  without_error-some none st pair h = absurd (ground arith)
  without_error-some (some (st', err e)) st pair h = absurd (ground arith)
  without_error-some (some (st', ok made)) st pair h = ground arith

  -- without an authority there is no pair: an error, or the panic
  no_authority :
      (st st' : c.State) (common_name name namespace domain : String) (ips hosts : List String)
      (d : ℕ) (pair : KeyPair x c)
      → new_server_key_pair x c st none common_name name namespace domain ips hosts d
        ≢ some (st', ok pair)
  unfolding new_server_key_pair signed_pair
  no_authority st st' common_name name namespace domain ips hosts d pair h =
      elim (Result-cases (c.generate_key st).1) [
        | inr (e, failed) ↦ ground arith
        | inl (key, drawn) ↦ ground arith
      ]

  -- the pair is that of a server, for the names of the service
  abbrev pub SelfIssued : KeyPair x c → String → String → String → Type 0
  SelfIssued pair common_name name namespace =
      (ca : KeyPair x c) × IsServing x c ca pair common_name
        (service_names x c name namespace "cluster.local") []

  self_issued-SelfIssued :
      (st st' : c.State) (common_name name namespace : String) (d : ℕ) (pair : KeyPair x c)
      → IsCrypto x c
      → self_issued x c st common_name name namespace d ≡ some (st', some pair)
      → SelfIssued pair common_name name namespace
  unfolding self_issued parsed_ips
  self_issued-SelfIssued st st' common_name name namespace d pair laws h =
      let (st1, made) = new_ca x c st "kubevirt.io" (7 * day) in
      let issued = without_error-some _ st' pair h in
      elim (Result-cases made) [
        | inr (e, failed) ↦
            let without : new_server_key_pair x c st1 none common_name name namespace
                  "cluster.local" [] [] d
                ≡ some (st', ok pair) =
              ap
                (λ r.
                  new_server_key_pair x c st1 (pair_of r) common_name name namespace "cluster.local"
                    [] [] d)
                (sym failed)
              ∙ issued in
            absurd
              (no_authority st1 st' common_name name namespace "cluster.local" [] [] d pair without)
        | inl (ca, authority) ↦
            let under : new_server_key_pair x c st1 (some ca) common_name name namespace
                  "cluster.local" [] [] d
                ≡ some (st', ok pair) =
              ap
                (λ r.
                  new_server_key_pair x c st1 (pair_of r) common_name name namespace "cluster.local"
                    [] [] d)
                (sym authority)
              ∙ issued in
            (
              ca,
              new_server_key_pair-IsServing x c laws st1 st' ca pair common_name name namespace
                  "cluster.local" [] [] d under,
            )
      ]

  module _ (e : Encoder x) (files : Files) where
    -- what was written is read back: the certificate, and the key
    pub record Readable (pair : KeyPair x c) (cert_pem key_pem : Bytes) : Type 0 where
      pub cert : parse_certs_pem x cert_pem ≡ some (record { certs = pair.cert ∷ []; error = none })
      pub key : parse_private_key_pem x key_pem ≡ some (ok (ecdsa_private pair.key))

    -- a key that was generated is on a curve that x509 marshals
    abbrev pub Marshals : Type 0
    Marshals = (key : x.EcdsaPrivate) → (der : Bytes) × (e.marshal_ec_private_key key ≡ ok der)

    -- what was encoded is decoded, and nothing is not
    encoded_key-ne-nil :
        (key : x.EcdsaPrivate)
        → IsEncoder x e
        → Marshals
        → encode_private_key_pem x e (ecdsa_private key) ≢ []
    unfolding encode_private_key_pem
    encoded_key-ne-nil key laws marshals empty =
        let (der, marshalled) = marshals key in
        let block = plain_block ec_private_key_block_type der in
        let nothing : e.encode_to_memory block ≡ [] = ground arith in
        let decoded = laws.decode_encoded ec_private_key_block_type der [] ec_key in
        let of_nothing : (x.decode []).0 ≡ some block =
          ap (λ bs. (x.decode (bs ++ [])).0) (sym nothing) ∙ ap (λ r. r.0) decoded in
        absurd (ground (arith, of_nothing, laws.decode_nothing))

    encoded-Readable :
        (pair : KeyPair x c)
        → IsEncoder x e
        → Marshals
        → Shrinks x
        → Readable pair
            (encode_cert_pem x e pair.cert)
            (encode_private_key_pem x e (ecdsa_private pair.key))
    unfolding encode_certs
    encoded-Readable pair laws marshals shrinks = record {
      cert =
          ap (parse_certs_pem x) (sym (append-nil (encode_cert_pem x e pair.cert)))
          ∙ parse_certs_pem-encode_certs x e laws pair.cert [] shrinks;
      key =
          parse_private_key_pem-encode x e laws (ecdsa_private pair.key) shrinks
            (encoded_key-ne-nil pair.key laws marshals);
    }

    -- If the encoding is read back, keys can be marshalled, and created certificates have the fields of
    -- their templates, then
    -- `GenerateSelfSignedCert` without an error has written a certificate and a key to the files that
    -- the parsers of the package read back, and that serve the given name in the namespace.
    pub generate_self_signed_cert-Readable :
        (st st' : c.State) (disk disk' : files.State) (certs_directory name namespace : String)
        → IsCrypto x c
        → IsEncoder x e
        → Marshals
        → Shrinks x
        → generate_self_signed_cert x c e files st disk certs_directory name namespace
          ≡ some (st', disk', none)
        → (pair : KeyPair x c) × (disk1 : files.State) × (cert_pem : Bytes) × (key_pem : Bytes)
          × (files.update disk1 cert_pem key_pem ≡ (disk', none))
          × Readable pair cert_pem key_pem
          × SelfIssued pair (pod_name x c name namespace) name namespace
    unfolding generate_self_signed_cert stored
    generate_self_signed_cert-Readable st st' disk disk' certs_directory name namespace laws codec
          marshals shrinks h =
        elim (Option-cases (self_issued x c st (pod_name x c name namespace) name namespace day)) [
          | inl crashed ↦ absurd (ground arith)
          | inr (made, issued) ↦
              elim (Option-cases (files.new_file_store disk name certs_directory).1) [
                | inr (failed, refused) ↦ absurd (ground arith)
                | inl opened ↦ elim (Option-cases made.1) [
                  | inl nothing ↦ absurd (ground arith)
                  | inr (pair, has) ↦
                      let disk1 = (files.new_file_store disk name certs_directory).0 in
                      let cert_pem = encode_cert_pem x e pair.cert in
                      let key_pem = encode_private_key_pem x e (ecdsa_private pair.key) in
                      let updated : files.update disk1 cert_pem key_pem ≡ (disk', none) =
                        ground arith in
                      let made_pair : self_issued x c st (pod_name x c name namespace) name
                            namespace day
                          ≡ some (made.0, some pair) =
                        issued ∙ ap (λ r. some (made.0, r)) has in
                      (
                        pair,
                        disk1,
                        cert_pem,
                        key_pem,
                        updated,
                        encoded-Readable pair codec marshals shrinks,
                        self_issued-SelfIssued st made.0 (pod_name x c name namespace) name
                            namespace day pair laws made_pair,
                      )
                ]
              ]
        ]

-- If created certificates have the fields of their templates, the fallback certificate that a program
-- makes at its start is a pair that crypto/tls accepted, for the service "fallback" in the namespace
-- "fallback", and its leaf is the issued certificate.
pub new_fallback_certificate-SelfIssued :
    (t : Tls) (c : Crypto t.x509) (e : Encoder t.x509) (st st' : c.State) (crt : Certificate t)
    → IsCrypto t.x509 c
    → new_fallback_certificate t c e st ≡ some (st', crt)
    → (pair : KeyPair t.x509 c) × (crt.leaf ≡ pair.cert)
      × (t.key_pair
            (encode_cert_pem t.x509 e pair.cert)
            (encode_private_key_pem t.x509 e (ecdsa_private pair.key))
          ≡ ok crt.pair)
      × SelfIssued t.x509 c pair "fallback.certificate.kubevirt.io" "fallback" "fallback"
unfolding new_fallback_certificate fallback_of
new_fallback_certificate-SelfIssued t c e st st' crt laws h =
    elim (Option-cases (
      self_issued t.x509 c st "fallback.certificate.kubevirt.io" "fallback" "fallback"
        (3560 * day))) [
          | inl crashed ↦ absurd (ground arith)
          | inr (made, issued) ↦ elim (Option-cases made.1) [
            | inl nothing ↦ absurd (ground arith)
            | inr (pair, has) ↦
                elim (Result-cases (
                  t.key_pair (encode_cert_pem t.x509 e pair.cert)
                    (encode_private_key_pem t.x509 e (ecdsa_private pair.key)))) [
                      | inr (failed, refused) ↦ absurd (ground arith)
                      | inl (loaded, accepted) ↦
                          let made_pair : self_issued t.x509 c st "fallback.certificate.kubevirt.io"
                                "fallback" "fallback" (3560 * day)
                              ≡ some (made.0, some pair) =
                            issued ∙ ap (λ r. some (made.0, r)) has in
                          (
                            pair,
                            ground arith,
                            ground arith,
                            self_issued-SelfIssued t.x509 c st made.0
                                "fallback.certificate.kubevirt.io" "fallback" "fallback"
                                (3560 * day) pair laws made_pair,
                          )
                    ]
          ]
        ]
