-- ===== src/Certs/Issue/Signed.antt =====
-- What the certificates that triple.go issues are: an authority, and a server's under it.
use maroonedpods.Prelude.{
  ℕ, ◌+◌, String, ◌≡◌, refl, ap, sym, nat_eq, length, ◌∙◌, ◌==◌, true, false, some, List, [], ◌∷◌,
  ◌++◌, Result, ok, err, arith, Result-cases, Bool-cases, inl, inr,
}
use maroonedpods.Certs.Pem.{Bytes, X509, ecdsa_public}
use maroonedpods.Certs.Crypto.{Template, KeyUsage, ExtKeyUsage, Crypto, IsCrypto}
use maroonedpods.Certs.Issue.{
  KeyPair, Config, new_self_signed_ca_cert, new_signed_cert, new_ca, new_server_key_pair,
  service_names, parsed_ips, parsed, signed_template, paired, signed_pair, ca_template, ca_config,
}

module _ (x : X509) (c : Crypto x) where
  -- the pair's certificate is for the pair's key, and signed with the key `signer`
  pub record IsSigned (pair : KeyPair x c) (signer : x.EcdsaPrivate) : Type 0 where
    pub key : x.certificate_key pair.cert ≡ ecdsa_public (x.ecdsa_public_of pair.key)
    pub signature : c.verifies pair.cert (x.ecdsa_public_of signer) ≡ true

  -- for the service's names and the hosts, and for servers only, from the start of the authority
  pub record IsServing (ca pair : KeyPair x c) (common_name : String)
      (hosts addresses : List String) : Type 0 where
    pub signed : IsSigned pair ca.key
    pub subject : (c.fields pair.cert).common_name ≡ common_name
    pub dns_names : (c.fields pair.cert).dns_names ≡ hosts
    pub ip_addresses : (c.fields pair.cert).ip_addresses ≡ addresses
    pub usage : (c.fields pair.cert).ext_key_usage ≡ ExtKeyUsage.server_auth ∷ []
    pub no_authority : (c.fields pair.cert).is_ca ≡ false
    pub start : (c.fields pair.cert).not_before ≡ (c.fields ca.cert).not_before

  -- self-signed, may sign certificates, and valid for the duration
  pub record IsAuthority (pair : KeyPair x c) (duration : ℕ) : Type 0 where
    pub signed : IsSigned pair pair.key
    pub authority : (c.fields pair.cert).is_ca ≡ true
    pub usage :
        (c.fields pair.cert).key_usage
        ≡ KeyUsage.key_encipherment ∷ KeyUsage.digital_signature ∷ KeyUsage.cert_sign ∷ []
    pub lifetime : (c.fields pair.cert).not_after ≡ (c.fields pair.cert).not_before + duration

  -- the fields, the key and the signature of a certificate
  abbrev Created : x.Certificate → Template → x.EcdsaPublic → x.EcdsaPrivate → Type 0
  Created cert tmpl public signer =
      (c.fields cert ≡ tmpl)
      × (x.certificate_key cert ≡ ecdsa_public public)
      × (c.verifies cert (x.ecdsa_public_of signer) ≡ true)

  parsed-ok :
      (r : c.State × Result Bytes) (st : c.State) (cert : x.Certificate)
      → parsed x c r ≡ (st, ok cert)
      → (st' : c.State) × (der : Bytes) × (r ≡ (st', ok der)) × (x.parse_certificate der ≡ ok cert)
  unfolding parsed
  parsed-ok (st', err e) st cert h = absurd (ground arith)
  parsed-ok (st', ok der) st cert h = (st', der, refl, ground arith)

  paired-ok :
      (r : c.State × Result x.Certificate) (prefix : String) (key : x.EcdsaPrivate) (st : c.State)
      (pair : KeyPair x c)
      → paired x c prefix key r ≡ (st, ok pair)
      → (r ≡ (st, ok pair.cert)) × (key ≡ pair.key)
  unfolding paired
  paired-ok (st', err e) prefix key st pair h = absurd (ground arith)
  paired-ok (st', ok cert) prefix key st pair h = (ground arith, ground arith)

  module _ (laws : IsCrypto x c) where
    parsed-Created :
        (st st' : c.State) (tmpl parent : Template) (public : x.EcdsaPublic)
        (signer : x.EcdsaPrivate) (cert : x.Certificate)
        → parsed x c (c.create_certificate st tmpl parent public signer) ≡ (st', ok cert)
        → Created cert tmpl public signer
    parsed-Created st st' tmpl parent public signer cert h =
        let (st1, der, made, read) =
          parsed-ok (c.create_certificate st tmpl parent public signer) st' cert h in
        laws.created st st1 tmpl parent public signer der cert made read

    new_signed_cert-Created :
        (st st' : c.State) (cfg : Config) (key : x.EcdsaPrivate) (ca_cert : x.Certificate)
        (ca_key : x.EcdsaPrivate) (duration : ℕ) (cert : x.Certificate)
        → new_signed_cert x c st cfg key ca_cert ca_key duration ≡ (st', ok cert)
        → (serial : ℕ) × (now : ℕ) × Created cert
            (signed_template x c cfg serial (c.fields ca_cert) now duration)
            (x.ecdsa_public_of key)
            ca_key
    unfolding new_signed_cert
    new_signed_cert-Created st st' cfg key ca_cert ca_key duration cert h =
        elim (Result-cases (c.rand_int st).1) [
          | inr (e, failed) ↦ absurd (ground arith)
          | inl (serial, drawn) ↦ elim (Bool-cases (cfg.common_name == "")) [
            | inl blank ↦ absurd (ground arith)
            | inr named ↦ elim (Bool-cases (nat_eq (length cfg.usages) 0)) [
              | inl useless ↦ absurd (ground arith)
              | inr used ↦
                  let st1 = (c.rand_int st).0 in
                  let st2 = (c.now st1).0 in
                  let now = (c.now st1).1 in
                  let h' : parsed x c (
                        c.create_certificate st2
                          (signed_template x c cfg serial (c.fields ca_cert) now duration)
                          (c.fields ca_cert) (x.ecdsa_public_of key) ca_key)
                      ≡ (st', ok cert) =
                    ground arith in
                  (
                    serial,
                    now,
                    parsed-Created st2 st' _ (c.fields ca_cert) (x.ecdsa_public_of key) ca_key cert
                        h',
                  )
            ]
          ]
        ]

    signed_pair-Created :
        (st st' : c.State) (ca pair : KeyPair x c) (cfg : Config) (no_key no_cert : String)
        (duration : ℕ)
        → signed_pair x c st (some ca) cfg no_key no_cert duration ≡ some (st', ok pair)
        → (serial : ℕ) × (now : ℕ) × Created pair.cert
            (signed_template x c cfg serial (c.fields ca.cert) now duration)
            (x.ecdsa_public_of pair.key)
            ca.key
    unfolding signed_pair
    signed_pair-Created st st' ca pair cfg no_key no_cert duration h =
        elim (Result-cases (c.generate_key st).1) [
          | inr (e, failed) ↦ absurd (ground arith)
          | inl (key, made) ↦
              let st1 = (c.generate_key st).0 in
              let h' : paired x c no_cert key
                    (new_signed_cert x c st1 cfg key ca.cert ca.key duration)
                  ≡ (st', ok pair) =
                ground arith in
              let (signed, same) = paired-ok _ no_cert key st' pair h' in
              new_signed_cert-Created st1 st' cfg pair.key ca.cert ca.key duration pair.cert (
                ap (λ k. new_signed_cert x c st1 cfg k ca.cert ca.key duration) (sym same) ∙ signed)
        ]

    -- If a created certificate has the fields of its template, a key pair for a server that is issued under
    -- an authority is signed by the authority, for the key of the pair; its names are the hosts and the
    -- four names of the service, its addresses the ones that parse; it is for servers only, no authority
    -- itself, and valid from the time from which the authority is.
    pub new_server_key_pair-IsServing :
        (st st' : c.State) (ca pair : KeyPair x c) (common_name name namespace domain : String)
        (ips hostnames : List String) (duration : ℕ)
        → new_server_key_pair x c st
            (some ca)
            common_name
            name
            namespace
            domain
            ips
            hostnames
            duration
          ≡ some (st', ok pair)
        → IsServing ca pair common_name
            (hostnames ++ service_names x c name namespace domain)
            (parsed_ips x c ips)
    unfolding new_server_key_pair signed_template
    new_server_key_pair-IsServing st st' ca pair common_name name namespace domain ips hostnames
          duration h =
        let (serial, now, (fields, key, signature)) =
          signed_pair-Created st st' ca pair _ _ _ duration h in
        record {
          signed = record { key = key; signature = signature };
          subject = rw fields refl;
          dns_names = rw fields refl;
          ip_addresses = rw fields refl;
          usage = rw fields refl;
          no_authority = rw fields refl;
          start = rw fields refl;
        }

    new_self_signed_ca_cert-Created :
        (st st' : c.State) (cfg : Config) (key : x.EcdsaPrivate) (duration : ℕ)
        (cert : x.Certificate)
        → new_self_signed_ca_cert x c st cfg key duration ≡ (st', ok cert)
        → (serial : ℕ) × (now : ℕ) × Created cert
            (ca_template x c cfg serial now duration)
            (x.ecdsa_public_of key)
            key
    unfolding new_self_signed_ca_cert
    new_self_signed_ca_cert-Created st st' cfg key duration cert h =
        let (st1, now) = c.now st in
        let (st2, serial) = c.random_serial_number st1 in
        let tmpl = ca_template x c cfg serial now duration in
        (serial, now, parsed-Created st2 st' tmpl tmpl (x.ecdsa_public_of key) key cert h)

    -- If a created certificate has the fields of its template, a key pair from `NewCA` is signed with its own key, may sign others,
    -- and is valid for the duration from the time of its creation.
    pub new_ca-IsAuthority :
        (st st' : c.State) (pair : KeyPair x c) (name : String) (duration : ℕ)
        → new_ca x c st name duration ≡ (st', ok pair)
        → IsAuthority pair duration
    unfolding new_ca ca_template
    new_ca-IsAuthority st st' pair name duration h = elim (Result-cases (c.generate_key st).1) [
      | inr (e, failed) ↦ absurd (ground arith)
      | inl (key, made) ↦
          let st1 = (c.generate_key st).0 in
          let (st2, unix) = c.now st1 in
          let h' : paired x c "unable to create a self-signed certificate for a new CA" key
                (new_self_signed_ca_cert x c st2 (ca_config x c name unix) key duration)
              ≡ (st', ok pair) =
            ground arith in
          let (signed, same) = paired-ok _ _ key st' pair h' in
          let (serial, now, (fields, public, signature)) =
            new_self_signed_ca_cert-Created st2 st' (ca_config x c name unix) pair.key duration
              pair.cert
              (ap (λ k. new_self_signed_ca_cert x c st2 (ca_config x c name unix) k duration)
                  (sym same)
                ∙ signed) in
          record {
            signed = record { key = public; signature = signature };
            authority = rw fields refl;
            usage = rw fields refl;
            lifetime = rw fields refl;
          }
    ]
