-- ===== src/Certs/Issue.antt =====
-- pkg/certificates/triple: triple.go and cert/cert.go, the certificates that the programs issue, and
-- certificates.go, which stores one. A time or a duration is a number of seconds, as certificates keep
-- it; the durations that the code passes are whole hours.
pub mod Signed
pub mod Stored
pub mod Readable
pub mod Toy
pub mod Tests
use maroonedpods.Prelude.{
  ℕ, ◌+◌, ◌*◌, String, ◌==◌, Bool, true, false, Option, none, some, List, [], ◌∷◌, ◌++◌, Result, ok,
  err, Error, failure, not_found, concat, if◌then◌else◌, length, nat_eq,
}
use maroonedpods.Certs.Pem.{Bytes, X509}
use maroonedpods.Certs.Crypto.{Template, KeyUsage, ExtKeyUsage, Crypto}

-- `cert.Config` with its `AltNames`
pub record Config : Type 0 where
  pub common_name : String
  pub organization : List String
  pub dns_names : List String
  pub ips : List String
  pub usages : List ExtKeyUsage
  pub not_before : Option ℕ
  pub not_after : Option ℕ

abbrev pub or_else : Option ℕ → ℕ → ℕ
or_else none t = t
or_else (some t) _ = t

abbrev wrapped : String → Error → Error
wrapped prefix not_found = failure (concat (prefix ∷ ": not found" ∷ []))
wrapped prefix (failure e) = failure (concat (prefix ∷ ": " ∷ e ∷ []))

module _ (x : X509) (c : Crypto x) where
  open x use {Certificate, EcdsaPublic, EcdsaPrivate}
  open c use {State}

  -- `triple.KeyPair`; a nil pointer to one is `none`
  pub record KeyPair : Type 0 where
    pub key : EcdsaPrivate
    pub cert : Certificate

  unfoldable pub parsed : State × Result Bytes → State × Result Certificate
  parsed (st, err e) = (st, err e)
  parsed (st, ok der) = (st, x.parse_certificate der)

  unfoldable pub ca_template : Config → ℕ → ℕ → ℕ → Template
  ca_template cfg serial now duration = record {
    serial_number = serial;
    common_name = cfg.common_name;
    organization = cfg.organization;
    dns_names = cfg.dns_names;
    ip_addresses = [];
    not_before = or_else cfg.not_before now;
    not_after = or_else cfg.not_after (now + duration);
    key_usage = KeyUsage.key_encipherment ∷ KeyUsage.digital_signature ∷ KeyUsage.cert_sign ∷ [];
    ext_key_usage = [];
    is_ca = true;
  }

  unfoldable pub new_self_signed_ca_cert :
      State → Config → EcdsaPrivate → ℕ → State × Result Certificate
  new_self_signed_ca_cert st cfg key duration =
      let (st1, now) = c.now st in
      let (st2, serial) = c.random_serial_number st1 in
      let tmpl = ca_template cfg serial now duration in
      parsed (c.create_certificate st2 tmpl tmpl (x.ecdsa_public_of key) key)

  unfoldable pub signed_template : Config → ℕ → Template → ℕ → ℕ → Template
  signed_template cfg serial ca now duration = record {
    serial_number = serial;
    common_name = cfg.common_name;
    organization = cfg.organization;
    dns_names = cfg.dns_names;
    ip_addresses = cfg.ips;
    not_before = or_else cfg.not_before ca.not_before;
    not_after = or_else cfg.not_after (now + duration);
    key_usage = KeyUsage.key_encipherment ∷ KeyUsage.digital_signature ∷ [];
    ext_key_usage = cfg.usages;
    is_ca = false;
  }

  unfoldable pub new_signed_cert :
      State → Config → EcdsaPrivate → Certificate → EcdsaPrivate → ℕ → State × Result Certificate
  new_signed_cert st cfg key ca_cert ca_key duration =
      let (st1, drawn) = c.rand_int st in
      elim drawn [
        | err e ↦ (st1, err e)
        | ok serial ↦
            if cfg.common_name == ""
            then (st1, err (failure "must specify a CommonName"))
            else if nat_eq (length cfg.usages) 0
            then (st1, err (failure "must specify at least one ExtKeyUsage"))
            else let (st2, now) = c.now st1 in
              parsed (
                c.create_certificate st2
                  (signed_template cfg serial (c.fields ca_cert) now duration) (c.fields ca_cert)
                  (x.ecdsa_public_of key) ca_key)
      ]

  unfoldable pub paired :
      String → EcdsaPrivate → State × Result Certificate → State × Result KeyPair
  paired prefix key (st, err e) = (st, err (wrapped prefix e))
  paired prefix key (st, ok cert) = (st, ok (record { key = key; cert = cert }))

  abbrev pub ca_config : String → ℕ → Config
  ca_config name unix = record {
    common_name = concat (name ∷ "@" ∷ c.decimal unix ∷ []);
    organization = [];
    dns_names = [];
    ips = [];
    usages = [];
    not_before = none;
    not_after = none;
  }

  unfoldable pub new_ca : State → String → ℕ → State × Result KeyPair
  new_ca st name duration =
      let (st1, made) = c.generate_key st in
      elim made [
        | err e ↦ (st1, err (wrapped "unable to create a private key for a new CA" e))
        | ok key ↦
            let (st2, unix) = c.now st1 in
            paired "unable to create a self-signed certificate for a new CA" key
              (new_self_signed_ca_cert st2 (ca_config name unix) key duration)
      ]

  -- the texts that are addresses
  unfoldable pub parsed_ips : List String → List String
  parsed_ips [] = []
  parsed_ips (ip ∷ ips) = elim (c.parse_ip ip) [
    | none ↦ parsed_ips ips
    | some a ↦ a ∷ parsed_ips ips
  ]

  -- `internalAPIServerFQDN`
  abbrev pub service_names : String → String → String → List String
  service_names svc_name svc_namespace dns_domain =
      let namespaced_name = concat (svc_name ∷ "." ∷ svc_namespace ∷ []) in
      svc_name
      ∷ namespaced_name
      ∷ concat (namespaced_name ∷ ".svc" ∷ [])
      ∷ concat (namespaced_name ∷ ".svc." ∷ dns_domain ∷ [])
      ∷ []

  -- the read of a nil CA is a panic, `none`; the key is generated before it
  unfoldable pub signed_pair :
      State → Option KeyPair → Config → String → String → ℕ → Option (State × Result KeyPair)
  signed_pair st ca cfg no_key no_cert duration =
      let (st1, made) = c.generate_key st in
      elim made [
        | err e ↦ some (st1, err (wrapped no_key e))
        | ok key ↦ elim ca [
          | none ↦ none
          | some ca ↦
              some (paired no_cert key (new_signed_cert st1 cfg key ca.cert ca.key duration))
        ]
      ]

  unfoldable pub new_server_key_pair :
      State
      → Option KeyPair
      → String
      → String
      → String
      → String
      → List String
      → List String
      → ℕ
      → Option (State × Result KeyPair)
  new_server_key_pair st ca common_name svc_name svc_namespace dns_domain ips hostnames duration =
      signed_pair st ca
        (record {
          common_name = common_name;
          organization = [];
          dns_names = hostnames ++ service_names svc_name svc_namespace dns_domain;
          ips = parsed_ips ips;
          usages = ExtKeyUsage.server_auth ∷ [];
          not_before = none;
          not_after = none;
        })
        "unable to create a server private key" "unable to sign the server certificate" duration

  unfoldable pub new_client_key_pair :
      State → Option KeyPair → String → List String → ℕ → Option (State × Result KeyPair)
  new_client_key_pair st ca common_name organizations duration =
      signed_pair st ca
        (record {
          common_name = common_name;
          organization = organizations;
          dns_names = [];
          ips = [];
          usages = ExtKeyUsage.client_auth ∷ [];
          not_before = none;
          not_after = none;
        })
        "unable to create a client private key" "unable to sign the client certificate" duration
