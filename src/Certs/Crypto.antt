-- ===== src/Certs/Crypto.antt =====
-- What pkg/certificates/triple calls of Go's crypto, net and time.
use maroonedpods.Prelude.{ℕ, String, ◌≡◌, Bool, true, Option, List, Result, ok}
use maroonedpods.Certs.Pem.{Bytes, X509, ecdsa_public}

pub data KeyUsage : Type 0 where
  key_encipherment digital_signature cert_sign : KeyUsage

pub data ExtKeyUsage : Type 0 where
  server_auth client_auth : ExtKeyUsage

-- the fields of `x509.Certificate` that the code sets; `is_ca` stands for the two of the constraints
pub record Template : Type 0 where
  pub serial_number : ℕ
  pub common_name : String
  pub organization : List String
  pub dns_names : List String
  pub ip_addresses : List String
  pub not_before : ℕ
  pub not_after : ℕ
  pub key_usage : List KeyUsage
  pub ext_key_usage : List ExtKeyUsage
  pub is_ca : Bool

-- What the code calls of crypto and time, over the state that they read and change; `fields` are
-- those of a parsed certificate, `verifies` says that it is signed under a key, and `decimal` is `%d`.
pub record Crypto (x : X509) : Type 1 where
  pub State : Type 0
  pub now : State → State × ℕ
  pub generate_key : State → State × Result x.EcdsaPrivate
  pub rand_int : State → State × Result ℕ
  pub random_serial_number : State → State × ℕ
  pub create_certificate :
      State → Template → Template → x.EcdsaPublic → x.EcdsaPrivate → State × Result Bytes
  pub fields : x.Certificate → Template
  pub verifies : x.Certificate → x.EcdsaPublic → Bool
  pub parse_ip : String → Option String
  pub decimal : ℕ → String

-- What is documented of them: a certificate that was created has the fields of the template and the
-- key, and is signed with the signer's key.
pub record IsCrypto (x : X509) (c : Crypto x) : Type 0 where
  pub created :
      (st st' : c.State) (tmpl parent : Template) (public : x.EcdsaPublic) (signer : x.EcdsaPrivate)
      (der : Bytes) (cert : x.Certificate)
      → c.create_certificate st tmpl parent public signer ≡ (st', ok der)
      → x.parse_certificate der ≡ ok cert
      → (c.fields cert ≡ tmpl)
        × (x.certificate_key cert ≡ ecdsa_public public)
        × (c.verifies cert (x.ecdsa_public_of signer) ≡ true)
