-- ===== src/Certs/Pem.antt =====
-- pkg/certificates/triple/cert/pem.go: the loops that read certificates and keys from PEM data.
-- encoding/pem and crypto/x509 are the parameter `x`; a loop takes fuel, one unit for each block.
pub mod Blocks
pub mod Certificates
pub mod Keys
pub mod Encode
pub mod ReadBack
pub mod CodecTests
pub mod Toy
pub mod Tests
use maroonedpods.Prelude.{
  ℕ, zero, suc, String, ◌==◌, ◌≡◌, ◌<◌, Bool, true, false, ◌&&◌, not, Option, none, some, List, [],
  ◌∷◌, ◌++◌, length, Result, ok, err, Error, failure, ◌>>=◌, is_some, nat_eq, if◌then◌else◌,
}

abbrev pub Bytes : Type 0
Bytes = List ℕ

pub record Block : Type 0 where
  pub type : String
  pub headers : List (String × String)
  pub bytes : Bytes

-- an `interface{}` that holds a public or a private key
pub data PublicKey (Rsa Ecdsa : Type 0) : Type 0 where
  rsa_public : Rsa → PublicKey Rsa Ecdsa
  ecdsa_public : Ecdsa → PublicKey Rsa Ecdsa
  other_public : PublicKey Rsa Ecdsa

pub data PrivateKey (Rsa Ecdsa : Type 0) : Type 0 where
  rsa_private : Rsa → PrivateKey Rsa Ecdsa
  ecdsa_private : Ecdsa → PrivateKey Rsa Ecdsa
  other_private : PrivateKey Rsa Ecdsa

-- what the code calls of encoding/pem and crypto/x509
pub record X509 : Type 1 where
  pub Certificate : Type 0
  pub RsaPublic : Type 0
  pub EcdsaPublic : Type 0
  pub RsaPrivate : Type 0
  pub EcdsaPrivate : Type 0
  pub decode : Bytes → Option Block × Bytes
  pub parse_certificate : Bytes → Result Certificate
  pub certificate_key : Certificate → PublicKey RsaPublic EcdsaPublic
  pub parse_pkix_public_key : Bytes → Result (PublicKey RsaPublic EcdsaPublic)
  pub parse_pkcs1_private_key : Bytes → Result RsaPrivate
  pub parse_pkcs8_private_key : Bytes → Result (PrivateKey RsaPrivate EcdsaPrivate)
  pub parse_ec_private_key : Bytes → Result EcdsaPrivate
  pub rsa_public_of : RsaPrivate → RsaPublic
  pub ecdsa_public_of : EcdsaPrivate → EcdsaPublic

abbrev pub ec_private_key_block_type : String
ec_private_key_block_type = "EC PRIVATE KEY"

abbrev pub rsa_private_key_block_type : String
rsa_private_key_block_type = "RSA PRIVATE KEY"

abbrev pub private_key_block_type : String
private_key_block_type = "PRIVATE KEY"

abbrev pub certificate_block_type : String
certificate_block_type = "CERTIFICATE"

-- the list that `ParseCertsPEM` returns, and the error beside it
pub record Parsed (C : Type 0) : Type 0 where
  pub certs : List C
  pub error : Option Error

abbrev pub no_certificates : Error
no_certificates = failure "data does not contain any valid RSA or ECDSA certificates"

abbrev pub no_private_key : Error
no_private_key = failure "data does not contain a valid RSA or ECDSA private key"

abbrev pub no_public_keys : Error
no_public_keys = failure "data does not contain any valid RSA or ECDSA public keys"

-- a "CERTIFICATE" block without extra headers
unfoldable pub is_plain_certificate : Block → Bool
is_plain_certificate b = b.type == certificate_block_type && nat_eq (length b.headers) 0

module _ (x : X509) where
  open x use {
    Certificate, RsaPublic, EcdsaPublic, RsaPrivate, EcdsaPrivate, decode, parse_certificate,
    certificate_key, parse_pkix_public_key, parse_pkcs1_private_key, parse_pkcs8_private_key,
    parse_ec_private_key, rsa_public_of, ecdsa_public_of,
  }

  -- the loop of `ParseCertsPEM` over what is left of the data, `certs` and `ok`
  unfoldable pub certs_loop : ℕ → Bytes → List Certificate → Bool → Option (Parsed Certificate)
  certs_loop zero pem certs found = none
  certs_loop (suc fuel) pem certs found =
      let finish : Option (Parsed Certificate) =
        some (record { certs = certs; error = if found then none else some no_certificates }) in
      if nat_eq (length pem) 0
      then finish
      else let (found_block, rest) = decode pem in
        elim found_block [
          | none ↦ finish
          | some block ↦ elim (is_plain_certificate block) [
            | false ↦ certs_loop fuel rest certs found
            | true ↦ elim (parse_certificate block.bytes) [
              | err e ↦ some (record { certs = certs; error = some e })
              | ok cert ↦ certs_loop fuel rest (certs ++ cert ∷ []) true
            ]
          ]
        ]

  -- each block takes at least a byte, so as many rounds as there are bytes are enough
  unfoldable pub parse_certs_pem : Bytes → Option (Parsed Certificate)
  unfolding certs_loop
  parse_certs_pem pem = certs_loop (suc (length pem)) pem [] false

  -- the `switch` of `ParsePrivateKeyPEM`: a key, if the block is of one of the three types
  unfoldable pub block_key : Block → Option (PrivateKey RsaPrivate EcdsaPrivate)
  block_key b =
      if b.type == ec_private_key_block_type
      then elim (parse_ec_private_key b.bytes) [ ok key ↦ some (ecdsa_private key) | err _ ↦ none ]
      else if b.type == rsa_private_key_block_type
      then elim (parse_pkcs1_private_key b.bytes) [ ok key ↦ some (rsa_private key) | err _ ↦ none ]
      else if b.type == private_key_block_type
      then elim (parse_pkcs8_private_key b.bytes) [ ok key ↦ some key | err _ ↦ none ]
      else none

  unfoldable pub private_key_loop : ℕ → Bytes → Option (Result (PrivateKey RsaPrivate EcdsaPrivate))
  private_key_loop zero key_data = none
  private_key_loop (suc fuel) key_data =
      let (found_block, rest) = decode key_data in
      elim found_block [
        | none ↦ some (err no_private_key)
        | some block ↦ elim (block_key block) [
          | some key ↦ some (ok key)
          | none ↦ private_key_loop fuel rest
        ]
      ]

  unfoldable pub parse_private_key_pem :
      Bytes → Option (Result (PrivateKey RsaPrivate EcdsaPrivate))
  unfolding private_key_loop
  parse_private_key_pem key_data = private_key_loop (suc (length key_data)) key_data

  as_rsa_private : PrivateKey RsaPrivate EcdsaPrivate → Result RsaPrivate
  as_rsa_private (rsa_private key) = ok key
  as_rsa_private _ = err (failure "data doesn't contain valid RSA Private Key")

  unfoldable pub parse_rsa_private_key : Bytes → Result RsaPrivate
  unfolding as_rsa_private
  parse_rsa_private_key bytes = elim (parse_pkcs1_private_key bytes) [
    | ok key ↦ ok key
    | err _ ↦ parse_pkcs8_private_key bytes >>= as_rsa_private
  ]

  -- PKIX, or the key of a certificate
  parse_any_public : Bytes → Result (PublicKey RsaPublic EcdsaPublic)
  parse_any_public bytes = elim (parse_pkix_public_key bytes) [
    | ok key ↦ ok key
    | err _ ↦ parse_certificate bytes >>= λ cert. ok (certificate_key cert)
  ]

  as_rsa_public : PublicKey RsaPublic EcdsaPublic → Result RsaPublic
  as_rsa_public (rsa_public key) = ok key
  as_rsa_public _ = err (failure "data doesn't contain valid RSA Public Key")

  unfoldable pub parse_rsa_public_key : Bytes → Result RsaPublic
  unfolding parse_any_public as_rsa_public
  parse_rsa_public_key bytes = parse_any_public bytes >>= as_rsa_public

  as_ecdsa_public : PublicKey RsaPublic EcdsaPublic → Result EcdsaPublic
  as_ecdsa_public (ecdsa_public key) = ok key
  as_ecdsa_public _ = err (failure "data doesn't contain valid ECDSA Public Key")

  unfoldable pub parse_ec_public_key : Bytes → Result EcdsaPublic
  unfolding parse_any_public as_ecdsa_public
  parse_ec_public_key bytes = parse_any_public bytes >>= as_ecdsa_public

  -- the four attempts of `ParsePublicKeysPEM` on a block, in order
  unfoldable pub public_keys_of : Bytes → Option (PublicKey RsaPublic EcdsaPublic)
  unfolding parse_rsa_private_key parse_rsa_public_key parse_ec_public_key
  public_keys_of bytes = elim (parse_rsa_private_key bytes) [
    | ok key ↦ some (rsa_public (rsa_public_of key))
    | err _ ↦ elim (parse_rsa_public_key bytes) [
      | ok key ↦ some (rsa_public key)
      | err _ ↦ elim (parse_ec_private_key bytes) [
        | ok key ↦ some (ecdsa_public (ecdsa_public_of key))
        | err _ ↦ elim (parse_ec_public_key bytes) [
          | ok key ↦ some (ecdsa_public key)
          | err _ ↦ none
        ]
      ]
    ]
  ]

  unfoldable pub public_keys_loop :
      ℕ
      → Bytes
      → List (PublicKey RsaPublic EcdsaPublic)
      → Option (Result (List (PublicKey RsaPublic EcdsaPublic)))
  public_keys_loop zero key_data keys = none
  public_keys_loop (suc fuel) key_data keys =
      let (found_block, rest) = decode key_data in
      elim found_block [
        | none ↦ some (if nat_eq (length keys) 0 then err no_public_keys else ok keys)
        | some block ↦ elim (public_keys_of block.bytes) [
          | some key ↦ public_keys_loop fuel rest (keys ++ key ∷ [])
          | none ↦ public_keys_loop fuel rest keys
        ]
      ]

  unfoldable pub parse_public_keys_pem :
      Bytes → Option (Result (List (PublicKey RsaPublic EcdsaPublic)))
  unfolding public_keys_loop
  parse_public_keys_pem key_data = public_keys_loop (suc (length key_data)) key_data []
