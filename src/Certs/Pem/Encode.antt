-- ===== src/Certs/Pem/Encode.antt =====
-- pem.go: the three encoders, over what they call of encoding/pem and crypto/x509.
use maroonedpods.Prelude.{
  String, ◌≡◌, none, some, List, [], ◌∷◌, ◌++◌, Result, ok, err, Error, ◌>>=◌,
}
use maroonedpods.Certs.Pem.{
  Bytes, Block, X509, rsa_public, PrivateKey, rsa_private, ecdsa_private, other_private,
  ec_private_key_block_type, rsa_private_key_block_type, certificate_block_type,
}

abbrev pub public_key_block_type : String
public_key_block_type = "PUBLIC KEY"

-- what the encoders call of encoding/pem and crypto/x509; `raw` is a field of a certificate
pub record Encoder (x : X509) : Type 0 where
  pub encode_to_memory : Block → Bytes
  pub raw : x.Certificate → Bytes
  pub marshal_pkix_public_key : x.RsaPublic → Result Bytes
  pub marshal_ec_private_key : x.EcdsaPrivate → Result Bytes
  pub marshal_pkcs1_private_key : x.RsaPrivate → Bytes

-- the types of the blocks that are encoded
pub data Written : String → Type 0 where
  certificate : Written certificate_block_type
  ec_key : Written ec_private_key_block_type
  rsa_key : Written rsa_private_key_block_type
  public_key : Written public_key_block_type

-- What is documented of them: decoding gives back an encoded block, and the bytes after it, and finds
-- none in no data; parsing gives back what was marshalled, and a public key is no private key.
pub record IsEncoder (x : X509) (e : Encoder x) : Type 0 where
  pub decode_encoded :
      (t : String) (der rest : Bytes)
      → Written t
      → x.decode (e.encode_to_memory (record { type = t; headers = []; bytes = der }) ++ rest)
        ≡ (some (record { type = t; headers = []; bytes = der }), rest)
  pub decode_nothing : (x.decode []).0 ≡ none
  pub parse_raw : (c : x.Certificate) → x.parse_certificate (e.raw c) ≡ ok c
  pub parse_ec :
      (k : x.EcdsaPrivate) (der : Bytes)
      → e.marshal_ec_private_key k ≡ ok der
      → x.parse_ec_private_key der ≡ ok k
  pub parse_pkcs1 :
      (k : x.RsaPrivate) → x.parse_pkcs1_private_key (e.marshal_pkcs1_private_key k) ≡ ok k
  pub parse_pkix :
      (k : x.RsaPublic) (der : Bytes)
      → e.marshal_pkix_public_key k ≡ ok der
      → x.parse_pkix_public_key der ≡ ok (rsa_public k)
  pub not_pkcs1 :
      (k : x.RsaPublic) (der : Bytes)
      → e.marshal_pkix_public_key k ≡ ok der
      → (failed : Error) × (x.parse_pkcs1_private_key der ≡ err failed)
  pub not_pkcs8 :
      (k : x.RsaPublic) (der : Bytes)
      → e.marshal_pkix_public_key k ≡ ok der
      → (failed : Error) × (x.parse_pkcs8_private_key der ≡ err failed)

abbrev pub plain_block : String → Bytes → Block
plain_block t der = record { type = t; headers = []; bytes = der }

module _ (x : X509) (e : Encoder x) where
  open x use {Certificate, RsaPublic, EcdsaPublic, RsaPrivate, EcdsaPrivate}

  unfoldable pub encode_public_key_pem : RsaPublic → Result Bytes
  encode_public_key_pem key = do
    der ← e.marshal_pkix_public_key key
    ok (e.encode_to_memory (plain_block public_key_block_type der))

  -- no bytes stand for nil
  unfoldable pub encode_private_key_pem : PrivateKey RsaPrivate EcdsaPrivate → Bytes
  encode_private_key_pem (ecdsa_private key) = elim (e.marshal_ec_private_key key) [
    | err _ ↦ []
    | ok der ↦ e.encode_to_memory (plain_block ec_private_key_block_type der)
  ]
  encode_private_key_pem (rsa_private key) =
      e.encode_to_memory (plain_block rsa_private_key_block_type (e.marshal_pkcs1_private_key key))
  encode_private_key_pem other_private = []

  unfoldable pub encode_cert_pem : Certificate → Bytes
  encode_cert_pem cert = e.encode_to_memory (plain_block certificate_block_type (e.raw cert))

  -- a bundle is the certificates one after the other
  unfoldable pub encode_certs : List Certificate → Bytes
  encode_certs [] = []
  encode_certs (c ∷ cs) = encode_cert_pem c ++ encode_certs cs
