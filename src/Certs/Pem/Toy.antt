-- ===== src/Certs/Pem/Toy.antt =====
-- A small encoding that stands for encoding/pem and crypto/x509 in the tests: one byte is a block,
-- 1 a certificate, 2 an EC key and anything else a block of no use.
use maroonedpods.Prelude.{
  ℕ, ◌+◌, ◌<◌, ◌≡◌, String, Option, none, some, [], ◌∷◌, arith, length, Result, ok, err, failure,
  nat_eq, if◌then◌else◌,
}
use maroonedpods.Certs.Pem.{
  Bytes, Block, X509, PublicKey, certificate_block_type, ec_private_key_block_type,
}

abbrev kind : ℕ → String
kind n =
    if nat_eq n 1
    then certificate_block_type
    else if nat_eq n 2
    then ec_private_key_block_type
    else "EC PARAMETERS"

abbrev decode : Bytes → Option Block × Bytes
decode [] = (none, [])
decode (n ∷ rest) = (some (record { type = kind n; headers = []; bytes = n ∷ [] }), rest)

abbrev only : ℕ → Bytes → Result ℕ
only k (n ∷ []) = if nat_eq n k then ok (n + 40) else err (failure "asn1: structure error")
only k _ = err (failure "asn1: syntax error")

abbrev pub toy : X509
toy = record {
  Certificate = ℕ;
  RsaPublic = ℕ;
  EcdsaPublic = ℕ;
  RsaPrivate = ℕ;
  EcdsaPrivate = ℕ;
  decode = decode;
  parse_certificate = only 1;
  certificate_key = λ c. PublicKey.rsa_public c;
  parse_pkix_public_key = λ _. err (failure "asn1: structure error");
  parse_pkcs1_private_key = λ _. err (failure "asn1: structure error");
  parse_pkcs8_private_key = λ _. err (failure "asn1: structure error");
  parse_ec_private_key = only 2;
  rsa_public_of = λ k. k;
  ecdsa_public_of = λ k. k;
}

pub toy_shrinks :
    (pem : Bytes) (b : Block) → (toy.decode pem).0 ≡ some b → length (toy.decode pem).1 < length pem
toy_shrinks [] b h = absurd (cc)
toy_shrinks (n ∷ rest) b h = omega arith
