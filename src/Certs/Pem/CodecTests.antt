-- ===== src/Certs/Pem/CodecTests.antt =====
-- A small encoding that is written and read: a block is the number of its type, the number of its
-- bytes, and its bytes; the first byte of a key says what key it is.
use maroonedpods.Prelude.{
  ℕ, zero, suc, ◌<◌, ◌≤◌, ◌≡◌, ◌≢◌, refl, String, ◌==◌, Option, none, some, [], ◌∷◌, ◌++◌, arith,
  length, Result, ok, err, failure, nat_eq, if◌then◌else◌,
}
use maroonedpods.Certs.Pem.{
  Bytes, Block, X509, PublicKey, rsa_public, rsa_private, certificate_block_type,
  ec_private_key_block_type, rsa_private_key_block_type, parse_certs_pem,
}
use maroonedpods.Certs.Pem.Encode.{
  Encoder, IsEncoder, Written, plain_block, public_key_block_type, encode_certs,
  encode_private_key_pem, encode_public_key_pem,
}
use maroonedpods.Certs.Pem.ReadBack.{parse_certs_pem-encode_certs}

unfoldable pub split : ℕ → Bytes → Bytes × Bytes
split zero bytes = ([], bytes)
split (suc n) [] = ([], [])
split (suc n) (a ∷ bytes) = let s = split n bytes in (a ∷ s.0, s.1)

split-length : (der rest : Bytes) → split (length der) (der ++ rest) ≡ (der, rest)
unfolding split
split-length [] rest = refl
split-length (a ∷ der) rest = rw (split-length der rest) refl

length-split : (n : ℕ) (bytes : Bytes) → length (split n bytes).1 ≤ length bytes
unfolding split
length-split zero bytes = omega arith
length-split (suc n) [] = omega arith
length-split (suc n) (a ∷ bytes) = let h = length-split n bytes in omega arith

abbrev number : String → ℕ
number t =
    if t == certificate_block_type
    then 1
    else if t == ec_private_key_block_type
    then 2
    else if t == rsa_private_key_block_type
    then 3
    else 4

abbrev type_text : ℕ → String
type_text k =
    if nat_eq k 1
    then certificate_block_type
    else if nat_eq k 2
    then ec_private_key_block_type
    else if nat_eq k 3
    then rsa_private_key_block_type
    else public_key_block_type

unfoldable pub decode : Bytes → Option Block × Bytes
unfolding split
decode (k ∷ n ∷ bytes) = (some (plain_block (type_text k) (split n bytes).0), (split n bytes).1)
decode _ = (none, [])

abbrev pub encode : Block → Bytes
encode b = number b.type ∷ length b.bytes ∷ b.bytes

abbrev tagged : ℕ → Bytes → Result ℕ
tagged tag (t ∷ n ∷ []) = if nat_eq t tag then ok n else err (failure "asn1: structure error")
tagged tag _ = err (failure "asn1: syntax error")

abbrev parse_raw : Bytes → Result ℕ
parse_raw (n ∷ []) = ok n
parse_raw _ = err (failure "x509: malformed certificate")

abbrev as_public : Result ℕ → Result (PublicKey ℕ ℕ)
as_public (ok n) = ok (rsa_public n)
as_public (err e) = err e

abbrev pub codec : X509
codec = record {
  Certificate = ℕ;
  RsaPublic = ℕ;
  EcdsaPublic = ℕ;
  RsaPrivate = ℕ;
  EcdsaPrivate = ℕ;
  decode = decode;
  parse_certificate = parse_raw;
  certificate_key = λ c. rsa_public c;
  parse_pkix_public_key = λ der. as_public (tagged 7 der);
  parse_pkcs1_private_key = tagged 5;
  parse_pkcs8_private_key = λ _. err (failure "asn1: structure error");
  parse_ec_private_key = tagged 6;
  rsa_public_of = λ k. k;
  ecdsa_public_of = λ k. k;
}

abbrev pub encoder : Encoder codec
encoder = record {
  encode_to_memory = encode;
  raw = λ c. c ∷ [];
  marshal_pkix_public_key = λ k. ok (7 ∷ k ∷ []);
  marshal_ec_private_key = λ k. ok (6 ∷ k ∷ []);
  marshal_pkcs1_private_key = λ k. 5 ∷ k ∷ [];
}

pub decode-encode :
    (t : String) (der rest : Bytes)
    → Written t
    → decode (encode (plain_block t der) ++ rest) ≡ (some (plain_block t der), rest)
unfolding decode
decode-encode t der rest Written.certificate = rw (split-length der rest) refl
decode-encode t der rest Written.ec_key = rw (split-length der rest) refl
decode-encode t der rest Written.rsa_key = rw (split-length der rest) refl
decode-encode t der rest Written.public_key = rw (split-length der rest) refl

pub encoder-IsEncoder : IsEncoder codec encoder
unfolding decode
encoder-IsEncoder = record {
  decode_encoded = decode-encode;
  decode_nothing = refl;
  parse_raw = λ c. refl;
  parse_ec = λ k der h. ground arith;
  parse_pkcs1 = λ k. refl;
  parse_pkix = λ k der h. ground arith;
  not_pkcs1 = λ k der h. (failure "asn1: structure error", ground arith);
  not_pkcs8 = λ k der h. (failure "asn1: structure error", refl);
}

pub codec_shrinks :
    (pem : Bytes) (b : Block) → (decode pem).0 ≡ some b → length (decode pem).1 < length pem
unfolding decode
codec_shrinks [] b h = absurd (cc)
codec_shrinks (k ∷ []) b h = absurd (cc)
codec_shrinks (k ∷ n ∷ bytes) b h = let s = length-split n bytes in omega arith

parse_certs_pem-encode_certs_example :
    parse_certs_pem codec (encode_certs codec encoder (41 ∷ 42 ∷ []))
    ≡ some (record { certs = 41 ∷ 42 ∷ []; error = none })
parse_certs_pem-encode_certs_example =
    parse_certs_pem-encode_certs codec encoder encoder-IsEncoder 41 (42 ∷ []) codec_shrinks

wrote : encode_private_key_pem codec encoder (rsa_private 9) ≢ []
unfolding encode_private_key_pem
wrote = ground arith

written_key : encode_public_key_pem codec encoder 9 ≡ ok (4 ∷ 2 ∷ 7 ∷ 9 ∷ [])
unfolding encode_public_key_pem
written_key = refl
