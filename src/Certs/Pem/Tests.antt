-- ===== src/Certs/Pem/Tests.antt =====
-- The PEM loops on the small encoding of Toy.
use maroonedpods.Prelude.{ℕ, ◌≡◌, refl, none, some, List, [], ◌∷◌, ok}
use maroonedpods.Certs.Pem.{
  Bytes, Block, Parsed, PublicKey, PrivateKey, parse_certs_pem, is_plain_certificate,
  parse_private_key_pem, block_key, parse_public_keys_pem, public_keys_of,
}
use maroonedpods.Certs.Pem.Blocks.{DecodesTo}
use maroonedpods.Certs.Pem.Certificates.{certs_of, parse_certs_pem-certs_of}
use maroonedpods.Certs.Pem.Toy.{toy, toy_shrinks}

-- parameters, a key, a certificate
abbrev bundle : Bytes
bundle = 9 ∷ 2 ∷ 1 ∷ []

abbrev one_cert : Parsed ℕ
one_cert = record { certs = 41 ∷ []; error = none }

certs_of_bundle : parse_certs_pem toy bundle ≡ some one_cert
unfolding parse_certs_pem is_plain_certificate
certs_of_bundle = refl

key_of_bundle : parse_private_key_pem toy bundle ≡ some (ok (PrivateKey.ecdsa_private 42))
unfolding parse_private_key_pem block_key
key_of_bundle = refl

keys_of_bundle :
    parse_public_keys_pem toy bundle
    ≡ some (ok (PublicKey.ecdsa_public 42 ∷ PublicKey.rsa_public 41 ∷ []))
unfolding parse_public_keys_pem public_keys_of
keys_of_bundle = refl

parse_certs_pem-certs_of_example :
    (bs : List Block) × DecodesTo toy bundle bs
    × (parse_certs_pem toy bundle ≡ some (certs_of toy bs))
parse_certs_pem-certs_of_example = parse_certs_pem-certs_of toy toy_shrinks bundle
