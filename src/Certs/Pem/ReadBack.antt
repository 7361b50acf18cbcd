-- ===== src/Certs/Pem/ReadBack.antt =====
-- pem.go: the parsers read back what the encoders write.
use maroonedpods.Prelude.{
  String, ◌≡◌, ◌≢◌, refl, ◌∙◌, ap, none, some, List, [], ◌∷◌, ◌++◌, map, ok, arith, Result-cases,
  inl, inr,
}
use mathlib.Core.List.{append-nil}
use maroonedpods.Certs.Pem.{
  Bytes, Block, X509, PublicKey, rsa_public, PrivateKey, rsa_private, ecdsa_private, other_private,
  parse_certs_pem, is_plain_certificate, parse_private_key_pem, block_key, parse_public_keys_pem,
  public_keys_of, parse_rsa_private_key, parse_rsa_public_key, ec_private_key_block_type,
  rsa_private_key_block_type, certificate_block_type,
}
use maroonedpods.Certs.Pem.Blocks.{DecodesTo, DecodesTo-unique, Shrinks}
use maroonedpods.Certs.Pem.Certificates.{collect, certs_of, parse_certs_pem-certs_of}
use maroonedpods.Certs.Pem.Keys.{
  first_key, all_keys, some_keys, parse_private_key_pem-first_key, parse_public_keys_pem-all_keys,
}
use maroonedpods.Certs.Pem.Encode.{
  Encoder, IsEncoder, Written, plain_block, public_key_block_type, encode_public_key_pem,
  encode_private_key_pem, encode_cert_pem, encode_certs,
}

module _ (x : X509) (e : Encoder x) where
  open x use {Certificate, RsaPublic, EcdsaPublic, RsaPrivate, EcdsaPrivate}

  encode_ecdsa :
      (key : EcdsaPrivate) (der : Bytes)
      → e.marshal_ec_private_key key ≡ ok der
      → encode_private_key_pem x e (ecdsa_private key)
        ≡ e.encode_to_memory (plain_block ec_private_key_block_type der)
  unfolding encode_private_key_pem
  encode_ecdsa key der h = rw (h, encode_private_key_pem) refl

  encode_public :
      (key : RsaPublic) (der : Bytes)
      → e.marshal_pkix_public_key key ≡ ok der
      → encode_public_key_pem x e key
        ≡ ok (e.encode_to_memory (plain_block public_key_block_type der))
  unfolding encode_public_key_pem
  encode_public key der h = rw (h, encode_public_key_pem) refl

  abbrev cert_block : Certificate → Block
  cert_block c = plain_block certificate_block_type (e.raw c)

  module _ (laws : IsEncoder x e) where
    DecodesTo-plain :
        (t : String) (der rest : Bytes) (bs : List Block)
        → Written t
        → DecodesTo x rest bs
        → DecodesTo x (e.encode_to_memory (plain_block t der) ++ rest) (plain_block t der ∷ bs)
    DecodesTo-plain t der rest bs w d =
        let decoded = laws.decode_encoded t der rest w in
        DecodesTo.more (ap (λ r. r.0) decoded) (rw decoded d)

    encode_certs-DecodesTo :
        (cs : List Certificate) → DecodesTo x (encode_certs x e cs) (map cert_block cs)
    unfolding encode_certs encode_cert_pem
    encode_certs-DecodesTo [] = DecodesTo.last laws.decode_nothing
    encode_certs-DecodesTo (c ∷ cs) =
        DecodesTo-plain certificate_block_type (e.raw c) (encode_certs x e cs) (map cert_block cs)
          Written.certificate (encode_certs-DecodesTo cs)

    collect-map :
        (cs : List Certificate)
        → collect x (map cert_block cs) ≡ record { certs = cs; error = none }
    unfolding collect is_plain_certificate
    collect-map [] = refl
    collect-map (c ∷ cs) = rw (laws.parse_raw c, collect-map cs) refl

    certs_of_collected :
        (bs : List Block) (c : Certificate) (cs : List Certificate)
        → collect x bs ≡ record { certs = c ∷ cs; error = none }
        → certs_of x bs ≡ record { certs = c ∷ cs; error = none }
    unfolding certs_of
    certs_of_collected bs c cs h = ground arith

    -- If decoding shortens the data and gives back what is encoded, `ParseCertsPEM` reads from a bundle
    -- of certificates that were encoded one after the other exactly those, in order, without an error.
    pub parse_certs_pem-encode_certs :
        (c : Certificate) (cs : List Certificate)
        → Shrinks x
        → parse_certs_pem x (encode_certs x e (c ∷ cs))
          ≡ some (record { certs = c ∷ cs; error = none })
    parse_certs_pem-encode_certs c cs shrinks =
        let (bs, d, parsed) = parse_certs_pem-certs_of x shrinks (encode_certs x e (c ∷ cs)) in
        let same = DecodesTo-unique x d (encode_certs-DecodesTo (c ∷ cs)) in
        let found = collect-map (c ∷ cs) in
        parsed ∙ ap some (certs_of_collected bs c cs (ap (collect x) same ∙ found))

    single_block :
        (t : String) (der : Bytes)
        → Written t
        → DecodesTo x (e.encode_to_memory (plain_block t der)) (plain_block t der ∷ [])
    single_block t der w =
        rw⁻¹ (append-nil (e.encode_to_memory (plain_block t der)))
          (DecodesTo-plain t der [] [] w (DecodesTo.last laws.decode_nothing))

    first_key_single :
        (b : Block) (key : PrivateKey RsaPrivate EcdsaPrivate)
        → block_key x b ≡ some key
        → first_key x (b ∷ []) ≡ ok key
    unfolding first_key
    first_key_single b key h = rw (h, first_key) refl

    parse_private_block :
        (b : Block) (key : PrivateKey RsaPrivate EcdsaPrivate) (pem : Bytes)
        → Shrinks x
        → DecodesTo x pem (b ∷ [])
        → block_key x b ≡ some key
        → parse_private_key_pem x pem ≡ some (ok key)
    parse_private_block b key pem shrinks d h =
        let (bs, d', parsed) = parse_private_key_pem-first_key x shrinks pem in
        parsed
        ∙ ap (λ l. some (first_key x l)) (DecodesTo-unique x d' d)
        ∙ ap some (first_key_single b key h)

    -- If decoding shortens the data and gives back what is encoded, `ParsePrivateKeyPEM` reads back the
    -- key that `EncodePrivateKeyPEM` wrote, an RSA key or an EC key, whenever it wrote something.
    pub parse_private_key_pem-encode :
        (key : PrivateKey RsaPrivate EcdsaPrivate)
        → Shrinks x
        → encode_private_key_pem x e key ≢ []
        → parse_private_key_pem x (encode_private_key_pem x e key) ≡ some (ok key)
    unfolding encode_private_key_pem block_key
    parse_private_key_pem-encode (ecdsa_private key) shrinks h =
        elim (Result-cases (e.marshal_ec_private_key key)) [
          | inr (failed, q) ↦ absurd (ground arith)
          | inl (der, q) ↦
              let parsed = laws.parse_ec key der q in
              ap (parse_private_key_pem x) (encode_ecdsa key der q)
              ∙ parse_private_block (plain_block ec_private_key_block_type der) (ecdsa_private key)
                  _ shrinks (single_block ec_private_key_block_type der Written.ec_key)
                  (rw parsed refl)
        ]
    parse_private_key_pem-encode (rsa_private key) shrinks h =
        parse_private_block _ (rsa_private key) _ shrinks
          (single_block rsa_private_key_block_type (e.marshal_pkcs1_private_key key)
            Written.rsa_key)
          (rw (laws.parse_pkcs1 key) refl)
    parse_private_key_pem-encode other_private shrinks h = absurd (h refl)

    public_keys_of_marshalled :
        (key : RsaPublic) (der : Bytes)
        → e.marshal_pkix_public_key key ≡ ok der
        → public_keys_of x der ≡ some (rsa_public key)
    unfolding public_keys_of parse_rsa_private_key parse_rsa_public_key
    public_keys_of_marshalled key der h =
        let (failed, pkcs1) = laws.not_pkcs1 key der h in
        let (failed', pkcs8) = laws.not_pkcs8 key der h in
        let parsed = laws.parse_pkix key der h in ground arith

    all_keys_single :
        (t : String) (der : Bytes) (key : PublicKey RsaPublic EcdsaPublic)
        → public_keys_of x der ≡ some key
        → some_keys x (all_keys x (plain_block t der ∷ [])) ≡ ok (key ∷ [])
    unfolding all_keys
    all_keys_single t der key h = rw (h, all_keys) refl

    -- If decoding shortens the data and gives back what is encoded, `ParsePublicKeysPEM` reads back the
    -- one RSA key that `EncodePublicKeyPEM` wrote, and takes it for no private key.
    pub parse_public_keys_pem-encode :
        (key : RsaPublic) (pem : Bytes)
        → Shrinks x
        → encode_public_key_pem x e key ≡ ok pem
        → parse_public_keys_pem x pem ≡ some (ok (rsa_public key ∷ []))
    unfolding encode_public_key_pem
    parse_public_keys_pem-encode key pem shrinks h =
        elim (Result-cases (e.marshal_pkix_public_key key)) [
          | inr (failed, q) ↦ absurd (ground arith)
          | inl (der, q) ↦
              let written : pem ≡ e.encode_to_memory (plain_block public_key_block_type der) =
                ground (arith, encode_public key der q) in
              let (bs, d, parsed) = parse_public_keys_pem-all_keys x shrinks pem in
              let d' : DecodesTo x pem (plain_block public_key_block_type der ∷ []) =
                rw written (single_block public_key_block_type der Written.public_key) in
              let keys =
                all_keys_single public_key_block_type der (rsa_public key)
                  (public_keys_of_marshalled key der q) in
              parsed
              ∙ ap (λ l. some (some_keys x (all_keys x l))) (DecodesTo-unique x d d')
              ∙ ap some keys
        ]
