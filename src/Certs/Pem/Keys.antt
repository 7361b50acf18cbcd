-- ===== src/Certs/Pem/Keys.antt =====
-- pem.go: `ParsePrivateKeyPEM` and `ParsePublicKeysPEM` against descriptions on the list of blocks.
use maroonedpods.Prelude.{
  ℕ, zero, suc, ◌<◌, ◌≡◌, List, [], ◌∷◌, ◌++◌, none, some, arith, length, Option-cases, Result, ok,
  err, inl, inr,
}
use mathlib.Core.List.{append-nil, append_assoc}
use maroonedpods.Certs.Pem.{
  Bytes, Block, X509, PublicKey, PrivateKey, private_key_loop, parse_private_key_pem, block_key,
  no_private_key, public_keys_of, public_keys_loop, parse_public_keys_pem, no_public_keys,
}
use maroonedpods.Certs.Pem.Blocks.{DecodesTo, Shrinks, all_blocks}

module _ (x : X509) where
  open x use {RsaPublic, EcdsaPublic, RsaPrivate, EcdsaPrivate}

  -- the first block that is a key
  unfoldable pub first_key : List Block → Result (PrivateKey RsaPrivate EcdsaPrivate)
  first_key [] = err no_private_key
  first_key (b ∷ bs) = elim (block_key x b) [ some key ↦ ok key | none ↦ first_key bs ]

  -- the public keys of all the blocks that have one
  unfoldable pub all_keys : List Block → List (PublicKey RsaPublic EcdsaPublic)
  all_keys [] = []
  all_keys (b ∷ bs) = elim (public_keys_of x b.bytes) [
    | some key ↦ key ∷ all_keys bs
    | none ↦ all_keys bs
  ]

  abbrev pub some_keys :
      List (PublicKey RsaPublic EcdsaPublic) → Result (List (PublicKey RsaPublic EcdsaPublic))
  some_keys [] = err no_public_keys
  some_keys (key ∷ keys) = ok (key ∷ keys)

  private_key_loop-first_key :
      (fuel : ℕ) (pem : Bytes) (bs : List Block)
      → DecodesTo x pem bs
      → length bs < fuel
      → private_key_loop x fuel pem ≡ some (first_key bs)
  unfolding private_key_loop first_key
  private_key_loop-first_key zero pem bs d h = absurd (omega arith)
  private_key_loop-first_key (suc fuel) pem [] (DecodesTo.last e) h = ground arith
  private_key_loop-first_key (suc fuel) pem (b ∷ bs) (DecodesTo.more e d) h =
      let rest = private_key_loop-first_key fuel (x.decode pem).1 bs d (omega arith) in ground arith

  public_keys_loop-all_keys :
      (fuel : ℕ) (pem : Bytes) (bs : List Block) (keys : List (PublicKey RsaPublic EcdsaPublic))
      → DecodesTo x pem bs
      → length bs < fuel
      → public_keys_loop x fuel pem keys ≡ some (some_keys (keys ++ all_keys bs))
  unfolding public_keys_loop all_keys
  public_keys_loop-all_keys zero pem bs keys d h = absurd (omega arith)
  public_keys_loop-all_keys (suc fuel) pem [] keys (DecodesTo.last e) h =
      ground (arith, append-nil keys)
  public_keys_loop-all_keys (suc fuel) pem (b ∷ bs) keys (DecodesTo.more e d) h =
      let skip = public_keys_loop-all_keys fuel (x.decode pem).1 bs keys d (omega arith) in
      elim (Option-cases (public_keys_of x b.bytes)) [
        | inl q ↦ ground arith
        | inr (key, q) ↦
            let take =
              public_keys_loop-all_keys fuel (x.decode pem).1 bs (keys ++ key ∷ []) d
                (omega arith) in
            ground (arith, append_assoc keys (key ∷ []) (all_keys bs))
      ]

  module _ (shrinks : Shrinks x) where
    -- If `pem.Decode` shortens what it decodes, `ParsePrivateKeyPEM` ends on any data, with the
    -- first block of the data that is a private key, or with an error if there is none.
    pub parse_private_key_pem-first_key :
        (pem : Bytes)
        → (bs : List Block) × DecodesTo x pem bs
          × (parse_private_key_pem x pem ≡ some (first_key bs))
    unfolding parse_private_key_pem
    parse_private_key_pem-first_key pem =
        let (bs, d, fits) = all_blocks x shrinks pem in
        (bs, d, private_key_loop-first_key (suc (length pem)) pem bs d fits)

    -- If `pem.Decode` shortens what it decodes, `ParsePublicKeysPEM` ends on any data, with the
    -- public keys of all the blocks that have one, in order, or with an error if none has.
    pub parse_public_keys_pem-all_keys :
        (pem : Bytes)
        → (bs : List Block) × DecodesTo x pem bs
          × (parse_public_keys_pem x pem ≡ some (some_keys (all_keys bs)))
    unfolding parse_public_keys_pem
    parse_public_keys_pem-all_keys pem =
        let (bs, d, fits) = all_blocks x shrinks pem in
        (bs, d, public_keys_loop-all_keys (suc (length pem)) pem bs [] d fits)
