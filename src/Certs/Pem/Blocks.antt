-- ===== src/Certs/Pem/Blocks.antt =====
-- The blocks of PEM data, as a relation on what `pem.Decode` gives, and that there are such blocks.
use maroonedpods.Prelude.{
  ℕ, zero, suc, ◌<◌, ◌≡◌, refl, List, [], ◌∷◌, none, some, arith, length, Option-cases, inl, inr,
}
use maroonedpods.Certs.Pem.{Bytes, Block, X509}

module _ (x : X509) where
  -- `bs` are the blocks that repeated decoding finds, in order
  pub data DecodesTo : Bytes → List Block → Type 0 where
    last : {pem : Bytes} → (x.decode pem).0 ≡ none → DecodesTo pem []
    more :
        {pem : Bytes} {b : Block} {bs : List Block}
        → (x.decode pem).0 ≡ some b
        → DecodesTo (x.decode pem).1 bs
        → DecodesTo pem (b ∷ bs)

  -- decoding is a function, so the blocks are determined
  pub DecodesTo-unique :
      {pem : Bytes} {bs bs' : List Block} → DecodesTo pem bs → DecodesTo pem bs' → bs ≡ bs'
  DecodesTo-unique (DecodesTo.last e) (DecodesTo.last e') = refl
  DecodesTo-unique (DecodesTo.last e) (DecodesTo.more e' d') = absurd (ground arith)
  DecodesTo-unique (DecodesTo.more e d) (DecodesTo.last e') = absurd (ground arith)
  DecodesTo-unique (DecodesTo.more e d) (DecodesTo.more e' d') =
      let rest = DecodesTo-unique d d' in ground arith

  -- a decoded block was taken off the data
  abbrev pub Shrinks : Type 0
  Shrinks =
      (pem : Bytes) (b : Block) → (x.decode pem).0 ≡ some b → length (x.decode pem).1 < length pem

  module _ (shrinks : Shrinks) where
    blocks_below :
        (n : ℕ) (pem : Bytes)
        → length pem < n
        → (bs : List Block) × DecodesTo pem bs × (length bs < n)
    blocks_below zero pem h = absurd (omega arith)
    blocks_below (suc n) pem h = elim (Option-cases (x.decode pem).0) [
      | inl e ↦ ([], DecodesTo.last e, omega arith)
      | inr (b, e) ↦
          let s = shrinks pem b e in
          let (bs, found, fits) = blocks_below n (x.decode pem).1 (omega arith) in
          (b ∷ bs, DecodesTo.more e found, omega arith)
    ]

    -- any data has blocks, and no more of them than bytes
    pub all_blocks :
        (pem : Bytes) → (bs : List Block) × DecodesTo pem bs × (length bs < suc (length pem))
    all_blocks pem = blocks_below (suc (length pem)) pem (omega arith)
