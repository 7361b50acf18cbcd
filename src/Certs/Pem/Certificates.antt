-- ===== src/Certs/Pem/Certificates.antt =====
-- pem.go: `ParseCertsPEM` against a description of it on the list of blocks.
use maroonedpods.Prelude.{
  ℕ, zero, suc, ◌<◌, ◌≡◌, ◌≢◌, ◌∙◌, Bool, true, false, List, [], ◌∷◌, ◌++◌, none, some, arith,
  length, ok, err, if◌then◌else◌, nat_eq, inl, inr, List-cases, Result-cases,
}
use mathlib.Core.List.{append-nil, append_assoc}
use maroonedpods.Certs.Pem.{
  Bytes, Block, X509, Parsed, is_plain_certificate, certs_loop, parse_certs_pem, no_certificates,
}
use maroonedpods.Certs.Pem.Blocks.{DecodesTo, Shrinks, all_blocks}

module _ (x : X509) where
  open x use {Certificate}

  -- the certificates of the plain blocks up to the first that does not parse, and its error
  unfoldable pub collect : List Block → Parsed Certificate
  collect [] = record { certs = []; error = none }
  collect (b ∷ bs) =
      if is_plain_certificate b
      then elim (x.parse_certificate b.bytes) [
        | err e ↦ record { certs = []; error = some e }
        | ok c ↦ record { certs = c ∷ (collect bs).certs; error = (collect bs).error }
      ]
      else collect bs

  -- what the function returns for the blocks: no certificate at all is an error too
  unfoldable pub certs_of : List Block → Parsed Certificate
  certs_of bs = elim (collect bs).error [
    | some e ↦ collect bs
    | none ↦ elim (collect bs).certs [
      | [] ↦ record { certs = []; error = some no_certificates }
      | c ∷ cs ↦ collect bs
    ]
  ]

  -- `certs` and `ok` in the middle of the loop, with the blocks that are still to come
  finished : List Certificate → Bool → Parsed Certificate → Parsed Certificate
  finished certs found p = record {
    certs = certs ++ p.certs;
    error = elim p.error [
      | some e ↦ some e
      | none ↦ elim p.certs [ [] ↦ if found then none else some no_certificates | c ∷ cs ↦ none ]
    ];
  }

  module _ (shrinks : Shrinks x) where
    certs_loop-finished :
        (fuel : ℕ) (pem : Bytes) (bs : List Block) (certs : List Certificate) (found : Bool)
        → DecodesTo x pem bs
        → length bs < fuel
        → certs_loop x fuel pem certs found ≡ some (finished certs found (collect bs))
    unfolding certs_loop collect finished
    certs_loop-finished zero pem bs certs found d h = absurd (omega arith)
    certs_loop-finished (suc fuel) pem [] certs found (DecodesTo.last e) h =
        ground (arith, append-nil certs)
    certs_loop-finished (suc fuel) pem (b ∷ bs) certs found (DecodesTo.more e d) h =
        let s = shrinks pem b e in
        let n : nat_eq (length pem) 0 ≡ false = ground arith in
        let rest = (x.decode pem).1 in
        elim (Result-cases (x.parse_certificate b.bytes)) [
          | inr (failed, q) ↦
              let skip = certs_loop-finished fuel rest bs certs found d (omega arith) in
              ground (arith, append-nil certs)
          | inl (c, q) ↦
              let skip = certs_loop-finished fuel rest bs certs found d (omega arith) in
              let take = certs_loop-finished fuel rest bs (certs ++ c ∷ []) true d (omega arith) in
              ground (arith, append_assoc certs (c ∷ []) (collect bs).certs)
        ]

    -- If `pem.Decode` shortens what it decodes, `ParseCertsPEM` ends on any data, and returns what
    -- `certs_of` gives for the blocks of the data.
    pub parse_certs_pem-certs_of :
        (pem : Bytes)
        → (bs : List Block) × DecodesTo x pem bs × (parse_certs_pem x pem ≡ some (certs_of bs))
    unfolding parse_certs_pem certs_of finished
    parse_certs_pem-certs_of pem =
        let (bs, d, fits) = all_blocks x shrinks pem in
        (bs, d, certs_loop-finished (suc (length pem)) pem bs [] false d fits ∙ ground arith)

    certs_of-ne-nil : (bs : List Block) → (certs_of bs).error ≡ none → (certs_of bs).certs ≢ []
    unfolding certs_of
    certs_of-ne-nil bs h = ground arith

    -- If `pem.Decode` shortens what it decodes, a result of `ParseCertsPEM` without an error has a
    -- first certificate, which the callers take as `leaf[0]`.
    pub parse_certs_pem_leaf :
        (pem : Bytes) (p : Parsed Certificate)
        → parse_certs_pem x pem ≡ some p
        → p.error ≡ none
        → (leaf : Certificate) × (others : List Certificate) × (p.certs ≡ leaf ∷ others)
    parse_certs_pem_leaf pem p returns fine =
        let (bs, d, e) = parse_certs_pem-certs_of pem in
        elim (List-cases p.certs) [
          | inr found ↦ found
          | inl empty ↦ absurd (ground (arith, certs_of-ne-nil bs))
        ]
