-- ===== src/Resources/Order.antt =====
-- The loop of the factories over the groups of objects, and that the order of a map does not matter.
use mathlib.Core.Logic.{∥∥₁_elim}
use mathlib.Core.List.Perm
use mathlib.Core.List.{Perm, Permᴰ, append_assoc, perm_append_comm}
use maroonedpods.Prelude.{
  String, ◌≡◌, refl, Bool, all, List, [], ◌∷◌, ◌++◌, Result, ok, ◌>>=◌, Result-cases, inl, inr,
  arith, sym, ap, ◌∙◌,
}

Perm_exchange {ℓ} :
    {A : Type ℓ}
    → (xs ys zs rest all : List A) → ys ++ zs ≡ rest
    → xs ++ rest ≡ all
    → Perm all (ys ++ (xs ++ zs))
Perm_exchange xs ys zs rest all e f =
    rw (sym f, sym e, sym (append_assoc xs ys zs), sym (append_assoc ys xs zs))
      (Perm.append_right zs (perm_append_comm xs ys))

module _ {ℓ} {A : Type ℓ} (step : String → Result (List A)) where
  unfoldable pub collect : List String → Result (List A)
  collect [] = ok []
  collect (group ∷ groups) = do rs ← step group; rest ← collect groups; ok (rs ++ rest)

  pub collect-cons :
      (group : String) (groups : List String) (all : List A)
      → collect (group ∷ groups) ≡ ok all
      → (rs rest : List A) × (step group ≡ ok rs) × (collect groups ≡ ok rest) × (rs ++ rest ≡ all)
  unfolding collect
  collect-cons group groups all h = elim (Result-cases (step group)) [
    | inr (e, failed) ↦ absurd (ground arith)
    | inl (rs, made) ↦ elim (Result-cases (collect groups)) [
      | inr (e, failed) ↦ absurd (ground arith)
      | inl (rest, others) ↦ (rs, rest, made, others, ground arith)
    ]
  ]

  collect_intro :
      (group : String) (groups : List String) (rs rest : List A)
      → step group ≡ ok rs
      → collect groups ≡ ok rest
      → collect (group ∷ groups) ≡ ok (rs ++ rest)
  unfolding collect
  collect_intro group groups rs rest made others = rw (made, others) refl

  -- Walking the groups in another order gives the same objects in another order.
  pub collect-Perm :
      {groups groups' : List String}
      → Permᴰ groups groups'
      → (all : List A) → collect groups ≡ ok all
      → (all' : List A) × (collect groups' ≡ ok all') × Perm all all'
  unfolding collect
  collect-Perm Permᴰ.nil all h = (all, h, Perm.refl all)
  collect-Perm (Permᴰ.cons {a} {b} {l₁} {l₂} e p) all h =
      let (rs, rest, made, others, whole) = collect-cons a l₁ all h in
      let (rest', others', perm) = collect-Perm p rest others in
      let made' : step b ≡ ok rs = ap step (sym e) ∙ made in
      (
        rs ++ rest',
        collect_intro b l₂ rs rest' made' others',
        rw (sym whole) (Perm.append_left rs perm),
      )
  collect-Perm (Permᴰ.swap {a} {b} {a'} {b'} {l} e f) all h =
      let (rs, rest, made, others, whole) = collect-cons a (b ∷ l) all h in
      let (rs', rest', made', others', whole') = collect-cons b l rest others in
      let again : step b' ≡ ok rs = ap step (sym e) ∙ made in
      let again' : step a' ≡ ok rs' = ap step (sym f) ∙ made' in
      (
        rs' ++ (rs ++ rest'),
        collect_intro a' (b' ∷ l) rs' (rs ++ rest') again'
            (collect_intro b' l rs rest' again others'),
        Perm_exchange rs rs' rest' rest all whole' whole,
      )
  collect-Perm (Permᴰ.trans p q) all h =
      let (middle, h', perm) = collect-Perm p all h in
      let (last, h'', perm') = collect-Perm q middle h' in (last, h'', Perm.trans perm perm')

all-Permᴰ {ℓ} : {A : Type ℓ} (p : A → Bool) {xs ys : List A} → Permᴰ xs ys → all p xs ≡ all p ys
unfolding all
all-Permᴰ p Permᴰ.nil = refl
all-Permᴰ p (Permᴰ.cons e q) = let rest = all-Permᴰ p q in ground (arith, ap p e)
all-Permᴰ p (Permᴰ.swap e f) = ground (arith, ap p e, ap p f)
all-Permᴰ p (Permᴰ.trans q r) = all-Permᴰ p q ∙ all-Permᴰ p r

pub all-Perm {ℓ} : {A : Type ℓ} (p : A → Bool) {xs ys : List A} → Perm xs ys → all p xs ≡ all p ys
all-Perm p q = ∥∥₁_elim q (hlevel) (all-Permᴰ p)
