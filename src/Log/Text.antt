-- ===== src/Log/Text.antt =====
-- The functions of Go's strings package that log.go calls, on a line's bytes.
use maroonedpods.Prelude.{
  ℕ, zero, suc, ◌+◌, ◌≤◌, ◌≡◌, refl, Bool, true, false, ◌&&◌, ◌||◌, List, [], ◌∷◌, ◌++◌, arith,
  length, any, nat_eq, leb, if◌then◌else◌, Option, none, some, Option-cases, inl, inr,
}

abbrev pub Line : Type 0
Line = List ℕ

abbrev pub is_space : ℕ → Bool
is_space c = nat_eq c 32 || leb 9 c && leb c 13

unfoldable pub trim_left : Line → Line
trim_left [] = []
trim_left (c ∷ s) = elim (is_space c) [ true ↦ trim_left s | false ↦ c ∷ s ]

unfoldable pub trim_right : Line → Line
trim_right [] = []
trim_right (c ∷ s) = elim (trim_right s) [
  | [] ↦ elim (is_space c) [ true ↦ [] | false ↦ c ∷ [] ]
  | d ∷ t ↦ c ∷ d ∷ t
]

-- `strings.TrimSpace`, on ASCII
unfoldable pub trim_space : Line → Line
unfolding trim_left trim_right
trim_space s = trim_right (trim_left s)

-- `strings.ToLower`, on ASCII
unfoldable pub to_lower : Line → Line
to_lower [] = []
to_lower (c ∷ s) = (if leb 65 c && leb c 90 then c + 32 else c) ∷ to_lower s

unfoldable pub is_prefix : Line → Line → Bool
is_prefix [] s = true
is_prefix (p ∷ ps) [] = false
is_prefix (p ∷ ps) (c ∷ s) = nat_eq p c && is_prefix ps s

-- `strings.Contains`
unfoldable pub contains : Line → Line → Bool
unfolding is_prefix
contains [] sub = is_prefix sub []
contains (c ∷ s) sub = is_prefix sub (c ∷ s) || contains s sub

-- what stands before and after the first ": "
unfoldable pub cut : Line → Option (Line × Line)
cut [] = none
cut (c ∷ []) = none
cut (c ∷ d ∷ s) = elim (nat_eq c 58 && nat_eq d 32) [
  | true ↦ some ([], s)
  | false ↦ elim (cut (d ∷ s)) [ none ↦ none | some r ↦ some (c ∷ r.0, r.1) ]
]

-- `strings.SplitN(line, ": ", suc n)`
unfoldable pub split_n : ℕ → Line → List Line
unfolding cut
split_n zero s = s ∷ []
split_n (suc n) s = elim (cut s) [ none ↦ s ∷ [] | some r ↦ r.0 ∷ split_n n r.1 ]

abbrev pub join : List Line → Line
join [] = []
join (f ∷ []) = f
join (f ∷ g ∷ fs) = f ++ 58 ∷ 32 ∷ join (g ∷ fs)

cut-append : (s : Line) (r : Line × Line) → cut s ≡ some r → s ≡ r.0 ++ 58 ∷ 32 ∷ r.1
unfolding cut
cut-append [] r h = ground arith
cut-append (c ∷ []) r h = ground arith
cut-append (c ∷ d ∷ s) r h = elim (Option-cases (cut (d ∷ s))) [
  | inl e ↦ ground arith
  | inr (q, e) ↦ let rest = cut-append (d ∷ s) q e in ground arith
]

split_n-filled : (n : ℕ) (s : Line) → (f : Line) × (fs : List Line) × (split_n n s ≡ f ∷ fs)
unfolding split_n
split_n-filled zero s = (s, [], refl)
split_n-filled (suc n) s = elim (Option-cases (cut s)) [
  | inl e ↦ (s, [], ground arith)
  | inr (r, e) ↦ (r.0, split_n n r.1, ground arith)
]

-- Splitting loses nothing, and gives at most the number of pieces that was asked for.
pub join-split_n : (n : ℕ) (s : Line) → (join (split_n n s) ≡ s) × (length (split_n n s) ≤ suc n)
unfolding split_n
join-split_n zero s = (refl, omega arith)
join-split_n (suc n) s = elim (Option-cases (cut s)) [
  | inl e ↦ (ground arith, ground arith)
  | inr (r, e) ↦
      let (joined, few) = join-split_n n r.1 in
      let (f, fs, filled) = split_n-filled n r.1 in
      let whole = cut-append s r e in (ground arith, ground arith)
]

unfoldable pub line_eq : Line → Line → Bool
line_eq [] [] = true
line_eq (c ∷ s) (d ∷ t) = nat_eq c d && line_eq s t
line_eq _ _ = false

-- `strings.Split(line, ":")`, if that gives two pieces: the second
unfoldable pub after_only_colon : Line → Option Line
after_only_colon [] = none
after_only_colon (c ∷ s) = elim (nat_eq c 58) [
  | false ↦ after_only_colon s
  | true ↦ if any (λ d. nat_eq d 58) s then none else some s
]
