-- ===== src/Rbac/Rule.antt =====
-- k8s.io/api/rbac/v1: policy rules, and what they grant. No rule of the program has a wildcard.
use maroonedpods.Prelude.{
  String, ◌≡◌, Bool, true, ◌&&◌, List, [], ◌∷◌, arith, ◌==◌, eq_iff, any, all, inl, inr, Bool-cases,
}

pub record PolicyRule : Type 0 where
  pub api_groups : List String
  pub resources : List String
  pub verbs : List String

abbrev pub rule : List String → List String → List String → PolicyRule
rule groups resources verbs = record { api_groups = groups; resources = resources; verbs = verbs }

unfoldable pub member : String → List String → Bool
unfolding any
member s = any (λ t. s == t)

unfoldable pub grants : PolicyRule → String → String → String → Bool
unfolding member
grants r group resource verb =
    member group r.api_groups && member resource r.resources && member verb r.verbs

-- some rule of the list grants the verb on the resource of the API group
unfoldable pub permits : List PolicyRule → String → String → String → Bool
unfolding grants any
permits rules group resource verb = any (λ r. grants r group resource verb) rules

-- every combination that the rule names is permitted by the list
covers_rule : List PolicyRule → PolicyRule → Bool
unfolding all permits
covers_rule by r =
    all (λ g. all (λ x. all (λ v. permits by g x v) r.verbs) r.resources) r.api_groups

unfoldable pub covers : List PolicyRule → List PolicyRule → Bool
unfolding covers_rule all
covers by rules = all (covers_rule by) rules

all-member :
    (p : String → Bool) (s : String) (ss : List String)
    → all p ss ≡ true
    → member s ss ≡ true
    → p s ≡ true
unfolding all member any
all-member p s [] h m = absurd (cc)
all-member p s (t ∷ ss) h m = elim (Bool-cases (s == t)) [
  | inl e ↦ rw ((eq_iff s t).0 e) (ground arith)
  | inr e ↦ all-member p s ss (ground arith) (ground arith)
]

module _ (by : List PolicyRule) (group resource verb : String) where
  covers_rule-permits :
      (r : PolicyRule)
      → covers_rule by r ≡ true
      → grants r group resource verb ≡ true
      → permits by group resource verb ≡ true
  unfolding covers_rule grants
  covers_rule-permits r h g =
      all-member _ verb r.verbs
        (all-member _ resource r.resources (all-member _ group r.api_groups h (ground arith))
          (ground arith))
        (ground arith)

  -- What covers a list of rules permits all that the list permits.
  pub covers-permits :
      (rules : List PolicyRule)
      → covers by rules ≡ true
      → permits rules group resource verb ≡ true
      → permits by group resource verb ≡ true
  unfolding covers permits all any
  covers-permits [] h p = absurd (cc)
  covers-permits (r ∷ rules) h p = elim (Bool-cases (grants r group resource verb)) [
    | inl g ↦ covers_rule-permits r (ground arith) g
    | inr g ↦ covers-permits rules (ground arith) (ground arith)
  ]
