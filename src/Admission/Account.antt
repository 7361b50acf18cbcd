-- ===== src/Admission/Account.antt =====
-- handler.go: who counts as the MaroonedPods controller, and what counts as gated.
use text.Mathlib.TextLemmas.{append_cancel_left, append_cancel_right, append_assoc, append-nil}
use maroonedpods.Prelude.{
  String, ◌≡◌, refl, ◌↔◌, inl, inr, true, Option, none, some, List, [], ◌∷◌, arith, eq_iff, ap, ◌∙◌,
  any, any-append, concat, Bool-cases,
}
use maroonedpods.Admission.{
  PodSchedulingGate, maroonedpods_gate, controller_resource_name, is_gate, has_maroonedpods_gate,
  is_controller_service_account, gated,
}

-- the user name that Kubernetes gives to a service account
abbrev pub account : String → String → String
account ns name = concat ("system:serviceaccount:" ∷ ns ∷ ":" ∷ name ∷ [])

-- some gate of the list is MaroonedPods'
pub data Holds : List PodSchedulingGate → Type 0 where
  here :
      {sg : PodSchedulingGate} {sgs : List PodSchedulingGate}
      → sg.name ≡ maroonedpods_gate
      → Holds (sg ∷ sgs)
  there : {sg : PodSchedulingGate} {sgs : List PodSchedulingGate} → Holds sgs → Holds (sg ∷ sgs)

abbrev pub HasGate : Option (List PodSchedulingGate) → Type 0
HasGate none = ⊥
HasGate (some sgs) = Holds sgs

any-Holds : (sgs : List PodSchedulingGate) → any is_gate sgs ≡ true → Holds sgs
unfolding any
any-Holds (sg ∷ sgs) h = elim (Bool-cases (is_gate sg)) [
  | inl e ↦ here ((eq_iff sg.name maroonedpods_gate).0 e)
  | inr e ↦ there (any-Holds sgs (ground arith))
]
any-Holds [] h = cc

Holds-any : {sgs : List PodSchedulingGate} → Holds sgs → any is_gate sgs ≡ true
unfolding any
Holds-any (here {sg = sg} e) = ground (arith, eq_iff sg.name maroonedpods_gate)
Holds-any (there {sg = sg} h) = ground (arith, Holds-any h)

pub has_maroonedpods_gate_iff :
    (gates : Option (List PodSchedulingGate)) → (has_maroonedpods_gate gates ≡ true) ↔ HasGate gates
unfolding has_maroonedpods_gate
has_maroonedpods_gate_iff none = (λ h. absurd (cc), λ h. absurd h)
has_maroonedpods_gate_iff (some sgs) = (any-Holds sgs, Holds-any)

-- what `mutatePod` appends counts as the gate
pub has_gate-gated :
    (gates : Option (List PodSchedulingGate)) → has_maroonedpods_gate (some (gated gates)) ≡ true
unfolding has_maroonedpods_gate gated any
has_gate-gated none = refl
has_gate-gated (some gates) = any-append is_gate gates _ ∙ ground arith

-- the user name that the code compares with is `account` at the controller's name
expected_account :
    (ns : String)
    → concat (concat ("system:serviceaccount:" ∷ ns ∷ []) ∷ ":" ∷ controller_resource_name ∷ [])
      ≡ account ns controller_resource_name
unfolding concat
expected_account ns = simp (append_assoc, append-nil)

pub is_controller_service_account_iff :
    (user ns : String)
    → (is_controller_service_account user ns ≡ true) ↔ (user ≡ account ns controller_resource_name)
unfolding is_controller_service_account
is_controller_service_account_iff user ns =
    rw (expected_account ns) (eq_iff user (account ns controller_resource_name))

-- A service account of the controller's name is accepted exactly in the namespace of the handler.
pub account_namespace_iff :
    (ns other : String)
    → (is_controller_service_account (account other controller_resource_name) ns ≡ true)
      ↔ (other ≡ ns)
unfolding concat
account_namespace_iff ns other = (
  λ h. append_cancel_right other ns ":maroonedpods-controller" (
      append_cancel_left "system:serviceaccount:" _ _
        ((is_controller_service_account_iff _ ns).0 h)),
  λ e.
      (is_controller_service_account_iff _ ns).1
        (ap (λ (x : String). account x controller_resource_name) e),
)
