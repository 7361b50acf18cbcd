-- ===== src/Controller/Gate/Noticed.antt =====
-- Which pods the controller notices of those that the webhook has gated.
use maroonedpods.Prelude.{
  String, ◌≡◌, refl, ◌↔◌, true, Option, none, some, List, [], ◌∷◌, is_some, arith,
}
use maroonedpods.Admission.{PodSchedulingGate, gated}
use maroonedpods.Controller.Gate.{is_only_gate, add_pod, update_pod}

-- the pod had no gate of its own
pub data Ungated : Option (List PodSchedulingGate) → Type 0 where
  nil : Ungated none
  empty : Ungated (some [])

-- Of the pods that the webhook has given its gate, those are noticed when they are added, and when
-- they are updated, that had no other gate before.
pub add_pod-gated_iff :
    (name : String) (gates : Option (List PodSchedulingGate))
    → ((is_some (add_pod name (some (gated gates))) ≡ true) ↔ Ungated gates)
      × ((is_some (update_pod name (some (gated gates))) ≡ true) ↔ Ungated gates)
unfolding add_pod update_pod is_only_gate gated
add_pod-gated_iff name none = ((λ _. Ungated.nil, λ _. refl), (λ _. Ungated.nil, λ _. refl))
add_pod-gated_iff name (some []) =
    ((λ _. Ungated.empty, λ _. refl), (λ _. Ungated.empty, λ _. refl))
add_pod-gated_iff name (some (g ∷ [])) =
    ((λ h. absurd (ground arith), λ u. elim u [ ]), (λ h. absurd (ground arith), λ u. elim u [ ]))
add_pod-gated_iff name (some (g ∷ other ∷ gs)) =
    ((λ h. absurd (ground arith), λ u. elim u [ ]), (λ h. absurd (ground arith), λ u. elim u [ ]))
