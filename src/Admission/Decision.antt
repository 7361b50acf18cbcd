-- ===== src/Admission/Decision.antt =====
-- handler.go: what `Handle` answers, on every branch.
use maroonedpods.Prelude.{
  String, ◌≡◌, refl, ◌↔◌, ◌⊎◌, inl, inr, Bool, true, false, none, arith, ok, if◌then◌else◌,
}
use maroonedpods.Admission.{
  Pod, AdmissionReview, Json, Handler, has_maroonedpods_gate, is_controller_service_account,
  review_response, validate_pod_update, controller_resource_name, status_accepted, status_forbidden,
  valid_pod_update, controller_pod_update, invalid_pod_update,
}
use maroonedpods.Admission.Account.{
  account, HasGate, has_maroonedpods_gate_iff, is_controller_service_account_iff,
}

-- An update from `old` to `new` by `user` is legal: it removes no gate, or the controller asks.
abbrev pub Legal : String → String → Pod → Pod → Type 0
Legal ns user old new =
    (¬ HasGate old.scheduling_gates)
    ⊎ HasGate new.scheduling_gates
    ⊎ (user ≡ account ns controller_resource_name)

-- a verdict, and the HTTP status that goes with it
pub record Answers (v : Handler) (P : Type 0) (r : AdmissionReview) : Type 0 where
  pub allowed_iff : (r.response.allowed ≡ true) ↔ P
  pub code : r.response.code ≡ (if r.response.allowed then status_accepted else status_forbidden)
  pub uid : r.response.uid ≡ v.request.uid
  pub no_patch : r.response.patch ≡ none

-- the answer, from the three tests
verdict : String → Bool → Bool → Bool → AdmissionReview
unfolding review_response
verdict uid true false true = review_response uid true status_accepted controller_pod_update
verdict uid true false false = review_response uid false status_forbidden invalid_pod_update
verdict uid _ _ _ = review_response uid true status_accepted valid_pod_update

module _ (v : Handler) {O N C : Type 0} where
  verdict-Answers :
      (o n c : Bool)
      → (o ≡ true) ↔ O
      → (n ≡ true) ↔ N
      → (c ≡ true) ↔ C
      → Answers v ((¬ O) ⊎ N ⊎ C) (verdict v.request.uid o n c)
  unfolding verdict
  verdict-Answers true false false ho hn hc = record {
    allowed_iff = (
      λ h. absurd (cc),
      λ h. elim h [
        | inl x ↦ absurd (x (ho.0 refl))
        | inr y ↦ elim y [ inl z ↦ absurd (cc (hn.1 z)) | inr z ↦ absurd (cc (hc.1 z)) ]
      ],
    );
    code = refl;
    uid = refl;
    no_patch = refl;
  }
  verdict-Answers true false true ho hn hc = record {
    allowed_iff = (λ h. inr (inr (hc.0 refl)), λ _. refl);
    code = refl;
    uid = refl;
    no_patch = refl;
  }
  verdict-Answers true true _ ho hn hc = record {
    allowed_iff = (λ h. inr (inl (hn.0 refl)), λ _. refl);
    code = refl;
    uid = refl;
    no_patch = refl;
  }
  verdict-Answers false _ _ ho hn hc = record {
    allowed_iff = (λ h. inl (λ x. absurd (cc (ho.1 x))), λ _. refl);
    code = refl;
    uid = refl;
    no_patch = refl;
  }

module _ (json : Json) (v : Handler) (old new : Pod)
    (old_decodes : json.unmarshal_pod v.request.old_object ≡ ok old)
    (new_decodes : json.unmarshal_pod v.request.object ≡ ok new) where
  -- the three tests of `validatePodUpdate`, in the order of the code
  validate_pod_update-verdict :
      validate_pod_update json v
      ≡ ok (
          verdict v.request.uid
            (has_maroonedpods_gate old.scheduling_gates)
            (has_maroonedpods_gate new.scheduling_gates)
            (is_controller_service_account v.request.username v.maroonedpods_ns))
  unfolding validate_pod_update verdict
  validate_pod_update-verdict = ground arith

  -- If both pods decode, the update is answered, with status 202 exactly if it is legal and 403
  -- otherwise, under the request's uid and with no patch.
  pub validate_pod_update-Answers :
      (r : AdmissionReview) × (validate_pod_update json v ≡ ok r)
      × Answers v (Legal v.maroonedpods_ns v.request.username old new) r
  validate_pod_update-Answers = (
    _,
    validate_pod_update-verdict,
    verdict-Answers v _ _ _ (has_maroonedpods_gate_iff _) (has_maroonedpods_gate_iff _)
        (is_controller_service_account_iff _ _),
  )
