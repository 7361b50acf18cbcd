-- ===== src/Admission/Gating.antt =====
-- handler.go: what the creation of a pod is answered with.
use maroonedpods.Prelude.{
  String, ◌≡◌, refl, ap, true, Option, none, some, List, [], ◌∷◌, ◌++◌, arith, ok, concat, eq_iff,
}
use maroonedpods.Admission.{
  PodSchedulingGate, Pod, AdmissionReview, Json, Handler, maroonedpods_gate, gated,
  allow_pod_request, gates_patch, mutate_pod, handle, should_mutate, status_accepted,
  create_operation, review_response_with_patch,
}
use maroonedpods.Admission.Account.{HasGate, has_maroonedpods_gate_iff, has_gate-gated}

abbrev pub gates_of : Option (List PodSchedulingGate) → List PodSchedulingGate
gates_of none = []
gates_of (some gates) = gates

-- what the API server stores after a creation
pub record IsGatedCopy (pod stored : Pod) : Type 0 where
  pub gate : HasGate stored.scheduling_gates
  pub kept :
      stored.scheduling_gates
      ≡ some (gates_of pod.scheduling_gates ++ record { name = maroonedpods_gate } ∷ [])
  pub same_name : stored.name ≡ pod.name

-- `apply_patch` is the API server's JSON patch: adding a member replaces the one that is there.
module _ (json : Json) (apply_patch : String → Pod → Option Pod)
    (adds : (gates : List PodSchedulingGate) (text : String) (pod : Pod)
      → json.marshal_gates gates ≡ ok text
      → apply_patch
          (concat (
            "[{\"op\": \"add\", \"path\": \"/spec/schedulingGates\", \"value\": " ∷ text ∷ "}]"
            ∷ []))
          pod
        ≡ some (record pod { scheduling_gates = some gates })) where
  gated-gates_of :
      (gates : Option (List PodSchedulingGate))
      → gated gates ≡ gates_of gates ++ record { name = maroonedpods_gate } ∷ []
  unfolding gated
  gated-gates_of none = refl
  gated-gates_of (some gates) = refl

  -- The creation of a pod that decodes, and whose gates encode, is allowed with status 202 and a
  -- JSON patch. If the API server's patch replaces the member that it adds, the patched pod has
  -- the gate, behind all the gates that it had, and its name.
  pub create-IsGatedCopy :
      (v : Handler) (pod : Pod) (text : String)
      → v.request.kind ≡ "Pod"
      → v.request.operation ≡ create_operation
      → json.unmarshal_pod v.request.object ≡ ok pod
      → json.marshal_gates (gated pod.scheduling_gates) ≡ ok text
      → (r : AdmissionReview) × (patch : String) × (stored : Pod) × (handle json v ≡ ok r)
        × (r.response.allowed ≡ true)
        × (r.response.code ≡ status_accepted)
        × (r.response.patch_type ≡ some "JSONPatch")
        × (r.response.patch ≡ some patch)
        × (apply_patch patch pod ≡ some stored)
        × IsGatedCopy pod stored
  unfolding handle mutate_pod should_mutate gates_patch review_response_with_patch
  create-IsGatedCopy v pod text is_pod is_create decodes encodes = (
    review_response_with_patch v.request.uid true status_accepted allow_pod_request
        (gates_patch text),
    gates_patch text,
    record pod { scheduling_gates = some (gated pod.scheduling_gates) },
    ground (arith, eq_iff v.request.kind "Pod", eq_iff v.request.operation create_operation),
    refl,
    refl,
    refl,
    refl,
    adds _ text pod encodes,
    record {
      gate = (has_maroonedpods_gate_iff _).0 (has_gate-gated pod.scheduling_gates);
      kept = ap some (gated-gates_of pod.scheduling_gates);
      same_name = refl;
    },
  )
