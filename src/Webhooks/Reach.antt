-- ===== src/Webhooks/Reach.antt =====
-- The registration and the handler together: what a request that the API server sends meets there.
use maroonedpods.Prelude.{
  String, ◌≡◌, refl, Bool, true, false, ◌&&◌, List, arith, any, ◌==◌, eq_iff, Result, err, Error,
  failure,
}
use maroonedpods.Admission.{
  AdmissionReview, Handler, Json, handle, should_mutate, mutate_pod, validate_pod_update,
  create_operation,
}
use maroonedpods.Cr.{MaroonedPods}
use maroonedpods.Webhooks.{Webhook, Rule, mutating_hooks, validating_hooks}

-- Some rule of the webhook names the operation and the resource; its API groups and versions are all.
abbrev pub matches : String → String → Webhook → Bool
matches operation resource h =
    any
      (λ (r : Rule). any (λ o. o == operation) r.operations && any (λ s. s == resource) r.resources)
      h.rules

pub data Registration : Type 0 where
  mutation validation : Registration

abbrev pub hooks_of : Registration → MaroonedPods → String → List Webhook
hooks_of mutation = mutating_hooks
hooks_of validation = validating_hooks

abbrev pub answer_of : Registration → Json → Handler → Result AdmissionReview
answer_of mutation = mutate_pod
answer_of validation = validate_pod_update

-- A request about a pod whose operation a registered rule on pods names is answered by the
-- injection of the gate if the rule is of the mutating configuration, and by the validation of an
-- update if it is of the validating one.
pub handle-answer_of :
    (k : Registration) (json : Json) (cr : MaroonedPods) (ns : String) (v : Handler)
    → v.request.kind ≡ "Pod"
    → any (matches v.request.operation "pods") (hooks_of k cr ns) ≡ true
    → handle json v ≡ answer_of k json v
unfolding mutating_hooks validating_hooks any handle should_mutate
handle-answer_of mutation json cr ns v pod h = ground (
  arith,
  eq_iff v.request.kind "Pod",
  eq_iff "CREATE" v.request.operation,
  eq_iff v.request.operation create_operation,
)
handle-answer_of validation json cr ns v pod h =
    let update : ◌≡◌ {A = String} "UPDATE" v.request.operation =
      (eq_iff "UPDATE" v.request.operation).0 (ground arith) in
    let not_create : (v.request.operation == create_operation) ≡ false = rw (← update) refl in
    let about_pod : (v.request.kind == "Pod") ≡ true = rw (pod) refl in ground arith

-- A request about a MaroonedPods resource is answered with an error, whatever is in it, although the
-- validating configuration has a rule that names the creation and the update of these resources.
pub handle_own_resource :
    (json : Json) (cr : MaroonedPods) (ns : String) (v : Handler)
    → v.request.kind ≡ "MaroonedPods"
    → (e : Error) × (handle json v ≡ err e)
      × (any (matches "CREATE" "maroonedpods") (hooks_of validation cr ns) ≡ true)
      × (any (matches "UPDATE" "maroonedpods") (hooks_of validation cr ns) ≡ true)
unfolding validating_hooks any handle should_mutate
handle_own_resource json cr ns v own =
    let not_pod : (v.request.kind == "Pod") ≡ false = rw (own) refl in
    (failure "MaroonedPods webhook doesn't recongnize request", ground arith, refl, refl)
