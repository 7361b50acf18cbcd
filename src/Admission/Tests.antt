-- ===== src/Admission/Tests.antt =====
-- The webhook at concrete requests, over a small JSON codec.
use maroonedpods.Prelude.{
  String, ◌≡◌, refl, ◌↔◌, ◌⊎◌, inl, inr, true, false, Option, none, some, List, [], ◌∷◌, arith,
  ◌==◌, eq_iff, Result, ok, err, failure, Bool-cases, sym, ap, any, concat, if◌then◌else◌,
}
use maroonedpods.Admission.{
  PodSchedulingGate, Pod, AdmissionRequest, AdmissionReview, Json, new_handler, maroonedpods_gate,
  controller_resource_name, is_controller_service_account, has_maroonedpods_gate, handle,
  validate_pod_update, status_accepted, review_response, gated,
}
use maroonedpods.Admission.Account.{account, Holds, HasGate}
use maroonedpods.Admission.Decision.{Legal, Answers, validate_pod_update-Answers}
use maroonedpods.Admission.Gating.{IsGatedCopy, create-IsGatedCopy}
use maroonedpods.Admission.Lifecycle.{
  IsUpdate, Update, History, handle-Legal_iff, History-HasGate, allows,
}
use maroonedpods.Admission.Server.{HttpRequest, ReviewJson, parse_request}

abbrev gate : PodSchedulingGate
gate = record { name = maroonedpods_gate }

abbrev bare : Pod
bare = record { name = "p"; scheduling_gates = none }

abbrev held : Pod
held = record { name = "p"; scheduling_gates = some (gate ∷ []) }

-- `null` for the pod without gates, and the encoding of the one gate
abbrev decode : String → Result Pod
decode s = if s == "bare" then ok bare else if s == "held" then ok held else err (failure "syntax")

abbrev gates_text : String
gates_text = "[{\"name\":\"MaroonedPodsGate\"}]"

abbrev encode : List PodSchedulingGate → Result String
encode (g ∷ []) = if g.name == maroonedpods_gate then ok gates_text else err (failure "other gate")
encode _ = err (failure "other gates")

abbrev json : Json
json = record { unmarshal_pod = decode; marshal_gates = encode }

abbrev patch_text : String → String
patch_text t =
    concat ("[{\"op\": \"add\", \"path\": \"/spec/schedulingGates\", \"value\": " ∷ t ∷ "}]" ∷ [])

abbrev apply_patch : String → Pod → Option Pod
apply_patch t pod =
    if t == patch_text gates_text
    then some (record pod { scheduling_gates = some (gate ∷ []) })
    else none

apply_patch_adds :
    (gates : List PodSchedulingGate) (text : String) (pod : Pod)
    → encode gates ≡ ok text
    → apply_patch (patch_text text) pod ≡ some (record pod { scheduling_gates = some gates })
unfolding concat
apply_patch_adds (g ∷ []) text pod h = elim (Bool-cases (g.name == maroonedpods_gate)) [
  | inl e ↦
      let t : gates_text ≡ text = ground arith in
      let n : gate ≡ g = λ i. record { name = sym ((eq_iff g.name maroonedpods_gate).0 e) i } in
      rw (← t)
        (ap (λ (x : PodSchedulingGate). some (record pod { scheduling_gates = some (x ∷ []) })) n)
  | inr e ↦ absurd (ground arith)
]
apply_patch_adds [] text pod h = absurd (cc)
apply_patch_adds (g ∷ k ∷ gs) text pod h = absurd (cc)

abbrev request : String → String → String → String → AdmissionRequest
request operation user old new = record {
  uid = "u1";
  kind = "Pod";
  operation = operation;
  object = new;
  old_object = old;
  username = user;
}

abbrev creation : AdmissionRequest
creation = request "CREATE" "alice" "" "bare"

abbrev removal : AdmissionRequest
removal = request "UPDATE" "alice" "held" "bare"

abbrev by_controller : AdmissionRequest
by_controller = request "UPDATE" (account "mp" controller_resource_name) "held" "bare"

validate_pod_update-Answers_example :
    (r : AdmissionReview) × (validate_pod_update json (new_handler removal "mp") ≡ ok r)
    × Answers (new_handler removal "mp") (Legal "mp" "alice" held bare) r
unfolding new_handler
validate_pod_update-Answers_example =
    validate_pod_update-Answers json (new_handler removal "mp") held bare refl refl

removal_refused :
    handle json (new_handler removal "mp")
    ≡ ok (
        review_response "u1" false 403
          "Only MaroonedPods controller has permission to remove MaroonedPodsGate gate from pods")
unfolding handle new_handler has_maroonedpods_gate is_controller_service_account any
removal_refused = refl

create-IsGatedCopy_example :
    (r : AdmissionReview) × (patch : String) × (stored : Pod) × (handle json
        (new_handler creation "mp")
      ≡ ok r)
    × (r.response.allowed ≡ true)
    × (r.response.code ≡ status_accepted)
    × (r.response.patch_type ≡ some "JSONPatch")
    × (r.response.patch ≡ some patch)
    × (apply_patch patch bare ≡ some stored)
    × IsGatedCopy bare stored
unfolding new_handler gated
create-IsGatedCopy_example =
    create-IsGatedCopy json apply_patch apply_patch_adds (new_handler creation "mp") bare gates_text
      refl refl refl refl

is_update : IsUpdate json held (account "mp" controller_resource_name) bare by_controller
is_update = record {
  is_pod = refl;
  is_update = refl;
  by = refl;
  old_decodes = refl;
  new_decodes = refl;
}

handle-Legal_iff_example :
    (allows (handle json (new_handler by_controller "mp")) ≡ true)
    ↔ Legal "mp" (account "mp" controller_resource_name) held bare
handle-Legal_iff_example = handle-Legal_iff json "mp" by_controller is_update

ungated : History json "mp" held (account "mp" controller_resource_name ∷ []) bare
unfolding handle new_handler has_maroonedpods_gate is_controller_service_account any concat
ungated = History.next History.start (Update.update by_controller is_update refl)

History-HasGate_example :
    HasGate bare.scheduling_gates
    ⊎ (any (λ u. is_controller_service_account u "mp") (account "mp" controller_resource_name ∷ [])
        ≡ true)
History-HasGate_example = History-HasGate json "mp" {p = held} (Holds.here refl) ungated

abbrev reviews : ReviewJson
reviews = record {
  unmarshal_review =
      λ s. if s == "review" then ok (record { request = some removal }) else err (failure "syntax");
  marshal_review = λ r. ok r.response.message;
}

abbrev post : String → HttpRequest
post body = record { content_type = "application/json"; body = ok body }

abbrev refusal : String
refusal = "Only MaroonedPods controller has permission to remove MaroonedPodsGate gate from pods"

parse_post : parse_request json reviews (post "review") ≡ ok removal
unfolding parse_request
parse_post = refl
