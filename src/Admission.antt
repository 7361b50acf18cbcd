-- ===== src/Admission.antt =====
-- pkg/maroonedpods-server/handler/handler.go: the webhook's `Handler`. The client that the handler
-- carries is not a field here, since none of its methods uses it.
pub mod Account
pub mod Decision
pub mod Gating
pub mod Lifecycle
pub mod Server
pub mod Mux
pub mod Tests
use maroonedpods.Prelude.{
  ℕ, String, ◌==◌, Bool, true, false, ◌&&◌, Option, none, some, List, [], ◌∷◌, ◌++◌, Result, ok,
  err, failure, ◌>>=◌, not, any, concat, if◌then◌else◌,
}

-- k8s.io/api/core/v1, the fields that the handler reads; a nil slice is `none`
pub record PodSchedulingGate : Type 0 where
  pub name : String

pub record Pod : Type 0 where
  pub name : String
  pub scheduling_gates : Option (List PodSchedulingGate)

-- k8s.io/api/admission/v1; `object` and `old_object` are the raw bytes
pub record AdmissionRequest : Type 0 where
  pub uid : String
  pub kind : String
  pub operation : String
  pub object : String
  pub old_object : String
  pub username : String

pub record AdmissionResponse : Type 0 where
  pub uid : String
  pub allowed : Bool
  pub code : ℕ
  pub message : String
  pub patch_type : Option String
  pub patch : Option String

pub record AdmissionReview : Type 0 where
  pub kind : String
  pub api_version : String
  pub response : AdmissionResponse

-- encoding/json, at the two types that the handler converts
pub record Json : Type 0 where
  pub unmarshal_pod : String → Result Pod
  pub marshal_gates : List PodSchedulingGate → Result String

abbrev pub maroonedpods_gate : String
maroonedpods_gate = "MaroonedPodsGate"

abbrev pub controller_resource_name : String
controller_resource_name = "maroonedpods-controller"

abbrev pub allow_pod_request : String
allow_pod_request = "Pod has successfully gated"

abbrev pub valid_pod_update : String
valid_pod_update = "Pod update did not remove MaroonedPodsGate"

abbrev pub controller_pod_update : String
controller_pod_update = "MaroonedPods controller has permission to remove gate from pods"

abbrev pub invalid_pod_update : String
invalid_pod_update =
    "Only MaroonedPods controller has permission to remove MaroonedPodsGate gate from pods"

-- `admissionv1.Create`, and net/http's status codes
abbrev pub create_operation : String
create_operation = "CREATE"

abbrev pub status_accepted : ℕ
status_accepted = 202

abbrev pub status_forbidden : ℕ
status_forbidden = 403

pub record Handler : Type 0 where
  pub request : AdmissionRequest
  pub maroonedpods_ns : String

unfoldable pub new_handler : AdmissionRequest → String → Handler
new_handler request ns = record { request = request; maroonedpods_ns = ns }

unfoldable pub review_response : String → Bool → ℕ → String → AdmissionReview
review_response uid allowed http_code reason = record {
  kind = "AdmissionReview";
  api_version = "admission.k8s.io/v1";
  response = record {
    uid = uid;
    allowed = allowed;
    code = http_code;
    message = reason;
    patch_type = none;
    patch = none;
  };
}

unfoldable pub review_response_with_patch : String → Bool → ℕ → String → String → AdmissionReview
unfolding review_response
review_response_with_patch uid allowed http_code reason patch =
    let rr = review_response uid allowed http_code reason in
    record rr {
      response = record (rr.response) { patch_type = some "JSONPatch"; patch = some patch };
    }

abbrev pub is_gate : PodSchedulingGate → Bool
is_gate sg = sg.name == maroonedpods_gate

unfoldable pub has_maroonedpods_gate : Option (List PodSchedulingGate) → Bool
has_maroonedpods_gate none = false
has_maroonedpods_gate (some psgs) = any is_gate psgs

unfoldable pub is_controller_service_account : String → String → Bool
unfolding concat
is_controller_service_account service_account ns =
    let prefix = concat ("system:serviceaccount:" ∷ ns ∷ []) in
    service_account == concat (prefix ∷ ":" ∷ controller_resource_name ∷ [])

unfoldable pub should_mutate : Handler → Bool
should_mutate v = v.request.kind == "Pod" && v.request.operation == create_operation

-- `append(schedulingGates, …)`, where a nil slice was made empty
unfoldable pub gated : Option (List PodSchedulingGate) → List PodSchedulingGate
gated none = record { name = maroonedpods_gate } ∷ []
gated (some gates) = gates ++ record { name = maroonedpods_gate } ∷ []

-- the text of the JSON patch that adds the marshalled gates
unfoldable pub gates_patch : String → String
unfolding concat
gates_patch gates =
    concat
      ("[{\"op\": \"add\", \"path\": \"/spec/schedulingGates\", \"value\": " ∷ gates ∷ "}]" ∷ [])

module _ (json : Json) where
  unfoldable pub mutate_pod : Handler → Result AdmissionReview
  unfolding gates_patch gated review_response_with_patch
  mutate_pod v = do
    pod ← json.unmarshal_pod v.request.object
    gates ← json.marshal_gates (gated pod.scheduling_gates)
    ok (
        review_response_with_patch v.request.uid true status_accepted allow_pod_request
          (gates_patch gates))

  unfoldable pub validate_pod_update : Handler → Result AdmissionReview
  unfolding review_response
  validate_pod_update v = do
    let uid = v.request.uid
    old_pod ← json.unmarshal_pod v.request.old_object
    if not (has_maroonedpods_gate old_pod.scheduling_gates)
        then ok (review_response uid true status_accepted valid_pod_update)
        else do
          current_pod ← json.unmarshal_pod v.request.object
          if has_maroonedpods_gate current_pod.scheduling_gates
              then ok (review_response uid true status_accepted valid_pod_update)
              else if is_controller_service_account v.request.username v.maroonedpods_ns
              then ok (review_response uid true status_accepted controller_pod_update)
              else ok (review_response uid false status_forbidden invalid_pod_update)

  -- `%+v` of the request is its kind here: the text of an error is never inspected
  unfoldable pub handle : Handler → Result AdmissionReview
  unfolding should_mutate mutate_pod validate_pod_update
  handle v =
      if should_mutate v
      then mutate_pod v
      else if v.request.kind == "Pod"
      then validate_pod_update v
      else err (failure "MaroonedPods webhook doesn't recongnize request")
