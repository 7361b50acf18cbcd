-- ===== src/Webhooks/Tests.antt =====
-- The registration in a cluster with one active resource and two ready deployments.
use maroonedpods.Prelude.{
  String, ◌≡◌, refl, ◌↔◌, none, some, [], ◌∷◌, ok, err, failure, not_found, any, true, false, all,
}
use maroonedpods.Admission.{AdmissionRequest, Handler, Json, handle}
use maroonedpods.Cr.{MaroonedPods, Cluster, get_active_maroonedpods, get_deployment}
use maroonedpods.Cr.Active.{IsOnlyActive, get_active_maroonedpods_iff, failed}
use maroonedpods.Webhooks.{include_hooks, validating_hooks}
use maroonedpods.Webhooks.Reach.{validation, hooks_of, answer_of, matches, handle-answer_of}

abbrev resource : String → MaroonedPods
resource phase = record {
  name = "m";
  uid = "u";
  being_deleted = false;
  image_pull_policy = "";
  priority_class = none;
  infra = "";
  phase = phase;
  namespace_selector = some "gated=yes";
  cert_config = none;
}

abbrev cluster : Cluster
cluster = record {
  list_maroonedpods = ok (resource "Error" ∷ resource "Deployed" ∷ []);
  get_maroonedpods = λ name. err not_found;
  get_deployment_of = λ name ns. ok (record { ready_replicas = 1 });
  has_priority_class = λ name. true;
  get_config_map_data = λ ns name. ok (("ca-bundle.crt", "PEM") ∷ []);
}

get_active_maroonedpods_iff_example :
    ((get_active_maroonedpods cluster ≡ ok (some (resource "Deployed")))
      ↔ IsOnlyActive (resource "Error" ∷ resource "Deployed" ∷ []) (resource "Deployed"))
    × ((get_active_maroonedpods cluster ≡ ok none)
        ↔ (all failed (resource "Error" ∷ resource "Deployed" ∷ []) ≡ true))
get_active_maroonedpods_iff_example =
    get_active_maroonedpods_iff cluster (resource "Error" ∷ resource "Deployed" ∷ [])
      (resource "Deployed") refl

ready : include_hooks cluster "ns" ≡ true
unfolding include_hooks get_deployment
ready = refl

abbrev request : String → String → AdmissionRequest
request kind operation = record {
  uid = "1";
  kind = kind;
  operation = operation;
  object = "new";
  old_object = "old";
  username = "u";
}

abbrev json : Json
json = record {
  unmarshal_pod = λ s. err (failure "syntax");
  marshal_gates = λ gates. err (failure "not encoded");
}

abbrev pod_update : Handler
pod_update = record { request = request "Pod" "UPDATE"; maroonedpods_ns = "ns" }

sent : any (matches "UPDATE" "pods") (hooks_of validation (resource "Deployed") "ns") ≡ true
unfolding any validating_hooks
sent = refl

handle-answer_of_example : handle json pod_update ≡ answer_of validation json pod_update
handle-answer_of_example =
    handle-answer_of validation json (resource "Deployed") "ns" pod_update refl sent

abbrev own_creation : Handler
own_creation = record { request = request "MaroonedPods" "CREATE"; maroonedpods_ns = "ns" }
