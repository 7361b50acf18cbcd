-- ===== src/Reconcile.antt =====
-- pkg/maroonedpods-operator/cr-manager.go and controller.go: what the operator applies for a resource.
pub mod Objects
pub mod Args
pub mod Roles
pub mod Claim
pub mod Tests
use maroonedpods.Prelude.{
  String, ◌==◌, Bool, true, false, not, Option, none, some, List, [], ◌∷◌, ◌++◌, map, Result, ok,
  err, Error, if◌then◌else◌, failure, not_found, Map,
}
use maroonedpods.Cr.{MaroonedPods, Cluster}
use maroonedpods.Rotation.{ObjectMeta, CertificateDefinition, get_certificate_definitions}
use maroonedpods.Rotation.Sync.{Api, sync}
use maroonedpods.Webhooks
use maroonedpods.Resources.{Builder, Object}
use maroonedpods.Resources.Util.{priority_class}
use maroonedpods.Resources.Namespaced.{FactoryArgs, create_all_resources}
use maroonedpods.Resources.Cluster.{create_all_static_resources, create_all_dynamic_resources}

-- an object that is applied to the cluster
pub data Applied : Type 0 where
  created : Object → Applied
  registered : Webhooks.Object → Applied
  signer_secret cert_bundle_configmap target_secret : ObjectMeta → Applied

-- `MarkCrFailedHealing` is called with the reason, and the error returned; or it panics
pub data Outcome : Type 0 where
  applied : List Applied → Outcome
  failed_healing : String → Error → Outcome
  panicked : Outcome

-- the orders in which the three maps of factory functions are walked
pub record Walk : Type 0 where
  pub static : List String
  pub namespaced : List String
  pub dynamic : List String

unfoldable pub preferred_pull_policy : MaroonedPods → String → String
preferred_pull_policy cr own = if cr.image_pull_policy == "" then own else cr.image_pull_policy

unfoldable pub preferred_priority_class : MaroonedPods → String
preferred_priority_class cr = elim cr.priority_class [
  | none ↦ priority_class
  | some p ↦ if p == "" then priority_class else p
]

unfoldable pub get_namespaced_args : Cluster → FactoryArgs → Option MaroonedPods → FactoryArgs
get_namespaced_args c args none = args
get_namespaced_args c args (some cr) =
    let preferred = preferred_priority_class cr in
    record args {
      pull_policy = preferred_pull_policy cr args.pull_policy;
      priority_class_name = if c.has_priority_class preferred then preferred else "";
      infra_node_placement = some cr.infra;
    }

unfoldable pub one_of : (ObjectMeta → Applied) → Option ObjectMeta → List Applied
one_of make none = []
one_of make (some meta) = make meta ∷ []

-- the loop over the definitions
unfoldable pub certificate_objects : List CertificateDefinition → List Applied
unfolding one_of
certificate_objects [] = []
certificate_objects (cd ∷ cds) =
    one_of signer_secret cd.signer_secret
    ++ (one_of cert_bundle_configmap cd.cert_bundle_configmap
        ++ (one_of target_secret cd.target_secret ++ certificate_objects cds))

unfoldable pub static_step : Builder → Bool → String → Walk → Result (List Object)
static_step b deploy_cluster namespace walk =
    if deploy_cluster then create_all_static_resources b namespace walk.static else ok []

-- `GetAllResources`; `deploy_cluster` is the SDK's `DeployClusterResources`
unfoldable pub get_all_resources :
    Builder → Bool → Cluster → FactoryArgs → Walk → MaroonedPods → Outcome
get_all_resources b deploy_cluster c args walk cr =
    elim (static_step b deploy_cluster args.namespace walk) [
      | err e ↦ failed_healing "CreateResources" e
      | ok crs ↦
          elim (create_all_resources b walk.namespaced (get_namespaced_args c args (some cr))) [
            | err e ↦ failed_healing "CreateNamespaceResources" e
            | ok nsrs ↦ elim (create_all_dynamic_resources c args.namespace walk.dynamic) [
              | none ↦ panicked
              | some (err e) ↦ failed_healing "CreateDynamicResources" e
              | some (ok drs) ↦ applied (
                  map created crs
                  ++ (map created nsrs
                      ++ (map registered drs
                          ++ certificate_objects
                              (get_certificate_definitions args.namespace (some cr)))))
            ]
          ]
    ]

-- `Reconcile`: whether the library reconciles the request, or with what it ends before. The second
-- argument is what the read of the resource gives.
pub data Request : Type 0 where
  gone : Request
  unread : Error → Request
  delegated : MaroonedPods → Request

unfoldable pub reconcile : Cluster → String → Request
reconcile c name = elim (c.get_maroonedpods name) [
  | ok cr ↦ delegated cr
  | err not_found ↦ gone
  | err (failure e) ↦ unread (failure e)
]

-- the synchronizer of perishables, `sync`
unfoldable pub sync_certificates :
    (api : Api) → api.State → String → MaroonedPods → Option (api.State × Option Error)
sync_certificates api st namespace cr =
    if cr.being_deleted
    then some (st, none)
    else sync api st (get_certificate_definitions namespace (some cr))
