-- ===== src/Cr.antt =====
-- The MaroonedPods resource: api/pkg/apis/core/v1alpha1/types.go of staging/src/maroonedpods.io, and
-- the functions of pkg/util/util.go that find it and the deployments in the cluster.
pub mod Active
use maroonedpods.Prelude.{
  ℕ, String, ◌==◌, Bool, true, false, not, Option, none, some, List, [], ◌∷◌, Result, ok, err,
  Error, failure, not_found, ◌>>=◌, if◌then◌else◌,
}

-- A duration is the bits of its int64 number of nanoseconds.
pub record CertConfig : Type 0 where
  pub duration : Option ℕ
  pub renew_before : Option ℕ

pub record MaroonedPodsCertConfig : Type 0 where
  pub ca : Option CertConfig
  pub server : Option CertConfig

-- the fields that the operator reads; a label selector and a
-- placement on nodes are opaque texts
pub record MaroonedPods : Type 0 where
  pub name : String
  pub uid : String
  pub being_deleted : Bool
  pub phase : String
  pub namespace_selector : Option String
  pub image_pull_policy : String
  pub priority_class : Option String
  pub infra : String
  pub cert_config : Option MaroonedPodsCertConfig

pub record Deployment : Type 0 where
  pub ready_replicas : ℕ

-- what the client reads from the cluster
pub record Cluster : Type 0 where
  pub list_maroonedpods : Result (List MaroonedPods)
  pub get_maroonedpods : String → Result MaroonedPods
  pub get_deployment_of : String → String → Result Deployment
  pub has_priority_class : String → Bool
  pub get_config_map_data : String → String → Result (List (String × String))

-- `sdkapi.PhaseError`
abbrev pub phase_error : String
phase_error = "Error"

abbrev pub too_many_active : Error
too_many_active = failure "number of active MaroonedPods CRs > 1"

unfoldable pub active_resources : List MaroonedPods → List MaroonedPods
active_resources [] = []
active_resources (cr ∷ crs) =
    let rest = active_resources crs in if not (cr.phase == phase_error) then cr ∷ rest else rest

single : List MaroonedPods → Result (Option MaroonedPods)
single [] = ok none
single (cr ∷ []) = ok (some cr)
single (_ ∷ _ ∷ _) = err too_many_active

unfoldable pub get_active_maroonedpods : Cluster → Result (Option MaroonedPods)
unfolding single
get_active_maroonedpods c = do items ← c.list_maroonedpods; single (active_resources items)

unfoldable pub get_deployment : Cluster → String → String → Result (Option Deployment)
get_deployment c name ns = elim (c.get_deployment_of name ns) [
  | ok d ↦ ok (some d)
  | err not_found ↦ ok none
  | err (failure e) ↦ err (failure e)
]
