-- ===== src/Startup/Elected.antt =====
-- What the controller asks of client-go's leader election: the durations, the lock, and the requests for the
-- objects in which the lock keeps its record.
use maroonedpods.Prelude.{◌*◌, ◌<◌, String, ◌≡◌, ◌≢◌, Bool, true, none, some, List, [], ◌∷◌, ok}
use maroonedpods.Informers.{
  Client, get_secret_informer, get_pod_informer, get_maroonedpods_informer,
}
use maroonedpods.Startup.{synced, blocked}
use maroonedpods.Rbac.Rule.{member}
use maroonedpods.Rbac.Coverage.{controller}
use maroonedpods.Controller.Leader.{Configuration}
use maroonedpods.Startup.Controller.{World, waiting}
use maroonedpods.Startup.Permitted.{allowed}

-- an API group and a resource in it
abbrev pub LockObject : Type 0
LockObject = String × String

abbrev supported : List String
supported = "leases" ∷ "endpointsleases" ∷ "configmapsleases" ∷ []

-- What is documented of client-go's election. A lock of a supported kind is made; an elector is made if the
-- lease lasts longer than the deadline to renew it, that longer than the jittered period between tries, which
-- is 1.2 times the period, and none is 0; and the kind "endpointsleases" is over an endpoints and a lease.
pub record IsElection (w : World) (objects : String → List LockObject) : Type 0 where
  pub locks :
      (kind ns host : String) → member kind supported ≡ true → w.new_lock kind ns host ≡ none
  pub elects :
      (c : Configuration)
      → c.renew_deadline < c.lease_duration
      → 12 * c.retry_period < 10 * c.renew_deadline
      → 0 < c.retry_period
      → w.new_leader_elector c ≡ none
  pub endpoints_and_lease :
      objects "endpointsleases" ≡ ("", "endpoints") ∷ ("coordination.k8s.io", "leases") ∷ []

-- what the controller itself needs to become ready
pub record Starts (w : World) (ns host : String) (cli : Client) : Type 0 where
  pub knows_namespace : w.namespace_file ≡ ok ns
  pub knows_host : w.hostname ≡ ok host
  pub has_client : w.client ≡ some cli
  pub has_handlers : w.add_event_handler ≡ none
  pub has_secrets : w.wait (get_secret_informer w.all_fields w.all_labels cli ns ∷ []) ≡ synced
  pub has_caches :
      w.wait (
        get_pod_informer w.all_fields w.all_labels cli
        ∷ get_maroonedpods_informer w.all_fields w.all_labels cli
        ∷ [])
      ≢ blocked
  pub has_lease : w.election ≢ waiting

-- the controller may use the verb on the object of the lock in its namespace
abbrev pub may : String → String → LockObject → Bool
may ns verb o =
    allowed controller ns
      (record { group = o.0; namespace = ns; resource = o.1; fields = ""; labels = "" }) verb
