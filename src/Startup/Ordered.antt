-- ===== src/Startup/Ordered.antt =====
-- In which order the controller and the server start their parts, and when they get how far.
use maroonedpods.Prelude.{
  String, ◌≡◌, ◌↔◌, Bool, true, false, not, ◌&&◌, ◌||◌, none, some, List, [], ◌∷◌, ok, arith, any,
  ◌≢◌, ◌==◌,
}
use maroonedpods.Informers.{
  Client, ListOptions, SharedIndexInformer, get_secret_informer, get_pod_informer,
  get_maroonedpods_informer, new_list_watch_from_client,
}
use maroonedpods.Informers.Collection.{collection_of}
use maroonedpods.Startup.{
  Event, synced, blocked, waited, certs_started, serving, electing, gating, ready,
}
use maroonedpods.Startup.Controller
use maroonedpods.Startup.Controller.{
  waiting, leading, lost, execute_controller, init_and_run, run, elected, setup_leader_elector,
  on_started_leading_events,
}
use maroonedpods.Startup.Server
use maroonedpods.Startup.Server.{server_main, serve_namespace, start_tls}

-- every event of the second kind comes behind one of the first kind
unfoldable pub precedes : (Event → Bool) → (Event → Bool) → List Event → Bool
precedes first second [] = true
precedes first second (e ∷ es) = not (second e) && (first e || precedes first second es)

-- options that ask for nothing
abbrev no_options : ListOptions
no_options = record {
  label_selector = "";
  field_selector = "";
  watch = false;
  resource_version = "";
  limit = 0;
}

-- an informer over the secrets of a namespace
abbrev pub is_over_secrets : String → SharedIndexInformer → Bool
is_over_secrets ns i =
    let lists = collection_of (i.list_watch.list_func no_options) in
    lists.resource == "secrets" && lists.namespace == ns

-- the caches that were waited for, that of the secrets of the namespace among them, have synced
abbrev pub is_synced : String → Event → Bool
is_synced ns (waited informers success) = success && any (is_over_secrets ns) informers
is_synced ns _ = false

abbrev pub is_certs : String → Event → Bool
is_certs ns (certs_started _ namespace) = namespace == ns
is_certs ns _ = false

abbrev pub is_any_certs : Event → Bool
is_any_certs (certs_started _ _) = true
is_any_certs _ = false

abbrev pub is_serving : Event → Bool
is_serving (serving _) = true
is_serving _ = false

abbrev pub is_electing : Event → Bool
is_electing (electing _ _) = true
is_electing _ = false

abbrev pub is_gating : Event → Bool
is_gating (gating _) = true
is_gating _ = false

abbrev pub is_ready_event : Event → Bool
is_ready_event ready = true
is_ready_event _ = false

-- certificates are kept from caches that synced, TLS is served with certificates, and only what serves
-- runs for the election, only what was elected gates, and only what gates is ready
pub record Ordered (es : List Event) : Type 0 where
  pub certs_after_sync : (ns : String) → precedes (is_synced ns) (is_certs ns) es ≡ true
  pub serving_after_certs : precedes is_any_certs is_serving es ≡ true
  pub electing_after_serving : precedes is_serving is_electing es ≡ true
  pub gating_after_electing : precedes is_electing is_gating es ≡ true
  pub ready_after_gating : precedes is_gating is_ready_event es ≡ true

-- As far as the server goes, the same holds of it.
pub server_main-Ordered : (w : Server.World) → Ordered (server_main w).events
unfolding precedes any server_main get_secret_informer new_list_watch_from_client
server_main-Ordered w = record {
  certs_after_sync = λ ns. ground arith;
  serving_after_certs = ground arith;
  electing_after_serving = ground arith;
  gating_after_electing = ground arith;
  ready_after_gating = ground arith;
}

-- What the controller needs to become ready: its namespace and host name, a client, an informer that
-- takes its handlers, secrets that sync, a lock with an elector, the lease, and an end of the wait for the
-- other caches.
pub record Elects (w : Controller.World) (ns host : String) (cli : Client) : Type 0 where
  pub knows_namespace : w.namespace_file ≡ ok ns
  pub knows_host : w.hostname ≡ ok host
  pub has_client : w.client ≡ some cli
  pub has_handlers : w.add_event_handler ≡ none
  pub has_secrets : w.wait (get_secret_informer w.all_fields w.all_labels cli ns ∷ []) ≡ synced
  pub has_caches :
      w.wait (
        get_pod_informer w.all_fields w.all_labels cli
        ∷ get_maroonedpods_informer w.all_fields w.all_labels cli
        ∷ [])
      ≢ blocked
  pub has_elector : setup_leader_elector w ns host ≡ none
  pub has_lease : w.election ≢ waiting

-- The controller comes to report that it is the leader exactly if it knows its namespace and its host
-- name, has a client and an informer that takes its handlers, the cache of the secrets syncs, the lock
-- and the elector are made, it gets the lease, and the wait for the caches of the pods and the resources
-- comes to an end.
pub execute_controller_ready_iff :
    (w : Controller.World)
    → (any is_ready_event (execute_controller w).events ≡ true)
      ↔ ((ns : String) × (host : String) × (cli : Client) × Elects w ns host cli)
unfolding any execute_controller setup_leader_elector
execute_controller_ready_iff w = (λ h. ground arith, λ e. ground arith)
