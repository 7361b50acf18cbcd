-- ===== src/Startup/Tests.antt =====
-- A controller that is elected, and one whose secrets do not sync.
use maroonedpods.Prelude.{
  String, ◌==◌, ◌≡◌, refl, true, false, Option, none, some, List, [], ◌∷◌, ok, all, leb, ltb,
  if◌then◌else◌, Error, failure, ◌&&◌, arith,
}
use maroonedpods.Informers.{Client}
use maroonedpods.Rbac.Coverage.{controller}
use maroonedpods.Startup.{exited, running, synced, stopped}
use maroonedpods.Startup.Controller
use maroonedpods.Startup.Controller.{execute_controller, leading}
use maroonedpods.Startup.Ordered.{Ordered}
use maroonedpods.Controller.Leader.{Configuration}
use maroonedpods.Startup.Elected.{LockObject}
use maroonedpods.Rotation.{get_certificate_definitions}
use maroonedpods.Rotation.Start.{new_cert_manager, start, finds_listers}
use maroonedpods.Resources.Namespaced.{FactoryArgs}
use maroonedpods.Prelude.Int.{pos}
use maroonedpods.Settings.{get_namespace}
use maroonedpods.Startup.Operator
use maroonedpods.Startup.Operator.{
  ReconcileMaroonedPods, Hook, operator_main, set_up, pre_create, watch, check_sanity, sync,
}
use maroonedpods.Startup.Wired.{IsWired, operator_main-IsWired}
use maroonedpods.Startup.Verbosity.{zap_level, writes_at, capped, level_of_v, zap_level-writes}
use maroonedpods.Startup.Permitted.{
  AllStarted, IsPermitted, AsksGroups, execute_controller-IsPermitted,
}

abbrev cli : Client
cli = record {
  rest_client = record { group = "maroonedpods.io" };
  core_v1_rest_client = record { group = "" };
  kubevirt_v1_rest_client = record { group = "kubevirt.io" };
}

abbrev elected_world : Controller.World
elected_world = record {
  all_fields = "";
  all_labels = "";
  namespace_file = ok "maroonedpods";
  hostname = ok "host";
  client = some cli;
  add_event_handler = none;
  wait = λ informers. synced;
  new_lock = λ kind ns host. none;
  new_leader_elector = λ c. none;
  election = leading;
}

elected_runs : (execute_controller elected_world).end ≡ running
unfolding execute_controller
elected_runs = refl

stopped_exits :
    (execute_controller (record elected_world { wait = λ informers. stopped })).end ≡ exited 1
unfolding execute_controller
stopped_exits = refl

abbrev lock_objects : String → List LockObject
lock_objects kind =
    if kind == "endpointsleases"
    then ("", "endpoints") ∷ ("coordination.k8s.io", "leases") ∷ []
    else ("coordination.k8s.io", "leases") ∷ []

-- an elector that looks at the durations
abbrev checked : Configuration → Option Error
checked c = if ltb c.renew_deadline c.lease_duration then none else some (failure "lease")

abbrev checked_world : Controller.World
checked_world = record elected_world { new_leader_elector = checked }

cli-AsksGroups : AsksGroups cli
cli-AsksGroups = record { own = refl; core = refl }

execute_controller-IsPermitted_example :
    AllStarted (IsPermitted controller "maroonedpods") (execute_controller elected_world).events
execute_controller-IsPermitted_example =
    execute_controller-IsPermitted elected_world "maroonedpods" cli refl refl cli-AsksGroups

abbrev env_args : FactoryArgs
env_args = record {
  operator_version = "v1";
  controller_image = "c";
  deploy_cluster_resources = "true";
  maroonedpods_server_image = "s";
  verbosity = "1";
  pull_policy = "Always";
  image_pull_secrets = [];
  priority_class_name = "";
  namespace = "elsewhere";
  infra_node_placement = none;
}

abbrev operator_world : Operator.World
operator_world = record {
  trim_space = λ s. s;
  namespace_file = ok "ns";
  get_config = none;
  new_manager = λ o. none;
  add_to_scheme = none;
  add_extensions_to_scheme = none;
  process_env = ok env_args;
  new_uncached_client = none;
  new_controller = none;
  watch_cr = none;
  new_kubernetes_client = none;
  add_runnable = none;
  start_manager = none;
}

abbrev reconciler : ReconcileMaroonedPods
reconciler = record {
  namespace = "ns";
  cluster_namespace = "ns";
  namespaced_args = record env_args { namespace = "ns" };
  hooks = pre_create ∷ watch ∷ check_sanity ∷ sync ∷ [];
  controller = true;
  cert_manager = some (new_cert_manager "ns" []);
}

operator_runs : operator_main operator_world ≡ ok reconciler
unfolding operator_main get_namespace
operator_runs = refl

operator_main-IsWired_example :
    IsWired operator_world reconciler
    × (all
          (finds_listers (start (λ ns. true) (new_cert_manager "ns" [])).0)
          (get_certificate_definitions "ns" none)
        ≡ true)
operator_main-IsWired_example =
    operator_main-IsWired operator_world reconciler (new_cert_manager "ns" []) (λ ns. true) none
      operator_runs refl

zap_level-writes_example :
    writes_at (zap_level (pos 127)) (level_of_v 128) ≡ (leb 127 128 && leb (capped 128) 127)
zap_level-writes_example = zap_level-writes 127 128 (omega arith)

wrapped : writes_at (zap_level (pos 200)) (level_of_v 0) ≡ false
unfolding writes_at zap_level level_of_v
wrapped = refl

capped_written : writes_at (zap_level (pos 127)) (level_of_v 128) ≡ true
unfolding writes_at zap_level level_of_v
capped_written = refl
