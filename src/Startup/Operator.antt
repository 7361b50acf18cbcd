-- ===== src/Startup/Operator.antt =====
-- cmd/maroonedpods-operator/maroonedpods-operator.go, and in pkg/maroonedpods-operator `Add` with
-- `newReconciler` and `add` of controller.go, and `registerHooks` of reconciler-hooks.go.
use maroonedpods.Prelude.{
  String, Bool, true, false, Option, none, some, List, [], ◌∷◌, ◌++◌, Result, ok, err, Error, ◌>>=◌,
}
use maroonedpods.Settings.{get_namespace}
use maroonedpods.Resources.Namespaced.{FactoryArgs}
use maroonedpods.Rotation.Start.{CertManager, new_cert_manager}

-- the methods that the library calls
pub data Hook : Type 0 where
  pre_create watch check_sanity sync : Hook

pub record ReconcileMaroonedPods : Type 0 where
  pub namespace : String
  pub cluster_namespace : String
  pub namespaced_args : FactoryArgs
  pub hooks : List Hook
  pub controller : Bool
  pub cert_manager : Option CertManager

-- the options of the manager that `main` sets beside the constant ones
pub record ManagerOptions : Type 0 where
  pub namespace : String
  pub leader_election : Bool
  pub leader_election_namespace : String
  pub leader_election_id : String

-- what the calls of `main` give
pub record World : Type 0 where
  pub trim_space : String → String
  pub namespace_file : Result String
  -- the configuration of the client, the manager, the two schemes
  pub get_config : Option Error
  pub new_manager : ManagerOptions → Option Error
  pub add_to_scheme : Option Error
  pub add_extensions_to_scheme : Option Error
  -- `envconfig.Process`, from a zero value
  pub process_env : Result FactoryArgs
  pub new_uncached_client : Option Error
  pub new_controller : Option Error
  pub watch_cr : Option Error
  pub new_kubernetes_client : Option Error
  pub add_runnable : Option Error
  -- `Start` of the manager, which comes back when the process is told to stop
  pub start_manager : Option Error

abbrev pub unless {ℓ} : {A : Type ℓ} → Option Error → Result A → Result A
unless none rest = rest
unless (some e) rest = err e

-- `registerHooks`
unfoldable pub register_hooks : ReconcileMaroonedPods → ReconcileMaroonedPods
register_hooks r = record r { hooks = r.hooks ++ (pre_create ∷ watch ∷ check_sanity ∷ sync ∷ []) }

module _ (w : World) where
  abbrev pub namespace_of : String
  namespace_of = get_namespace w.trim_space w.namespace_file

  unfoldable pub new_reconciler : Result ReconcileMaroonedPods
  unfolding register_hooks
  new_reconciler = w.process_env >>= λ args. unless w.new_uncached_client (
      ok (
        register_hooks (record {
          namespace = namespace_of;
          cluster_namespace = namespace_of;
          namespaced_args = record args { namespace = namespace_of };
          hooks = [];
          controller = false;
          cert_manager = none;
        })))

  -- `NewCertManager`, with no additional namespaces
  unfoldable pub new_cert_manager_of : String → Result CertManager
  new_cert_manager_of ns =
      unless w.new_kubernetes_client (unless w.add_runnable (ok (new_cert_manager ns [])))

  -- `add`
  unfoldable pub add_to_manager : ReconcileMaroonedPods → Result ReconcileMaroonedPods
  unfolding new_cert_manager_of
  add_to_manager r = unless w.new_controller (
      unless w.watch_cr (
        new_cert_manager_of r.namespace >>= λ cm.
        ok (record r { controller = true; cert_manager = some cm })))

  -- `Add`
  unfoldable pub add : Result ReconcileMaroonedPods
  unfolding new_reconciler add_to_manager
  add = new_reconciler >>= add_to_manager

  unfoldable pub manager_options : ManagerOptions
  manager_options = record {
    namespace = namespace_of;
    leader_election = true;
    leader_election_namespace = namespace_of;
    leader_election_id = "maroonedpods-operator-leader-election-helper";
  }

  -- what `main` comes to: an exit with code 1, or the manager with its reconciler was started and gave
  -- no error
  unfoldable pub set_up : Result ReconcileMaroonedPods
  unfolding add manager_options
  set_up = unless w.get_config (
      unless (w.new_manager manager_options)
        (unless w.add_to_scheme (unless w.add_extensions_to_scheme add)))

  unfoldable pub operator_main : Result ReconcileMaroonedPods
  unfolding set_up
  operator_main = set_up >>= λ r. unless w.start_manager (ok r)
