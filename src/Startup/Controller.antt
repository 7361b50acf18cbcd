-- ===== src/Startup/Controller.antt =====
-- pkg/maroonedpods-controller/application.go: `Execute`, with all that it calls.
use maroonedpods.Prelude.{
  String, true, false, Option, none, some, List, [], ◌∷◌, Result, ok, err, Error,
}
use maroonedpods.Informers.{
  Client, SharedIndexInformer, get_pod_informer, get_maroonedpods_informer, get_secret_informer,
}
use maroonedpods.Controller.Leader.{Configuration, default_leader_election_configuration}
use maroonedpods.Rotation.{secret_resource_name}
use maroonedpods.Startup.{
  Event, routed, started, waited, certs_started, serving, electing, gating, ready, exited, fatal,
  panicked, running, Wait, synced, stopped, blocked, Process, ends, then_, after,
}

-- what becomes of the election: the process waits for the lease, holds it, or held it until the callback
-- had come as far as it comes, and lost it then
pub data Election : Type 0 where
  waiting leading lost : Election

-- what the calls of `Execute` give
pub record World : Type 0 where
  pub all_fields : String
  pub all_labels : String
  -- the file of the service account
  pub namespace_file : Result String
  pub hostname : Result String
  -- nil if the client could not be made; the error is not looked at
  pub client : Option Client
  pub add_event_handler : Option Error
  pub wait : List SharedIndexInformer → Wait
  -- `resourcelock.New`, by the kind of the lock, its namespace and the identity, and `NewLeaderElector`
  pub new_lock : String → String → String → Option Error
  pub new_leader_elector : Configuration → Option Error
  pub election : Election

-- `fmt.Sprintf` of `DefaultHost` and `DefaultPort`
abbrev pub address : String
address = "0.0.0.0:8443"

module _ (w : World) where
  -- `setupLeaderElector`
  unfoldable pub setup_leader_elector : String → String → Option Error
  setup_leader_elector ns host =
      let config = default_leader_election_configuration in
      elim (w.new_lock config.resource_lock ns host) [
        | some e ↦ some e
        | none ↦ w.new_leader_elector config
      ]

  -- `onStartedLeading`: caches that are not waited for to the end are a warning
  unfoldable pub on_started_leading_events : Client → List Event
  on_started_leading_events cli =
      let pods = get_pod_informer w.all_fields w.all_labels cli in
      let crs = get_maroonedpods_informer w.all_fields w.all_labels cli in
      started pods ∷ started crs ∷ (elim (w.wait (pods ∷ crs ∷ [])) [
        | synced ↦ waited (pods ∷ crs ∷ []) true ∷ gating 3 ∷ ready ∷ []
        | stopped ↦ waited (pods ∷ crs ∷ []) false ∷ gating 3 ∷ ready ∷ []
        | blocked ↦ []
      ])

  -- `Run` of the elector, which returns only when the lease is lost
  unfoldable pub elected : Client → Process
  unfolding on_started_leading_events
  elected cli = elim w.election [
    | waiting ↦ ends running
    | leading ↦ after (on_started_leading_events cli) (ends running)
    | lost ↦ after (on_started_leading_events cli) (ends fatal)
  ]

  unfoldable pub run : String → String → Client → Process
  unfolding elected setup_leader_elector
  run ns host cli =
      let secrets = get_secret_informer w.all_fields w.all_labels cli ns in
      let election : Process = elim (setup_leader_elector ns host) [
        | some _ ↦ ends fatal
        | none ↦ then_ (electing default_leader_election_configuration ns) (elected cli)
      ] in
      then_ (started secrets) (elim (w.wait (secrets ∷ [])) [
        | blocked ↦ ends running
        | stopped ↦ then_ (waited (secrets ∷ []) false) (ends (exited 1))
        | synced ↦
            then_ (waited (secrets ∷ []) true)
              (then_ (certs_started secret_resource_name ns) (then_ (serving address) election))
      ])

  -- `initMaroonedPodsGateController`, then `Run`
  unfoldable pub init_and_run : String → String → Client → Process
  unfolding run
  init_and_run ns host cli = elim w.add_event_handler [
    | some _ ↦ ends panicked
    | none ↦ run ns host cli
  ]

  -- a nil client is dereferenced by the first informer
  unfoldable pub execute_controller : Process
  unfolding init_and_run
  execute_controller = then_ (routed "/leader") (elim w.namespace_file [
    | err _ ↦ ends panicked
    | ok ns ↦ elim w.hostname [
      | err _ ↦ ends fatal
      | ok host ↦ elim w.client [ none ↦ ends panicked | some cli ↦ init_and_run ns host cli ]
    ]
  ])
