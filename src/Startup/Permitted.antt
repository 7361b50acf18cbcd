-- ===== src/Startup/Permitted.antt =====
-- The requests of the informers that the controller and the server start, against the roles that the
-- operator creates for the two.
use maroonedpods.Prelude.{
  ◌∙◌, String, ◌==◌, ◌≡◌, refl, Bool, true, false, ◌&&◌, ◌||◌, List, [], ◌∷◌, eq_refl, some, ok,
  ◌⊎◌, Option-cases, Result-cases, inl, inr,
}
use mathlib.Core.Path.{ap₂}
use maroonedpods.Informers.{
  Client, ListOptions, Request, SharedIndexInformer, get_pod_informer, get_maroonedpods_informer,
  get_secret_informer,
}
use maroonedpods.Informers.Collection.{
  Collection, collection_of, verb_of, IsOver, new_list_watch_from_client-IsOver,
}
use maroonedpods.Rbac.Rule.{permits}
use maroonedpods.Rbac.Controller.{controller_cluster_rules, controller_role_rules}
use maroonedpods.Rbac.Server.{server_cluster_rules, server_role_rules}
use maroonedpods.Rbac.Coverage.{Program, controller, server, granted_rules, cluster, namespaced}
use maroonedpods.Settings.{get_namespace}
use maroonedpods.Startup.{Event, started, Wait, synced, stopped, blocked, Process}
use maroonedpods.Startup.Controller
use maroonedpods.Startup.Controller.{
  Election, execute_controller, elected, run, init_and_run, setup_leader_elector, waiting, leading,
  lost,
}
use maroonedpods.Startup.Server
use maroonedpods.Startup.Server.{server_main, serve_namespace, start_tls}

-- the groups in which the REST clients of a client ask
pub record AsksGroups (cli : Client) : Type 0 where
  pub own : cli.rest_client.group ≡ "maroonedpods.io"
  pub core : cli.core_v1_rest_client.group ≡ ""

-- what the program's cluster role and, in its namespace, its role permit
abbrev pub allowed : Program → String → Collection → String → Bool
allowed program ns c verb =
    permits (granted_rules cluster program) c.group c.resource verb
    || (c.namespace == ns && permits (granted_rules namespaced program) c.group c.resource verb)

abbrev pub is_allowed : Program → String → Request → Bool
is_allowed program ns r = allowed program ns (collection_of r) (verb_of r)

-- the informer's lists, which ask for no watch, and its watches
pub record IsPermitted (program : Program) (ns : String) (i : SharedIndexInformer) : Type 0 where
  pub lists :
      (o : ListOptions) → o.watch ≡ false → is_allowed program ns (i.list_watch.list_func o) ≡ true
  pub watches : (o : ListOptions) → is_allowed program ns (i.list_watch.watch_func o) ≡ true

abbrev pub AllStarted : (SharedIndexInformer → Type 0) → List Event → Type 0
AllStarted P [] = Unit {0}
AllStarted P (started i ∷ es) = P i × AllStarted P es
AllStarted P (_ ∷ es) = AllStarted P es

Wait-cases : (x : Wait) → (x ≡ synced) ⊎ (x ≡ stopped) ⊎ (x ≡ blocked)
Wait-cases synced = inl refl
Wait-cases stopped = inr (inl refl)
Wait-cases blocked = inr (inr refl)

Election-cases : (x : Election) → (x ≡ waiting) ⊎ (x ≡ leading) ⊎ (x ≡ lost)
Election-cases waiting = inl refl
Election-cases leading = inr (inl refl)
Election-cases lost = inr (inr refl)

module _ (program : Program) (ns : String) where
  is_allowed_of :
      (r : Request) {c : Collection} {verb : String}
      → collection_of r ≡ c
      → verb_of r ≡ verb
      → allowed program ns c verb ≡ true
      → is_allowed program ns r ≡ true
  is_allowed_of r p q h = ap₂ (allowed program ns) p q ∙ h

  IsOver-IsPermitted :
      {i : SharedIndexInformer} {c : Collection}
      → IsOver i.list_watch c
      → allowed program ns c "list" ≡ true
      → allowed program ns c "watch" ≡ true
      → IsPermitted program ns i
  IsOver-IsPermitted over h k = record {
    lists = λ o e. is_allowed_of _ (over.lists_it o) (over.lists o e) h;
    watches = λ o. is_allowed_of _ (over.watches_it o) (over.watches o) k;
  }

module _ (fields labels ns : String) (cli : Client) (groups : AsksGroups cli) where
  pods-IsPermitted : IsPermitted controller ns (get_pod_informer fields labels cli)
  unfolding get_pod_informer permits controller_cluster_rules
  pods-IsPermitted =
      IsOver-IsPermitted controller ns (new_list_watch_from_client-IsOver _ _ _ _ _)
        (rw groups.core refl) (rw groups.core refl)

  crs-IsPermitted : IsPermitted controller ns (get_maroonedpods_informer fields labels cli)
  unfolding get_maroonedpods_informer permits controller_cluster_rules
  crs-IsPermitted =
      IsOver-IsPermitted controller ns (new_list_watch_from_client-IsOver _ _ _ _ _)
        (rw groups.own refl) (rw groups.own refl)

  secrets-IsPermitted : (p : Program) → IsPermitted p ns (get_secret_informer fields labels cli ns)
  unfolding get_secret_informer permits controller_cluster_rules controller_role_rules
      server_cluster_rules server_role_rules
  secrets-IsPermitted controller =
      IsOver-IsPermitted controller ns (new_list_watch_from_client-IsOver _ _ _ _ _)
        (rw (groups.core, eq_refl ns) refl) (rw (groups.core, eq_refl ns) refl)
  secrets-IsPermitted server =
      IsOver-IsPermitted server ns (new_list_watch_from_client-IsOver _ _ _ _ _)
        (rw (groups.core, eq_refl ns) refl) (rw (groups.core, eq_refl ns) refl)

module _ (w : Controller.World) (ns : String) (cli : Client) (groups : AsksGroups cli) where
  abbrev Permitted : Process → Type 0
  Permitted p = AllStarted (IsPermitted controller ns) p.events

  elected-Permitted : Permitted (elected w cli)
  unfolding elected
  elected-Permitted =
      let pods = pods-IsPermitted w.all_fields w.all_labels ns cli groups in
      let crs = crs-IsPermitted w.all_fields w.all_labels ns cli groups in
      let waits = w.wait (
        get_pod_informer w.all_fields w.all_labels cli
        ∷ get_maroonedpods_informer w.all_fields w.all_labels cli
        ∷ []) in
      elim (Election-cases w.election) [
        | inl e ↦ rw (elected, e) tt
        | inr (inl e) ↦ elim (Wait-cases waits) [
          | inl f ↦ rw (elected, e, f) (pods, (crs, tt))
          | inr (inl f) ↦ rw (elected, e, f) (pods, (crs, tt))
          | inr (inr f) ↦ rw (elected, e, f) (pods, (crs, tt))
        ]
        | inr (inr e) ↦ elim (Wait-cases waits) [
          | inl f ↦ rw (elected, e, f) (pods, (crs, tt))
          | inr (inl f) ↦ rw (elected, e, f) (pods, (crs, tt))
          | inr (inr f) ↦ rw (elected, e, f) (pods, (crs, tt))
        ]
      ]

  run-Permitted : (host : String) → Permitted (run w ns host cli)
  unfolding run
  run-Permitted host =
      let own = secrets-IsPermitted w.all_fields w.all_labels ns cli groups controller in
      let secrets = get_secret_informer w.all_fields w.all_labels cli ns in
      elim (Wait-cases (w.wait (secrets ∷ []))) [
        | inr (inl e) ↦ rw (e, run) (own, tt)
        | inr (inr e) ↦ rw (e, run) (own, tt)
        | inl e ↦ elim (Option-cases (setup_leader_elector w ns host)) [
          | inl made ↦ rw (e, made, run) (own, elected-Permitted)
          | inr (_, failed) ↦ rw (e, failed, run) (own, tt)
        ]
      ]

  init_and_run-Permitted : (host : String) → Permitted (init_and_run w ns host cli)
  unfolding init_and_run
  init_and_run-Permitted host = elim (Option-cases w.add_event_handler) [
    | inl e ↦ rw (e, init_and_run) (run-Permitted host)
    | inr (_, e) ↦ rw (e, init_and_run) tt
  ]

-- If the clients of the controller ask in the groups that they are for, every list and every watch of
-- every informer that the controller starts, however its start goes, is permitted: by the cluster role
-- that the operator creates for it, or by its role in the namespace from which it was started.
pub execute_controller-IsPermitted :
    (w : Controller.World) (ns : String) (cli : Client)
    → w.namespace_file ≡ ok ns
    → w.client ≡ some cli
    → AsksGroups cli
    → AllStarted (IsPermitted controller ns) (execute_controller w).events
unfolding execute_controller
execute_controller-IsPermitted w ns cli known has_client groups = elim (Result-cases w.hostname) [
  | inl (host, e) ↦
      rw (known, e, has_client, execute_controller) (init_and_run-Permitted w ns cli groups host)
  | inr (_, e) ↦ rw (known, e, execute_controller) tt
]

start_tls-IsPermitted :
    (ns address : String) (failed : Bool)
    → AllStarted (IsPermitted server ns) (start_tls address failed).events
unfolding start_tls
start_tls-IsPermitted ns address true = tt
start_tls-IsPermitted ns address false = tt

-- The same holds of the server, in the namespace that it works in.
pub server_main-IsPermitted :
    (w : Server.World) (cli : Client)
    → w.client ≡ ok cli
    → AsksGroups cli
    → AllStarted
        (IsPermitted server (get_namespace w.trim_space w.namespace_file))
        (server_main w).events
unfolding server_main serve_namespace
server_main-IsPermitted w cli has_client groups =
    let ns = get_namespace w.trim_space w.namespace_file in
    let own = secrets-IsPermitted w.all_fields w.all_labels ns cli groups server in
    elim (Wait-cases (w.wait (get_secret_informer w.all_fields w.all_labels cli ns ∷ []))) [
      | inl e ↦
          rw (has_client, e, server_main)
            (own, start_tls-IsPermitted ns "0.0.0.0:8443" w.listener_failed)
      | inr (inl e) ↦ rw (has_client, e, server_main) (own, tt)
      | inr (inr e) ↦ rw (has_client, e, server_main) (own, tt)
    ]
