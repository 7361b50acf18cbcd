-- ===== src/Startup/Wired.antt =====
-- What the operator's reconciler has when the manager runs it.
use maroonedpods.Prelude.{String, ◌≡◌, Bool, true, Option, some, [], ◌∷◌, ok, arith, all}
use maroonedpods.Cr.{MaroonedPods}
use maroonedpods.Rotation.{get_certificate_definitions}
use maroonedpods.Rotation.Start.{
  CertManager, new_cert_manager, start, finds_listers, start-finds_listers,
}
use maroonedpods.Startup.Operator.{
  World, ReconcileMaroonedPods, pre_create, watch, check_sanity, sync, namespace_of, set_up,
  operator_main,
}

-- the four hooks once each, one namespace in all its parts whatever the environment says, and the manager
-- of the certificates
pub record IsWired (w : World) (r : ReconcileMaroonedPods) : Type 0 where
  pub has_hooks : r.hooks ≡ pre_create ∷ watch ∷ check_sanity ∷ sync ∷ []
  pub in_namespace : r.namespace ≡ namespace_of w
  pub cluster_in_namespace : r.cluster_namespace ≡ namespace_of w
  pub args_in_namespace : r.namespaced_args.namespace ≡ namespace_of w
  pub has_controller : r.controller ≡ true
  pub has_cert_manager : r.cert_manager ≡ some (new_cert_manager (namespace_of w) [])

set_up-IsWired : (w : World) {r : ReconcileMaroonedPods} → set_up w ≡ ok r → IsWired w r
unfolding set_up
set_up-IsWired w h = ground arith

operator_main-set_up :
    (w : World) {r : ReconcileMaroonedPods} → operator_main w ≡ ok r → set_up w ≡ ok r
unfolding operator_main
operator_main-set_up w h = ground arith

-- If the operator's `main` has run its manager without an error, then its reconciler has the four hooks
-- once each, all its parts are in the one namespace whatever the environment says of it, and it has the
-- manager of the certificates for that namespace: once that is started, it has listers for every object
-- of every certificate definition exactly if the caches of the namespace sync.
pub operator_main-IsWired :
    (w : World) (r : ReconcileMaroonedPods) (cm : CertManager) (syncs : String → Bool)
    (mp : Option MaroonedPods)
    → operator_main w ≡ ok r
    → r.cert_manager ≡ some cm
    → IsWired w r
      × (all (finds_listers (start syncs cm).0) (get_certificate_definitions r.namespace mp)
          ≡ syncs r.namespace)
operator_main-IsWired w r cm syncs mp h has = (wired, listers)
  where
    wired : IsWired w r
    wired = set_up-IsWired w (operator_main-set_up w h)

    its_manager : cm ≡ new_cert_manager r.namespace []
    its_manager = cc (wired.in_namespace, wired.has_cert_manager, has)

    listers :
        all (finds_listers (start syncs cm).0) (get_certificate_definitions r.namespace mp)
        ≡ syncs r.namespace
    listers = rw its_manager (start-finds_listers syncs r.namespace mp).1
