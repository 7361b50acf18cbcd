-- ===== src/Settings/Watched.antt =====
-- When the watch of the resource definition reads a nil resource.
use maroonedpods.Prelude.{
  String, ◌≡◌, ◌↔◌, eq_iff, none, ok, Result-cases, Option-cases, inl, inr, arith,
}
use maroonedpods.Cr.{Cluster, get_active_maroonedpods}
use maroonedpods.Settings.{watch_requests}

-- The map function of the watch panics exactly if the object has the watched name, and no resource is
-- active.
pub watch_requests_panics_iff :
    (c : Cluster) (name : String)
    → (watch_requests c name ≡ none)
      ↔ ((name ≡ "mps.maroonpods.io") × (get_active_maroonedpods c ≡ ok none))
unfolding watch_requests
watch_requests_panics_iff c name = elim (Result-cases (get_active_maroonedpods c)) [
  | inr (e, failed) ↦ ground (arith, eq_iff name "mps.maroonpods.io")
  | inl (active, found) ↦ elim (Option-cases active) [
    | inl nothing ↦ ground (arith, eq_iff name "mps.maroonpods.io")
    | inr (cr, is) ↦ ground (arith, eq_iff name "mps.maroonpods.io")
  ]
]
