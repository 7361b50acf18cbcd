-- ===== src/Cr/Active.antt =====
-- util.go, `GetActiveMaroonedPods`.
use maroonedpods.Prelude.{
  ◌≡◌, refl, ◌↔◌, inl, inr, Bool, true, false, none, some, List, [], ◌∷◌, ◌++◌, arith, ok, ◌==◌,
  all, Bool-cases, List-cases,
}
use maroonedpods.Cr.{MaroonedPods, Cluster, phase_error, active_resources, get_active_maroonedpods}

abbrev pub failed : MaroonedPods → Bool
failed cr = cr.phase == phase_error

-- The resource is the only one of the list that has not failed.
pub record IsOnlyActive (crs : List MaroonedPods) (cr : MaroonedPods) : Type 0 where
  pub before : List MaroonedPods
  pub after : List MaroonedPods
  pub split : crs ≡ before ++ cr ∷ after
  pub before_failed : all failed before ≡ true
  pub not_failed : failed cr ≡ false
  pub after_failed : all failed after ≡ true

active_resources-none :
    (crs : List MaroonedPods) → (active_resources crs ≡ []) ↔ (all failed crs ≡ true)
unfolding active_resources all
active_resources-none [] = ground arith
active_resources-none (cr ∷ crs) = ground (arith, active_resources-none crs)

active_resources-one :
    (crs : List MaroonedPods) (cr : MaroonedPods)
    → active_resources crs ≡ cr ∷ []
    → IsOnlyActive crs cr
unfolding active_resources all
active_resources-one [] cr h = ground arith
active_resources-one (first ∷ crs) cr h = elim (Bool-cases (failed first)) [
  | inl e ↦
      let o = active_resources-one crs cr (ground arith) in
      record {
        before = first ∷ o.before;
        after = o.after;
        split = ground (arith, o.split);
        before_failed = ground (arith, o.before_failed);
        not_failed = o.not_failed;
        after_failed = o.after_failed;
      }
  | inr e ↦ record {
    before = [];
    after = crs;
    split = ground arith;
    before_failed = refl;
    not_failed = ground arith;
    after_failed = (active_resources-none crs).0 (ground arith);
  }
]

one-active_resources :
    (before after : List MaroonedPods) (cr : MaroonedPods)
    → all failed before ≡ true
    → failed cr ≡ false
    → all failed after ≡ true
    → active_resources (before ++ cr ∷ after) ≡ cr ∷ []
unfolding active_resources all
one-active_resources [] after cr b n a = ground (arith, (active_resources-none after).1 a)
one-active_resources (first ∷ before) after cr b n a =
    let rest = one-active_resources before after cr (ground arith) n a in ground arith

IsOnlyActive-active_resources :
    (crs : List MaroonedPods) (cr : MaroonedPods)
    → IsOnlyActive crs cr
    → active_resources crs ≡ cr ∷ []
IsOnlyActive-active_resources crs cr o =
    rw (o.split)
      (one-active_resources o.before o.after cr o.before_failed o.not_failed o.after_failed)

-- A resource is found exactly if it is the only one of the cluster that has not failed, and none is
-- found, without an error, exactly if all have failed.
pub get_active_maroonedpods_iff :
    (c : Cluster) (crs : List MaroonedPods) (cr : MaroonedPods)
    → c.list_maroonedpods ≡ ok crs
    → ((get_active_maroonedpods c ≡ ok (some cr)) ↔ IsOnlyActive crs cr)
      × ((get_active_maroonedpods c ≡ ok none) ↔ (all failed crs ≡ true))
unfolding get_active_maroonedpods
get_active_maroonedpods_iff c crs cr h = (
  (
    λ found. active_resources-one crs cr (elim (List-cases (active_resources crs)) [
      | inl e ↦ ground arith
      | inr (first, rest, e) ↦ elim (List-cases rest) [
        | inl last ↦ ground arith
        | inr (second, others, more) ↦ ground arith
      ]
    ]),
    λ o. let one = IsOnlyActive-active_resources crs cr o in ground arith,
  ),
  elim (List-cases (active_resources crs)) [
    | inl e ↦ ground (arith, active_resources-none crs)
    | inr (first, rest, e) ↦ elim (List-cases rest) [
      | inl last ↦ ground (arith, active_resources-none crs)
      | inr (second, others, more) ↦ ground (arith, active_resources-none crs)
    ]
  ],
)
