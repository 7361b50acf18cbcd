-- ===== src/Reconcile/Args.antt =====
-- The priority class and the pull policy that `getNamespacedArgs` chooses.
use maroonedpods.Prelude.{
  String, ◌≡◌, refl, ◌≢◌, ◌==◌, true, false, Option, none, some, inl, inr, eq_iff, arith,
  Bool-cases, if◌then◌else◌,
}
use maroonedpods.Cr.{MaroonedPods, Cluster}
use maroonedpods.Resources.Util.{priority_class}
use maroonedpods.Resources.Namespaced.{FactoryArgs}
use maroonedpods.Reconcile.{get_namespaced_args, preferred_priority_class}

-- the class `p` is the one that a resource names, or else the program's
pub data Wanted : Option String → String → Type 0 where
  named : {p : String} → p ≢ "" → Wanted (some p) p
  empty : Wanted (some "") priority_class
  missing : Wanted none priority_class

pub data Chosen (c : Cluster) (given : Option String) : String → Type 0 where
  found : {p : String} → Wanted given p → c.has_priority_class p ≡ true → Chosen c given p
  absent : {p : String} → Wanted given p → c.has_priority_class p ≡ false → Chosen c given ""

Wanted_text : (p : String) → Wanted (some p) (if p == "" then priority_class else p)
Wanted_text p = elim (Bool-cases (p == "")) [
  | inl blank ↦ let same : p ≡ "" = ground (arith, eq_iff p "") in rw same empty
  | inr given ↦ let differ : p ≢ "" = ground (arith, eq_iff p "") in rw given (named differ)
]

Wanted_preferred : (cr : MaroonedPods) → Wanted cr.priority_class (preferred_priority_class cr)
unfolding preferred_priority_class
Wanted_preferred cr =
    elim cr.priority_class
      as (λ o.
        Wanted o
          (elim o [ none ↦ priority_class | some p ↦ if p == "" then priority_class else p ])) [
            | none ↦ missing
            | some p ↦ Wanted_text p
          ]

-- The priority class of the controller and the server is the one that the resource names, or the
-- program's where it names none, if the cluster has that class, and else there is none; the objects
-- are in the operator's namespace.
pub get_namespaced_args-Chosen :
    (c : Cluster) (args : FactoryArgs) (cr : MaroonedPods)
    → Chosen c cr.priority_class (get_namespaced_args c args (some cr)).priority_class_name
      × ((get_namespaced_args c args (some cr)).namespace ≡ args.namespace)
unfolding get_namespaced_args
get_namespaced_args-Chosen c args cr =
    elim (Bool-cases (c.has_priority_class (preferred_priority_class cr))) [
      | inl e ↦ (rw e (found (Wanted_preferred cr) e), refl)
      | inr e ↦ (rw e (absent (Wanted_preferred cr) e), refl)
    ]
