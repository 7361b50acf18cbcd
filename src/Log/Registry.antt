-- ===== src/Log/Registry.antt =====
-- log.go: the registry of loggers, one for each component, and the default component.
use maroonedpods.Prelude.{
  String, ◌==◌, eq_iff, eq_refl, ◌≡◌, ◌≢◌, Option, none, some, List, [], ◌∷◌, arith, if◌then◌else◌,
  Option-cases, inl, inr,
}
use maroonedpods.Prelude.Int.{ℤ}
use maroonedpods.Log.{FilteredLogger, make_logger}

-- the package's variables; a map from components to loggers is a list of pairs
pub record Loggers : Type 0 where
  pub loggers : List (String × FilteredLogger)
  pub default_component : String

unfoldable pub lookup : String → List (String × FilteredLogger) → Option FilteredLogger
lookup component [] = none
lookup component ((c, l) ∷ rest) = if c == component then some l else lookup component rest

abbrev pub registered : Loggers → String → Option FilteredLogger
registered r component = lookup component r.loggers

module _ (default_verbosity : ℤ) where
  new_logger : String → String → FilteredLogger
  new_logger default_component component =
      record (make_logger default_verbosity default_component) { component = component }

  -- `createLogger`, which looks again under the lock
  unfoldable pub create_logger : Loggers → String → Loggers
  unfolding new_logger lookup
  create_logger r component = elim (registered r component) [
    | some _ ↦ r
    | none ↦ record r {
      loggers = (component, new_logger r.default_component component) ∷ r.loggers;
    }
  ]

  -- `Logger`: the registry that it leaves, and the logger, which is nil if it is not there
  unfoldable pub logger : Loggers → String → Loggers × Option FilteredLogger
  unfolding create_logger
  logger r component = elim (registered r component) [
    | some l ↦ (r, some l)
    | none ↦ let r' = create_logger r component in (r', registered r' component)
  ]

  unfoldable pub default_logger : Loggers → Loggers × Option FilteredLogger
  unfolding logger
  default_logger r = logger r r.default_component

  -- `InitializeLogging`, without the flags that it sets for glog
  unfoldable pub initialize_logging : Loggers → String → Loggers × Option FilteredLogger
  unfolding default_logger
  initialize_logging r component = default_logger (record r { default_component = component })

  -- `Logger` returns a logger, never nil, under which the component is registered from then on; no
  -- other component's logger changes, and asking again returns the same and changes nothing.
  pub logger_stable :
      (r : Loggers) (component other : String)
      → other ≢ component
      → (l : FilteredLogger) × ((logger r component).1 ≡ some l)
        × (registered (logger r component).0 component ≡ some l)
        × (logger (logger r component).0 component ≡ ((logger r component).0, some l))
        × (registered (logger r component).0 other ≡ registered r other)
  unfolding logger
  logger_stable r component other n = elim (Option-cases (registered r component)) [
    | inr (l, e) ↦ (l, ground arith, ground arith, ground arith, ground arith)
    | inl e ↦ (
      new_logger r.default_component component,
      ground (arith, eq_refl component),
      ground (arith, eq_refl component),
      ground (arith, eq_refl component),
      ground (arith, eq_iff component other),
    )
  ]
