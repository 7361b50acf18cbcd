-- ===== src/Log/Filter.antt =====
-- log.go: which messages are written, whatever was set on the logger before.
use maroonedpods.Prelude.{
  ◌+◌, String, ◌≡◌, refl, ◌≢◌, true, ◌&&◌, some, List, [], ◌∷◌, ◌++◌, arith, length, length-append,
  is_some,
}
use maroonedpods.Prelude.Int.{◌≤?◌}
use maroonedpods.Log.{
  level_info, int_eq, FilteredLogger, LoggableObject, level_name, info, warning, error, critical,
  object, object_params, verbosity_info, verbosity_object, Message, reason_of,
}

module _ (l : FilteredLogger) (text : String) where
  -- Warnings, errors and critical messages are always written, and an information exactly if the
  -- filter is at INFO and its verbosity is not above the logger's.
  pub written_levels :
      (is_some (warning l text) ≡ true)
      × (is_some (error l text) ≡ true)
      × (is_some (critical l text).0 ≡ true)
      × (is_some (info l text)
          ≡ (int_eq l.filter_level level_info && (l.current_verbosity_level ≤? l.verbosity_level)))
  unfolding warning error critical info
  written_levels = (refl, refl, refl, ground arith)

  info-message :
      (m : Message)
      → info l text ≡ some m
      → ("level" ∷ "info" ∷ "component" ∷ l.component ∷ l.context)
          ++ reason_of l.err
          ++ "msg" ∷ text ∷ []
        ≡ m
  unfolding info level_name
  info-message m h = ground arith

  length-info :
      (m : Message)
      → info l text ≡ some m
      → length m ≡ length l.context + length (reason_of l.err) + 6
  length-info m h =
      let tail : List String = "msg" ∷ text ∷ [] in
      rw (← info-message m h) (
        omega (
          arith,
          length-append (l.context ++ reason_of l.err) tail,
          length-append l.context (reason_of l.err),
        ))

module _ (l : FilteredLogger) (obj : LoggableObject) (text : String) where
  -- If a logger writes an information, then after `Object` on what `V` wraps it in the same
  -- information is written, without the object; after `Object` on the logger itself another one
  -- is.
  pub verbosity_object_lost :
      (m : Message)
      → info l text ≡ some m
      → (verbosity_info (verbosity_object (record { filtered_logger = l }) obj) text ≡ some m)
        × (info (object l obj) text ≢ some m)
  unfolding verbosity_object verbosity_info object
  verbosity_object_lost m h = (
    unfold info in h,
    λ k.
        let short = length-info l text m h in
        let long = length-info (object l obj) text m k in
        ground (arith, length-append l.context (object_params obj)),
  )
