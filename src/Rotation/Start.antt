-- ===== src/Rotation/Start.antt =====
-- certrotation.go: `newCertManager` and `Start`, which gives every namespace its listers.
use maroonedpods.Prelude.{
  String, ◌≡◌, refl, Bool, true, ◌&&◌, ◌||◌, Option, none, some, List, [], ◌∷◌, ◌++◌, Error,
  failure, arith, eq_refl, all, Bool-cases, inl, inr, if◌then◌else◌,
}
use maroonedpods.Cr.{MaroonedPods}
use maroonedpods.Rbac.Rule.{member}
use maroonedpods.Rotation.{
  ObjectMeta, CertificateDefinition, get_certificate_definitions, create_certificate_definitions,
  default_definitions, complete, add_namespace,
}

-- the namespaces, and those that `listerMap` has listers for; a nil map has none
pub record CertManager : Type 0 where
  pub namespaces : List String
  pub lister_map : List String

-- `newCertManager`, with the namespace of the installation behind the additional ones
unfoldable pub new_cert_manager : String → List String → CertManager
new_cert_manager install_namespace additional_namespaces = record {
  namespaces = additional_namespaces ++ install_namespace ∷ [];
  lister_map = [];
}

unfoldable pub has_listers : CertManager → String → Bool
has_listers cm ns = member ns cm.lister_map

abbrev could_not_sync : Option Error
could_not_sync = some (failure "could not sync informer cache")

-- the loop of `Start`; `syncs` is whether both informers of a namespace sync
unfoldable pub start_namespaces :
    (String → Bool) → List String → List String → List String × Option Error
start_namespaces syncs [] lister_map = (lister_map, none)
start_namespaces syncs (ns ∷ namespaces) lister_map =
    let rest = start_namespaces syncs namespaces (ns ∷ lister_map) in
    if syncs ns then rest else (lister_map, could_not_sync)

unfoldable pub start : (String → Bool) → CertManager → CertManager × Option Error
unfolding start_namespaces
start syncs cm =
    let (lister_map, e) = start_namespaces syncs cm.namespaces cm.lister_map in
    (record cm { lister_map = lister_map }, e)

-- the namespaces in front of the first that does not sync
unfoldable pub synced_first : (String → Bool) → List String → List String
synced_first syncs [] = []
synced_first syncs (ns ∷ namespaces) =
    let rest = ns ∷ synced_first syncs namespaces in if syncs ns then rest else []

start_namespaces-member :
    (syncs : String → Bool) (namespaces lister_map : List String) (ns : String)
    → member ns (start_namespaces syncs namespaces lister_map).0
      ≡ (member ns lister_map || member ns (synced_first syncs namespaces))
unfolding start_namespaces synced_first member
start_namespaces-member syncs [] lister_map ns = ground arith
start_namespaces-member syncs (n ∷ namespaces) lister_map ns =
    ground (arith, start_namespaces-member syncs namespaces (n ∷ lister_map) ns)

start_namespaces-error :
    (syncs : String → Bool) (namespaces lister_map : List String)
    → (start_namespaces syncs namespaces lister_map).1
      ≡ (if all syncs namespaces then none else could_not_sync)
unfolding start_namespaces all
start_namespaces-error syncs [] lister_map = refl
start_namespaces-error syncs (n ∷ namespaces) lister_map =
    ground (arith, start_namespaces-error syncs namespaces (n ∷ lister_map))

-- A new manager that is started gives an error exactly if the caches of some namespace do not sync; it
-- has listers for the namespaces in front of the first such one, and for no other.
pub start_lem :
    (syncs : String → Bool) (install : String) (additional : List String)
    → let started = start syncs (new_cert_manager install additional) in
      ((ns : String)
        → has_listers started.0 ns ≡ member ns (synced_first syncs (additional ++ install ∷ [])))
      × (started.1 ≡ (if all syncs (additional ++ install ∷ []) then none else could_not_sync))
unfolding start new_cert_manager has_listers member
start_lem syncs install additional = (
  λ ns. start_namespaces-member syncs (additional ++ install ∷ []) [] ns,
  start_namespaces-error syncs (additional ++ install ∷ []) [],
)

abbrev pub has_listers_of : CertManager → Option ObjectMeta → Bool
has_listers_of cm none = true
has_listers_of cm (some meta) = has_listers cm meta.namespace

-- the three places of a definition
abbrev pub finds_listers : CertManager → CertificateDefinition → Bool
finds_listers cm d =
    has_listers_of cm d.signer_secret
    && has_listers_of cm d.cert_bundle_configmap
    && has_listers_of cm d.target_secret

-- The operator's manager has only the namespace of the installation. Its start gives no error exactly if
-- the caches of that namespace sync, and exactly then it has listers for every object of every
-- certificate definition, whatever the resource says.
pub start-finds_listers :
    (syncs : String → Bool) (ns : String) (mp : Option MaroonedPods)
    → let started = start syncs (new_cert_manager ns []) in
      (started.1 ≡ (if syncs ns then none else could_not_sync))
      × (all (finds_listers started.0) (get_certificate_definitions ns mp) ≡ syncs ns)
unfolding start new_cert_manager get_certificate_definitions create_certificate_definitions
    default_definitions complete add_namespace has_listers member all
start-finds_listers syncs ns mp = elim (Bool-cases (syncs ns)) [
  | inl e ↦ rw (e, start_namespaces) (refl, rw (eq_refl ns) refl)
  | inr e ↦ rw (e, start_namespaces) (refl, refl)
]
