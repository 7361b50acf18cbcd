-- ===== src/Clients/Scheme.antt =====
-- The scheme of the clients: `init` of pkg/client/maroonedpodsCli.go, register.go of
-- staging/src/maroonedpods.io/api/pkg/apis/core and of its v1alpha1.
use maroonedpods.Prelude.{
  String, ◌==◌, Bool, List, [], ◌∷◌, ◌++◌, map, if◌then◌else◌, not, any, ◌&&◌,
}
use maroonedpods.Rbac.Rule.{member}

pub record GroupVersion : Type 0 where
  pub group : String
  pub version : String

-- the kinds that a scheme knows in a group version
pub record Known : Type 0 where
  pub group_version : GroupVersion
  pub kinds : List String

abbrev pub group_name : String
group_name = "maroonedpods.io"

abbrev pub latest_version : String
latest_version = "v1alpha1"

abbrev pub scheme_group_version : GroupVersion
scheme_group_version = record { group = group_name; version = latest_version }

abbrev pub maroonedpods_kinds : List String
maroonedpods_kinds = "MaroonedPods" ∷ "MaroonedPodsList" ∷ []

-- the functions of a builder are run in order on a scheme, which they add to
abbrev pub AddKnownTypes : Type 0
AddKnownTypes = List Known → List Known

-- `addKnownTypes`
unfoldable pub add_known_types : AddKnownTypes
add_known_types scheme =
    scheme ++ record { group_version = scheme_group_version; kinds = maroonedpods_kinds } ∷ []

-- `AddKnownTypesGenerator`
unfoldable pub add_known_types_generator : List GroupVersion → AddKnownTypes
add_known_types_generator group_versions scheme =
    scheme
    ++ map (λ (gv : GroupVersion). record { group_version = gv; kinds = maroonedpods_kinds })
        group_versions

unfoldable pub add_to_scheme : List AddKnownTypes → List Known → List Known
add_to_scheme [] scheme = scheme
add_to_scheme (f ∷ fs) scheme = add_to_scheme fs (f scheme)

-- KubeVirt's generator, with its group and its versions
pub record KubeVirt : Type 0 where
  pub group_name : String
  pub group_versions : List GroupVersion
  pub add_known_types_generator : List GroupVersion → AddKnownTypes

-- the builder's functions of `init`, by the variable of the environment
unfoldable pub scheme_builder : KubeVirt → String → List AddKnownTypes
unfolding add_known_types_generator
scheme_builder kubevirt register_version =
    let own =
      add_known_types_generator (record { group = group_name; version = latest_version } ∷ []) in
    if not (register_version == "")
    then kubevirt.add_known_types_generator
        (record { group = kubevirt.group_name; version = register_version } ∷ [])
      ∷ own
      ∷ []
    else kubevirt.add_known_types_generator kubevirt.group_versions ∷ own ∷ []

-- `Scheme`, of which `Codecs` is made
unfoldable pub init_scheme : KubeVirt → String → List Known
unfolding scheme_builder add_to_scheme
init_scheme kubevirt register_version = add_to_scheme (scheme_builder kubevirt register_version) []

-- a kind of a group version is registered
unfoldable pub recognizes : List Known → GroupVersion → String → Bool
unfolding any
recognizes scheme gv kind =
    any
      (λ (k : Known).
        k.group_version.group == gv.group
        && (k.group_version.version == gv.version && member kind k.kinds))
      scheme
