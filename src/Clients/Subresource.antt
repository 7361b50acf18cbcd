-- ===== src/Clients/Subresource.antt =====
-- pkg/util/maroonedpodscli.go, where it differs from the package of the client: its scheme, and the client
-- for subresources of KubeVirt.
use maroonedpods.Prelude.{
  String, ◌==◌, ◌≡◌, refl, false, not, some, List, [], ◌∷◌, Result, if◌then◌else◌, ◌>>=◌,
  Bool-cases, inl, inr,
}
use maroonedpods.Clients.Scheme.{
  GroupVersion, Known, KubeVirt, AddKnownTypes, add_to_scheme, recognizes, scheme_group_version,
}
use maroonedpods.Clients.{Package, Libraries, MaroonedPodsClient, clients_for}

-- `init` of this package
unfoldable pub init_util_scheme : KubeVirt → String → List Known
unfolding add_to_scheme
init_util_scheme kubevirt register_version =
    let builder : List AddKnownTypes =
      if not (register_version == "")
      then kubevirt.add_known_types_generator
          (record { group = kubevirt.group_name; version = register_version } ∷ [])
        ∷ []
      else kubevirt.add_known_types_generator kubevirt.group_versions ∷ [] in
    add_to_scheme builder []

module _ (l : Libraries) where
  -- `SubresourceStorageGroupVersion` of KubeVirt's API is an argument
  unfoldable pub get_subresource_client_from_flags :
      GroupVersion → Package → String → String → Result (MaroonedPodsClient l)
  unfolding clients_for
  get_subresource_client_from_flags subresource_version p master kubeconfig =
      l.build_config_from_flags master kubeconfig >>= λ config. clients_for l p (record config {
        group_version = some subresource_version;
        negotiated_serializer = some p.scheme;
        api_path = "/apis";
        content_type = "application/json";
      })

  unfoldable pub get_subresource_client : GroupVersion → Package → Result (MaroonedPodsClient l)
  unfolding get_subresource_client_from_flags
  get_subresource_client subresource_version p =
      get_subresource_client_from_flags subresource_version p p.master p.kubeconfig

  -- The client for subresources leaves the hooks of the package out of account.
  pub get_subresource_client-hooks :
      (subresource_version : GroupVersion) (p : Package)
      → get_subresource_client subresource_version p
        ≡ get_subresource_client subresource_version (record p { rest_config_hooks = [] })
  unfolding get_subresource_client
  get_subresource_client-hooks subresource_version p = refl

-- If KubeVirt's generator does not register the kind under the group version of the resource, the scheme
-- of this package does not know it.
pub init_util_scheme_lem :
    (kubevirt : KubeVirt) (env kind : String)
    → ((versions : List GroupVersion)
        → recognizes (kubevirt.add_known_types_generator versions []) scheme_group_version kind
          ≡ false)
    → recognizes (init_util_scheme kubevirt env) scheme_group_version kind ≡ false
unfolding init_util_scheme
init_util_scheme_lem kubevirt env kind unknown = elim (Bool-cases (env == "")) [
  | inl e ↦ rw e (unknown _)
  | inr e ↦ rw e (unknown _)
]
