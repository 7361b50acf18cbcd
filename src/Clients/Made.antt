-- ===== src/Clients/Made.antt =====
-- When a client is made, and what its configuration is.
use maroonedpods.Prelude.{
  String, ◌==◌, ◌≡◌, refl, ap, ◌∙◌, ◌↔◌, Bool, true, ◌||◌, some, List, [], ◌∷◌, ◌++◌, ok, arith,
  any-append, Bool-cases, inl, inr,
}
use maroonedpods.Clients.Scheme.{
  GroupVersion, Known, KubeVirt, scheme_group_version, init_scheme, scheme_builder,
  add_known_types_generator, recognizes,
}
use maroonedpods.Rbac.Rule.{member}
use maroonedpods.Clients.{
  RestConfig, RestConfigHookFunc, Package, register_rest_config_hook, run_hooks,
  execute_rest_config_hooks, Libraries, MaroonedPodsClient, shallow_copy,
  get_client_from_rest_config,
}

run_hooks-append :
    (hooks : List RestConfigHookFunc) (fn : RestConfigHookFunc) (config : RestConfig)
    → run_hooks (hooks ++ fn ∷ []) config ≡ fn (run_hooks hooks config)
unfolding run_hooks
run_hooks-append [] fn config = refl
run_hooks-append (h ∷ hooks) fn config = run_hooks-append hooks fn (h config)

-- A hook that is registered last has the last word on every configuration.
pub execute-register :
    (p : Package) (fn : RestConfigHookFunc) (config : RestConfig)
    → execute_rest_config_hooks (register_rest_config_hook fn p) config
      ≡ fn (execute_rest_config_hooks p config)
unfolding execute_rest_config_hooks register_rest_config_hook
execute-register p fn config = run_hooks-append p.rest_config_hooks fn config

module _ (l : Libraries) where
  -- the parts of the client were all made of its configuration, which is the given one with the group
  -- version, the codecs, the path and the content type of the resource, as the hooks left it
  pub record IsClientOf (p : Package) (config : RestConfig) (c : MaroonedPodsClient l)
      : Type 0 where
    pub has_config : c.config ≡ execute_rest_config_hooks p (shallow_copy l p config)
    pub has_rest_client : l.rest_client_for c.config ≡ ok c.rest_client
    pub has_core_client : l.core_for c.config ≡ ok c.core_client
    pub has_generated_client : l.generated_for c.config ≡ ok c.generated_client
    pub has_kubevirt_client : l.kubevirt_for c.config ≡ ok c.kubevirt_client
    pub has_dynamic_client : l.dynamic_for c.config ≡ ok c.dynamic_client
    pub has_master : c.master ≡ p.master
    pub has_kubeconfig : c.kubeconfig ≡ p.kubeconfig

  -- A client is made from a configuration exactly if it is one of that configuration: each of its five
  -- parts is what its constructor makes of the configuration with the changes for the resource and then
  -- those of the hooks.
  pub get_client_from_rest_config_iff :
      (p : Package) (config : RestConfig) (c : MaroonedPodsClient l)
      → ((get_client_from_rest_config l p config).1 ≡ ok c) ↔ IsClientOf p config c
  unfolding get_client_from_rest_config
  get_client_from_rest_config_iff p config c = (λ h. ground arith, λ i. ground arith)

  without_hooks :
      (p : Package) (config : RestConfig) (c : MaroonedPodsClient l)
      → p.rest_config_hooks ≡ []
      → (get_client_from_rest_config l p config).1 ≡ ok c
      → c.config ≡ shallow_copy l p config
  unfolding execute_rest_config_hooks run_hooks
  without_hooks p config c no_hooks made =
      ((get_client_from_rest_config_iff p config c).0 made).has_config
      ∙ ap (λ hooks. run_hooks hooks (shallow_copy l p config)) no_hooks

recognizes-own :
    (before : List Known) (kind : String)
    → recognizes
        (add_known_types_generator (scheme_group_version ∷ []) before)
        scheme_group_version
        kind
      ≡ (recognizes before scheme_group_version kind
          || recognizes
              (add_known_types_generator (scheme_group_version ∷ []) [])
              scheme_group_version
              kind)
unfolding recognizes add_known_types_generator
recognizes-own before kind = any-append _ before _

Bool-or_true : (b : Bool) → (b || true) ≡ true
Bool-or_true b = ground arith

init_scheme-recognizes :
    (kubevirt : KubeVirt) (env kind : String)
    → recognizes
        (add_known_types_generator (scheme_group_version ∷ []) [])
        scheme_group_version
        kind
      ≡ true
    → recognizes (init_scheme kubevirt env) scheme_group_version kind ≡ true
unfolding init_scheme
init_scheme-recognizes kubevirt env kind own = elim (Bool-cases (env == "")) [
  | inl e ↦ rw (e, scheme_builder, recognizes-own, own) (Bool-or_true _)
  | inr e ↦ rw (e, scheme_builder, recognizes-own, own) (Bool-or_true _)
]

module _ (l : Libraries) where
  -- Without hooks, a client of the package, whatever version of KubeVirt the environment names, asks in a
  -- group version in which its codecs know the resource and the list of resources.
  pub client_decodes :
      (kubevirt : KubeVirt) (env : String) (p : Package) (config : RestConfig)
      (c : MaroonedPodsClient l)
      → p.scheme ≡ init_scheme kubevirt env
      → p.rest_config_hooks ≡ []
      → (get_client_from_rest_config l p config).1 ≡ ok c
      → (gv : GroupVersion) × (scheme : List Known) × (c.config.group_version ≡ some gv)
        × (c.config.negotiated_serializer ≡ some scheme)
        × (recognizes scheme gv "MaroonedPods" ≡ true)
        × (recognizes scheme gv "MaroonedPodsList" ≡ true)
  unfolding shallow_copy recognizes add_known_types_generator member
  client_decodes kubevirt env p config c scheme no_hooks made =
      let its_config = without_hooks l p config c no_hooks made in
      (
        scheme_group_version,
        init_scheme kubevirt env,
        rw its_config refl,
        rw (its_config, scheme) refl,
        init_scheme-recognizes kubevirt env "MaroonedPods" refl,
        init_scheme-recognizes kubevirt env "MaroonedPodsList" refl,
      )
