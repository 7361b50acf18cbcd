-- ===== src/Clients.antt =====
-- pkg/client/maroonedpodsCli.go and client.go: the client of the programs, made from a configuration, with
-- register.go of the API. Settings holds the client that is made once.
pub mod Scheme
pub mod Made
pub mod Subresource
pub mod Tests
use maroonedpods.Prelude.{
  String, ◌==◌, Bool, true, false, Option, none, some, List, [], ◌∷◌, ◌++◌, Result, ok, err, Error,
  if◌then◌else◌, ◌>>=◌,
}
use maroonedpods.Rbac.Rule.{member}
use maroonedpods.Clients.Scheme.{GroupVersion, Known, scheme_group_version}

-- `rest.Config`: the fields that the code sets, and in `rest` all others. A serializer is the scheme of
-- its codecs.
pub record RestConfig : Type 0 where
  pub rest : String
  pub group_version : Option GroupVersion
  pub negotiated_serializer : Option (List Known)
  pub api_path : String
  pub content_type : String
  pub user_agent : String

-- a hook changes the configuration that it is given
abbrev pub RestConfigHookFunc : Type 0
RestConfigHookFunc = RestConfig → RestConfig

-- the variables of the package
pub record Package : Type 0 where
  pub kubeconfig : String
  pub master : String
  pub rest_config_hooks : List RestConfigHookFunc
  pub scheme : List Known

unfoldable pub register_rest_config_hook : RestConfigHookFunc → Package → Package
register_rest_config_hook fn p = record p { rest_config_hooks = p.rest_config_hooks ++ fn ∷ [] }

-- the loop of `executeRestConfigHooks`
unfoldable pub run_hooks : List RestConfigHookFunc → RestConfig → RestConfig
run_hooks [] config = config
run_hooks (hook_fn ∷ hooks) config = run_hooks hooks (hook_fn config)

unfoldable pub execute_rest_config_hooks : Package → RestConfig → RestConfig
unfolding run_hooks
execute_rest_config_hooks p config = run_hooks p.rest_config_hooks config

-- `Init`: the flags that the command line has; `flag.StringVar` also sets the variable
unfoldable pub init_flags : List String → Package → Package × List String
unfolding member
init_flags flags p =
    let p1 = if member "kubeconfig" flags then p else record p { kubeconfig = "" } in
    let flags1 = if member "kubeconfig" flags then flags else "kubeconfig" ∷ flags in
    let p2 = if member "master" flags1 then p1 else record p1 { master = "" } in
    let flags2 = if member "master" flags1 then flags1 else "master" ∷ flags1 in (p2, flags2)

unfoldable pub flag_set : Package → Package × List String
flag_set p = (record p { kubeconfig = ""; master = "" }, "kubeconfig" ∷ "master" ∷ [])

-- the constructors of the clients that one is put together from
pub record Libraries : Type 1 where
  pub Rest : Type 0
  pub Core : Type 0
  pub Generated : Type 0
  pub Kubevirt : Type 0
  pub Dynamic : Type 0
  pub rest_client_for : RestConfig → Result Rest
  pub core_for : RestConfig → Result Core
  pub generated_for : RestConfig → Result Generated
  pub kubevirt_for : RestConfig → Result Kubevirt
  pub dynamic_for : RestConfig → Result Dynamic
  -- `clientcmd.BuildConfigFromFlags`, by the master and the kubeconfig
  pub build_config_from_flags : String → String → Result RestConfig
  pub default_kubernetes_user_agent : String

module _ (l : Libraries) where
  open l use {Rest, Core, Generated, Kubevirt, Dynamic}

  -- the struct `maroonedpods`
  pub record MaroonedPodsClient : Type 0 where
    pub master : String
    pub kubeconfig : String
    pub rest_client : Rest
    pub config : RestConfig
    pub generated_client : Generated
    pub kubevirt_client : Kubevirt
    pub dynamic_client : Dynamic
    pub core_client : Core

  -- the five constructors in order, and the struct
  unfoldable pub clients_for : Package → RestConfig → Result MaroonedPodsClient
  clients_for p config = l.rest_client_for config >>= λ rest_client.
      l.core_for config >>= λ core_client. l.generated_for config >>= λ generated_client.
      l.kubevirt_for config >>= λ kubevirt_client. l.dynamic_for config >>= λ dynamic_client.
      ok (record {
        master = p.master;
        kubeconfig = p.kubeconfig;
        rest_client = rest_client;
        config = config;
        generated_client = generated_client;
        kubevirt_client = kubevirt_client;
        dynamic_client = dynamic_client;
        core_client = core_client;
      })

  -- `shallowCopy`, up to the hooks
  unfoldable pub shallow_copy : Package → RestConfig → RestConfig
  shallow_copy p config = record config {
    group_version = some scheme_group_version;
    negotiated_serializer = some p.scheme;
    api_path = "/apis";
    content_type = "application/json";
  }

  -- the caller's configuration, which gets the default user agent after it was copied
  unfoldable pub with_user_agent : RestConfig → RestConfig
  with_user_agent config =
      if config.user_agent == ""
      then record config { user_agent = l.default_kubernetes_user_agent }
      else config

  -- the caller's configuration as it is left, and the client
  unfoldable pub get_client_from_rest_config :
      Package → RestConfig → RestConfig × Result MaroonedPodsClient
  unfolding shallow_copy with_user_agent execute_rest_config_hooks clients_for
  get_client_from_rest_config p config =
      (with_user_agent config, clients_for p (execute_rest_config_hooks p (shallow_copy p config)))

  unfoldable pub get_client_from_flags : Package → String → String → Result MaroonedPodsClient
  unfolding get_client_from_rest_config
  get_client_from_flags p master kubeconfig =
      l.build_config_from_flags master kubeconfig >>= λ config.
      (get_client_from_rest_config p config).1

  -- `cmdConfig.ClientConfig()` gives the configuration
  unfoldable pub get_client_from_client_config :
      Package → Result RestConfig → Result MaroonedPodsClient
  unfolding get_client_from_rest_config
  get_client_from_client_config p client_config =
      client_config >>= λ config. (get_client_from_rest_config p config).1

  unfoldable pub get_config : Package → Result RestConfig
  get_config p = l.build_config_from_flags p.master p.kubeconfig
