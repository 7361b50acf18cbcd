-- ===== src/Clients/Tests.antt =====
-- Clients over constructors that hand the configuration on.
use maroonedpods.Prelude.{◌≡◌, refl, true, none, some, List, [], ◌∷◌, ok}
use maroonedpods.Clients.Scheme.{GroupVersion, Known, KubeVirt, init_scheme, recognizes}
use maroonedpods.Clients.{
  RestConfig, Package, Libraries, MaroonedPodsClient, shallow_copy, get_client_from_rest_config,
  init_flags,
}
use maroonedpods.Clients.Made.{client_decodes}

abbrev kubevirt : KubeVirt
kubevirt = record {
  group_name = "kubevirt.io";
  group_versions = record { group = "kubevirt.io"; version = "v1" } ∷ [];
  add_known_types_generator = λ versions scheme. scheme;
}

abbrev plain_config : RestConfig
plain_config = record {
  rest = "https://host";
  group_version = none;
  negotiated_serializer = none;
  api_path = "";
  content_type = "";
  user_agent = "";
}

abbrev libraries : Libraries
libraries = record {
  Rest = RestConfig;
  Core = RestConfig;
  Generated = RestConfig;
  Kubevirt = RestConfig;
  Dynamic = RestConfig;
  rest_client_for = λ c. ok c;
  core_for = λ c. ok c;
  generated_for = λ c. ok c;
  kubevirt_for = λ c. ok c;
  dynamic_for = λ c. ok c;
  build_config_from_flags = λ master kubeconfig. ok plain_config;
  default_kubernetes_user_agent = "agent";
}

abbrev package_ : Package
package_ = record {
  kubeconfig = "";
  master = "";
  rest_config_hooks = [];
  scheme = init_scheme kubevirt "";
}

abbrev client_with : RestConfig → MaroonedPodsClient libraries
client_with config = record {
  master = "";
  kubeconfig = "";
  rest_client = config;
  config = config;
  generated_client = config;
  kubevirt_client = config;
  dynamic_client = config;
  core_client = config;
}

abbrev client : MaroonedPodsClient libraries
client = client_with (shallow_copy libraries package_ plain_config)

abbrev next_client : MaroonedPodsClient libraries
next_client =
    client_with (shallow_copy libraries package_ (record plain_config { user_agent = "agent" }))

made : (get_client_from_rest_config libraries package_ plain_config).1 ≡ ok client
unfolding get_client_from_rest_config
made = refl

flags : (init_flags ("kubeconfig" ∷ []) (record package_ { kubeconfig = "k" })).0.kubeconfig ≡ "k"
unfolding init_flags
flags = refl

client_decodes_example :
    (gv : GroupVersion) × (scheme : List Known) × (client.config.group_version ≡ some gv)
    × (client.config.negotiated_serializer ≡ some scheme)
    × (recognizes scheme gv "MaroonedPods" ≡ true)
    × (recognizes scheme gv "MaroonedPodsList" ≡ true)
client_decodes_example =
    client_decodes libraries kubevirt "" package_ plain_config client refl refl made
