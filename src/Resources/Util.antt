-- ===== src/Resources/Util.antt =====
-- pkg/util/util.go: the containers and deployments that all factories start from.
use maroonedpods.Prelude.{ℕ, String, true, false, Option, none, some, List, [], ◌∷◌, concat}
use maroonedpods.Labels.{merge_labels}
use maroonedpods.Resources.{Container, PodSpec, Deployment, Builder}

abbrev pub maroonedpods_label : String
maroonedpods_label = "maroonedpods.io"

abbrev pub priority_class : String
priority_class = "kubevirt-cluster-critical"

abbrev pub prometheus_label_key : String
prometheus_label_key = "prometheus.maroonedpods.io"

abbrev pub prometheus_label_value : String
prometheus_label_value = "true"

abbrev pub operator_service_account_name : String
operator_service_account_name = "maroonedpods-operator"

abbrev pub default_port : ℕ
default_port = 8443

abbrev pub installer_part_of_label : String
installer_part_of_label = "INSTALLER_PART_OF_LABEL"

abbrev pub installer_version_label : String
installer_version_label = "INSTALLER_VERSION_LABEL"

abbrev pub tls_label : String
tls_label = "TLS"

-- a pod specification of which only the security context and the pull secrets are set
abbrev base_pod_spec : List String → PodSpec
base_pod_spec pull_secrets = record {
  run_as_non_root = true;
  image_pull_secrets = pull_secrets;
  node_selector = [];
  tolerations = [];
  service_account_name = "";
  priority_class_name = "";
  containers = [];
  volumes = [];
  anti_affinity = none;
}

module _ (b : Builder) where
  unfoldable pub create_container : String → String → String → String → Container
  unfolding concat
  create_container name image verbosity pull_policy =
      record (b.create_container name image pull_policy) {
        termination_message_policy = "File";
        termination_message_path = "/dev/termination-log";
        args = concat ("-v=" ∷ verbosity ∷ []) ∷ [];
        security_context = some (record {
          seccomp_profile = "RuntimeDefault";
          allow_privilege_escalation = false;
          run_as_non_root = true;
          drop_capabilities = [];
        });
      }

  unfoldable pub create_deployment :
      String → String → String → String → List String → ℕ → Option String → Deployment
  create_deployment name match_key match_value service_account pull_secrets replicas infra =
      b.create_deployment name "" match_key match_value service_account replicas
        (base_pod_spec pull_secrets) infra

  unfoldable pub create_operator_deployment :
      String → String → String → String → String → List String → ℕ → Deployment
  unfolding merge_labels
  create_operator_deployment name namespace match_key match_value service_account pull_secrets
        replicas =
      let d =
        b.create_operator_deployment name namespace match_key match_value service_account replicas
          (record (base_pod_spec pull_secrets) {
            node_selector = ("kubernetes.io/os", "linux") ∷ [];
            tolerations = ("CriticalAddonsOnly", "Exists") ∷ [];
          }) in
      let labels =
        merge_labels d.template_labels
          (some ((prometheus_label_key, prometheus_label_value) ∷ [])) in
      record d { labels = labels; template_labels = labels }
