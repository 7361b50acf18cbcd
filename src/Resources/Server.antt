-- ===== src/Resources/Server.antt =====
-- resources/namespaced/maroonedpodsserver.go: the objects of the webhook server.
use maroonedpods.Prelude.{
  ℕ, String, ◌==◌, true, Option, none, some, List, [], ◌∷◌, ◌++◌, concat, if◌then◌else◌,
}
use maroonedpods.Labels.{part_of_label, version_label}
use maroonedpods.Rotation.{secret_resource_name}
use maroonedpods.Webhooks.{server_resource_name}
use maroonedpods.Rbac.Server.{server_role_rules}
use maroonedpods.Resources.{
  EnvVar, text, field_path, ContainerPort, Probe, Container, PodSpec, Deployment, Service,
  ServiceAccount, Role, RoleBinding, Builder,
}
use maroonedpods.Resources.Util.{
  maroonedpods_label, installer_part_of_label, installer_version_label, tls_label, create_container,
  create_deployment,
}

-- `corev1.ConfigMapVolumeSourceDefaultMode`, 0644
abbrev pub default_mode : ℕ
default_mode = 420

-- the priority class, the strategy and the containers that a deployment is completed with
abbrev pub with_priority : String → Deployment → Deployment
with_priority priority d =
    if priority == ""
    then d
    else record d { template_spec = record (d.template_spec) { priority_class_name = priority } }

abbrev pub rolling : Deployment → Deployment
rolling d = record d { strategy = some ("RollingUpdate", 1) }

-- the path of a label among the pod's fields
abbrev pub label_field : String → String
label_field label = concat ("metadata.labels['" ∷ label ∷ "']" ∷ [])

abbrev pub installer_env : List EnvVar
installer_env =
    record { name = installer_part_of_label; value = field_path (label_field part_of_label) }
    ∷ record { name = installer_version_label; value = field_path (label_field version_label) }
    ∷ []

abbrev pub spread : Option String → String → PodSpec → PodSpec
spread (some infra) name spec = spec
spread none name spec = record spec {
  anti_affinity = some (record {
    match_labels = (maroonedpods_label, name) ∷ [];
    topology_key = "kubernetes.io/hostname";
    weight = 100;
  });
}

abbrev pub server_ports : List ContainerPort
server_ports = record { name = ""; container_port = 8443; protocol = "TCP" } ∷ []

abbrev pub server_probe : Probe
server_probe = record {
  scheme = "HTTPS";
  path = "/healthz";
  port = 8443;
  initial_delay_seconds = 2;
  period_seconds = 5;
  failure_threshold = 3;
  success_threshold = 1;
  timeout_seconds = 1;
}

module _ (b : Builder) where
  unfoldable pub create_server_service_account : ServiceAccount
  create_server_service_account = b.create_service_account server_resource_name

  unfoldable pub create_server_service : Service
  create_server_service =
      record (b.create_service "maroonedpods-server" maroonedpods_label server_resource_name) {
        service_type = "NodePort";
        ports = record { port = 443; target_port = 8443; protocol = "TCP" } ∷ [];
      }

  server_container : String → String → String → Container
  unfolding create_container concat
  server_container image verbosity pull_policy =
      record (create_container b server_resource_name image verbosity pull_policy) {
        ports = server_ports;
        env = installer_env ++ record { name = tls_label; value = text "true" } ∷ [];
        readiness_probe = some server_probe;
        requests = ("cpu", "10m") ∷ ("memory", "50Mi") ∷ [];
        volume_mounts =
            record { name = "tls"; mount_path = "/etc/admission-webhook/tls"; read_only = true }
            ∷ [];
      }

  unfoldable pub create_server_deployment :
      String → String → List String → String → String → Option String → Deployment
  unfolding server_container create_deployment
  create_server_deployment image pull_policy pull_secrets priority verbosity infra =
      let d = rolling (
        with_priority priority (
          create_deployment b server_resource_name maroonedpods_label server_resource_name
            server_resource_name pull_secrets 2 infra)) in
      record d {
        template_spec = spread infra server_resource_name (record (d.template_spec) {
          containers = server_container image verbosity pull_policy ∷ [];
          volumes =
              record {
                name = "tls";
                secret_name = secret_resource_name;
                items = [];
                default_mode = default_mode;
              }
              ∷ [];
        });
      }

  unfoldable pub create_server_role_binding : RoleBinding
  create_server_role_binding =
      b.create_role_binding server_resource_name server_resource_name server_resource_name ""

  unfoldable pub create_server_role : Role
  create_server_role = b.create_role server_resource_name server_role_rules
