-- ===== src/Resources/Controller.antt =====
-- resources/namespaced/controller.go: the objects of the controller.
use maroonedpods.Prelude.{String, Option, some, List, [], ◌∷◌}
use maroonedpods.Admission.{controller_resource_name}
use maroonedpods.Rotation.{secret_resource_name}
use maroonedpods.Rbac.Controller.{controller_role_rules}
use maroonedpods.Resources.{
  ContainerPort, Probe, Container, Deployment, ServiceAccount, Role, RoleBinding, Builder,
}
use maroonedpods.Resources.Util.{maroonedpods_label, create_container, create_deployment}
use maroonedpods.Resources.Server.{default_mode, with_priority, rolling, installer_env, spread}

abbrev pub controller_ports : List ContainerPort
controller_ports = record { name = ""; container_port = 8443; protocol = "TCP" } ∷ []

abbrev pub controller_probe : Probe
controller_probe = record {
  scheme = "HTTPS";
  path = "/leader";
  port = 8443;
  initial_delay_seconds = 15;
  period_seconds = 0;
  failure_threshold = 0;
  success_threshold = 0;
  timeout_seconds = 10;
}

module _ (b : Builder) where
  unfoldable pub create_controller_service_account : ServiceAccount
  create_controller_service_account = b.create_service_account controller_resource_name

  controller_container : String → String → String → Container
  unfolding create_container
  controller_container image verbosity pull_policy =
      record (create_container b controller_resource_name image verbosity pull_policy) {
        ports = controller_ports;
        env = installer_env;
        readiness_probe = some controller_probe;
        requests = ("cpu", "50m") ∷ ("memory", "150Mi") ∷ [];
      }

  unfoldable pub create_controller_deployment :
      String → String → String → List String → String → Option String → Deployment
  unfolding controller_container create_deployment
  create_controller_deployment image verbosity pull_policy pull_secrets priority infra =
      let d = rolling (
        with_priority priority (
          create_deployment b controller_resource_name maroonedpods_label controller_resource_name
            controller_resource_name pull_secrets 2 infra)) in
      record d {
        template_spec = spread infra controller_resource_name (record (d.template_spec) {
          containers = controller_container image verbosity pull_policy ∷ [];
          volumes =
              record {
                name = "server-cert";
                secret_name = secret_resource_name;
                items = ("tls.crt", "tls.crt") ∷ ("tls.key", "tls.key") ∷ [];
                default_mode = default_mode;
              }
              ∷ [];
        });
      }

  unfoldable pub create_controller_role_binding : RoleBinding
  create_controller_role_binding =
      b.create_role_binding controller_resource_name controller_resource_name
        controller_resource_name ""

  unfoldable pub create_controller_role : Role
  create_controller_role = b.create_role controller_resource_name controller_role_rules
