-- ===== src/Resources/Accounts.antt =====
-- The service accounts of the deployments, and which of them the webhook lets remove the gate.
use text.Mathlib.TextLemmas.{append_cancel_left}
use maroonedpods.Prelude.{
  String, ◌≡◌, refl, ap, ◌∙◌, sym, eq_iff, Bool, true, false, Option, none, some, List, ok, concat,
  arith, Bool-cases, inl, inr, In, first, later,
}
use maroonedpods.Admission.{is_controller_service_account, controller_resource_name}
use maroonedpods.Admission.Account.{
  account, account_namespace_iff, is_controller_service_account_iff,
}
use maroonedpods.Webhooks.{server_resource_name}
use maroonedpods.Resources.{
  Builder, IsBuilder, Deployment, PodSpec, ServiceAccount, Object, service_account, deployment,
}
use maroonedpods.Resources.Util.{maroonedpods_label, create_deployment}
use maroonedpods.Resources.Server.{
  create_server_service_account, create_server_deployment, with_priority, spread,
}
use maroonedpods.Resources.Controller.{
  create_controller_service_account, create_controller_deployment,
}
use maroonedpods.Resources.Namespaced.{
  FactoryArgs, create_resource_group, server_group, controller_group, server_resources,
  controller_resources, or_namespace,
}

-- A deployment among the objects runs under an account among them, in the namespace, and `trusted` is
-- whether the webhook of the namespace takes that account for the controller's.
pub record RunsAs (objects : List Object) (ns : String) (trusted : Bool) : Type 0 where
  pub account_object : ServiceAccount
  pub deployment_object : Deployment
  pub has_account : In (service_account account_object) objects
  pub has_deployment : In (deployment deployment_object) objects
  pub runs : deployment_object.template_spec.service_account_name ≡ account_object.name
  pub placed : deployment_object.namespace ≡ account_object.namespace
  pub verdict :
      is_controller_service_account (account account_object.namespace account_object.name) ns
      ≡ trusted

spread-account :
    (infra : Option String) (name : String) (spec : PodSpec)
    → (spread infra name spec).service_account_name ≡ spec.service_account_name
spread-account none name spec = refl
spread-account (some infra) name spec = refl

with_priority-account :
    (priority : String) (d : Deployment)
    → (with_priority priority d).template_spec.service_account_name
      ≡ d.template_spec.service_account_name
with_priority-account priority d = ground arith

with_priority-namespace :
    (priority : String) (d : Deployment) → (with_priority priority d).namespace ≡ d.namespace
with_priority-namespace priority d = ground arith

server_is_not_controller :
    (ns : String) → is_controller_service_account (account ns server_resource_name) ns ≡ false
unfolding concat
server_is_not_controller ns =
    elim (Bool-cases (is_controller_service_account (account ns server_resource_name) ns)) [
      | inr no_controller ↦ no_controller
      | inl same ↦
          let texts =
            (is_controller_service_account_iff (account ns server_resource_name) ns).0 same in
          let tails =
            append_cancel_left ns _ _ (append_cancel_left "system:serviceaccount:" _ _ texts) in
          absurd (ground (arith, eq_iff ":maroonedpods-server" ":maroonedpods-controller"))
    ]

module _ (b : Builder) (laws : IsBuilder b) where
  controller_runs :
      (image verbosity pull_policy : String) (pull_secrets : List String) (priority : String)
      (infra : Option String)
      → (create_controller_deployment b image verbosity pull_policy pull_secrets priority
          infra).template_spec.service_account_name
        ≡ controller_resource_name
  unfolding create_controller_deployment
  controller_runs image verbosity pull_policy pull_secrets priority infra =
      spread-account infra controller_resource_name _
      ∙ with_priority-account priority (
          create_deployment b controller_resource_name maroonedpods_label controller_resource_name
            controller_resource_name pull_secrets 2 infra)
      ∙ unfold create_deployment in
        laws.deployment_account controller_resource_name "" maroonedpods_label
          controller_resource_name controller_resource_name 2 _ infra

  controller_namespace :
      (image verbosity pull_policy : String) (pull_secrets : List String) (priority : String)
      (infra : Option String)
      → (create_controller_deployment b image verbosity pull_policy pull_secrets priority
          infra).namespace
        ≡ ""
  unfolding create_controller_deployment
  controller_namespace image verbosity pull_policy pull_secrets priority infra =
      with_priority-namespace priority (
        create_deployment b controller_resource_name maroonedpods_label controller_resource_name
          controller_resource_name pull_secrets 2 infra)
      ∙ unfold create_deployment in
        laws.deployment_namespace controller_resource_name "" maroonedpods_label
          controller_resource_name controller_resource_name 2 _ infra

  server_runs :
      (image pull_policy : String) (pull_secrets : List String) (priority verbosity : String)
      (infra : Option String)
      → (create_server_deployment b image pull_policy pull_secrets priority verbosity
          infra).template_spec.service_account_name
        ≡ server_resource_name
  unfolding create_server_deployment
  server_runs image pull_policy pull_secrets priority verbosity infra =
      spread-account infra server_resource_name _
      ∙ with_priority-account priority (
          create_deployment b server_resource_name maroonedpods_label server_resource_name
            server_resource_name pull_secrets 2 infra)
      ∙ unfold create_deployment in
        laws.deployment_account server_resource_name "" maroonedpods_label server_resource_name
          server_resource_name 2 _ infra

  server_namespace :
      (image pull_policy : String) (pull_secrets : List String) (priority verbosity : String)
      (infra : Option String)
      → (create_server_deployment b image pull_policy pull_secrets priority verbosity
          infra).namespace
        ≡ ""
  unfolding create_server_deployment
  server_namespace image pull_policy pull_secrets priority verbosity infra =
      with_priority-namespace priority (
        create_deployment b server_resource_name maroonedpods_label server_resource_name
          server_resource_name pull_secrets 2 infra)
      ∙ unfold create_deployment in
        laws.deployment_namespace server_resource_name "" maroonedpods_label server_resource_name
          server_resource_name 2 _ infra

  controller_group-RunsAs :
      (args : FactoryArgs)
      → (objects : List Object) × (create_resource_group b controller_group args ≡ ok objects)
        × RunsAs objects args.namespace true
  unfolding create_resource_group controller_resources create_controller_service_account
  controller_group-RunsAs args = (
    _,
    refl,
    record {
      account_object = _;
      deployment_object = _;
      has_account = first;
      has_deployment = later (later (later first));
      runs =
          controller_runs args.controller_image args.verbosity args.pull_policy
            args.image_pull_secrets args.priority_class_name args.infra_node_placement
          ∙ sym (laws.service_account_name controller_resource_name);
      placed = ap (or_namespace args.namespace) (
          controller_namespace args.controller_image args.verbosity args.pull_policy
            args.image_pull_secrets args.priority_class_name args.infra_node_placement
          ∙ sym (laws.service_account_namespace controller_resource_name));
      verdict =
          rw
            (
              laws.service_account_name controller_resource_name,
              laws.service_account_namespace controller_resource_name,
            )
            ((account_namespace_iff args.namespace args.namespace).1 refl);
    },
  )

  server_group-RunsAs :
      (args : FactoryArgs)
      → (objects : List Object) × (create_resource_group b server_group args ≡ ok objects)
        × RunsAs objects args.namespace false
  unfolding create_resource_group server_resources create_server_service_account
  server_group-RunsAs args = (
    _,
    refl,
    record {
      account_object = _;
      deployment_object = _;
      has_account = later (later first);
      has_deployment = later (later (later (later first)));
      runs =
          server_runs args.maroonedpods_server_image args.pull_policy args.image_pull_secrets
            args.priority_class_name args.verbosity args.infra_node_placement
          ∙ sym (laws.service_account_name server_resource_name);
      placed = ap (or_namespace args.namespace) (
          server_namespace args.maroonedpods_server_image args.pull_policy args.image_pull_secrets
            args.priority_class_name args.verbosity args.infra_node_placement
          ∙ sym (laws.service_account_namespace server_resource_name));
      verdict =
          rw
            (
              laws.service_account_name server_resource_name,
              laws.service_account_namespace server_resource_name,
            )
            (server_is_not_controller args.namespace);
    },
  )

-- Among the objects of the controller is the account under which its pods run, and the webhook of the
-- namespace lets that account remove the gate; the account under which the server's pods run is among
-- the server's objects, and may not. The builder has to name accounts and run deployments under them.
pub create_resource_group-RunsAs :
    (b : Builder) (args : FactoryArgs)
    → IsBuilder b
    → (controller : List Object) × (server : List Object) × (create_resource_group b
          controller_group args
        ≡ ok controller)
      × (create_resource_group b server_group args ≡ ok server)
      × RunsAs controller args.namespace true
      × RunsAs server args.namespace false
create_resource_group-RunsAs b args laws =
    let (controller, made, runs) = controller_group-RunsAs b laws args in
    let (server, made', runs') = server_group-RunsAs b laws args in
    (controller, server, made, made', runs, runs')
