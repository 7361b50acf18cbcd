-- ===== src/Reconcile/Claim.antt =====
-- pkg/maroonedpods-operator/controller.go, `createOperatorConfig`: the config map by which the first resource
-- claims the installation.
use maroonedpods.Prelude.{String, Option, some, [], ◌∷◌, Map, Result, ok, err, Error}
use maroonedpods.Labels.{recommended_installer_labels, set_recommended_labels}
use maroonedpods.Cr.{MaroonedPods}
use maroonedpods.Hooks.{OwnerReference}

abbrev pub config_map_name : String
config_map_name = "maroonedpods-config"

pub record NewConfigMap : Type 0 where
  pub name : String
  pub namespace : String
  pub labels : Map
  pub controller : OwnerReference

-- The API server, to which a creation goes, and controller-runtime's `SetControllerReference`, with the
-- scheme.
pub record Store : Type 1 where
  pub State : Type 0
  pub create_config_map : State → NewConfigMap → State × Option Error
  pub set_controller_reference : MaroonedPods → Result OwnerReference

module _ (store : Store) where
  unfoldable pub operator_config : String → Map → OwnerReference → NewConfigMap
  operator_config namespace cr_labels owner = record {
    name = config_map_name;
    namespace = namespace;
    labels =
        set_recommended_labels (some (("operator.maroonedpods.io", "") ∷ []))
          (recommended_installer_labels cr_labels) "maroonedpods-operator";
    controller = owner;
  }

  -- `cr_labels` are the labels of the resource
  unfoldable pub create_operator_config :
      store.State → String → MaroonedPods → Map → store.State × Option Error
  create_operator_config st namespace cr cr_labels = elim (store.set_controller_reference cr) [
    | err e ↦ (st, some e)
    | ok owner ↦ store.create_config_map st (operator_config namespace cr_labels owner)
  ]
