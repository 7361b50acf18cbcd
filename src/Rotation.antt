-- ===== src/Rotation.antt =====
-- The certificates of the operator: resources/cert/factory.go of pkg/maroonedpods-operator, and
-- `getCertificateDefinitions` of its controller.go. A duration is the bits of an int64.
pub mod Definitions
pub mod Sync
pub mod Config
pub mod Start
pub mod Tests
use maroonedpods.Prelude.{
  ℕ, ◌+◌, ◌-◌, ◌*◌, String, ◌==◌, Bool, true, false, Option, none, some, List, [], ◌∷◌, map,
  if◌then◌else◌,
}
use Prim.Native.Nat.{◌%◌}
use maroonedpods.Cr.{CertConfig, MaroonedPodsCertConfig, MaroonedPods}

-- the name and the namespace of a secret or a config map
pub record ObjectMeta : Type 0 where
  pub name : String
  pub namespace : String

pub record FactoryArgs : Type 0 where
  pub namespace : String
  pub signer_duration : Option ℕ
  pub signer_renew_before : Option ℕ
  pub target_duration : Option ℕ
  pub target_renew_before : Option ℕ

pub record CertificateConfig : Type 0 where
  pub lifetime : ℕ
  pub refresh : ℕ

pub record CertificateDefinition : Type 0 where
  pub configurable : Bool
  pub signer_secret : Option ObjectMeta
  pub signer_config : CertificateConfig
  pub cert_bundle_configmap : Option ObjectMeta
  pub target_secret : Option ObjectMeta
  pub target_config : CertificateConfig
  pub target_service : Option String
  pub target_user : Option String

abbrev pub hour : ℕ
hour = 3600000000000

-- int64 subtraction
abbrev pub sub_duration : ℕ → ℕ → ℕ
sub_duration a b = (a + (18446744073709551616 - b)) % 18446744073709551616

abbrev pub secret_resource_name : String
secret_resource_name = "maroonedpods-server-cert"

abbrev in_default_namespace : String → ObjectMeta
in_default_namespace name = record { name = name; namespace = "" }

unfoldable pub default_definitions : List CertificateDefinition
default_definitions =
    record {
      configurable = true;
      signer_secret = some (in_default_namespace "maroonedpods-server");
      signer_config = record { lifetime = 48 * hour; refresh = 24 * hour };
      cert_bundle_configmap = some (in_default_namespace "maroonedpods-server-signer-bundle");
      target_secret = some (in_default_namespace secret_resource_name);
      target_config = record { lifetime = 24 * hour; refresh = 12 * hour };
      target_service = some "maroonedpods-server";
      target_user = none;
    }
    ∷ []

unfoldable pub add_namespace : String → ObjectMeta → ObjectMeta
add_namespace ns obj = if obj.namespace == "" then record obj { namespace = ns } else obj

abbrev pub or_default {ℓ} : {A : Type ℓ} → Option A → A → A
or_default none d = d
or_default (some a) d = a

abbrev pub option_map : (ObjectMeta → ObjectMeta) → Option ObjectMeta → Option ObjectMeta
option_map f none = none
option_map f (some a) = some (f a)

-- the two assignments to a config, the lifetime first
unfoldable pub configure : Option ℕ → Option ℕ → CertificateConfig → CertificateConfig
configure duration renew_before config =
    let lifetime = or_default duration config.lifetime in
    elim renew_before [
      | none ↦ record { lifetime = lifetime; refresh = config.refresh }
      | some r ↦ record { lifetime = lifetime; refresh = sub_duration lifetime r }
    ]

unfoldable pub complete : FactoryArgs → CertificateDefinition → CertificateDefinition
unfolding add_namespace configure
complete args def =
    let named = record def {
      signer_secret = option_map (add_namespace args.namespace) def.signer_secret;
      cert_bundle_configmap = option_map (add_namespace args.namespace) def.cert_bundle_configmap;
      target_secret = option_map (add_namespace args.namespace) def.target_secret;
    } in
    if def.configurable
    then record named {
      signer_config = configure args.signer_duration args.signer_renew_before def.signer_config;
      target_config = configure args.target_duration args.target_renew_before def.target_config;
    }
    else named

unfoldable pub create_certificate_definitions : FactoryArgs → List CertificateDefinition
unfolding default_definitions complete
create_certificate_definitions args = map (complete args) default_definitions

unfoldable pub duration_of : Option CertConfig → Option ℕ
duration_of none = none
duration_of (some c) = c.duration

unfoldable pub renew_before_of : Option CertConfig → Option ℕ
renew_before_of none = none
renew_before_of (some c) = c.renew_before

abbrev pub no_config : MaroonedPodsCertConfig
no_config = record { ca = none; server = none }

-- `mp.Spec.CertConfig`, where `mp` may be nil
abbrev pub config_of : Option MaroonedPods → MaroonedPodsCertConfig
config_of none = no_config
config_of (some mp) = or_default mp.cert_config no_config

unfoldable pub get_certificate_definitions :
    String → Option MaroonedPods → List CertificateDefinition
unfolding create_certificate_definitions duration_of renew_before_of
get_certificate_definitions ns mp =
    let config = config_of mp in
    create_certificate_definitions (record {
      namespace = ns;
      signer_duration = duration_of config.ca;
      signer_renew_before = renew_before_of config.ca;
      target_duration = duration_of config.server;
      target_renew_before = renew_before_of config.server;
    })
