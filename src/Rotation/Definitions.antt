-- ===== src/Rotation/Definitions.antt =====
-- resources/cert/factory.go: which secrets the certificates are kept in, and when they are refreshed.
use maroonedpods.Prelude.{
  ℕ, ◌+◌, ◌*◌, ◌≤◌, String, ◌≡◌, refl, ◌↔◌, Option, none, some, [], ◌∷◌, arith,
}
use maroonedpods.Cr.{MaroonedPods}
use maroonedpods.Rotation.{
  CertificateConfig, CertificateDefinition, configure, or_default, sub_duration, hour, config_of,
  get_certificate_definitions, duration_of, renew_before_of, secret_resource_name,
  default_definitions, create_certificate_definitions, complete, add_namespace,
}

-- the largest int64
abbrev pub max_duration : ℕ
max_duration = 9223372036854775807

-- the option is none, or holds a duration that is not negative
abbrev pub NotNegative : Option ℕ → Type 0
NotNegative o = or_default o 0 ≤ max_duration

-- what must hold for the refresh to be due within the lifetime: of the default refresh if no renewal
-- is configured, and of the renewal if one is
abbrev pub FitsLifetime : Option ℕ → ℕ → ℕ → Type 0
FitsLifetime none refresh lifetime = refresh ≤ lifetime
FitsLifetime (some r) refresh lifetime = r ≤ lifetime

-- the refresh is the default one, or it is due the renewal before the end if that fits the lifetime
abbrev pub Due : Option ℕ → ℕ → CertificateConfig → Type 0
Due none refresh c = c.refresh ≡ refresh
Due (some r) refresh c = (c.refresh + r ≡ c.lifetime) ↔ (r ≤ c.lifetime)

-- what is configured, over what is the default
pub record IsConfigured (duration renew_before : Option ℕ) (default : CertificateConfig)
    (c : CertificateConfig) : Type 0 where
  pub lifetime : c.lifetime ≡ or_default duration default.lifetime
  pub refresh_iff : (c.refresh ≤ c.lifetime) ↔ FitsLifetime renew_before default.refresh c.lifetime
  pub due : Due renew_before default.refresh c

sub_duration_iff :
    (a b : ℕ) → a ≤ max_duration → b ≤ max_duration → (sub_duration a b ≤ a) ↔ (b ≤ a)
sub_duration_iff a b ha hb = ground arith

sub_duration_lem :
    (a b : ℕ) → a ≤ max_duration → b ≤ max_duration → (sub_duration a b + b ≡ a) ↔ (b ≤ a)
sub_duration_lem a b ha hb = ground arith

configure-IsConfigured :
    (duration renew_before : Option ℕ) (default : CertificateConfig)
    → default.lifetime ≤ max_duration
    → NotNegative duration
    → NotNegative renew_before
    → IsConfigured duration renew_before default (configure duration renew_before default)
unfolding configure
configure-IsConfigured none none default hl hd hr = record {
  lifetime = refl;
  refresh_iff = (λ h. h, λ h. h);
  due = refl;
}
configure-IsConfigured (some d) none default hl hd hr = record {
  lifetime = refl;
  refresh_iff = (λ h. h, λ h. h);
  due = refl;
}
configure-IsConfigured none (some b) default hl hd hr = record {
  lifetime = refl;
  refresh_iff = sub_duration_iff default.lifetime b hl hr;
  due = sub_duration_lem default.lifetime b hl hr;
}
configure-IsConfigured (some d) (some b) default hl hd hr = record {
  lifetime = refl;
  refresh_iff = sub_duration_iff d b hd hr;
  due = sub_duration_lem d b hd hr;
}

-- the three objects of a definition, in the namespace
pub record IsPlaced (ns : String) (d : CertificateDefinition) : Type 0 where
  pub signer : d.signer_secret ≡ some (record { name = "maroonedpods-server"; namespace = ns })
  pub bundle :
      d.cert_bundle_configmap
      ≡ some (record { name = "maroonedpods-server-signer-bundle"; namespace = ns })
  pub target : d.target_secret ≡ some (record { name = secret_resource_name; namespace = ns })

abbrev pub signer_default : CertificateConfig
signer_default = record { lifetime = 48 * hour; refresh = 24 * hour }

abbrev pub target_default : CertificateConfig
target_default = record { lifetime = 24 * hour; refresh = 12 * hour }

-- If none of the configured durations is negative, one certificate chain is kept, with its three
-- objects in the operator's namespace. Each lifetime is the configured one or the default; a
-- refresh is due within the lifetime exactly if the renewal that is configured fits into it, or,
-- if none is, the default refresh does; without a renewal the refresh is the default one, and with
-- one it is due that much before the end exactly if it fits.
pub get_certificate_definitions-IsConfigured :
    (ns : String) (mp : Option MaroonedPods)
    → NotNegative (duration_of (config_of mp).ca)
    → NotNegative (renew_before_of (config_of mp).ca)
    → NotNegative (duration_of (config_of mp).server)
    → NotNegative (renew_before_of (config_of mp).server)
    → (d : CertificateDefinition) × (get_certificate_definitions ns mp ≡ d ∷ [])
      × IsPlaced ns d
      × IsConfigured
          (duration_of (config_of mp).ca)
          (renew_before_of (config_of mp).ca)
          signer_default
          d.signer_config
      × IsConfigured
          (duration_of (config_of mp).server)
          (renew_before_of (config_of mp).server)
          target_default
          d.target_config
unfolding get_certificate_definitions create_certificate_definitions default_definitions complete
    add_namespace
get_certificate_definitions-IsConfigured ns mp h1 h2 h3 h4 = (
  _,
  refl,
  record { signer = refl; bundle = refl; target = refl },
  configure-IsConfigured _ _ signer_default (omega arith) h1 h2,
  configure-IsConfigured _ _ target_default (omega arith) h3 h4,
)
