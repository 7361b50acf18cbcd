-- ===== src/Rotation/Tests.antt =====
-- The certificates of a resource with a short CA, on an API that does what it is asked.
use maroonedpods.Prelude.{
  find, put, ℕ, ◌+◌, ◌*◌, String, ◌≡◌, refl, ◌≢◌, true, false, none, some, [], ◌∷◌, arith, ok,
  is_some, eq_iff,
}
use maroonedpods.Cr.{MaroonedPods}
use maroonedpods.Rotation.{
  CertificateConfig, CertificateDefinition, get_certificate_definitions, hour, duration_of,
  renew_before_of, config_of,
}
use maroonedpods.Rotation.Definitions.{
  IsPlaced, IsConfigured, signer_default, target_default, get_certificate_definitions-IsConfigured,
}
use maroonedpods.Rotation.Sync.{
  Api, Secret, made, text_of, with_config, ann_cert_config, not_after_annotation,
  ensure_cert_config, sync,
}
use maroonedpods.Rotation.Config.{ensure_cert_config_idempotent, sync_returns}

abbrev short_ca : MaroonedPods
short_ca = record {
  name = "m";
  uid = "u";
  being_deleted = false;
  image_pull_policy = "";
  priority_class = none;
  infra = "";
  phase = "Deployed";
  namespace_selector = none;
  cert_config = some (record {
    ca = some (record { duration = some (2 * hour); renew_before = some hour });
    server = none;
  });
}

get_certificate_definitions-IsConfigured_example :
    (d : CertificateDefinition) × (get_certificate_definitions "ns" (some short_ca) ≡ d ∷ [])
    × IsPlaced "ns" d
    × IsConfigured
        (duration_of (config_of (some short_ca)).ca)
        (renew_before_of (config_of (some short_ca)).ca)
        signer_default
        d.signer_config
    × IsConfigured
        (duration_of (config_of (some short_ca)).server)
        (renew_before_of (config_of (some short_ca)).server)
        target_default
        d.target_config
unfolding duration_of renew_before_of
get_certificate_definitions-IsConfigured_example =
    get_certificate_definitions-IsConfigured "ns" (some short_ca) (omega arith) (omega arith)
      (omega arith) (omega arith)

-- The state is the number of requests.
abbrev api : Api
api = record {
  State = ℕ;
  Ca = String;
  Bundle = String;
  has_listers = λ st ns. true;
  list_secret = λ st ns name. ok (record { name = name; namespace = ns; annotations = none });
  create = λ st ns name. (st + 1, ok (record { name = name; namespace = ns; annotations = none }));
  update = λ st s. (st + 1, ok s);
  config_text = λ config. ok "{}";
  now = λ st. "now";
  ensure_signing = λ st r. (st + 1, ok r.name);
  ensure_ca_bundle = λ st meta ca. (st + 1, ok ca);
  ensure_target_pair = λ st r creator ca bundle. (st + 1, none);
}

stores : (st st' : ℕ) (s s' : Secret) → api.update st s ≡ (st', ok s') → s' ≡ s
stores st st' s s' e = ground arith

abbrev outdated : Secret
outdated = record {
  name = "s";
  namespace = "ns";
  annotations = some ((not_after_annotation, "later") ∷ ("owner", "me") ∷ []);
}

abbrev updated : Secret
updated = record {
  name = "s";
  namespace = "ns";
  annotations =
      some ((not_after_annotation, "now") ∷ ("owner", "me") ∷ (ann_cert_config, "{}") ∷ []);
}

abbrev config : CertificateConfig
config = record { lifetime = 2; refresh = 1 }

update_outdated : ensure_cert_config api 0 outdated config ≡ (1, ok updated)
unfolding ensure_cert_config find put with_config
update_outdated = refl

ensure_cert_config_idempotent_example :
    (text_of (find ann_cert_config (made updated.annotations)) ≡ "{}")
    × (ensure_cert_config api 1 updated config ≡ (1, ok updated))
ensure_cert_config_idempotent_example =
    ensure_cert_config_idempotent api stores 0 1 outdated updated config "{}" refl update_outdated

unconfigured : text_of (find ann_cert_config (made outdated.annotations)) ≢ "{}"
unfolding find
unconfigured = ground (arith, eq_iff "" "{}")

ends : find not_after_annotation (made outdated.annotations) ≡ some "later"
unfolding find
ends = refl

sync_returns_example :
    is_some (sync api 0 (get_certificate_definitions "ns" (some short_ca))) ≡ true
sync_returns_example = sync_returns api 0 "ns" (some short_ca)
