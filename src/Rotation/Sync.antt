-- ===== src/Rotation/Sync.antt =====
-- certrotation.go of pkg/maroonedpods-operator: `certManager.Sync` and what it calls, over the
-- Kubernetes API and the rotation of openshift/library-go.
use maroonedpods.Prelude.{
  Map, find, put, ℕ, String, ◌==◌, Bool, Option, none, some, List, [], ◌∷◌, Result, ok, err, Error,
  failure, not_found, concat, if◌then◌else◌, is_some,
}
use maroonedpods.Rotation.{ObjectMeta, CertificateConfig, CertificateDefinition}

-- a nil map of annotations is `none`
pub record Secret : Type 0 where
  pub name : String
  pub namespace : String
  pub annotations : Option Map

-- the request to the library for one certificate
pub record Rotation : Type 0 where
  pub name : String
  pub namespace : String
  pub validity : ℕ
  pub refresh : ℕ

-- `ServingRotation` with its host names, or `ClientRotation` with its user
pub data TargetCreator : Type 0 where
  serving : List String → TargetCreator
  client : String → TargetCreator

-- The clients and the library: `State` is what they work on. `config_text` is the JSON of a config, and
-- `now` the text of the current time.
pub record Api : Type 1 where
  pub State : Type 0
  pub Ca : Type 0
  pub Bundle : Type 0
  pub has_listers : State → String → Bool
  pub list_secret : State → String → String → Result Secret
  pub create : State → String → String → State × Result Secret
  pub update : State → Secret → State × Result Secret
  pub config_text : CertificateConfig → Result String
  pub now : State → String
  pub ensure_signing : State → Rotation → State × Result Ca
  pub ensure_ca_bundle : State → ObjectMeta → Ca → State × Result Bundle
  pub ensure_target_pair : State → Rotation → TargetCreator → Ca → Bundle → State × Option Error

abbrev pub ann_cert_config : String
ann_cert_config = "operator.maroonedpods.io/certConfig"

-- library-go's `CertificateNotAfterAnnotation`
abbrev pub not_after_annotation : String
not_after_annotation = "auth.openshift.io/certificate-not-after"

abbrev pub made : Option Map → Map
made none = []
made (some entries) = entries

-- what indexing the map gives: the empty text for a missing key
abbrev pub text_of : Option String → String
text_of none = ""
text_of (some s) = s

-- the annotations that the copy of the secret gets
unfoldable pub with_config : String → String → Map → Map
with_config now text entries =
    let forced =
      if is_some (find not_after_annotation entries)
      then put not_after_annotation now entries
      else entries in
    put ann_cert_config text forced

abbrev no_listers : String → Error
no_listers ns = failure (concat ("no lister for namespace " ∷ ns ∷ []))

-- the names that the server's certificate is for; without a service there is a user
unfoldable pub target_creator : CertificateDefinition → Secret → Option TargetCreator
target_creator cd secret = elim cd.target_service [
  | some service ↦ some (
      serving (
        service
        ∷ concat (service ∷ "." ∷ secret.namespace ∷ [])
        ∷ concat (service ∷ "." ∷ secret.namespace ∷ ".svc" ∷ [])
        ∷ []))
  | none ↦ elim cd.target_user [ none ↦ none | some user ↦ some (client user) ]
]

module _ (api : Api) where
  unfoldable pub ensure_cert_config :
      api.State → Secret → CertificateConfig → api.State × Result Secret
  unfolding with_config
  ensure_cert_config st secret config = elim (api.config_text config) [
    | err e ↦ (st, err e)
    | ok text ↦
        let current = text_of (find ann_cert_config (made secret.annotations)) in
        if current == text
        then (st, ok secret)
        else api.update st (record secret {
          annotations = some (with_config (api.now st) text (made secret.annotations));
        })
  ]

  -- the secret as it is listed, or created if it is not there
  unfoldable pub get_or_create : api.State → ObjectMeta → api.State × Result Secret
  get_or_create st meta = elim (api.list_secret st meta.namespace meta.name) [
    | ok secret ↦ (st, ok secret)
    | err not_found ↦ api.create st meta.namespace meta.name
    | err (failure e) ↦ (st, err (failure e))
  ]

  -- `ensureSigner` and `ensureTarget` up to the rotation
  unfoldable pub configured_secret :
      api.State → String → ObjectMeta → CertificateConfig → api.State × Result Secret
  unfolding get_or_create ensure_cert_config
  configured_secret st lister_ns meta config =
      if api.has_listers st lister_ns
      then (let (st1, got) = get_or_create st meta in
          elim got [ err e ↦ (st1, err e) | ok secret ↦ ensure_cert_config st1 secret config ])
      else (st, err (no_listers lister_ns))

  abbrev rotation : Secret → CertificateConfig → Rotation
  rotation secret config = record {
    name = secret.name;
    namespace = secret.namespace;
    validity = config.lifetime;
    refresh = config.refresh;
  }

  unfoldable pub ensure_signer :
      api.State → ObjectMeta → CertificateConfig → api.State × Result api.Ca
  unfolding configured_secret
  ensure_signer st signer config =
      let (st1, got) = configured_secret st signer.namespace signer config in
      elim got [
        | err e ↦ (st1, err e)
        | ok secret ↦ api.ensure_signing st1 (rotation secret config)
      ]

  unfoldable pub ensure_cert_bundle :
      api.State → ObjectMeta → api.Ca → api.State × Result api.Bundle
  ensure_cert_bundle st bundle ca =
      if api.has_listers st bundle.namespace
      then api.ensure_ca_bundle st bundle ca
      else (st, err (no_listers bundle.namespace))

  -- The lister is the one of the signer's namespace. Without a service and a user the code dereferences
  -- nil, and there is no result; so it does in `sync_one` without a signer.
  unfoldable pub ensure_target :
      api.State
      → ObjectMeta
      → ObjectMeta
      → CertificateDefinition
      → api.Ca
      → api.Bundle
      → Option (api.State × Option Error)
  unfolding configured_secret target_creator
  ensure_target st signer target cd ca bundle =
      let (st1, got) = configured_secret st signer.namespace target cd.target_config in
      elim got [
        | err e ↦ some (st1, some e)
        | ok secret ↦ elim (target_creator cd secret) [
          | none ↦ none
          | some creator ↦
              some (api.ensure_target_pair st1 (rotation secret cd.target_config) creator ca bundle)
        ]
      ]

  -- the body of the loop
  unfoldable pub sync_one : api.State → CertificateDefinition → Option (api.State × Option Error)
  unfolding ensure_signer ensure_cert_bundle ensure_target
  sync_one st cd = elim cd.signer_secret [
    | none ↦ none
    | some signer ↦
        let (st1, signed) = ensure_signer st signer cd.signer_config in
        elim signed [
          | err e ↦ some (st1, some e)
          | ok ca ↦ elim cd.cert_bundle_configmap [
            | none ↦ some (st1, none)
            | some meta ↦
                let (st2, bundled) = ensure_cert_bundle st1 meta ca in
                elim bundled [
                  | err e ↦ some (st2, some e)
                  | ok bundle ↦ elim cd.target_secret [
                    | none ↦ some (st2, none)
                    | some target ↦ ensure_target st2 signer target cd ca bundle
                  ]
                ]
          ]
        ]
  ]

  unfoldable pub sync : api.State → List CertificateDefinition → Option (api.State × Option Error)
  sync st [] = some (st, none)
  sync st (cd ∷ cds) = elim (sync_one st cd) [
    | none ↦ none
    | some done ↦ elim done.1 [ some e ↦ some (done.0, some e) | none ↦ sync done.0 cds ]
  ]
