-- ===== src/Rotation/Config.antt =====
-- certrotation.go: what `Sync` leaves on a secret, and that it returns.
use maroonedpods.Prelude.{
  Map, find, find-put, find-put_other, String, ◌≡◌, refl, ◌≢◌, true, Option, some, [], ◌∷◌, arith,
  ok, ◌==◌, eq_iff, eq_refl, is_some, Option-cases, Result-cases, Bool-cases, inl, inr, ◌∙◌,
}
use maroonedpods.Cr.{MaroonedPods}
use maroonedpods.Rotation.{
  ObjectMeta, CertificateConfig, CertificateDefinition, get_certificate_definitions,
  create_certificate_definitions, default_definitions, complete, add_namespace,
}
use maroonedpods.Rotation.Sync.{
  Api, Secret, made, text_of, with_config, ann_cert_config, not_after_annotation,
  ensure_cert_config, sync, sync_one, ensure_target, target_creator, ensure_signer,
  ensure_cert_bundle, configured_secret,
}

find-with_config :
    (now text : String) (entries : Map)
    → find ann_cert_config (with_config now text entries) ≡ some text
unfolding with_config
find-with_config now text entries = find-put ann_cert_config text _

-- a change of the configuration makes a certificate that there is due at once
with_config-not_after :
    (now text old : String) (entries : Map)
    → find not_after_annotation entries ≡ some old
    → find not_after_annotation (with_config now text entries) ≡ some now
unfolding with_config
with_config-not_after now text old entries h =
    find-put_other ann_cert_config not_after_annotation text _
      (ground (arith, eq_iff not_after_annotation ann_cert_config))
    ∙ rw (h) (find-put not_after_annotation now entries)

with_config_other :
    (now text key : String) (entries : Map)
    → key ≢ ann_cert_config
    → key ≢ not_after_annotation
    → find key (with_config now text entries) ≡ find key entries
unfolding with_config
with_config_other now text key entries not_config not_end =
    find-put_other ann_cert_config key text _ not_config
    ∙ elim (Option-cases (find not_after_annotation entries)) [
      | inl e ↦ rw (e) refl
      | inr (old, e) ↦ rw (e) (find-put_other not_after_annotation key now entries not_end)
    ]

module _ (api : Api)
    (stores : (st st' : api.State) (s s' : Secret) → api.update st s ≡ (st', ok s') → s' ≡ s) where
  -- If an update by the API returns the secret that was sent, and a configuration that encodes is
  -- recorded without an error, the secret carries it, and recording it again asks nothing of the
  -- API and changes nothing.
  pub ensure_cert_config_idempotent :
      (st st' : api.State) (s s' : Secret) (config : CertificateConfig) (text : String)
      → api.config_text config ≡ ok text
      → ensure_cert_config api st s config ≡ (st', ok s')
      → (text_of (find ann_cert_config (made s'.annotations)) ≡ text)
        × (ensure_cert_config api st' s' config ≡ (st', ok s'))
  unfolding ensure_cert_config
  ensure_cert_config_idempotent st st' s s' config text h e =
      elim (Bool-cases (text_of (find ann_cert_config (made s.annotations)) == text)) [
        | inl same ↦
            let current =
              (eq_iff (text_of (find ann_cert_config (made s.annotations))) text).0 same in
            ground arith
        | inr other ↦
            let changed : Secret = record s {
              annotations = some (with_config (api.now st) text (made s.annotations));
            } in
            let updated : api.update st changed ≡ (st', ok s') = ground arith in
            let stored : s' ≡ changed = stores st st' changed s' updated in
            let recorded = find-with_config (api.now st) text (made s.annotations) in
            let current : text_of (find ann_cert_config (made s'.annotations)) ≡ text =
              rw (stored, recorded) refl in
            (current, ground (arith, eq_refl text))
      ]

  -- If an update by the API returns the secret that was sent, and a configuration is recorded
  -- without an error where another one was, on a secret with an end of validity, that end is set
  -- to the current time, which forces a refresh; every other annotation but the configuration
  -- stays.
  pub ensure_cert_config_forces :
      (st st' : api.State) (s s' : Secret) (config : CertificateConfig) (text old key : String)
      → api.config_text config ≡ ok text
      → text_of (find ann_cert_config (made s.annotations)) ≢ text
      → find not_after_annotation (made s.annotations) ≡ some old
      → key ≢ ann_cert_config
      → key ≢ not_after_annotation
      → ensure_cert_config api st s config ≡ (st', ok s')
      → (find not_after_annotation (made s'.annotations) ≡ some (api.now st))
        × (find key (made s'.annotations) ≡ find key (made s.annotations))
  unfolding ensure_cert_config
  ensure_cert_config_forces st st' s s' config text old key h other ends not_config not_end e =
      let changed : Secret = record s {
        annotations = some (with_config (api.now st) text (made s.annotations));
      } in
      let updated : api.update st changed ≡ (st', ok s') =
        ground (arith, eq_iff (text_of (find ann_cert_config (made s.annotations))) text) in
      let stored : s' ≡ changed = stores st st' changed s' updated in
      let forced = with_config-not_after (api.now st) text old (made s.annotations) ends in
      let kept = with_config_other (api.now st) text key (made s.annotations) not_config not_end in
      (rw (stored) forced, rw (stored) kept)

module _ (api : Api) where
  ensure_target_returns :
      (st : api.State) (signer target : ObjectMeta) (cd : CertificateDefinition) (service : String)
      (ca : api.Ca) (bundle : api.Bundle)
      → cd.target_service ≡ some service
      → is_some (ensure_target api st signer target cd ca bundle) ≡ true
  unfolding ensure_target target_creator
  ensure_target_returns st signer target cd service ca bundle h =
      elim (Result-cases (configured_secret api st signer.namespace target cd.target_config).1) [
        | inl (secret, e) ↦ ground arith
        | inr (failed, e) ↦ ground arith
      ]

  sync_one_returns :
      (st : api.State) (cd : CertificateDefinition) (signer : ObjectMeta) (service : String)
      → cd.signer_secret ≡ some signer
      → cd.target_service ≡ some service
      → is_some (sync_one api st cd) ≡ true
  unfolding sync_one
  sync_one_returns st cd signer service hs ht =
      let signed = ensure_signer api st signer cd.signer_config in
      elim (Result-cases signed.1) [
        | inr (failed, e) ↦ ground arith
        | inl (ca, e) ↦ elim (Option-cases cd.cert_bundle_configmap) [
          | inl nothing ↦ ground arith
          | inr (meta, em) ↦
              let bundled = ensure_cert_bundle api signed.0 meta ca in
              elim (Result-cases bundled.1) [
                | inr (failed, eb) ↦ ground arith
                | inl (bundle, eb) ↦ elim (Option-cases cd.target_secret) [
                  | inl nothing ↦ ground arith
                  | inr (target, et) ↦
                      ground (
                        arith,
                        ensure_target_returns bundled.0 signer target cd service ca bundle ht,
                      )
                ]
              ]
        ]
      ]

  sync_returns_one :
      (st : api.State) (cd : CertificateDefinition)
      → is_some (sync_one api st cd) ≡ true
      → is_some (sync api st (cd ∷ [])) ≡ true
  unfolding sync
  sync_returns_one st cd h = ground arith

  -- For the definitions of the operator `Sync` returns, with or without an error, whatever the API
  -- answers and whatever the resource says: no nil is dereferenced.
  pub sync_returns :
      (st : api.State) (ns : String) (mp : Option MaroonedPods)
      → is_some (sync api st (get_certificate_definitions ns mp)) ≡ true
  unfolding get_certificate_definitions create_certificate_definitions default_definitions complete
      add_namespace
  sync_returns st ns mp = sync_returns_one st _ (sync_one_returns st _ _ _ refl refl)
