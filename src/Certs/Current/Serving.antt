-- ===== src/Certs/Current/Serving.antt =====
-- cert-manager.go: which certificate is served, as the secret changes in the store.
use mathlib.Core.Path.{subst}
use maroonedpods.Prelude.{
  String, ◌==◌, eq_iff, ◌≡◌, refl, ap, ◌∙◌, ◌≢◌, ◌⊎◌, inl, inr, Option, none, some, List, [], ◌∷◌,
  arith, Result, ok, err, Option-cases, Result-cases, Bool-cases,
}
use maroonedpods.Certs.Pem.{Bytes, Parsed, parse_certs_pem}
use maroonedpods.Certs.Pem.Blocks.{Shrinks}
use maroonedpods.Certs.Pem.Certificates.{parse_certs_pem_leaf, parse_certs_pem-certs_of}
use maroonedpods.Certs.Current.{
  Tls, Secret, Certificate, SecretManager, Store, load_pair, with_leaf, refresh, secret_current,
  handshake, fallback_current, get_certificate,
}

module _ (t : Tls) where
  -- the secret of the store loads as the certificate `c`
  pub record Loads (store : Store t) (s : SecretManager t) (secret : Secret) (c : Certificate t)
      : Type 0 where
    pub stored : store s.secret_key ≡ ok (some secret)
    pub loads : load_pair t (secret.data_at s.tls_crt) (secret.data_at s.tls_key) ≡ some (ok c)

  -- A call of `Current` keeps the manager, or moves it to a new revision that loads.
  pub data Moves (store : Store t) (s : SecretManager t) : SecretManager t → Type 0 where
    stays : Moves store s s
    moves :
        {s' : SecretManager t} (secret : Secret) (c : Certificate t)
        → Loads store s secret c
        → secret.resource_version ≢ s.revision
        → s' ≡ record s { revision = secret.resource_version; crt = some c }
        → Moves store s s'

  -- calls of `Current`, one for each state of the store
  unfoldable pub polls : List (Store t) → SecretManager t → Option (SecretManager t)
  polls [] s = some s
  polls (store ∷ stores) s = elim (secret_current t store s) [
    | none ↦ none
    | some r ↦ polls stores r.0
  ]

  -- some store of the list has a secret that loads as `c`
  pub data Seen (s : SecretManager t) (c : Certificate t) : List (Store t) → Type 0 where
    here :
        {store : Store t} {stores : List (Store t)} (secret : Secret)
        → Loads store s secret c
        → Seen s c (store ∷ stores)
    there :
        {store : Store t} {stores : List (Store t)} → Seen s c stores → Seen s c (store ∷ stores)

  module _ (shrinks : Shrinks t.x509) where
    with_leaf_total :
        (pair : t.Pair) (cert_bytes : Bytes) (p : Parsed (t.x509.Certificate))
        → parse_certs_pem t.x509 cert_bytes ≡ some p
        → (r : Result (Certificate t)) × (with_leaf t pair p ≡ some r)
    unfolding with_leaf
    with_leaf_total pair cert_bytes p e = elim (Option-cases p.error) [
      | inr (x, q) ↦ (err x, rw q)
      | inl q ↦
          let (leaf, others, l) = parse_certs_pem_leaf t.x509 shrinks cert_bytes p e q in
          (ok (record { pair = pair; leaf = leaf }), ground arith)
    ]

    -- loading a pair never crashes: there is a first certificate if there was no error
    load_pair_total :
        (cert_bytes key_bytes : Bytes)
        → (r : Result (Certificate t)) × (load_pair t cert_bytes key_bytes ≡ some r)
    unfolding load_pair
    load_pair_total cert_bytes key_bytes =
        let (bs, d, e) = parse_certs_pem-certs_of t.x509 shrinks cert_bytes in
        elim (Result-cases (t.key_pair cert_bytes key_bytes)) [
          | inr (x, q) ↦ (err x, ground arith)
          | inl (pair, q) ↦ let (r, l) = with_leaf_total pair cert_bytes _ e in (r, ground arith)
        ]

    -- If `pem.Decode` shortens what it decodes, `Current` never crashes. It returns the
    -- certificate of the manager it leaves, which is the manager it found, or that manager moved
    -- to a revision of the secret that is new and loads.
    pub secret_current-Moves :
        (store : Store t) (s : SecretManager t)
        → (s' : SecretManager t) × (secret_current t store s ≡ some (s', s'.crt)) × Moves store s s'
    unfolding secret_current refresh
    secret_current-Moves store s = elim (Result-cases (store s.secret_key)) [
      | inr (x, q) ↦ (s, ground arith, Moves.stays)
      | inl (found, q) ↦ elim (Option-cases found) [
        | inl absent ↦ (s, ground arith, Moves.stays)
        | inr (secret, present) ↦ elim (Bool-cases (secret.resource_version == s.revision)) [
          | inl same ↦ (s, ground arith, Moves.stays)
          | inr new ↦
              let (r, l) = load_pair_total (secret.data_at s.tls_crt) (secret.data_at s.tls_key) in
              elim (Result-cases r) [
                | inr (x, fails) ↦ (s, ground arith, Moves.stays)
                | inl (c, succeeds) ↦ (
                  record s { revision = secret.resource_version; crt = some c },
                  ground arith,
                  Moves.moves secret c (record { stored = ground arith; loads = ground arith })
                      (ground (arith, eq_iff secret.resource_version s.revision)) refl,
                )
              ]
        ]
      ]
    ]

    -- A new revision that loads is served at once.
    pub secret_current_new :
        (store : Store t) (s : SecretManager t) (secret : Secret) (c : Certificate t)
        → Loads store s secret c
        → secret.resource_version ≢ s.revision
        → secret_current t store s
          ≡ some (record s { revision = secret.resource_version; crt = some c }, some c)
    unfolding secret_current refresh
    secret_current_new store s secret c l new =
        ground (arith, l.stored, l.loads, eq_iff secret.resource_version s.revision)

    Seen-moved :
        (s : SecretManager t) (revision : String) (crt : Option (Certificate t)) {c : Certificate t}
        {stores : List (Store t)}
        → Seen (record s { revision = revision; crt = crt }) c stores
        → Seen s c stores
    Seen-moved s revision crt (Seen.here secret l) =
        Seen.here secret (record { stored = l.stored; loads = l.loads })
    Seen-moved s revision crt (Seen.there h) = Seen.there (Seen-moved s revision crt h)

    Seen-polls :
        (store : Store t) (stores : List (Store t)) (s s1 s' : SecretManager t)
        → Moves store s s1
        → (s'.crt ≡ s1.crt) ⊎ ((c : Certificate t) × (s'.crt ≡ some c) × Seen s1 c stores)
        → (s'.crt ≡ s.crt) ⊎ ((c : Certificate t) × (s'.crt ≡ some c) × Seen s c (store ∷ stores))
    Seen-polls store stores s s1 s' Moves.stays (inl same) = inl same
    Seen-polls store stores s s1 s' Moves.stays (inr (c, e, seen)) = inr (c, e, Seen.there seen)
    Seen-polls store stores s s1 s' (Moves.moves secret c l new at) (inl same) =
        inr (c, same ∙ ap (λ (m : SecretManager t). m.crt) at, Seen.here secret l)
    Seen-polls store stores s s1 s' (Moves.moves secret c l new at) (inr (d, e, seen)) = inr (
      d,
      e,
      Seen.there
          (Seen-moved s secret.resource_version (some c) (subst (λ m. Seen m d stores) at seen)),
    )

    -- If `pem.Decode` shortens what it decodes, polling never crashes, and what is served in the
    -- end is what was served before, or was loaded from the secret of one of the stores.
    pub polls-Seen :
        (stores : List (Store t)) (s : SecretManager t)
        → (s' : SecretManager t) × (polls stores s ≡ some s')
          × ((s'.crt ≡ s.crt) ⊎ ((c : Certificate t) × (s'.crt ≡ some c) × Seen s c stores))
    unfolding polls
    polls-Seen [] s = (s, refl, inl refl)
    polls-Seen (store ∷ stores) s =
        let (s1, called, m) = secret_current-Moves store s in
        let (s', rest, seen) = polls-Seen stores s1 in
        (s', ground arith, Seen-polls store stores s s1 s' m seen)

    -- If `pem.Decode` shortens what it decodes, a handshake of the controller never crashes and
    -- always gets a certificate: the one that the secret's manager then keeps, or the fallback if
    -- it keeps none.
    pub handshake_served :
        (fallback : Certificate t) (store : Store t) (s : SecretManager t)
        → (s' : SecretManager t) × (c : Certificate t) × (handshake t fallback store s
            ≡ some (s', ok c))
          × ((s'.crt ≡ some c) ⊎ ((s'.crt ≡ none) × (c ≡ fallback)))
    unfolding handshake fallback_current get_certificate
    handshake_served fallback store s =
        let (s', called, m) = secret_current-Moves store s in
        elim (Option-cases s'.crt) [
          | inl e ↦ (s', fallback, ground arith, inr (e, refl))
          | inr (c, e) ↦ (s', c, ground arith, inl e)
        ]
