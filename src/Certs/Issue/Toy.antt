-- ===== src/Certs/Issue/Toy.antt =====
-- A small authority: a certificate is the number of its template, its key and its signer's key, and
-- the two bytes of a key are read and written as in the tests of the encoders.
use native.Mathlib.Decide.{ℕ_discrete}
use maroonedpods.Prelude.{
  ℕ, suc, ◌≡◌, refl, String, Option, none, some, [], ◌∷◌, Bool, true, false, arith, Result, ok, err,
  failure, ◌==◌, eq_iff, sym, ap, nat_eq, if◌then◌else◌,
}
use maroonedpods.Certs.Pem.{Bytes, X509, ecdsa_public}
use maroonedpods.Certs.Pem.Encode.{Encoder, IsEncoder}
use maroonedpods.Certs.Pem.CodecTests.{codec, encoder, encoder-IsEncoder}
use maroonedpods.Certs.Crypto.{Template, KeyUsage, ExtKeyUsage, Crypto, IsCrypto}

unfoldable pub text_decision : (a b : String) (v : Bool) → (a == b) ≡ v → Dec (a ≡ b)
text_decision a b true e = yes (ground (arith, eq_iff a b))
text_decision a b false e = no (ground (arith, eq_iff a b))

unfoldable pub text_discrete : Discrete String
unfolding text_decision
text_discrete = λ a b. text_decision a b (a == b) refl

unfoldable pub Template-discrete : Discrete Template
unfolding text_discrete ℕ_discrete
Template-discrete = hlevel (ℕ_discrete, text_discrete)

abbrev pub authority : Template
authority = record {
  serial_number = 7;
  common_name = "kubevirt.io@100";
  organization = [];
  dns_names = [];
  ip_addresses = [];
  not_before = 100;
  not_after = 604900;
  key_usage = KeyUsage.key_encipherment ∷ KeyUsage.digital_signature ∷ KeyUsage.cert_sign ∷ [];
  ext_key_usage = [];
  is_ca = true;
}

abbrev pub server : Template
server = record {
  serial_number = 8;
  common_name = "webhook.ns.pod.cluster.local";
  organization = [];
  dns_names = "webhook" ∷ "webhook.ns" ∷ "webhook.ns.svc" ∷ "webhook.ns.svc.cluster.local" ∷ [];
  ip_addresses = [];
  not_before = 100;
  not_after = 86500;
  key_usage = KeyUsage.key_encipherment ∷ KeyUsage.digital_signature ∷ [];
  ext_key_usage = ExtKeyUsage.server_auth ∷ [];
  is_ca = false;
}

abbrev pub fallback : Template
fallback = record server {
  common_name = "fallback.certificate.kubevirt.io";
  dns_names =
      "fallback" ∷ "fallback.fallback" ∷ "fallback.fallback.svc"
      ∷ "fallback.fallback.svc.cluster.local" ∷ [];
  not_after = 307584100;
}

-- which of the three templates, the key, and the signer's key
pub record Issued : Type 0 where
  pub template : ℕ
  pub public : ℕ
  pub signer : ℕ

abbrev pub template_at : ℕ → Template
template_at n = if nat_eq n 1 then authority else if nat_eq n 2 then server else fallback

abbrev pub parse : Bytes → Result Issued
parse (n ∷ p ∷ s ∷ []) = ok (record { template = n; public = p; signer = s })
parse _ = err (failure "x509: malformed certificate")

abbrev pub issuing : X509
issuing = record codec {
  Certificate = Issued;
  parse_certificate = parse;
  certificate_key = λ i. ecdsa_public i.public;
}

abbrev pub issuing_encoder : Encoder issuing
issuing_encoder = record {
  encode_to_memory = encoder.encode_to_memory;
  raw = λ i. i.template ∷ i.public ∷ i.signer ∷ [];
  marshal_pkix_public_key = encoder.marshal_pkix_public_key;
  marshal_ec_private_key = encoder.marshal_ec_private_key;
  marshal_pkcs1_private_key = encoder.marshal_pkcs1_private_key;
}

pub issuing_encoder-IsEncoder : IsEncoder issuing issuing_encoder
issuing_encoder-IsEncoder = record {
  decode_encoded = encoder-IsEncoder.decode_encoded;
  decode_nothing = encoder-IsEncoder.decode_nothing;
  parse_raw = λ i. refl;
  parse_ec = encoder-IsEncoder.parse_ec;
  parse_pkcs1 = encoder-IsEncoder.parse_pkcs1;
  parse_pkix = encoder-IsEncoder.parse_pkix;
  not_pkcs1 = encoder-IsEncoder.not_pkcs1;
  not_pkcs8 = encoder-IsEncoder.not_pkcs8;
}

abbrev pub Number : Template → Type 0
Number tmpl = Option ((n : ℕ) × (template_at n ≡ tmpl))

unfoldable pub number_of : (tmpl : Template) → Number tmpl
unfolding Template-discrete
number_of tmpl = elim (Template-discrete tmpl authority) [
  | yes e ↦ some (1, sym e)
  | no _ ↦ elim (Template-discrete tmpl server) [
    | yes e ↦ some (2, sym e)
    | no _ ↦ elim (Template-discrete tmpl fallback) [ yes e ↦ some (3, sym e) | no _ ↦ none ]
  ]
]

unfoldable pub issue : (tmpl : Template) → ℕ → ℕ → Number tmpl → Result Bytes
issue tmpl public signer none = err (failure "x509: unknown template")
issue tmpl public signer (some (n, _)) = ok (n ∷ public ∷ signer ∷ [])

issue-created :
    (tmpl : Template) (public signer : ℕ) (r : Number tmpl) (der : Bytes) (cert : Issued)
    → issue tmpl public signer r ≡ ok der
    → parse der ≡ ok cert
    → (template_at cert.template ≡ tmpl)
      × (issuing.certificate_key cert ≡ ecdsa_public public)
      × (nat_eq cert.signer signer ≡ true)
unfolding issue
issue-created tmpl public signer none der cert made read = absurd (ground arith)
issue-created tmpl public signer (some (n, e)) der cert made read =
    let bytes : der ≡ n ∷ public ∷ signer ∷ [] = ground arith in
    let written : cert ≡ record { template = n; public = public; signer = signer } =
      ground (arith, ap parse bytes) in
    (rw written e, rw written refl, rw written (ground arith))

-- the time is always the same, and a new key is the state
abbrev pub crypto : Crypto issuing
crypto = record {
  State = ℕ;
  now = λ st. (st, 100);
  generate_key = λ st. (suc st, ok st);
  rand_int = λ st. (st, ok 8);
  random_serial_number = λ st. (st, 7);
  create_certificate =
      λ st tmpl parent public signer. (st, issue tmpl public signer (number_of tmpl));
  fields = λ i. template_at i.template;
  verifies = λ i key. nat_eq i.signer key;
  parse_ip = λ ip. none;
  decimal = λ n. if nat_eq n 100 then "100" else "0";
}

pub crypto-IsCrypto : IsCrypto issuing crypto
crypto-IsCrypto = record {
  created = λ st st' tmpl parent public signer der cert made read.
      issue-created tmpl public signer (number_of tmpl) der cert (ground arith) read;
}
