-- ===== src/Certs/Issue/Tests.antt =====
-- The certificates of the small authority, and what they are.
use maroonedpods.Prelude.{concat, length, ◌<◌, ◌≡◌, refl, none, some, [], ◌∷◌, ok, ◌++◌}
use maroonedpods.Certs.Pem.{Bytes, Block}
use maroonedpods.Certs.Pem.CodecTests.{codec_shrinks}
use maroonedpods.Certs.Issue.{
  KeyPair, new_ca, new_self_signed_ca_cert, paired, ca_template, signed_template, parsed,
  signed_pair, new_signed_cert, new_server_key_pair, service_names, parsed_ips,
}
use maroonedpods.Certs.Issue.Signed.{IsServing, new_server_key_pair-IsServing}
use maroonedpods.Certs.Pem.Encode.{encode_cert_pem, encode_private_key_pem}
use maroonedpods.Certs.Current.{Tls, Certificate}
use maroonedpods.Certs.Issue.Toy.{
  issuing, issuing_encoder, issuing_encoder-IsEncoder, crypto, crypto-IsCrypto, number_of, issue,
}
use maroonedpods.Certs.Issue.Stored.{
  Files, self_issued, without_error, stored, pod_name, generate_self_signed_cert, fallback_of,
  new_fallback_certificate,
}
use maroonedpods.Certs.Issue.Readable.{SelfIssued, Readable, generate_self_signed_cert-Readable}

abbrev ca_pair : KeyPair issuing crypto
ca_pair = record { key = 5; cert = record { template = 1; public = 5; signer = 5 } }

abbrev server_pair : KeyPair issuing crypto
server_pair = record { key = 6; cert = record { template = 2; public = 6; signer = 5 } }

issued_ca : new_ca issuing crypto 5 "kubevirt.io" 604800 ≡ (6, ok ca_pair)
unfolding new_ca new_self_signed_ca_cert issue number_of paired ca_template parsed concat
issued_ca = refl

issued_server :
    new_server_key_pair issuing crypto 6
      (some ca_pair)
      "webhook.ns.pod.cluster.local"
      "webhook"
      "ns"
      "cluster.local"
      []
      []
      86400
    ≡ some (7, ok server_pair)
unfolding new_server_key_pair signed_pair new_signed_cert issue number_of paired parsed parsed_ips
    signed_template concat
issued_server = refl

new_server_key_pair-IsServing_example :
    IsServing issuing crypto ca_pair server_pair "webhook.ns.pod.cluster.local"
      ([] ++ service_names issuing crypto "webhook" "ns" "cluster.local")
      (parsed_ips issuing crypto [])
new_server_key_pair-IsServing_example =
    new_server_key_pair-IsServing issuing crypto crypto-IsCrypto 6 7 ca_pair server_pair
      "webhook.ns.pod.cluster.local" "webhook" "ns" "cluster.local" [] [] 86400 issued_server

-- the state is what was written last
abbrev files : Files
files = record {
  State = Bytes × Bytes;
  new_file_store = λ disk name directory. (disk, none);
  update = λ disk cert_pem key_pem. ((cert_pem, key_pem), none);
}

abbrev cert_pem : Bytes
cert_pem = 1 ∷ 3 ∷ 2 ∷ 6 ∷ 5 ∷ []

abbrev key_pem : Bytes
key_pem = 2 ∷ 2 ∷ 6 ∷ 6 ∷ []

generated :
    generate_self_signed_cert issuing crypto issuing_encoder files 5
      ([], [])
      "/certs"
      "webhook"
      "ns"
    ≡ some (7, (cert_pem, key_pem), none)
unfolding generate_self_signed_cert self_issued without_error stored new_ca new_self_signed_ca_cert
    ca_template new_server_key_pair signed_pair new_signed_cert issue number_of paired parsed
    parsed_ips signed_template encode_cert_pem encode_private_key_pem concat
generated = refl

shrinks :
    (pem : Bytes) (b : Block)
    → (issuing.decode pem).0 ≡ some b
    → length (issuing.decode pem).1 < length pem
shrinks = codec_shrinks

generate_self_signed_cert-Readable_example :
    (pair : KeyPair issuing crypto) × (disk1 : files.State) × (cert : Bytes) × (key : Bytes)
    × (files.update disk1 cert key ≡ ((cert_pem, key_pem), none))
    × Readable issuing crypto issuing_encoder files pair cert key
    × SelfIssued issuing crypto pair (pod_name issuing crypto "webhook" "ns") "webhook" "ns"
generate_self_signed_cert-Readable_example =
    generate_self_signed_cert-Readable issuing crypto issuing_encoder files 5 7 ([], [])
      (cert_pem, key_pem) "/certs" "webhook" "ns" crypto-IsCrypto issuing_encoder-IsEncoder
      (λ key. (_, refl)) shrinks generated

abbrev tls : Tls
tls = record { x509 = issuing; Pair = Bytes; key_pair = λ cert key. ok cert }

abbrev fallback_cert : Certificate tls
fallback_cert = record {
  pair = 1 ∷ 3 ∷ 3 ∷ 6 ∷ 5 ∷ [];
  leaf = record { template = 3; public = 6; signer = 5 };
}

made_fallback : new_fallback_certificate tls crypto issuing_encoder 5 ≡ some (7, fallback_cert)
unfolding new_fallback_certificate self_issued without_error fallback_of new_ca
    new_self_signed_ca_cert ca_template new_server_key_pair signed_pair new_signed_cert issue
    number_of paired parsed parsed_ips signed_template encode_cert_pem encode_private_key_pem concat
made_fallback = refl
