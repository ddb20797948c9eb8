-- ===== src/Tls/Talk.antt =====
-- The conversations of src/ST87M01_TlsProvisioning.cpp with the modem.
use mbed_ce_st87m.Common.{ℕ, Option, none, some, List, [], ◌∷◌, ℤ, Bool}
use mbed_ce_st87m.At.{Action, pure, ◌>>=◌, ◌>>◌}
use mbed_ce_st87m.At.Talk.{
  quiet, sent, Moves, Moves-if, Moves-pure, Moves-back_then, Moves-calls_then, Moves-bind,
  talk_rules,
}
use mbed_ce_st87m.Tls.{
  Library, KeyStorage, CertType, malloc, Converted, out_of_range, refused, upload,
}
use mbed_ce_st87m.Tls.Input.{from_hex, from_key_pem, key_contents, from_cert_pem, cert_contents}
use mbed_ce_st87m.Tls.Keys.{
  delete_key, read_public, generate_key, send_key, replace_key, add_key, list_keys,
}
use mbed_ce_st87m.Tls.Certificates.{
  delete_certificate, list_certificates, check_key, ensure_key, send_certificate,
  replace_certificate, provision, add_certificate_impl,
}
use mbed_ce_st87m.Tls.Profiles.{save_to_nvm, check_profile}
use mbed_ce_st87m.Tls.Refusals.{ProfileOp, perform}

module _ {S : Type 0} (lib : Library) {n : ℕ} where
  -- Behind a command that is written.
  read_public-ends :
      (has_out : Bool) (capacity : Option ℕ)
      → Moves {S = S} (sent n) (quiet n) (read_public lib has_out capacity)
  unfolding read_public
  read_public-ends has_out capacity = search talk_rules depth 20

module _ {S : Type 0} (lib : Library) {n : ℕ} where
  malloc-Stays : (k : ℕ) → Moves {S = S} (quiet n) (quiet n) (malloc lib k)
  unfolding malloc
  malloc-Stays k = record { at = λ s t h. h }

  from_hex-Stays : (data' : List ℕ) → Moves {S = S} (quiet n) (quiet n) (from_hex lib data')
  unfolding from_hex
  from_hex-Stays data' = search (talk_rules, malloc-Stays) depth 20

  from_key_pem-Stays : (data' : List ℕ) → Moves {S = S} (quiet n) (quiet n) (from_key_pem lib data')
  unfolding from_key_pem
  from_key_pem-Stays data' = search (talk_rules, malloc-Stays) depth 20

  from_cert_pem-Stays :
      (data' : List ℕ) → Moves {S = S} (quiet n) (quiet n) (from_cert_pem lib data')
  unfolding from_cert_pem
  from_cert_pem-Stays data' = search (talk_rules, malloc-Stays) depth 20

  key_contents-Stays : (data' : List ℕ) → Moves {S = S} (quiet n) (quiet n) (key_contents lib data')
  unfolding key_contents
  key_contents-Stays data' = search (talk_rules, from_hex-Stays, from_key_pem-Stays) depth 20

  cert_contents-Stays :
      (data' : List ℕ) → Moves {S = S} (quiet n) (quiet n) (cert_contents lib data')
  unfolding cert_contents
  cert_contents-Stays data' = search (talk_rules, from_hex-Stays, from_cert_pem-Stays) depth 20

  delete_key-Stays : (profile : ℤ) → Moves {S = S} (quiet n) (quiet n) (delete_key lib profile)
  unfolding delete_key
  delete_key-Stays profile = search talk_rules depth 20

  pub generate_key-Stays :
      (profile key_size : ℤ) (storage : KeyStorage) (has_out : Bool) (capacity : Option ℕ)
      → Moves {S = S}
          (quiet n)
          (quiet n)
          (generate_key lib profile key_size storage has_out capacity)
  unfolding generate_key
  generate_key-Stays profile key_size storage has_out capacity =
      Moves-if (out_of_range profile) _ _ (Moves-pure _) (
        Moves-back_then _ _ (delete_key-Stays profile) λ _. Moves-calls_then _ _ (
          Moves-bind _ _ (read_public-ends lib has_out capacity)
            (λ public. search talk_rules depth 10)))

  send_key-Stays :
      (profile : ℤ) (bytes : List ℕ) (storage : KeyStorage)
      → Moves {S = S} (quiet n) (quiet n) (send_key lib profile bytes storage)
  unfolding send_key
  send_key-Stays profile bytes storage = search talk_rules depth 30

  replace_key-Stays :
      (profile : ℤ) (storage : KeyStorage) (contents : Converted)
      → Moves {S = S} (quiet n) (quiet n) (replace_key lib profile storage contents)
  unfolding replace_key
  replace_key-Stays profile storage (refused e) = search talk_rules
  replace_key-Stays profile storage (upload bytes) =
      search (talk_rules, delete_key-Stays, send_key-Stays) depth 10

  pub add_key-Stays :
      (profile : ℤ) (key : Option (List ℕ)) (storage : KeyStorage)
      → Moves {S = S} (quiet n) (quiet n) (add_key lib profile key storage)
  unfolding add_key
  add_key-Stays profile none storage = search talk_rules
  add_key-Stays profile (some data') storage =
      search (talk_rules, key_contents-Stays, replace_key-Stays) depth 20

  delete_certificate-Stays :
      (profile : ℤ) (type : CertType)
      → Moves {S = S} (quiet n) (quiet n) (delete_certificate lib profile type)
  unfolding delete_certificate
  delete_certificate-Stays profile type = search talk_rules depth 20

  check_key-Stays : (profile : ℤ) → Moves {S = S} (quiet n) (quiet n) (check_key lib profile)
  unfolding check_key
  check_key-Stays profile = search talk_rules depth 10

  ensure_key-Stays :
      (profile : ℤ) (type : CertType) (volatile : Bool)
      → Moves {S = S} (quiet n) (quiet n) (ensure_key lib profile type volatile)
  unfolding ensure_key
  ensure_key-Stays profile CertType.cert_ca_root volatile =
      search (talk_rules, generate_key-Stays) depth 10
  ensure_key-Stays profile CertType.cert_device volatile = check_key-Stays profile
  ensure_key-Stays profile CertType.cert_psk_id volatile = check_key-Stays profile

  send_certificate-Stays :
      (profile : ℤ) (type : CertType) (bytes : List ℕ)
      → Moves {S = S} (quiet n) (quiet n) (send_certificate lib profile type bytes)
  unfolding send_certificate
  send_certificate-Stays profile type bytes = search talk_rules depth 20

  replace_certificate-Stays :
      (profile : ℤ) (type : CertType) (bytes : List ℕ)
      → Moves {S = S} (quiet n) (quiet n) (replace_certificate lib profile type bytes)
  unfolding replace_certificate
  replace_certificate-Stays profile type bytes =
      search (talk_rules, delete_certificate-Stays, malloc-Stays, send_certificate-Stays) depth 20

  provision-Stays :
      (profile : ℤ) (type : CertType) (volatile : Bool) (contents : Converted)
      → Moves {S = S} (quiet n) (quiet n) (provision lib profile type volatile contents)
  unfolding provision
  provision-Stays profile type volatile (refused e) = search talk_rules
  provision-Stays profile type volatile (upload bytes) =
      search (talk_rules, ensure_key-Stays, replace_certificate-Stays) depth 20

  pub add_certificate_impl-Stays :
      (profile : ℤ) (type : CertType) (cert : Option (List ℕ)) (volatile : Bool)
      → Moves {S = S} (quiet n) (quiet n) (add_certificate_impl lib profile type cert volatile)
  unfolding add_certificate_impl
  add_certificate_impl-Stays profile type none volatile = search talk_rules
  add_certificate_impl-Stays profile type (some data') volatile =
      search (talk_rules, cert_contents-Stays, provision-Stays) depth 20

  pub check_profile-Stays :
      (profile : ℤ) (wants_key wants_cert : Bool)
      → Moves {S = S} (quiet n) (quiet n) (check_profile lib profile wants_key wants_cert)
  unfolding check_profile
  check_profile-Stays profile wants_key wants_cert = search talk_rules depth 20

  pub save_to_nvm-Stays : Moves {S = S} (quiet n) (quiet n) (save_to_nvm lib)
  unfolding save_to_nvm
  save_to_nvm-Stays = search talk_rules depth 20

-- Any operation of the provisioning's interface.
pub data Operation : Type 0 where
  on_profile : ProfileOp → ℤ → Operation
  save : Operation
  show_keys show_certificates : ℤ → Operation

module _ {S : Type 0} (lib : Library) where
  unfoldable pub operate : Operation → Action S (Unit {0})
  operate (on_profile op profile) = do _ ← perform lib op profile; pure tt
  operate save = do _ ← save_to_nvm lib; pure tt
  operate (show_keys profile) = list_keys lib profile
  operate (show_certificates profile) = list_certificates lib profile

  unfoldable pub operate_all : List Operation → Action S (Unit {0})
  operate_all [] = pure tt
  operate_all (op ∷ ops) = operate op >> operate_all ops
