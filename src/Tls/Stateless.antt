-- ===== src/Tls/Stateless.antt =====
-- The TLS provisioning has no fields of its own and leaves those of its caller alone.
use mbed_ce_st87m.Common.{ℕ, Option, none, some, List, ℤ, Bool}
use mbed_ce_st87m.At.Keeps.{Keeps, keeps_rules}
use mbed_ce_st87m.Tls.{Library, KeyStorage, CertType, malloc, Converted, refused, upload}
use mbed_ce_st87m.Tls.Input.{from_hex, from_key_pem, key_contents, from_cert_pem, cert_contents}
use mbed_ce_st87m.Tls.Keys.{
  delete_key, read_public, generate_key, send_key, replace_key, add_key, list_keys,
}
use mbed_ce_st87m.Tls.Certificates.{
  delete_certificate, delete_all_certificates, list_certificates, check_key, ensure_key,
  send_certificate, replace_certificate, provision, add_certificate_impl,
}
use mbed_ce_st87m.Tls.Profiles.{save_to_nvm, check_profile}
use mbed_ce_st87m.Tls.Refusals.{
  ProfileOp, generate, store_key, remove_key, remove_certificates, store_certificate,
  remove_certificate, check, perform,
}

module _ {S : Type 0} {I : S → Type 0} (lib : Library) where
  malloc-Keeps : (n : ℕ) → Keeps I (malloc lib n)
  unfolding malloc
  malloc-Keeps n = record { at = λ s t h. h }

  from_hex-Keeps : (data' : List ℕ) → Keeps I (from_hex lib data')
  unfolding from_hex
  from_hex-Keeps data' = search (keeps_rules, malloc-Keeps) depth 20

  from_key_pem-Keeps : (data' : List ℕ) → Keeps I (from_key_pem lib data')
  unfolding from_key_pem
  from_key_pem-Keeps data' = search (keeps_rules, malloc-Keeps) depth 20

  from_cert_pem-Keeps : (data' : List ℕ) → Keeps I (from_cert_pem lib data')
  unfolding from_cert_pem
  from_cert_pem-Keeps data' = search (keeps_rules, malloc-Keeps) depth 20

  key_contents-Keeps : (data' : List ℕ) → Keeps I (key_contents lib data')
  unfolding key_contents
  key_contents-Keeps data' = search (keeps_rules, from_hex-Keeps, from_key_pem-Keeps) depth 20

  cert_contents-Keeps : (data' : List ℕ) → Keeps I (cert_contents lib data')
  unfolding cert_contents
  cert_contents-Keeps data' = search (keeps_rules, from_hex-Keeps, from_cert_pem-Keeps) depth 20

  delete_key-Keeps : (profile : ℤ) → Keeps I (delete_key lib profile)
  unfolding delete_key
  delete_key-Keeps profile = search keeps_rules depth 20

  read_public-Keeps :
      (has_out : Bool) (capacity : Option ℕ) → Keeps I (read_public lib has_out capacity)
  unfolding read_public
  read_public-Keeps has_out capacity = search keeps_rules depth 20

  pub generate_key-Keeps :
      (profile key_size : ℤ) (storage : KeyStorage) (has_out : Bool) (capacity : Option ℕ)
      → Keeps I (generate_key lib profile key_size storage has_out capacity)
  unfolding generate_key
  generate_key-Keeps profile key_size storage has_out capacity =
      search (keeps_rules, delete_key-Keeps, read_public-Keeps) depth 20

  send_key-Keeps :
      (profile : ℤ) (bytes : List ℕ) (storage : KeyStorage)
      → Keeps I (send_key lib profile bytes storage)
  unfolding send_key
  send_key-Keeps profile bytes storage = search keeps_rules depth 30

  replace_key-Keeps :
      (profile : ℤ) (storage : KeyStorage) (contents : Converted)
      → Keeps I (replace_key lib profile storage contents)
  unfolding replace_key
  replace_key-Keeps profile storage (refused e) = search keeps_rules
  replace_key-Keeps profile storage (upload bytes) =
      search (keeps_rules, delete_key-Keeps, send_key-Keeps) depth 10

  pub add_key-Keeps :
      (profile : ℤ) (key : Option (List ℕ)) (storage : KeyStorage)
      → Keeps I (add_key lib profile key storage)
  unfolding add_key
  add_key-Keeps profile none storage = search keeps_rules
  add_key-Keeps profile (some data') storage =
      search (keeps_rules, key_contents-Keeps, replace_key-Keeps) depth 20

  delete_certificate-Keeps :
      (profile : ℤ) (type : CertType) → Keeps I (delete_certificate lib profile type)
  unfolding delete_certificate
  delete_certificate-Keeps profile type = search keeps_rules depth 20

  delete_all_certificates-Keeps : (profile : ℤ) → Keeps I (delete_all_certificates lib profile)
  unfolding delete_all_certificates
  delete_all_certificates-Keeps profile = search keeps_rules depth 20

  check_key-Keeps : (profile : ℤ) → Keeps I (check_key lib profile)
  unfolding check_key
  check_key-Keeps profile = search keeps_rules depth 10

  ensure_key-Keeps :
      (profile : ℤ) (type : CertType) (volatile : Bool)
      → Keeps I (ensure_key lib profile type volatile)
  unfolding ensure_key
  ensure_key-Keeps profile CertType.cert_ca_root volatile =
      search (keeps_rules, generate_key-Keeps) depth 10
  ensure_key-Keeps profile CertType.cert_device volatile = check_key-Keeps profile
  ensure_key-Keeps profile CertType.cert_psk_id volatile = check_key-Keeps profile

  send_certificate-Keeps :
      (profile : ℤ) (type : CertType) (bytes : List ℕ)
      → Keeps I (send_certificate lib profile type bytes)
  unfolding send_certificate
  send_certificate-Keeps profile type bytes = search keeps_rules depth 20

  replace_certificate-Keeps :
      (profile : ℤ) (type : CertType) (bytes : List ℕ)
      → Keeps I (replace_certificate lib profile type bytes)
  unfolding replace_certificate
  replace_certificate-Keeps profile type bytes =
      search (keeps_rules, delete_certificate-Keeps, malloc-Keeps, send_certificate-Keeps) depth 20

  provision-Keeps :
      (profile : ℤ) (type : CertType) (volatile : Bool) (contents : Converted)
      → Keeps I (provision lib profile type volatile contents)
  unfolding provision
  provision-Keeps profile type volatile (refused e) = search keeps_rules
  provision-Keeps profile type volatile (upload bytes) =
      search (keeps_rules, ensure_key-Keeps, replace_certificate-Keeps) depth 20

  pub add_certificate_impl-Keeps :
      (profile : ℤ) (type : CertType) (cert : Option (List ℕ)) (volatile : Bool)
      → Keeps I (add_certificate_impl lib profile type cert volatile)
  unfolding add_certificate_impl
  add_certificate_impl-Keeps profile type none volatile = search keeps_rules
  add_certificate_impl-Keeps profile type (some data') volatile =
      search (keeps_rules, cert_contents-Keeps, provision-Keeps) depth 20

  pub check_profile-Keeps :
      (profile : ℤ) (wants_key wants_cert : Bool)
      → Keeps I (check_profile lib profile wants_key wants_cert)
  unfolding check_profile
  check_profile-Keeps profile wants_key wants_cert = search keeps_rules depth 20

  pub save_to_nvm-Keeps : Keeps I (save_to_nvm lib)
  unfolding save_to_nvm
  save_to_nvm-Keeps = search keeps_rules depth 20

  list_keys-Keeps : (profile : ℤ) → Keeps I (list_keys lib profile)
  unfolding list_keys
  list_keys-Keeps profile = search keeps_rules depth 20

  list_certificates-Keeps : (profile : ℤ) → Keeps I (list_certificates lib profile)
  unfolding list_certificates
  list_certificates-Keeps profile = search keeps_rules depth 20

  pub perform-Keeps : (op : ProfileOp) (profile : ℤ) → Keeps I (perform lib op profile)
  unfolding perform
  perform-Keeps (generate key_size storage has_out capacity) profile =
      search (keeps_rules, generate_key-Keeps) depth 10
  perform-Keeps (store_key key storage) profile = add_key-Keeps profile key storage
  perform-Keeps remove_key profile = delete_key-Keeps profile
  perform-Keeps remove_certificates profile = delete_all_certificates-Keeps profile
  perform-Keeps (store_certificate type cert volatile) profile =
      add_certificate_impl-Keeps profile type cert volatile
  perform-Keeps (remove_certificate type) profile = delete_certificate-Keeps profile type
  perform-Keeps (check wants_key wants_cert) profile =
      search (keeps_rules, check_profile-Keeps) depth 10
