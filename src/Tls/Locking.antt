-- ===== src/Tls/Locking.antt =====
-- Every operation of the TLS provisioning gives back the handler's lock on every path.
use mbed_ce_st87m.Common.{ℕ, ◌≡◌, refl, Option, none, some, List, ℤ, Bool}
use mbed_ce_st87m.At.{Trace}
use mbed_ce_st87m.At.Locks.{depth, IsLevel, locks_rules}
use mbed_ce_st87m.Tls.{Library, KeyStorage, CertType, malloc, Converted, refused, upload}
use mbed_ce_st87m.Tls.Input.{from_hex, from_key_pem, key_contents, from_cert_pem, cert_contents}
use mbed_ce_st87m.Tls.Keys.{
  delete_key, read_public, generate_key, send_key, replace_key, add_key, list_keys,
}
use mbed_ce_st87m.Tls.Certificates.{
  delete_certificate, delete_all_certificates, list_certificates, check_key, ensure_key,
  send_certificate, replace_certificate, provision, add_certificate_impl,
}
use mbed_ce_st87m.Tls.Profiles.{save_to_nvm, check_profile}
use mbed_ce_st87m.Tls.Refusals.{
  ProfileOp, generate, store_key, remove_key, remove_certificates, store_certificate,
  remove_certificate, check, perform,
}

module _ {S : Type 0} (lib : Library) where
  malloc-IsLevel : (n : ℕ) → IsLevel {S = S} (malloc lib n)
  unfolding malloc
  malloc-IsLevel n = record { at = λ s t. refl }

  from_hex-IsLevel : (data' : List ℕ) → IsLevel {S = S} (from_hex lib data')
  unfolding from_hex
  from_hex-IsLevel data' = search (locks_rules, malloc-IsLevel) depth 20

  from_key_pem-IsLevel : (data' : List ℕ) → IsLevel {S = S} (from_key_pem lib data')
  unfolding from_key_pem
  from_key_pem-IsLevel data' = search (locks_rules, malloc-IsLevel) depth 20

  from_cert_pem-IsLevel : (data' : List ℕ) → IsLevel {S = S} (from_cert_pem lib data')
  unfolding from_cert_pem
  from_cert_pem-IsLevel data' = search (locks_rules, malloc-IsLevel) depth 20

  key_contents-IsLevel : (data' : List ℕ) → IsLevel {S = S} (key_contents lib data')
  unfolding key_contents
  key_contents-IsLevel data' = search (locks_rules, from_hex-IsLevel, from_key_pem-IsLevel) depth 20

  cert_contents-IsLevel : (data' : List ℕ) → IsLevel {S = S} (cert_contents lib data')
  unfolding cert_contents
  cert_contents-IsLevel data' =
      search (locks_rules, from_hex-IsLevel, from_cert_pem-IsLevel) depth 20

  delete_key-IsLevel : (profile : ℤ) → IsLevel {S = S} (delete_key lib profile)
  unfolding delete_key
  delete_key-IsLevel profile = search locks_rules depth 20

  read_public-IsLevel :
      (has_out : Bool) (capacity : Option ℕ) → IsLevel {S = S} (read_public lib has_out capacity)
  unfolding read_public
  read_public-IsLevel has_out capacity = search locks_rules depth 20

  pub generate_key-IsLevel :
      (profile key_size : ℤ) (storage : KeyStorage) (has_out : Bool) (capacity : Option ℕ)
      → IsLevel {S = S} (generate_key lib profile key_size storage has_out capacity)
  unfolding generate_key
  generate_key-IsLevel profile key_size storage has_out capacity =
      search (locks_rules, delete_key-IsLevel, read_public-IsLevel) depth 20

  send_key-IsLevel :
      (profile : ℤ) (bytes : List ℕ) (storage : KeyStorage)
      → IsLevel {S = S} (send_key lib profile bytes storage)
  unfolding send_key
  send_key-IsLevel profile bytes storage = search locks_rules depth 30

  replace_key-IsLevel :
      (profile : ℤ) (storage : KeyStorage) (contents : Converted)
      → IsLevel {S = S} (replace_key lib profile storage contents)
  unfolding replace_key
  replace_key-IsLevel profile storage (refused e) = search locks_rules
  replace_key-IsLevel profile storage (upload bytes) =
      search (locks_rules, delete_key-IsLevel, send_key-IsLevel) depth 10

  add_key-IsLevel :
      (profile : ℤ) (key : Option (List ℕ)) (storage : KeyStorage)
      → IsLevel {S = S} (add_key lib profile key storage)
  unfolding add_key
  add_key-IsLevel profile none storage = search locks_rules
  add_key-IsLevel profile (some data') storage =
      search (locks_rules, key_contents-IsLevel, replace_key-IsLevel) depth 20

  delete_certificate-IsLevel :
      (profile : ℤ) (type : CertType) → IsLevel {S = S} (delete_certificate lib profile type)
  unfolding delete_certificate
  delete_certificate-IsLevel profile type = search locks_rules depth 20

  delete_all_certificates-IsLevel :
      (profile : ℤ) → IsLevel {S = S} (delete_all_certificates lib profile)
  unfolding delete_all_certificates
  delete_all_certificates-IsLevel profile = search locks_rules depth 20

  check_key-IsLevel : (profile : ℤ) → IsLevel {S = S} (check_key lib profile)
  unfolding check_key
  check_key-IsLevel profile = search locks_rules depth 10

  ensure_key-IsLevel :
      (profile : ℤ) (type : CertType) (volatile : Bool)
      → IsLevel {S = S} (ensure_key lib profile type volatile)
  unfolding ensure_key
  ensure_key-IsLevel profile CertType.cert_ca_root volatile =
      search (locks_rules, generate_key-IsLevel) depth 10
  ensure_key-IsLevel profile CertType.cert_device volatile = check_key-IsLevel profile
  ensure_key-IsLevel profile CertType.cert_psk_id volatile = check_key-IsLevel profile

  send_certificate-IsLevel :
      (profile : ℤ) (type : CertType) (bytes : List ℕ)
      → IsLevel {S = S} (send_certificate lib profile type bytes)
  unfolding send_certificate
  send_certificate-IsLevel profile type bytes = search locks_rules depth 20

  replace_certificate-IsLevel :
      (profile : ℤ) (type : CertType) (bytes : List ℕ)
      → IsLevel {S = S} (replace_certificate lib profile type bytes)
  unfolding replace_certificate
  replace_certificate-IsLevel profile type bytes =
      search (locks_rules, delete_certificate-IsLevel, malloc-IsLevel, send_certificate-IsLevel)
        depth 20

  provision-IsLevel :
      (profile : ℤ) (type : CertType) (volatile : Bool) (contents : Converted)
      → IsLevel {S = S} (provision lib profile type volatile contents)
  unfolding provision
  provision-IsLevel profile type volatile (refused e) = search locks_rules
  provision-IsLevel profile type volatile (upload bytes) =
      search (locks_rules, ensure_key-IsLevel, replace_certificate-IsLevel) depth 20

  pub add_certificate_impl-IsLevel :
      (profile : ℤ) (type : CertType) (cert : Option (List ℕ)) (volatile : Bool)
      → IsLevel {S = S} (add_certificate_impl lib profile type cert volatile)
  unfolding add_certificate_impl
  add_certificate_impl-IsLevel profile type none volatile = search locks_rules
  add_certificate_impl-IsLevel profile type (some data') volatile =
      search (locks_rules, cert_contents-IsLevel, provision-IsLevel) depth 20

  pub check_profile-IsLevel :
      (profile : ℤ) (wants_key wants_cert : Bool)
      → IsLevel {S = S} (check_profile lib profile wants_key wants_cert)
  unfolding check_profile
  check_profile-IsLevel profile wants_key wants_cert = search locks_rules depth 20

  pub save_to_nvm-IsLevel : IsLevel {S = S} (save_to_nvm lib)
  unfolding save_to_nvm
  save_to_nvm-IsLevel = search locks_rules depth 20

  list_keys-IsLevel : (profile : ℤ) → IsLevel {S = S} (list_keys lib profile)
  unfolding list_keys
  list_keys-IsLevel profile = search locks_rules depth 20

  list_certificates-IsLevel : (profile : ℤ) → IsLevel {S = S} (list_certificates lib profile)
  unfolding list_certificates
  list_certificates-IsLevel profile = search locks_rules depth 20

  perform-IsLevel : (op : ProfileOp) (profile : ℤ) → IsLevel {S = S} (perform lib op profile)
  unfolding perform
  perform-IsLevel (generate key_size storage has_out capacity) profile =
      search (locks_rules, generate_key-IsLevel) depth 10
  perform-IsLevel (store_key key storage) profile = add_key-IsLevel profile key storage
  perform-IsLevel remove_key profile = delete_key-IsLevel profile
  perform-IsLevel remove_certificates profile = delete_all_certificates-IsLevel profile
  perform-IsLevel (store_certificate type cert volatile) profile =
      add_certificate_impl-IsLevel profile type cert volatile
  perform-IsLevel (remove_certificate type) profile = delete_certificate-IsLevel profile type
  perform-IsLevel (check wants_key wants_cert) profile =
      search (locks_rules, check_profile-IsLevel) depth 10

  -- Any operation on a profile, whatever the modem answers and wherever the operation fails, leaves
  -- the handler's lock held exactly as deep as before; so do saving and the two listings.
  pub perform-depth :
      (op : ProfileOp) (profile : ℤ) (s : S) (t : Trace)
      → (depth (perform lib op profile s t).2 ≡ depth t)
        × (depth (save_to_nvm lib s t).2 ≡ depth t)
        × (depth (list_keys lib profile s t).2 ≡ depth t)
        × (depth (list_certificates lib profile s t).2 ≡ depth t)
  perform-depth op profile s t = (
    (perform-IsLevel op profile).at s t,
    save_to_nvm-IsLevel.at s t,
    (list_keys-IsLevel profile).at s t,
    (list_certificates-IsLevel profile).at s t,
  )
