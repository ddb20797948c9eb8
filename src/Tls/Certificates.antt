-- ===== src/Tls/Certificates.antt =====
-- The certificates of src/ST87M01_TlsProvisioning.cpp: add_certificate_impl and its two callers,
-- delete_certificate, delete_all_certificates and list_certificates.
use mbed_ce_st87m.Common.{
  ℕ, ◌+◌, ◌*◌, Bool, false, not, Option, none, some, List, [], ◌∷◌, ltb, ◌==◌, if◌then◌else◌, ℤ,
  pos, is_neg, length,
}
use mbed_ce_st87m.At.{
  NsapiError, ok, parameter, no_memory, is_ok, lock, unlock, cmd_start, cmd_stop, resp_start,
  resp_stop, write_int, write_bytes, Action, pure, call, calls, ◌>>=◌, ◌>>◌, get_last_error,
  discard,
}
use mbed_ce_st87m.Codec.Hex.{encode}
use mbed_ce_st87m.Tls.{
  Library, storage_flash, storage_ram, CertType, cert_device, cert_ca_root, type_code, malloc,
  out_of_range, op_max_pem_size, Converted, refused, upload,
}
use mbed_ce_st87m.Tls.Der.{parse_rsa_modulus_bits}
use mbed_ce_st87m.Tls.Input.{cert_contents}
use mbed_ce_st87m.Tls.Keys.{generate_key}

-- An RSA modulus of more than 2048 bits.
unfoldable pub is_too_long : Library → List ℕ → Bool
is_too_long lib bytes = elim (parse_rsa_modulus_bits lib.word lib.beyond bytes) [
  | none ↦ false
  | some rsa_bits ↦ ltb 2048 rsa_bits
]

module _ {S : Type 0} (lib : Library) where
  -- delete_certificate
  unfoldable pub delete_certificate : ℤ → CertType → Action S NsapiError
  delete_certificate profile type = if out_of_range profile then pure parameter else do
    call lock
    err ← discard lib.modem "#TLSCERTDEL" "=" (profile ∷ type_code type ∷ [])
    call unlock
    pure err

  -- delete_all_certificates
  unfoldable pub delete_all_certificates : ℤ → Action S NsapiError
  delete_all_certificates profile = if out_of_range profile then pure parameter else do
    call lock
    err ← discard lib.modem "#TLSCERTDEL" "=" (profile ∷ [])
    call unlock
    pure err

  -- list_certificates
  unfoldable pub list_certificates : ℤ → Action S (Unit {0})
  list_certificates profile = do
    call lock
    _ ←
        if is_neg profile
        then discard lib.modem "#TLSCERTLIST" "" []
        else discard lib.modem "#TLSCERTLIST" "=" (profile ∷ [])
    call unlock

  unfoldable pub check_key : ℤ → Action S NsapiError
  check_key profile = do
    err ← discard lib.modem "#TLSKEYLIST" "=" (profile ∷ [])
    pure (if is_ok err then ok else parameter)

  -- The key that the modem wants before a certificate.
  unfoldable pub ensure_key : ℤ → CertType → Bool → Action S NsapiError
  unfolding check_key
  ensure_key profile CertType.cert_ca_root volatile = do
    (err, _) ←
        generate_key lib profile (pos 32) (if volatile then storage_ram else storage_flash) false
          none
    pure err
  ensure_key profile CertType.cert_device volatile = check_key profile
  ensure_key profile CertType.cert_psk_id volatile = check_key profile

  -- The certificate goes out as hexadecimal text behind a comma.
  unfoldable pub send_certificate : ℤ → CertType → List ℕ → Action S NsapiError
  send_certificate profile type bytes = do
    calls (
        lock
        ∷ cmd_start "AT#TLSCERTADD="
        ∷ write_int profile
        ∷ write_int (type_code type)
        ∷ write_int (pos (length bytes))
        ∷ write_bytes (b',' ∷ [])
        ∷ write_bytes (encode bytes)
        ∷ cmd_stop
        ∷ resp_start ""
        ∷ resp_stop
        ∷ [])
    err ← get_last_error lib.modem
    call unlock
    pure err

  unfoldable pub replace_certificate : ℤ → CertType → List ℕ → Action S NsapiError
  unfolding send_certificate
  replace_certificate profile type bytes = do
    _ ← delete_certificate profile type
    room ← malloc lib (length bytes * 2 + 1)
    if not room then pure no_memory else send_certificate profile type bytes

  unfoldable pub provision : ℤ → CertType → Bool → Converted → Action S NsapiError
  unfolding is_too_long
  provision profile type volatile (refused e) = pure e
  provision profile type volatile (upload bytes) =
      if is_too_long lib bytes then pure parameter else do
        key ← ensure_key profile type volatile
        if not (is_ok key) then pure key else replace_certificate profile type bytes

  -- add_certificate_impl; null data is none.
  unfoldable pub add_certificate_impl : ℤ → CertType → Option (List ℕ) → Bool → Action S NsapiError
  unfolding provision
  add_certificate_impl profile type none volatile = pure parameter
  add_certificate_impl profile type (some data') volatile =
      if out_of_range profile
      then pure parameter
      else if length data' == 0
      then pure parameter
      else if ltb op_max_pem_size (length data')
      then pure parameter
      else do contents ← cert_contents lib data'; provision profile type volatile contents

  -- add_ca_certificate
  unfoldable pub add_ca_certificate : ℤ → Option (List ℕ) → Bool → Action S NsapiError
  add_ca_certificate profile cert volatile = add_certificate_impl profile cert_ca_root cert volatile

  -- add_device_certificate
  unfoldable pub add_device_certificate : ℤ → Option (List ℕ) → Bool → Action S NsapiError
  add_device_certificate profile cert volatile =
      add_certificate_impl profile cert_device cert volatile
