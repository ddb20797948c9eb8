-- ===== src/Tls/Profiles.antt =====
-- What a profile holds, and saving: save_to_nvm, check_profile, is_profile_ready and
-- has_certificate of src/ST87M01_TlsProvisioning.cpp.
use mbed_ce_st87m.Common.{Bool, true, false, ◌||◌, Option, none, some, [], ◌∷◌, if◌then◌else◌, ℤ}
use mbed_ce_st87m.At.{
  NsapiError, ok, parameter, is_ok, lock, unlock, sleep_for, Action, pure, call, ◌>>=◌, ◌>>◌,
  discard,
}
use mbed_ce_st87m.Tls.{Library, CertType, out_of_range}

-- bool has_key = false; check_profile(...)
abbrev pub or_false : Option Bool → Bool
or_false none = false
or_false (some b) = b

module _ {S : Type 0} (lib : Library) where
  -- save_to_nvm
  unfoldable pub save_to_nvm : Action S NsapiError
  save_to_nvm = do
    call lock
    err ← discard lib.modem "#RESET" "=1" []
    call unlock
    if is_ok err then call (sleep_for 2000) else pure tt
    pure err

  -- check_profile: the error, and what is left in has_key and has_cert, none for an argument that is
  -- not written. `wants_key` and `wants_cert` say that the pointers are not null.
  unfoldable pub check_profile : ℤ → Bool → Bool → Action S (NsapiError × Option Bool × Option Bool)
  check_profile profile wants_key wants_cert =
      if out_of_range profile then pure (parameter, none, none) else do
        key_err ← discard lib.modem "#TLSKEYLIST" "=" (profile ∷ [])
        cert_err ← discard lib.modem "#TLSCERTLIST" "=" (profile ∷ [])
        pure (
          ok,
          (if wants_key then some (is_ok key_err) else none),
          (if wants_cert then some (is_ok cert_err) else none),
        )

  -- is_profile_ready
  unfoldable pub is_profile_ready : ℤ → Action S Bool
  is_profile_ready profile = do
    (_, has_key, has_cert) ← check_profile profile true true
    pure (or_false has_key || or_false has_cert)

  -- has_certificate; the type is not used.
  unfoldable pub has_certificate : ℤ → CertType → Action S Bool
  has_certificate profile type = do
    (_, _, has_cert) ← check_profile profile true true
    pure (or_false has_cert)
