-- ===== src/Tls/Keys.antt =====
-- The keys of src/ST87M01_TlsProvisioning.cpp: generate_key, add_key, delete_key and list_keys.
use mbed_ce_st87m.Common.{
  ℕ, Bool, false, ◌&&◌, Option, none, some, List, [], ◌∷◌, ltb, ◌==◌, if◌then◌else◌, ℤ, pos, is_neg,
  length,
}
use mbed_ce_st87m.At.{
  NsapiError, parameter, is_ok, lock, unlock, cmd_start, cmd_stop, resp_start, resp_stop, write_int,
  write_bytes, Action, pure, call, calls, ◌>>=◌, ◌>>◌, get_last_error, discard, string_of,
  unlock_return_error,
}
use mbed_ce_st87m.Codec.Hex.{convert_hex_to_bin}
use mbed_ce_st87m.Tls.{
  Library, KeyStorage, storage_flash, storage_code, out_of_range, op_max_pem_size, Converted,
  refused, upload,
}
use mbed_ce_st87m.Tls.Input.{key_contents}

-- RAM and retained RAM give way to FLASH.
abbrev pub generated_in : KeyStorage → KeyStorage
generated_in KeyStorage.storage_ram = storage_flash
generated_in KeyStorage.storage_ret_ram = storage_flash
generated_in storage = storage

-- pub_key_out && pub_key_len && *pub_key_len > 0
abbrev pub wants_public : Bool → Option ℕ → Bool
wants_public has_out none = false
wants_public has_out (some capacity) = has_out && ltb 0 capacity

abbrev pub capacity_of : Option ℕ → ℕ
capacity_of none = 0
capacity_of (some capacity) = capacity

module _ {S : Type 0} (lib : Library) where
  -- delete_key
  unfoldable pub delete_key : ℤ → Action S NsapiError
  delete_key profile = if out_of_range profile then pure parameter else do
    call lock
    err ← discard lib.modem "#TLSKEYDEL" "=" (profile ∷ [])
    call unlock
    pure err

  -- The answer to a key generation: the public key, where one is asked for, is what is written to
  -- the caller's buffer.
  unfoldable pub read_public : Bool → Option ℕ → Action S (Option (List ℕ))
  read_public has_out capacity =
      if wants_public has_out capacity
      then (do
        call (resp_start "")
        hex ← string_of lib.modem 511
        call resp_stop
        pure (some (convert_hex_to_bin (some hex) has_out (capacity_of capacity))))
      else (do calls (resp_start "" ∷ resp_stop ∷ []); pure none)

  -- generate_key; `has_out` says that pub_key_out is not null, and `capacity` is what pub_key_len
  -- points to.
  unfoldable pub generate_key :
      ℤ → ℤ → KeyStorage → Bool → Option ℕ → Action S (NsapiError × Option (List ℕ))
  generate_key profile key_size storage has_out capacity =
      if out_of_range profile then pure (parameter, none) else do
        _ ← delete_key profile
        calls (
            lock
            ∷ cmd_start "AT#TLSKEYADD="
            ∷ write_int profile
            ∷ write_int (if has_out then pos 0x80 else pos 0)
            ∷ write_int (storage_code (generated_in storage))
            ∷ write_int key_size
            ∷ write_int (if wants_public has_out capacity then pos 3 else pos 1)
            ∷ cmd_stop
            ∷ [])
        public ← read_public has_out capacity
        err ← unlock_return_error lib.modem
        pure (err, public)

  -- The key's bytes follow a command that the modem has accepted.
  unfoldable pub send_key : ℤ → List ℕ → KeyStorage → Action S NsapiError
  send_key profile bytes storage = do
    calls (
        lock
        ∷ cmd_start "AT#TLSKEYADD="
        ∷ write_int profile
        ∷ write_int (pos 0)
        ∷ write_int (storage_code storage)
        ∷ write_int (pos (length bytes))
        ∷ write_int (pos 0)
        ∷ cmd_stop
        ∷ resp_start ""
        ∷ resp_stop
        ∷ [])
    accepted ← get_last_error lib.modem
    err ←
        if is_ok accepted
        then (do
          calls (write_bytes bytes ∷ resp_start "" ∷ resp_stop ∷ [])
          get_last_error lib.modem)
        else pure accepted
    call unlock
    pure err

  unfoldable pub replace_key : ℤ → KeyStorage → Converted → Action S NsapiError
  unfolding delete_key send_key
  replace_key profile storage (refused e) = pure e
  replace_key profile storage (upload bytes) = do
    _ ← delete_key profile
    send_key profile bytes storage

  -- add_key; null data is none.
  unfoldable pub add_key : ℤ → Option (List ℕ) → KeyStorage → Action S NsapiError
  add_key profile none storage = pure parameter
  add_key profile (some data') storage =
      if out_of_range profile
      then pure parameter
      else if length data' == 0
      then pure parameter
      else if ltb op_max_pem_size (length data')
      then pure parameter
      else do contents ← key_contents lib data'; replace_key profile storage contents

  -- list_keys
  unfoldable pub list_keys : ℤ → Action S (Unit {0})
  list_keys profile = do
    call lock
    _ ←
        if is_neg profile
        then discard lib.modem "#TLSKEYLIST" "" []
        else discard lib.modem "#TLSKEYLIST" "=" (profile ∷ [])
    call unlock
