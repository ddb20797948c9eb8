-- ===== src/Tls/Tests.antt =====
-- The TLS provisioning at concrete inputs.
use mbed_ce_st87m.Common.{
  ◌<◌, ℕ, zero, suc, ◌*◌, ◌≤◌, ◌≡◌, refl, ◌↔◌, true, false, none, some, List, [], ◌∷◌, ◌++◌, arith,
  pos, length,
}
use mbed_ce_st87m.At.{parameter}
use mbed_ce_st87m.Codec.Hex.{starts_with, is_hex_string, encode}
use mbed_ce_st87m.Stack.Tests.{test_modem}
use mbed_ce_st87m.Tls.{Library, storage_flash, storage_ram, cert_ca_root, cert_device}
use mbed_ce_st87m.Tls.Der.{parse_rsa_modulus_bits}
use mbed_ce_st87m.Tls.Der.Modulus.{rsa_key, IsBefore, parse_rsa_modulus_bits-rsa_key}
use mbed_ce_st87m.Tls.Input.{marker, has_marker, looks_like_pem}
use mbed_ce_st87m.Tls.Pem.{HasMarker, looks_like_pem_iff}
use mbed_ce_st87m.Tls.Refusals.{
  store_key, perform, perform-out_of_range, add_certificate_impl-rsa_key,
}
use mbed_ce_st87m.Tls.Keys.{add_key}
use mbed_ce_st87m.Tls.Certificates.{add_certificate_impl}
use mbed_ce_st87m.Tls.HexKeys.{IsPlain, provision-encode}
use mbed_ce_st87m.Tls.Certificates.{is_too_long}

-- There is memory, and no PEM.
abbrev pub test_lib : Library
test_lib = record {
  modem = test_modem;
  malloc_ok = λ n t. true;
  pem_read = λ header footer text. none;
  word = 4;
  beyond = 0;
  support_pem = true;
}

-- The caller's own state.
abbrev caller : ℕ
caller = 7

abbrev repeated : ℕ → List ℕ
repeated zero = []
repeated (suc n) = 0xAB ∷ repeated n

-- A modulus of 257 bytes.
abbrev long_key : List ℕ
long_key = rsa_key 275 270 0xC1 (repeated 256) (0x02 ∷ 0x01 ∷ 0x03 ∷ [])

long_key-IsBefore : IsBefore (0x30 ∷ 0x82 ∷ []) long_key
unfolding starts_with
long_key-IsBefore = (refl, (refl, tt))

parse_rsa_modulus_bits-rsa_key_example :
    parse_rsa_modulus_bits 4 0 ((0x30 ∷ 0x82 ∷ []) ++ long_key)
    ≡ some (length (0xC1 ∷ repeated 256) * 8)
parse_rsa_modulus_bits-rsa_key_example =
    parse_rsa_modulus_bits-rsa_key 4 0 (omega arith) (0x30 ∷ 0x82 ∷ []) 275 270 0xC1 (repeated 256)
      (0x02 ∷ 0x01 ∷ 0x03 ∷ []) long_key-IsBefore (omega arith) (omega arith) (omega arith)
      (omega arith)

long_key-no_hex : is_hex_string (some ((0x30 ∷ 0x82 ∷ []) ++ long_key)) ≡ false
unfolding is_hex_string
long_key-no_hex = refl

long_key-no_pem : looks_like_pem ((0x30 ∷ 0x82 ∷ []) ++ long_key) ≡ false
unfolding looks_like_pem has_marker starts_with
long_key-no_pem = refl

add_certificate_impl-rsa_key_example :
    add_certificate_impl test_lib
      (pos 3)
      cert_ca_root
      (some ((0x30 ∷ 0x82 ∷ []) ++ long_key))
      false
      caller
      []
    ≡ (parameter, caller, [])
add_certificate_impl-rsa_key_example =
    add_certificate_impl-rsa_key test_lib (pos 3) cert_ca_root false caller [] (0x30 ∷ 0x82 ∷ [])
      275 270 0xC1 (repeated 256) (0x02 ∷ 0x01 ∷ 0x03 ∷ []) (omega arith) long_key-IsBefore
      (omega arith) (omega arith) (omega arith) (omega arith) (omega arith) long_key-no_hex
      long_key-no_pem

looks_like_pem_iff_example :
    (looks_like_pem ((7 ∷ []) ++ marker) ≡ true)
    ↔ ((16 ≤ length ((7 ∷ []) ++ marker)) × HasMarker ((7 ∷ []) ++ marker))
looks_like_pem_iff_example = looks_like_pem_iff ((7 ∷ []) ++ marker)

sixteen-no_profile : (n : ℕ) → n < 16 → ¬ (pos 16 ≡ pos n)
sixteen-no_profile n l e = ground (arith, l, e)

perform-out_of_range_example :
    perform test_lib (store_key (some (1 ∷ 2 ∷ [])) storage_flash) (pos 16) caller []
    ≡ (parameter, caller, [])
perform-out_of_range_example =
    perform-out_of_range test_lib (store_key (some (1 ∷ 2 ∷ [])) storage_flash) (pos 16) caller []
      sixteen-no_profile

small_key-IsPlain : IsPlain 0x30 (0x03 ∷ 0x02 ∷ 0x01 ∷ 0x05 ∷ [])
unfolding is_hex_string looks_like_pem
small_key-IsPlain = record {
  bytes = (omega arith, (omega arith, (omega arith, (omega arith, (omega arith, tt)))));
  first = omega arith;
  fits = omega arith;
  no_hex = refl;
  no_pem = refl;
}

provision-encode_example :
    (add_key test_lib
        (pos 1)
        (some (encode (0x30 ∷ 0x03 ∷ 0x02 ∷ 0x01 ∷ 0x05 ∷ [])))
        storage_ram
        caller
        []
      ≡ add_key test_lib
          (pos 1)
          (some (0x30 ∷ 0x03 ∷ 0x02 ∷ 0x01 ∷ 0x05 ∷ []))
          storage_ram
          caller
          [])
    × (add_certificate_impl test_lib
          (pos 1)
          cert_device
          (some (encode (0x30 ∷ 0x03 ∷ 0x02 ∷ 0x01 ∷ 0x05 ∷ [])))
          true
          caller
          []
        ≡ add_certificate_impl test_lib
            (pos 1)
            cert_device
            (some (0x30 ∷ 0x03 ∷ 0x02 ∷ 0x01 ∷ 0x05 ∷ []))
            true
            caller
            [])
provision-encode_example =
    provision-encode test_lib 0x30 (0x03 ∷ 0x02 ∷ 0x01 ∷ 0x05 ∷ []) small_key-IsPlain caller [] refl
      (pos 1) storage_ram cert_device true

-- Every command fails.
abbrev empty_lib : Library
empty_lib = record test_lib { modem = record test_modem { discard_error = λ t. parameter } }

short_cert-no_hex : is_hex_string (some (0x30 ∷ 0x00 ∷ [])) ≡ false
unfolding is_hex_string
short_cert-no_hex = refl

short_cert-no_pem : looks_like_pem (0x30 ∷ 0x00 ∷ []) ≡ false
unfolding looks_like_pem
short_cert-no_pem = refl

short_cert-fits : is_too_long empty_lib (0x30 ∷ 0x00 ∷ []) ≡ false
unfolding is_too_long parse_rsa_modulus_bits
short_cert-fits = refl
