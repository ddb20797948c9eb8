-- ===== src/Tls.antt =====
-- src/ST87M01_TlsProvisioning.cpp: TLS keys and certificates in the modem's profiles. The
-- provisioning object has no fields of its own, so its methods are actions on any state.
pub mod Der
pub mod Input
pub mod Keys
pub mod Certificates
pub mod Profiles
pub mod Pem
pub mod Refusals
pub mod HexKeys
pub mod Locking
pub mod Talk
pub mod Stateless
pub mod Tests
use mbed_ce_st87m.Common.{ℕ, String, ℤ, pos, Bool, not, Option, List, below}
use mbed_ce_st87m.At.{NsapiError, Modem, Trace, Action}

-- KeyStorage
pub data KeyStorage : Type 0 where
  storage_otp storage_flash storage_ret_ram storage_ram : KeyStorage

abbrev pub storage_code : KeyStorage → ℤ
storage_code KeyStorage.storage_otp = pos 1
storage_code KeyStorage.storage_flash = pos 2
storage_code KeyStorage.storage_ret_ram = pos 3
storage_code KeyStorage.storage_ram = pos 4

-- CertType
pub data CertType : Type 0 where
  cert_device cert_ca_root cert_psk_id : CertType

abbrev pub type_code : CertType → ℤ
type_code CertType.cert_device = pos 0
type_code CertType.cert_ca_root = pos 1
type_code CertType.cert_psk_id = pos 2

-- What the provisioning takes from outside: the handler; malloc, by the size and what has happened so
-- far; mbedtls_pem_read_buffer, from a header, a footer and a text that ends in NUL to the contents
-- (none for an error); the bytes of a size_t; the byte behind a certificate in memory; and the build
-- option TLS_SUPPORT_PEM.
pub record Library : Type 0 where
  pub modem : Modem
  pub malloc_ok : ℕ → Trace → Bool
  pub pem_read : String → String → List ℕ → Option (List ℕ)
  pub word : ℕ
  pub beyond : ℕ
  pub support_pem : Bool

unfoldable pub malloc : {S : Type 0} → Library → ℕ → Action S Bool
malloc lib n s t = (lib.malloc_ok n t, s, t)

-- profile_id < 0 || profile_id > 15
unfoldable pub out_of_range : ℤ → Bool
out_of_range profile = not (below profile 16)

-- OP_MAX_PEM_SIZE
abbrev pub op_max_pem_size : ℕ
op_max_pem_size = 4096

-- What an input is turned into: the bytes to send, or the error to return.
pub data Converted : Type 0 where
  refused : NsapiError → Converted
  upload : List ℕ → Converted
