-- ===== src/At.antt =====
-- The AT channel as the driver sees it. mbed's ATHandler and the modem behind it are not part of
-- this repository: `Modem` is a parameter, whose answers may depend on every call made before.
-- A `Trace` is that history, newest first; sleeping and the socket mutex are recorded in it too.
pub mod Keeps
pub mod Gives
pub mod Later
pub mod Locks
pub mod Leads
pub mod Talk
use mbed_ce_st87m.Common.{ℕ, zero, suc, String, Bool, true, false, Option, List, [], ◌∷◌, ℤ}

-- The codes of nsapi_error_t that the driver names; `other` is any other code, which it passes on.
pub data NsapiError : Type 0 where
  ok parameter no_connection no_socket dns_failure unsupported connection_lost : NsapiError
  no_memory would_block device_error timeout : NsapiError
  other : ℕ → NsapiError

-- err == NSAPI_ERROR_OK
unfoldable pub is_ok : NsapiError → Bool
is_ok NsapiError.ok = true
is_ok _ = false

-- nsapi_size_or_error_t
pub data SizeOrError : Type 0 where
  size : ℕ → SizeOrError
  failed : NsapiError → SizeOrError

-- device_err_t: whether errType is DeviceErrorTypeErrorCME, and errCode.
pub record DeviceError : Type 0 where
  pub cme : Bool
  pub err_code : ℤ

-- The unsolicited result codes that the driver handles.
pub data Urc : Type 0 where
  urc_of_iprecv urc_of_nb_sent urc_of_socketclosed : Urc

-- The calls that the driver makes on the handler, and on what else it runs on: its mutex, the
-- scheduler, the event queue (`call_in`, `cancel`), the reset pin and a socket's callback (`notify`, with the socket).
pub data AtCall : Type 0 where
  lock unlock clear_error flush cmd_stop resp_stop restore_at_timeout skip_param : AtCall
  info_resp read_int mutex_lock mutex_unlock : AtCall
  set_default_delimiter cmd_stop_read_resp : AtCall
  cmd_start resp_start : String → AtCall
  cmd_start_stop at_cmd_discard : String → String → List ℤ → AtCall
  at_cmd_discard_texts : String → String → ℤ → List (List ℕ) → AtCall
  at_cmd_discard_mixed : String → String → List ℤ → List (List ℕ) → AtCall
  at_cmd_int : String → String → AtCall
  at_cmd_str : String → String → ℕ → AtCall
  write_int : ℤ → AtCall
  write_string : List ℕ → Bool → AtCall
  write_bytes : List ℕ → AtCall
  read_string read_bytes sleep_for notify call_in cancel set_delimiter sync : ℕ → AtCall
  set_baud : ℤ → AtCall
  set_reset_pin : Bool → AtCall
  set_urc_handler : Urc → Bool → AtCall
  skip_param_bytes : ℕ → ℕ → AtCall
  set_at_timeout : ℕ → Bool → AtCall

abbrev pub Trace : Type 0
Trace = List AtCall

-- What the handler answers after the calls made so far. `line_limit` is more than the information
-- lines of any response.
pub record Modem : Type 0 where
  pub last_error : Trace → NsapiError
  pub device_error_at : Trace → DeviceError
  pub discard_error : Trace → NsapiError
  pub query_error : Trace → NsapiError
  pub synced : Trace → Bool
  pub has_line : Trace → Bool
  pub int_param : Trace → ℤ
  pub string_param : ℕ → Trace → List ℕ
  pub bytes_param : ℕ → Trace → Option (List ℕ)
  pub clock_ms : Trace → ℕ
  pub line_limit : ℕ

-- A method of an object with the fields `S`, which talks to the handler.
abbrev pub Action : Type 0 → Type 0 → Type 0
Action S A = S → Trace → A × S × Trace

module _ {S A : Type 0} where
  unfoldable pub pure : A → Action S A
  pure a s t = (a, s, t)

  unfoldable pub gets : (S → A) → Action S A
  gets f s t = (f s, s, t)

abbrev pub append_calls : List AtCall → Trace → Trace
append_calls [] t = t
append_calls (c ∷ cs) t = append_calls cs (c ∷ t)

module _ {S : Type 0} where
  unfoldable pub modify : (S → S) → Action S (Unit {0})
  modify f s t = (tt, f s, t)

  unfoldable pub call : AtCall → Action S (Unit {0})
  call c s t = (tt, s, c ∷ t)

  -- Calls in a row whose results the driver does not read.
  unfoldable pub calls : List AtCall → Action S (Unit {0})
  calls cs s t = (tt, s, append_calls cs t)

module _ {S : Type 0} (modem : Modem) where
  unfoldable pub get_last_error : Action S NsapiError
  get_last_error s t = (modem.last_error t, s, t)

  unfoldable pub get_last_device_error : Action S DeviceError
  get_last_device_error s t = (modem.device_error_at t, s, t)

  unfoldable pub get_clock : Action S ℕ
  get_clock s t = (modem.clock_ms t, s, t)

  -- at_cmd_discard
  unfoldable pub discard : String → String → List ℤ → Action S NsapiError
  discard command format args s t =
      let t' = at_cmd_discard command format args ∷ t in (modem.discard_error t', s, t')

  -- at_cmd_discard with a number and texts
  unfoldable pub discard_texts : String → String → ℤ → List (List ℕ) → Action S NsapiError
  discard_texts command format n texts s t =
      let t' = at_cmd_discard_texts command format n texts ∷ t in (modem.discard_error t', s, t')

  -- at_cmd_discard with numbers and then texts
  unfoldable pub discard_mixed : String → String → List ℤ → List (List ℕ) → Action S NsapiError
  discard_mixed command format args texts s t =
      let t' = at_cmd_discard_mixed command format args texts ∷ t in (modem.discard_error t', s, t')

  -- at_cmd_int: the error, and what it leaves in the value.
  unfoldable pub query_int : String → String → Action S (NsapiError × ℤ)
  query_int command mode s t =
      let t' = at_cmd_int command mode ∷ t in ((modem.query_error t', modem.int_param t'), s, t')

  -- at_cmd_str, into a buffer of `n` characters
  unfoldable pub query_text : String → String → ℕ → Action S (NsapiError × List ℕ)
  query_text command mode n s t =
      let t' = at_cmd_str command mode n ∷ t in
      ((modem.query_error t', modem.string_param n t'), s, t')

  -- _at.sync()
  unfoldable pub sync_at : ℕ → Action S Bool
  sync_at timeout_ms s t = let t' = sync timeout_ms ∷ t in (modem.synced t', s, t')

  -- _at.info_resp()
  unfoldable pub next_line : Action S Bool
  next_line s t = let t' = info_resp ∷ t in (modem.has_line t', s, t')

  unfoldable pub int_of : Action S ℤ
  int_of s t = let t' = read_int ∷ t in (modem.int_param t', s, t')

  unfoldable pub string_of : ℕ → Action S (List ℕ)
  string_of n s t = let t' = read_string n ∷ t in (modem.string_param n t', s, t')

  unfoldable pub bytes_of : ℕ → Action S (Option (List ℕ))
  bytes_of n s t = let t' = read_bytes n ∷ t in (modem.bytes_param n t', s, t')

  unfoldable pub unlock_return_error : Action S NsapiError
  unlock_return_error s t = (modem.last_error t, s, unlock ∷ t)

-- Opening this opens the steps above too.
infixl 5 ◌>>=◌ ◌>>◌
unfoldable pub ◌>>=◌ : {S A B : Type 0} → Action S A → (A → Action S B) → Action S B
unfolding pure gets modify call calls get_last_error get_last_device_error get_clock discard
    next_line int_of string_of bytes_of unlock_return_error discard_texts discard_mixed query_int
    query_text sync_at
◌>>=◌ m f s t = let (a, s', t') = m s t in f a s' t'

abbrev pub ◌>>◌ : {S B : Type 0} → Action S (Unit {0}) → Action S B → Action S B
m >> k = m >>= λ _. k

-- while (_at.info_resp()) { body }, on fuel.
module _ {S B : Type 0} (modem : Modem) where
  unfoldable pub each_line : ℕ → (B → Action S B) → B → Action S B
  each_line zero body b = pure b
  each_line (suc fuel) body b = do
    more ← next_line modem
    elim more [ true ↦ (body b >>= λ b'. each_line fuel body b') | false ↦ pure b ]
