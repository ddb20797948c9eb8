-- ===== src/Information.antt =====
-- src/ST87M01_CellularInformation.cpp: the identity of the modem. ATI answers with three lines, of which
-- the lines before the wanted one are skipped. The object has no fields of its own.
use mbed_ce_st87m.Common.{ℕ, zero, suc, List, [], ◌∷◌}
use mbed_ce_st87m.At.{
  NsapiError, Modem, AtCall, lock, unlock, flush, cmd_start, cmd_stop, resp_start, resp_stop,
  skip_param, Action, pure, call, calls, ◌>>=◌, ◌>>◌, get_last_error, query_text, string_of,
}

abbrev pub skips : ℕ → List AtCall
skips zero = []
skips (suc n) = skip_param ∷ skips n

module _ {S : Type 0} (modem : Modem) where
  -- get_iccid
  unfoldable pub get_iccid : ℕ → Action S (NsapiError × List ℕ)
  get_iccid buf_size = query_text modem "+NCCID" "?" buf_size

  -- The line of ATI behind `skipped` others: the error, and what is left in buf.
  unfoldable pub ati_line : ℕ → ℕ → Action S (NsapiError × List ℕ)
  ati_line skipped buf_size = do
    calls (lock ∷ flush ∷ cmd_start "ATI" ∷ cmd_stop ∷ resp_start "" ∷ [])
    calls (skips skipped)
    line ← string_of modem buf_size
    call resp_stop
    err ← get_last_error modem
    call unlock
    pure (err, line)

  -- get_manufacturer
  unfoldable pub get_manufacturer : ℕ → Action S (NsapiError × List ℕ)
  unfolding ati_line
  get_manufacturer buf_size = ati_line 0 buf_size

  -- get_model
  unfoldable pub get_model : ℕ → Action S (NsapiError × List ℕ)
  unfolding ati_line
  get_model buf_size = ati_line 1 buf_size

  -- get_revision
  unfoldable pub get_revision : ℕ → Action S (NsapiError × List ℕ)
  unfolding ati_line
  get_revision buf_size = ati_line 2 buf_size
