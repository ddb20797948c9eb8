-- ===== src/Device/Configure.antt =====
-- configure of src/ST87M01.cpp: the bands and the IP parameters, written only where they differ.
use mbed_ce_st87m.Common.{
  ℕ, Bool, true, false, not, ◌&&◌, Option, none, some, List, [], ◌∷◌, if◌then◌else◌, ℤ, pos, negsuc,
  ◌==ℤ◌,
}
use mbed_ce_st87m.At.{
  NsapiError, ok, is_ok, clear_error, resp_stop, resp_start, cmd_start_stop, cmd_start, write_int,
  write_string, set_delimiter, set_default_delimiter, cmd_stop_read_resp, restore_at_timeout,
  set_at_timeout, sleep_for, Action, pure, call, calls, ◌>>=◌, ◌>>◌, get_last_error, discard,
  discard_mixed, string_of,
}
use mbed_ce_st87m.Context.Choice.{same_text, text_ipv6}
use mbed_ce_st87m.Device.{Device, Options, Board, drain_rx}
use mbed_ce_st87m.Device.Scan.{scan_two}
use mbed_ce_st87m.Device.Ready.{wait_for_app_ready, soft_reset}

abbrev pub expected_ip_pref : Options → ℤ
expected_ip_pref options = if same_text options.default_pdp_type text_ipv6 then pos 1 else pos 0

-- A non-empty answer names automatic configuration and the preferred IP version.
unfoldable pub is_expected : ℤ → List ℕ → Bool
is_expected preferred [] = false
is_expected preferred (c ∷ cs) =
    let found = scan_two (c ∷ cs) in (found.0 ==ℤ pos 1) && (found.1 ==ℤ preferred)

-- The last fields of #IPPARAMS.
abbrev pub write_dns : Option (List ℕ × List ℕ × ℤ) → Action Device (Unit {0})
write_dns none =
    calls (
      write_string [] false
      ∷ write_string [] false
      ∷ write_string [] false
      ∷ write_int (pos 1)
      ∷ [])
write_dns (some (dnsv4, dnsv6, dns_to_use)) = calls (
    write_string dnsv4 false
    ∷ write_string dnsv6 false
    ∷ write_string [] false
    ∷ write_int dns_to_use
    ∷ [])

-- What an error leaves of the rest.
abbrev pub if_ok : NsapiError → Action Device NsapiError → Action Device NsapiError
if_ok err rest = if not (is_ok err) then pure err else rest

module _ (board : Board) where
  -- Whether the modem has the bands; where none are configured, any will do.
  unfoldable pub query_bands : Option (List ℕ) → Action Device (NsapiError × Bool)
  query_bands none = pure (ok, true)
  query_bands (some bands) = do
    calls (cmd_start_stop "#BANDSEL" "?" [] ∷ resp_start "#BANDSEL:" ∷ set_delimiter b';' ∷ [])
    current_bands ← string_of board.lib.modem 64
    calls (set_default_delimiter ∷ resp_stop ∷ [])
    err ← get_last_error board.lib.modem
    pure (err, same_text current_bands bands)

  unfoldable pub query_ipparams : Action Device Bool
  query_ipparams = do
    calls (
        clear_error
        ∷ cmd_start_stop "#IPPARAMS" "?" []
        ∷ resp_start "#IPPARAMS:"
        ∷ set_delimiter b';'
        ∷ [])
    ipparams ← string_of board.lib.modem 128
    calls (set_default_delimiter ∷ resp_stop ∷ [])
    err ← get_last_error board.lib.modem
    call clear_error
    pure (is_ok err && is_expected (expected_ip_pref board.options) ipparams)

  -- The errors of #BANDCFG are only traced.
  unfoldable pub write_bandcfgs : List (Option (List ℕ)) → Action Device (Unit {0})
  write_bandcfgs [] = pure tt
  write_bandcfgs (none ∷ cs) = write_bandcfgs cs
  write_bandcfgs (some bandcfg ∷ cs) = do
    _ ← discard_mixed board.lib.modem "#BANDCFG" "=" [] (bandcfg ∷ [])
    write_bandcfgs cs

  unfoldable pub write_bands : Option (List ℕ) → Action Device NsapiError
  unfolding write_bandcfgs
  write_bands none = pure ok
  write_bands (some bands) = do
    calls (cmd_start "AT#BANDSEL=" ∷ write_string bands false ∷ cmd_stop_read_resp ∷ [])
    err ← get_last_error board.lib.modem
    if_ok err (do write_bandcfgs board.options.bandcfg; pure ok)

  -- The radio is off while the settings are written.
  unfoldable pub radio_off : Action Device NsapiError
  radio_off = do
    call (set_at_timeout 16000 false)
    err ← discard board.lib.modem "+CFUN" "=" (pos 0 ∷ [])
    call restore_at_timeout
    pure err

  unfoldable pub write_ipparams : Action Device NsapiError
  write_ipparams = do
    calls (
        cmd_start "AT#IPPARAMS="
        ∷ write_int (pos 1)
        ∷ write_int (expected_ip_pref board.options)
        ∷ write_int (pos 65535)
        ∷ write_int (pos 60)
        ∷ write_int (pos 0)
        ∷ [])
    write_dns board.options.offload_dns
    call cmd_stop_read_resp
    get_last_error board.lib.modem

  -- #SCAN is best effort.
  unfoldable pub write_scan : Action Device (Unit {0})
  write_scan = do
    err ←
        discard board.lib.modem "#SCAN" "="
          (pos 1 ∷ negsuc 109 ∷ pos 1 ∷ pos 360 ∷ pos 1 ∷ pos 360 ∷ [])
    if not (is_ok err) then call clear_error else pure tt

  -- What configure does where the modem has other settings.
  unfoldable pub cold_init : Bool → Action Device NsapiError
  unfolding write_bands radio_off write_ipparams write_scan
  cold_init bands_match = do
    off ← radio_off
    if_ok off (do
      call (sleep_for 500)
      bands ← if bands_match then pure ok else write_bands board.options.bands
      if_ok bands (do
        write_scan
        ipparams ← write_ipparams
        if_ok ipparams (do
          rebooted ← soft_reset board
          if_ok rebooted (do drain_rx 80; discard board.lib.modem "" "" []))))

  unfoldable pub apply_settings : Bool → Bool → Action Device NsapiError
  unfolding cold_init
  apply_settings bands_match ipparams_match =
      if bands_match && ipparams_match then pure ok else cold_init bands_match

  -- configure
  unfoldable pub configure : Action Device NsapiError
  unfolding query_bands query_ipparams apply_settings
  configure = do
    app ← wait_for_app_ready board 30
    if_ok app (do
      (err, bands_match) ← query_bands board.options.bands
      if_ok err (do ipparams_match ← query_ipparams; apply_settings bands_match ipparams_match))
