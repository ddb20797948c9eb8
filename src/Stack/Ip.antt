-- ===== src/Stack/Ip.antt =====
-- get_ip_address, gethostbyname and ensure_ip_configured.
use mbed_ce_st87m.Common.{
  ℕ, ◌+◌, Bool, true, false, not, ◌||◌, ◌&&◌, Option, none, some, List, [], ◌∷◌, ◌==◌,
  if◌then◌else◌, ℤ, pos, is_neg, ◌==ℤ◌, take,
}
use mbed_ce_st87m.At.{
  NsapiError, ok, parameter, no_connection, dns_failure, is_ok, lock, unlock, clear_error, cmd_stop,
  resp_stop, restore_at_timeout, skip_param, cmd_start, resp_start, cmd_start_stop, write_int,
  write_string, set_at_timeout, read_string, read_int, Action, pure, modify, call, calls, ◌>>=◌,
  ◌>>◌, get_last_error, next_line, int_of, string_of, each_line,
}
use mbed_ce_st87m.Stack.Types.{IpVersion, is_ipv6, Stack, Env, get_state}

-- text[0] == '\0'
abbrev pub is_empty_text : List ℕ → Bool
is_empty_text [] = true
is_empty_text (c ∷ cs) = false

-- The text before the first ',' or '/': strpbrk and the terminator written there.
unfoldable pub before_mask : List ℕ → List ℕ
before_mask [] = []
before_mask (c ∷ cs) = let rest = before_mask cs in if c == b',' || c == b'/' then [] else c ∷ rest

module _ {P : Type 0} (env : Env P) where
  -- One line of the answer to AT#IPCFG?.
  unfoldable pub ipcfg_line : ℤ → Bool → Action (Stack P) Bool
  ipcfg_line cid active = do
    ctx ← int_of env.modem
    if not (ctx ==ℤ cid)
        then pure active
        else do v4_status ← int_of env.modem; pure (if v4_status ==ℤ pos 1 then true else active)

  -- The address of +CGPADDR for a context; empty when the modem gives none.
  unfoldable pub cgpaddr : ℤ → Action (Stack P) (List ℕ)
  cgpaddr cid = do
    calls (cmd_start_stop "+CGPADDR" "=" (cid ∷ []) ∷ resp_start "+CGPADDR:" ∷ [])
    more ← next_line env.modem
    ip ← (if more then (do call skip_param; string_of env.modem (env.ip_size + 1)) else pure [])
    call resp_stop
    pure ip

  -- The part of ensure_ip_configured that activates the stack by hand.
  unfoldable pub configure_ip : ℤ → Action (Stack P) NsapiError
  configure_ip cid = do
    call clear_error
    ip ← cgpaddr cid
    e ← get_last_error env.modem
    if not (is_ok e) || is_empty_text ip then (do call clear_error; pure no_connection) else do
      calls (
          clear_error
          ∷ cmd_start "AT#IPCFG="
          ∷ write_int cid
          ∷ write_int (pos 0)
          ∷ write_string ip false
          ∷ cmd_stop
          ∷ resp_start ""
          ∷ resp_stop
          ∷ [])
      err ← get_last_error env.modem
      if not (is_ok err)
          then pure err
          else do modify (λ s. record s { ip_configured = true }); pure ok

  -- ensure_ip_configured
  unfoldable pub ensure_ip_configured : Action (Stack P) NsapiError
  ensure_ip_configured = do
    s ← get_state
    if s.ip_configured then pure ok else if is_neg s.cid then pure no_connection else do
      calls (cmd_start_stop "#IPCFG" "?" [] ∷ resp_start "#IPCFG:" ∷ [])
      active ← each_line env.modem env.modem.line_limit (ipcfg_line s.cid) false
      call resp_stop
      e ← get_last_error env.modem
      if is_ok e then pure tt else call clear_error
      if active
          then (do modify (λ s'. record s' { ip_configured = true }); pure ok)
          else configure_ip s.cid

  -- The fallback of get_ip_address: the address of +CGCONTRDP without its mask, if there is one.
  unfoldable pub cgcontrdp : ℤ → List ℕ → Action (Stack P) (List ℕ)
  cgcontrdp cid ip = do
    calls (cmd_start_stop "+CGCONTRDP" "=" (cid ∷ []) ∷ resp_start "+CGCONTRDP:" ∷ [])
    more ← next_line env.modem
    found ←
        (if more
          then (do
            calls (skip_param ∷ skip_param ∷ read_string env.apn_size ∷ [])
            ipv6_and_mask ← string_of env.modem 128
            let text = before_mask ipv6_and_mask
            pure (if is_empty_text text then ip else take env.ip_size text))
          else pure ip)
    call resp_stop
    pure found

  -- get_ip_address: the error and the text given to `address`. `has_address` says that the
  -- caller's pointer is not null.
  unfoldable pub get_ip_address : Bool → Action (Stack P) (NsapiError × Option (List ℕ))
  get_ip_address has_address = do
    s ← get_state
    if not has_address
        then pure (parameter, none)
        else if is_neg s.cid
        then pure (no_connection, none)
        else do
          call lock
          ip ← cgpaddr s.cid
          e ← get_last_error env.modem
          found ←
              (if not (is_ok e) || is_empty_text ip
                then (do call clear_error; cgcontrdp s.cid ip)
                else pure ip)
          err ← get_last_error env.modem
          call unlock
          if not (is_ok err) || is_empty_text found
              then pure (no_connection, none)
              else pure (ok, some found)

  -- The exchange of gethostbyname: the address text, and whether the modem gave one.
  unfoldable pub dns_query : List ℕ → IpVersion → Action (Stack P) (List ℕ)
  dns_query host version = do
    s ← get_state
    calls (
        set_at_timeout 60000 false
        ∷ cmd_start "AT#DNS="
        ∷ write_int s.cid
        ∷ write_int (if is_ipv6 version then pos 1 else pos 0)
        ∷ write_string host false
        ∷ cmd_stop
        ∷ resp_start "#DNS:"
        ∷ [])
    more ← next_line env.modem
    ip ←
        (if more
          then (do text ← string_of env.modem (env.ip_size + 1); call read_int; pure text)
          else pure [])
    calls (restore_at_timeout ∷ resp_stop ∷ [])
    pure ip

  -- gethostbyname; a null host is none.
  unfoldable pub gethostbyname :
      Option (List ℕ) → Bool → IpVersion → Action (Stack P) (NsapiError × Option (List ℕ))
  gethostbyname none has_address version = pure (parameter, none)
  gethostbyname (some host) has_address version =
      if not has_address then pure (parameter, none) else do
        calls (lock ∷ clear_error ∷ [])
        ip ← dns_query host version
        e ← get_last_error env.modem
        let got_dns = not (is_empty_text ip)
        let spurious = got_dns && not (is_ok e)
        if spurious then call clear_error else pure tt
        let err = if spurious then ok else e
        call unlock
        if not (is_ok err) || not got_dns then pure (dns_failure, none) else pure (ok, some ip)
