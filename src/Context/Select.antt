-- ===== src/Context/Select.antt =====
-- get_context, select_existing_cid and deactivate_context.
use mbed_ce_st87m.Common.{
  ℕ, Bool, true, false, not, ◌&&◌, ◌||◌, Option, none, some, List, [], ◌∷◌, ◌-◌, if◌then◌else◌, ℤ,
  pos, minus_one, is_neg, ◌==ℤ◌, below, take,
}
use mbed_ce_st87m.At.{
  is_ok, lock, unlock, clear_error, resp_stop, resp_start, cmd_start_stop, Action, pure, modify,
  call, calls, ◌>>=◌, ◌>>◌, get_last_error, get_last_device_error, discard, discard_texts, int_of,
  string_of, each_line,
}
use mbed_ce_st87m.Stack.Types.{update_at}
use mbed_ce_st87m.Stack.Ip.{is_empty_text}
use mbed_ce_st87m.Context.{Context, Outside, get_context_state, modem_of}
use mbed_ce_st87m.Context.Choice.{
  PdpType, configured_pdp_type, parse_pdp_type, pdp_type_to_str, Line, Chosen, nothing_chosen,
  consider,
}

abbrev pub same_pdp : PdpType → PdpType → Bool
same_pdp PdpType.ipv4_pdp PdpType.ipv4_pdp = true
same_pdp PdpType.ipv6_pdp PdpType.ipv6_pdp = true
same_pdp PdpType.ipv4v6_pdp PdpType.ipv4v6_pdp = true
same_pdp PdpType.non_ip_pdp PdpType.non_ip_pdp = true
same_pdp _ _ = false

-- What select_existing_cid hands back: the cid, and its two output parameters.
pub record Selected : Type 0 where
  pub selected_cid : ℤ
  pub pdp : PdpType
  pub apn : List ℕ

abbrev text_of : Option (List ℕ) → List ℕ
text_of none = []
text_of (some text) = text

module _ {P : Type 0} (out : Outside P) where
  -- One line of the answer to AT+CGACT?.
  unfoldable pub active_line : (ℤ → Bool) → Action (Context P) (ℤ → Bool)
  active_line table = do
    cid ← int_of (modem_of out)
    active ← int_of (modem_of out)
    pure (if below cid 7 then update_at table cid (active ==ℤ pos 1) else table)

  -- One line of the answer to AT+CGDCONT?: `apn_len` is MAX_ACCESSPOINT_NAME_LENGTH.
  unfoldable pub read_line : Action (Context P) Line
  read_line = do
    cid ← int_of (modem_of out)
    pdp ← string_of (modem_of out) 16
    apn ← string_of (modem_of out) out.env.apn_size
    pure (record { cid = cid; pdp = pdp; apn = apn })

  unfoldable pub context_line : (ℤ → Bool) → Chosen → Action (Context P) Chosen
  context_line table best = do
    c ← get_context_state
    line ← read_line
    pure (consider c.apn table line best)

  -- select_existing_cid; its three texts are cut to their arrays, with a NUL at the end.
  unfoldable pub select_existing_cid : Action (Context P) Selected
  select_existing_cid = do
    let limit = (modem_of out).line_limit
    calls (cmd_start_stop "+CGACT" "?" [] ∷ resp_start "+CGACT:" ∷ [])
    table ←
        each_line (modem_of out) limit active_line (λ k. if below k 7 then false else out.beyond k)
    calls (resp_stop ∷ cmd_start_stop "+CGDCONT" "?" [] ∷ resp_start "+CGDCONT:" ∷ [])
    best ← each_line (modem_of out) limit (context_line table) nothing_chosen
    call resp_stop
    pure (record {
      selected_cid = best.chosen;
      pdp = parse_pdp_type (take 15 best.pdp);
      apn = take (out.env.apn_size - 1) best.apn;
    })

  -- The loop of get_context that looks for a context to use again: cid 5, or else 6.
  unfoldable pub reuse_line : ℤ → Action (Context P) ℤ
  reuse_line reuse_cid = do
    line ← read_line
    let cid = line.cid
    pure (
        if ((cid ==ℤ pos 5) || (cid ==ℤ pos 6)) && is_neg reuse_cid
        then cid
        else if (cid ==ℤ pos 5) && (reuse_cid ==ℤ pos 6)
        then cid
        else reuse_cid)

  -- The end of get_context.
  unfoldable pub adopt : ℤ → PdpType → List ℕ → Action (Context P) Bool
  adopt selected_cid selected_pdp_type found_apn = do
    call lock
    is_active ← out.is_active_context selected_cid
    call unlock
    modify (λ c. record c {
      pdp_type = selected_pdp_type;
      cid = selected_cid;
      stack = elim c.stack [
        | none ↦ none
        | some stack ↦ some (record stack { cid = selected_cid })
      ];
      found_apn =
          if is_empty_text found_apn
          then c.found_apn
          else elim c.apn [ none ↦ found_apn | some own ↦ c.found_apn ];
    })
    if is_active
        then modify (λ c. record c { is_context_active = true; is_context_activated = true })
        else pure tt
    pure true

  -- The branch where no context was found: 5 or 6 is defined anew, or the base class decides.
  unfoldable pub reuse_context : PdpType → List ℕ → Action (Context P) Bool
  reuse_context cfg_pdp found_apn = do
    calls (lock ∷ cmd_start_stop "+CGDCONT" "?" [] ∷ resp_start "+CGDCONT:" ∷ [])
    reuse_cid ← each_line (modem_of out) (modem_of out).line_limit reuse_line minus_one
    call resp_stop
    if is_neg reuse_cid then (do call unlock; out.base_get_context) else do
      c ← get_context_state
      reconf_err ←
          discard_texts (modem_of out) "+CGDCONT" "=" reuse_cid
            (pdp_type_to_str cfg_pdp ∷ text_of c.apn ∷ [])
      call unlock
      if not (is_ok reconf_err) then pure false else adopt reuse_cid cfg_pdp found_apn

  -- get_context
  unfoldable pub get_context : Action (Context P) Bool
  get_context = do
    call lock
    selected ← select_existing_cid
    err ← get_last_error (modem_of out)
    call unlock
    let cfg_pdp = configured_pdp_type out.default_pdp_type
    let cid = selected.selected_cid
    let pdp =
        if is_ok err && not (is_neg cid) && not (same_pdp selected.pdp cfg_pdp)
        then cfg_pdp
        else selected.pdp
    if not (is_ok err) || is_neg cid
        then reuse_context cfg_pdp selected.apn
        else adopt cid pdp selected.apn

  -- deactivate_context: CME 171, the last PDN connection, is no failure.
  unfoldable pub deactivate_context : Action (Context P) (Unit {0})
  deactivate_context = do
    c ← get_context_state
    _ ← discard (modem_of out) "+CGACT" "=0," (c.cid ∷ [])
    err ← get_last_error (modem_of out)
    if is_ok err then pure tt else do
      dev_err ← get_last_device_error (modem_of out)
      if dev_err.cme && (dev_err.err_code ==ℤ pos 171) then call clear_error else pure tt
