-- ===== src/Network/Registration.antt =====
-- set_registration of src/ST87M01_CellularNetwork.cpp with a given operator.
use mbed_ce_st87m.Common.{
  ℕ, ◌≡◌, refl, Bool, false, ◌&&◌, ◌||◌, some, List, [], ◌∷◌, pos, ◌==ℤ◌, Bool-cases, inl, inr,
}
use mbed_ce_st87m.At.{
  NsapiError, is_ok, Trace, DeviceError, at_cmd_discard_mixed, set_at_timeout, restore_at_timeout,
  clear_error, ◌>>=◌,
}
use mbed_ce_st87m.Network.{
  Network, rat_nb1, Carrier, is_on_plmn, is_registered, confirm, manual_registration,
  set_registration,
}

-- "operation not allowed"
abbrev pub is_denied : DeviceError → Bool
is_denied dev_err = dev_err.cme && (dev_err.err_code ==ℤ pos 3)

module _ (carrier : Carrier) (plmn : List ℕ) where
  -- The selection of the operator.
  abbrev pub selected : Trace → Trace
  selected t =
      at_cmd_discard_mixed "+COPS" "=" (carrier.manual_mode ∷ carrier.operator_name_numeric ∷ [])
        (plmn ∷ [])
      ∷ set_at_timeout 180000 false
      ∷ clear_error
      ∷ t

  -- Whether what follows a selection that fails is a success.
  abbrev pub is_confirmed : Network → Trace → Bool
  is_confirmed n t = is_denied (carrier.modem.device_error_at t) && (is_registered carrier n t).0

  confirm-ok :
      (err : NsapiError) (n : Network) (t : Trace)
      → is_ok (confirm carrier err n t).0 ≡ (is_ok err || is_confirmed n t)
  unfolding confirm is_registered ◌>>=◌ is_ok
  confirm-ok err n t = elim (Bool-cases (is_ok err)) [
    | inl fine ↦ rw fine fine
    | inr failed ↦ elim (Bool-cases (is_denied (carrier.modem.device_error_at t))) [
      | inl denied ↦ elim (Bool-cases (is_registered carrier n t).0) [
        | inl registered ↦ rw (failed, denied, registered) refl
        | inr unregistered ↦ rw (failed, denied, unregistered) failed
      ]
      | inr other ↦ rw (failed, other) failed
    ]
  ]

  -- What the query of the operator leads to.
  abbrev pub asked : Network → Trace → Bool × Network × Trace
  asked n t = is_on_plmn carrier plmn (record n { op_act = rat_nb1 }) t

  -- Registering with a given operator is a success in three cases and no others: the modem is on that operator
  -- already, it accepts the selection, or it answers that the selection is not allowed and then that it is
  -- registered.
  pub set_registration-ok :
      (n : Network) (t : Trace)
      → is_ok (set_registration carrier (some plmn) n t).0 ≡ (
          (asked n t).0
          || is_ok (carrier.modem.discard_error (selected (asked n t).2))
          || is_confirmed (asked n t).1 (restore_at_timeout ∷ selected (asked n t).2))
  unfolding set_registration manual_registration ◌>>=◌ is_ok
  set_registration-ok n t = elim (Bool-cases (asked n t).0) [
    | inl there ↦ rw there refl
    | inr elsewhere ↦ rw elsewhere (confirm-ok _ _ _)
  ]
