-- ===== src/Network/Signal.antt =====
-- What get_signal_quality of src/ST87M01_CellularNetwork.cpp makes of a measurement.
use mbed_ce_st87m.Common.{
  ℕ, ◌+◌, ◌≤◌, ◌≡◌, refl, ◌⊎◌, inl, inr, true, arith, leb, ℤ, pos, negsuc, neg_part, Bool-cases,
}
use mbed_ce_st87m.At.{NsapiError, is_ok, ok}
use mbed_ce_st87m.Network.{Carrier, CesqInfo, to_dbm, dbm_of, signal_quality}

-- A power of 0 to 97 was measured without an error, and is reported in dBm.
abbrev pub IsMeasured : Carrier → NsapiError → CesqInfo → Type 0
IsMeasured carrier err cesq =
    (n : ℕ) × (n ≤ 97)
    × (cesq.rsrp ≡ pos n)
    × (is_ok err ≡ true)
    × ((signal_quality carrier err cesq).0 ≡ ok)
    × (neg_part (signal_quality carrier err cesq).1 + n ≡ 140)

-- The error is passed on, and both values are unknown.
abbrev pub IsUnknown : Carrier → NsapiError → CesqInfo → Type 0
IsUnknown carrier err cesq =
    signal_quality carrier err cesq
    ≡ (err, carrier.signal_quality_unknown, carrier.signal_quality_unknown)

module _ (carrier : Carrier) where
  of_rsrp :
      (err : NsapiError) (cesq : CesqInfo) (rsrp : ℤ)
      → cesq.rsrp ≡ rsrp
      → is_ok err ≡ true
      → IsMeasured carrier err cesq ⊎ IsUnknown carrier err cesq
  unfolding signal_quality dbm_of to_dbm
  of_rsrp err cesq (negsuc n) e answered = inr (rw (answered, e) refl)
  of_rsrp err cesq (pos n) e answered = elim (Bool-cases (leb n 97)) [
    | inl small ↦ inl (
      n,
      ground (arith, small),
      e,
      answered,
      rw (answered, e, small) refl,
      rw (answered, e, small) (ground (arith, small)),
    )
    | inr large ↦ inr (rw (answered, e, large) refl)
  ]

  -- A signal strength is reported only for a measurement without an error, of a power from 0 to 97, and then
  -- it is that power minus 140, so from -140 to -43, and the result is success; otherwise the error
  -- is passed on and both values are the unknown one.
  pub signal_quality_bounds :
      (err : NsapiError) (cesq : CesqInfo)
      → IsMeasured carrier err cesq ⊎ IsUnknown carrier err cesq
  unfolding signal_quality
  signal_quality_bounds err cesq = elim (Bool-cases (is_ok err)) [
    | inl answered ↦ of_rsrp err cesq cesq.rsrp refl answered
    | inr failed ↦ inr (rw failed refl)
  ]
