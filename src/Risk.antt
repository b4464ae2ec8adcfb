-- ===== src/Risk.antt =====
-- internal/risk/filters.go: the filter on signals by exposure and by the age of the data.
use polymarket_signal_autopi.Base.{
  ◌≡◌, ◌↔◌, ◌⊎◌, ◌<ℤ◌, inl, inr, Bool-cases, arith, Bool, true, false, ◌&&◌, String, pos, Duration,
  ltb_ℤ, if◌then◌else◌,
}
use polymarket_signal_autopi.Double.{Double, lt, nought}

pub record Context (F : Type 0) : Type 0 where
  pub current_exposure : F
  pub max_exposure : F
  pub data_age : Duration
  pub stale_after : Duration

-- The signal goes through as it is.
pub record FilteredSignal (S : Type 0) : Type 0 where
  pub signal : S
  pub blocked : Bool
  pub block_reason : String

module _ {F S : Type 0} ⦃d : Double F⦄ where
  -- `Apply`
  unfoldable pub apply : S → Context F → FilteredSignal S
  apply signal ctx =
      if lt nought ctx.max_exposure && lt ctx.max_exposure ctx.current_exposure
      then record { signal = signal; blocked = true; block_reason = "exposure_cap_exceeded" }
      else if ltb_ℤ (pos 0) ctx.stale_after && ltb_ℤ ctx.stale_after ctx.data_age
      then record { signal = signal; blocked = true; block_reason = "stale_data_cutoff" }
      else record { signal = signal; blocked = false; block_reason = "" }

  -- A signal goes on as it is, marked as blocked exactly if the exposure is over a positive cap or the
  -- data is older than a positive limit; the exposure is the reason that is named if it is over the cap,
  -- and none is named if the signal is not blocked.
  pub apply-blocked_iff :
      (signal : S) (ctx : Context F)
      → let over = lt nought ctx.max_exposure && lt ctx.max_exposure ctx.current_exposure in
        let r = apply signal ctx in
        (r.signal ≡ signal)
        × ((r.blocked ≡ true)
            ↔ ((over ≡ true) ⊎ ((pos 0 <ℤ ctx.stale_after) × (ctx.stale_after <ℤ ctx.data_age))))
        × (over ≡ true → r.block_reason ≡ "exposure_cap_exceeded")
        × (r.blocked ≡ false → r.block_reason ≡ "")
  unfolding apply
  apply-blocked_iff signal ctx =
      elim (Bool-cases (lt nought ctx.max_exposure && lt ctx.max_exposure ctx.current_exposure)) [
        | inl e ↦ ground (arith, e)
        | inr e ↦ ground (arith, e)
      ]
