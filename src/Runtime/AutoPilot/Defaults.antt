-- ===== src/Runtime/AutoPilot/Defaults.antt =====
-- What `NewAutoPilot` makes of any configuration.
use polymarket_signal_autopi.Base.{
  ◌≡◌, refl, ◌⊎◌, inl, inr, false, pos, ◌<ℤ◌, ◌==◌, text_eq, if◌then◌else◌, arith, Bool-cases,
  String,
}
use polymarket_signal_autopi.Double.{Double, nought, IsOrdered}
use polymarket_signal_autopi.Text.{Runes}
use polymarket_signal_autopi.Runtime.Anomaly.Defs.{normalize_anomaly_severity}
use polymarket_signal_autopi.Runtime.Anomaly.Severity.{normalize_medium}
use polymarket_signal_autopi.Runtime.AutoPilot.Defs.{AutoPilotConfig, with_defaults}

severity_lem :
    ⦃u : Runes⦄
    → (raw : String)
    → normalize_anomaly_severity (if normalize_anomaly_severity raw == "" then "medium" else raw)
        == ""
      ≡ false
severity_lem raw = elim (Bool-cases (normalize_anomaly_severity raw == "")) [
  | inr e ↦ rw e e
  | inl e ↦ rw e (rw normalize_medium refl)
]

module _ {F : Type 0} ⦃d : Double F⦄ ⦃u : Runes⦄ where
  -- The durations and counts are positive; the medium threshold is not at most 0, and the high one not
  -- at most the medium one, unless it was set to a hundredth above it; the least severity has a name.
  pub record IsComplete (cfg : AutoPilotConfig F) : Type 0 where
    pub attempts_pos : pos 0 <ℤ cfg.reconcile.max_attempts
    pub base_pos : pos 0 <ℤ cfg.reconcile.base_delay
    pub max_pos : pos 0 <ℤ cfg.reconcile.max_delay
    pub interval_pos : pos 0 <ℤ cfg.reconcile_sweep_interval
    pub limit_pos : pos 0 <ℤ cfg.reconcile_sweep_limit
    pub cooldown_pos : pos 0 <ℤ cfg.signal_notify_cooldown
    pub medium_pos : d.le cfg.anomaly_severity_medium nought ≡ false
    pub high_above :
        (d.le cfg.anomaly_severity_high cfg.anomaly_severity_medium ≡ false)
        ⊎ (cfg.anomaly_severity_high ≡ d.add cfg.anomaly_severity_medium (d.lit 1 100))
    pub severity_known : normalize_anomaly_severity cfg.anomaly_alert_min_severity == "" ≡ false

  medium_lem :
      (o : IsOrdered F) (medium : F)
      → d.le (if d.le medium nought then d.lit 8 100 else medium) nought ≡ false
  medium_lem o medium = elim (Bool-cases (d.le medium nought)) [
    | inl e ↦ rw e (ground (arith, o.lit_strict 0 8 99, o.lit_whole 0 99))
    | inr e ↦ rw (e, e) refl
  ]

  high_lem :
      (high medium standard raised : F)
      → let chosen =
          if d.le high medium then (if d.le standard medium then raised else standard) else high in
        (d.le chosen medium ≡ false) ⊎ (chosen ≡ raised)
  high_lem high medium standard raised = elim (Bool-cases (d.le high medium)) [
    | inr e ↦ rw e (inl e)
    | inl e ↦ rw e (elim (Bool-cases (d.le standard medium)) [
      | inr q ↦ rw q (inl q)
      | inl q ↦ rw q (inr refl)
    ])
  ]

  -- Whatever the configuration: the one that `NewAutoPilot` keeps has positive reconciliation attempts,
  -- delays, sweep interval, sweep limit and notification cooldown, a medium threshold that is not at most
  -- 0, a high one that is not at most the medium one unless it is that plus 0.01, and a least
  -- severity that is one of the three; for numbers that are ordered as IEEE 754 orders them.
  pub with_defaults-IsComplete :
      (o : IsOrdered F) (cfg : AutoPilotConfig F) → IsComplete (with_defaults cfg)
  unfolding with_defaults
  with_defaults-IsComplete o cfg = record {
    attempts_pos = ground arith;
    base_pos = ground arith;
    max_pos = ground arith;
    interval_pos = ground arith;
    limit_pos = ground arith;
    cooldown_pos = ground arith;
    medium_pos = medium_lem o cfg.anomaly_severity_medium;
    high_above = high_lem cfg.anomaly_severity_high _ (d.lit 15 100) _;
    severity_known = severity_lem cfg.anomaly_alert_min_severity;
  }
