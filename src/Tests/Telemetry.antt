-- ===== src/Tests/Telemetry.antt =====
-- Telemetry and alerts on concrete events.
use polymarket_signal_autopi.Base.{ℕ, true, String, none, List, [], ◌∷◌, pos, Time, lookup, text_eq}
use polymarket_signal_autopi.Double.Fixed.{Fixed, fixed_double, num}
use polymarket_signal_autopi.Text.Ascii.{ascii_runes}
use polymarket_signal_autopi.Runtime.Anomaly.Defs.{AnomalyEvent}
use polymarket_signal_autopi.Runtime.Telemetry.Defs.{OpsAlertManager, new_ops_alert_manager}
use polymarket_signal_autopi.Runtime.Telemetry.Alerts.{Call, sent, Spaced, sent-Spaced}

abbrev event : String → AnomalyEvent Fixed
event severity = record {
  severity = severity;
  asset_id = "A";
  asset_label = "label";
  reason = "flip";
  action = "LONG";
  stage = "";
  confidence = num (pos 1);
  spread = num (pos 1);
  created_at = 0;
}

abbrev events : List (AnomalyEvent Fixed × Time)
events = (event "HIGH", 3) ∷ (event "?", 4) ∷ []

abbrev manager : OpsAlertManager
manager = new_ops_alert_manager (pos 0)

abbrev call : ℕ → Call
call now = record { key = "order failed"; sends = true; now = now }

sent-Spaced_example :
    Spaced
      (pos 120_000_000_000)
      none
      (sent "order_failed" manager (call 1 ∷ call 2 ∷ call 900_000_000_000 ∷ []))
unfolding lookup
sent-Spaced_example =
    sent-Spaced "order_failed" manager (call 1 ∷ call 2 ∷ call 900_000_000_000 ∷ [])
