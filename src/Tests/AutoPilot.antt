-- ===== src/Tests/AutoPilot.antt =====
-- The worker on four updates: the lead passes from "A" to "B", and an order is placed.
use polymarket_signal_autopi.Base.{
  ℕ, ◌≡◌, refl, true, false, String, none, some, List, [], ◌∷◌, pos, collect, lookup, text_eq, ok,
  arith,
}
use polymarket_signal_autopi.Double.Fixed.{Fixed, fixed_double, num, Fixed-IsOrdered}
use polymarket_signal_autopi.Text.Ascii.{ascii_runes}
use polymarket_signal_autopi.Values.{float, Decoder}
use polymarket_signal_autopi.Execution.LiveRouter.Defs.{LiveConfig, new_live_router}
use polymarket_signal_autopi.Strategy.RankShift.Defs.{MarketUpdate, RankShiftStrategy}
use polymarket_signal_autopi.Runtime.Telemetry.Defs.{
  new_auto_pilot_telemetry, new_ops_alert_manager,
}
use polymarket_signal_autopi.Runtime.Telemetry.Alerts.{Spaced}
use polymarket_signal_autopi.Runtime.Reconcile.Defs.{World}
use polymarket_signal_autopi.Runtime.AutoPilot.Texts.{Printer}
use polymarket_signal_autopi.Runtime.AutoPilot.Defs.{
  AutoPilotConfig, AutoPilot, SignalPorts, with_defaults,
}
use polymarket_signal_autopi.Runtime.AutoPilot.Handle.{UpdatePorts}
use polymarket_signal_autopi.Runtime.AutoPilot.Loop.{
  Event, errs_closed, stream_failed, updates_closed, updated, run_loop,
}
use polymarket_signal_autopi.Runtime.AutoPilot.Routing.{
  Routes, run_loop-Routes, killed-run_loop, sent_request,
}
use polymarket_signal_autopi.Runtime.AutoPilot.Notices.{notice_times, run_loop-Spaced}
use polymarket_signal_autopi.Runtime.AutoPilot.Audit.{
  raw_events, written, IsAudit, run_loop-IsAudit,
}
use polymarket_signal_autopi.Runtime.AutoPilot.Defaults.{IsComplete, with_defaults-IsComplete}

abbrev printer : Printer Fixed
printer = record {
  fixed = λ n x. "0.50";
  byte_length = λ s. 1;
  first_bytes = λ n s. s;
  last_bytes = λ n s. s;
  marshal = λ m. [];
}

-- A decoder that finds the price 0.6 in every payload of one byte, and 0.3 in the others.
abbrev decoder : Decoder Fixed
decoder = record {
  parse_float = λ s. none;
  unmarshal = λ bytes. elim bytes [
    | [] ↦ none
    | b ∷ bs ↦ elim bs [
      | [] ↦ some (("price", float (num (pos 600_000))) ∷ [])
      | c ∷ cs ↦ some (("price", float (num (pos 300_000))) ∷ [])
    ]
  ];
}

abbrev strategy : RankShiftStrategy Fixed
strategy = record {
  cfg = record {
    asset_a = "A";
    asset_b = "B";
    flip_spread = num (pos 100_000);
    cooldown = pos 60_000_000_000;
    target_label = "label";
    asset_links = [];
  };
  prices = [];
  asset_links = [];
  leader = "";
  last_signal_at = 0;
}

abbrev router_config : LiveConfig Fixed
router_config = record {
  whitelist_markets = "A" ∷ "B" ∷ [];
  market_cluster = [];
  per_cluster_exposure_cap = [];
  per_market_exposure_cap = num (pos 100_000_000);
  stale_cutoff = pos 5_000_000_000;
  daily_loss_cap = num (pos 500_000_000);
  allowed_countries = "US" ∷ [];
  compliance_hook = none;
}

abbrev bare_config : AutoPilotConfig Fixed
bare_config = record {
  has_notifier = true;
  has_live_router = true;
  has_trader = true;
  has_order_builder = true;
  reads_orders = true;
  scans_orders = true;
  auto_execute = true;
  reconcile = record { max_attempts = pos 0; base_delay = pos 0; max_delay = pos 0 };
  reconcile_sweep_interval = pos 0;
  reconcile_sweep_limit = pos 0;
  anomaly_severity_medium = num (pos 0);
  anomaly_severity_high = num (pos 0);
  anomaly_alert_min_severity = "";
  signal_notify_cooldown = pos 120_000_000_000;
}

abbrev pilot : AutoPilot Fixed
pilot = record {
  cfg = bare_config;
  live_router = new_live_router router_config;
  strategy = strategy;
  telemetry = new_auto_pilot_telemetry 1;
  ops_alerts = some (new_ops_alert_manager (pos 0));
  last_signal_notify = [];
}

abbrev killed : AutoPilot Fixed
killed = record pilot {
  live_router = record pilot.live_router { kill = record { triggered = true; reason = "stop" } };
}

abbrev polls : World
polls = record {
  get_order = λ n. ok "filled";
  save_order = λ r. none;
  waits = λ n. true;
  clock = λ n i. 62_135_596_800_000_000_001;
  status_code = λ s. none;
}

-- The request of an order is the identifier of its asset.
abbrev ports : SignalPorts Fixed String
ports = record {
  clock = λ n. 62_135_596_800_000_000_001;
  save_signal = λ r. none;
  order_builder = λ s. ok (
    record { key = s.id; market = s.asset_id; country = "US"; notional = num (pos 10_000_000) },
    s.asset_id,
  );
  post_order =
      λ q. (record { success = true; order_id = "o"; status = "live"; error_msg = "" }, none);
  save_order = λ r. none;
  send = λ target message. none;
  alert_sends = λ key. true;
  polls = polls;
}

abbrev update_ports : UpdatePorts Fixed String
update_ports = record {
  now = 62_135_596_800_000_000_001;
  later = 62_135_596_800_000_000_001;
  strategy_now = 62_135_596_800_000_000_001;
  write = λ e. none;
  signals = λ n. ports;
}

abbrev broken_ports : UpdatePorts Fixed String
broken_ports = record update_ports { write = λ e. some "disk full" }

abbrev update : String → List ℕ → MarketUpdate
update asset_id payload = record { asset_id = asset_id; kind = "price"; payload = payload }

abbrev events : List (Event Fixed String)
events =
    updated update_ports (update "A" (1 ∷ []))
    ∷ updated update_ports (update "B" (1 ∷ 2 ∷ []))
    ∷ stream_failed (some "read market ws") false 5 (λ key. true)
    ∷ updated update_ports (update "B" (1 ∷ []))
    ∷ updated update_ports (update "A" (1 ∷ 2 ∷ []))
    ∷ updates_closed
    ∷ errs_closed
    ∷ []

-- The store refuses the second update's event.
abbrev broken_events : List (Event Fixed String)
broken_events =
    updated update_ports (update "A" (1 ∷ []))
    ∷ updated broken_ports (update "B" (1 ∷ []))
    ∷ updated update_ports (update "A" (1 ∷ []))
    ∷ []

run_loop-Routes_example :
    let o = run_loop printer decoder true true events pilot in Routes pilot o.actions o.pilot
run_loop-Routes_example = run_loop-Routes printer decoder true true events pilot

killed-run_loop_example :
    collect sent_request (run_loop printer decoder true true events killed).actions ≡ []
killed-run_loop_example = killed-run_loop printer decoder true true events killed refl

run_loop-Spaced_example : Spaced (pos 120_000_000_000) none (
    collect
      (notice_times "signal|A|LONG|rank_flip_polymarket_leads_news_lag|high")
      (run_loop printer decoder true true events pilot).actions)
unfolding lookup
run_loop-Spaced_example =
    run_loop-Spaced printer decoder true true events pilot
      "signal|A|LONG|rank_flip_polymarket_leads_news_lag|high" (ground arith)

run_loop-IsAudit_example :
    let o = run_loop printer decoder true true broken_events pilot in
    IsAudit (raw_events true true broken_events) (written o.actions) o.error
run_loop-IsAudit_example = run_loop-IsAudit printer decoder true true broken_events pilot

with_defaults-IsComplete_example : IsComplete (with_defaults bare_config)
with_defaults-IsComplete_example = with_defaults-IsComplete Fixed-IsOrdered bare_config
