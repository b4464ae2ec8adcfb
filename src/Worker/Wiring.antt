-- ===== src/Worker/Wiring.antt =====
-- The configurations that `main` and `buildStrategy` make of the environment.
use polymarket_signal_autopi.Base.{
  ◌≡◌, refl, subst, ap, ◌∙◌, inl, inr, ◌*◌, true, false, not, ◌&&◌, String, none, List, [], ◌∷◌,
  pos, Duration, second, minute, millisecond, elem, ◌==◌, text_eq, if◌then◌else◌, Result, ok, err,
  arith,
}
use polymarket_signal_autopi.Double.{Double}
use polymarket_signal_autopi.Text.{Runes, trim_space, to_upper}
use polymarket_signal_autopi.Execution.LiveRouter.Defs.{
  LiveOrder, LiveConfig, LiveRouter, new_live_router, submit, country_refused,
}
use polymarket_signal_autopi.Execution.LiveRouter.Steps.{Call, run}
use polymarket_signal_autopi.Execution.LiveRouter.Book.{run-Follows-accepted}
use polymarket_signal_autopi.Execution.LiveRouter.Spec.{submit-accepts_iff}
use polymarket_signal_autopi.Strategy.RankShift.Defs.{RankShiftConfig}
use polymarket_signal_autopi.Runtime.Anomaly.Defs.{parse_anomaly_severity}
use polymarket_signal_autopi.Runtime.AutoPilot.Defs.{AutoPilotConfig}
use polymarket_signal_autopi.Worker.Env.{
  Env, Strconv, getenv, kept_parts, as_set, parse_bool, parse_float, parse_int, parse_duration,
  resolve_strategy_asset_links,
}

single_lem : (x y : String) → elem x (y ∷ []) ≡ true → x ≡ y
single_lem x y h = ground (arith, h, text_eq.same_iff x y, text_eq.same_iff y x)

module _ {F : Type 0} ⦃d : Double F⦄ (conv : Strconv F) (env : Env) where
  -- The configuration of the router of live orders; fields that are not named are Go's zero values.
  unfoldable pub live_config : List String → LiveConfig F
  live_config asset_ids = record {
    whitelist_markets = as_set asset_ids;
    market_cluster = [];
    per_cluster_exposure_cap = [];
    per_market_exposure_cap = parse_float conv env "EXEC_MARKET_CAP" (d.lit 1000 1);
    stale_cutoff = parse_duration conv env "EXEC_STALE_SECONDS" (pos (5 * second));
    daily_loss_cap = parse_float conv env "EXEC_DAILY_LOSS_CAP" (d.lit 500 1);
    allowed_countries = as_set (getenv env "EXEC_COUNTRY" "US" ∷ []);
    compliance_hook = none;
  }

  -- The configuration of the worker; a notifier is there if both of its variables are set, and the
  -- trader and the builder if orders are to be executed.
  unfoldable pub auto_pilot_config : ⦃u : Runes⦄ → AutoPilotConfig F
  auto_pilot_config =
      let executes = parse_bool conv env "AUTO_EXECUTE" false in
      record {
        has_notifier =
            not (trim_space (env "TG_BOT_TOKEN") == "")
            && not (trim_space (env "TG_CHAT_ID") == "");
        has_live_router = true;
        has_trader = executes;
        has_order_builder = executes;
        reads_orders = executes;
        scans_orders = true;
        auto_execute = executes;
        reconcile = record {
          max_attempts = parse_int conv env "ORDER_RECONCILE_MAX_ATTEMPTS" (pos 3);
          base_delay =
              parse_duration conv env "ORDER_RECONCILE_BASE_DELAY" (pos (300 * millisecond));
          max_delay = parse_duration conv env "ORDER_RECONCILE_MAX_DELAY" (pos (2 * second));
        };
        reconcile_sweep_interval =
            parse_duration conv env "ORDER_RECONCILE_SWEEP_INTERVAL" (pos (15 * second));
        reconcile_sweep_limit = parse_int conv env "ORDER_RECONCILE_SWEEP_LIMIT" (pos 50);
        anomaly_severity_medium = parse_float conv env "ANOMALY_SEVERITY_MEDIUM" (d.lit 8 100);
        anomaly_severity_high = parse_float conv env "ANOMALY_SEVERITY_HIGH" (d.lit 15 100);
        anomaly_alert_min_severity =
            parse_anomaly_severity (env "ANOMALY_ALERT_MIN_SEVERITY") "medium";
        signal_notify_cooldown =
            parse_duration conv env "SIGNAL_NOTIFY_COOLDOWN" (pos (2 * minute));
      }

  -- `buildStrategy` for the asset ids, of which there is a first one; its error ends the program.
  unfoldable pub build_strategy :
      ⦃u : Runes⦄ → (String → String → String) → String → List String → Result (RankShiftConfig F)
  build_strategy resolve first others =
      let second_id : String = elim others [ [] ↦ "" | id ∷ ids ↦ id ] in
      let asset_a = getenv env "ARB_ASSET_A" first in
      let asset_b = getenv env "ARB_ASSET_B" second_id in
      if trim_space asset_b == ""
      then err "ARB_ASSET_B is required (or pass at least two POLY_ASSET_IDS)"
      else ok (record {
        asset_a = asset_a;
        asset_b = asset_b;
        flip_spread = parse_float conv env "ARB_FLIP_SPREAD" (d.lit 5 100);
        cooldown = parse_duration conv env "ARB_COOLDOWN_SECONDS" (pos (5 * minute));
        target_label = getenv env "ARB_TARGET_LABEL" (to_upper asset_a);
        asset_links = resolve_strategy_asset_links conv env resolve asset_a asset_b;
      })

  -- Where `EXEC_COUNTRY` holds nothing but spaces, the router's set of countries is empty, and the check
  -- of the country refuses no order: an order from any country passes it.
  pub live_config-unguarded :
      (ids : List String) (order : LiveOrder F)
      → env "EXEC_COUNTRY" == "" ≡ false
      → trim_space (env "EXEC_COUNTRY") == "" ≡ true
      → country_refused (live_config ids) order ≡ false
  unfolding country_refused live_config as_set kept_parts
  live_config-unguarded ids order set blank = rw (set, blank) refl

  allowed_lem :
      (ids : List String)
      → env "EXEC_COUNTRY" == "" ≡ false
      → trim_space (env "EXEC_COUNTRY") ≡ env "EXEC_COUNTRY"
      → (live_config ids).allowed_countries ≡ env "EXEC_COUNTRY" ∷ []
  unfolding live_config as_set kept_parts
  allowed_lem ids set trimmed = rw (set, trimmed, set) refl

  placed_lem :
      (ids : List String) (r : LiveRouter F) (order : LiveOrder F) (age : Duration)
      → r.cfg ≡ live_config ids
      → env "EXEC_COUNTRY" == "" ≡ false
      → trim_space (env "EXEC_COUNTRY") ≡ env "EXEC_COUNTRY"
      → (submit r order age).1 ≡ true
      → (order.country ≡ env "EXEC_COUNTRY") × (elem order.market (as_set ids) ≡ true)
  unfolding live_config
  placed_lem ids r order age same set trimmed accepted =
      let placed = ((submit-accepts_iff r order age).0 accepted).well_placed in
      let only =
        ap (λ (c : LiveConfig F). c.allowed_countries) same ∙ allowed_lem ids set trimmed in
      (
        elim placed.country_allowed [
          | inl none_ ↦ absurd (ground (arith, only, none_))
          | inr named ↦
              single_lem order.country (env "EXEC_COUNTRY")
                (subst (λ cs. elem order.country cs ≡ true) only named)
        ],
        subst (λ (c : LiveConfig F). elem order.market c.whitelist_markets ≡ true) same
            placed.listed,
      )

  -- Where `EXEC_COUNTRY` holds a text without spaces around it: whatever calls have reached the worker's
  -- router, an order that it then accepts is from that country, and its market is one of the asset ids.
  pub live_config-accepts :
      (ids : List String) (calls : List (Call F)) (order : LiveOrder F) (age : Duration)
      → env "EXEC_COUNTRY" == "" ≡ false
      → trim_space (env "EXEC_COUNTRY") ≡ env "EXEC_COUNTRY"
      → (submit (run (new_live_router (live_config ids)) calls) order age).1 ≡ true
      → (order.country ≡ env "EXEC_COUNTRY") × (elem order.market (as_set ids) ≡ true)
  unfolding new_live_router
  live_config-accepts ids calls order age set trimmed accepted =
      let r = new_live_router (live_config ids) in
      placed_lem ids (run r calls) order age (run-Follows-accepted r calls).same_cfg set trimmed
        accepted
