-- ===== src/Execution/LiveRouter/Defs.antt =====
-- The configuration, the state and the operations of the live router.
use polymarket_signal_autopi.Base.{
  Bool, true, false, not, ◌&&◌, ◌||◌, String, Option, none, some, List, [], ◌∷◌, pos, Duration,
  ltb_ℤ, GoMap, lookup, insert, read, elem, ◌==◌, if◌then◌else◌, text_eq,
}
use polymarket_signal_autopi.Double.{Double, lt, nought}
use polymarket_signal_autopi.Execution.KillSwitch.{KillSwitch, new_kill_switch, trigger}

pub record LiveOrder (F : Type 0) : Type 0 where
  pub key : String
  pub market : String
  pub country : String
  pub notional : F

-- The hook's answer is its error, if any.
pub record LiveConfig (F : Type 0) : Type 0 where
  pub whitelist_markets : List String
  pub market_cluster : GoMap String String
  pub per_cluster_exposure_cap : GoMap String F
  pub per_market_exposure_cap : F
  pub stale_cutoff : Duration
  pub daily_loss_cap : F
  pub allowed_countries : List String
  pub compliance_hook : Option (LiveOrder F → Option String)

pub record LiveRouter (F : Type 0) : Type 0 where
  pub cfg : LiveConfig F
  pub seen_keys : List String
  pub exposure : GoMap String F
  pub cluster_exposure : GoMap String F
  pub day_pnl : F
  pub kill : KillSwitch

module _ {F : Type 0} ⦃d : Double F⦄ where
  -- `NewLiveRouter`
  unfoldable pub new_live_router : LiveConfig F → LiveRouter F
  new_live_router cfg = record {
    cfg = cfg;
    seen_keys = [];
    exposure = [];
    cluster_exposure = [];
    day_pnl = nought;
    kill = new_kill_switch;
  }

  -- `r.cfg.DailyLossCap > 0 && -r.dayPnL > r.cfg.DailyLossCap`
  unfoldable pub loss_exceeded : LiveRouter F → Bool
  loss_exceeded r = lt nought r.cfg.daily_loss_cap && lt r.cfg.daily_loss_cap (d.neg r.day_pnl)

  -- The country check, which an empty set of countries switches off.
  unfoldable pub country_refused : LiveConfig F → LiveOrder F → Bool
  country_refused cfg order = elim cfg.allowed_countries [
    | [] ↦ false
    | c ∷ cs ↦ not (elem order.country (c ∷ cs))
  ]

  -- The compliance hook, where there is one.
  unfoldable pub hook_refused : LiveConfig F → LiveOrder F → Bool
  hook_refused cfg order = elim cfg.compliance_hook [
    | none ↦ false
    | some hook ↦ elim (hook order) [ none ↦ false | some _ ↦ true ]
  ]

  -- The checks of `Submit` on the order itself, up to the compliance hook.
  unfoldable pub order_refusal : LiveConfig F → LiveOrder F → Option String
  unfolding country_refused hook_refused
  order_refusal cfg order =
      if order.key == "" || order.market == "" || order.country == "" || d.le order.notional nought
      then some "invalid_live_order"
      else if not (elem order.market cfg.whitelist_markets)
      then some "market_not_whitelisted"
      else if country_refused cfg order
      then some "geoblock_compliance"
      else if hook_refused cfg order
      then some "compliance_failed"
      else none

  -- The checks of `Submit` that do not compute an exposure, in their order: the reason of the first
  -- that fails.
  unfoldable pub gate : LiveRouter F → LiveOrder F → Duration → Option String
  gate r order data_age =
      if r.kill.triggered
      then some (if r.kill.reason == "" then "kill_switch" else r.kill.reason)
      else if loss_exceeded r
      then some "daily_loss_cap"
      else elim (order_refusal r.cfg order) [
        | some reason ↦ some reason
        | none ↦
            if ltb_ℤ (pos 0) r.cfg.stale_cutoff && ltb_ℤ r.cfg.stale_cutoff data_age
            then some "stale_data_cutoff"
            else if elem order.key r.seen_keys
            then some "duplicate_order_key"
            else none
      ]

  -- The cluster whose cap a market counts against: its own name where none is mapped.
  unfoldable pub cluster_of : LiveConfig F → String → String
  cluster_of cfg market = elim (lookup market cfg.market_cluster) [
    | none ↦ market
    | some mapped ↦ if mapped == "" then market else mapped
  ]

  unfoldable pub next_exposure : LiveRouter F → LiveOrder F → F
  next_exposure r order = d.add (read nought order.market r.exposure) order.notional

  unfoldable pub next_cluster_exposure : LiveRouter F → LiveOrder F → F
  next_cluster_exposure r order =
      d.add (read nought (cluster_of r.cfg order.market) r.cluster_exposure) order.notional

  -- `capValue, ok := ...; ok && capValue > 0 && nextClusterExposure > capValue`
  unfoldable pub over_cluster_cap : LiveConfig F → String → F → Bool
  over_cluster_cap cfg cluster next = elim (lookup cluster cfg.per_cluster_exposure_cap) [
    | none ↦ false
    | some cap_value ↦ lt nought cap_value && lt cap_value next
  ]

  -- The two exposure caps.
  unfoldable pub cap_refusal : LiveRouter F → LiveOrder F → Option String
  cap_refusal r order =
      if lt nought r.cfg.per_market_exposure_cap
        && lt r.cfg.per_market_exposure_cap (next_exposure r order)
      then some "market_exposure_cap"
      else if over_cluster_cap r.cfg (cluster_of r.cfg order.market) (next_cluster_exposure r order)
      then some "cluster_exposure_cap"
      else none

  -- The three assignments of an accepted order.
  unfoldable pub book : LiveRouter F → LiveOrder F → LiveRouter F
  book r order = record r {
    exposure = insert order.market (next_exposure r order) r.exposure;
    cluster_exposure =
        insert (cluster_of r.cfg order.market) (next_cluster_exposure r order) r.cluster_exposure;
    seen_keys = order.key ∷ r.seen_keys;
  }

  -- `Submit`: the new state, whether the order is accepted, and the reason if it is not.
  unfoldable pub submit : LiveRouter F → LiveOrder F → Duration → LiveRouter F × Bool × String
  submit r order data_age = elim (gate r order data_age) [
    | some reason ↦ (r, false, reason)
    | none ↦ elim (cap_refusal r order) [
      | some reason ↦ (r, false, reason)
      | none ↦ (book r order, true, "")
    ]
  ]

  -- `RecordPnL`. The kill switch is triggered after the mutex is released; nothing else of the router
  -- is read or written in between.
  unfoldable pub record_pnl : LiveRouter F → F → LiveRouter F
  record_pnl r pnl =
      let r' = record r { day_pnl = d.add r.day_pnl pnl } in
      if loss_exceeded r' then record r' { kill = trigger r'.kill "daily_loss_cap" } else r'
