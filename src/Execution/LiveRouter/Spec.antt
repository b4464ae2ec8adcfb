-- ===== src/Execution/LiveRouter/Spec.antt =====
-- When `Submit` accepts an order, said without its order of checks.
use polymarket_signal_autopi.Base.{
  ◌≡◌, ◌≢◌, ◌↔◌, ◌⊎◌, inl, inr, true, false, String, Option, none, some, [], Duration, pos, ◌≤ℤ◌,
  ◌<ℤ◌, lookup, read, elem, arith, text_eq, Option-cases,
}
use polymarket_signal_autopi.Double.{Double, lt, nought}
use polymarket_signal_autopi.Execution.LiveRouter.Defs.{
  LiveOrder, LiveConfig, LiveRouter, gate, order_refusal, country_refused, hook_refused,
  loss_exceeded, cap_refusal, cluster_of, next_exposure, next_cluster_exposure, over_cluster_cap,
  submit,
}

module _ {F : Type 0} ⦃d : Double F⦄ where
  -- The order is well formed, and the configuration admits its market and country.
  pub record IsWellPlaced (cfg : LiveConfig F) (order : LiveOrder F) : Type 0 where
    pub has_key : order.key ≢ ""
    pub has_market : order.market ≢ ""
    pub has_country : order.country ≢ ""
    pub positive : d.le order.notional nought ≡ false
    pub listed : elem order.market cfg.whitelist_markets ≡ true
    pub country_allowed :
        (cfg.allowed_countries ≡ []) ⊎ (elem order.country cfg.allowed_countries ≡ true)
    pub compliant :
        (hook : LiveOrder F → Option String) → cfg.compliance_hook ≡ some hook → hook order ≡ none

  -- All that an accepted order has to satisfy.
  pub record IsAdmissible (r : LiveRouter F) (order : LiveOrder F) (data_age : Duration)
      : Type 0 where
    pub alive : r.kill.triggered ≡ false
    pub no_loss :
        lt nought r.cfg.daily_loss_cap ≡ true → lt r.cfg.daily_loss_cap (d.neg r.day_pnl) ≡ false
    pub well_placed : IsWellPlaced r.cfg order
    pub current : pos 0 <ℤ r.cfg.stale_cutoff → data_age ≤ℤ r.cfg.stale_cutoff
    pub new_key : elem order.key r.seen_keys ≡ false
    pub market_fits :
        lt nought r.cfg.per_market_exposure_cap ≡ true
        → lt r.cfg.per_market_exposure_cap
            (d.add (read nought order.market r.exposure) order.notional)
          ≡ false
    pub cluster_fits :
        (cap : F)
        → lookup (cluster_of r.cfg order.market) r.cfg.per_cluster_exposure_cap ≡ some cap
        → lt nought cap ≡ true
        → lt cap
            (d.add (read nought (cluster_of r.cfg order.market) r.cluster_exposure) order.notional)
          ≡ false

  country_iff :
      (cfg : LiveConfig F) (order : LiveOrder F)
      → (country_refused cfg order ≡ false)
        ↔ ((cfg.allowed_countries ≡ []) ⊎ (elem order.country cfg.allowed_countries ≡ true))
  unfolding country_refused
  country_iff cfg order = ground arith

  hook_iff :
      (cfg : LiveConfig F) (order : LiveOrder F)
      → (hook_refused cfg order ≡ false) ↔ (
          (hook : LiveOrder F → Option String)
          → cfg.compliance_hook ≡ some hook
          → hook order ≡ none)
  unfolding hook_refused
  hook_iff cfg order = (
    λ h hook e. ground arith,
    λ h. elim (Option-cases cfg.compliance_hook) [
      | inl e ↦ rw (e, hook_refused)
      | inr (hook, e) ↦ rw (e, hook_refused) (rw (h hook e))
    ],
  )

  order_iff :
      (cfg : LiveConfig F) (order : LiveOrder F)
      → (order_refusal cfg order ≡ none) ↔ IsWellPlaced cfg order
  unfolding order_refusal
  order_iff cfg order = (
    λ h. record {
      has_key = ground (arith, text_eq.same_iff order.key "");
      has_market = ground (arith, text_eq.same_iff order.market "");
      has_country = ground (arith, text_eq.same_iff order.country "");
      positive = ground arith;
      listed = ground arith;
      country_allowed = (country_iff cfg order).0 (ground arith);
      compliant = (hook_iff cfg order).0 (ground arith);
    },
    λ w. ground (
      arith,
      (country_iff cfg order).1 w.country_allowed,
      (hook_iff cfg order).1 w.compliant,
      text_eq.same_iff order.key "",
      text_eq.same_iff order.market "",
      text_eq.same_iff order.country "",
    ),
  )

  cluster_iff :
      (cfg : LiveConfig F) (c : String) (next : F)
      → (over_cluster_cap cfg c next ≡ false) ↔ (
          (cap : F)
          → lookup c cfg.per_cluster_exposure_cap ≡ some cap
          → lt nought cap ≡ true
          → lt cap next ≡ false)
  unfolding over_cluster_cap
  cluster_iff cfg c next = (
    λ h cap e p. ground arith,
    λ h. elim (Option-cases (lookup c cfg.per_cluster_exposure_cap)) [
      | inl e ↦ rw (e, over_cluster_cap)
      | inr (cap, e) ↦ rw (e, over_cluster_cap) (ground (arith, h cap e))
    ],
  )

  -- `Submit` accepts an order exactly if it is admissible.
  pub submit-accepts_iff :
      (r : LiveRouter F) (order : LiveOrder F) (data_age : Duration)
      → ((submit r order data_age).1 ≡ true) ↔ IsAdmissible r order data_age
  unfolding submit gate loss_exceeded cap_refusal next_exposure next_cluster_exposure
  submit-accepts_iff r order age = (
    λ h. record {
      alive = ground arith;
      no_loss = λ p. ground arith;
      well_placed = (order_iff r.cfg order).0 (ground arith);
      current = λ p. ground arith;
      new_key = ground arith;
      market_fits = λ p. ground arith;
      cluster_fits = (cluster_iff r.cfg (cluster_of r.cfg order.market) _).0 (ground arith);
    },
    λ w. ground (
      arith,
      (order_iff r.cfg order).1 w.well_placed,
      w.no_loss,
      w.market_fits,
      (cluster_iff r.cfg (cluster_of r.cfg order.market) _).1 w.cluster_fits,
      w.current,
    ),
  )
