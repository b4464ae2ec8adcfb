-- ===== src/Config.antt =====
-- internal/config/contract.go: the gates that a configuration must pass. An error is its text.
use polymarket_signal_autopi.Base.{
  ◌≡◌, ◌↔◌, refl, ◌⊎◌, Bool, true, false, not, ◌||◌, String, Option, none, some, ℤ, pos, ◌≤ℤ◌, ◌<ℤ◌,
  leb_ℤ, ltb_ℤ, if◌then◌else◌, arith,
}
use polymarket_signal_autopi.Double.{Double, IsOrdered, lt, eq, nought, one}

pub record TimestampRequirement : Type 0 where
  pub require_source_ts : Bool
  pub require_ingest_ts : Bool
  pub require_normalized_ts : Bool

-- `TimestampRequirement.Validate`
unfoldable pub validate_timestamps : TimestampRequirement → Option String
validate_timestamps r =
    if not r.require_source_ts || not r.require_ingest_ts || not r.require_normalized_ts
    then some "all timestamp requirements must be enabled"
    else none

pub record DataQualityGate (F : Type 0) : Type 0 where
  pub missing_field_pct_max : F
  pub p99_ingest_latency_ms : ℤ
  pub reconnect_success_min : F
  pub unresolved_gap_max : ℤ

pub record CausalRobustnessGate (F : Type 0) : Type 0 where
  pub fdr_q_max : F
  pub anti_lookahead_min : F

pub record EconomicViabilityGate (F : Type 0) : Type 0 where
  pub max_drawdown_pct : F
  pub capacity_decay_pct_max : F

pub record OperationalSafetyGate (F : Type 0) : Type 0 where
  pub slippage_deviation_pct_max : F

pub record GoNoGoGates (F : Type 0) : Type 0 where
  pub data_quality : DataQualityGate F
  pub causal_robustness : CausalRobustnessGate F
  pub economic_viability : EconomicViabilityGate F
  pub operational_safety : OperationalSafetyGate F

positive_of : (a : ℤ) → leb_ℤ a (pos 0) ≡ false → pos 0 <ℤ a
positive_of a h = ground arith

of_positive : (a : ℤ) → pos 0 <ℤ a → leb_ℤ a (pos 0) ≡ false
of_positive a h = ground arith

natural_of : (a : ℤ) → ltb_ℤ a (pos 0) ≡ false → pos 0 ≤ℤ a
natural_of a h = ground arith

of_natural : (a : ℤ) → pos 0 ≤ℤ a → ltb_ℤ a (pos 0) ≡ false
of_natural a h = ground arith

true_of : (b : Bool) → not b ≡ false → b ≡ true
true_of b h = ground arith

of_true : (b : Bool) → b ≡ true → not b ≡ false
of_true b h = ground arith

-- A check that is passed, and the checks behind it.
passed :
    (fails : Bool) (message : String) (rest : Option String)
    → (if fails then some message else rest) ≡ none
    → (fails ≡ false) × (rest ≡ none)
passed true message rest h = absurd (ground arith)
passed false message rest h = (refl, h)

module _ {F : Type 0} ⦃d : Double F⦄ where
  abbrev pub hundred : F
  hundred = d.lit 100 1

  -- `GoNoGoGates.Validate`
  unfoldable pub validate : GoNoGoGates F → Option String
  validate g =
      if d.le g.data_quality.missing_field_pct_max nought
        || lt one g.data_quality.missing_field_pct_max
      then some "missing field threshold must be in (0, 1]"
      else if leb_ℤ g.data_quality.p99_ingest_latency_ms (pos 0)
      then some "p99 ingest latency must be positive"
      else if lt g.data_quality.reconnect_success_min nought
          || lt hundred g.data_quality.reconnect_success_min
      then some "reconnect success must be between 0 and 100"
      else if ltb_ℤ g.data_quality.unresolved_gap_max (pos 0)
      then some "unresolved gap max cannot be negative"
      else if d.le g.causal_robustness.fdr_q_max nought || lt one g.causal_robustness.fdr_q_max
      then some "fdr q threshold must be in (0, 1]"
      else if not (eq g.causal_robustness.anti_lookahead_min hundred)
      then some "anti-lookahead minimum must be 100"
      else if d.le g.economic_viability.max_drawdown_pct nought
          || lt hundred g.economic_viability.max_drawdown_pct
      then some "max drawdown must be in (0, 100]"
      else if lt g.economic_viability.capacity_decay_pct_max nought
          || lt hundred g.economic_viability.capacity_decay_pct_max
      then some "capacity decay max must be in [0, 100]"
      else if lt g.operational_safety.slippage_deviation_pct_max nought
          || lt hundred g.operational_safety.slippage_deviation_pct_max
      then some "slippage deviation max must be in [0, 100]"
      else none

  -- A threshold above 0, or from 0 on, up to a bound; or NaN, which no comparison refuses.
  abbrev pub IsIn : Bool → F → F → Type 0
  IsIn strict hi x =
      (d.is_nan x ≡ true)
      ⊎ (((if strict then lt nought x else d.le nought x) ≡ true) × (d.le x hi ≡ true))

  -- The ranges that the messages of `Validate` name.
  pub record IsSound (g : GoNoGoGates F) : Type 0 where
    pub missing : IsIn true one g.data_quality.missing_field_pct_max
    pub latency : pos 0 <ℤ g.data_quality.p99_ingest_latency_ms
    pub reconnect : IsIn false hundred g.data_quality.reconnect_success_min
    pub gaps : pos 0 ≤ℤ g.data_quality.unresolved_gap_max
    pub fdr : IsIn true one g.causal_robustness.fdr_q_max
    pub lookahead : eq g.causal_robustness.anti_lookahead_min hundred ≡ true
    pub drawdown : IsIn true hundred g.economic_viability.max_drawdown_pct
    pub decay : IsIn false hundred g.economic_viability.capacity_decay_pct_max
    pub slippage : IsIn false hundred g.operational_safety.slippage_deviation_pct_max

  module _ (laws : IsOrdered F) where
    open laws use {le_not_nan, le_total, lit_finite}

    whole : (d.is_nan nought ≡ false) × (d.is_nan one ≡ false) × (d.is_nan hundred ≡ false)
    whole = (
      (lit_finite 0 0 (ground arith)).0,
      (lit_finite 1 0 (ground arith)).0,
      (lit_finite 100 0 (ground arith)).0,
    )

    strict-IsIn :
        (hi x : F) → d.is_nan hi ≡ false → ((d.le x nought || lt hi x) ≡ false) ↔ IsIn true hi x
    strict-IsIn hi x h = ground (
      arith,
      whole,
      le_total x nought,
      le_total hi x,
      le_not_nan x nought,
      le_not_nan hi x,
      le_not_nan x hi,
      le_not_nan nought x,
    )

    closed-IsIn :
        (hi x : F) → d.is_nan hi ≡ false → ((lt x nought || lt hi x) ≡ false) ↔ IsIn false hi x
    closed-IsIn hi x h = ground (
      arith,
      whole,
      le_total x nought,
      le_total hi x,
      le_not_nan x nought,
      le_not_nan hi x,
      le_not_nan x hi,
      le_not_nan nought x,
    )

    -- The gates pass exactly if every threshold is in the range that its message names, or is NaN; the
    -- anti-lookahead minimum has to be 100.
    pub validate-none_iff : (g : GoNoGoGates F) → (validate g ≡ none) ↔ IsSound g
    unfolding validate
    validate-none_iff g =
        let q = g.data_quality in
        let a = strict-IsIn one q.missing_field_pct_max whole.1 in
        let b = closed-IsIn hundred q.reconnect_success_min whole.2 in
        let c = strict-IsIn one g.causal_robustness.fdr_q_max whole.1 in
        let e = strict-IsIn hundred g.economic_viability.max_drawdown_pct whole.2 in
        let f = closed-IsIn hundred g.economic_viability.capacity_decay_pct_max whole.2 in
        let s = closed-IsIn hundred g.operational_safety.slippage_deviation_pct_max whole.2 in
        (
          λ h.
              let (p1, h1) = passed _ _ _ h in
              let (p2, h2) = passed _ _ _ h1 in
              let (p3, h3) = passed _ _ _ h2 in
              let (p4, h4) = passed _ _ _ h3 in
              let (p5, h5) = passed _ _ _ h4 in
              let (p6, h6) = passed _ _ _ h5 in
              let (p7, h7) = passed _ _ _ h6 in
              let (p8, h8) = passed _ _ _ h7 in
              let (p9, h9) = passed _ _ _ h8 in
              record {
                missing = a.0 p1;
                latency = positive_of _ p2;
                reconnect = b.0 p3;
                gaps = natural_of _ p4;
                fdr = c.0 p5;
                lookahead = true_of _ p6;
                drawdown = e.0 p7;
                decay = f.0 p8;
                slippage = s.0 p9;
              },
          λ h.
              let latency : leb_ℤ q.p99_ingest_latency_ms (pos 0) ≡ false =
                of_positive _ h.latency in
              let gaps : ltb_ℤ q.unresolved_gap_max (pos 0) ≡ false = of_natural _ h.gaps in
              let lookahead : not (eq g.causal_robustness.anti_lookahead_min hundred) ≡ false =
                of_true _ h.lookahead in
              rw (
                a.1 h.missing,
                latency,
                b.1 h.reconnect,
                gaps,
                c.1 h.fdr,
                lookahead,
                e.1 h.drawdown,
                f.1 h.decay,
                s.1 h.slippage,
              ),
        )
