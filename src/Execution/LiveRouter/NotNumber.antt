-- ===== src/Execution/LiveRouter/NotNumber.antt =====
-- What a notional that is NaN does to a live router.
use polymarket_signal_autopi.Base.{
  ◌≡◌, refl, sym, subst, inl, inr, true, false, String, none, List, [], ◌∷◌, Duration, Bool, ◌==◌,
  if◌then◌else◌, read, read-insert_update, lookup, arith, text_eq, Option-cases, read-insert,
  ==_refl,
}
use polymarket_signal_autopi.Double.{Double, IsOrdered, SpreadsNan, lt, nought}
use polymarket_signal_autopi.Execution.LiveRouter.Steps.{
  Call, submits, records, triggers, resets, step, run,
}
use polymarket_signal_autopi.Execution.LiveRouter.Cases.{submit_cases, record_pnl_lem}
use polymarket_signal_autopi.Execution.LiveRouter.Defs.{
  LiveOrder, LiveConfig, LiveRouter, gate, cap_refusal, cluster_of, next_exposure,
  next_cluster_exposure, over_cluster_cap, submit, book,
}

-- A notional that is NaN passes the check for a positive notional, and no cap stops it.
module _ {F : Type 0} ⦃d : Double F⦄ (laws : IsOrdered F) (spreads : SpreadsNan F) where
  open laws use {le_not_nan}
  open spreads use {add_left, add_right}

  nan-lt : (x y : F) → d.is_nan y ≡ true → lt x y ≡ false
  nan-lt x y n = ground (arith, le_not_nan x y)

  nan-over_cluster_cap :
      (cfg : LiveConfig F) (c : String) (next : F)
      → d.is_nan next ≡ true
      → over_cluster_cap cfg c next ≡ false
  unfolding over_cluster_cap
  nan-over_cluster_cap cfg c next n = elim (Option-cases (lookup c cfg.per_cluster_exposure_cap)) [
    | inl e ↦ rw (e, over_cluster_cap)
    | inr (cap, e) ↦ rw (e, over_cluster_cap) (ground (arith, nan-lt cap next n))
  ]

  nan-cap_refusal :
      (r : LiveRouter F) (order : LiveOrder F)
      → d.is_nan (next_exposure r order) ≡ true
      → d.is_nan (next_cluster_exposure r order) ≡ true
      → cap_refusal r order ≡ none
  unfolding cap_refusal
  nan-cap_refusal r order n m = ground (
    arith,
    nan-lt r.cfg.per_market_exposure_cap (next_exposure r order) n,
    nan-over_cluster_cap r.cfg (cluster_of r.cfg order.market) (next_cluster_exposure r order) m,
  )

  booked :
      (r : LiveRouter F) (order : LiveOrder F) (age : Duration)
      → gate r order age ≡ none
      → cap_refusal r order ≡ none
      → submit r order age ≡ (book r order, true, "")
  unfolding submit
  booked r order age e f = rw (e, submit) (rw (f, submit))

  -- Both exposures that a market counts in are NaN.
  pub record IsSpoiled (market : String) (r : LiveRouter F) : Type 0 where
    pub own : d.is_nan (read nought market r.exposure) ≡ true
    pub clustered : d.is_nan (read nought (cluster_of r.cfg market) r.cluster_exposure) ≡ true

  raised-nan :
      (b : Bool) (x y : F) → d.is_nan x ≡ true → d.is_nan (if b then d.add x y else x) ≡ true
  raised-nan true x y n = add_left x y n
  raised-nan false x y n = n

  book-IsSpoiled :
      (market : String) (r : LiveRouter F) (order : LiveOrder F)
      → IsSpoiled market r
      → IsSpoiled market (book r order)
  unfolding book next_exposure next_cluster_exposure
  book-IsSpoiled market r order h =
      let grow = λ (x : F). d.add x order.notional in
      let c = cluster_of r.cfg order.market in
      let k = cluster_of r.cfg market in
      record {
        own =
            rw (read-insert_update nought grow order.market market r.exposure)
              (raised-nan (order.market == market) _ _ h.own);
        clustered =
            rw (read-insert_update nought grow c k r.cluster_exposure)
              (raised-nan (c == k) _ _ h.clustered);
      }

  step-IsSpoiled :
      (market : String) (r : LiveRouter F) (call : Call F)
      → IsSpoiled market r
      → IsSpoiled market (step r call)
  unfolding step
  step-IsSpoiled market r (submits order age) h = elim (submit_cases r order age) [
    | inl (why, e) ↦ subst (λ t. IsSpoiled market t.0) (sym e) h
    | inr a ↦ subst (λ t. IsSpoiled market t.0) (sym a.result) (book-IsSpoiled market r order h)
  ]
  step-IsSpoiled market r (records pnl) h =
      subst (IsSpoiled market) (sym (record_pnl_lem r pnl))
        (record { own = h.own; clustered = h.clustered })
  step-IsSpoiled market r (triggers why) h = record { own = h.own; clustered = h.clustered }
  step-IsSpoiled market r resets h = record { own = h.own; clustered = h.clustered }

  run-IsSpoiled :
      (market : String) (r : LiveRouter F) (calls : List (Call F))
      → IsSpoiled market r
      → IsSpoiled market (run r calls)
  unfolding run
  run-IsSpoiled market r [] h = h
  run-IsSpoiled market r (call ∷ calls) h =
      run-IsSpoiled market (step r call) calls (step-IsSpoiled market r call h)

  IsSpoiled-cap_refusal :
      (r : LiveRouter F) (later : LiveOrder F)
      → IsSpoiled later.market r
      → cap_refusal r later ≡ none
  unfolding next_exposure next_cluster_exposure
  IsSpoiled-cap_refusal r later h =
      nan-cap_refusal r later (add_left _ _ h.own) (add_left _ _ h.clustered)

  -- The exposures of the market of an order once that is booked.
  nan-book :
      (r : LiveRouter F) (order : LiveOrder F)
      → d.is_nan order.notional ≡ true
      → IsSpoiled order.market (book r order)
  unfolding book next_exposure next_cluster_exposure
  nan-book r order n = record {
    own = rw (read-insert, ==_refl order.market) (add_right _ _ n);
    clustered = rw (read-insert, ==_refl (cluster_of r.cfg order.market)) (add_right _ _ n);
  }

  -- An order whose notional is NaN is accepted if it passes the checks in front of the exposure caps,
  -- none of which refuses a NaN; and after it, whatever calls of the router come in between, no later order
  -- on that market is refused by an exposure cap, of the market or of its cluster, whatever its notional is.
  pub nan-submit_uncaps :
      (r : LiveRouter F) (order later : LiveOrder F) (age : Duration) (calls : List (Call F))
      → d.is_nan order.notional ≡ true
      → gate r order age ≡ none
      → later.market ≡ order.market
      → ((submit r order age).1 ≡ true)
        × (cap_refusal (run (submit r order age).0 calls) later ≡ none)
  unfolding next_exposure next_cluster_exposure
  nan-submit_uncaps r order later age calls n open_gate same =
      let e =
        booked r order age open_gate
          (nan-cap_refusal r order (add_right _ _ n) (add_right _ _ n)) in
      let after = run-IsSpoiled order.market (book r order) calls (nan-book r order n) in
      rw e (
        refl,
        IsSpoiled-cap_refusal (run (book r order) calls) later
            (subst (λ m. IsSpoiled m (run (book r order) calls)) (sym same) after),
      )
