-- ===== src/Execution/LiveRouter/Book.antt =====
-- The router against a book of accepted orders.
use polymarket_signal_autopi.Base.{
  ◌≡◌, refl, ap, sym, subst, inl, inr, Bool, String, List, [], ◌∷◌, read, ◌==◌, text_eq,
  if◌then◌else◌, ◌∙◌, read-insert_update,
}
use polymarket_signal_autopi.Double.{Double, nought}
use polymarket_signal_autopi.Execution.KillSwitch.{KillSwitch}
use polymarket_signal_autopi.Execution.LiveRouter.Defs.{
  LiveOrder, LiveRouter, cluster_of, next_exposure, next_cluster_exposure, book, record_pnl,
}
use polymarket_signal_autopi.Execution.LiveRouter.Cases.{submit_cases, record_pnl_lem}
use polymarket_signal_autopi.Execution.LiveRouter.Steps.{
  Call, submits, records, triggers, resets, step, run, accepted, accepted_now,
}

module _ {F : Type 0} ⦃d : Double F⦄ where
  -- A sum over the orders of a book that a label puts under one name, from a first value on.
  pub tally : (LiveOrder F → String) → String → F → List (LiveOrder F) → F
  tally label name acc [] = acc
  tally label name acc (o ∷ os) =
      tally label name (if label o == name then d.add acc o.notional else acc) os

  -- The keys of a book, the newest first, in front of those that were there.
  pub booked_keys : List String → List (LiveOrder F) → List String
  booked_keys keys [] = keys
  booked_keys keys (o ∷ os) = booked_keys (o.key ∷ keys) os

  -- What a router holds after a book of orders on top of an earlier state.
  pub record Follows (r : LiveRouter F) (orders : List (LiveOrder F)) (q : LiveRouter F)
      : Type 0 where
    pub markets :
        (m : String)
        → read nought m q.exposure ≡ tally (λ o. o.market) m (read nought m r.exposure) orders
    pub clusters :
        (c : String)
        → read nought c q.cluster_exposure
          ≡ tally (λ o. cluster_of r.cfg o.market) c (read nought c r.cluster_exposure) orders
    pub keys : q.seen_keys ≡ booked_keys r.seen_keys orders
    pub same_cfg : q.cfg ≡ r.cfg

  -- Two states that agree on the book and the configuration.
  record SameBook (r q : LiveRouter F) : Type 0 where
    exposure : q.exposure ≡ r.exposure
    cluster_exposure : q.cluster_exposure ≡ r.cluster_exposure
    seen_keys : q.seen_keys ≡ r.seen_keys
    cfg : q.cfg ≡ r.cfg

  unchanged :
      {r : LiveRouter F} (p : F) (k : KillSwitch) → SameBook r (record r { day_pnl = p; kill = k })
  unchanged p k = record { exposure = refl; cluster_exposure = refl; seen_keys = refl; cfg = refl }

  SameBook-Follows :
      (r q s : LiveRouter F) (os : List (LiveOrder F))
      → SameBook r q
      → Follows q os s
      → Follows r os s
  SameBook-Follows r q s os b f = record {
    markets = λ m. rw (← b.exposure) (f.markets m);
    clusters = λ c. rw (← b.cluster_exposure, ← b.cfg) (f.clusters c);
    keys = rw (← b.seen_keys) f.keys;
    same_cfg = f.same_cfg ∙ b.cfg;
  }

  book-Follows :
      (r s : LiveRouter F) (o : LiveOrder F) (os : List (LiveOrder F))
      → Follows (book r o) os s
      → Follows r (o ∷ os) s
  unfolding tally booked_keys book next_exposure next_cluster_exposure
  book-Follows r s o os f = record {
    markets = λ m.
        f.markets m
        ∙ ap (λ e. tally (λ x. x.market) m e os)
            (read-insert_update nought (λ e. d.add e o.notional) o.market m r.exposure);
    clusters = λ c.
        f.clusters c
        ∙ ap (λ e. tally (λ x. cluster_of r.cfg x.market) c e os)
            (read-insert_update nought (λ e. d.add e o.notional) (cluster_of r.cfg o.market) c
              r.cluster_exposure);
    keys = f.keys;
    same_cfg = f.same_cfg;
  }

  -- The claim about the calls after a submission, in terms of its result.
  abbrev After : LiveRouter F → LiveOrder F → List (Call F) → LiveRouter F × Bool × String → Type 0
  After r order cs t =
      Follows r (if t.1 then order ∷ accepted t.0 cs else accepted t.0 cs) (run t.0 cs)

  -- From any state, after any calls: the exposure of each market is the sum of the notionals of the
  -- orders accepted on that market, added in order to what it was before; so is that of each cluster,
  -- over the markets that count against it; the keys seen are those of the accepted orders in front of
  -- those seen before; and the configuration is the same. Refused orders, profits and losses, and the
  -- kill switch leave no trace in the book.
  pub run-Follows-accepted :
      (r : LiveRouter F) (cs : List (Call F)) → Follows r (accepted r cs) (run r cs)
  unfolding accepted accepted_now run step tally booked_keys
  run-Follows-accepted r [] = record {
    markets = λ m. refl;
    clusters = λ c. refl;
    keys = refl;
    same_cfg = refl;
  }
  run-Follows-accepted r (submits order age ∷ cs) = elim (submit_cases r order age) [
    | inl (why, e) ↦ subst (After r order cs) (sym e) (run-Follows-accepted r cs)
    | inr a ↦
        subst (After r order cs) (sym a.result)
          (book-Follows r _ order _ (run-Follows-accepted (book r order) cs))
  ]
  run-Follows-accepted r (records pnl ∷ cs) =
      SameBook-Follows r (record_pnl r pnl) _ _ (rw record_pnl_lem (unchanged _ _))
        (run-Follows-accepted (record_pnl r pnl) cs)
  run-Follows-accepted r (triggers why ∷ cs) =
      SameBook-Follows r (step r (triggers why)) _ _ (unchanged _ _)
        (run-Follows-accepted (step r (triggers why)) cs)
  run-Follows-accepted r (resets ∷ cs) =
      SameBook-Follows r (step r resets) _ _ (unchanged _ _)
        (run-Follows-accepted (step r resets) cs)
