-- ===== src/Strategy/RankShift/Flips.antt =====
-- When the strategy signals, and what of it stays true over any updates.
use polymarket_signal_autopi.Base.{
  ◌≡◌, ◌≢◌, ◌⊎◌, refl, inl, inr, true, false, String, some, GoMap, lookup, insert, Option-cases, [],
  ◌∷◌, ◌≤ℤ◌, Time, since, ◌==◌, text_eq, arith, Bool-cases,
}
use polymarket_signal_autopi.Double.{Double, lt, one}
use polymarket_signal_autopi.Text.{trim_space}
use polymarket_signal_autopi.Values.{Value, float, text}
use polymarket_signal_autopi.Strategy.RankShift.Defs.{
  RankShiftConfig, RankShiftStrategy, Signal, signal_metadata, leader_of, flip_signal, cooling,
  on_prices,
}

module _ {F : Type 0} ⦃d : Double F⦄ where
  -- The lead passes from a known leader to the other asset, by at least the configured spread, and no
  -- signal was given within the cooldown.
  pub record Flips (s : RankShiftStrategy F) (price_a price_b : F) (now : Time) : Type 0 where
    pub known : s.leader ≢ ""
    pub passes : s.leader ≢ leader_of s.cfg price_a price_b
    pub wide : lt (d.abs (d.sub price_a price_b)) s.cfg.flip_spread ≡ false
    pub rested : (s.last_signal_at ≡ 0) ⊎ (s.cfg.cooldown ≤ℤ since now s.last_signal_at)

  cooling-rested :
      (s : RankShiftStrategy F) (now : Time)
      → cooling s now ≡ false
      → (s.last_signal_at ≡ 0) ⊎ (s.cfg.cooldown ≤ℤ since now s.last_signal_at)
  unfolding cooling
  cooling-rested s now h = ground arith

  rested-cooling :
      (s : RankShiftStrategy F) (now : Time)
      → (s.last_signal_at ≡ 0) ⊎ (s.cfg.cooldown ≤ℤ since now s.last_signal_at)
      → cooling s now ≡ false
  unfolding cooling
  rested-cooling s now h = ground arith

  pub on_prices_cases :
      (s : RankShiftStrategy F) (price_a price_b : F) (now : Time)
      → let new_leader = leader_of s.cfg price_a price_b in
        let diff = d.abs (d.sub price_a price_b) in
        (Flips s price_a price_b now
          × (on_prices s price_a price_b now ≡ (
            record s { leader = new_leader; last_signal_at = now },
            flip_signal s s.leader new_leader diff now ∷ [],
          )))
        ⊎ ((¬ Flips s price_a price_b now)
            × (on_prices s price_a price_b now ≡ (record s { leader = new_leader }, [])))
  unfolding on_prices
  on_prices_cases s price_a price_b now =
      let new_leader = leader_of s.cfg price_a price_b in
      let diff = d.abs (d.sub price_a price_b) in
      elim (Bool-cases (s.leader == "")) [
        | inl e ↦ inr (λ f. f.known ((text_eq.same_iff _ _).0 e), rw e)
        | inr known ↦ elim (Bool-cases (s.leader == new_leader)) [
          | inl e ↦ inr (λ f. f.passes ((text_eq.same_iff _ _).0 e), rw (known, e))
          | inr passes ↦ elim (Bool-cases (lt diff s.cfg.flip_spread)) [
            | inl e ↦ inr (λ f. ground (arith, f.wide), rw (known, passes, e))
            | inr wide ↦ elim (Bool-cases (cooling s now)) [
              | inl e ↦
                  inr (
                    λ f. ground (arith, rested-cooling s now f.rested),
                    rw (known, passes, wide, e),
                  )
              | inr rested ↦ inl (
                record {
                  known = ground (arith, text_eq.same_iff s.leader "");
                  passes = ground (arith, text_eq.same_iff s.leader new_leader);
                  wide = wide;
                  rested = cooling-rested s now rested;
                },
                rw (known, passes, wide, rested),
              )
            ]
          ]
        ]
      ]

  -- Which asset leads at two prices: the second one if its price is greater, and else the first one.
  pub record IsLeader (cfg : RankShiftConfig F) (price_a price_b : F) (name : String) : Type 0 where
    pub second : lt price_a price_b ≡ true → name ≡ cfg.asset_b
    pub first : lt price_a price_b ≡ false → name ≡ cfg.asset_a

  pub leader_of-IsLeader :
      (cfg : RankShiftConfig F) (price_a price_b : F)
      → IsLeader cfg price_a price_b (leader_of cfg price_a price_b)
  unfolding leader_of
  leader_of-IsLeader cfg price_a price_b = record {
    second = λ h. rw h refl;
    first = λ h. rw h refl;
  }

  -- A signal to buy one asset, since the lead passed from it to another one.
  pub record IsAbout (old new : String) (diff : F) (now : Time) (x : Signal F) : Type 0 where
    pub asset : x.asset_id ≡ old
    pub buys : x.action ≡ "LONG"
    pub at : x.created_at ≡ now
    pub sure : lt one diff ≡ true → x.confidence ≡ one
    pub unsure : lt one diff ≡ false → x.confidence ≡ diff
    pub from : lookup "old_leader" x.metadata ≡ some (text old)
    pub to : lookup "new_leader" x.metadata ≡ some (text new)
    pub spread : lookup "spread" x.metadata ≡ some (float diff)

  abbrev Tells : String → String → F → GoMap String (Value F) → Type 0
  Tells old new diff m =
      (lookup "old_leader" m ≡ some (text old))
      × (lookup "new_leader" m ≡ some (text new))
      × (lookup "spread" m ≡ some (float diff))

  signal_metadata-Tells :
      (s : RankShiftStrategy F) (old new : String) (diff : F)
      → Tells old new diff (signal_metadata s old new diff)
  unfolding signal_metadata lookup insert
  signal_metadata-Tells s old new diff = elim (Option-cases (lookup old s.asset_links)) [
    | inl e ↦ rw (e, signal_metadata) (refl, refl, refl)
    | inr (url, e) ↦ elim (Bool-cases (trim_space url == "")) [
      | inl b ↦ rw (e, signal_metadata) (rw b (refl, refl, refl))
      | inr b ↦ rw (e, signal_metadata) (rw b (refl, refl, refl))
    ]
  ]

  flip_signal-IsAbout :
      (s : RankShiftStrategy F) (old new : String) (diff : F) (now : Time)
      → IsAbout old new diff now (flip_signal s old new diff now)
  unfolding flip_signal
  flip_signal-IsAbout s old new diff now =
      let told = signal_metadata-Tells s old new diff in
      record {
        asset = refl;
        buys = refl;
        at = refl;
        sure = λ h. rw h refl;
        unsure = λ h. rw h refl;
        from = told.0;
        to = told.1;
        spread = told.2;
      }

  -- The lead passes from a known leader to another asset, by at least the configured spread, and no signal
  -- was given within the cooldown.
  pub record IsFlip (s : RankShiftStrategy F) (new : String) (diff : F) (now : Time) : Type 0 where
    pub known : s.leader ≢ ""
    pub passes : s.leader ≢ new
    pub wide : lt diff s.cfg.flip_spread ≡ false
    pub rested : (s.last_signal_at ≡ 0) ⊎ (s.cfg.cooldown ≤ℤ since now s.last_signal_at)

  -- With both prices known, the asset with the greater price, the first one if neither is greater, becomes
  -- the leader. If the lead flips, by the distance of the prices, one signal is given: to buy the asset that
  -- led before, with that distance as its confidence, which is 1 at most, and with both leaders on it; and its
  -- time is noted. If not, none is given, and nothing else changes.
  pub on_prices-IsFlip :
      (s : RankShiftStrategy F) (price_a price_b : F) (now : Time)
      → let diff = d.abs (d.sub price_a price_b) in
        (new : String) × IsLeader s.cfg price_a price_b new
        × ((IsFlip s new diff now
              × ((x : Signal F) × IsAbout s.leader new diff now x
                  × (on_prices s price_a price_b now
                      ≡ (record s { leader = new; last_signal_at = now }, x ∷ []))))
            ⊎ ((¬ IsFlip s new diff now)
                × (on_prices s price_a price_b now ≡ (record s { leader = new }, []))))
  on_prices-IsFlip s price_a price_b now =
      let new = leader_of s.cfg price_a price_b in
      let diff = d.abs (d.sub price_a price_b) in
      (
        new,
        leader_of-IsLeader s.cfg price_a price_b,
        elim (on_prices_cases s price_a price_b now) [
          | inl (f, e) ↦ inl (
            record { known = f.known; passes = f.passes; wide = f.wide; rested = f.rested },
            (flip_signal s s.leader new diff now, flip_signal-IsAbout s s.leader new diff now, e),
          )
          | inr (n, e) ↦ inr (
            λ f.
                n (record { known = f.known; passes = f.passes; wide = f.wide; rested = f.rested }),
            e,
          )
        ],
      )
