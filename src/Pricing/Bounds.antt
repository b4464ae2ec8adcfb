-- ===== src/Pricing/Bounds.antt =====
-- The bounds of a chosen price.
use polymarket_signal_autopi.Base.{
  ◌≡◌, ◌↔◌, refl, ◌⊎◌, inl, inr, Bool, true, false, String, text_eq, Result, ok, err, arith,
  Option-cases, Result-cases,
}
use polymarket_signal_autopi.Double.{Double, IsOrdered}
use polymarket_signal_autopi.Text.{Runes}
use polymarket_signal_autopi.Pricing.{
  OrderBook, is_finite_probability, or_default, clamp_between, clamp_probability_price, mid_price,
  offset_price, select_from_book, select_limit_price, choose_limit_price,
}

module _ {F : Type 0} ⦃d : Double F⦄ (laws : IsOrdered F) where
  open laws use {le_trans, le_total, lit_finite, lit_strict, le_not_nan}

  -- The bounds in force, and a price between them that is a probability.
  pub record IsBetween (min_price max_price price : F) : Type 0 where
    pub above : d.le (or_default min_price (d.lit 1 100)) price ≡ true
    pub below : d.le price (or_default max_price (d.lit 99 100)) ≡ true
    pub probability : is_finite_probability price ≡ true

  hundredths :
      (is_finite_probability (d.lit 1 100) ≡ true) × (is_finite_probability (d.lit 99 100) ≡ true)
  hundredths = ground (
    arith,
    lit_finite 1 99,
    lit_finite 99 99,
    lit_strict 0 1 99,
    lit_strict 1 100 99,
    lit_strict 99 100 99,
    lit_strict 0 99 99,
    laws.lit_whole 0 99,
    laws.lit_whole 1 99,
    laws.lit_mono 0 1 99,
    laws.lit_mono 1 100 99,
    laws.lit_mono 99 100 99,
    laws.lit_mono 0 99 99,
  )

  or_default-probability :
      (bound default : F)
      → is_finite_probability default ≡ true
      → is_finite_probability (or_default bound default) ≡ true
  or_default-probability bound default h = ground arith

  clamp-IsBetween :
      (price min_price max_price x : F)
      → clamp_probability_price price min_price max_price ≡ ok x
      → IsBetween min_price max_price x
  unfolding clamp_probability_price clamp_between
  clamp-IsBetween price min_price max_price x e =
      let lo = or_default min_price (d.lit 1 100) in
      let hi = or_default max_price (d.lit 99 100) in
      let lo_ok = or_default-probability min_price (d.lit 1 100) hundredths.0 in
      let hi_ok = or_default-probability max_price (d.lit 99 100) hundredths.1 in
      record {
        above = ground (arith, le_total lo price, le_total lo lo, le_total lo hi);
        below = ground (arith, le_total price hi, le_total hi hi, le_total lo hi);
        probability = ground arith;
      }

  -- The price from the book: the fallback, or a clamped price.
  select_from_book_cases :
      ⦃u : Runes⦄ (book : OrderBook F) (side : String) (safe offset_bps min_price max_price : F)
      → let r = select_from_book book side safe offset_bps min_price max_price in
        (r ≡ (safe, "fallback"))
        ⊎ ((price : F) × (clamp_probability_price price min_price max_price ≡ ok r.0))
  unfolding select_from_book
  select_from_book_cases book side safe offset_bps lo hi = elim (Option-cases (mid_price book)) [
    | inl e ↦ inl (rw (e, select_from_book))
    | inr (mid, e) ↦
        let price = offset_price side offset_bps mid in
        elim (Result-cases (clamp_probability_price price lo hi)) [
          | inl (why, f) ↦ inl (rw (e, select_from_book) (rw f))
          | inr (x, f) ↦ inr (price, rw (e, select_from_book) (rw f refl))
        ]
  ]

  -- Whatever is chosen went through the clamp, and nothing is chosen only if the fallback fails there.
  abbrev Choice : F → F → F → Result (F × String) → Type 0
  Choice fallback min_price max_price r =
      ((why : String) × (r ≡ err why)
        × (clamp_probability_price fallback min_price max_price ≡ err why))
      ⊎ ((x : F) × (mode : String) × (price : F) × (safe : F) × (r ≡ ok (x, mode))
          × (clamp_probability_price price min_price max_price ≡ ok x)
          × (clamp_probability_price fallback min_price max_price ≡ ok safe))

  chosen :
      ⦃u : Runes⦄ (dynamic_enabled : Bool) (book : Result (OrderBook F)) (side : String)
      (fallback offset_bps min_price max_price safe : F)
      → clamp_probability_price fallback min_price max_price ≡ ok safe
      → Choice fallback min_price max_price
          (choose_limit_price dynamic_enabled book side fallback offset_bps min_price max_price)
  unfolding choose_limit_price select_limit_price
  chosen false b side fallback bps lo hi safe f =
      inr (safe, "static", fallback, safe, ground (arith, f), f, f)
  chosen true (err why) side fallback bps lo hi safe f =
      inr (safe, "fallback", fallback, safe, ground (arith, f), f, f)
  chosen true (ok b) side fallback bps lo hi safe f =
      let r = select_from_book b side safe bps lo hi in
      elim (select_from_book_cases b side safe bps lo hi) [
        | inl e ↦ inr (safe, "fallback", fallback, safe, ground (arith, f, e), f, f)
        | inr (price, g) ↦ inr (r.0, r.1, price, safe, ground (arith, f), g, f)
      ]

  choose_limit_price_cases :
      ⦃u : Runes⦄ (dynamic_enabled : Bool) (book : Result (OrderBook F)) (side : String)
      (fallback offset_bps min_price max_price : F)
      → Choice fallback min_price max_price
          (choose_limit_price dynamic_enabled book side fallback offset_bps min_price max_price)
  unfolding choose_limit_price select_limit_price
  choose_limit_price_cases on book side fallback bps lo hi =
      elim (Result-cases (clamp_probability_price fallback lo hi)) [
        | inl (why, f) ↦ inl (why, ground (arith, f), f)
        | inr (safe, f) ↦ chosen on book side fallback bps lo hi safe f
      ]

  -- What `chooseLimitPrice` returns is a probability between the bounds in force, wherever it comes
  -- from: the configuration, the fallback or the book.
  pub choose_limit_price-IsBetween :
      ⦃u : Runes⦄ (dynamic_enabled : Bool) (book : Result (OrderBook F)) (side : String)
      (fallback offset_bps min_price max_price x : F) (mode : String)
      → choose_limit_price dynamic_enabled book side fallback offset_bps min_price max_price
        ≡ ok (x, mode)
      → IsBetween min_price max_price x
  choose_limit_price-IsBetween dynamic_enabled book side fallback offset_bps lo hi x mode e =
      elim (choose_limit_price_cases dynamic_enabled book side fallback offset_bps lo hi) [
        | inl (why, r, f) ↦ absurd (ground arith)
        | inr (y, mode', price, safe, r, f, g) ↦ clamp-IsBetween price lo hi x (ground arith)
      ]

  -- The price is refused exactly if the fallback is: a book never makes an error of an order that the
  -- static price would allow.
  pub choose_limit_price-err_iff :
      ⦃u : Runes⦄ (dynamic_enabled : Bool) (book : Result (OrderBook F)) (side : String)
      (fallback offset_bps min_price max_price : F) (why : String)
      → (choose_limit_price dynamic_enabled book side fallback offset_bps min_price max_price
          ≡ err why)
        ↔ (clamp_probability_price fallback min_price max_price ≡ err why)
  choose_limit_price-err_iff dynamic_enabled book side fallback offset_bps lo hi why =
      elim (choose_limit_price_cases dynamic_enabled book side fallback offset_bps lo hi) [
        | inl (why', r, f) ↦ (λ e. ground arith, λ e. ground arith)
        | inr (y, mode', price, safe, r, f, g) ↦ (λ e. ground arith, λ e. ground arith)
      ]
