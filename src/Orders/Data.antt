-- ===== src/Orders/Data.antt =====
-- The data of the orders that a builder makes.
use polymarket_signal_autopi.Base.{
  ◌≡◌, ◌≢◌, refl, sym, ap, subst, ◌∙◌, ◌⊎◌, inl, inr, true, false, String, Option, none, some, ℤ,
  pos, ◌<ℤ◌, ◌≤ℤ◌, ltb_ℤ, ◌+ℤ◌, wrap64, text_eq, if◌then◌else◌, Result, ok, err, bind-ok, guard-ok,
  ok_inj, arith,
}
use polymarket_signal_autopi.Double.{Double, lt, nought, one}
use polymarket_signal_autopi.Text.{trim_space}
use polymarket_signal_autopi.Text.Decimal.{show_int}
use polymarket_signal_autopi.Orders.Defs.{
  DynamicOrderBuilder, Crypto, Side, buy, sell, OrderData, is_finite_positive, to_base_units, sided,
  compute_amounts, resolve_price, resolve_nonce, order_data, build_order_data,
}

expiry_on :
    (now e : ℤ)
    → pos 0 <ℤ e
    → (if ltb_ℤ (pos 0) e then wrap64 (now +ℤ e) else pos 0) ≡ wrap64 (now +ℤ e)
expiry_on now e h = let y : ltb_ℤ (pos 0) e ≡ true = ground (arith, h) in rw y refl

expiry_off :
    (now e : ℤ) → e ≤ℤ pos 0 → (if ltb_ℤ (pos 0) e then wrap64 (now +ℤ e) else pos 0) ≡ pos 0
expiry_off now e h = let n : ltb_ℤ (pos 0) e ≡ false = ground (arith, h) in rw n refl

module _ {F : Type 0} (c : Crypto F) ⦃d : Double F⦄ where
  -- A number that is neither NaN nor infinite and is above 0.
  pub record IsAmount (x : F) : Type 0 where
    pub number : d.is_nan x ≡ false
    pub finite : d.is_inf x ≡ false
    pub above : lt nought x ≡ true

  -- The base units of an amount: a millionth each, rounded.
  abbrev pub units_of : F → ℤ
  units_of x = c.to_int64 (c.round (d.mul x (d.lit 1_000_000 1)))

  -- The price of an order, from what is given for it or else from the configuration.
  abbrev pub IsPrice : DynamicOrderBuilder F → Option F → F → Type 0
  IsPrice b override price = (override ≡ some price) ⊎ ((override ≡ none) × (price ≡ b.cfg.price))

  -- The nonce of an order, from the provider or, without one, from the configuration.
  abbrev pub IsNonce : DynamicOrderBuilder F → Option (Result ℤ) → ℤ → Type 0
  IsNonce b answer nonce = (answer ≡ some (ok nonce)) ⊎ ((answer ≡ none) × (nonce ≡ b.cfg.nonce))

  -- Who gives what: a buyer gives the notional for the size, a seller the size for the notional.
  abbrev pub IsTrade : Side → ℤ → ℤ → String → String → Type 0
  IsTrade side notional_units size_units maker_amount taker_amount =
      ((side ≡ buy)
        × (maker_amount ≡ show_int notional_units)
        × (taker_amount ≡ show_int size_units))
      ⊎ ((side ≡ sell)
          × (maker_amount ≡ show_int size_units)
          × (taker_amount ≡ show_int notional_units))

  -- The data of an order, by the builder and by what the order is built from.
  pub record IsOrder (b : DynamicOrderBuilder F) (asset_id : String) (notional : F)
      (override : Option F) (answer : Option (Result ℤ)) (now : ℤ) (data_ : OrderData)
      : Type 0 where
    pub price : F
    pub nonce : ℤ
    pub priced : IsPrice b override price
    pub fair : IsAmount price × (lt price one ≡ true)
    pub counted : IsNonce b answer nonce
    pub nonce_range : pos 0 ≤ℤ nonce
    pub nonced : data_.nonce ≡ show_int nonce
    pub positive : IsAmount notional
    pub sized : IsAmount (d.div notional price)
    pub traded :
        IsTrade b.side
          (units_of notional)
          (units_of (d.div notional price))
          data_.maker_amount
          data_.taker_amount
    pub token : (data_.token_id ≡ trim_space asset_id) × (data_.token_id ≢ "")
    pub sided_ : data_.side ≡ b.side
    pub parties : (data_.maker ≡ b.maker) × (data_.taker ≡ b.taker) × (data_.signer ≡ b.signer)
    pub fee : data_.fee_rate_bps ≡ show_int b.cfg.fee_rate_bps
    pub signed : data_.signature_type ≡ b.cfg.signature_type
    pub expiring :
        pos 0 <ℤ b.cfg.expiration_seconds
        → data_.expiration ≡ show_int (wrap64 (now +ℤ b.cfg.expiration_seconds))
    pub lasting : b.cfg.expiration_seconds ≤ℤ pos 0 → data_.expiration ≡ show_int (pos 0)

  amount_lem : (x : F) → is_finite_positive c x ≡ true → IsAmount x
  amount_lem x h = record {
    number = ground (arith, h);
    finite = ground (arith, h);
    above = ground (arith, h);
  }

  resolve_price-ok :
      (b : DynamicOrderBuilder F) (override : Option F) (price : F)
      → resolve_price c b override ≡ ok price
      → IsPrice b override price × IsAmount price × (lt price one ≡ true)
  unfolding resolve_price
  resolve_price-ok b none price h =
      let (fair, h1) = guard-ok _ _ _ _ h in
      let same = ok_inj h1 in
      subst (λ p. IsPrice b none p × IsAmount p × (lt p one ≡ true)) same
        (inr (refl, refl), amount_lem b.cfg.price (ground (arith, fair)), ground (arith, fair))
  resolve_price-ok b (some q) price h =
      let (fair, h1) = guard-ok _ _ _ _ h in
      let same = ok_inj h1 in
      subst (λ p. IsPrice b (some q) p × IsAmount p × (lt p one ≡ true)) same
        (inl refl, amount_lem q (ground (arith, fair)), ground (arith, fair))

  resolve_nonce-ok :
      (b : DynamicOrderBuilder F) (answer : Option (Result ℤ)) (nonce : ℤ)
      → resolve_nonce c b answer ≡ ok nonce
      → IsNonce b answer nonce × (pos 0 ≤ℤ nonce)
  unfolding resolve_nonce
  resolve_nonce-ok b none nonce h =
      let (enough, h1) = guard-ok _ _ _ _ h in
      subst (λ n. IsNonce b none n × (pos 0 ≤ℤ n)) (ok_inj h1)
        (inr (refl, refl), ground (arith, enough))
  resolve_nonce-ok b (some (err why)) nonce h = absurd (ground (arith, h))
  resolve_nonce-ok b (some (ok n)) nonce h =
      let (enough, h1) = guard-ok _ _ _ _ h in
      subst (λ m. IsNonce b (some (ok n)) m × (pos 0 ≤ℤ m)) (ok_inj h1)
        (inl refl, ground (arith, enough))

  to_base_units-ok : (x : F) (n : ℤ) → to_base_units c x ≡ ok n → n ≡ units_of x
  unfolding to_base_units
  to_base_units-ok x n h =
      let (finite, h1) = guard-ok _ _ _ _ h in
      let (some_units, h2) = guard-ok _ _ _ _ h1 in sym (ok_inj h2)

  compute_amounts-ok :
      (side : Side) (notional price : F) (amounts : ℤ × ℤ)
      → compute_amounts c side notional price ≡ ok amounts
      → IsAmount notional
        × IsAmount (d.div notional price)
        × (amounts ≡ sided c side (units_of notional) (units_of (d.div notional price)))
  unfolding compute_amounts
  compute_amounts-ok side notional price amounts h =
      let (finite, h1) = guard-ok _ _ _ _ h in
      let (sized, h2) = guard-ok _ _ _ _ h1 in
      let (m, given, h3) = bind-ok _ _ _ h2 in
      let (n, taken, h4) = bind-ok _ _ _ h3 in
      let a = to_base_units-ok notional m given in
      let b = to_base_units-ok (d.div notional price) n taken in
      (
        amount_lem notional finite,
        amount_lem (d.div notional price) sized,
        sym (ok_inj h4) ∙ rw (a, b) refl,
      )

  sided-IsTrade :
      (side : Side) (m n : ℤ)
      → IsTrade side m n (show_int (sided c side m n).0) (show_int (sided c side m n).1)
  sided-IsTrade buy m n = inl (refl, refl, refl)
  sided-IsTrade sell m n = inr (refl, refl, refl)

  order_data-IsOrder :
      (b : DynamicOrderBuilder F) (asset_id : String) (notional price : F) (override : Option F)
      (answer : Option (Result ℤ)) (now nonce : ℤ)
      → trim_space asset_id ≢ ""
      → IsPrice b override price × IsAmount price × (lt price one ≡ true)
      → IsNonce b answer nonce × (pos 0 ≤ℤ nonce)
      → IsAmount notional × IsAmount (d.div notional price)
      → IsOrder b asset_id notional override answer now (
          order_data c b
            (trim_space asset_id)
            now
            nonce
            (sided c b.side (units_of notional) (units_of (d.div notional price))))
  order_data-IsOrder b asset_id notional price override answer now nonce named priced counted
        sizes =
      record {
        price = price;
        nonce = nonce;
        priced = priced.0;
        fair = (priced.1, priced.2);
        counted = counted.0;
        nonce_range = counted.1;
        nonced = refl;
        positive = sizes.0;
        sized = sizes.1;
        traded = sided-IsTrade b.side _ _;
        token = (refl, named);
        sided_ = refl;
        parties = (refl, refl, refl);
        fee = refl;
        signed = refl;
        expiring = λ h. ap show_int (expiry_on now b.cfg.expiration_seconds h);
        lasting = λ h. ap show_int (expiry_off now b.cfg.expiration_seconds h);
      }

  -- The data of an order that is built has the trimmed token, which is not blank; the nonce of the provider
  -- or, without one, the configured one, which is not negative; a price between 0 and 1, the given one or
  -- else the configured one; the base units of the notional and of the notional over the price, both finite
  -- and above 0, the notional as what a buyer gives and what a seller takes; and the builder's side, parties,
  -- fee, kind of signature and expiration. So a notional that is NaN, infinite or not positive builds no
  -- order.
  pub build_order_data-IsOrder :
      (b : DynamicOrderBuilder F) (asset_id : String) (notional : F) (override : Option F)
      (answer : Option (Result ℤ)) (now : ℤ) (data_ : OrderData)
      → build_order_data c b asset_id notional override answer now ≡ ok data_
      → IsOrder b asset_id notional override answer now data_
  unfolding build_order_data
  build_order_data-IsOrder b asset_id notional override answer now data_ h =
      let (named, h1) = guard-ok _ _ _ _ h in
      let (above, h2) = guard-ok _ _ _ _ h1 in
      let (price, priced, h3) = bind-ok _ _ _ h2 in
      let (nonce, counted, h4) = bind-ok _ _ _ h3 in
      let (amounts, computed, h5) = bind-ok _ _ _ h4 in
      let (finite, sized, worth) = compute_amounts-ok b.side notional price amounts computed in
      let token = trim_space asset_id in
      let named_ : trim_space asset_id ≢ "" =
        ground (arith, named, text_eq.same_iff (trim_space asset_id) "") in
      subst (IsOrder b asset_id notional override answer now)
        (sym (ap (order_data c b token now nonce) worth) ∙ ok_inj h5)
        (order_data-IsOrder b asset_id notional price override answer now nonce named_
          (resolve_price-ok b override price priced) (resolve_nonce-ok b answer nonce counted)
          (finite, sized))
