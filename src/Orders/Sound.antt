-- ===== src/Orders/Sound.antt =====
-- What holds of a builder once it is made, and of the orders that it makes.
use polymarket_signal_autopi.Base.{
  ◌≡◌, subst, ◌⊎◌, true, false, ◌&&◌, ◌||◌, String, ℤ, pos, ◌<ℤ◌, ◌≤ℤ◌, leb_ℤ, ◌==◌, text_eq,
  if◌then◌else◌, ok, bind-ok, guard-ok, ok_inj, arith,
}
use polymarket_signal_autopi.Double.{Double}
use polymarket_signal_autopi.Text.{Runes}
use polymarket_signal_autopi.Orders.Defs.{
  DynamicOrderConfig, DynamicOrderBuilder, Crypto, Side, buy, sell, normalize_dynamic_side,
  normalize_order_type, is_valid_probability_price, new_dynamic_order_builder,
}

normalize_dynamic_side-ok :
    ⦃u : Runes⦄
    → (raw label : String) (side : Side) → normalize_dynamic_side raw ≡ ok (label, side)
    → ((label ≡ "BUY") × (side ≡ buy)) ⊎ ((label ≡ "SELL") × (side ≡ sell))
unfolding normalize_dynamic_side
normalize_dynamic_side-ok raw label side h =
    ground (arith, text_eq.same_iff label "BUY", text_eq.same_iff label "SELL")

normalize_order_type-ok :
    ⦃u : Runes⦄
    → (raw order_type : String) → normalize_order_type raw ≡ ok order_type
    → (order_type == "GTC" || order_type == "FOK" || order_type == "GTD" || order_type == "FAK")
      ≡ true
unfolding normalize_order_type
normalize_order_type-ok raw order_type h = ground (arith, h)

expires_lem :
    (e : ℤ)
    → leb_ℤ (pos 0) (if leb_ℤ e (pos 0) && leb_ℤ (pos 0) e then pos 600 else e) ≡ true
    → pos 0 <ℤ (if leb_ℤ e (pos 0) && leb_ℤ (pos 0) e then pos 600 else e)
expires_lem e h = ground (arith, h)

module _ {F : Type 0} (c : Crypto F) ⦃d : Double F⦄ where
  -- The state of a builder: all that its orders need.
  pub record IsReady (b : DynamicOrderBuilder F) : Type 0 where
    pub has_owner : b.cfg.owner == "" ≡ false
    pub fair_price : is_valid_probability_price c b.cfg.price ≡ true
    pub has_nonce : b.cfg.has_nonce_provider || leb_ℤ (pos 0) b.cfg.nonce ≡ true
    pub same_side :
        ((b.cfg.side ≡ "BUY") × (b.side ≡ buy)) ⊎ ((b.cfg.side ≡ "SELL") × (b.side ≡ sell))
    pub known_type :
        (b.cfg.order_type == "GTC"
          || b.cfg.order_type == "FOK"
          || b.cfg.order_type == "GTD"
          || b.cfg.order_type == "FAK")
        ≡ true
    pub signature_range : (pos 0 ≤ℤ b.cfg.signature_type) × (b.cfg.signature_type ≤ℤ pos 2)
    pub expires : pos 0 <ℤ b.cfg.expiration_seconds

  -- A builder that `NewDynamicOrderBuilder` returns has an owner, a price between 0 and 1, a provider of
  -- nonces or a nonce that is not negative, a side whose label agrees with it, one of the four types of
  -- orders, a signature type from 0 to 2, and orders that expire.
  pub new_dynamic_order_builder-IsReady :
      ⦃u : Runes⦄
      → (cfg : DynamicOrderConfig F) (b : DynamicOrderBuilder F)
      → new_dynamic_order_builder c cfg ≡ ok b
      → IsReady b
  unfolding new_dynamic_order_builder
  new_dynamic_order_builder-IsReady cfg b h =
      let (owned, h1) = guard-ok _ _ _ _ h in
      let (signer, signed, h2) = bind-ok _ _ _ h1 in
      let (same, h3) = guard-ok _ _ _ _ h2 in
      let (fair, h4) = guard-ok _ _ _ _ h3 in
      let (nonced, h5) = guard-ok _ _ _ _ h4 in
      let (side, sided_, h6) = bind-ok _ _ _ h5 in
      let (order_type, typed, h7) = bind-ok _ _ _ h6 in
      let (ranged, h8) = guard-ok _ _ _ _ h7 in
      let (later, h9) = guard-ok _ _ _ _ h8 in
      subst IsReady (ok_inj h9) (record {
        has_owner = ground (arith, owned);
        fair_price = fair;
        has_nonce = nonced;
        same_side = normalize_dynamic_side-ok cfg.side side.0 side.1 sided_;
        known_type = normalize_order_type-ok cfg.order_type order_type typed;
        signature_range = (ground (arith, ranged), ground (arith, ranged));
        expires = expires_lem cfg.expiration_seconds later;
      })
