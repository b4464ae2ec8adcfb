-- ===== src/Tests/Pricing.antt =====
-- Limit prices from a concrete book.
use polymarket_signal_autopi.Base.{◌≡◌, refl, true, [], ◌∷◌, pos, ok}
use polymarket_signal_autopi.Double.Fixed.{Fixed, fixed_double, num, Fixed-IsOrdered}
use polymarket_signal_autopi.Text.{trim_space}
use polymarket_signal_autopi.Text.Ascii.{ascii_runes}
use polymarket_signal_autopi.Pricing.{OrderBook, choose_limit_price}
use polymarket_signal_autopi.Pricing.Bounds.{IsBetween, choose_limit_price-IsBetween}

abbrev book : OrderBook Fixed
book = record {
  token_id = "t";
  bids = record { price = num (pos 400_000); size = num (pos 1) } ∷ [];
  asks = record { price = num (pos 600_000); size = num (pos 1) } ∷ [];
}

abbrev zero : Fixed
zero = num (pos 0)

-- The middle of the book, 1 percent higher.
dynamic :
    choose_limit_price true (ok book) "BUY" (num (pos 300_000)) (num (pos 100_000_000)) zero zero
    ≡ ok (num (pos 505_000), "dynamic")
unfolding choose_limit_price trim_space
dynamic = refl

choose_limit_price-IsBetween_example : IsBetween Fixed-IsOrdered zero zero (num (pos 505_000))
choose_limit_price-IsBetween_example =
    choose_limit_price-IsBetween Fixed-IsOrdered true (ok book) "BUY" (num (pos 300_000))
      (num (pos 100_000_000)) zero zero (num (pos 505_000)) "dynamic" dynamic
