-- ===== src/Tests/Worker.antt =====
-- The worker's environment, nonces and orders on concrete inputs.
use polymarket_signal_autopi.Base.{
  ◌≡◌, refl, true, false, none, List, [], map, ◌∷◌, pos, elem, ◌==◌, text_eq, if◌then◌else◌, ok,
  arith, lookup, read, ◌>>=◌, ◌>>◌, guard,
}
use polymarket_signal_autopi.Double.Fixed.{Fixed, fixed_double, num}
use polymarket_signal_autopi.Text.{is_blank, trim_space, join, lacks, to_upper, has_prefix}
use polymarket_signal_autopi.Text.Ascii.{ascii_runes}
use polymarket_signal_autopi.Execution.LiveRouter.Steps.{triggers, resets, run, step}
use polymarket_signal_autopi.Execution.KillSwitch.{trigger, reset}
use polymarket_signal_autopi.Execution.LiveRouter.Defs.{
  LiveOrder, new_live_router, submit, gate, cap_refusal, order_refusal, loss_exceeded,
  country_refused, next_exposure, next_cluster_exposure, cluster_of, over_cluster_cap,
}
use polymarket_signal_autopi.Worker.Env.{
  Env, Strconv, parse_asset_ids, as_set, parse_float, parse_duration, kept_parts,
}
use polymarket_signal_autopi.Worker.Assets.{
  Piece, gap, entry, text_of, ids_of, IsPiece, parse_asset_ids-join,
}
use polymarket_signal_autopi.Worker.Nonce.{
  DbAtomicNonceProvider, missing, allocations, nonces_from, allocations-missing,
}
use polymarket_signal_autopi.Worker.Wiring.{live_config, live_config-unguarded, live_config-accepts}
use polymarket_signal_autopi.Orders.Defs.{
  DynamicOrderConfig, DynamicOrderBuilder, Crypto, new_dynamic_order_builder, build_order_data,
  order_data, buy, parse_signer, normalize_dynamic_side, normalize_order_type, resolve_price,
  resolve_nonce, compute_amounts, to_base_units,
}
use polymarket_signal_autopi.Orders.Sound.{IsReady, new_dynamic_order_builder-IsReady}
use polymarket_signal_autopi.Orders.Data.{IsOrder, build_order_data-IsOrder}

abbrev pieces : List Piece
pieces = gap " " ∷ entry "" "b2" " " ∷ []

parse_asset_ids-join_example :
    let read = parse_asset_ids (join "," (map text_of (entry " " "a1" "" ∷ pieces))) in
    (read ≡ ids_of (entry " " "a1" "" ∷ pieces))
    × (as_set read ≡ ids_of (entry " " "a1" "" ∷ pieces))
unfolding is_blank lacks trim_space IsPiece text_of
parse_asset_ids-join_example =
    parse_asset_ids-join (entry " " "a1" "") pieces
      ((refl, refl, refl, refl), (refl, ((refl, refl, refl, refl), tt))) (refl, (refl, (refl, tt)))

abbrev provider : DbAtomicNonceProvider
provider = record { key = "nonce:0x1"; seed = pos 5 }

abbrev other_provider : DbAtomicNonceProvider
other_provider = record { key = "nonce:0x1"; seed = pos 9 }

allocations-missing_example :
    allocations missing (provider ∷ other_provider ∷ provider ∷ [])
    ≡ nonces_from 5 (provider ∷ other_provider ∷ provider ∷ [])
unfolding trim_space
allocations-missing_example =
    allocations-missing provider (other_provider ∷ provider ∷ []) 5 refl
      (
        (refl, ground arith, ground arith),
        ((refl, ground arith, ground arith), ((refl, ground arith, ground arith), tt)),
      )
      (ground arith)

abbrev conv : Strconv Fixed
conv = record {
  parse_bool = λ s. none;
  parse_float = λ s. none;
  parse_int = λ s. none;
  atoi = λ s. none;
  parse_duration = λ s. none;
  query_escape = λ s. s;
  quote = λ s. s;
}

abbrev blank : Env
blank key = " "

abbrev country : Env
country key = if key == "EXEC_COUNTRY" then "FR" else ""

abbrev order : LiveOrder Fixed
order = record { key = "k"; market = "a1"; country = "FR"; notional = num (pos 10_000_000) }

live_config-unguarded_example : country_refused (live_config conv blank ("a1" ∷ [])) order ≡ false
unfolding trim_space
live_config-unguarded_example = live_config-unguarded conv blank ("a1" ∷ []) order refl refl

live_config-accepts_example :
    (order.country ≡ country "EXEC_COUNTRY") × (elem order.market (as_set ("a1" ∷ [])) ≡ true)
unfolding trim_space run step trigger reset new_live_router submit gate cap_refusal order_refusal
    loss_exceeded country_refused next_exposure next_cluster_exposure cluster_of over_cluster_cap
    live_config as_set kept_parts parse_float parse_duration lookup read
live_config-accepts_example =
    live_config-accepts conv country ("a1" ∷ []) (triggers "halt" ∷ resets ∷ []) order (pos 0) refl
      refl refl

abbrev crypto : Crypto Fixed
crypto = record {
  address_of = λ key. ok "0xAB";
  round = λ x. x;
  to_int64 = λ x. pos 7;
  fixed_8 = λ x. "";
}

abbrev order_config : DynamicOrderConfig Fixed
order_config = record {
  private_key_hex = "0x12";
  owner = "me";
  maker_address = "";
  signer_address = "";
  taker_address = "";
  price = num (pos 500_000);
  side = "buy";
  order_type = "";
  defer_exec = false;
  fee_rate_bps = pos 0;
  nonce = pos 3;
  has_nonce_provider = false;
  signature_type = pos 0;
  expiration_seconds = pos 0;
  chain_id = pos 0;
  neg_risk = false;
}

abbrev ready : DynamicOrderBuilder Fixed
ready = record {
  cfg = record order_config {
    side = "BUY";
    order_type = "GTC";
    expiration_seconds = pos 600;
    chain_id = pos 137;
  };
  signer = "0xAB";
  maker = "0xAB";
  taker = "0x0000000000000000000000000000000000000000";
  side = buy;
}

new_dynamic_order_builder-IsReady_example : IsReady crypto ready
unfolding new_dynamic_order_builder parse_signer normalize_dynamic_side normalize_order_type
    trim_space to_upper has_prefix ◌>>=◌ ◌>>◌ guard
new_dynamic_order_builder-IsReady_example =
    new_dynamic_order_builder-IsReady crypto order_config ready refl

build_order_data-IsOrder_example :
    IsOrder crypto ready "a1"
      (num (pos 10_000_000))
      none
      none
      (pos 100)
      (order_data crypto ready "a1" (pos 100) (pos 3) (pos 7, pos 7))
unfolding build_order_data resolve_price resolve_nonce compute_amounts to_base_units trim_space
    ◌>>=◌ ◌>>◌ guard
build_order_data-IsOrder_example =
    build_order_data-IsOrder crypto ready "a1" (num (pos 10_000_000)) none none (pos 100)
      (order_data crypto ready "a1" (pos 100) (pos 3) (pos 7, pos 7)) refl
