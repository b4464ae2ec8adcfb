-- ===== src/Tests/Reconcile.antt =====
-- The reconciliation of an order that is open at first and then filled.
use polymarket_signal_autopi.Base.{
  ℕ, ◌≡◌, ◌≤◌, refl, true, String, none, some, pos, All, nat_beq, if◌then◌else◌, Result, ok, err,
  arith, text_eq,
}
use polymarket_signal_autopi.Text.{trim_space, lower_trimmed, to_lower}
use polymarket_signal_autopi.Text.Ascii.{ascii_runes}
use polymarket_signal_autopi.Runtime.Reconcile.Defs.{
  World, ReconcileConfig, reconcile_order, is_terminal_order_status,
}
use polymarket_signal_autopi.Runtime.Reconcile.Delays.{IsPaced, polls, reconcile_order-Within}
use polymarket_signal_autopi.Runtime.Reconcile.Outcome.{
  last_saved, conclusion, reconcile_order-conclusion,
}

abbrev answer : ℕ → Result String
answer n = if nat_beq n 0 then err "status" else if nat_beq n 1 then ok "Live" else ok "FILLED"

abbrev world : World
world = record {
  get_order = answer;
  save_order = λ r. none;
  waits = λ n. true;
  clock = λ n i. 62_135_596_800_000_000_001;
  status_code = λ s. some 503;
}

abbrev config : ReconcileConfig
config = record {
  max_attempts = pos 3;
  base_delay = pos 300_000_000;
  max_delay = pos 2_000_000_000;
}

reconcile_order-Within_example :
    let t = reconcile_order world config true "s" "o" "live" in
    All (IsPaced (pos 2_000_000_000)) t.0 × (polls t.0 ≤ 3)
reconcile_order-Within_example =
    reconcile_order-Within world config (pos 2_000_000_000) true "s" "o" "live" (ground arith)
      (ground arith) (ground arith, ground arith)

reconcile_order-conclusion_example :
    let t = reconcile_order world config true "s" "o" "live" in
    (t.1 ≡ none) × (last_saved t.0 ≡ some (conclusion world 3 0))
unfolding trim_space is_terminal_order_status lower_trimmed to_lower
reconcile_order-conclusion_example =
    reconcile_order-conclusion world (λ r. refl) (λ n. refl) (pos 2_000_000_000) "s" "o"
      (pos 300_000_000) 2 "live" refl refl
