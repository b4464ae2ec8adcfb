-- ===== src/Strategy/RankShift.antt =====
-- internal/strategy/rank_shift.go. The clock is an argument: what `s.Now().UTC()` gives when the strategy
-- asks. `encoding/json` and `strconv` enter as a `Decoder`.
pub mod Defs
pub mod Flips
pub mod Runs
