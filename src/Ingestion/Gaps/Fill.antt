-- ===== src/Ingestion/Gaps/Fill.antt =====
-- The end of the loop that fills a gap.
use polymarket_signal_autopi.Base.{
  ℕ, zero, suc, ◌+◌, ◌^◌, ◌<◌, ◌≡◌, refl, true, none, some, List, [], ◌∷◌, ℤ, pos, leb_ℤ, wrap64,
  ◌+ℤ◌, IsInt64, wrap64-IsInt64, Time, number_eq, arith,
}
use polymarket_signal_autopi.Ingestion.RawWriter.{RawEvent}
use polymarket_signal_autopi.Ingestion.Gaps.{backfilled, fill_from}

-- The greatest `int64`.
abbrev pub max_int64 : ℤ
max_int64 = pos 9_223_372_036_854_775_807

-- The loop over a gap that ends at the greatest `int64` does not end, wherever it begins: no fuel is
-- enough.
pub fill_from-diverges :
    (fuel : ℕ) (ts : Time) (seq : ℤ) → IsInt64 seq → fill_from fuel ts seq max_int64 ≡ none
unfolding fill_from
fill_from-diverges zero ts seq h = refl
fill_from-diverges (suc fuel) ts seq h =
    let next = wrap64 (seq +ℤ pos 1) in
    let below : leb_ℤ seq max_int64 ≡ true = ground arith in
    rw (below, fill_from) (rw (fill_from-diverges fuel ts next (wrap64-IsInt64 _)))

-- The events for the numbers from one on, `count` of them.
pub events_from : Time → ℕ → ℕ → List RawEvent
events_from ts n zero = []
events_from ts n (suc count) = backfilled ts (pos n) ∷ events_from ts (suc n) count

-- The loop over a gap of positive numbers below the greatest `int64` ends within as many rounds as the
-- gap has numbers, and one more, and gives one event for each number, in their order.
pub fill_from-total :
    (fuel : ℕ) (ts : Time) (n count : ℕ)
    → count < fuel
    → n + count + 1 < 2 ^ 63
    → fill_from fuel ts (pos (suc n)) (pos (n + count)) ≡ some (events_from ts (suc n) count)
unfolding fill_from events_from
fill_from-total zero ts n count h b = absurd (omega arith)
fill_from-total (suc fuel) ts n zero h b = ground arith
fill_from-total (suc fuel) ts n (suc count) h b =
    let next : wrap64 (pos (suc n) +ℤ pos 1) ≡ pos (suc (suc n)) = ground arith in
    let last : n + suc count ≡ suc n + count = omega arith in
    ground (arith, next, last, fill_from-total fuel ts (suc n) count)
