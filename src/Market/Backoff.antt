-- ===== src/Market/Backoff.antt =====
-- The waits between connections, and the number of connections that fail one after another.
use Prim.Native.Nat.pow
use polymarket_signal_autopi.Base.{
  ℕ, zero, suc, ◌+◌, ◌-◌, ◌*◌, ◌^◌, ◌≤◌, ◌<◌, ◌%◌, ◌≡◌, refl, ap, ◌∙◌, true, false, inl, inr, ℤ,
  pos, ◌≤ℤ◌, ◌*ℤ◌, wrap64, wrap64_lem, min, List, [], ◌∷◌, String, some, All, Bool, Bool-cases,
  arith, if◌then◌else◌,
}
use polymarket_signal_autopi.Text.Decimal.{concat, show_int}
use polymarket_signal_autopi.Market.Stream.{
  Round, StreamEffect, dialed, subscribed, reported, delivered, slept, report_then, sleep_then,
  exhausted, stream, WsReconnectPolicy, next_backoff,
}

mul_pos : (a b : ℕ) → pos a *ℤ pos b ≡ pos (a * b)
mul_pos a b = ground arith

wrapped : (a : ℕ) → a < 2 ^ 63 → wrap64 (pos a) ≡ pos a
wrapped a h = wrap64_lem (pos a) (h, ground arith)

pow_le : (base w : ℕ) → 1 ≤ base → w ≤ base * w
pow_le zero w h = absurd (ground (arith, h))
pow_le (suc base) w h = ground arith

pow-mod : (k : ℕ) → 2 ^ (k + 64) % 2 ^ 64 ≡ 0
pow-mod zero = refl
pow-mod (suc k) =
    let next : suc k + 64 ≡ suc (k + 64) = ground arith in
    let step : 2 ^ (suc k + 64) ≡ 2 ^ (k + 64) * 2 = ap (λ m. 2 ^ m) next ∙ pow.suc 2 (k + 64) in
    let ih = pow-mod k in rw step (ground (arith, ih))

-- While the product of the base delay and the power of two fits 63 bits, the wait is that product, or
-- the greatest delay if that is less.
pub next_backoff-exponential :
    (policy : WsReconnectPolicy) (base top n : ℕ)
    → policy.base_delay ≡ pos base
    → policy.max_delay ≡ pos top
    → 1 ≤ base
    → base * 2 ^ n < 2 ^ 63
    → next_backoff (pos n) policy ≡ pos (min top (base * 2 ^ n))
unfolding next_backoff
next_backoff-exponential policy base top n eb et h fits =
    let small = wrapped (2 ^ n) (ground (arith, pow_le base (2 ^ n) h)) in
    let product = wrapped (base * 2 ^ n) fits in rw (eb, et, small, mul_pos, product) (ground arith)

pub next_backoff_upper :
    (attempt : ℤ) (policy : WsReconnectPolicy) → next_backoff attempt policy ≤ℤ policy.max_delay
unfolding next_backoff
next_backoff_upper attempt policy = ground arith

pub next_backoff-nought :
    (policy : WsReconnectPolicy) (n : ℕ)
    → pos 0 ≤ℤ policy.max_delay
    → 64 ≤ n
    → next_backoff (pos n) policy ≡ pos 0
unfolding next_backoff
next_backoff-nought policy n h big =
    let same : n - 64 + 64 ≡ n = ground arith in
    let gone : wrap64 (pos (2 ^ n)) ≡ pos 0 =
      ground (arith, pow-mod (n - 64), ap (λ m. 2 ^ m) same) in
    rw gone (ground arith)

-- How often the exchange is dialed.
pub dials : List StreamEffect → ℕ
dials [] = 0
dials (dialed ∷ es) = suc (dials es)
dials (subscribed ∷ es) = dials es
dials (reported why ∷ es) = dials es
dials (delivered u ∷ es) = dials es
dials (slept t ∷ es) = dials es

abbrev pub IsUnreachable : Round → Type 0
IsUnreachable r = (why : String) × (r.dial ≡ some why)

dials-report_then :
    (r : Round) (message : String) (rest : List StreamEffect)
    → dials (report_then r message rest) ≤ dials rest
unfolding dials
dials-report_then r message rest =
    elim r.emits as (λ b. dials (if b then reported message ∷ rest else []) ≤ dials rest) [
      | true ↦ ground arith
      | false ↦ ground arith
    ]

dials-sleep_then :
    (r : Round) (attempt : ℤ) (policy : WsReconnectPolicy) (rest : List StreamEffect)
    → dials (sleep_then r attempt policy rest) ≤ dials rest
unfolding dials
dials-sleep_then r attempt policy rest =
    elim r.wakes as (λ b. dials (if b then rest else []) ≤ dials rest) [
      | true ↦ ground arith
      | false ↦ ground arith
    ]

-- What follows a failed dial dials no more than what is left allows.
dials-exhausted :
    (policy : WsReconnectPolicy) (limit attempt : ℕ) (done again : List StreamEffect)
    → policy.max_attempts ≡ pos limit
    → attempt < limit
    → dials done ≡ 0
    → (suc attempt < limit → suc attempt + dials again ≤ limit)
    → suc attempt + dials (if exhausted policy (suc attempt) then done else again) ≤ limit
dials-exhausted policy limit attempt done again e h z ih =
    elim (Bool-cases (exhausted policy (suc attempt))) [
      | inl used ↦ rw used (ground (arith, z, h))
      | inr left ↦ rw left (ih (ground (arith, left, e, h)))
    ]

last-dials : (b : Bool) (message : String) → dials (if b then reported message ∷ [] else []) ≡ 0
unfolding dials
last-dials true message = refl
last-dials false message = refl

-- Where attempts are limited and no connection comes about, the exchange is dialed at most that often.
pub dials-stream :
    (policy : WsReconnectPolicy) (assets limit : ℕ) (rounds : List Round) (attempt : ℕ)
    → policy.max_attempts ≡ pos limit
    → attempt < limit
    → All IsUnreachable rounds
    → attempt + dials (stream policy assets rounds attempt) ≤ limit
unfolding dials stream
dials-stream policy assets limit [] attempt e h u = ground arith
dials-stream policy assets limit (r ∷ rounds) attempt e h ((why, q), u) =
    let message : String =
      concat ("market ws reconnect exceeded max attempts: " ∷ show_int policy.max_attempts ∷ []) in
    let done : List StreamEffect = if r.emits then reported message ∷ [] else [] in
    let rest : List StreamEffect =
      if exhausted policy (suc attempt) then done else stream policy assets rounds (suc attempt) in
    let bound =
      dials-exhausted policy limit attempt done (stream policy assets rounds (suc attempt)) e h
        (last-dials r.emits message)
        (λ less. dials-stream policy assets limit rounds (suc attempt) e less u) in
    elim (Bool-cases r.over) [
      | inl over ↦ rw over (ground arith)
      | inr alive ↦
          rw (alive, q)
            (ground (
              arith,
              bound,
              dials-report_then r (concat ("dial market ws: " ∷ why ∷ []))
                  (sleep_then r (pos attempt) policy rest),
              dials-sleep_then r (pos attempt) policy rest,
            ))
    ]
