-- ===== src/Runtime/Reconcile/Delays.antt =====
-- The waits between two polls, and their number.
use polymarket_signal_autopi.Base.{
  ℕ, zero, suc, ◌+◌, ◌≤◌, inl, inr, Bool, true, false, not, ◌||◌, String, none, List, [], ◌∷◌, pos,
  ◌≤ℤ◌, ◌<ℤ◌, Duration, All, nat_beq, ◌==◌, text_eq, ok, err, arith, Bool-cases, Option-cases,
}
use polymarket_signal_autopi.Text.{Runes, trim_space}
use polymarket_signal_autopi.Runtime.Reconcile.Defs.{
  OrderRecord, Effect, polled, counted_reconcile, counted_order, alerted, saved, not_saved, waited,
  Trace, World, ReconcileConfig, next_reconcile_delay, is_retryable_order_status_error, save_then,
  reconcile_record, wait_then, failed_poll, is_terminal_order_status, exchange_status, settle,
  answered_poll, reconcile_from, reconcile_order, attempts, normalize_order_status,
}

-- The next delay is positive and not over the greatest one, if that is positive: also where the doubling
-- wraps around.
pub next_reconcile_delay-bounds :
    (current max_delay : Duration)
    → pos 0 <ℤ max_delay
    → (pos 0 <ℤ next_reconcile_delay current max_delay)
      × (next_reconcile_delay current max_delay ≤ℤ max_delay)
unfolding next_reconcile_delay
next_reconcile_delay-bounds current max_delay h = ground arith

-- An effect that is no wait, or a wait that is positive and at most `hi`.
pub IsPaced : Duration → Effect → Type 0
IsPaced hi polled = Unit
IsPaced hi (counted_reconcile s) = Unit
IsPaced hi (counted_order s) = Unit
IsPaced hi (alerted k t) = Unit
IsPaced hi (saved r) = Unit
IsPaced hi (not_saved r) = Unit
IsPaced hi (waited delay) = (pos 0 <ℤ delay) × (delay ≤ℤ hi)

-- How often the exchange is asked.
pub polls : List Effect → ℕ
polls [] = 0
polls (polled ∷ es) = suc (polls es)
polls (counted_reconcile s ∷ es) = polls es
polls (counted_order s ∷ es) = polls es
polls (alerted k t ∷ es) = polls es
polls (saved r ∷ es) = polls es
polls (not_saved r ∷ es) = polls es
polls (waited delay ∷ es) = polls es

-- A trace with paced waits and at most `n` polls.
abbrev Within : Duration → ℕ → Trace → Type 0
Within hi n t = All (IsPaced hi) t.0 × (polls t.0 ≤ n)

Within-save_then :
    (world : World) (hi : Duration) (n : ℕ) (r : OrderRecord) (what : String) (rest : Trace)
    → Within hi n rest
    → Within hi n (save_then world r what rest)
unfolding save_then IsPaced polls
Within-save_then world hi n r what rest h = elim (Option-cases (world.save_order r)) [
  | inl e ↦ rw (e, save_then) ((tt, (tt, h.0)), h.1)
  | inr (why, e) ↦ rw (e, save_then) ((tt, tt), ground arith)
]

Within-wait_then :
    (world : World) (hi : Duration) (n attempt : ℕ) (delay : Duration) (again : Trace)
    → (pos 0 <ℤ delay) × (delay ≤ℤ hi)
    → Within hi n again
    → Within hi n (wait_then world attempt delay again)
unfolding wait_then IsPaced polls
Within-wait_then world hi n attempt delay again d h = elim (Bool-cases (world.waits attempt)) [
  | inl e ↦ rw e ((d, h.0), h.1)
  | inr e ↦ rw e ((d, tt), ground arith)
]

Within-failed_poll :
    (world : World) (hi : Duration) (signal_id order_id : String) (n attempt : ℕ) (last : Bool)
    (delay : Duration) (why : String) (again : Trace)
    → (pos 0 <ℤ delay) × (delay ≤ℤ hi)
    → Within hi n again
    → Within hi (suc n) (failed_poll world signal_id order_id attempt last delay why again)
unfolding failed_poll IsPaced polls
Within-failed_poll world hi signal_id order_id n attempt last delay why again d h =
    elim (Bool-cases (not (is_retryable_order_status_error world why) || last)) [
      | inl e ↦
          let r =
            Within-save_then world hi n
              (reconcile_record world attempt 0 signal_id order_id "reconcile_error" why)
              "persist reconcile error: " ([], none) (tt, ground arith) in
          rw e ((tt, (tt, (tt, r.0))), ground (arith, r.1))
      | inr e ↦
          let r = Within-wait_then world hi n attempt delay again d h in
          rw e ((tt, (tt, (tt, r.0))), ground (arith, r.1))
    ]

module _ ⦃u : Runes⦄ where
  Within-settle :
      (world : World) (hi : Duration) (signal_id order_id : String) (n attempt : ℕ) (last : Bool)
      (delay : Duration) (status : String) (again : Trace)
      → (pos 0 <ℤ delay) × (delay ≤ℤ hi)
      → Within hi n again
      → Within hi n (settle world signal_id order_id attempt last delay status again)
  unfolding settle IsPaced polls
  Within-settle world hi signal_id order_id n attempt last delay status again d h =
      elim (Bool-cases (is_terminal_order_status status)) [
        | inl e ↦ rw e (tt, ground arith)
        | inr e ↦
            elim last
              as (λ l. Within hi n (settle world signal_id order_id attempt l delay status again)) [
                | true ↦ rw e (Within-save_then world hi n _ _ _ ((tt, tt), ground arith))
                | false ↦ rw e (Within-wait_then world hi n attempt delay again d h)
              ]
      ]

  Within-answered_poll :
      (world : World) (hi : Duration) (signal_id order_id : String) (n attempt : ℕ) (last : Bool)
      (delay : Duration) (status seen : String) (again : Trace)
      → (pos 0 <ℤ delay) × (delay ≤ℤ hi)
      → Within hi n again
      → Within hi
          (suc n)
          (answered_poll world signal_id order_id attempt last delay status seen again)
  unfolding answered_poll IsPaced polls
  Within-answered_poll world hi signal_id order_id n attempt last delay status seen again d h =
      let s = Within-settle world hi signal_id order_id n attempt last delay seen again d h in
      elim (Bool-cases (seen == status)) [
        | inl e ↦ rw e ((tt, (tt, s.0)), ground (arith, s.1))
        | inr e ↦
            let r =
              Within-save_then world hi n
                (reconcile_record world attempt 0 signal_id order_id seen "")
                "persist reconcile status: "
                (settle world signal_id order_id attempt last delay seen again) s in
            rw e ((tt, (tt, r.0)), ground (arith, r.1))
      ]

  Within-reconcile_from :
      (world : World) (hi max_delay : Duration) (signal_id order_id : String) (left attempt : ℕ)
      (status : String) (delay : Duration)
      → pos 0 <ℤ max_delay
      → max_delay ≤ℤ hi
      → (pos 0 <ℤ delay) × (delay ≤ℤ hi)
      → Within hi left (reconcile_from world max_delay signal_id order_id left attempt status delay)
  unfolding reconcile_from IsPaced polls
  Within-reconcile_from world hi max_delay signal_id order_id zero attempt status delay m n d =
      (tt, ground arith)
  Within-reconcile_from world hi max_delay signal_id order_id (suc left) attempt status delay m n
        d =
      let next = next_reconcile_delay delay max_delay in
      let next_ok : (pos 0 <ℤ next) × (next ≤ℤ hi) =
        ground (arith, next_reconcile_delay-bounds delay max_delay m) in
      let again = λ (s : String).
        Within-reconcile_from world hi max_delay signal_id order_id left (attempt + 1) s next m n
          next_ok in
      elim (world.get_order attempt)
        as (λ answer. Within hi (suc left) (elim answer [
          | err why ↦
              failed_poll world signal_id order_id attempt (nat_beq left 0) delay why
                (reconcile_from world max_delay signal_id order_id left (attempt + 1) status next)
          | ok raw ↦
              answered_poll world signal_id order_id attempt (nat_beq left 0) delay status
                (exchange_status raw)
                (reconcile_from world max_delay signal_id order_id left (attempt + 1)
                  (exchange_status raw) next)
        ])) [
          | err why ↦
              Within-failed_poll world hi signal_id order_id left attempt (nat_beq left 0) delay why
                _ d (again status)
          | ok raw ↦
              Within-answered_poll world hi signal_id order_id left attempt (nat_beq left 0) delay
                status (exchange_status raw) _ d (again (exchange_status raw))
        ]

  -- Whatever the exchange, the store and the clock do: an order is polled no more often than the
  -- configuration says, and every wait is positive and at most the greater of the two configured delays,
  -- if these are positive.
  pub reconcile_order-Within :
      (world : World) (cfg : ReconcileConfig) (hi : Duration) (reads : Bool)
      (signal_id order_id current_status : String)
      → pos 0 <ℤ cfg.base_delay
      → pos 0 <ℤ cfg.max_delay
      → (cfg.base_delay ≤ℤ hi) × (cfg.max_delay ≤ℤ hi)
      → let t = reconcile_order world cfg reads signal_id order_id current_status in
        All (IsPaced hi) t.0 × (polls t.0 ≤ attempts cfg.max_attempts)
  unfolding reconcile_order polls
  reconcile_order-Within world cfg hi reads signal_id order_id current_status b m (bh, mh) =
      elim (Bool-cases (trim_space order_id == "" || not reads)) [
        | inl e ↦ rw e (tt, ground arith)
        | inr e ↦
            elim (Bool-cases (is_terminal_order_status (normalize_order_status current_status))) [
              | inl f ↦ rw (e, f) (tt, ground arith)
              | inr f ↦
                  rw (e, f)
                    (Within-reconcile_from world hi cfg.max_delay signal_id order_id
                      (attempts cfg.max_attempts) 0 (normalize_order_status current_status)
                      cfg.base_delay m mh (b, bh))
            ]
      ]
