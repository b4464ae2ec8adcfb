-- ===== src/Runtime/Reconcile/Defs.antt =====
-- The polling of an order. What the loop does to the world is a list of effects, in order; what the world
-- answers is a record of functions: the exchange and the clock by the number of the attempt, the store by
-- the record. The regular expression and `strconv.Atoi` that find a status code in an error are one of them.
use polymarket_signal_autopi.Base.{
  ℕ, zero, suc, ◌+◌, Bool, true, false, not, ◌&&◌, ◌||◌, String, Option, none, some, List, [], ◌∷◌,
  ◌++◌, ℤ, pos, negsuc, ◌*ℤ◌, wrap64, leb_ℤ, ltb_ℤ, Time, Duration, nat_beq, millisecond, ◌*◌, leb,
  ◌==◌, text_eq, if◌then◌else◌, Result, ok, err,
}
use polymarket_signal_autopi.Text.{Runes, lower_trimmed, trim_space}
use polymarket_signal_autopi.Text.Decimal.{concat, show_int}
use polymarket_signal_autopi.Strategy.RankShift.Defs.{unix_nano}

pub record OrderRecord : Type 0 where
  pub id : String
  pub signal_id : String
  pub status : String
  pub order_id : String
  pub error_msg : String
  pub created_at : Time

pub data Effect : Type 0 where
  polled : Effect
  counted_reconcile : String → Effect
  counted_order : String → Effect
  alerted : String → String → Effect
  -- a record that the store took, and one that it did not
  saved : OrderRecord → Effect
  not_saved : OrderRecord → Effect
  waited : Duration → Effect

-- What was done, and the error that is returned, if there is one.
abbrev pub Trace : Type 0
Trace = List Effect × Option String

pub record World : Type 0 where
  pub get_order : ℕ → Result String
  pub save_order : OrderRecord → Option String
  -- whether the wait after an attempt came to its end before the context did
  pub waits : ℕ → Bool
  -- by the attempt and the place of the reading in its round
  pub clock : ℕ → ℕ → Time
  pub status_code : String → Option ℕ

pub record ReconcileConfig : Type 0 where
  pub max_attempts : ℤ
  pub base_delay : Duration
  pub max_delay : Duration

-- `ShouldRetryHTTPStatus` of internal/connectors/polymarket/ws_market_client.go
abbrev pub should_retry_http_status : ℕ → Bool
should_retry_http_status code =
    if nat_beq code 425 || nat_beq code 429 then true else leb 500 code && leb code 599

-- `isRetryableOrderStatusError`
unfoldable pub is_retryable_order_status_error : World → String → Bool
is_retryable_order_status_error world message = elim (world.status_code message) [
  | none ↦ false
  | some code ↦ should_retry_http_status code
]

-- `nextReconcileDelay`, with the wrap-around of the doubling.
unfoldable pub next_reconcile_delay : Duration → Duration → Duration
next_reconcile_delay current max_delay =
    let doubled = wrap64 (current *ℤ pos 2) in
    let next = if leb_ℤ doubled (pos 0) then pos (200 * millisecond) else doubled in
    if ltb_ℤ (pos 0) max_delay && ltb_ℤ max_delay next then max_delay else next

abbrev pub emit : List Effect → Trace → Trace
emit effects t = (effects ++ t.0, t.1)

-- `SaveOrder` and, if it succeeds, the count and what follows.
unfoldable pub save_then : World → OrderRecord → String → Trace → Trace
save_then world record_ what rest = elim (world.save_order record_) [
  | some why ↦ (not_saved record_ ∷ [], some (concat (what ∷ why ∷ [])))
  | none ↦ emit (saved record_ ∷ counted_order record_.status ∷ []) rest
]

-- A record of a round. The clock is read twice for it, for the identifier and for the time; `reading` is the
-- place of the first of the two.
abbrev pub reconcile_record : World → ℕ → ℕ → String → String → String → String → OrderRecord
reconcile_record world attempt reading signal_id order_id status error_msg = record {
  id = concat (
      "ord-reconcile-" ∷ signal_id ∷ "-" ∷ show_int (unix_nano (world.clock attempt reading)) ∷ []);
  signal_id = signal_id;
  status = status;
  order_id = order_id;
  error_msg = error_msg;
  created_at = world.clock attempt (reading + 1);
}

-- The wait at the end of a round, and the rounds after it.
unfoldable pub wait_then : World → ℕ → Duration → Trace → Trace
wait_then world attempt delay again =
    if world.waits attempt then emit (waited delay ∷ []) again else (waited delay ∷ [], none)

-- A round in which the exchange gives an error.
unfoldable pub failed_poll : World → String → String → ℕ → Bool → Duration → String → Trace → Trace
unfolding save_then wait_then is_retryable_order_status_error
failed_poll world signal_id order_id attempt last delay why again =
    emit
      (polled
        ∷ counted_reconcile "error"
        ∷ alerted "order_reconcile_error" (
            concat (
              "⚠\u{fe0f} order reconcile failed\norder_id="
              ∷ order_id
              ∷ "\nattempt="
              ∷ show_int (pos (attempt + 1))
              ∷ "\nerror="
              ∷ why
              ∷ []))
        ∷ [])
      (if not (is_retryable_order_status_error world why) || last
        then save_then world
            (reconcile_record world attempt 0 signal_id order_id "reconcile_error" why)
            "persist reconcile error: " ([], none)
        else wait_then world attempt delay again)

module _ ⦃u : Runes⦄ where
  -- `normalizeOrderStatus`
  abbrev pub normalize_order_status : String → String
  normalize_order_status status = lower_trimmed status

  abbrev pub is_terminal_name : String → Bool
  is_terminal_name s =
      s == "filled"
      || s == "cancelled"
      || s == "canceled"
      || s == "expired"
      || s == "failed"
      || s == "matched"

  -- `isTerminalOrderStatus`
  unfoldable pub is_terminal_order_status : String → Bool
  is_terminal_order_status status = is_terminal_name (normalize_order_status status)

  -- The exchange's status, as the loop names it.
  unfoldable pub exchange_status : String → String
  exchange_status raw =
      let status = normalize_order_status raw in if status == "" then "unknown" else status

  -- What follows an answer once its status is on record.
  unfoldable pub settle : World → String → String → ℕ → Bool → Duration → String → Trace → Trace
  unfolding save_then wait_then is_terminal_order_status
  settle world signal_id order_id attempt last delay status again =
      if is_terminal_order_status status
      then ([], none)
      else if last
      then save_then world
          (reconcile_record world attempt 2 signal_id order_id "reconcile_pending"
            "terminal status not reached")
          "persist reconcile pending: "
          (
            alerted "order_reconcile_pending" (
                  concat (
                    "⚠\u{fe0f} order reconcile pending\norder_id=" ∷ order_id ∷ "\nstatus=" ∷ status
                    ∷ []))
                ∷ [],
            none,
          )
      else wait_then world attempt delay again

  -- A round in which the exchange answers.
  unfoldable pub answered_poll :
      World → String → String → ℕ → Bool → Duration → String → String → Trace → Trace
  unfolding save_then settle
  answered_poll world signal_id order_id attempt last delay status seen again =
      let rest = settle world signal_id order_id attempt last delay seen again in
      emit (polled ∷ counted_reconcile seen ∷ []) (
        if seen == status
        then rest
        else save_then world (reconcile_record world attempt 0 signal_id order_id seen "")
            "persist reconcile status: " rest)

  -- The loop of `reconcileOrder`, by the number of attempts left.
  unfoldable pub reconcile_from :
      World → Duration → String → String → ℕ → ℕ → String → Duration → Trace
  unfolding failed_poll answered_poll next_reconcile_delay exchange_status
  reconcile_from world max_delay signal_id order_id zero attempt status delay = ([], none)
  reconcile_from world max_delay signal_id order_id (suc left) attempt status delay =
      let next = next_reconcile_delay delay max_delay in
      let last = nat_beq left 0 in
      elim (world.get_order attempt) [
        | err why ↦
            failed_poll world signal_id order_id attempt last delay why
              (reconcile_from world max_delay signal_id order_id left (attempt + 1) status next)
        | ok raw ↦
            let seen = exchange_status raw in
            answered_poll world signal_id order_id attempt last delay status seen
              (reconcile_from world max_delay signal_id order_id left (attempt + 1) seen next)
      ]

  abbrev pub attempts : ℤ → ℕ
  attempts (pos n) = n
  attempts (negsuc n) = 0

  -- `reconcileOrder`; `reads` tells whether the trader can read an order's status.
  unfoldable pub reconcile_order : World → ReconcileConfig → Bool → String → String → String → Trace
  unfolding reconcile_from is_terminal_order_status
  reconcile_order world cfg reads signal_id order_id current_status =
      if trim_space order_id == "" || not reads
      then ([], none)
      else let status = normalize_order_status current_status in
        if is_terminal_order_status status
        then ([], none)
        else reconcile_from world cfg.max_delay signal_id order_id (attempts cfg.max_attempts) 0
            status cfg.base_delay
