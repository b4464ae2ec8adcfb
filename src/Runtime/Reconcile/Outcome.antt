-- ===== src/Runtime/Reconcile/Outcome.antt =====
-- The status that an order ends with.
use polymarket_signal_autopi.Base.{
  ℕ, zero, suc, ◌+◌, ◌≡◌, refl, sym, subst, inl, inr, Bool, true, false, not, ◌||◌, String, Option,
  none, some, List, [], ◌∷◌, pos, Duration, nat_beq, ◌==◌, text_eq, if◌then◌else◌, ok, err, arith,
  Bool-cases,
}
use polymarket_signal_autopi.Text.{Runes, trim_space}
use polymarket_signal_autopi.Runtime.Reconcile.Defs.{
  OrderRecord, Effect, polled, counted_reconcile, counted_order, alerted, saved, not_saved, waited,
  Trace, World, ReconcileConfig, next_reconcile_delay, is_retryable_order_status_error, emit,
  save_then, reconcile_record, wait_then, failed_poll, is_terminal_order_status, exchange_status,
  settle, answered_poll, reconcile_from, reconcile_order, normalize_order_status,
}

-- The status of the last record that the store took.
pub last_saved : List Effect → Option String
last_saved [] = none
last_saved (e ∷ es) = elim (last_saved es) [
  | some s ↦ some s
  | none ↦ elim e [
    | saved r ↦ some r.status
    | not_saved r ↦ none
    | polled ↦ none
    | counted_reconcile s ↦ none
    | counted_order s ↦ none
    | alerted k t ↦ none
    | waited delay ↦ none
  ]
]

module _ ⦃u : Runes⦄ where
  -- What the answers of the exchange come to: the first terminal status, an error that is not worth
  -- another attempt or is the last answer, or the end of the attempts.
  pub conclusion : World → ℕ → ℕ → String
  conclusion world zero attempt = ""
  conclusion world (suc left) attempt =
      let later = conclusion world left (attempt + 1) in
      elim (world.get_order attempt) [
        | err why ↦
            if not (is_retryable_order_status_error world why) || nat_beq left 0
            then "reconcile_error"
            else later
        | ok raw ↦
            if is_terminal_order_status (exchange_status raw)
            then exchange_status raw
            else if nat_beq left 0
            then "reconcile_pending"
            else later
      ]

  -- A trace without an error whose last record has the status.
  abbrev EndsWith : String → Trace → Type 0
  EndsWith status t = (t.1 ≡ none) × (last_saved t.0 ≡ some status)

  -- The store takes every record and no wait is cut short.
  module _ (world : World) (stores : (r : OrderRecord) → world.save_order r ≡ none)
      (patient : (n : ℕ) → world.waits n ≡ true) (max_delay : Duration)
      (signal_id order_id : String) where
    save_then-stored :
        (r : OrderRecord) (what : String) (rest : Trace)
        → save_then world r what rest ≡ emit (saved r ∷ counted_order r.status ∷ []) rest
    unfolding save_then
    save_then-stored r what rest = rw (stores r, save_then)

    wait_then-patient :
        (attempt : ℕ) (delay : Duration) (again : Trace)
        → wait_then world attempt delay again ≡ emit (waited delay ∷ []) again
    unfolding wait_then
    wait_then-patient attempt delay again = rw (patient attempt, wait_then)

    failed_poll-EndsWith :
        (attempt : ℕ) (last : Bool) (delay : Duration) (why s : String) (again : Trace)
        → (last ≡ false → EndsWith s again)
        → EndsWith
            (if not (is_retryable_order_status_error world why) || last
              then "reconcile_error"
              else s)
            (failed_poll world signal_id order_id attempt last delay why again)
    unfolding failed_poll last_saved
    failed_poll-EndsWith attempt last delay why s again h =
        elim (Bool-cases (not (is_retryable_order_status_error world why) || last)) [
          | inl e ↦ rw (e, save_then-stored) (refl, refl)
          | inr e ↦ let (a, b) = h (ground arith) in rw (e, wait_then-patient) (a, rw b)
        ]

    settle-EndsWith :
        (attempt : ℕ) (last : Bool) (delay : Duration) (seen s : String) (again : Trace)
        → is_terminal_order_status seen ≡ false
        → (last ≡ false → EndsWith s again)
        → EndsWith
            (if last then "reconcile_pending" else s)
            (settle world signal_id order_id attempt last delay seen again)
    unfolding settle last_saved
    settle-EndsWith attempt true delay seen s again f h = rw (f, save_then-stored) (refl, refl)
    settle-EndsWith attempt false delay seen s again f h =
        let (a, b) = h refl in rw (f, wait_then-patient) (a, rw b)

    -- A status that is put on record if it is new, and then the rest.
    abbrev recorded : String → String → OrderRecord → String → Trace → Trace
    recorded status seen r what rest = if seen == status then rest else save_then world r what rest

    recorded-EndsWith :
        (status seen s what : String) (r : OrderRecord) (rest : Trace)
        → EndsWith s rest
        → EndsWith s (recorded status seen r what rest)
    unfolding last_saved
    recorded-EndsWith status seen s what r rest (a, b) = elim (Bool-cases (seen == status)) [
      | inl same ↦ rw same (a, b)
      | inr moved ↦ rw (moved, save_then-stored) (a, rw b)
    ]

    recorded-last :
        (status seen what : String) (r : OrderRecord)
        → (seen == status) ≡ false
        → EndsWith r.status (recorded status seen r what ([], none))
    unfolding last_saved
    recorded-last status seen what r moved = rw (moved, save_then-stored) (refl, refl)

    settle-terminal :
        (attempt : ℕ) (last : Bool) (delay : Duration) (seen : String) (again : Trace)
        → is_terminal_order_status seen ≡ true
        → settle world signal_id order_id attempt last delay seen again ≡ ([], none)
    unfolding settle
    settle-terminal attempt last delay seen again e = rw e

    emit-EndsWith :
        (seen s : String) (t : Trace)
        → EndsWith s t
        → EndsWith s (emit (polled ∷ counted_reconcile seen ∷ []) t)
    unfolding last_saved
    emit-EndsWith seen s t (a, b) = (a, rw b)

    answered_poll-EndsWith :
        (attempt : ℕ) (last : Bool) (delay : Duration) (status seen s : String) (again : Trace)
        → is_terminal_order_status status ≡ false
        → (is_terminal_order_status seen ≡ false → last ≡ false → EndsWith s again)
        → EndsWith
            (if is_terminal_order_status seen
              then seen
              else if last
              then "reconcile_pending"
              else s)
            (answered_poll world signal_id order_id attempt last delay status seen again)
    unfolding answered_poll
    answered_poll-EndsWith attempt last delay status seen s again f h =
        let r = reconcile_record world attempt 0 signal_id order_id seen "" in
        let what : String = "persist reconcile status: " in
        let rest = settle world signal_id order_id attempt last delay seen again in
        elim (Bool-cases (is_terminal_order_status seen)) [
          | inl e ↦
              let moved : (seen == status) ≡ false = ground (arith, text_eq.same_iff seen status) in
              subst
                (λ b.
                  EndsWith (if b then seen else if last then "reconcile_pending" else s) (
                    emit (polled ∷ counted_reconcile seen ∷ []) (recorded status seen r what rest)))
                (sym e)
                (emit-EndsWith seen seen (recorded status seen r what rest) (
                  subst (λ t. EndsWith seen (recorded status seen r what t))
                    (sym (settle-terminal attempt last delay seen again e))
                    (recorded-last status seen what r moved)))
          | inr e ↦
              let end : String = if last then "reconcile_pending" else s in
              subst
                (λ b.
                  EndsWith (if b then seen else end) (
                    emit (polled ∷ counted_reconcile seen ∷ []) (recorded status seen r what rest)))
                (sym e)
                (emit-EndsWith seen end (recorded status seen r what rest) (
                  recorded-EndsWith status seen end what r rest
                    (settle-EndsWith attempt last delay seen s again e (h e))))
        ]

    reconcile_from-EndsWith :
        (left attempt : ℕ) (status : String) (delay : Duration)
        → is_terminal_order_status status ≡ false
        → nat_beq left 0 ≡ false
        → EndsWith
            (conclusion world left attempt)
            (reconcile_from world max_delay signal_id order_id left attempt status delay)
    unfolding reconcile_from conclusion
    reconcile_from-EndsWith zero attempt status delay f more = absurd (ground arith)
    reconcile_from-EndsWith (suc left) attempt status delay f more =
        let next = next_reconcile_delay delay max_delay in
        let last = nat_beq left 0 in
        let later = conclusion world left (attempt + 1) in
        let from = λ (st : String).
          reconcile_from world max_delay signal_id order_id left (attempt + 1) st next in
        elim (world.get_order attempt)
          as (λ answer.
            EndsWith
              (elim answer [
                | err why ↦
                    if not (is_retryable_order_status_error world why) || last
                    then "reconcile_error"
                    else later
                | ok raw ↦
                    if is_terminal_order_status (exchange_status raw)
                    then exchange_status raw
                    else if last
                    then "reconcile_pending"
                    else later
              ])
              (elim answer [
                | err why ↦
                    failed_poll world signal_id order_id attempt last delay why (from status)
                | ok raw ↦
                    answered_poll world signal_id order_id attempt last delay status
                      (exchange_status raw) (from (exchange_status raw))
              ])) [
                | err why ↦
                    failed_poll-EndsWith attempt last delay why later (from status)
                      (λ m. reconcile_from-EndsWith left (attempt + 1) status next f m)
                | ok raw ↦
                    let seen = exchange_status raw in
                    answered_poll-EndsWith attempt last delay status seen later (from seen) f
                      (λ g m. reconcile_from-EndsWith left (attempt + 1) seen next g m)
              ]

    -- If the store takes every record and no wait is cut short, the reconciliation of an order that is
    -- not terminal yet, with at least one attempt, ends without an error, and the last status on record
    -- is the conclusion of the exchange's answers.
    pub reconcile_order-conclusion :
        (base_delay : Duration) (n : ℕ) (current_status : String)
        → (trim_space order_id == "") ≡ false
        → is_terminal_order_status (normalize_order_status current_status) ≡ false
        → let cfg : ReconcileConfig = record {
          max_attempts = pos (suc n);
          base_delay = base_delay;
          max_delay = max_delay;
        } in
          let t = reconcile_order world cfg true signal_id order_id current_status in
          (t.1 ≡ none) × (last_saved t.0 ≡ some (conclusion world (suc n) 0))
    unfolding reconcile_order
    reconcile_order-conclusion base_delay n current_status known open_ =
        rw (known, open_)
          (reconcile_from-EndsWith (suc n) 0 (normalize_order_status current_status) base_delay
            open_ (ground arith))
