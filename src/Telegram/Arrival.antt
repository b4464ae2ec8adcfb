-- ===== src/Telegram/Arrival.antt =====
-- The attempts of a message, and the one with which it arrives.
use polymarket_signal_autopi.Base.{
  ℕ, zero, suc, ◌+◌, ◌≤◌, ◌<◌, ◌≡◌, ◌⊎◌, ◌↔◌, ◌≢◌, refl, sym, subst, ◌∙◌, length, inl, inr, Bool,
  true, false, String, [], ℤ, Bool-cases, ◌==◌, text_eq, if◌then◌else◌, ok, err, ok_inj, arith,
}
use polymarket_signal_autopi.Telegram.Defs.{
  Reply, SendResult, delivered, refused, send_once, Sending, is_retryable, finish, retry, send_from,
}

le_or_lt : (a b : ℕ) → (a ≤ b) ⊎ (b < a)
le_or_lt a b = ground arith

-- Another attempt follows the result of one.
abbrev pub passes : SendResult → Bool
passes (delivered id) = false
passes (refused status retry_after why) = is_retryable status

finish-ok : (r : SendResult) (id : ℤ) → (finish r).1 ≡ ok id → r ≡ delivered id
finish-ok (delivered i) id h = rw (ok_inj h) refl
finish-ok (refused status retry_after why) id h = absurd (ground (arith, h))

retry-passes :
    (n : ℕ) (r : SendResult) (again : Sending) → passes r ≡ true → (retry n r again).1 ≡ again.1
retry-passes n (delivered i) again h = absurd (ground (arith, h))
retry-passes n (refused status retry_after why) again h = rw h refl

retry_stops :
    (n status retry_after : ℕ) (why : String) (again : Sending)
    → is_retryable status ≡ false
    → (retry n (refused status retry_after why) again).1 ≡ err why
retry_stops n status retry_after why again h = rw h refl

retry-ok :
    (n : ℕ) (r : SendResult) (again : Sending) (id : ℤ)
    → (retry n r again).1 ≡ ok id
    → (r ≡ delivered id) ⊎ ((passes r ≡ true) × (again.1 ≡ ok id))
retry-ok n (delivered i) again id h = inl (rw (ok_inj h) refl)
retry-ok n (refused status retry_after why) again id h = elim (Bool-cases (is_retryable status)) [
  | inl y ↦ inr (y, sym (retry-passes n (refused status retry_after why) again y) ∙ h)
  | inr y ↦ absurd (ground (arith, sym (retry_stops n status retry_after why again y) ∙ h))
]

-- The first attempt that delivers, from one attempt on and up to another one.
pub record Arrival (replies : ℕ → Reply) (from last : ℕ) (id : ℤ) : Type 0 where
  pub attempt : ℕ
  pub not_before : from ≤ attempt
  pub not_after : attempt ≤ last
  pub passed : (i : ℕ) → from ≤ i → i < attempt → passes (send_once (replies i)) ≡ true
  pub arrived : send_once (replies attempt) ≡ delivered id

earlier :
    (replies : ℕ → Reply) (from left : ℕ) (id : ℤ)
    → passes (send_once (replies from)) ≡ true
    → Arrival replies (from + 1) (from + 1 + left) id
    → Arrival replies from (from + suc left) id
earlier replies from left id y a = record {
  attempt = a.attempt;
  not_before = ground (arith, a.not_before);
  not_after = ground (arith, a.not_after);
  passed = λ i low high. elim (le_or_lt i from) [
    | inl le ↦ let same : i ≡ from = ground arith in rw same y
    | inr lt ↦ a.passed i (ground arith) high
  ];
  arrived = a.arrived;
}

later_on :
    (replies : ℕ → Reply) (from left : ℕ) (id : ℤ) (a : Arrival replies from (from + suc left) id)
    → from < a.attempt
    → Arrival replies (from + 1) (from + 1 + left) id
later_on replies from left id a h = record {
  attempt = a.attempt;
  not_before = ground arith;
  not_after = ground (arith, a.not_after);
  passed = λ i low high. a.passed i (ground arith) high;
  arrived = a.arrived;
}

send_from-ok :
    (replies : ℕ → Reply) (from left : ℕ) (id : ℤ)
    → (send_from replies from left).1 ≡ ok id
    → Arrival replies from (from + left) id
unfolding send_from
send_from-ok replies from zero id h = record {
  attempt = from;
  not_before = ground arith;
  not_after = ground arith;
  passed = λ i a b. absurd (ground (arith, a, b));
  arrived = finish-ok (send_once (replies from)) id h;
}
send_from-ok replies from (suc left) id h =
    elim (retry-ok from (send_once (replies from)) (send_from replies (from + 1) left) id h) [
      | inl now ↦ record {
        attempt = from;
        not_before = ground arith;
        not_after = ground arith;
        passed = λ i a b. absurd (ground (arith, a, b));
        arrived = now;
      }
      | inr (y, later) ↦
          earlier replies from left id y (send_from-ok replies (from + 1) left id later)
    ]

moved :
    (replies : ℕ → Reply) (from k : ℕ) (id : ℤ)
    → k ≡ from
    → send_once (replies k) ≡ delivered id
    → send_once (replies from) ≡ delivered id
moved replies from k id same h = subst (λ m. send_once (replies m) ≡ delivered id) same h

send_from-Arrival :
    (replies : ℕ → Reply) (from left : ℕ) (id : ℤ)
    → Arrival replies from (from + left) id
    → (send_from replies from left).1 ≡ ok id
unfolding send_from
send_from-Arrival replies from zero id a =
    let same : a.attempt ≡ from = ground (arith, a.not_before, a.not_after) in
    rw (moved replies from a.attempt id same a.arrived) refl
send_from-Arrival replies from (suc left) id a = elim (le_or_lt a.attempt from) [
  | inl le ↦
      let same : a.attempt ≡ from = ground (arith, a.not_before) in
      rw (moved replies from a.attempt id same a.arrived) refl
  | inr lt ↦
      retry-passes from (send_once (replies from)) (send_from replies (from + 1) left)
        (a.passed from (ground arith) lt)
      ∙ send_from-Arrival replies (from + 1) left id (later_on replies from left id a lt)
]

-- A call never waits more often than there are attempts besides the first, whatever comes of them.
finish_waits : (r : SendResult) → length (finish r).0 ≡ 0
finish_waits (delivered id) = refl
finish_waits (refused status retry_after why) = refl

retry_waits :
    (n : ℕ) (r : SendResult) (again : Sending) → length (retry n r again).0 ≤ suc (length again.0)
retry_waits n (delivered id) again = ground arith
retry_waits n (refused status retry_after why) again = elim (Bool-cases (is_retryable status)) [
  | inl y ↦ rw y (ground arith)
  | inr y ↦ rw y (ground arith)
]

pub send_from_waits :
    (replies : ℕ → Reply) (from left : ℕ) → length (send_from replies from left).0 ≤ left
unfolding send_from
send_from_waits replies from zero = ground (arith, finish_waits (send_once (replies from)))
send_from_waits replies from (suc left) =
    let ih = send_from_waits replies (from + 1) left in
    let r = send_once (replies from) in
    ground (arith, ih, retry_waits from r (send_from replies (from + 1) left))

pub refusing_iff :
    (c : Bool) (why : String) (s : Sending) (id : ℤ)
    → ((if c then ([], err why) else s).1 ≡ ok id) ↔ ((c ≡ false) × (s.1 ≡ ok id))
refusing_iff true why s id = (λ h. absurd (ground (arith, h)), λ h. absurd (ground (arith, h.0)))
refusing_iff false why s id = (λ h. (refl, h), λ h. h.1)

pub unblank : (t : String) → ((t == "") ≡ false) ↔ (t ≢ "")
unblank t = ground (arith, text_eq.same_iff t "")

pub start_iff :
    (replies : ℕ → Reply) (left : ℕ) (id : ℤ)
    → ((send_from replies 0 left).1 ≡ ok id) ↔ Arrival replies 0 left id
start_iff replies left id =
    let sum : 0 + left ≡ left = ground arith in
    (
      λ h. subst (λ m. Arrival replies 0 m id) sum (send_from-ok replies 0 left id h),
      λ a. send_from-Arrival replies 0 left id (subst (λ m. Arrival replies 0 m id) (sym sum) a),
    )
