-- ===== src/Telegram/Sent.antt =====
-- When a message is sent, by the replies and the number of retries.
use polymarket_signal_autopi.Base.{
  ℕ, zero, suc, ◌≤◌, ◌<◌, ◌≡◌, ◌⊎◌, ◌↔◌, ◌≢◌, inl, inr, true, ◌&&◌, ℤ, pos, negsuc, ◌+ℤ◌, ◌≤ℤ◌,
  ◌<ℤ◌, IsInt64, wrap64, leb, ltb, Bool-cases, ◌==◌, text_eq, ok, arith,
}
use polymarket_signal_autopi.Text.{trim_space}
use polymarket_signal_autopi.Telegram.Defs.{
  TelegramMessage, TelegramNotifier, Reply, unsent, undecoded, answered, delivered, send_once,
  Sending, send_from, after_first, retries, send,
}
use polymarket_signal_autopi.Telegram.Arrival.{passes, Arrival, refusing_iff, unblank, start_iff}

-- What a reply is for the rules of the retries: a delivery with an identifier, or one of the answers after
-- which Telegram is asked again.
pub IsDelivery : Reply → ℤ → Type 0
IsDelivery (unsent why) id = ⊥
IsDelivery (undecoded status why) id = ⊥
IsDelivery (answered status fine code description message_id retry_after) id =
    (200 ≤ status) × (status < 300) × (fine ≡ true) × (message_id ≡ id)

pub IsRetried : Reply → Type 0
IsRetried (unsent why) = ⊥
IsRetried (undecoded status why) = (status ≡ 429) ⊎ (500 ≤ status)
IsRetried (answered status fine code description message_id retry_after) =
    (status ≡ 429) ⊎ (500 ≤ status)

IsDelivery-iff : (reply : Reply) (id : ℤ) → (send_once reply ≡ delivered id) ↔ IsDelivery reply id
unfolding IsDelivery
IsDelivery-iff (unsent why) id = ground arith
IsDelivery-iff (undecoded status why) id = ground arith
IsDelivery-iff (answered status fine code description message_id retry_after) id =
    elim (Bool-cases (leb 200 status && ltb status 300 && fine)) [
      | inl y ↦ rw y (ground (arith, y))
      | inr n ↦ rw n (ground (arith, n))
    ]

IsRetried-iff : (reply : Reply) → (passes (send_once reply) ≡ true) ↔ IsRetried reply
unfolding IsRetried
IsRetried-iff (unsent why) = ground arith
IsRetried-iff (undecoded status why) = ground arith
IsRetried-iff (answered status fine code description message_id retry_after) =
    elim (Bool-cases (leb 200 status && ltb status 300 && fine)) [
      | inl y ↦ rw y (ground (arith, y))
      | inr n ↦ rw n (ground (arith, n))
    ]

-- An attempt that delivers, among the first and the retries that are allowed, and all before it retried.
pub record IsSent (replies : ℕ → Reply) (max_retries : ℤ) (id : ℤ) : Type 0 where
  pub attempt : ℕ
  pub allowed : (attempt ≡ 0) ⊎ (pos attempt ≤ℤ max_retries)
  pub retried : (i : ℕ) → i < attempt → IsRetried (replies i)
  pub delivery : IsDelivery (replies attempt) id

allowed_iff :
    (m : ℤ) (k : ℕ)
    → m <ℤ pos 9_223_372_036_854_775_807
    → IsInt64 m
    → (k ≤ after_first (wrap64 (m +ℤ pos 1))) ↔ ((k ≡ 0) ⊎ (pos k ≤ℤ m))
allowed_iff (pos m) k h b =
    let sum : wrap64 (pos m +ℤ pos 1) ≡ pos (suc m) = ground arith in rw sum (ground arith)
allowed_iff (negsuc zero) k h b = ground arith
allowed_iff (negsuc (suc m)) k h b =
    let sum : wrap64 (negsuc (suc m) +ℤ pos 1) ≡ negsuc m = ground arith in rw sum (ground arith)

retries_iff :
    (n : TelegramNotifier) (k : ℕ)
    → n.max_retries <ℤ pos 9_223_372_036_854_775_807
    → IsInt64 n.max_retries
    → (k ≤ retries n) ↔ ((k ≡ 0) ⊎ (pos k ≤ℤ n.max_retries))
retries_iff n k h b = allowed_iff n.max_retries k h b

-- A notifier and a message that can be sent.
abbrev pub IsSendable : TelegramNotifier → TelegramMessage → Type 0
IsSendable n message =
    (trim_space n.token ≢ "") × (trim_space message.chat_id ≢ "") × (trim_space message.text ≢ "")

sends_iff :
    (n : TelegramNotifier) (replies : ℕ → Reply) (message : TelegramMessage) (id : ℤ)
    → ((send n replies message).1 ≡ ok id)
      ↔ (IsSendable n message × Arrival replies 0 (retries n) id)
unfolding send
sends_iff n replies message id =
    let rest : Sending = send_from replies 0 (retries n) in
    let no_text =
      refusing_iff (trim_space message.text == "") "telegram message text is required" rest id in
    let no_chat =
      refusing_iff (trim_space message.chat_id == "") "telegram chat id is required" _ id in
    let no_token = refusing_iff (trim_space n.token == "") "telegram bot token is required" _ id in
    (
      λ h.
          let a = no_token.0 h in
          let b = no_chat.0 a.1 in
          let c = no_text.0 b.1 in
          (
            ((unblank _).0 a.0, (unblank _).0 b.0, (unblank _).0 c.0),
            (start_iff replies (retries n) id).0 c.1,
          ),
      λ h.
          let arrives = (start_iff replies (retries n) id).1 h.1 in
          let c = no_text.1 ((unblank _).1 h.0.2, arrives) in
          let b = no_chat.1 ((unblank _).1 h.0.1, c) in no_token.1 ((unblank _).1 h.0.0, b),
    )

Arrival-IsSent :
    (n : TelegramNotifier) (replies : ℕ → Reply) (id : ℤ)
    → n.max_retries <ℤ pos 9_223_372_036_854_775_807
    → IsInt64 n.max_retries
    → Arrival replies 0 (retries n) id ↔ IsSent replies n.max_retries id
Arrival-IsSent n replies id h b = (
  λ a. record {
    attempt = a.attempt;
    allowed = (retries_iff n a.attempt h b).0 a.not_after;
    retried = λ i low. (IsRetried-iff (replies i)).0 (a.passed i (ground arith) low);
    delivery = (IsDelivery-iff (replies a.attempt) id).0 a.arrived;
  },
  λ s. record {
    attempt = s.attempt;
    not_before = ground arith;
    not_after = (retries_iff n s.attempt h b).1 s.allowed;
    passed = λ i low high. (IsRetried-iff (replies i)).1 (s.retried i high);
    arrived = (IsDelivery-iff (replies s.attempt) id).1 s.delivery;
  },
)

-- For a number of retries that is an `int` and not the greatest one: a message is sent, with an identifier,
-- exactly if its token, its chat and its text are not blank, and the first attempt or one of the
-- `MaxRetries` further ones is answered with a status from 200 to 299, by an envelope that is marked as fine
-- and has that identifier, while each attempt before is answered with the status 429 or one from 500 on.
pub send-ok_iff :
    (n : TelegramNotifier) (replies : ℕ → Reply) (message : TelegramMessage) (id : ℤ)
    → n.max_retries <ℤ pos 9_223_372_036_854_775_807
    → IsInt64 n.max_retries
    → ((send n replies message).1 ≡ ok id)
      ↔ (IsSendable n message × IsSent replies n.max_retries id)
send-ok_iff n replies message id h b =
    let sends = sends_iff n replies message id in
    let arrives = Arrival-IsSent n replies id h b in
    (λ s. ((sends.0 s).0, arrives.0 (sends.0 s).1), λ p. sends.1 (p.0, arrives.1 p.1))
