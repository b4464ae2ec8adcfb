-- ===== src/Telegram/Defs.antt =====
-- internal/notify/telegram.go: a notifier, one request of it, and the sending of a message with its retries.
-- What the client and the JSON decoder make of a request is a function of the attempt, a `Reply`.
use polymarket_signal_autopi.Base.{
  ℕ, zero, suc, ◌+◌, Bool, ◌&&◌, ◌||◌, String, List, [], ◌∷◌, ℤ, pos, negsuc, ◌+ℤ◌, ◌*ℤ◌, wrap64,
  Duration, second, nat_beq, leb, ltb, ◌==◌, text_eq, if◌then◌else◌, Result, ok, err, pos_part,
}
use polymarket_signal_autopi.Text.{trim_space}
use polymarket_signal_autopi.Text.Decimal.{concat, show_int}

pub record TelegramMessage : Type 0 where
  pub chat_id : String
  pub text : String
  pub disable_notification : Bool

pub record TelegramNotifier : Type 0 where
  pub token : String
  pub base_url : String
  pub max_retries : ℤ
  pub parse_mode : String

-- What comes of a request: no answer, an answer that cannot be read or decoded, with its status, or an
-- answer with its status and what its envelope holds.
pub data Reply : Type 0 where
  unsent : String → Reply
  undecoded : ℕ → String → Reply
  answered : ℕ → Bool → ℤ → String → ℤ → ℤ → Reply

-- What `sendOnce` returns: the message's identifier, or the status of the answer (0 where there is none),
-- the seconds after which Telegram asks to try again, and the error.
pub data SendResult : Type 0 where
  delivered : ℤ → SendResult
  refused : ℕ → ℕ → String → SendResult

-- `sendOnce`, from the reply on
abbrev pub send_once : Reply → SendResult
send_once (unsent why) = refused 0 0 why
send_once (undecoded status why) = refused status 0 why
send_once (answered status fine code description message_id retry_after) =
    if leb 200 status && ltb status 300 && fine
    then delivered message_id
    else refused status (pos_part retry_after) (
        concat (
          "telegram send failed: status="
          ∷ show_int (pos status)
          ∷ " code="
          ∷ show_int code
          ∷ " desc="
          ∷ description
          ∷ []))

-- The waits of a call, and its result.
abbrev pub Sending : Type 0
Sending = List Duration × Result ℤ

-- Whether another attempt follows an answer with a status, and the wait before it.
abbrev is_too_many : ℕ → Bool
is_too_many status = nat_beq status 429

abbrev pub is_retryable : ℕ → Bool
is_retryable status = is_too_many status || leb 500 status

abbrev wait_before : ℕ → ℕ → ℕ → Duration
wait_before attempt retry_after status =
    if is_too_many status
    then wrap64 (pos retry_after *ℤ pos second)
    else wrap64 (pos (attempt + 1) *ℤ pos second)

abbrev waiting : Duration → Sending → Sending
waiting d s = (d ∷ s.0, s.1)

-- What follows the result of an attempt: of the last one, and of another one, which the rest of the loop
-- follows.
abbrev pub finish : SendResult → Sending
finish (delivered id) = ([], ok id)
finish (refused status retry_after why) = ([], err why)

abbrev pub retry : ℕ → SendResult → Sending → Sending
retry attempt (delivered id) again = ([], ok id)
retry attempt (refused status retry_after why) again =
    if is_retryable status
    then waiting (wait_before attempt retry_after status) again
    else ([], err why)

-- The loop of `Send`, by the number of attempts that are left besides this one.
unfoldable pub send_from : (ℕ → Reply) → ℕ → ℕ → Sending
send_from replies attempt zero = finish (send_once (replies attempt))
send_from replies attempt (suc rest) =
    retry attempt (send_once (replies attempt)) (send_from replies (attempt + 1) rest)

-- The attempts besides the first, by the number of attempts, which is 1 where it is not positive.
abbrev pub after_first : ℤ → ℕ
after_first (pos zero) = 0
after_first (pos (suc n)) = n
after_first (negsuc n) = 0

abbrev pub retries : TelegramNotifier → ℕ
retries n = after_first (wrap64 (n.max_retries +ℤ pos 1))

-- `Send`
unfoldable pub send : TelegramNotifier → (ℕ → Reply) → TelegramMessage → Sending
send n replies message =
    if trim_space n.token == ""
    then ([], err "telegram bot token is required")
    else if trim_space message.chat_id == ""
    then ([], err "telegram chat id is required")
    else if trim_space message.text == ""
    then ([], err "telegram message text is required")
    else send_from replies 0 (retries n)
