-- ===== src/Tests/Telegram.antt =====
-- The sending of a message on concrete replies.
use polymarket_signal_autopi.Base.{
  ℕ, zero, suc, ◌≡◌, ◌↔◌, refl, true, false, [], ◌∷◌, pos, ok, err, text_eq, arith,
}
use polymarket_signal_autopi.Text.{trim_space}
use polymarket_signal_autopi.Telegram.Defs.{
  TelegramMessage, TelegramNotifier, Reply, unsent, undecoded, answered, send, send_from,
}
use polymarket_signal_autopi.Telegram.Sent.{IsSendable, IsSent, send-ok_iff}

abbrev notifier : TelegramNotifier
notifier = record {
  token = "t";
  base_url = "https://api.telegram.org";
  max_retries = pos 3;
  parse_mode = "HTML";
}

abbrev message : TelegramMessage
message = record { chat_id = "1"; text = "hello"; disable_notification = false }

-- Too many requests, an error of the server, then the message's identifier.
abbrev replies : ℕ → Reply
replies zero = answered 429 false (pos 429) "slow down" (pos 0) (pos 2)
replies (suc zero) = undecoded 502 "decode telegram response"
replies (suc (suc n)) = answered 200 true (pos 0) "" (pos 7) (pos 0)

arrives : send notifier replies message ≡ (pos 2_000_000_000 ∷ pos 2_000_000_000 ∷ [], ok (pos 7))
unfolding send send_from trim_space
arrives = refl

-- Without an answer there is no other attempt.
gives_up :
    send notifier (λ n. unsent "execute telegram request") message
    ≡ ([], err "execute telegram request")
unfolding send send_from trim_space
gives_up = refl

send-ok_iff_example :
    ((send notifier replies message).1 ≡ ok (pos 7))
    ↔ (IsSendable notifier message × IsSent replies (pos 3) (pos 7))
send-ok_iff_example = send-ok_iff notifier replies message (pos 7) (ground arith) (ground arith)
