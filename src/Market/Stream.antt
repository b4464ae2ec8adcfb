-- ===== src/Market/Stream.antt =====
-- The reconnecting loop of `Stream`. What the world answers in a round of it is a record; what the loop
-- does is a list of effects, in order.
use polymarket_signal_autopi.Base.{
  ℕ, suc, ◌*◌, ◌^◌, Bool, ◌&&◌, String, Option, none, some, List, [], ◌∷◌, ◌++◌, ℤ, pos, negsuc,
  ◌*ℤ◌, wrap64, ltb_ℤ, leb_ℤ, Duration, second, millisecond, map, leb, if◌then◌else◌,
}
use polymarket_signal_autopi.Text.Decimal.{concat, show_int}
use polymarket_signal_autopi.Strategy.RankShift.Defs.{MarketUpdate}

pub record WsReconnectPolicy : Type 0 where
  pub base_delay : Duration
  pub max_delay : Duration
  pub max_attempts : ℤ

-- `DefaultReconnectPolicy`
abbrev pub default_reconnect_policy : WsReconnectPolicy
default_reconnect_policy = record {
  base_delay = pos (250 * millisecond);
  max_delay = pos (5 * second);
  max_attempts = pos 0;
}

-- `time.Duration(1<<attempt)`, where a negative count is 0.
abbrev pub shifted : ℤ → Duration
shifted (pos n) = wrap64 (pos (2 ^ n))
shifted (negsuc n) = pos 1

-- `NextBackoff`, with the wrap-around of the shift and of the product.
unfoldable pub next_backoff : ℤ → WsReconnectPolicy → Duration
next_backoff attempt policy =
    let delay = wrap64 (policy.base_delay *ℤ shifted attempt) in
    if ltb_ℤ policy.max_delay delay then policy.max_delay else delay

-- How the reading of a connection ends: with an error of a read, or with the end of the context.
pub data ReadEnd : Type 0 where
  read_failed : String → ReadEnd
  read_cancelled : ReadEnd

-- What a frame of a connection gives: an error of its decoding, or updates.
pub data Frame : Type 0 where
  undecoded : String → Frame
  decoded : List MarketUpdate → Frame

-- The answers of one round. The last two tell whether the context was still alive when an error was
-- handed on, and when the wait was over.
pub record Round : Type 0 where
  pub over : Bool
  pub dial : Option String
  pub subscribe : Option String
  pub frames : List Frame
  pub read_end : ReadEnd
  pub emits : Bool
  pub wakes : Bool

pub data StreamEffect : Type 0 where
  dialed : StreamEffect
  subscribed : StreamEffect
  reported : String → StreamEffect
  delivered : MarketUpdate → StreamEffect
  slept : Duration → StreamEffect

-- The frames that `readLoop` reads.
abbrev pub frame_effects : List Frame → List StreamEffect
frame_effects [] = []
frame_effects (undecoded why ∷ frames) = reported why ∷ frame_effects frames
frame_effects (decoded us ∷ frames) = map delivered us ++ frame_effects frames

-- An error handed on and, unless the context is done, what follows.
abbrev pub report_then : Round → String → List StreamEffect → List StreamEffect
report_then r message rest = if r.emits then reported message ∷ rest else []

-- `sleepBackoff` and, if the wait comes to its end, what follows.
abbrev pub sleep_then : Round → ℤ → WsReconnectPolicy → List StreamEffect → List StreamEffect
sleep_then r attempt policy rest =
    slept (next_backoff attempt policy) ∷ (if r.wakes then rest else [])

-- The error of `writeSubscribe`; `assets` is the number of the asset ids.
abbrev pub subscribe_error : ℕ → Round → Option String
subscribe_error assets r =
    if leb assets 0 then some "assetIDs required for market subscription" else elim r.subscribe [
      | none ↦ none
      | some why ↦ some (concat ("write subscribe payload: " ∷ why ∷ []))
    ]

-- Whether the attempts are used up, which is asked only after a failed dial.
abbrev pub exhausted : WsReconnectPolicy → ℕ → Bool
exhausted policy attempt =
    ltb_ℤ (pos 0) policy.max_attempts && leb_ℤ policy.max_attempts (pos attempt)

-- The end of a round that subscribed.
unfoldable pub after_read : Round → List StreamEffect → List StreamEffect
after_read r rest = elim r.read_end [
  | read_failed why ↦ report_then r (concat ("read market ws: " ∷ why ∷ [])) rest
  | read_cancelled ↦ []
]

-- The loop of `Stream`: the rounds, as long as there are any, and the count of attempts.
unfoldable pub stream : WsReconnectPolicy → ℕ → List Round → ℕ → List StreamEffect
stream policy assets [] attempt = []
stream policy assets (r ∷ rounds) attempt =
    let again = stream policy assets rounds (suc attempt) in
    let once = stream policy assets rounds 1 in
    if r.over
    then []
    else dialed ∷ elim r.dial [
      | some why ↦ report_then r (concat ("dial market ws: " ∷ why ∷ [])) (
          sleep_then r (pos attempt) policy (
            if exhausted policy (suc attempt)
            then (if r.emits
                then reported (
                    concat (
                      "market ws reconnect exceeded max attempts: "
                      ∷ show_int policy.max_attempts
                      ∷ []))
                  ∷ []
                else [])
            else again))
      | none ↦ elim (subscribe_error assets r) [
        | some why ↦
            report_then r (concat ("subscribe market ws: " ∷ why ∷ []))
              (sleep_then r (pos attempt) policy again)
        | none ↦
            subscribed ∷ (frame_effects r.frames ++ after_read r (sleep_then r (pos 0) policy once))
      ]
    ]
