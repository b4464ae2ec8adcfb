-- ===== src/Runtime/AutoPilot/Notices.antt =====
-- The times of notifications of signals under one key.
use polymarket_signal_autopi.Base.{
  ◌≡◌, refl, ap, ◌∙◌, subst, inl, inr, ◌⊎◌, Bool, true, false, ◌&&◌, String, Option, none, some,
  List, [], ◌∷◌, ◌++◌, pos, Time, Duration, leb_ℤ, ◌<ℤ◌, ◌≤ℤ◌, since, lookup, insert, lookup-insert,
  collect, collect-append, ◌==◌, text_eq, if◌then◌else◌, arith, Bool-cases, append-nil,
}
use polymarket_signal_autopi.Double.{Double}
use polymarket_signal_autopi.Text.{Runes, lower_trimmed}
use polymarket_signal_autopi.Values.{Decoder}
use polymarket_signal_autopi.Execution.LiveRouter.Defs.{submit}
use polymarket_signal_autopi.Strategy.RankShift.Defs.{Signal}
use polymarket_signal_autopi.Runtime.Telemetry.Alerts.{Spaced, Spaced-next}
use polymarket_signal_autopi.Runtime.AutoPilot.Texts.{Printer}
use polymarket_signal_autopi.Runtime.AutoPilot.Defs.{
  AutoPilot, Action, wrote, saved_signal, routed, posted, saved_order, reconciled, alert_sent,
  notified, saved_notification, should_suppress_signal_notify, notify_key, notified_lately,
}
use polymarket_signal_autopi.Runtime.AutoPilot.Loop.{Event, run_loop}
use polymarket_signal_autopi.Runtime.AutoPilot.Walk.{IsWalk, is_plain}
use polymarket_signal_autopi.Runtime.AutoPilot.Walk.Run.{run_loop-Walks}

-- The last of some times, and what came before where there are none.
abbrev pub latest : Option Time → List Time → Option Time
latest o [] = o
latest o (t ∷ ts) = latest (some t) ts

Spaced-append :
    (c : Duration) (o : Option Time) (ts us : List Time)
    → Spaced c o ts
    → Spaced c (latest o ts) us
    → Spaced c o (ts ++ us)
unfolding Spaced
Spaced-append c o [] us s s' = s'
Spaced-append c none (t ∷ ts) us s s' = Spaced-append c (some t) ts us s s'
Spaced-append c (some last) (t ∷ ts) us (h, s) s' = (h, Spaced-append c (some t) ts us s s')

latest-append :
    (o : Option Time) (ts us : List Time) → latest o (ts ++ us) ≡ latest (latest o ts) us
latest-append o [] us = refl
latest-append o (t ∷ ts) us = latest-append (some t) ts us

module _ {F : Type 0} ⦃d : Double F⦄ ⦃u : Runes⦄ where
  -- Whether a notification is one of a signal under a key.
  abbrev pub is_notice : String → String → Signal F → Bool
  is_notice key stage signal = lower_trimmed stage == "signal" && notify_key signal == key

  rested :
      (a : AutoPilot F) (key : String) (now last : Time)
      → notified_lately a key now ≡ false
      → lookup key a.last_signal_notify ≡ some last
      → a.cfg.signal_notify_cooldown ≤ℤ since now last
  unfolding notified_lately
  rested a key now last h e = ground arith

  -- What a notification that is let through leaves behind, where there is a cooldown.
  let_through :
      (a : AutoPilot F) (stage : String) (signal : Signal F) (now : Time)
      → pos 0 <ℤ a.cfg.signal_notify_cooldown
      → (should_suppress_signal_notify a stage signal now).1 ≡ false
      → ((lower_trimmed stage == "signal" ≡ false)
          × ((should_suppress_signal_notify a stage signal now).0 ≡ a))
        ⊎ ((lower_trimmed stage == "signal" ≡ true)
            × (notified_lately a (notify_key signal) now ≡ false)
            × ((should_suppress_signal_notify a stage signal now).0 ≡ record a {
              last_signal_notify = insert (notify_key signal) now a.last_signal_notify;
            }))
  unfolding should_suppress_signal_notify
  let_through a stage signal now h = elim (Bool-cases (lower_trimmed stage == "signal")) [
    | inr other ↦ λ e. inl (other, rw other refl)
    | inl same ↦
        let set : leb_ℤ a.cfg.signal_notify_cooldown (pos 0) ≡ false = ground arith in
        rw (same, set)
          (elim (Bool-cases (notified_lately a (notify_key signal) now)) [
            | inl lately ↦ rw lately (λ e. absurd (ground (arith, e)))
            | inr rested ↦ rw rested (λ e. inr (refl, refl, refl))
          ])
  ]

  rested-Spaced :
      (a : AutoPilot F) (key : String) (now : Time)
      → notified_lately a key now ≡ false
      → Spaced a.cfg.signal_notify_cooldown (lookup key a.last_signal_notify) (now ∷ [])
  unfolding Spaced
  rested-Spaced a key now h =
      Spaced-next a.cfg.signal_notify_cooldown (lookup key a.last_signal_notify) now []
        (λ last e. rested a key now last h e) tt

  same_cfg_lem :
      (a : AutoPilot F) (stage : String) (signal : Signal F) (now : Time)
      → (should_suppress_signal_notify a stage signal now).0.cfg ≡ a.cfg
  unfolding should_suppress_signal_notify
  same_cfg_lem a stage signal now = ground arith

  let_through-known :
      (key : String) (a : AutoPilot F) (stage : String) (signal : Signal F) (message : String)
      (now : Time)
      → pos 0 <ℤ a.cfg.signal_notify_cooldown
      → (should_suppress_signal_notify a stage signal now).1 ≡ false
      → lookup key (should_suppress_signal_notify a stage signal now).0.last_signal_notify
        ≡ latest
            (lookup key a.last_signal_notify)
            (if is_notice key stage signal then now ∷ [] else [])
  let_through-known key a stage signal message now h e = elim (let_through a stage signal now h e) [
    | inl (other, q) ↦ rw (q, other) refl
    | inr (same, rests, q) ↦
        rw (q, same, lookup-insert (notify_key signal) key now a.last_signal_notify)
          (elim (Bool-cases (notify_key signal == key)) [ inl k ↦ rw k refl | inr k ↦ rw k refl ])
  ]

  let_through-Spaced :
      (key : String) (a : AutoPilot F) (stage : String) (signal : Signal F) (message : String)
      (now : Time)
      → pos 0 <ℤ a.cfg.signal_notify_cooldown
      → (should_suppress_signal_notify a stage signal now).1 ≡ false
      → Spaced a.cfg.signal_notify_cooldown
          (lookup key a.last_signal_notify)
          (if is_notice key stage signal then now ∷ [] else [])
  unfolding Spaced
  let_through-Spaced key a stage signal message now h e =
      elim (let_through a stage signal now h e) [
        | inl (other, q) ↦ rw other tt
        | inr (same, rests, q) ↦ rw same (elim (Bool-cases (notify_key signal == key)) [
          | inr k ↦ rw k tt
          | inl k ↦ rw k (
              subst
                (λ n.
                  Spaced a.cfg.signal_notify_cooldown (lookup n a.last_signal_notify) (now ∷ []))
                ((text_eq.same_iff (notify_key signal) key).0 k)
                (rested-Spaced a (notify_key signal) now rests))
        ])
      ]

module _ {F R : Type 0} ⦃d : Double F⦄ ⦃u : Runes⦄ where
  -- The time of an action, if it is a notification of a signal under a key.
  abbrev pub notice_times : String → Action F R → List Time
  notice_times key (notified stage signal message now) =
      if is_notice key stage signal then now ∷ [] else []
  notice_times key action = []

  -- From one state of the worker to a later one, by some actions.
  pub record Rests (key : String) (a : AutoPilot F) (xs : List (Action F R)) (b : AutoPilot F)
      : Type 0 where
    pub same_cfg : b.cfg ≡ a.cfg
    pub known :
        pos 0 <ℤ a.cfg.signal_notify_cooldown
        → lookup key b.last_signal_notify
          ≡ latest (lookup key a.last_signal_notify) (collect (notice_times key) xs)
    pub spaced :
        pos 0 <ℤ a.cfg.signal_notify_cooldown
        → Spaced a.cfg.signal_notify_cooldown
            (lookup key a.last_signal_notify)
            (collect (notice_times key) xs)

  idle-Rests :
      (key : String) (a b : AutoPilot F)
      → b.cfg ≡ a.cfg
      → b.last_signal_notify ≡ a.last_signal_notify
      → Rests key a [] b
  unfolding collect Spaced
  idle-Rests key a b e f = record { same_cfg = e; known = λ h. ap (lookup key) f; spaced = λ h. tt }

  join-Rests :
      (key : String) (a b c : AutoPilot F) (xs ys : List (Action F R))
      → Rests key a xs b
      → Rests key b ys c
      → Rests key a (xs ++ ys) c
  join-Rests key a b c xs ys f g = record {
    same_cfg = g.same_cfg ∙ f.same_cfg;
    known = λ h.
        rw (collect-append (notice_times key) xs ys, latest-append, ← f.known h)
          (g.known (rw f.same_cfg h));
    spaced = λ h. rw (collect-append (notice_times key) xs ys) (
        Spaced-append _ _ (collect (notice_times key) xs) (collect (notice_times key) ys)
          (f.spaced h) (rw (← f.known h, ← f.same_cfg) (g.spaced (rw f.same_cfg h))));
  }

  plain-Rests :
      (key : String) (a b : AutoPilot F) (x : Action F R)
      → notice_times key x ≡ []
      → b.cfg ≡ a.cfg
      → b.last_signal_notify ≡ a.last_signal_notify
      → Rests key a (x ∷ []) b
  unfolding collect Spaced
  plain-Rests key a b x h e f = record {
    same_cfg = e;
    known = λ z. rw h (ap (lookup key) f);
    spaced = λ z. rw h tt;
  }

  plain-notice_times : (key : String) (x : Action F R) → is_plain x ≡ true → notice_times key x ≡ []
  plain-notice_times key (wrote event) h = refl
  plain-notice_times key (saved_signal r) h = refl
  plain-notice_times key (routed order request answer) h = refl
  plain-notice_times key (posted request) h = refl
  plain-notice_times key (saved_order r) h = refl
  plain-notice_times key (reconciled e) h = refl
  plain-notice_times key (alert_sent k m) h = refl
  plain-notice_times key (notified stage signal message now) h = absurd (ground (arith, h))
  plain-notice_times key (saved_notification r) h = refl

  notifies-Rests :
      (key : String) (a : AutoPilot F) (stage : String) (signal : Signal F) (message : String)
      (now : Time)
      → (should_suppress_signal_notify a stage signal now).1 ≡ false
      → Rests key a
          (notified stage signal message now ∷ [])
          (should_suppress_signal_notify a stage signal now).0
  unfolding collect
  notifies-Rests key a stage signal message now e = record {
    same_cfg = same_cfg_lem a stage signal now;
    known = λ h. rw append-nil (let_through-known key a stage signal message now h e);
    spaced = λ h. rw append-nil (let_through-Spaced key a stage signal message now h e);
  }

  Rests-IsWalk : (key : String) → IsWalk (Rests key)
  Rests-IsWalk key = record {
    stays = λ a. idle-Rests key a a refl refl;
    joins = join-Rests key;
    counts = λ a t. idle-Rests key a _ refl refl;
    turns = λ a s. idle-Rests key a _ refl refl;
    warns = λ a o. idle-Rests key a _ refl refl;
    acts = λ a x h r. plain-Rests key a a x (plain-notice_times key x h) refl refl;
    notifies = notifies-Rests key;
    accepts = λ a order request e.
        let b : AutoPilot F = record a { live_router = (submit a.live_router order (pos 0)).0 } in
        join-Rests key a b b (routed order request true ∷ []) (posted request ∷ [])
          (plain-Rests key a b _ refl refl refl) (plain-Rests key b b _ refl refl refl);
    refuses = λ a order request e. plain-Rests key a _ _ refl refl refl;
  }

  -- Where the cooldown of notifications is positive, as `NewAutoPilot` makes it: whatever happens to the
  -- worker's loop, the notifications of new signals that agree in asset, action, reason and severity
  -- are at least the cooldown apart, and from the last one before.
  pub run_loop-Spaced :
      (p : Printer F) (dec : Decoder F) (updates errs : Bool) (events : List (Event F R))
      (a : AutoPilot F) (key : String)
      → pos 0 <ℤ a.cfg.signal_notify_cooldown
      → Spaced a.cfg.signal_notify_cooldown
          (lookup key a.last_signal_notify)
          (collect (notice_times key) (run_loop p dec updates errs events a).actions)
  run_loop-Spaced p dec updates errs events a key h =
      ((run_loop-Walks (Rests-IsWalk key) p dec
            (λ b e. plain-Rests key b b (wrote e) refl refl refl) updates errs events).walks
          a).goes.spaced
        h
