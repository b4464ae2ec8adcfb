-- ===== src/Runtime/AutoPilot/Walk.antt =====
-- The principle of induction for the worker: what holds of the few ways in which it changes its state or
-- acts, and of one such walk after another, holds of everything that it does.
pub mod Run
use polymarket_signal_autopi.Base.{
  ◌≡◌, refl, sym, subst, inl, inr, Bool, true, false, not, ◌||◌, String, Option, none, some, List,
  [], ◌∷◌, ◌++◌, pos, Time, Bool-cases, arith, ◌==◌, text_eq, if◌then◌else◌, Result, ok, err, leb_ℤ,
  append-nil, ℕ, ◌+◌,
}
use polymarket_signal_autopi.Double.{Double}
use polymarket_signal_autopi.Text.{Runes, lower_trimmed}
use polymarket_signal_autopi.Values.{Decoder}
use polymarket_signal_autopi.Execution.LiveRouter.Defs.{LiveOrder, submit}
use polymarket_signal_autopi.Execution.LiveRouter.Cases.{submit_cases}
use polymarket_signal_autopi.Strategy.RankShift.Defs.{Signal, RankShiftStrategy}
use polymarket_signal_autopi.Runtime.Telemetry.Defs.{AutoPilotTelemetry, OpsAlertManager, emit}
use polymarket_signal_autopi.Runtime.Reconcile.Defs.{
  Effect, polled, counted_reconcile, counted_order, alerted, saved, not_saved, waited, OrderRecord,
}
use polymarket_signal_autopi.Runtime.AutoPilot.Texts.{Printer}
use polymarket_signal_autopi.Runtime.AutoPilot.Defs.{
  AutoPilot, Action, wrote, saved_signal, routed, posted, saved_order, reconciled, alert_sent,
  notified, saved_notification, Outcome, Step, SignalPorts, quietly, nothing, does, fails, and_then,
  persist, alert, should_suppress_signal_notify, notified_lately, notify_key, PostOrderResponse,
}
use polymarket_signal_autopi.Runtime.AutoPilot.Execute.{
  notify, follow_effect, follow_effects, reconcile, save_order_then, blocked, failure_alert,
  settled, execute_signal, place_order,
}

-- The actions that neither offer nor place an order, nor notify of a signal.
abbrev pub is_plain : {F R : Type 0} → Action F R → Bool
is_plain (routed order request accepted) = false
is_plain (posted request) = false
is_plain (notified stage signal message now) = false
is_plain action = true

-- The action that hands a raw event to the store.
abbrev pub is_raw : {F R : Type 0} → Action F R → Bool
is_raw (wrote event) = true
is_raw action = false

-- A suppressed notification leaves the worker as it is.
suppressed_lem :
    {F : Type 0}
    → ⦃d : Double F⦄ → ⦃u : Runes⦄
    → (a : AutoPilot F) (stage : String) (signal : Signal F) (now : Time)
    → (should_suppress_signal_notify a stage signal now).1 ≡ true
    → (should_suppress_signal_notify a stage signal now).0 ≡ a
unfolding should_suppress_signal_notify
suppressed_lem a stage signal now = elim (Bool-cases (lower_trimmed stage == "signal")) [
  | inr e ↦ rw e (λ h. ground (arith, h))
  | inl e ↦ rw e (elim (Bool-cases (leb_ℤ a.cfg.signal_notify_cooldown (pos 0))) [
    | inl z ↦ rw z (λ h. ground (arith, h))
    | inr z ↦ rw z (elim (Bool-cases (notified_lately a (notify_key signal) now)) [
      | inl l ↦ rw l (λ h. refl)
      | inr l ↦ rw l (λ h. ground (arith, h))
    ])
  ])
]

module _ {F R : Type 0} ⦃d : Double F⦄ ⦃u : Runes⦄ where
  pub record IsWalk (P : AutoPilot F → List (Action F R) → AutoPilot F → Type 0) : Type 0 where
    pub stays : (a : AutoPilot F) → P a [] a
    pub joins :
        (a b c : AutoPilot F) (xs ys : List (Action F R)) → P a xs b → P b ys c → P a (xs ++ ys) c
    pub counts : (a : AutoPilot F) (t : AutoPilotTelemetry F) → P a [] (record a { telemetry = t })
    pub turns : (a : AutoPilot F) (s : RankShiftStrategy F) → P a [] (record a { strategy = s })
    pub warns :
        (a : AutoPilot F) (o : Option OpsAlertManager) → P a [] (record a { ops_alerts = o })
    pub acts :
        (a : AutoPilot F) (x : Action F R) → is_plain x ≡ true → is_raw x ≡ false → P a (x ∷ []) a
    pub notifies :
        (a : AutoPilot F) (stage : String) (signal : Signal F) (message : String) (now : Time)
        → (should_suppress_signal_notify a stage signal now).1 ≡ false
        → P a
            (notified stage signal message now ∷ [])
            (should_suppress_signal_notify a stage signal now).0
    pub accepts :
        (a : AutoPilot F) (order : LiveOrder F) (request : R)
        → (submit a.live_router order (pos 0)).1 ≡ true
        → P a
            (routed order request true ∷ posted request ∷ [])
            (record a { live_router = (submit a.live_router order (pos 0)).0 })
    pub refuses :
        (a : AutoPilot F) (order : LiveOrder F) (request : R)
        → (submit a.live_router order (pos 0)).1 ≡ false
        → P a
            (routed order request false ∷ [])
            (record a { live_router = (submit a.live_router order (pos 0)).0 })

pub record Goes {F R : Type 0} (P : AutoPilot F → List (Action F R) → AutoPilot F → Type 0)
    (a : AutoPilot F) (o : Outcome F R) : Type 0 where
  pub goes : P a o.actions o.pilot

-- Every run of a step is such a walk.
pub record Walks {F R : Type 0} (P : AutoPilot F → List (Action F R) → AutoPilot F → Type 0)
    (f : Step F R) : Type 0 where
  pub walks : (a : AutoPilot F) → Goes P a (f a)

module _ {F R : Type 0} ⦃d : Double F⦄ ⦃u : Runes⦄
    {P : AutoPilot F → List (Action F R) → AutoPilot F → Type 0} (walk : IsWalk P) where
  pub if-Goes :
      {a : AutoPilot F} {x y : Outcome F R} (b : Bool)
      → (b ≡ true → Goes P a x)
      → (b ≡ false → Goes P a y)
      → Goes P a (if b then x else y)
  if-Goes true h k = h refl
  if-Goes false h k = k refl

  pub and_then-Walks : {f g : Step F R} → Walks P f → Walks P g → Walks P (and_then f g)
  unfolding and_then
  and_then-Walks {f = f} {g = g} hf hg = record {
    walks = λ a.
        let rest : Outcome F R = g (f a).pilot in
        elim (f a).error
          as (λ e. Goes P a (elim e as (λ e'. Outcome F R) [
            | some why ↦ record { pilot = (f a).pilot; actions = (f a).actions; error = some why }
            | none ↦ record {
              pilot = rest.pilot;
              actions = (f a).actions ++ rest.actions;
              error = rest.error;
            }
          ])) [
            | some why ↦ record { goes = (hf.walks a).goes }
            | none ↦ record {
              goes = walk.joins a _ _ _ _ (hf.walks a).goes (hg.walks (f a).pilot).goes;
            }
          ];
  }

  pub stays-Goes :
      (a : AutoPilot F) {e : Option String}
      → Goes P a (record { pilot = a; actions = []; error = e })
  stays-Goes a = record { goes = walk.stays a }

  pub nothing-Walks : Walks P nothing
  nothing-Walks = record { walks = λ a. stays-Goes a }

  pub fails-Walks : (why : String) → Walks P (fails why)
  fails-Walks why = record { walks = λ a. stays-Goes a }

  pub does-Walks : (x : Action F R) → ((a : AutoPilot F) → P a (x ∷ []) a) → Walks P (does x)
  does-Walks x h = record { walks = λ a. record { goes = h a } }

  pub acts-Walks : (x : Action F R) → is_plain x ≡ true → is_raw x ≡ false → Walks P (does x)
  acts-Walks x h r = does-Walks x (λ a. walk.acts a x h r)

  pub counts-Walks :
      (f : AutoPilot F → AutoPilotTelemetry F)
      → Walks P (quietly (λ a. record a { telemetry = f a }))
  counts-Walks f = record { walks = λ a. record { goes = walk.counts a (f a) } }

  pub persist-Walks :
      (what : String) (x : Action F R) (answer : Option String)
      → ((a : AutoPilot F) → P a (x ∷ []) a)
      → Walks P (persist what x answer)
  unfolding persist
  persist-Walks what x none h = and_then-Walks (does-Walks x h) nothing-Walks
  persist-Walks what x (some why) h = and_then-Walks (does-Walks x h) (fails-Walks _)

  -- What `Emit` did: a new state and perhaps an alert.
  warned-Goes :
      (a : AutoPilot F) (m : OpsAlertManager) (message : String) (key : Option String)
      → Goes P a (record {
        pilot = record a { ops_alerts = some m };
        actions = elim key [ none ↦ [] | some rate_key ↦ alert_sent rate_key message ∷ [] ];
        error = none;
      })
  warned-Goes a m message none = record { goes = walk.warns a _ }
  warned-Goes a m message (some key) = record {
    goes =
        walk.joins a a _ (alert_sent key message ∷ []) [] (walk.acts a _ refl refl)
          (walk.warns a _);
  }

  pub alert-Walks :
      (sends : String → Bool) (now : Time) (key message : String)
      → Walks P (alert sends now key message)
  unfolding alert
  alert-Walks sends now key message = record {
    walks = λ a.
        elim a.ops_alerts
          as (λ m. Goes P a (elim m as (λ m'. Outcome F R) [
            | none ↦ nothing a
            | some manager ↦ record {
              pilot = record a { ops_alerts = some (emit manager key (sends key) now).0 };
              actions = elim (emit manager key (sends key) now).1 [
                | none ↦ []
                | some rate_key ↦ alert_sent rate_key message ∷ []
              ];
              error = none;
            }
          ])) [
            | none ↦ stays-Goes a
            | some manager ↦ warned-Goes a _ message (emit manager key (sends key) now).1
          ];
  }

  pub notify-Walks :
      (p : Printer F) (dec : Decoder F) (w : SignalPorts F R) (n : ℕ) (signal : Signal F)
      (stage : String)
      → Walks P (notify p dec w n signal stage)
  unfolding notify and_then
  notify-Walks p dec w n signal stage = record {
    walks = λ a.
        if-Goes (not a.cfg.has_notifier) (λ h. stays-Goes a)
          (λ h.
            if-Goes (should_suppress_signal_notify a stage signal (w.clock n)).1
              (λ e. rw (suppressed_lem a stage signal (w.clock n) e) (stays-Goes a))
              (λ e. record {
                goes =
                    walk.joins a _ _ (notified stage signal _ (w.clock n) ∷ []) (_ ∷ [])
                      (walk.notifies a stage signal _ (w.clock n) e) (walk.acts _ _ refl refl);
              }));
  }

  follow_effect-Walks : (w : SignalPorts F R) (e : Effect) → Walks P (follow_effect w e)
  unfolding follow_effect
  follow_effect-Walks w polled = acts-Walks _ refl refl
  follow_effect-Walks w (counted_reconcile status) = counts-Walks _
  follow_effect-Walks w (counted_order status) = counts-Walks _
  follow_effect-Walks w (alerted key message) = alert-Walks _ _ _ _
  follow_effect-Walks w (saved r) = acts-Walks _ refl refl
  follow_effect-Walks w (not_saved r) = acts-Walks _ refl refl
  follow_effect-Walks w (waited t) = acts-Walks _ refl refl

  follow_effects-Walks : (w : SignalPorts F R) (es : List Effect) → Walks P (follow_effects w es)
  unfolding follow_effects
  follow_effects-Walks w [] = nothing-Walks
  follow_effects-Walks w (e ∷ es) =
      and_then-Walks (follow_effect-Walks w e) (follow_effects-Walks w es)

  pub reconcile-Walks :
      (w : SignalPorts F R) (signal_id order_id status : String)
      → Walks P (reconcile w signal_id order_id status)
  unfolding reconcile
  reconcile-Walks w signal_id order_id status = record {
    walks = λ a.
        (and_then-Walks (follow_effects-Walks w _) (record { walks = λ b. stays-Goes b })).walks a;
  }

  save_order_then-Walks :
      (w : SignalPorts F R) (what : String) (r : OrderRecord) → Walks P (save_order_then w what r)
  unfolding save_order_then
  save_order_then-Walks w what r =
      and_then-Walks (persist-Walks what _ _ (λ a. walk.acts a _ refl refl)) (counts-Walks _)

  failure_alert-Walks :
      (w : SignalPorts F R) (signal : Signal F) (why : Option String)
      → Walks P (failure_alert w signal why)
  unfolding failure_alert
  failure_alert-Walks w signal none = nothing-Walks
  failure_alert-Walks w signal (some why) = alert-Walks _ _ _ _

  module _ (p : Printer F) (dec : Decoder F) (w : SignalPorts F R) (signal : Signal F) where
    blocked-Walks : (reason : String) → Walks P (blocked p dec w signal reason)
    unfolding blocked
    blocked-Walks reason =
        and_then-Walks (save_order_then-Walks w _ _)
          (and_then-Walks (alert-Walks _ _ _ _) (notify-Walks p dec w _ signal _))

    settled-Walks :
        (answer : PostOrderResponse × Option String) → Walks P (settled p dec w signal answer)
    unfolding settled
    settled-Walks answer = and_then-Walks (save_order_then-Walks w _ _) (
        and_then-Walks (failure_alert-Walks w signal _)
          (and_then-Walks (reconcile-Walks w _ _ _) (notify-Walks p dec w _ signal _)))

    place_order-Walks :
        (built : Result (LiveOrder F × R)) → Walks P (place_order p dec w signal built)
    unfolding place_order and_then
    place_order-Walks (err why) = fails-Walks _
    place_order-Walks (ok (order, request)) = record {
      walks = λ a.
          if-Goes (submit a.live_router order (pos 0)).1
            (λ e. record {
              goes =
                  walk.joins a _ _ (_ ∷ _ ∷ []) _ (walk.accepts a order request e)
                    ((settled-Walks (w.post_order request)).walks _).goes;
            })
            (λ e. record {
              goes =
                  walk.joins a _ _ (_ ∷ []) _ (walk.refuses a order request e)
                    ((blocked-Walks _).walks _).goes;
            });
    }

    pub execute_signal-Walks : Walks P (execute_signal p dec w signal)
    unfolding execute_signal
    execute_signal-Walks = record {
      walks = λ a.
          if-Goes (not a.cfg.has_live_router || not a.cfg.has_trader || not a.cfg.has_order_builder)
            (λ h. stays-Goes a) (λ h. (place_order-Walks (w.order_builder signal)).walks a);
    }
