-- ===== src/Runtime/AutoPilot/Audit.antt =====
-- The raw events that a run of the worker's loop hands to the store.
use polymarket_signal_autopi.Base.{
  ◌≡◌, ◌≢◌, refl, sym, subst, inl, inr, Bool, true, false, String, Option, none, some, List, [],
  ◌∷◌, ◌++◌, ◌||◌, if◌then◌else◌, collect, collect-append, Option-cases, arith,
}
use polymarket_signal_autopi.Double.{Double}
use polymarket_signal_autopi.Text.{Runes}
use polymarket_signal_autopi.Text.Decimal.{concat}
use polymarket_signal_autopi.Values.{Decoder}
use polymarket_signal_autopi.Ingestion.RawWriter.{RawEvent}
use polymarket_signal_autopi.Strategy.RankShift.Defs.{MarketUpdate, on_update}
use polymarket_signal_autopi.Runtime.AutoPilot.Texts.{Printer}
use polymarket_signal_autopi.Runtime.AutoPilot.Defs.{
  AutoPilot, Action, wrote, saved_signal, routed, posted, saved_order, reconciled, alert_sent,
  notified, saved_notification, Outcome, Step, nothing, and_then,
}
use polymarket_signal_autopi.Runtime.AutoPilot.Handle.{UpdatePorts, raw_event, handle_update}
use polymarket_signal_autopi.Runtime.AutoPilot.Loop.{
  Event, cancelled, ticked, errs_closed, stream_failed, updates_closed, updated,
  reconcile_pending_orders, report_stream_error, run_loop, while_open,
}
use polymarket_signal_autopi.Runtime.AutoPilot.Walk.{IsWalk, is_raw}
use polymarket_signal_autopi.Runtime.AutoPilot.Walk.Run.{
  handle_signals-Walks, reconcile_pending_orders-Walks, report_stream_error-Walks,
}
use polymarket_signal_autopi.Runtime.AutoPilot.Written.{from_signals, handle_update-wrote}

-- The raw event of an action.
abbrev raw_of : {F R : Type 0} → Action F R → List RawEvent
raw_of (wrote event) = event ∷ []
raw_of action = []

-- The raw events that the actions hand to the store.
pub written : {F R : Type 0} → List (Action F R) → List RawEvent
written actions = collect raw_of actions

-- The raw events of the updates that come before the loop ends or the channels are closed, each with the
-- store's answer to it; the two tests are whether the channels of updates and of errors are open.
pub raw_events : {F R : Type 0} → Bool → Bool → List (Event F R) → List (RawEvent × Option String)
raw_events updates errs [] = []
raw_events updates errs (cancelled ∷ events) = []
raw_events updates errs (ticked w ∷ events) =
    let rest = raw_events updates errs events in if updates || errs then rest else []
raw_events updates errs (errs_closed ∷ events) =
    let rest = raw_events updates false events in if updates || errs then rest else []
raw_events updates errs (stream_failed why over now sends ∷ events) =
    let rest = raw_events updates errs events in if updates || errs then rest else []
raw_events updates errs (updates_closed ∷ events) =
    let rest = raw_events false errs events in if updates || errs then rest else []
raw_events updates errs (updated w update ∷ events) =
    let rest = raw_events updates errs events in
    let event = raw_event update w.now in
    if updates || errs then (event, w.write event) ∷ rest else []

-- The written events are those that are expected, in order, up to where the run ends: a refused one is the
-- last, and its error is that of the run; without an error, none is missing.
pub IsAudit : List (RawEvent × Option String) → List RawEvent → Option String → Type 0
IsAudit [] [] error = Unit
IsAudit [] (x ∷ xs) error = ⊥
IsAudit (e ∷ es) [] error = error ≢ none
IsAudit ((event, none) ∷ es) (x ∷ xs) error = (x ≡ event) × IsAudit es xs error
IsAudit ((event, some why) ∷ es) (x ∷ xs) error =
    (x ≡ event) × (xs ≡ []) × (error ≡ some (concat ("persist raw update: " ∷ why ∷ [])))

IsAudit-failed : (es : List (RawEvent × Option String)) (why : String) → IsAudit es [] (some why)
unfolding IsAudit
IsAudit-failed [] why = tt
IsAudit-failed (e ∷ es) why = λ h. ground (arith, h)

module _ {F R : Type 0} ⦃d : Double F⦄ ⦃u : Runes⦄ where
  abbrev Audits : List (RawEvent × Option String) → Outcome F R → Type 0
  Audits es o = IsAudit es (written o.actions) o.error

  -- A walk that hands no raw event to the store.
  record IsSilent (a : AutoPilot F) (xs : List (Action F R)) (b : AutoPilot F) : Type 0 where
    silent : written xs ≡ []

  acts-IsSilent : (a : AutoPilot F) (x : Action F R) → is_raw x ≡ false → IsSilent a (x ∷ []) a
  unfolding written collect
  acts-IsSilent a (wrote event) h = absurd (ground (arith, h))
  acts-IsSilent a (saved_signal r) h = record { silent = refl }
  acts-IsSilent a (routed order request accepted) h = record { silent = refl }
  acts-IsSilent a (posted request) h = record { silent = refl }
  acts-IsSilent a (saved_order r) h = record { silent = refl }
  acts-IsSilent a (reconciled e) h = record { silent = refl }
  acts-IsSilent a (alert_sent key message) h = record { silent = refl }
  acts-IsSilent a (notified stage signal message now) h = record { silent = refl }
  acts-IsSilent a (saved_notification r) h = record { silent = refl }

  IsSilent-IsWalk : IsWalk IsSilent
  unfolding written collect
  IsSilent-IsWalk = record {
    stays = λ a. record { silent = refl };
    joins = λ a b c xs ys f g. record {
      silent = rw (collect-append raw_of xs ys, f.silent, g.silent) refl;
    };
    counts = λ a t. record { silent = refl };
    turns = λ a s. record { silent = refl };
    warns = λ a o. record { silent = refl };
    acts = λ a x h r. acts-IsSilent a x r;
    notifies = λ a stage signal message now e. record { silent = refl };
    accepts = λ a order request e. record { silent = refl };
    refuses = λ a order request e. record { silent = refl };
  }

  -- A silent step in front of an audited one.
  quiet_then :
      (es : List (RawEvent × Option String)) (f g : Step F R) (a : AutoPilot F)
      → written (f a).actions ≡ []
      → ((b : AutoPilot F) → Audits es (g b))
      → Audits es (and_then f g a)
  unfolding and_then written
  quiet_then es f g a quiet h =
      let rest : Outcome F R = g (f a).pilot in
      elim (f a).error
        as (λ e. Audits es (elim e as (λ e'. Outcome F R) [
          | some why ↦ record { pilot = (f a).pilot; actions = (f a).actions; error = some why }
          | none ↦ record {
            pilot = rest.pilot;
            actions = (f a).actions ++ rest.actions;
            error = rest.error;
          }
        ])) [
          | some why ↦ rw quiet (IsAudit-failed es why)
          | none ↦ rw (collect-append raw_of (f a).actions rest.actions, quiet) (h (f a).pilot)
        ]

  -- An update whose raw event the store takes, and what follows.
  taken_then :
      (es : List (RawEvent × Option String)) (event : RawEvent) (o : Outcome F R) (g : Step F R)
      (a : AutoPilot F)
      → written o.actions ≡ []
      → ((b : AutoPilot F) → Audits es (g b))
      → let step : Step F R =
          λ s. record { pilot = o.pilot; actions = wrote event ∷ o.actions; error = o.error } in
        Audits ((event, none) ∷ es) (and_then step g a)
  unfolding and_then written collect IsAudit
  taken_then es event o g a quiet h =
      let rest : Outcome F R = g o.pilot in
      elim o.error
        as (λ e. Audits ((event, none) ∷ es) (elim e as (λ e'. Outcome F R) [
          | some why ↦ record {
            pilot = o.pilot;
            actions = wrote event ∷ o.actions;
            error = some why;
          }
          | none ↦ record {
            pilot = rest.pilot;
            actions = (wrote event ∷ o.actions) ++ rest.actions;
            error = rest.error;
          }
        ])) [
          | some why ↦ rw quiet (refl, IsAudit-failed es why)
          | none ↦ rw (collect-append raw_of o.actions rest.actions, quiet) (refl, h o.pilot)
        ]

  update_then :
      (p : Printer F) (dec : Decoder F) (w : UpdatePorts F R) (update : MarketUpdate)
      (es : List (RawEvent × Option String)) (g : Step F R) (a : AutoPilot F)
      → ((b : AutoPilot F) → Audits es (g b))
      → Audits
          ((raw_event update w.now, w.write (raw_event update w.now)) ∷ es)
          (and_then (handle_update p dec w update) g a)
  unfolding and_then written collect IsAudit
  update_then p dec w update es g a h =
      let event = raw_event update w.now in
      let outcome = handle_update-wrote p dec w update a in
      let rest = from_signals p dec w update a in
      let r = on_update dec a.strategy update w.strategy_now in
      let quiet =
        ((handle_signals-Walks IsSilent-IsWalk p dec w.signals 0 w.now r.1).walks _).goes.silent in
      elim (Option-cases (w.write event)) [
        | inl e ↦ rw e (
            subst (λ (o : Outcome F R). Audits ((event, none) ∷ es) (and_then (λ s. o) g a))
              (sym (outcome.1 e)) (taken_then es event rest g a quiet h))
        | inr (why, e) ↦ rw e (
            subst (λ (o : Outcome F R). Audits ((event, some why) ∷ es) (and_then (λ s. o) g a))
              (sym (outcome.0 why e)) (refl, refl, refl))
      ]

  while_open-Audits :
      (es : List (RawEvent × Option String)) (updates errs : Bool) (f : Step F R) (a : AutoPilot F)
      → Audits es (f a)
      → Audits (if updates || errs then es else []) (while_open updates errs f a)
  unfolding while_open nothing written collect IsAudit
  while_open-Audits es false false f a h = tt
  while_open-Audits es false true f a h = h
  while_open-Audits es true errs f a h = h

  -- Whatever happens to the worker's loop: the raw events that are handed to the store are those of the
  -- updates that it receives, in order, up to where the run ends; if the store refuses one, that is the last
  -- and the run ends with its error; and if the run ends without an error, none is missing.
  pub run_loop-IsAudit :
      (p : Printer F) (dec : Decoder F) (updates errs : Bool) (events : List (Event F R))
      (a : AutoPilot F)
      → let o = run_loop p dec updates errs events a in
        IsAudit (raw_events updates errs events) (written o.actions) o.error
  unfolding run_loop raw_events written collect IsAudit
  run_loop-IsAudit p dec updates errs [] a = tt
  run_loop-IsAudit p dec updates errs (cancelled ∷ events) a = tt
  run_loop-IsAudit p dec updates errs (ticked w ∷ events) a = while_open-Audits _ updates errs _ a (
      quiet_then _ (reconcile_pending_orders w) (run_loop p dec updates errs events) a
        ((reconcile_pending_orders-Walks IsSilent-IsWalk p dec w).walks a).goes.silent
        (λ b. run_loop-IsAudit p dec updates errs events b))
  run_loop-IsAudit p dec updates errs (errs_closed ∷ events) a =
      while_open-Audits _ updates errs _ a (run_loop-IsAudit p dec updates false events a)
  run_loop-IsAudit p dec updates errs (stream_failed why over now sends ∷ events) a =
      while_open-Audits _ updates errs _ a (
        quiet_then _ (report_stream_error why over now sends) (run_loop p dec updates errs events) a
          ((report_stream_error-Walks IsSilent-IsWalk p dec why over now sends).walks a).goes.silent
          (λ b. run_loop-IsAudit p dec updates errs events b))
  run_loop-IsAudit p dec updates errs (updates_closed ∷ events) a =
      while_open-Audits _ updates errs _ a (run_loop-IsAudit p dec false errs events a)
  run_loop-IsAudit p dec updates errs (updated w update ∷ events) a =
      while_open-Audits _ updates errs _ a (
        update_then p dec w update _ (run_loop p dec updates errs events) a
          (λ b. run_loop-IsAudit p dec updates errs events b))
