-- ===== src/Runtime/AutoPilot/Routing.antt =====
-- What reaches the exchange, against what the router accepts.
use polymarket_signal_autopi.Base.{
  ◌≡◌, refl, sym, ap, ◌∙◌, subst, Bool, true, false, String, List, [], ◌∷◌, ◌++◌, pos, collect,
  collect-append, if◌then◌else◌, All, Time, arith, Option, some, none, collect-All, collect-nil,
}
use polymarket_signal_autopi.Double.{Double}
use polymarket_signal_autopi.Text.{Runes}
use polymarket_signal_autopi.Values.{Decoder}
use polymarket_signal_autopi.Execution.LiveRouter.Defs.{
  LiveOrder, LiveConfig, new_live_router, submit,
}
use polymarket_signal_autopi.Execution.LiveRouter.Caps.{IsCapped, run-new_live_router-IsCapped}
use polymarket_signal_autopi.Execution.LiveRouter.Steps.{
  Call, submits, run, step, accepted, accepted_now,
}
use polymarket_signal_autopi.Execution.LiveRouter.Append.{run-append, accepted-append}
use polymarket_signal_autopi.Runtime.AutoPilot.Texts.{Printer}
use polymarket_signal_autopi.Runtime.AutoPilot.Defs.{
  AutoPilot, Action, wrote, saved_signal, routed, posted, saved_order, reconciled, alert_sent,
  notified, saved_notification, should_suppress_signal_notify,
}
use polymarket_signal_autopi.Strategy.RankShift.Defs.{Signal}
use polymarket_signal_autopi.Execution.LiveRouter.Halts.{KeepsKill, killed-accepted}
use polymarket_signal_autopi.Runtime.AutoPilot.Loop.{Event, run_loop}
use polymarket_signal_autopi.Runtime.AutoPilot.Walk.{IsWalk, is_plain}
use polymarket_signal_autopi.Runtime.AutoPilot.Walk.Run.{run_loop-Walks}

module _ {F R : Type 0} where
  abbrev pub as_routed : Action F R → Option (LiveOrder F × R × Bool)
  as_routed (routed order request answer) = some (order, request, answer)
  as_routed action = none

  abbrev calls_of : Option (LiveOrder F × R × Bool) → List (Call F)
  calls_of none = []
  calls_of (some (order, request, answer)) = submits order (pos 0) ∷ []

  abbrev orders_of : Option (LiveOrder F × R × Bool) → List (LiveOrder F)
  orders_of none = []
  orders_of (some (order, request, answer)) = if answer then order ∷ [] else []

  abbrev requests_of : Option (LiveOrder F × R × Bool) → List R
  requests_of none = []
  requests_of (some (order, request, answer)) = if answer then request ∷ [] else []

  -- The call of the router that an action is.
  abbrev pub offered : Action F R → List (Call F)
  offered action = calls_of (as_routed action)

  -- The order that an action gets accepted, and the request of that order.
  abbrev pub admitted_order : Action F R → List (LiveOrder F)
  admitted_order action = orders_of (as_routed action)

  abbrev pub admitted_request : Action F R → List R
  admitted_request action = requests_of (as_routed action)

  abbrev pub sent_request : Action F R → List R
  sent_request (posted request) = request ∷ []
  sent_request action = []

  module _ ⦃d : Double F⦄ ⦃u : Runes⦄ where
    -- From one state of the worker to a later one, by some actions: the router went through the calls
    -- among them, it accepted the orders that they say, and the requests sent are those of these orders.
    pub record Routes (a : AutoPilot F) (xs : List (Action F R)) (b : AutoPilot F) : Type 0 where
      pub router : b.live_router ≡ run a.live_router (collect offered xs)
      pub orders : collect admitted_order xs ≡ accepted a.live_router (collect offered xs)
      pub requests : collect sent_request xs ≡ collect admitted_request xs

    idle-Routes : (a b : AutoPilot F) → b.live_router ≡ a.live_router → Routes a [] b
    unfolding run accepted collect
    idle-Routes a b e = record { router = e; orders = refl; requests = refl }

    plain-Routes : (a : AutoPilot F) (x : Action F R) → is_plain x ≡ true → Routes a (x ∷ []) a
    unfolding run accepted collect
    plain-Routes a (wrote event) h = record { router = refl; orders = refl; requests = refl }
    plain-Routes a (saved_signal r) h = record { router = refl; orders = refl; requests = refl }
    plain-Routes a (routed order request answer) h = absurd (ground (arith, h))
    plain-Routes a (posted request) h = absurd (ground (arith, h))
    plain-Routes a (saved_order r) h = record { router = refl; orders = refl; requests = refl }
    plain-Routes a (reconciled e) h = record { router = refl; orders = refl; requests = refl }
    plain-Routes a (alert_sent k m) h = record { router = refl; orders = refl; requests = refl }
    plain-Routes a (notified stage s m t) h = absurd (ground (arith, h))
    plain-Routes a (saved_notification r) h = record {
      router = refl;
      orders = refl;
      requests = refl;
    }

    join-Routes :
        (a b c : AutoPilot F) (xs ys : List (Action F R))
        → Routes a xs b
        → Routes b ys c
        → Routes a (xs ++ ys) c
    join-Routes a b c xs ys f g = record {
      router = rw (collect-append offered xs ys, run-append, ← f.router) g.router;
      orders = rw (
        collect-append offered xs ys,
        collect-append admitted_order xs ys,
        accepted-append,
        ← f.router,
        f.orders,
        g.orders,
      );
      requests = rw (
        collect-append sent_request xs ys,
        collect-append admitted_request xs ys,
        f.requests,
        g.requests,
      );
    }

    notified-Routes :
        (a : AutoPilot F) (stage : String) (signal : Signal F) (message : String) (now : Time)
        → Routes a
            (notified stage signal message now ∷ [])
            (should_suppress_signal_notify a stage signal now).0
    unfolding run accepted collect should_suppress_signal_notify
    notified-Routes a stage signal message now = record {
      router = ground arith;
      orders = refl;
      requests = refl;
    }

    accepts-Routes :
        (a : AutoPilot F) (order : LiveOrder F) (request : R)
        → (submit a.live_router order (pos 0)).1 ≡ true
        → Routes a
            (routed order request true ∷ posted request ∷ [])
            (record a { live_router = (submit a.live_router order (pos 0)).0 })
    unfolding run step accepted accepted_now collect
    accepts-Routes a order request e = record { router = refl; orders = rw e; requests = refl }

    refuses-Routes :
        (a : AutoPilot F) (order : LiveOrder F) (request : R)
        → (submit a.live_router order (pos 0)).1 ≡ false
        → Routes a
            (routed order request false ∷ [])
            (record a { live_router = (submit a.live_router order (pos 0)).0 })
    unfolding run step accepted accepted_now collect
    refuses-Routes a order request e = record { router = refl; orders = rw e; requests = refl }

    Routes-IsWalk : IsWalk Routes
    Routes-IsWalk = record {
      stays = λ a. idle-Routes a a refl;
      joins = join-Routes;
      counts = λ a t. idle-Routes a _ refl;
      turns = λ a s. idle-Routes a _ refl;
      warns = λ a o. idle-Routes a _ refl;
      acts = λ a x h r. plain-Routes a x h;
      notifies = λ a stage signal message now e. notified-Routes a stage signal message now;
      accepts = accepts-Routes;
      refuses = refuses-Routes;
    }

    -- Whatever happens to the worker's loop: the router of the live orders goes through one call
    -- `Submit(order, 0)` for each order that is offered to it, in order, and no other; the orders that
    -- the loop takes for accepted are those that the router accepts; and the requests that are sent to
    -- the exchange are those of the accepted orders, in their order.
    pub run_loop-Routes :
        (p : Printer F) (dec : Decoder F) (updates errs : Bool) (events : List (Event F R))
        (a : AutoPilot F)
        → let o = run_loop p dec updates errs events a in Routes a o.actions o.pilot
    run_loop-Routes p dec updates errs events a =
        ((run_loop-Walks Routes-IsWalk p dec (λ b e. plain-Routes b (wrote e) refl) updates errs
            events).walks
          a).goes

    calls_of-KeepsKill : (o : Option (LiveOrder F × R × Bool)) → All KeepsKill (calls_of o)
    calls_of-KeepsKill none = tt
    calls_of-KeepsKill (some (order, request, answer)) = (tt, tt)

    orders_of-nil : (o : Option (LiveOrder F × R × Bool)) → orders_of o ≡ [] → requests_of o ≡ []
    orders_of-nil none h = refl
    orders_of-nil (some (order, request, true)) h = absurd (ground (arith, h))
    orders_of-nil (some (order, request, false)) h = refl

    -- While the kill switch of the router is triggered, the worker sends no order to the exchange,
    -- whatever happens.
    pub killed-run_loop :
        (p : Printer F) (dec : Decoder F) (updates errs : Bool) (events : List (Event F R))
        (a : AutoPilot F)
        → a.live_router.kill.triggered ≡ true
        → collect sent_request (run_loop p dec updates errs events a).actions ≡ []
    killed-run_loop p dec updates errs events a h =
        let o = run_loop p dec updates errs events a in
        let r = run_loop-Routes p dec updates errs events a in
        r.requests
        ∙ collect-nil admitted_order admitted_request o.actions (λ x. orders_of-nil (as_routed x))
            (r.orders
              ∙ killed-accepted a.live_router (collect offered o.actions) h
                  (collect-All KeepsKill offered o.actions (λ x. calls_of-KeepsKill (as_routed x))))

    -- From a router just made: no market and no cluster goes over its cap, and no key is booked twice,
    -- whatever happens to the worker's loop.
    pub run_loop-IsCapped :
        (p : Printer F) (dec : Decoder F) (updates errs : Bool) (events : List (Event F R))
        (a : AutoPilot F) (cfg : LiveConfig F)
        → a.live_router ≡ new_live_router cfg
        → IsCapped (run_loop p dec updates errs events a).pilot.live_router
    run_loop-IsCapped p dec updates errs events a cfg h =
        let o = run_loop p dec updates errs events a in
        let r = run_loop-Routes p dec updates errs events a in
        subst IsCapped (sym (r.router ∙ ap (λ q. run q (collect offered o.actions)) h))
          (run-new_live_router-IsCapped cfg (collect offered o.actions))
