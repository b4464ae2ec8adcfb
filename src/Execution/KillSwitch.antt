-- ===== src/Execution/KillSwitch.antt =====
-- internal/execution/kill_switch.go. Each method holds the mutex for its whole body, so it is one step.
use polymarket_signal_autopi.Base.{Bool, true, false, String}

pub record KillSwitch : Type 0 where
  pub triggered : Bool
  pub reason : String

-- `NewKillSwitch`
abbrev pub new_kill_switch : KillSwitch
new_kill_switch = record { triggered = false; reason = "" }

unfoldable pub trigger : KillSwitch → String → KillSwitch
trigger k why = record k { triggered = true; reason = why }

unfoldable pub reset : KillSwitch → KillSwitch
reset k = record k { triggered = false; reason = "" }

unfoldable pub active : KillSwitch → Bool × String
active k = (k.triggered, k.reason)
