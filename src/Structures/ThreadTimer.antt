-- ===== src/Structures/ThreadTimer.antt =====
-- source/bringauto/structures/ThreadTimer.cpp. Of the Boost timer the state keeps when it expires
-- and whether a wait is pending; time is an argument. A cancelled wait ends with
-- `operation_aborted`; one that ends by its time is pending no more, until `tick` arms the timer again.
use module_gateway.Common.{ℕ, ◌+◌, Bool, true, false, ◌≡◌, if◌then◌else◌}
use module_gateway.Structures.Constants.{status_aggregation_timeout}

pub record ThreadTimer : Type 0 where
  pub ended : Bool
  pub expires_at : ℕ
  pub waiting : Bool

pub start : ℕ → ThreadTimer → ThreadTimer
start now t = record t {
  ended = false;
  expires_at = now + status_aggregation_timeout;
  waiting = true;
}

pub stop : ThreadTimer → ThreadTimer
stop t = record t { ended = true; waiting = false }

unfoldable pub restart : ℕ → ThreadTimer → ThreadTimer
unfolding start stop
restart now t = start now (stop t)

-- The constructor leaves the timer unarmed; its owner starts it.
unfoldable pub started : ℕ → ThreadTimer
unfolding start
started now = start now (record { ended = false; expires_at = now; waiting = false })

-- Whether a wait that ends, by a cancel or by its time, ends the pending one. A cancelled wait has
-- been taken back by `stop`, or replaced by the one that is pending.
unfoldable pub ends : Bool → ThreadTimer → Bool
ends aborted t = if aborted then false else t.waiting

-- The pending wait has ended.
unfoldable pub expire : ThreadTimer → ThreadTimer
expire t = record t { waiting = false }

-- Whether `tick`, after a wait that was not cancelled, goes on to call `fun_`.
unfoldable pub fires : ThreadTimer → Bool
fires t = if t.ended then false else true

-- The end of `tick`: the timer is armed again.
unfoldable pub rearm : ℕ → ThreadTimer → ThreadTimer
rearm now t = record t { expires_at = now + status_aggregation_timeout; waiting = true }

-- Armed, with its callback enabled.
abbrev pub IsRunning : ThreadTimer → Type 0
IsRunning t = (t.ended ≡ false) × (t.waiting ≡ true)
