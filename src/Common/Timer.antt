-- ===== src/Common/Timer.antt =====
-- libs/common, class Timer. The steady clock is read by the caller and passed in, in its ticks of a
-- nanosecond since some start; it does not wrap.
use cpp_elevator.Base.{
  ℕ, ◌+◌, ◌-◌, ◌*◌, ◌≤◌, ◌≡◌, refl, arith, Bool, true, false, leb, ltb, if◌then◌else◌, ◌↔◌,
}

pub record Timer : Type 0 where
  pub end_time : ℕ
  pub active : Bool

abbrev pub default_timer : Timer
default_timer = record { end_time = 0; active = false }

abbrev pub ticks_per_ms : ℕ
ticks_per_ms = 1_000_000

unfoldable pub start : ℕ → ℕ → Timer → Timer
start now duration_ms t = record { end_time = now + duration_ms * ticks_per_ms; active = true }

unfoldable pub stop : Timer → Timer
stop t = record t { active = false }

unfoldable pub expired : ℕ → Timer → Bool
expired now t = if t.active then leb t.end_time now else false

-- `TimeLeftMs() > ms`, compared in ticks.
unfoldable pub left_above : ℕ → ℕ → Timer → Bool
left_above now ms t = if t.active then ltb (ms * ticks_per_ms) (t.end_time - now) else false

-- A timer that was started runs out at its deadline and stays so; stopped, it never does.
pub expired-start :
    (now later ms : ℕ) (t : Timer)
    → ((expired later (start now ms t) ≡ true) ↔ (now + ms * ticks_per_ms ≤ later))
      × (expired later (stop t) ≡ false)
unfolding expired start stop
expired-start now later ms t = (ground arith, refl)
