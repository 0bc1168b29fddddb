-- ===== src/Hardware/Wire.antt =====
-- libs/hardware, what a trace says of the cabin: the outputs as the server last had them.
use cpp_elevator.Base.{ℕ, ◌==◌, List, [], ◌∷◌, if◌then◌else◌}
use cpp_elevator.Hardware.{Event}

-- The argument of the newest message with operation `op`, if any was sent; `start` otherwise.
abbrev pub last_arg : ℕ → ℕ → List Event → ℕ
last_arg op start [] = start
last_arg op start (Event.sent m ∷ es) = if m.m0 == op then m.m1 else last_arg op start es
last_arg op start (Event.halted ∷ es) = last_arg op start es
last_arg op start (Event.closed ∷ es) = last_arg op start es

-- No assertion has failed.
abbrev pub Alive : List Event → Type 0
Alive [] = Unit {0}
Alive (Event.sent m ∷ es) = Alive es
Alive (Event.halted ∷ es) = ⊥
Alive (Event.closed ∷ es) = Alive es
