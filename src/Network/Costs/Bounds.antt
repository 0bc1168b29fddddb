-- ===== src/Network/Costs/Bounds.antt =====
-- libs/network, Peers::CalculateElevatorCosts: how large a cost can be.
use cpp_elevator.Base.{ℕ, zero, suc, ◌+◌, ◌*◌, ◌≤◌, ◌<◌, arith, Bool}
use cpp_elevator.Base.Int.{ℤ, pos, ◌≤ℤ◌, ◌<ℤ◌}
use cpp_elevator.Base.Loops.{for_range}
use cpp_elevator.Base.Grid.{for_grid}
use cpp_elevator.Common.{k_floors, BoolTable}
use cpp_elevator.Elevator.State.{ElevatorState}
use cpp_elevator.Network.Costs.{penalty, int_max, orders_penalty, direction_penalty, cost_of}

row_bound : (reqs : ℕ → Bool) (n c : ℕ) → for_range n (λ b c. c + penalty (reqs b) 5) c ≤ c + n * 5
unfolding for_range
row_bound reqs zero c = omega arith
row_bound reqs (suc n) c = ground (arith, row_bound reqs n c)

grid_bound :
    (reqs : BoolTable) (n c : ℕ) → for_grid n 3 (λ f b c. c + penalty (reqs f b) 5) c ≤ c + n * 15
unfolding for_grid for_range
grid_bound reqs zero c = omega arith
grid_bound reqs (suc n) c = omega (
  arith,
  grid_bound reqs n c,
  row_bound (reqs n) 3 (for_grid n 3 (λ f b c. c + penalty (reqs f b) 5) c),
)

orders_penalty-le : (reqs : BoolTable) → orders_penalty reqs ≤ 60
unfolding orders_penalty
orders_penalty-le reqs = omega (arith, grid_bound reqs 4 0)

direction_penalty-le : (floor : ℤ) (s : ElevatorState) → direction_penalty floor s ≤ 20
unfolding direction_penalty
direction_penalty-le floor s = ground arith

-- For floors of the building a cost is at most 2191, so the sum does not overflow an `int`, and no
-- active elevator has the cost of an inactive one.
pub cost_of-le :
    (floor : ℤ) (s : ElevatorState)
    → pos 0 ≤ℤ floor
    → floor <ℤ pos k_floors
    → pos 0 ≤ℤ s.floor
    → s.floor <ℤ pos k_floors
    → (cost_of floor s ≤ 2191) × (cost_of floor s < int_max)
unfolding cost_of
cost_of-le floor s a b c d =
    ground (arith, orders_penalty-le s.requests, direction_penalty-le floor s)
