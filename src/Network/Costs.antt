-- ===== src/Network/Costs.antt =====
-- libs/network, Peers::CalculateElevatorCosts: what it would cost each elevator to take an order.
-- A cost is a sum of penalties, hence a natural number; `std::sort` of pairs is insertion sort.
pub mod Bounds
pub mod Sorted
pub mod Best
use cpp_elevator.Base.{
  ℕ, zero, suc, ◌+◌, ◌-◌, ◌*◌, Bool, true, false, not, ◌&&◌, ◌||◌, ltb, leb, ◌==◌, if◌then◌else◌,
  List, [], ◌∷◌,
}
use cpp_elevator.Base.Int.{ℤ, pos, pos_part, neg_part, ltb_ℤ, eqb_ℤ, ◌-ℤ◌}
use cpp_elevator.Base.Grid.{for_grid}
use cpp_elevator.Common.{
  k_elevs, k_floors, k_buttons, BoolTable, MotorDir, eq_motor, Inertia, inertia_code,
}
use cpp_elevator.Elevator.State.{ElevatorState}

abbrev pub k_penalty_door_open : ℕ
k_penalty_door_open = 2

abbrev pub k_penalty_floor_diff : ℕ
k_penalty_floor_diff = 3

abbrev pub k_penalty_per_order : ℕ
k_penalty_per_order = 5

abbrev pub k_penalty_wrong_dir : ℕ
k_penalty_wrong_dir = 10

abbrev pub k_penalty_obstruction : ℕ
k_penalty_obstruction = 100

abbrev pub k_penalty_fault : ℕ
k_penalty_fault = 1000

abbrev pub k_penalty_stopped : ℕ
k_penalty_stopped = 1000

-- `std::numeric_limits<int>::max()`.
abbrev pub int_max : ℕ
int_max = 2_147_483_647

-- `std::abs(a - b)`.
abbrev pub distance : ℤ → ℤ → ℕ
distance a b =
    pos_part a
    + neg_part b
    - (pos_part b + neg_part a)
    + (pos_part b + neg_part a - (pos_part a + neg_part b))

abbrev pub penalty : Bool → ℕ → ℕ
penalty b n = if b then n else 0

unfoldable pub orders_penalty : BoolTable → ℕ
orders_penalty reqs =
    for_grid k_floors k_buttons (λ f b c. c + penalty (reqs f b) k_penalty_per_order) 0

abbrev pub eq_inertia : Inertia → Inertia → Bool
eq_inertia i j = inertia_code i == inertia_code j

-- The two penalties for a wrong direction.
unfoldable pub direction_penalty : ℤ → ElevatorState → ℕ
direction_penalty floor s =
    let moving = not (eq_motor s.motor_dir MotorDir.stop) in
    let order_below = ltb_ℤ floor s.floor in
    let order_above = ltb_ℤ s.floor floor in
    let order_here = eqb_ℤ floor s.floor in
    let going_up = eq_inertia s.inertia Inertia.up in
    let going_down = eq_inertia s.inertia Inertia.down in
    let wrong_dir_1 =
      (moving && order_below && going_up) || (moving && order_above && going_down) in
    let wrong_dir_2 = order_here && moving in
    penalty wrong_dir_1 k_penalty_wrong_dir + penalty wrong_dir_2 k_penalty_wrong_dir

-- The cost of an active elevator.
unfoldable pub cost_of : ℤ → ElevatorState → ℕ
cost_of floor s =
    distance s.floor floor * k_penalty_floor_diff
    + penalty s.obstruction k_penalty_obstruction
    + penalty s.fault k_penalty_fault
    + penalty s.stopped k_penalty_stopped
    + orders_penalty s.requests
    + penalty s.door_open k_penalty_door_open
    + direction_penalty floor s

abbrev pub Cost : Type 0
Cost = ℕ × ℕ

-- The pair (cost, elevator) for elevator `e`.
unfoldable pub entry : ℤ → (ℕ → ElevatorState) → ℕ → Cost
entry floor states e = (if (states e).active then cost_of floor (states e) else int_max, e)

-- `operator<` of `std::pair`, as "not greater".
abbrev pub not_after : Cost → Cost → Bool
not_after (c, e) (d, i) = ltb c d || (c == d && leb e i)

unfoldable pub insert : Cost → List Cost → List Cost
insert x [] = x ∷ []
insert x (y ∷ ys) = if not_after x y then x ∷ y ∷ ys else y ∷ insert x ys

unfoldable pub sort : List Cost → List Cost
unfolding insert
sort [] = []
sort (x ∷ xs) = insert x (sort xs)

unfoldable pub calculate_elevator_costs : ℤ → (ℕ → ElevatorState) → List Cost
calculate_elevator_costs floor states =
    sort (
      entry floor states 0
      ∷ entry floor states 1
      ∷ entry floor states 2
      ∷ entry floor states 3
      ∷ [])
