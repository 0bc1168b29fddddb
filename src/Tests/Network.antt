-- ===== src/Tests/Network.antt =====
-- libs/network, evaluated on concrete states of the elevators.
use cpp_elevator.Base.{
  ℕ, ◌<◌, ◌≤◌, ◌≡◌, ◌≢◌, refl, arith, true, false, [], ◌∷◌, ◌&&◌, if◌then◌else◌, inl, inr,
}
use cpp_elevator.Base.Int.{pos}
use cpp_elevator.Base.Grid.{put, for_grid}
use cpp_elevator.Base.Outcome.{done, Returns}
use cpp_elevator.Common.{k_elevs, OrderStatus}
use cpp_elevator.Common.Timer.{default_timer, expired}
use cpp_elevator.OrderSync.Order.{Order, default_order, on_confirm, observed_by}
use cpp_elevator.OrderSync.Table.{OrderTable, default_table}
use cpp_elevator.Elevator.State.{ElevatorState, default_state, usable}
use cpp_elevator.Network.Costs.{
  Cost, int_max, cost_of, entry, sort, orders_penalty, direction_penalty, calculate_elevator_costs,
}
use cpp_elevator.Network.Costs.Bounds.{cost_of-le}
use cpp_elevator.Network.Costs.Best.{Best}
use cpp_elevator.Network.Assign.{reassigned}
use cpp_elevator.Network.Assign.Reassigned.{reassigned-unusable}
use cpp_elevator.Network.Hall.{
  Book, observed_by_all, confirm_hall_orders, control_hall_order_timers,
}
use cpp_elevator.Network.Hall.Sound.{AllSound, put-AllSound, default_table-AllSound}
use cpp_elevator.OrderSync.Order.Sound.{IsSound}
use cpp_elevator.Network.Peers.Ok.{PeersOk, default_cabs-CabsSound}
use cpp_elevator.Network.Hall.Alone.{IsAlone, confirm_hall_orders-IsAlone}
use cpp_elevator.Network.Hall.Loops.{is_timed, confirm_hall_orders-Best, control-is_timed}
use cpp_elevator.Network.Peers.Cleared.{Cells, clear_orders-Cells}
use cpp_elevator.Network.Peers.{Peers, set_at, step, clear_orders}
use cpp_elevator.Network.Peers.{watchdog_round}
use cpp_elevator.Network.Assign.{reassigned}
use cpp_elevator.Network.Assign.Takeover.{TakesOver}
use cpp_elevator.Network.Assign.Reassigned.{reassigned-Returns}
use cpp_elevator.Network.Peers.Gone.{IsGone}
use cpp_elevator.Network.Peers.Lost.{step-IsGone}
use cpp_elevator.Network.Peers.Handover.{IsReplaced, watchdog_round-IsReplaced}
use cpp_elevator.Network.Peers.Invariant.{Timed, step-Returns}

-- An elevator that waits at a floor.
abbrev waiting : ℕ → ℕ → ElevatorState
waiting id floor = record default_state {
  id = pos id;
  floor = pos floor;
  active = true;
  obstruction = false;
}

-- Elevators 0 and 2 wait; elevator 1 is obstructed; elevator 3 is not in the system.
abbrev three : ℕ → ElevatorState
three = set_at 0 (waiting 0 0) (
    set_at 1 (record default_state { floor = pos 1; active = true })
      (set_at 2 (waiting 2 3) (λ e. default_state)))

costs_three :
    calculate_elevator_costs (pos 3) three ≡ (0, 2) ∷ (9, 0) ∷ (106, 1) ∷ (int_max, 3) ∷ []
unfolding calculate_elevator_costs sort entry cost_of orders_penalty for_grid direction_penalty
costs_three = refl

cost_of-le_example : (cost_of (pos 3) (three 1) ≤ 2191) × (cost_of (pos 3) (three 1) < int_max)
cost_of-le_example =
    cost_of-le (pos 3) (three 1) (omega arith) (omega arith) (omega arith) (omega arith)

cheap : (f : ℕ) → f < 4 → cost_of (pos f) (three 2) < int_max
cheap f h = (cost_of-le (pos f) (three 2) (omega arith) (omega arith) (omega arith) (omega arith)).1

obstructed : usable (three 1) ≡ false
unfolding usable
obstructed = refl

reassigned-unusable_example :
    (i : ℕ) × (reassigned 3 three 1 (pos 1) ≡ done (pos i))
    × (i < k_elevs)
    × (i ≢ 1)
    × ((three i).active ≡ true)
    × (cost_of (pos 1) (three i) ≤ cost_of (pos 1) (three 2))
reassigned-unusable_example =
    reassigned-unusable 3 three 1 1 2 (omega arith) (λ h. omega arith) obstructed (omega arith)
      (λ h. omega arith) refl (cheap 1 (omega arith))

-- A requested order that elevators 0, 1 and 2 have observed, and one confirmed for elevator 1.
abbrev requested_order : Order
requested_order = record default_order {
  status = OrderStatus.requested;
  observed_mask = 7;
  version = 1;
}

abbrev order_of_1 : Order
order_of_1 = record default_order {
  status = OrderStatus.confirmed;
  assigned_id = pos 1;
  observed_mask = 7;
  version = 2;
}

abbrev pub some_orders : OrderTable
some_orders = put (put default_table 2 1 requested_order) 1 0 order_of_1

abbrev some_book : Book
some_book = record { orders = some_orders; order_timers = λ f b. default_timer }

confirm_hall_orders-Best_example :
    (m : Cost) × Best (pos 2) three m
    × ((three m.1).active ≡ true)
    × ((confirm_hall_orders 2 7 three some_book).orders 2 1 ≡ (
        if observed_by_all three requested_order && true
        then on_confirm (pos m.1) requested_order
        else requested_order))
confirm_hall_orders-Best_example =
    confirm_hall_orders-Best 2 7 three some_book 2 1 2 (omega arith) (omega arith) (omega arith)
      refl (cheap 2 (omega arith))

control-is_timed_example :
    let k' = control_hall_order_timers 1 7 three some_book in
    ((k'.order_timers 1 0).active ≡ is_timed 1 (k'.orders 1 0)) × (k'.orders 1 0 ≡ order_of_1)
control-is_timed_example = control-is_timed 1 7 three some_book 1 0 (omega arith) (omega arith)

-- Node 2, whose watchdog of elevator 1 has run out.
abbrev pub peers : Peers
peers = record {
  node_id = 2;
  num_elevs = 0;
  book = some_book;
  watchdog_timers = set_at 1 (record { end_time = 5; active = true }) (λ e. default_timer);
  all_states = three;
  cab_button_orders = λ e f. default_order;
}

requested_order-IsSound : IsSound requested_order
requested_order-IsSound = record {
  valid = record {
    assigned_from = omega arith;
    assigned_below = omega arith;
    status_named = omega arith;
    mask_below = omega arith;
  };
  assigned = λ h. absurd cc;
}

order_of_1-IsSound : IsSound order_of_1
order_of_1-IsSound = record {
  valid = record {
    assigned_from = omega arith;
    assigned_below = omega arith;
    status_named = omega arith;
    mask_below = omega arith;
  };
  assigned = λ h. (1, refl, omega arith);
}

pub some_orders-AllSound : AllSound some_orders
some_orders-AllSound =
    put-AllSound (put default_table 2 1 requested_order) 1 0 order_of_1
      (put-AllSound default_table 2 1 requested_order default_table-AllSound
        (λ _. requested_order-IsSound))
      (λ _. order_of_1-IsSound)

pub peers-PeersOk : PeersOk 2 peers
peers-PeersOk = record {
  base = record {
    own_id = refl;
    in_range = omega arith;
    unwatched = refl;
    sound = some_orders-AllSound;
    cabs = default_cabs-CabsSound;
  };
  active = refl;
  named = refl;
  own = record {
    id_from = omega arith;
    id_below = omega arith;
    floor_from = omega arith;
    floor_below = omega arith;
    motor_named = inr (inl refl);
    moving_named = omega arith;
    inertia_named = omega arith;
  };
}

step-Returns_example : Returns (λ q. PeersOk 2 q × Timed q) (step 7 peers)
step-Returns_example = step-Returns 7 peers peers-PeersOk

clear_orders-Cells_example :
    Returns
      (Cells (record { hall_up = true; hall_down = false; cab = true }) 1 3 peers)
      (clear_orders (pos 1) (record { hall_up = true; hall_down = false; cab = true }) peers)
clear_orders-Cells_example =
    clear_orders-Cells (record { hall_up = true; hall_down = false; cab = true }) 1 peers
      (omega arith)

-- Elevator 2 is the only one.
abbrev alone : ℕ → ElevatorState
alone = set_at 2 (waiting 2 3) (λ e. default_state)

alone-IsAlone : IsAlone 2 alone
alone-IsAlone = (refl, λ e h. ground arith)

seen_by_2 : observed_by 2 requested_order ≡ true
unfolding observed_by
seen_by_2 = refl

confirm_hall_orders-IsAlone_example :
    (confirm_hall_orders 2 7 alone some_book).orders 2 1 ≡ on_confirm (pos 2) requested_order
confirm_hall_orders-IsAlone_example =
    confirm_hall_orders-IsAlone 2 7 alone some_book 2 1 (omega arith) (omega arith) (omega arith)
      alone-IsAlone (cheap 2 (omega arith)) refl seen_by_2

-- Node 2 has counted three elevators, and hears no more from elevator 1.
abbrev losing_1 : Peers
losing_1 = record peers { num_elevs = 3 }

losing_1-PeersOk : PeersOk 2 losing_1
losing_1-PeersOk = record {
  base = record {
    own_id = refl;
    in_range = omega arith;
    unwatched = refl;
    sound = some_orders-AllSound;
    cabs = default_cabs-CabsSound;
  };
  active = refl;
  named = refl;
  own = peers-PeersOk.own;
}

late_1 : expired 7 (losing_1.watchdog_timers 1) ≡ true
unfolding expired
late_1 = refl

watchdog_round-IsReplaced_example :
    Returns (λ q. PeersOk 2 q × IsReplaced 1 losing_1 q) (watchdog_round 7 1 losing_1)
watchdog_round-IsReplaced_example =
    watchdog_round-IsReplaced 7 1 losing_1 losing_1-PeersOk (omega arith) late_1 (λ h. omega arith)

step-IsGone_example : Returns (λ q. PeersOk 2 q × IsGone 1 q) (step 7 losing_1)
step-IsGone_example = step-IsGone 7 1 losing_1 losing_1-PeersOk (omega arith) refl late_1

reassigned-Returns_example : Returns (TakesOver three 1) (reassigned 3 three 1 (pos 1))
reassigned-Returns_example =
    reassigned-Returns 3 three 1 1 2 (omega arith) (omega arith) refl (cheap 1 (omega arith))
