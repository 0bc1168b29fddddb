-- ===== src/Network/Peers.antt =====
-- libs/network, class Peers: the elevators as one node knows them. `node_id` is the id that `Init`
-- stored; an index that the arrays do not have is a fault.

pub mod Ok
pub mod Invariant
pub mod Lone
pub mod Alone
pub mod Handover
pub mod Gone
pub mod Lost
pub mod Clear
pub mod Cleared
use cpp_elevator.Base.{ℕ, ltb, ◌+◌, Bool, not, ◌&&◌, ◌||◌, ◌==◌, if◌then◌else◌}
use cpp_elevator.Base.Int.{ℤ, pos, pos_part, ltb_ℤ, leb_ℤ, eqb_ℤ}
use cpp_elevator.Base.Loops.{for_range}
use cpp_elevator.Base.Grid.{Grid, put}
use cpp_elevator.Base.Outcome.{Outcome, done, fault, ◌>>=◌, for_range! }
use cpp_elevator.Common.{k_elevs, k_floors, k_buttons, ButtonFlags, k_watchdog_time_ms}
use cpp_elevator.Common.Timer.{Timer, default_timer, start, stop, expired}
use cpp_elevator.OrderSync.Order.{Order, default_order, on_clear, on_reset}
use cpp_elevator.OrderSync.Table.{OrderTable, default_table, order}
use cpp_elevator.Elevator.State.{ElevatorState, default_state, on_watchdog_timeout}
use cpp_elevator.Network.Hall.{
  Book, is_cab, set_order, set_timer, observe_orders, confirm_hall_orders, reset_hall_orders,
  monitor_hall_order_timers, reassign_hall_orders, control_hall_order_timers,
}

pub record Peers : Type 0 where
  pub node_id : ℕ
  pub num_elevs : ℕ
  pub book : Book
  pub watchdog_timers : ℕ → Timer
  pub all_states : ℕ → ElevatorState
  pub cab_button_orders : Grid Order

-- `Peers()`. The node has no id before `Init`, and reads none: `unset` stands for it.
abbrev pub new : ℕ → Peers
new unset = record {
  node_id = unset;
  num_elevs = 0;
  book = record { orders = default_table; order_timers = λ f b. default_timer };
  watchdog_timers = λ e. default_timer;
  all_states = λ e. default_state;
  cab_button_orders = λ e f. default_order;
}

-- `array[i] = v`.
abbrev pub set_at {ℓ} : {A : Type ℓ} → ℕ → A → (ℕ → A) → ℕ → A
set_at i v a j = if j == i then v else a j

unfoldable pub init : ℕ → Peers → Peers
init node_id p = record p { node_id = node_id }

-- `State`, with its assertion.
unfoldable pub state : ℕ → Peers → Outcome ElevatorState
state elev_id p = if ltb elev_id k_elevs then done (p.all_states elev_id) else fault

unfoldable pub count_active : (ℕ → ElevatorState) → ℕ
count_active states = for_range k_elevs (λ e count. count + (if (states e).active then 1 else 0)) 0

unfoldable pub update_num_elevs : Peers → Peers
update_num_elevs p = record p { num_elevs = count_active p.all_states }

unfoldable pub update_watchdog_timer : ℕ → ℕ → Peers → Peers
update_watchdog_timer now elev_id p = record p {
  watchdog_timers =
      set_at elev_id (start now k_watchdog_time_ms (p.watchdog_timers elev_id)) p.watchdog_timers;
}

-- `ReassignHallOrders`.
unfoldable pub reassign_orders : ℕ → ℕ → Peers → Outcome Peers
reassign_orders now elev_id p =
    reassign_hall_orders p.node_id now p.num_elevs p.all_states elev_id p.book
    >>= (λ k. done (record p { book = k }))

abbrev pub watchdog_timeout : ℕ → Peers → Peers
watchdog_timeout e p = record p {
  watchdog_timers = set_at e (stop (p.watchdog_timers e)) p.watchdog_timers;
  all_states = set_at e (on_watchdog_timeout (p.all_states e)) p.all_states;
}

unfoldable pub watchdog_round : ℕ → ℕ → Peers → Outcome Peers
watchdog_round now e p =
    if expired now (p.watchdog_timers e)
    then reassign_orders now e (watchdog_timeout e p)
    else done p

unfoldable pub monitor_watchdog_timers : ℕ → Peers → Outcome Peers
monitor_watchdog_timers now = for_range! k_elevs (watchdog_round now)

unfoldable pub fault_round : ℕ → ℕ → Peers → Outcome Peers
fault_round now e p =
    if not (p.all_states e).active
    then done p
    else if (p.all_states e).fault
    then reassign_orders now e p
    else done p

unfoldable pub monitor_fault : ℕ → Peers → Outcome Peers
monitor_fault now = for_range! k_elevs (fault_round now)

abbrev pub with_book : (Book → Book) → Peers → Peers
with_book g p = record p { book = g p.book }

unfoldable pub step : ℕ → Peers → Outcome Peers
unfolding update_num_elevs monitor_watchdog_timers monitor_fault
step now p =
    monitor_watchdog_timers now (update_num_elevs p)
    >>= monitor_fault now
    >>= (λ p. done (with_book (observe_orders p.node_id) p))
    >>= (λ p. done (with_book (confirm_hall_orders p.node_id now p.all_states) p))
    >>= (λ p. done (with_book reset_hall_orders p))
    >>= (λ p.
        monitor_hall_order_timers p.node_id now p.num_elevs p.all_states p.book
        >>= (λ k. done (record p { book = k })))
    >>= (λ p. done (with_book (control_hall_order_timers p.node_id now p.all_states) p))

-- The `Cab` branch of `ClearOrders`.
abbrev pub clear_cab : ℕ → ℕ → Peers → Peers
clear_cab floor b p = record p {
  book = set_order floor b (on_reset (on_clear (order p.book.orders floor b))) p.book;
  cab_button_orders =
      put p.cab_button_orders p.node_id floor
        (on_reset (on_clear (p.cab_button_orders p.node_id floor)));
}

abbrev pub clear_hall : ℕ → ℕ → Peers → Peers
clear_hall floor b p =
    if eqb_ℤ (order p.book.orders floor b).assigned_id (pos p.node_id)
    then record p {
      book =
          set_timer floor b (stop (p.book.order_timers floor b))
            (set_order floor b (on_clear (order p.book.orders floor b)) p.book);
    }
    else p

abbrev pub flag : ButtonFlags → ℕ → Bool
flag f b = if b == 0 then f.hall_up else if b == 1 then f.hall_down else f.cab

unfoldable pub clear_round : ButtonFlags → ℕ → ℕ → Peers → Peers
clear_round b2c floor b p =
    if not (flag b2c b) then p else if is_cab b then clear_cab floor b p else clear_hall floor b p

-- A floor out of range is an access out of bounds, when a button is to be cleared.
unfoldable pub clear_orders : ℤ → ButtonFlags → Peers → Outcome Peers
unfolding clear_round
clear_orders floor b2c p =
    for_range! k_buttons
      (λ b p.
        if flag b2c b && (ltb_ℤ floor (pos 0) || leb_ℤ (pos k_floors) floor)
        then fault
        else done (clear_round b2c (pos_part floor) b p))
      p
