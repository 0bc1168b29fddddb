-- ===== src/Network/Hall/Alone.antt =====
-- libs/network, Peers::ConfirmHallOrders on a node that is alone.
use cpp_elevator.Base.{
  ℕ, ◌<◌, ◌≡◌, ◌≢◌, refl, ◌∙◌, arith, true, false, ◌==◌, Bool-cases, inl, inr, ap, not, ◌&&◌, ◌||◌,
  if◌then◌else◌, List, [], ◌∷◌,
}
use cpp_elevator.Base.Int.{pos}
use cpp_elevator.Base.Loops.{all_range_intro}
use cpp_elevator.Common.{
  k_elevs, k_floors, k_buttons, OrderStatus, eq_status, k_reassign_order_time_ms,
}
use cpp_elevator.Common.Timer.{Timer, start, expired}
use cpp_elevator.OrderSync.Order.{Order, observed_by, on_confirm}
use cpp_elevator.Base.Grid.{for_grid-get}
use cpp_elevator.Network.Costs.Best.{costs-Best, Best-active}
use cpp_elevator.Elevator.State.{ElevatorState}
use cpp_elevator.Network.Costs.{Cost, int_max, cost_of, calculate_elevator_costs}
use cpp_elevator.Network.Hall.{
  Book, is_cab, observed_by_all, confirm_with, confirm_round, confirm_hall_orders,
}
use cpp_elevator.Network.Hall.Loops.{
  confirm_hall_orders-Best, cell, confirm_order, confirm_round-orders,
}

-- Elevator `n` is the only active one.
abbrev pub IsAlone : ℕ → (ℕ → ElevatorState) → Type 0
IsAlone n states =
    ((states n).active ≡ true) × ((e : ℕ) → e < k_elevs → e ≢ n → (states e).active ≡ false)

observed_alone :
    (n : ℕ) (states : ℕ → ElevatorState) (o : Order)
    → IsAlone n states
    → observed_by n o ≡ true
    → observed_by_all states o ≡ true
unfolding observed_by_all
observed_alone n states o (act, others) seen = all_range_intro k_elevs _ (λ e he.
    elim (Bool-cases (e == n)) [
      | inl q ↦ let same : e ≡ n = ground arith in rw same (ground (arith, seen))
      | inr q ↦ let off = others e he (ground arith) in ground arith
    ])

only_active :
    (n e : ℕ) (states : ℕ → ElevatorState)
    → e < k_elevs
    → IsAlone n states
    → (states e).active ≡ true
    → e ≡ n
only_active n e states he (act, others) h = elim (Bool-cases (e == n)) [
  | inl q ↦ ground arith
  | inr q ↦ let off = others e he (ground arith) in ground arith
]

-- A node that is alone confirms a requested hall call for itself, if it has observed it and its cost
-- is below the largest int.
pub confirm_hall_orders-IsAlone :
    (n now : ℕ) (states : ℕ → ElevatorState) (k : Book) (f b : ℕ)
    → f < k_floors
    → b < 2
    → n < k_elevs
    → IsAlone n states
    → cost_of (pos f) (states n) < int_max
    → (k.orders f b).status ≡ OrderStatus.requested
    → observed_by n (k.orders f b) ≡ true
    → (confirm_hall_orders n now states k).orders f b ≡ on_confirm (pos n) (k.orders f b)
confirm_hall_orders-IsAlone n now states k f b hf hb hn alone cheap asked seen =
    let (m, best, act, e) = confirm_hall_orders-Best n now states k f b n hf hb hn alone.0 cheap in
    let own = only_active n m.1 states best.is_entry.0 alone act in
    let all = observed_alone n states (k.orders f b) alone seen in e ∙ rw (all, asked, own) refl

-- What `confirm_with` does to the timer.
abbrev timed_with : ℕ → ℕ → List Cost → Timer → Timer
timed_with n now [] t = t
timed_with n now ((cost, e) ∷ rest) t =
    if cost == int_max || not (e == n) then t else start now k_reassign_order_time_ms t

abbrev confirm_cell : ℕ → ℕ → (ℕ → ElevatorState) → ℕ → ℕ → Order × Timer → Order × Timer
confirm_cell n now states f b (o, t) = (
  confirm_order states f b o,
  if is_cab b || not (observed_by_all states o) || not (eq_status o.status OrderStatus.requested)
      then t
      else timed_with n now (calculate_elevator_costs (pos f) states) t,
)

confirm_with-timers :
    (n now i j : ℕ) (xs : List Cost) (k : Book) (f b : ℕ)
    → (confirm_with n now i j xs k).order_timers f b
      ≡ (if f == i && b == j then timed_with n now xs (k.order_timers i j) else k.order_timers f b)
unfolding confirm_with
confirm_with-timers n now i j [] k f b = ground arith
confirm_with-timers n now i j ((cost, e) ∷ xs) k f b = ground arith

confirm_round-timers :
    (n now : ℕ) (states : ℕ → ElevatorState) (i j : ℕ) (k : Book) (f b : ℕ)
    → (confirm_round n now states i j k).order_timers f b ≡ (
        if f == i && b == j
        then (confirm_cell n now states i j (cell k i j)).1
        else k.order_timers f b)
unfolding confirm_round
confirm_round-timers n now states i j k f b =
    ground (arith, confirm_with-timers n now i j (calculate_elevator_costs (pos i) states) k f b)

confirm_round-cell :
    (n now : ℕ) (states : ℕ → ElevatorState) (i j : ℕ) (k : Book) (f b : ℕ)
    → cell (confirm_round n now states i j k) f b
      ≡ (if f == i && b == j then confirm_cell n now states i j (cell k i j) else cell k f b)
confirm_round-cell n now states i j k f b =
    let o = confirm_round-orders n now states i j k f b in
    let t = confirm_round-timers n now states i j k f b in
    elim (Bool-cases (f == i && b == j)) [
      | inl q ↦ let o' = (rw q at o) in let t' = (rw q at t) in rw (q, o', t') refl
      | inr q ↦ let o' = (rw q at o) in let t' = (rw q at t) in rw (q, o', t') refl
    ]

confirm-cell :
    (n now : ℕ) (states : ℕ → ElevatorState) (k : Book) (f b : ℕ)
    → f < k_floors
    → b < 2
    → cell (confirm_hall_orders n now states k) f b ≡ confirm_cell n now states f b (cell k f b)
unfolding confirm_hall_orders
confirm-cell n now states k f b hf hb =
    for_grid-get cell (confirm_round n now states) (confirm_cell n now states)
      (confirm_round-cell n now states) k_floors k_buttons k f b
    ∙ ground arith

timed_with-expired :
    (n now : ℕ) (t : Timer) (m : Cost) (rest : List Cost)
    → m.0 < int_max
    → m.1 ≡ n
    → expired now (timed_with n now (m ∷ rest) t) ≡ false
unfolding start expired
timed_with-expired n now t m rest cheap own = ground arith

-- Then the timer of the order was started, and has not run out.
pub confirm_hall_orders-timer :
    (n now : ℕ) (states : ℕ → ElevatorState) (k : Book) (f b : ℕ)
    → f < k_floors
    → b < 2
    → n < k_elevs
    → IsAlone n states
    → cost_of (pos f) (states n) < int_max
    → (k.orders f b).status ≡ OrderStatus.requested
    → observed_by n (k.orders f b) ≡ true
    → expired now ((confirm_hall_orders n now states k).order_timers f b) ≡ false
confirm_hall_orders-timer n now states k f b hf hb hn alone cheap asked seen =
    let (m, rest, q, best) = costs-Best (pos f) states in
    let (act, small) = Best-active (pos f) states m n best hn alone.0 cheap in
    let own = only_active n m.1 states best.is_entry.0 alone act in
    let all = observed_alone n states (k.orders f b) alone seen in
    let timer : (confirm_hall_orders n now states k).order_timers f b
        ≡ timed_with n now (m ∷ rest) (k.order_timers f b) =
      ap (λ (c : Order × Timer). c.1) (confirm-cell n now states k f b hf hb)
      ∙ (let cab : is_cab b ≡ false = ground arith in rw (cab, all, asked, q) refl) in
    ap (expired now) timer ∙ timed_with-expired n now (k.order_timers f b) m rest small own
