-- ===== src/Network/Peers/Cleared.antt =====
-- libs/network, Peers::ClearOrders: what becomes of the orders and timers at the floor.
use cpp_elevator.Base.{
  ℕ, zero, suc, ◌<◌, ◌≡◌, refl, ◌∙◌, arith, Bool, not, ◌&&◌, ◌||◌, ◌==◌, ltb, if◌then◌else◌,
}
use cpp_elevator.Base.Int.{ℤ, pos, pos_part, eqb_ℤ, ltb_ℤ, leb_ℤ}
use cpp_elevator.Base.Loops.{for_range}
use cpp_elevator.Base.Outcome.{Outcome, done, fault, Returns, for_range! }
use cpp_elevator.Common.{k_floors, k_buttons, ButtonFlags}
use cpp_elevator.Common.Timer.{stop}
use cpp_elevator.OrderSync.Order.{Order, on_clear, on_reset}
use cpp_elevator.Network.Hall.{is_cab}
use cpp_elevator.Network.Peers.{Peers, flag, clear_round, clear_orders}

-- A hall call at a button that is to be cleared, if it is assigned to elevator `n`.
abbrev pub is_served : ButtonFlags → ℕ → ℕ → Order → Bool
is_served b2c n b o = flag b2c b && not (is_cab b) && eqb_ℤ o.assigned_id (pos n)

-- The order at button `b` of the floor afterwards.
abbrev pub cleared : ButtonFlags → ℕ → ℕ → Order → Order
cleared b2c n b o =
    if flag b2c b && is_cab b
    then on_reset (on_clear o)
    else if is_served b2c n b o
    then on_clear o
    else o

-- One round, for any cell of the orders, the timers and the cab orders.
record Cell (b2c : ButtonFlags) (f b : ℕ) (p q : Peers) : Type 0 where
  own_id : q.node_id ≡ p.node_id
  order :
      (g c : ℕ)
      → q.book.orders g c ≡ (
          if g == f && c == b
          then cleared b2c p.node_id b (p.book.orders f b)
          else p.book.orders g c)
  timer :
      (g c : ℕ)
      → q.book.order_timers g c ≡ (
          if g == f && c == b && is_served b2c p.node_id b (p.book.orders f b)
          then stop (p.book.order_timers f b)
          else p.book.order_timers g c)
  cab :
      (e g : ℕ)
      → q.cab_button_orders e g ≡ (
          if e == p.node_id && g == f && (flag b2c b && is_cab b)
          then on_reset (on_clear (p.cab_button_orders p.node_id f))
          else p.cab_button_orders e g)

clear_round-Cell :
    (b2c : ButtonFlags) (f b : ℕ) (p : Peers) → Cell b2c f b p (clear_round b2c f b p)
unfolding clear_round
clear_round-Cell b2c f b p = record {
  own_id = ground arith;
  order = λ g c. ground arith;
  timer = λ g c. ground arith;
  cab = λ e g. ground arith;
}

-- After the rounds of the buttons below `k`.
pub record Cells (b2c : ButtonFlags) (f k : ℕ) (p q : Peers) : Type 0 where
  pub own_id : q.node_id ≡ p.node_id
  pub order :
      (g c : ℕ)
      → q.book.orders g c ≡ (
          if g == f && ltb c k
          then cleared b2c p.node_id c (p.book.orders f c)
          else p.book.orders g c)
  pub timer :
      (g c : ℕ)
      → q.book.order_timers g c ≡ (
          if g == f && ltb c k && is_served b2c p.node_id c (p.book.orders f c)
          then stop (p.book.order_timers f c)
          else p.book.order_timers g c)
  pub cab :
      (e g : ℕ)
      → q.cab_button_orders e g ≡ (
          if e == p.node_id && g == f && (ltb 2 k && flag b2c 2)
          then on_reset (on_clear (p.cab_button_orders p.node_id f))
          else p.cab_button_orders e g)

Cells-zero : (b2c : ButtonFlags) (f : ℕ) (p : Peers) → Cells b2c f 0 p p
Cells-zero b2c f p = record {
  own_id = refl;
  order = λ g c. ground arith;
  timer = λ g c. ground arith;
  cab = λ e g. ground arith;
}

Cells-suc :
    (b2c : ButtonFlags) (f k : ℕ) (p q r : Peers)
    → Cells b2c f k p q
    → Cell b2c f k q r
    → Cells b2c f (suc k) p r
Cells-suc b2c f k p q r h s =
    let id = h.own_id in
    record {
      own_id = s.own_id ∙ h.own_id;
      order = λ g c. let a = h.order g c in let b = h.order f k in s.order g c ∙ ground arith;
      timer = λ g c.
          let a = h.timer g c in
          let b = h.timer f k in let d = h.order f k in s.timer g c ∙ ground arith;
      cab = λ e g. let a = h.cab e g in let b = h.cab p.node_id f in s.cab e g ∙ ground arith;
    }

rounds-Cells :
    (b2c : ButtonFlags) (f k : ℕ) (p : Peers) → Cells b2c f k p (for_range k (clear_round b2c f) p)
unfolding for_range
rounds-Cells b2c f zero p = Cells-zero b2c f p
rounds-Cells b2c f (suc k) p =
    Cells-suc b2c f k p _ _ (rounds-Cells b2c f k p)
      (clear_round-Cell b2c f k (for_range k (clear_round b2c f) p))

checked : ButtonFlags → ℤ → ℕ → Peers → Outcome Peers
unfolding clear_round
checked b2c floor b p =
    if flag b2c b && (ltb_ℤ floor (pos 0) || leb_ℤ (pos k_floors) floor)
    then fault
    else done (clear_round b2c (pos_part floor) b p)

checked-done :
    (b2c : ButtonFlags) (f b : ℕ) (p : Peers)
    → f < k_floors
    → checked b2c (pos f) b p ≡ done (clear_round b2c f b p)
unfolding checked
checked-done b2c f b p h = ground arith

rounds-done :
    (b2c : ButtonFlags) (f k : ℕ) (p : Peers)
    → f < k_floors
    → for_range! k (checked b2c (pos f)) p ≡ done (for_range k (clear_round b2c f) p)
unfolding for_range! for_range
rounds-done b2c f zero p h = refl
rounds-done b2c f (suc k) p h =
    rw (rounds-done b2c f k p h) (checked-done b2c f k (for_range k (clear_round b2c f) p) h)

-- At a floor of the building, ClearOrders clears and resets the node's cab call there, in both places
-- where it is kept, if its flag is set; it clears the flagged hall calls that are assigned to the
-- node and stops their timers, and changes no other order and no other timer.
pub clear_orders-Cells :
    (b2c : ButtonFlags) (f : ℕ) (p : Peers)
    → f < k_floors
    → Returns (Cells b2c f k_buttons p) (clear_orders (pos f) b2c p)
unfolding clear_orders checked
clear_orders-Cells b2c f p h = (
  for_range k_buttons (clear_round b2c f) p,
  rounds-done b2c f k_buttons p h,
  rounds-Cells b2c f k_buttons p,
)
