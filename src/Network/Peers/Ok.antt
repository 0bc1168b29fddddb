-- ===== src/Network/Peers/Ok.antt =====
-- libs/network, class Peers: what a step of Peers relies on.
use cpp_elevator.Base.{ℕ, keep_if, ◌==◌, ◌&&◌, ◌<◌, ◌≡◌, ◌≢◌, refl, ◌∙◌, arith, true, false}
use cpp_elevator.Base.Int.{pos}
use cpp_elevator.Base.Grid.{Grid, put}
use cpp_elevator.Common.{k_elevs, k_floors}
use cpp_elevator.OrderSync.Order.{Order, default_order}
use cpp_elevator.OrderSync.Order.Sound.{IsSound, default_order-IsSound}
use cpp_elevator.Elevator.State.Updates.{IsValid}
use cpp_elevator.Network.Hall.{Book}
use cpp_elevator.Network.Hall.Sound.{AllSound, default_table-AllSound}
use cpp_elevator.Network.Peers.{Peers, set_at, new, init}

-- Every cab order that is kept for an elevator is sound.
abbrev pub CabsSound : Grid Order → Type 0
CabsSound c = (e f : ℕ) → e < k_elevs → f < k_floors → IsSound (c e f)

pub default_cabs-CabsSound : CabsSound (λ e f. default_order)
default_cabs-CabsSound e f he hf = default_order-IsSound

pub put-CabsSound :
    (c : Grid Order) (i j : ℕ) (o : Order) → CabsSound c → IsSound o → CabsSound (put c i j o)
put-CabsSound c i j o h s e f he hf = keep_if IsSound (e == i && f == j) o (c e f) s (h e f he hf)

-- The node is elevator `i` of the system, its own watchdog is not running, and all orders are sound.
pub record PeersBase (i : ℕ) (p : Peers) : Type 0 where
  pub own_id : p.node_id ≡ i
  pub in_range : p.node_id < k_elevs
  pub unwatched : (p.watchdog_timers p.node_id).active ≡ false
  pub sound : AllSound p.book.orders
  pub cabs : CabsSound p.cab_button_orders

-- Moreover the node is an active elevator, with a valid state under its own id.
pub record PeersOk (i : ℕ) (p : Peers) : Type 0 where
  pub base : PeersBase i p
  pub active : (p.all_states p.node_id).active ≡ true
  pub named : (p.all_states p.node_id).id ≡ pos i
  pub own : IsValid (p.all_states p.node_id)

pub set_at_other {ℓ} :
    {A : Type ℓ} (i : ℕ) (v : A) (a : ℕ → A) (j : ℕ) → j ≢ i → set_at i v a j ≡ a j
set_at_other i v a j h = ground arith

-- The invariant reads the node's own timer, state and id, and the orders.
pub PeersBase-of :
    {i : ℕ} (p q : Peers)
    → PeersBase i p
    → q.node_id ≡ p.node_id
    → q.watchdog_timers p.node_id ≡ p.watchdog_timers p.node_id
    → AllSound q.book.orders
    → CabsSound q.cab_button_orders
    → PeersBase i q
PeersBase-of p q ok a c h k = record {
  own_id = a ∙ ok.own_id;
  in_range = rw a ok.in_range;
  unwatched = rw (a, c) ok.unwatched;
  sound = h;
  cabs = k;
}

pub PeersOk-of :
    {i : ℕ} (p q : Peers)
    → PeersOk i p
    → q.node_id ≡ p.node_id
    → q.all_states p.node_id ≡ p.all_states p.node_id
    → q.watchdog_timers p.node_id ≡ p.watchdog_timers p.node_id
    → AllSound q.book.orders
    → CabsSound q.cab_button_orders
    → PeersOk i q
PeersOk-of p q ok a b c h k = record {
  base = PeersBase-of p q ok.base a c h k;
  active = rw (a, b) ok.active;
  named = rw (a, b) ok.named;
  own = rw (a, b) ok.own;
}

pub with_book-PeersOk :
    {i : ℕ} (p : Peers) (k : Book)
    → PeersOk i p
    → AllSound k.orders
    → PeersOk i (record p { book = k })
with_book-PeersOk p k ok h = PeersOk-of p (record p { book = k }) ok refl refl refl h ok.base.cabs

-- What the constructor and `Init` leave.
pub init-PeersBase : (unset id : ℕ) → id < k_elevs → PeersBase id (init id (new unset))
unfolding init
init-PeersBase unset id h = record {
  own_id = refl;
  in_range = h;
  unwatched = refl;
  sound = default_table-AllSound;
  cabs = default_cabs-CabsSound;
}
