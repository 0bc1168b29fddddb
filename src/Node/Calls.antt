-- ===== src/Node/Calls.antt =====
-- services/elevator-node, ElevatorNode::SyncPeers: the way of a call from its button to the orders
-- and to the controller.
use cpp_elevator.Base.{ℕ, ◌<◌, ◌≡◌, ◌∙◌, arith, true, ◌&&◌, ◌==◌, if◌then◌else◌, ap}
use cpp_elevator.Base.Int.{pos, eqb_ℤ_refl}
use cpp_elevator.Base.Grid.{for_grid-get}
use cpp_elevator.Common.{k_floors, k_buttons, BoolTable, OrderStatus, eq_status, status_code}
use cpp_elevator.OrderSync.Order.{Order, on_request, on_confirm}
use cpp_elevator.OrderSync.Table.{assigned_to, to_bool_table}
use cpp_elevator.OrderSync.Table.Cells.{to_bool_table-assigned}
use cpp_elevator.Control.Controller.Tables.{set_requests-cell}
use cpp_elevator.Network.Hall.{is_cab}
use cpp_elevator.Network.Peers.{Peers}
use cpp_elevator.Node.Sync.{NodeOk}
use cpp_elevator.Node.{ElevatorNode, press_round, sync_button_signals, sync_peers}

-- An order of node `n` after its button was pressed.
abbrev pub called : ℕ → ℕ → Order → Order
called n b o = if is_cab b then on_confirm (pos n) (on_request n o) else on_request n o

press_round-order :
    (n : ℕ) (signals : BoolTable) (i j : ℕ) (p : Peers) (f b : ℕ)
    → (press_round n signals i j p).book.orders f b ≡ (
        if f == i && b == j
        then (if signals i j then called n j (p.book.orders i j) else p.book.orders i j)
        else p.book.orders f b)
press_round-order n signals i j p f b = ground arith

pub sync_button_signals-order :
    (n : ℕ) (signals : BoolTable) (p : Peers) (f b : ℕ)
    → f < k_floors
    → b < k_buttons
    → (sync_button_signals n signals p).book.orders f b
      ≡ (if signals f b then called n b (p.book.orders f b) else p.book.orders f b)
unfolding sync_button_signals
sync_button_signals-order n signals p f b hf hb = ground (
  arith,
  for_grid-get (λ (p : Peers). p.book.orders) (press_round n signals)
      (λ i j o. if signals i j then called n j o else o) (press_round-order n signals) k_floors
      k_buttons p f b,
)

-- Behind SyncPeers, the controller has a request exactly for the orders that are confirmed for the
-- node, where the buttons pressed in this step count already: a cab call is confirmed at once, a hall
-- call is requested.
pub sync_peers-requests :
    (n : ElevatorNode) (f b : ℕ)
    → f < k_floors
    → b < k_buttons
    → (sync_peers n).rig.ctl.requests.table f b
      ≡ assigned_to (pos n.node_id) (
          if n.button_signals f b
          then called n.node_id b (n.peers.book.orders f b)
          else n.peers.book.orders f b)
unfolding sync_peers
sync_peers-requests n f b hf hb =
    let p = sync_button_signals n.node_id n.button_signals n.peers in
    set_requests-cell (to_bool_table (pos n.node_id) p.book.orders) n.rig.ctl f b hf hb
    ∙ to_bool_table-assigned (pos n.node_id) p.book.orders f b hf hb
    ∙ ap (assigned_to (pos n.node_id))
        (sync_button_signals-order n.node_id n.button_signals n.peers f b hf hb)

called-cab :
    (n : ℕ) (o : Order)
    → status_code o.status < 4
    → (eq_status o.status OrderStatus.confirmed ≡ true → o.assigned_id ≡ pos n)
    → assigned_to (pos n) (called n 2 o) ≡ true
unfolding on_request on_confirm
called-cab n o named own = ground (arith, eqb_ℤ_refl (pos n))

-- A cab call that is pressed is a request of the controller in the same step. The node's invariant
-- is assumed, and that a cab call there that is confirmed already is the node's own.
pub sync_peers-cab :
    {i : ℕ} (n : ElevatorNode) (f : ℕ)
    → f < k_floors
    → n.button_signals f 2 ≡ true
    → NodeOk i n
    → (eq_status (n.peers.book.orders f 2).status OrderStatus.confirmed ≡ true
        → (n.peers.book.orders f 2).assigned_id ≡ pos n.node_id)
    → (sync_peers n).rig.ctl.requests.table f 2 ≡ true
sync_peers-cab n f hf signal ok own =
    let sound = ok.peers.base.sound f 2 hf (omega arith) in
    sync_peers-requests n f 2 hf (omega arith)
    ∙ rw signal (called-cab n.node_id (n.peers.book.orders f 2) sound.valid.status_named own)
