-- ===== src/OrderSync/Order/Convergence.antt =====
-- libs/ordersync, Order::OnUpdate as nodes use it: each applies the states that it receives, in its
-- own order, some of them more than once.
use mathlib.Core.List.{Mem, Subset, mem-cons, mem-cons_self, mem-cons_of_mem, not-mem-nil}
use mathlib.Core.Logic.Or
use cpp_elevator.Base.{refl, arith, List, [], ◌∷◌}
use cpp_elevator.OrderSync.Order.{Order, on_update}
use cpp_elevator.OrderSync.Order.Merge.{
  on_update_idem, on_update_assoc, Agree, on_update-Agree_comm,
}

Agree-trans : {a b c : Order} → Agree a b → Agree b c → Agree a c
Agree-trans p q = ground arith

Agree-symm : {a b : Order} → Agree a b → Agree b a
Agree-symm p = ground arith

Agree-prop : (a b : Order) → IsProp (Agree a b)
Agree-prop a b = hlevel

-- Merging respects agreement, on either side.
on_update-Agree_left : (a a' b : Order) → Agree a a' → Agree (on_update a b) (on_update a' b)
unfolding on_update
on_update-Agree_left a a' b h = ground arith

on_update-Agree_right : (a b b' : Order) → Agree b b' → Agree (on_update a b) (on_update a b')
on_update-Agree_right a b b' h =
    Agree-trans (on_update-Agree_comm a b)
      (Agree-trans (on_update-Agree_left b b' a h) (on_update-Agree_comm b' a))

-- `x` has seen `r`: receiving it again changes nothing that counts.
abbrev pub Absorbs : Order → Order → Type 0
Absorbs x r = Agree (on_update x r) x

Absorbs-refl : (x : Order) → Absorbs x x
Absorbs-refl x = rw (on_update_idem x) (refl, refl, refl, λ _. refl)

Absorbs-on_update : (x a b : Order) → Absorbs x a → Absorbs x b → Absorbs x (on_update a b)
Absorbs-on_update x a b p q =
    rw (← on_update_assoc x a b) (Agree-trans (on_update-Agree_left (on_update x a) x b p) q)

Absorbs-new : (x r : Order) → Absorbs (on_update x r) r
Absorbs-new x r = rw (on_update_assoc x r r, on_update_idem r) (refl, refl, refl, λ _. refl)

Absorbs-old : (x r y : Order) → Absorbs x y → Absorbs (on_update x r) y
Absorbs-old x r y h = rw (on_update_assoc x r y) (
    Agree-trans (on_update-Agree_right x (on_update r y) (on_update y r) (on_update-Agree_comm r y))
      (rw (← on_update_assoc x y r) (on_update-Agree_left (on_update x y) x r h)))

Agree-of_Absorbs : (x y : Order) → Absorbs x y → Absorbs y x → Agree x y
Agree-of_Absorbs x y p q = Agree-trans (Agree-symm p) (Agree-trans (on_update-Agree_comm x y) q)

-- A node that receives the states of a list, one after the other.
pub receive_all : Order → List Order → Order
receive_all o [] = o
receive_all o (r ∷ rs) = receive_all (on_update o r) rs

receive_all-Absorbs_old :
    (o y : Order) (rs : List Order) → Absorbs o y → Absorbs (receive_all o rs) y
unfolding receive_all
receive_all-Absorbs_old o y [] h = h
receive_all-Absorbs_old o y (r ∷ rs) h =
    receive_all-Absorbs_old (on_update o r) y rs (Absorbs-old o r y h)

receive_all-Absorbs : (o r : Order) (rs : List Order) → Mem r rs → Absorbs (receive_all o rs) r
unfolding receive_all
receive_all-Absorbs o r [] m = absurd (not-mem-nil m)
receive_all-Absorbs o r (s ∷ rs) m =
    Or.elim (Agree-prop _ _) (mem-cons.0 m)
      (λ e. rw e (receive_all-Absorbs_old (on_update o s) s rs (Absorbs-new o s)))
      (receive_all-Absorbs (on_update o s) r rs)

Absorbs-receive_all :
    (x o : Order) (rs : List Order)
    → Absorbs x o
    → ((r : Order) → Mem r rs → Absorbs x r)
    → Absorbs x (receive_all o rs)
unfolding receive_all
Absorbs-receive_all x o [] h all = h
Absorbs-receive_all x o (r ∷ rs) h all =
    Absorbs-receive_all x (on_update o r) rs (Absorbs-on_update x o r h (all r mem-cons_self))
      (λ s m. all s (mem-cons_of_mem r m))

-- Two nodes that start from one state and receive the same states, each in any order and any number
-- of times, agree on the version, the status and the observers, and on the assignee if confirmed.
pub receive_all-Agree :
    (o : Order) (rs ts : List Order)
    → Subset rs ts
    → Subset ts rs
    → Agree (receive_all o rs) (receive_all o ts)
receive_all-Agree o rs ts sub sup =
    Agree-of_Absorbs (receive_all o rs) (receive_all o ts)
      (Absorbs-receive_all (receive_all o rs) o ts (receive_all-Absorbs_old o o rs (Absorbs-refl o))
        (λ r m. receive_all-Absorbs o r rs (sup r m)))
      (Absorbs-receive_all (receive_all o ts) o rs (receive_all-Absorbs_old o o ts (Absorbs-refl o))
        (λ r m. receive_all-Absorbs o r ts (sub r m)))
