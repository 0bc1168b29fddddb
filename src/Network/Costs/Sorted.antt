-- ===== src/Network/Costs/Sorted.antt =====
-- libs/network, Peers::CalculateElevatorCosts: the sorted costs.
use cpp_elevator.Base.{Bool-cases, ◌≡◌, arith, true, false, List, [], ◌∷◌, inl, inr}
use cpp_elevator.Network.Costs.{Cost, not_after, insert, sort}

abbrev pub All : (Cost → Type 0) → List Cost → Type 0
All P [] = Unit {0}
All P (x ∷ xs) = P x × All P xs

-- `m` is not greater than any entry.
abbrev pub Least : Cost → List Cost → Type 0
Least m xs = All (λ x. not_after m x ≡ true) xs

abbrev pub IsSorted : List Cost → Type 0
IsSorted [] = Unit {0}
IsSorted (x ∷ xs) = Least x xs × IsSorted xs

not_after_total : (x y : Cost) → not_after x y ≡ false → not_after y x ≡ true
not_after_total (a, b) (c, d) h = ground arith

not_after_trans :
    (x y z : Cost) → not_after x y ≡ true → not_after y z ≡ true → not_after x z ≡ true
not_after_trans (a, b) (c, d) (e, f) p q = ground arith

pub not_after_refl : (x : Cost) → not_after x x ≡ true
not_after_refl (a, b) = ground arith

Least-insert :
    (m x : Cost) (xs : List Cost) → not_after m x ≡ true → Least m xs → Least m (insert x xs)
unfolding insert
Least-insert m x [] p h = (p, tt)
Least-insert m x (y ∷ ys) p h = ground (arith, Least-insert m x ys p h.1)

Least-weaken : (m x : Cost) (xs : List Cost) → not_after m x ≡ true → Least x xs → Least m xs
Least-weaken m x [] p h = tt
Least-weaken m x (y ∷ ys) p h = (not_after_trans m x y p h.0, Least-weaken m x ys p h.1)

insert-IsSorted : (x : Cost) (xs : List Cost) → IsSorted xs → IsSorted (insert x xs)
unfolding insert
insert-IsSorted x [] h = (tt, tt)
insert-IsSorted x (y ∷ ys) h = elim (Bool-cases (not_after x y)) [
  | inl e ↦ rw e ((e, Least-weaken x y ys e h.0), h)
  | inr e ↦ rw e (Least-insert y x ys (not_after_total x y e) h.0, insert-IsSorted x ys h.1)
]

pub sort-IsSorted : (xs : List Cost) → IsSorted (sort xs)
unfolding sort
sort-IsSorted [] = tt
sort-IsSorted (x ∷ xs) = insert-IsSorted x (sort xs) (sort-IsSorted xs)

if_true : (x y : Cost) (ys : List Cost) → not_after x y ≡ true → insert x (y ∷ ys) ≡ x ∷ y ∷ ys
unfolding insert
if_true x y ys e = rw e

if_false :
    (x y : Cost) (ys : List Cost) → not_after x y ≡ false → insert x (y ∷ ys) ≡ y ∷ insert x ys
unfolding insert
if_false x y ys e = rw e

All-of_insert :
    (P : Cost → Type 0) (x : Cost) (xs : List Cost) → All P (insert x xs) → P x × All P xs
unfolding insert
All-of_insert P x [] h = (h.0, tt)
All-of_insert P x (y ∷ ys) h = elim (Bool-cases (not_after x y)) [
  | inl e ↦ let h' : All P (x ∷ y ∷ ys) = rw (if_true x y ys e) at h in (h'.0, h'.1)
  | inr e ↦
      let h' : All P (y ∷ insert x ys) = rw (if_false x y ys e) at h in
      let (p, q) = All-of_insert P x ys h'.1 in (p, (h'.0, q))
]

pub All-of_sort : (P : Cost → Type 0) (xs : List Cost) → All P (sort xs) → All P xs
unfolding sort
All-of_sort P [] h = tt
All-of_sort P (x ∷ xs) h = let (p, q) = All-of_insert P x (sort xs) h in (p, All-of_sort P xs q)

All-insert : (P : Cost → Type 0) (x : Cost) (xs : List Cost) → P x → All P xs → All P (insert x xs)
unfolding insert
All-insert P x [] p h = (p, tt)
All-insert P x (y ∷ ys) p h = elim (Bool-cases (not_after x y)) [
  | inl e ↦ rw e (p, h)
  | inr e ↦ rw e (h.0, All-insert P x ys p h.1)
]

pub All-sort : (P : Cost → Type 0) (xs : List Cost) → All P xs → All P (sort xs)
unfolding sort
All-sort P [] h = tt
All-sort P (x ∷ xs) h = All-insert P x (sort xs) h.0 (All-sort P xs h.1)

pub All-weaken :
    (P Q : Cost → Type 0) → ((x : Cost) → P x → Q x) → (xs : List Cost) → All P xs → All Q xs
All-weaken P Q f [] h = tt
All-weaken P Q f (x ∷ xs) h = (f x h.0, All-weaken P Q f xs h.1)
