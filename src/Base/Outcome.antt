-- ===== src/Base/Outcome.antt =====
-- Code that may end the process: by a failed assertion, by `Abort`, or by an access out of bounds,
-- which the language leaves undefined.
use Prim.Native.Nat.{ℕ, zero, suc, ◌<◌}
use mathlib.Core.Path.{◌≡◌, refl, subst, sym, ◌∙◌}
use native.Mathlib.Omega.{arith}
use mathlib.Core.Logic.{inl, inr}
use cpp_elevator.Base.Tests.{ltb, Bool-cases}
use cpp_elevator.Base.Loops.{for_range}

pub data Outcome {ℓ} (A : Type ℓ) : Type ℓ where
  done : A → Outcome A
  fault : Outcome A

infixl 5 ◌>>=◌
abbrev pub ◌>>=◌ {ℓ κ} : {A : Type ℓ} {B : Type κ} → Outcome A → (A → Outcome B) → Outcome B
done a >>= f = f a
fault >>= f = fault

-- The rounds 0, 1, ..., n - 1; none is run after a fault.
unfoldable pub for_range! {ℓ} : {S : Type ℓ} → ℕ → (ℕ → S → Outcome S) → S → Outcome S
unfolding for_range
for_range! n body s = for_range n (λ i r. r >>= body i) (done s)

-- A call that returns, with a result of which `P` holds.
abbrev pub Returns {ℓ κ} : {A : Type ℓ} → (A → Type κ) → Outcome A → Type (ℓ ⊔ κ)
Returns {A} P r = (a : A) × (r ≡ done a) × P a

pub Returns->>= {ℓ κ μ} :
    {A B : Type ℓ} {P : A → Type κ} {Q : B → Type μ} (r : Outcome A) (f : A → Outcome B)
    → Returns P r
    → ((a : A) → P a → Returns Q (f a))
    → Returns Q (r >>= f)
Returns->>= r f (a, e, p) next = let (b, q, h) = next a p in (b, rw e q, h)

pub Returns-map {ℓ κ μ} :
    {A : Type ℓ} {P : A → Type κ} {Q : A → Type μ} (r : Outcome A)
    → ((a : A) → P a → Q a)
    → Returns P r
    → Returns Q r
Returns-map r f (a, e, p) = (a, e, f a p)

-- A loop returns, and keeps what every round keeps.
pub for_range!-Returns {ℓ κ} :
    {S : Type ℓ} (P : S → Type κ) (body : ℕ → S → Outcome S) (n : ℕ)
    → ((i : ℕ) (s : S) → i < n → P s → Returns P (body i s))
    → (s : S) → P s
    → Returns P (for_range! n body s)
unfolding for_range!
for_range!-Returns P body zero keep s h = (s, refl, h)
for_range!-Returns P body (suc n) keep s h =
    Returns->>= (for_range! n body s) (body n)
      (for_range!-Returns P body n (λ i t lt. keep i t (omega arith)) s h)
      (λ t. keep n t (omega arith))

-- A loop whose rounds each return, and lead from `P i` to `P (suc i)`.
pub for_range!-Returns_at {ℓ κ} :
    {S : Type ℓ} (P : ℕ → S → Type κ) (body : ℕ → S → Outcome S) (n : ℕ)
    → ((i : ℕ) (s : S) → i < n → P i s → Returns (P (suc i)) (body i s))
    → (s : S) → P 0 s
    → Returns (P n) (for_range! n body s)
unfolding for_range!
for_range!-Returns_at P body zero next s h = (s, refl, h)
for_range!-Returns_at P body (suc n) next s h =
    Returns->>= (for_range! n body s) (body n)
      (for_range!-Returns_at P body n (λ i t lt. next i t (omega arith)) s h)
      (λ t. next n t (omega arith))

unfoldable pub for_grid! {ℓ} : {S : Type ℓ} → ℕ → ℕ → (ℕ → ℕ → S → Outcome S) → S → Outcome S
unfolding for_range!
for_grid! n m body = for_range! n (λ i. for_range! m (body i))

pub for_grid!-Returns {ℓ κ} :
    {S : Type ℓ} (P : S → Type κ) (body : ℕ → ℕ → S → Outcome S) (n m : ℕ)
    → ((i j : ℕ) (s : S) → i < n → j < m → P s → Returns P (body i j s))
    → (s : S) → P s
    → Returns P (for_grid! n m body s)
unfolding for_grid!
for_grid!-Returns P body n m keep =
    for_range!-Returns P (λ i. for_range! m (body i)) n
      (λ i s hi. for_range!-Returns P (body i) m (λ j t hj. keep i j t hi hj) s)

-- If a call returns, `P` holds of its result.
abbrev pub Ensures {ℓ κ} : {A : Type ℓ} → (A → Type κ) → Outcome A → Type (ℓ ⊔ κ)
Ensures {A} P r = (a : A) → r ≡ done a → P a

pub done-Ensures {ℓ κ} : {A : Type ℓ} (P : A → Type κ) (a : A) → P a → Ensures P (done a)
done-Ensures P a p b e = let q : a ≡ b = cc in subst P q p

pub Ensures->>= {ℓ κ μ} :
    {A B : Type ℓ} {P : A → Type κ} {Q : B → Type μ} (r : Outcome A) (f : A → Outcome B)
    → Ensures P r
    → ((a : A) → P a → Ensures Q (f a))
    → Ensures Q (r >>= f)
Ensures->>= (done a) f h next b e = next a (h a refl) b e
Ensures->>= fault f h next b e = cc

pub Returns-Ensures {ℓ κ μ} :
    {A : Type ℓ} {P : A → Type κ} {Q : A → Type μ} (r : Outcome A)
    → Returns P r
    → Ensures Q r
    → Returns (λ a. P a × Q a) r
Returns-Ensures r (a, e, p) h = (a, e, (p, h a e))

pub Returns-both {ℓ κ μ} :
    {A : Type ℓ} {P : A → Type κ} {Q : A → Type μ} (r : Outcome A)
    → Returns P r
    → Returns Q r
    → Returns (λ a. P a × Q a) r
Returns-both {Q = Q} r (a, e, p) (b, e', q) =
    let same : done b ≡ done a = sym e' ∙ e in let back : b ≡ a = cc in (a, e, (p, subst Q back q))

-- A loop whose rounds each lead from `P i` to `P (suc i)`.
pub for_range!-Ensures {ℓ κ} :
    {S : Type ℓ} (P : ℕ → S → Type κ) (body : ℕ → S → Outcome S) (n : ℕ)
    → ((i : ℕ) (s : S) → i < n → P i s → Ensures (P (suc i)) (body i s))
    → (s : S) → P 0 s
    → Ensures (P n) (for_range! n body s)
unfolding for_range!
for_range!-Ensures P body zero next s h = done-Ensures (P 0) s h
for_range!-Ensures P body (suc n) next s h =
    Ensures->>= (for_range! n body s) (body n)
      (for_range!-Ensures P body n (λ i t lt. next i t (omega arith)) s h)
      (λ t. next n t (omega arith))

pub for_grid!-Ensures {ℓ κ} :
    {S : Type ℓ} (P : S → Type κ) (body : ℕ → ℕ → S → Outcome S) (n m : ℕ)
    → ((i j : ℕ) (s : S) → i < n → j < m → P s → Ensures P (body i j s))
    → (s : S) → P s
    → Ensures P (for_grid! n m body s)
unfolding for_grid!
for_grid!-Ensures P body n m keep =
    for_range!-Ensures (λ _. P) (λ i. for_range! m (body i)) n
      (λ i s hi. for_range!-Ensures (λ _. P) (body i) m (λ j t hj. keep i j t hi hj) s)

-- A loop in which one round leads from what all rounds keep to `R`, which the others keep too.
module _ {ℓ κ μ} {S : Type ℓ} (Q : S → Type κ) (R : S → Type μ) where
  abbrev After : ℕ → ℕ → S → Type (κ ⊔ μ)
  After f i s = Q s × (f < i → R s)

  one_round :
      (body : ℕ → S → Outcome S) (f i : ℕ)
      → ((s : S) → Q s → Ensures Q (body i s))
      → ((s : S) → Q s → Ensures R (body f s))
      → ((s : S) → Q s → R s → Ensures R (body i s))
      → (s : S) → After f i s
      → Ensures (After f (suc i)) (body i s)
  one_round body f i keep hit stay s (q, r) t e = (
    keep s q t e,
    λ lt. elim (Bool-cases (ltb f i)) [
      | inl before ↦ stay s q (r (ground arith)) t e
      | inr now ↦ let here : f ≡ i = ground arith in (rw here at hit) s q t e
    ],
  )

  pub for_range!-reaches :
      (body : ℕ → S → Outcome S) (f n : ℕ)
      → ((i : ℕ) (s : S) → i < n → Q s → Ensures Q (body i s))
      → ((s : S) → Q s → Ensures R (body f s))
      → ((i : ℕ) (s : S) → i < n → Q s → R s → Ensures R (body i s))
      → f < n
      → (s : S) → Q s
      → Ensures R (for_range! n body s)
  for_range!-reaches body f n keep hit stay hf s q t e =
      (for_range!-Ensures (After f) body n
          (λ i s hi. one_round body f i (λ s. keep i s hi) hit (λ s. stay i s hi) s) s
          (q, λ lt. absurd (omega arith)) t e).1
        hf

  pub for_grid!-reaches :
      (body : ℕ → ℕ → S → Outcome S) (f b n m : ℕ)
      → ((i j : ℕ) (s : S) → i < n → j < m → Q s → Ensures Q (body i j s))
      → ((s : S) → Q s → Ensures R (body f b s))
      → ((i j : ℕ) (s : S) → i < n → j < m → R s → Ensures R (body i j s))
      → f < n
      → b < m
      → (s : S) → Q s
      → Ensures R (for_grid! n m body s)
  unfolding for_grid!
  for_grid!-reaches body f b n m keep hit stay hf hb =
      for_range!-reaches (λ i. for_range! m (body i)) f n
        (λ i s hi. for_range!-Ensures (λ _. Q) (body i) m (λ j t hj. keep i j t hi hj) s)
        (λ s.
          for_range!-reaches (body f) b m (λ j t. keep f j t hf) hit (λ j t hj _. stay f j t hf hj)
            hb s)
        (λ i s hi _. for_range!-Ensures (λ _. R) (body i) m (λ j t hj. stay i j t hi hj) s) hf
