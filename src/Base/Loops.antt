-- ===== src/Base/Loops.antt =====
-- `for (int i = 0; i < n; i++)`: as a change of state, and as a test that leaves the loop early.
use Prim.Native.Nat.{ℕ, zero, suc, ◌<◌}
use mathlib.Core.Path.{◌≡◌, refl}
use mathlib.Core.Logic.{inl, inr}
use mathlib.Core.Bool.{Bool, true, false, ◌&&◌, ◌||◌}
use native.Mathlib.Omega.{arith}
use cpp_elevator.Base.Tests.{Bool-cases}

-- The rounds 0, 1, ..., n - 1 in this order.
unfoldable pub for_range {ℓ} : {S : Type ℓ} → ℕ → (ℕ → S → S) → S → S
for_range zero body s = s
for_range (suc n) body s = body n (for_range n body s)

-- What every round keeps, the loop keeps.
pub for_range_inv {ℓ κ} :
    {S : Type ℓ} (P : S → Type κ) (body : ℕ → S → S) (n : ℕ)
    → ((i : ℕ) (s : S) → i < n → P s → P (body i s))
    → (s : S) → P s
    → P (for_range n body s)
unfolding for_range
for_range_inv P body zero keep s h = h
for_range_inv P body (suc n) keep s h =
    keep n _ (omega arith) (for_range_inv P body n (λ i t lt. keep i t (omega arith)) s h)

-- `if (!p(i)) return false;` in each round, then `return true;`.
unfoldable pub all_range : ℕ → (ℕ → Bool) → Bool
all_range zero p = true
all_range (suc n) p = all_range n p && p n

-- `if (p(i)) return true;` in each round, then `return false;`.
unfoldable pub any_range : ℕ → (ℕ → Bool) → Bool
any_range zero p = false
any_range (suc n) p = any_range n p || p n

pub all_range_elim : (n : ℕ) (p : ℕ → Bool) (i : ℕ) → all_range n p ≡ true → i < n → p i ≡ true
unfolding all_range
all_range_elim zero p i h lt = absurd (omega arith)
all_range_elim (suc n) p i h lt = ground (arith, all_range_elim n p i)

pub all_range_intro : (n : ℕ) (p : ℕ → Bool) → ((i : ℕ) → i < n → p i ≡ true) → all_range n p ≡ true
unfolding all_range
all_range_intro zero p h = refl
all_range_intro (suc n) p h =
    let rest = all_range_intro n p (λ i lt. h i (omega arith)) in
    let last = h n (omega arith) in ground (arith, rest, last)

pub any_range_elim :
    (n : ℕ) (p : ℕ → Bool) → any_range n p ≡ true → (i : ℕ) × (i < n) × (p i ≡ true)
unfolding any_range
any_range_elim zero p h = cc
any_range_elim (suc n) p h = elim (Bool-cases (any_range n p)) [
  | inl e ↦ let (i, lt, q) = any_range_elim n p e in (i, omega arith, q)
  | inr e ↦ (n, omega arith, ground arith)
]

pub any_range_intro : (n : ℕ) (p : ℕ → Bool) (i : ℕ) → i < n → p i ≡ true → any_range n p ≡ true
unfolding any_range
any_range_intro zero p i lt h = absurd (omega arith)
any_range_intro (suc n) p i lt h = ground (arith, any_range_intro n p i)
