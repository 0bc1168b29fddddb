-- ===== src/Base/Grid.antt =====
-- A two-dimensional array as a function of its indices, and the nested loops over its cells.
use Prim.Native.Nat.{ℕ, zero, suc, ◌<◌}
use mathlib.Core.Path.{◌≡◌}
use mathlib.Core.Bool.{Bool, true, ◌&&◌}
use native.Mathlib.Omega.{arith}
use cpp_elevator.Base.Tests.{ltb, ◌==◌, if◌then◌else◌}
use cpp_elevator.Base.Loops.{for_range, for_range_inv, all_range, all_range_elim, all_range_intro}

abbrev pub Grid {ℓ} : Type ℓ → Type ℓ
Grid A = ℕ → ℕ → A

-- `grid[i][j] = v`.
abbrev pub put {ℓ} : {A : Type ℓ} → Grid A → ℕ → ℕ → A → Grid A
put t i j v f b = if f == i && b == j then v else t f b

-- The round at every cell of `n` rows and `m` columns, row by row.
unfoldable pub for_grid {ℓ} : {S : Type ℓ} → ℕ → ℕ → (ℕ → ℕ → S → S) → S → S
unfolding for_range
for_grid n m body = for_range n (λ i. for_range m (body i))

unfoldable pub all_grid : ℕ → ℕ → (ℕ → ℕ → Bool) → Bool
unfolding all_range
all_grid n m p = all_range n (λ i. all_range m (p i))

pub all_grid_elim :
    (n m : ℕ) (p : ℕ → ℕ → Bool) (i j : ℕ) → all_grid n m p ≡ true → i < n → j < m → p i j ≡ true
unfolding all_grid
all_grid_elim n m p i j h hi hj =
    all_range_elim m (p i) j (all_range_elim n (λ i. all_range m (p i)) i h hi) hj

pub all_grid_intro :
    (n m : ℕ) (p : ℕ → ℕ → Bool)
    → ((i j : ℕ) → i < n → j < m → p i j ≡ true)
    → all_grid n m p ≡ true
unfolding all_grid
all_grid_intro n m p h = all_range_intro n _ (λ i hi. all_range_intro m (p i) (λ j hj. h i j hi hj))

-- `get` reads a grid in the state. The round at (i, j) changes the cell (i, j) by `g i j`, and no
-- other cell.
module _ {ℓ κ} {S : Type ℓ} {A : Type κ} (get : S → Grid A) (body : ℕ → ℕ → S → S)
    (g : ℕ → ℕ → A → A)
    (local : (i j : ℕ) (s : S) (f b : ℕ)
      → get (body i j s) f b ≡ (if f == i && b == j then g i j (get s i j) else get s f b)) where
  for_row-get :
      (m i : ℕ) (s : S) (f b : ℕ)
      → get (for_range m (body i) s) f b
        ≡ (if f == i && ltb b m then g i b (get s i b) else get s f b)
  unfolding for_range
  for_row-get zero i s f b = ground arith
  for_row-get (suc m) i s f b =
      ground (
        arith,
        local i m (for_range m (body i) s) f b,
        for_row-get m i s f b,
        for_row-get m i s i m,
      )

  pub for_grid-get :
      (n m : ℕ) (s : S) (f b : ℕ)
      → get (for_grid n m body s) f b
        ≡ (if ltb f n && ltb b m then g f b (get s f b) else get s f b)
  unfolding for_grid for_range
  for_grid-get zero m s f b = ground arith
  for_grid-get (suc n) m s f b = ground (
    arith,
    for_row-get m n (for_grid n m body s) f b,
    for_grid-get n m s f b,
    for_grid-get n m s n b,
  )

-- What the round at every cell keeps, the loop keeps.
pub for_grid_inv {ℓ κ} :
    {S : Type ℓ} (P : S → Type κ) (body : ℕ → ℕ → S → S) (n m : ℕ)
    → ((i j : ℕ) (s : S) → i < n → j < m → P s → P (body i j s))
    → (s : S) → P s
    → P (for_grid n m body s)
unfolding for_grid
for_grid_inv P body n m keep s h =
    for_range_inv P (λ i. for_range m (body i)) n
      (λ i t hi p. for_range_inv P (body i) m (λ j u hj. keep i j u hi hj) t p) s h
