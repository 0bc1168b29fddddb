-- ===== src/Base/Bits.antt =====
-- The bit operations of `uint32_t` words at variables.
use Prim.Native.Nat.{
  ℕ, zero, suc, ◌+◌, ◌-◌, ◌*◌, ◌/◌, ◌%◌, ◌^◌, ◌≤◌, ◌<◌, min, max, bit_and, bit_or, digits,
  bit_and-bitwise, bit_or-bitwise,
}
use mathlib.Core.Path.{◌≡◌, refl, ap}
use mathlib.Core.Logic.{◌≢◌}
use native.Mathlib.Nat.{pow-suc}
use native.Mathlib.Omega.{arith}

-- The count of rounds in `digits` is beside the point once it covers the first number.
digits-rounds :
    (z : ℕ → ℕ) (f : ℕ → ℕ → ℕ) (n m a b : ℕ) → a ≤ n → a ≤ m → digits z f n a b ≡ digits z f m a b
digits-rounds z f zero zero zero b p q = refl
digits-rounds z f zero (suc m) zero b p q = refl
digits-rounds z f (suc n) zero zero b p q = refl
digits-rounds z f (suc n) (suc m) zero b p q = refl
digits-rounds z f (suc n) (suc m) (suc a) b p q =
    let half = digits-rounds z f n m (suc a / 2) (b / 2) (omega arith) (omega arith) in rw half
digits-rounds z f _ _ (suc a) b p q = absurd (omega arith)

or_halves : (a b : ℕ) → bit_or a b ≡ bit_or (a / 2) (b / 2) * 2 + max (a % 2) (b % 2)
or_halves zero b = rw (bit_or-bitwise zero b, bit_or-bitwise zero (b / 2)) (omega arith)
or_halves (suc a) b =
    rw (bit_or-bitwise (suc a) b, bit_or-bitwise (suc a / 2) (b / 2))
      (omega (
        arith,
        digits-rounds (λ y. y) max a (suc a / 2) (suc a / 2) (b / 2) (omega arith) (omega arith),
      ))

pub and_halves : (a b : ℕ) → bit_and a b ≡ bit_and (a / 2) (b / 2) * 2 + min (a % 2) (b % 2)
and_halves zero b = rw (bit_and-bitwise zero b, bit_and-bitwise zero (b / 2)) (omega arith)
and_halves (suc a) b =
    rw (bit_and-bitwise (suc a) b, bit_and-bitwise (suc a / 2) (b / 2))
      (omega (
        arith,
        digits-rounds (λ y. 0) min a (suc a / 2) (suc a / 2) (b / 2) (omega arith) (omega arith),
      ))

-- The laws of `|`, by recursion on a bound of the operands, which halving lowers.
or_comm_below : (n a b : ℕ) → a ≤ n → b ≤ n → bit_or a b ≡ bit_or b a
or_comm_below zero zero zero p q = refl
or_comm_below zero (suc a) b p q = absurd (omega arith)
or_comm_below zero zero (suc b) p q = absurd (omega arith)
or_comm_below (suc n) a b p q =
    let half = or_comm_below n (a / 2) (b / 2) (omega arith) (omega arith) in
    omega (arith, or_halves a b, or_halves b a)

pub bit_or_comm : (a b : ℕ) → bit_or a b ≡ bit_or b a
bit_or_comm a b = or_comm_below (a + b) a b (omega arith) (omega arith)

or_idem_below : (n a : ℕ) → a ≤ n → bit_or a a ≡ a
or_idem_below zero zero p = refl
or_idem_below zero (suc a) p = absurd (omega arith)
or_idem_below (suc n) a p =
    let half = or_idem_below n (a / 2) (omega arith) in omega (arith, or_halves a a)

pub bit_or_idem : (a : ℕ) → bit_or a a ≡ a
bit_or_idem a = or_idem_below a a (omega arith)

or_half :
    (a b : ℕ) → (bit_or a b / 2 ≡ bit_or (a / 2) (b / 2)) × (bit_or a b % 2 ≡ max (a % 2) (b % 2))
or_half a b = omega (arith, or_halves a b)

or_assoc_below :
    (n a b c : ℕ) → a ≤ n → b ≤ n → c ≤ n → bit_or (bit_or a b) c ≡ bit_or a (bit_or b c)
or_assoc_below zero zero zero zero p q r = refl
or_assoc_below zero zero zero (suc c) p q r = absurd (omega arith)
or_assoc_below zero (suc a) b c p q r = absurd (omega arith)
or_assoc_below zero zero (suc b) c p q r = absurd (omega arith)
or_assoc_below (suc n) a b c p q r =
    rw (or_halves (bit_or a b) c, or_halves a (bit_or b c), (or_half a b).0, (or_half b c).0)
      (omega (
        arith,
        or_assoc_below n (a / 2) (b / 2) (c / 2) (omega arith) (omega arith) (omega arith),
        or_half a b,
        or_half b c,
      ))

pub bit_or_assoc : (a b c : ℕ) → bit_or (bit_or a b) c ≡ bit_or a (bit_or b c)
bit_or_assoc a b c = or_assoc_below (a + b + c) a b c (omega arith) (omega arith) (omega arith)

-- No bit of `a | b` is above the bits of both.
pub bit_or_bound : (k a b : ℕ) → a < 2 ^ k → b < 2 ^ k → bit_or a b < 2 ^ k
bit_or_bound zero zero zero p q = omega arith
bit_or_bound zero (suc a) b p q = absurd (omega arith)
bit_or_bound zero zero (suc b) p q = absurd (omega arith)
bit_or_bound (suc k) a b p q =
    let e = pow-suc 2 k in
    let half = bit_or_bound k (a / 2) (b / 2) (omega arith) (omega arith) in
    omega (arith, or_halves a b)

-- Digit `e` of `a`, lowest first.
pub bit : ℕ → ℕ → ℕ
bit a zero = a % 2
bit a (suc e) = bit (a / 2) e

pub bit-lt_two : (e a : ℕ) → bit a e < 2
unfolding bit
bit-lt_two zero a = omega arith
bit-lt_two (suc e) a = bit-lt_two e (a / 2)

pub bit-bit_or : (e a b : ℕ) → bit (bit_or a b) e ≡ max (bit a e) (bit b e)
unfolding bit
bit-bit_or zero a b = (or_half a b).1
bit-bit_or (suc e) a b = rw ((or_half a b).0) (bit-bit_or e (a / 2) (b / 2))

bit-zero : (e : ℕ) → bit 0 e ≡ 0
unfolding bit
bit-zero zero = refl
bit-zero (suc e) = bit-zero e

pow_halves : (e : ℕ) → (2 ^ suc e / 2 ≡ 2 ^ e) × (2 ^ suc e % 2 ≡ 0)
pow_halves e = omega (arith, pow-suc 2 e)

-- `1u << e` has the digit `e`, and no other.
pub bit-pow_self : (e : ℕ) → bit (2 ^ e) e ≡ 1
unfolding bit
bit-pow_self zero = refl
bit-pow_self (suc e) = rw ((pow_halves e).0) (bit-pow_self e)

pub bit-pow_ne : (e i : ℕ) → e ≢ i → bit (2 ^ e) i ≡ 0
unfolding bit
bit-pow_ne zero zero h = absurd (h refl)
bit-pow_ne zero (suc i) h = bit-zero i
bit-pow_ne (suc e) zero h = (pow_halves e).1
bit-pow_ne (suc e) (suc i) h = rw ((pow_halves e).0) (bit-pow_ne e i (λ p. h (ap suc p)))

and-zero : (n a : ℕ) → a ≤ n → bit_and a 0 ≡ 0
and-zero zero zero h = refl
and-zero zero (suc a) h = absurd (omega arith)
and-zero (suc n) a h = omega (arith, and_halves a 0, and-zero n (a / 2) (omega arith))

and-one : (a : ℕ) → bit_and a 1 ≡ a % 2
and-one a = omega (arith, and_halves a 1, and-zero a (a / 2) (omega arith))

-- `a & (1u << e)` is the digit `e`, in its place.
pub bit_and-pow : (e a : ℕ) → bit_and a (2 ^ e) ≡ bit a e * 2 ^ e
unfolding bit
bit_and-pow zero a = omega (arith, and-one a)
bit_and-pow (suc e) a =
    rw (and_halves a (2 ^ suc e), (pow_halves e).0, bit_and-pow e (a / 2))
      (omega (arith, pow_halves e, ap (λ (t : ℕ). bit (a / 2) e * t) (pow-suc 2 e)))

-- A mask of `k` ones keeps what is below `2 ^ k`.
pub bit_and-ones : (k a : ℕ) → a < 2 ^ k → bit_and a (2 ^ k - 1) ≡ a
bit_and-ones zero a h = omega (arith, and-zero a a (omega arith))
bit_and-ones (suc k) a h =
    let e = pow-suc 2 k in
    let half = bit_and-ones k (a / 2) (omega arith) in
    let q : (2 ^ suc k - 1) / 2 ≡ 2 ^ k - 1 = omega arith in
    rw (and_halves a (2 ^ suc k - 1), q, half) (omega arith)

pub zero-bit_or : (a : ℕ) → bit_or 0 a ≡ a
zero-bit_or a = bit_or-bitwise 0 a
