-- ===== src/Common/Bits.antt =====
-- Facts about `bit_and`, `bit_or` and `bit_xor` at variables: tables over a byte, and the laws of
-- `bit_xor` at every width from its recursion on binary digits.
use Prim.Native.Nat.{ℕ, zero, suc, ◌+◌, ◌*◌, ◌/◌, ◌%◌, ◌^◌, ◌≤◌, ◌<◌, digits}
use Prim.Native.Nat.{differ, max, bit_or, bit_or-bitwise, bit_xor, bit_xor-bitwise}
use mathlib.Core.Path.{◌≡◌, refl, sym, ◌∙◌}
use mathlib.Core.Bool.{true}
use native.Mathlib.Nat.{pow-suc}
use native.Mathlib.Omega.{arith}
use java_io_tserver.Common.Tests.{◌==◌, ==_iff, all_below, all_below_sound}

pub table :
    (n : ℕ) (f g : ℕ → ℕ) → all_below n (λ x. f x == g x) ≡ true → (x : ℕ) → x < n → f x ≡ g x
table n f g h x lt = (==_iff (f x) (g x)).0 (all_below_sound n (λ x. f x == g x) x lt h)

-- With nothing left of the first number, the fuel does not count.
no_digits : (z : ℕ → ℕ) (f : ℕ → ℕ → ℕ) (fuel y : ℕ) → digits z f fuel 0 y ≡ z y
no_digits z f zero y = refl
no_digits z f (suc fuel) y = refl

-- Two fuels that are both at least the first number give the same.
fuel_irrelevant :
    (z : ℕ → ℕ) (f : ℕ → ℕ → ℕ) (x y one other : ℕ)
    → x ≤ one
    → x ≤ other
    → digits z f one x y ≡ digits z f other x y
fuel_irrelevant z f zero y one other p q = no_digits z f one y ∙ sym (no_digits z f other y)
fuel_irrelevant z f (suc x) y zero other p q = absurd (omega arith)
fuel_irrelevant z f (suc x) y (suc one) zero p q = absurd (omega arith)
fuel_irrelevant z f (suc x) y (suc one) (suc other) p q =
    let half = fuel_irrelevant z f (suc x / 2) (y / 2) one other (omega arith) (omega arith) in
    omega (arith, half)

differ_lem : (x y : ℕ) → x < 2 → y < 2 → differ x y ≡ (x + y) % 2
differ_lem zero y p q = omega arith
differ_lem (suc zero) zero p q = refl
differ_lem (suc zero) (suc zero) p q = refl
differ_lem (suc zero) (suc (suc y)) p q = absurd (omega arith)
differ_lem (suc (suc x)) y p q = absurd (omega arith)

zero-bit_xor : (b : ℕ) → bit_xor 0 b ≡ b
zero-bit_xor b = bit_xor-bitwise 0 b

-- The law for the lowest digit.
pub bit_xor_step : (a b : ℕ) → bit_xor a b ≡ bit_xor (a / 2) (b / 2) * 2 + (a % 2 + b % 2) % 2
bit_xor_step zero b = omega (arith, zero-bit_xor b, zero-bit_xor (b / 2))
bit_xor_step (suc a) b = omega (
  arith,
  bit_xor-bitwise (suc a) b,
  bit_xor-bitwise (suc a / 2) (b / 2),
  differ_lem (suc a % 2) (b % 2) (omega arith) (omega arith),
  fuel_irrelevant (λ y. y) differ (suc a / 2) (b / 2) a (suc a / 2) (omega arith) (omega arith),
)

bit_xor_cancel_step :
    (a b : ℕ) → bit_xor (bit_xor (a / 2) (b / 2)) (b / 2) ≡ a / 2 → bit_xor (bit_xor a b) b ≡ a
bit_xor_cancel_step a b h =
    let half : bit_xor a b / 2 ≡ bit_xor (a / 2) (b / 2) = omega (arith, bit_xor_step a b) in
    let outer : bit_xor (bit_xor a b) b
        ≡ bit_xor (bit_xor (a / 2) (b / 2)) (b / 2) * 2 + (bit_xor a b % 2 + b % 2) % 2 =
      rw (← half) (bit_xor_step (bit_xor a b) b) in
    omega (arith, outer, bit_xor_step a b)

bit_xor_cancel_below : (n a b : ℕ) → a + b ≤ n → bit_xor (bit_xor a b) b ≡ a
bit_xor_cancel_below n zero zero h = refl
bit_xor_cancel_below zero (suc a) b h = absurd (omega arith)
bit_xor_cancel_below zero zero (suc b) h = absurd (omega arith)
bit_xor_cancel_below (suc n) (suc a) b h =
    bit_xor_cancel_step (suc a) b (bit_xor_cancel_below n (suc a / 2) (b / 2) (omega arith))
bit_xor_cancel_below (suc n) zero (suc b) h =
    bit_xor_cancel_step 0 (suc b) (bit_xor_cancel_below n (0 / 2) (suc b / 2) (omega arith))

-- Exclusive or with the same number twice gives the first number back.
pub bit_xor_cancel : (a b : ℕ) → bit_xor (bit_xor a b) b ≡ a
bit_xor_cancel a b = bit_xor_cancel_below (a + b) a b (omega arith)

pub bit_xor-lt_pow : (k a b : ℕ) → a < 2 ^ k → b < 2 ^ k → bit_xor a b < 2 ^ k
bit_xor-lt_pow zero zero zero p q = omega arith
bit_xor-lt_pow zero zero (suc b) p q = absurd (omega arith)
bit_xor-lt_pow zero (suc a) b p q = absurd (omega arith)
bit_xor-lt_pow (suc k) a b p q = omega (
  arith,
  pow-suc 2 k,
  bit_xor_step a b,
  bit_xor-lt_pow k (a / 2) (b / 2) (omega (arith, pow-suc 2 k)) (omega (arith, pow-suc 2 k)),
)

zero-bit_or : (b : ℕ) → bit_or 0 b ≡ b
zero-bit_or b = bit_or-bitwise 0 b

pub bit_or_step : (x y : ℕ) → bit_or x y ≡ bit_or (x / 2) (y / 2) * 2 + max (x % 2) (y % 2)
bit_or_step zero y = omega (arith, zero-bit_or y, zero-bit_or (y / 2))
bit_or_step (suc x) y =
    let low =
      fuel_irrelevant (λ u. u) max (suc x / 2) (y / 2) x (suc x / 2) (omega arith) (omega arith) in
    omega (arith, low, bit_or-bitwise (suc x) y, bit_or-bitwise (suc x / 2) (y / 2))

pub bit_or-lt_pow : (k a b : ℕ) → a < 2 ^ k → b < 2 ^ k → bit_or a b < 2 ^ k
bit_or-lt_pow zero zero zero p q = omega arith
bit_or-lt_pow zero zero (suc b) p q = absurd (omega arith)
bit_or-lt_pow zero (suc a) b p q = absurd (omega arith)
bit_or-lt_pow (suc k) a b p q = omega (
  arith,
  pow-suc 2 k,
  bit_or_step a b,
  bit_or-lt_pow k (a / 2) (b / 2) (omega (arith, pow-suc 2 k)) (omega (arith, pow-suc 2 k)),
)
