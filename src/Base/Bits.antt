-- ===== src/Base/Bits.antt =====
-- Bit operations as arithmetic: masks and `xor` on bytes by tables checked by evaluation, and
-- joined fields and low masks at any width by recursion on the binary digits.
use Prim.Native.Nat.{ℕ, zero, suc, ◌+◌, ◌*◌, ◌/◌, ◌%◌, ◌^◌, ◌<◌, ◌≤◌, min, max}
use Prim.Native.Nat.{bit_and, bit_or, bit_xor, digits, bit_and-bitwise, bit_or-bitwise}
use Prim.Native.Nat.{bit_xor-bitwise, differ}
use mathlib.Core.Path.{◌≡◌, refl, ap}
use mathlib.Core.Bool.{Bool, true, false, ◌&&◌}
use native.Mathlib.Nat.{pow-suc}
use native.Mathlib.Omega.{arith}
use sutegi.Base.Tests.{◌==◌, ==_iff, if_rule}

-- A table: the test answers true for every number below the bound.
unfoldable pub holds_below : (ℕ → Bool) → ℕ → Bool
holds_below test zero = true
holds_below test (suc bound) = holds_below test bound && test bound

pub holds_below_lem :
    (test : ℕ → Bool) (bound x : ℕ) → x < bound → holds_below test bound ≡ true → test x ≡ true
unfolding holds_below
holds_below_lem test zero x below table = absurd (omega arith)
holds_below_lem test (suc bound) x below table =
    if_rule (λ _. test x ≡ true) (x == bound) true false (λ last. ground arith)
      (λ before. ground (arith, holds_below_lem test bound x))

module _ (f g : ℕ → ℕ) where
  pub eq_below : (n : ℕ) → holds_below (λ x. f x == g x) n ≡ true → (x : ℕ) → x < n → f x ≡ g x
  eq_below n h x lt = (==_iff _ _).0 (holds_below_lem (λ x. f x == g x) n x lt h)

module _ (f g : ℕ → ℕ → ℕ) where
  pub eq_below₂ :
      (n k : ℕ)
      → holds_below (λ x. holds_below (λ y. f x y == g x y) k) n ≡ true
      → (x y : ℕ) → x < n
      → y < k
      → f x y ≡ g x y
  eq_below₂ n k h x y p q =
      eq_below (f x) (g x) k (holds_below_lem (λ x. holds_below (λ y. f x y == g x y) k) n x p h) y
        q

pub bit_xor_twice : (x m : ℕ) → x < 256 → m < 256 → bit_xor (bit_xor x m) m ≡ x
unfolding holds_below
bit_xor_twice = eq_below₂ (λ x m. bit_xor (bit_xor x m) m) (λ x m. x) 256 256 refl

pub bit_xor-lt : (x m : ℕ) → x < 256 → m < 256 → bit_xor x m / 256 ≡ 0
unfolding holds_below
bit_xor-lt = eq_below₂ (λ x m. bit_xor x m / 256) (λ x m. 0) 256 256 refl

zero-bit_xor : (m : ℕ) → m < 256 → bit_xor 0 m ≡ m
unfolding holds_below
zero-bit_xor = eq_below (λ m. bit_xor 0 m) (λ m. m) 256 refl

pub bit_xor_self : (m : ℕ) → m < 256 → bit_xor m m ≡ 0
unfolding holds_below
bit_xor_self = eq_below (λ m. bit_xor m m) (λ m. 0) 256 refl

pub eq_of_bit_xor : (x m : ℕ) → x < 256 → m < 256 → bit_xor x m ≡ 0 → x ≡ m
eq_of_bit_xor x m p q h =
    cc (bit_xor_twice x m p q, zero-bit_xor m q, ap (λ (t : ℕ). bit_xor t m) h)

or_zero_table : (x y : ℕ) → x < 256 → y < 256 → min (bit_or x y) 1 ≡ min (x + y) 1
unfolding holds_below
or_zero_table = eq_below₂ (λ x y. min (bit_or x y) 1) (λ x y. min (x + y) 1) 256 256 refl

-- An `or` of bytes vanishes exactly when both do.
pub bit_or-zero_iff :
    (x y : ℕ)
    → x < 256
    → y < 256
    → (bit_or x y ≡ 0 → (x ≡ 0) × (y ≡ 0)) × (x + y ≡ 0 → bit_or x y ≡ 0)
bit_or-zero_iff x y p q =
    let t = or_zero_table x y p q in
    (λ h. (omega (arith, t), omega (arith, t)), λ h. omega (arith, t))

pub bit_or-lt : (x y : ℕ) → x < 256 → y < 256 → bit_or x y / 256 ≡ 0
unfolding holds_below
bit_or-lt = eq_below₂ (λ x y. bit_or x y / 256) (λ x y. 0) 256 256 refl

pub bit_and_0x0f : (b : ℕ) → b < 256 → bit_and b 0x0f ≡ b % 16
unfolding holds_below
bit_and_0x0f = eq_below (λ b. bit_and b 0x0f) (λ b. b % 16) 256 refl

pub bit_and_0x7f : (b : ℕ) → b < 256 → bit_and b 0x7f ≡ b % 128
unfolding holds_below
bit_and_0x7f = eq_below (λ b. bit_and b 0x7f) (λ b. b % 128) 256 refl

pub bit_and_0x70 : (b : ℕ) → b < 256 → bit_and b 0x70 ≡ b / 16 % 8 * 16
unfolding holds_below
bit_and_0x70 = eq_below (λ b. bit_and b 0x70) (λ b. b / 16 % 8 * 16) 256 refl

pub bit_and_0x80 : (b : ℕ) → b < 256 → bit_and b 0x80 ≡ b / 128 * 128
unfolding holds_below
bit_and_0x80 = eq_below (λ b. bit_and b 0x80) (λ b. b / 128 * 128) 256 refl

-- The digits of a number need no more fuel than the number itself.
module _ (z : ℕ → ℕ) (f : ℕ → ℕ → ℕ) where
  digits-enough : (n : ℕ) (a b m : ℕ) → a ≤ n → a ≤ m → digits z f n a b ≡ digits z f m a b
  digits-enough zero zero b zero p q = refl
  digits-enough zero zero b (suc m) p q = refl
  digits-enough zero (suc a) b m p q = absurd (omega arith)
  digits-enough (suc n) zero b zero p q = refl
  digits-enough (suc n) zero b (suc m) p q = refl
  digits-enough (suc n) (suc a) b zero p q = absurd (omega arith)
  digits-enough (suc n) (suc a) b (suc m) p q =
      omega (arith, digits-enough n (suc a / 2) (b / 2) m (omega arith) (omega arith))

or_step : (a b : ℕ) → bit_or a b ≡ bit_or (a / 2) (b / 2) * 2 + max (a % 2) (b % 2)
or_step zero b = omega (arith, bit_or-bitwise 0 b, bit_or-bitwise 0 (b / 2))
or_step (suc a) b = omega (
  arith,
  bit_or-bitwise (suc a) b,
  bit_or-bitwise (suc a / 2) (b / 2),
  digits-enough (λ y. y) max a (suc a / 2) (b / 2) (suc a / 2) (omega arith) (omega arith),
)

and_step : (a b : ℕ) → bit_and a b ≡ bit_and (a / 2) (b / 2) * 2 + min (a % 2) (b % 2)
and_step zero b = omega (arith, bit_and-bitwise 0 b, bit_and-bitwise 0 (b / 2))
and_step (suc a) b = omega (
  arith,
  bit_and-bitwise (suc a) b,
  bit_and-bitwise (suc a / 2) (b / 2),
  digits-enough (λ y. 0) min a (suc a / 2) (b / 2) (suc a / 2) (omega arith) (omega arith),
)

or_zero : (n a : ℕ) → a ≤ n → bit_or a 0 ≡ a
or_zero n zero h = omega (arith, bit_or-bitwise 0 0)
or_zero zero (suc a) h = absurd (omega arith)
or_zero (suc n) (suc a) h = omega (arith, or_step (suc a) 0, or_zero n (suc a / 2) (omega arith))

double : (q k : ℕ) → q * 2 ^ suc k ≡ q * 2 ^ k * 2
double q k = omega (arith, ap (λ (t : ℕ). q * t) (pow-suc 2 k))

-- `hi << k | lo` is a sum where `lo` has at most `k` bits.
pub bit_or-fields : (k hi lo : ℕ) → lo < 2 ^ k → bit_or (hi * 2 ^ k) lo ≡ hi * 2 ^ k + lo
bit_or-fields zero hi zero h = ground (arith, or_zero hi hi (omega arith))
bit_or-fields zero hi (suc lo) h = absurd (omega arith)
bit_or-fields (suc k) hi lo h =
    ground
      (arith, double hi k, pow-suc 2 k, or_step (hi * 2 ^ suc k) lo, bit_or-fields k hi (lo / 2))

-- A mask of six ones keeps the remainder by 64.
and_zero : (n a : ℕ) → a ≤ n → bit_and a 0 ≡ 0
and_zero n zero h = omega (arith, bit_and-bitwise 0 0)
and_zero zero (suc a) h = absurd (omega arith)
and_zero (suc n) (suc a) h = omega (arith, and_step (suc a) 0, and_zero n (suc a / 2) (omega arith))

and_mask_step : (a m : ℕ) → bit_and a (m * 2 + 1) ≡ bit_and (a / 2) m * 2 + a % 2
and_mask_step a m = ground (arith, and_step a (m * 2 + 1))

and_one : (a : ℕ) → bit_and a 1 ≡ a % 2
and_one a = omega (arith, and_mask_step a 0, and_zero (a / 2) (a / 2) (omega arith))

and_seven : (a : ℕ) → bit_and a 7 ≡ a % 8
and_seven a = omega (arith, and_mask_step a 3, and_mask_step (a / 2) 1, and_one (a / 2 / 2))

pub bit_and_63 : (a : ℕ) → bit_and a 63 ≡ a % 64
bit_and_63 a = omega (
  arith,
  and_mask_step a 31,
  and_mask_step (a / 2) 15,
  and_mask_step (a / 2 / 2) 7,
  and_seven (a / 2 / 2 / 2),
)

differ_lem : (x y : ℕ) → x < 2 → y < 2 → differ x y ≡ (x + y) % 2
differ_lem zero y p q = omega arith
differ_lem (suc zero) zero p q = refl
differ_lem (suc zero) (suc zero) p q = refl
differ_lem (suc zero) (suc (suc y)) p q = absurd (omega arith)
differ_lem (suc (suc x)) y p q = absurd (omega arith)

xor_step : (a b : ℕ) → bit_xor a b ≡ bit_xor (a / 2) (b / 2) * 2 + (a + b) % 2
xor_step zero b = omega (arith, bit_xor-bitwise 0 b, bit_xor-bitwise 0 (b / 2))
xor_step (suc a) b = omega (
  arith,
  bit_xor-bitwise (suc a) b,
  bit_xor-bitwise (suc a / 2) (b / 2),
  differ_lem (suc a % 2) (b % 2) (omega arith) (omega arith),
  digits-enough (λ y. y) differ a (suc a / 2) (b / 2) (suc a / 2) (omega arith) (omega arith),
)

-- The low `k` bits and those above them do not meet.
pub bit_xor-fields :
    (k a x b y : ℕ)
    → x < 2 ^ k
    → y < 2 ^ k
    → bit_xor (a * 2 ^ k + x) (b * 2 ^ k + y) ≡ bit_xor a b * 2 ^ k + bit_xor x y
bit_xor-fields zero a zero b zero p q = ground (arith, bit_xor-bitwise 0 0)
bit_xor-fields zero a (suc x) b y p q = absurd (omega arith)
bit_xor-fields zero a zero b (suc y) p q = absurd (omega arith)
bit_xor-fields (suc k) a x b y p q = ground (
  arith,
  double a k,
  double b k,
  double (bit_xor a b) k,
  pow-suc 2 k,
  xor_step (a * 2 ^ suc k + x) (b * 2 ^ suc k + y),
  xor_step x y,
  bit_xor-fields k a (x / 2) b (y / 2),
)

pub bit_and_3 : (a : ℕ) → bit_and a 3 ≡ a % 4
bit_and_3 a = omega (arith, and_mask_step a 1, and_one (a / 2))
