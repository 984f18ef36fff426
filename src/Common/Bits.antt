-- ===== src/Common/Bits.antt =====
-- The bit operations at variables: masks of k ones, sums without carries, and the complement.
use Prim.Native.Nat.{ℕ, zero, suc, ◌+◌, ◌-◌, ◌*◌, ◌/◌, ◌%◌, ◌^◌, ◌≤◌, ◌<◌, min, max}
use Prim.Native.Nat.{bit_and, bit_or, bit_xor, digits, bitwise, differ}
use Prim.Native.Nat.{bit_and-bitwise, bit_or-bitwise, bit_xor-bitwise}
use mathlib.Core.Path.{◌≡◌, refl, ap, ◌∙◌}
use native.Mathlib.Omega.{arith}
use native.Mathlib.Nat.{
  mul-le-mul_right, add-zero, add-suc, pow-suc, one-le-pow, mul-add-mod_self_left, mod-eq_of_lt,
  mul-add-div, div-eq_of_lt, div-add-mod, mod-lt,
}

-- Any fuel that is at least the first number gives the same digits.
module _ (base : ℕ → ℕ) (digit : ℕ → ℕ → ℕ) where
  enough_fuel : (a b n m : ℕ) → a ≤ n → a ≤ m → digits base digit n a b ≡ digits base digit m a b
  enough_fuel a b zero zero hn hm = refl
  enough_fuel zero b zero (suc m) hn hm = refl
  enough_fuel zero b (suc n) zero hn hm = refl
  enough_fuel zero b (suc n) (suc m) hn hm = refl
  enough_fuel (suc a) b zero m hn hm = absurd (omega arith)
  enough_fuel (suc a) b (suc n) zero hn hm = absurd (omega arith)
  enough_fuel (suc a) b (suc n) (suc m) hn hm =
      let half = enough_fuel (suc a / 2) (b / 2) n m (omega arith) (omega arith) in
      ap (λ (t : ℕ). t * 2 + digit (suc a % 2) (b % 2)) half

  lowest_digit :
      (a b : ℕ)
      → bitwise base digit (suc a) b
        ≡ bitwise base digit (suc a / 2) (b / 2) * 2 + digit (suc a % 2) (b % 2)
  lowest_digit a b =
      ap (λ (t : ℕ). t * 2 + digit (suc a % 2) (b % 2))
        (enough_fuel (suc a / 2) (b / 2) a (suc a / 2) (omega arith) (omega arith))

and_low : (a b : ℕ) → bit_and a b ≡ bit_and (a / 2) (b / 2) * 2 + min (a % 2) (b % 2)
and_low zero b = rw (bit_and-bitwise 0 b, bit_and-bitwise 0 (b / 2)) (omega arith)
and_low (suc a) b =
    rw (bit_and-bitwise (suc a) b, bit_and-bitwise (suc a / 2) (b / 2)) (lowest_digit _ min a b)

or_low : (a b : ℕ) → bit_or a b ≡ bit_or (a / 2) (b / 2) * 2 + max (a % 2) (b % 2)
or_low zero b = rw (bit_or-bitwise 0 b, bit_or-bitwise 0 (b / 2)) (omega arith)
or_low (suc a) b =
    rw (bit_or-bitwise (suc a) b, bit_or-bitwise (suc a / 2) (b / 2)) (lowest_digit _ max a b)

low_digits : (b : ℕ) → b ≡ b / 2 * 2 + b % 2
low_digits b = omega arith

xor_low : (a b : ℕ) → bit_xor a b ≡ bit_xor (a / 2) (b / 2) * 2 + differ (a % 2) (b % 2)
xor_low zero b = rw (bit_xor-bitwise 0 b, bit_xor-bitwise 0 (b / 2)) (low_digits b)
xor_low (suc a) b =
    rw (bit_xor-bitwise (suc a) b, bit_xor-bitwise (suc a / 2) (b / 2)) (lowest_digit _ differ a b)

pub pow_pos : (k : ℕ) → 0 < 2 ^ k
pow_pos k = one-le-pow k 2 (omega arith)

pub pow-add : (a b : ℕ) → 2 ^ (a + b) ≡ 2 ^ a * 2 ^ b
pow-add a zero = rw (add-zero a) (omega arith)
pow-add a (suc b) = rw (add-suc a b, pow-suc 2 (a + b), pow-suc 2 b, pow-add a b) (omega arith)

pub mod_unique : (m q r : ℕ) → r < m → (m * q + r) % m ≡ r
mod_unique m q r h = mul-add-mod_self_left m q r ∙ mod-eq_of_lt h

pub div_unique : (m q r : ℕ) → r < m → (m * q + r) / m ≡ q
div_unique m q r h = mul-add-div (omega arith) q r ∙ rw (div-eq_of_lt h) (omega arith)

pub mod_pow-suc : (x k : ℕ) → x % 2 ^ suc k ≡ x / 2 % 2 ^ k * 2 + x % 2
mod_pow-suc x k =
    let whole = div-add-mod (x / 2) (2 ^ k) in
    let small = mod-lt (x / 2) (pow_pos k) in
    let d = x / 2 / 2 ^ k in
    let r = x / 2 % 2 ^ k * 2 + x % 2 in
    let e : x ≡ 2 ^ suc k * d + r = rw (pow-suc 2 k) (omega arith) in
    ap (λ (t : ℕ). t % 2 ^ suc k) e ∙ mod_unique (2 ^ suc k) d r (rw (pow-suc 2 k) (omega arith))

and_zero_below : (n x : ℕ) → x ≤ n → bit_and x 0 ≡ 0
and_zero_below n zero h = refl
and_zero_below zero (suc x) h = absurd (omega arith)
and_zero_below (suc n) (suc x) h =
    omega (arith, and_low (suc x) 0, and_zero_below n (suc x / 2) (omega arith))

-- `2 ^ (k + 1) - 1` is a mask with one more digit.
mask_suc : (k : ℕ) → ((2 ^ suc k - 1) / 2 ≡ 2 ^ k - 1) × ((2 ^ suc k - 1) % 2 ≡ 1)
mask_suc k = let p = pow_pos k in rw (pow-suc 2 k) (omega arith, omega arith)

-- A remainder by a product, from its digits.
pub mod-mul : (x t p : ℕ) → 0 < t → 0 < p → x % (t * p) ≡ x / p % t * p + x % p
mod-mul x t p ht hp =
    let q = x / p / t in
    let r = x / p % t * p + x % p in
    let outer = ap (λ (n : ℕ). p * n) (div-add-mod (x / p) t) in
    let e : x ≡ t * p * q + r = omega (arith, div-add-mod x p, outer) in
    let digit = mul-le-mul_right p (mod-lt (x / p) ht) in
    let small : r < t * p = omega (arith, digit, mod-lt x hp) in
    ap (λ (n : ℕ). n % (t * p)) e ∙ mod_unique (t * p) q r small

-- `x & ((1 << k) - 1)` is the remainder by 2 ^ k.
pub and_mask : (k x : ℕ) → bit_and x (2 ^ k - 1) ≡ x % 2 ^ k
and_mask zero x = omega (arith, and_zero_below x x (omega arith))
and_mask (suc k) x =
    let (half, low) = mask_suc k in
    and_low x (2 ^ suc k - 1) ∙ rw (half, low, and_mask k (x / 2), mod_pow-suc x k) (omega arith)

or_zero_below : (n x : ℕ) → x ≤ n → bit_or x 0 ≡ x
or_zero_below n zero h = refl
or_zero_below zero (suc x) h = absurd (omega arith)
or_zero_below (suc n) (suc x) h =
    omega (arith, or_low (suc x) 0, or_zero_below n (suc x / 2) (omega arith))

pub or-zero : (x : ℕ) → bit_or x 0 ≡ x
or-zero x = or_zero_below x x (omega arith)

-- The halves of `a << (k + 1)`.
shifted_suc : (k a : ℕ) → (a * 2 ^ suc k / 2 ≡ a * 2 ^ k) × (a * 2 ^ suc k % 2 ≡ 0)
shifted_suc k a = rw (pow-suc 2 k) (omega arith, omega arith)

-- Numbers with no binary digit in common are joined by addition.
pub or_disjoint : (k a b : ℕ) → b < 2 ^ k → bit_or (a * 2 ^ k) b ≡ a * 2 ^ k + b
or_disjoint zero a zero h = omega (arith, or-zero (a * 1))
or_disjoint zero a (suc b) h = absurd (omega arith)
or_disjoint (suc k) a b h =
    let (half, low) = shifted_suc k a in
    let small : b / 2 < 2 ^ k = omega (arith, pow-suc 2 k) in
    or_low (a * 2 ^ suc k) b
    ∙ rw (half, low, or_disjoint k a (b / 2) small, pow-suc 2 k) (omega arith)

zero-or : (x : ℕ) → bit_or 0 x ≡ x
zero-or x = bit_or-bitwise 0 x

pub disjoint_or : (k a b : ℕ) → b < 2 ^ k → bit_or b (a * 2 ^ k) ≡ b + a * 2 ^ k
disjoint_or zero a zero h = omega (arith, zero-or (a * 2 ^ 0))
disjoint_or zero a (suc b) h = absurd (omega arith)
disjoint_or (suc k) a b h =
    let (half, low) = shifted_suc k a in
    let small : b / 2 < 2 ^ k = omega (arith, pow-suc 2 k) in
    or_low b (a * 2 ^ suc k)
    ∙ rw (half, low, disjoint_or k a (b / 2) small, pow-suc 2 k) (omega arith)

differ-zero : (r : ℕ) → differ r 0 ≡ r
differ-zero zero = refl
differ-zero (suc r) = refl

xor_zero_below : (n x : ℕ) → x ≤ n → bit_xor x 0 ≡ x
xor_zero_below n zero h = refl
xor_zero_below zero (suc x) h = absurd (omega arith)
xor_zero_below (suc n) (suc x) h =
    omega (
      arith,
      xor_low (suc x) 0,
      differ-zero (suc x % 2),
      xor_zero_below n (suc x / 2) (omega arith),
    )

pub xor-zero : (x : ℕ) → bit_xor x 0 ≡ x
xor-zero x = xor_zero_below x x (omega arith)

differ-one : (r : ℕ) → r < 2 → differ r 1 ≡ 1 - r
differ-one zero h = refl
differ-one (suc zero) h = refl
differ-one (suc (suc r)) h = absurd (omega arith)

-- The complement of a number of k digits.
pub xor_ones : (k x : ℕ) → x < 2 ^ k → bit_xor x (2 ^ k - 1) ≡ 2 ^ k - 1 - x
xor_ones zero zero h = refl
xor_ones zero (suc x) h = absurd (omega arith)
xor_ones (suc k) x h =
    let (half, low) = mask_suc k in
    let small : x / 2 < 2 ^ k = omega (arith, pow-suc 2 k) in
    xor_low x (2 ^ suc k - 1)
    ∙ rw (half, low, xor_ones k (x / 2) small, differ-one (x % 2) (omega arith), pow-suc 2 k)
        (omega arith)

-- The mask may stand on either side.
pub mask_and : (k x : ℕ) → bit_and (2 ^ k - 1) x ≡ x % 2 ^ k
mask_and zero x = bit_and-bitwise 0 x ∙ omega arith
mask_and (suc k) x =
    let (half, low) = mask_suc k in
    and_low (2 ^ suc k - 1) x ∙ rw (half, low, mask_and k (x / 2), mod_pow-suc x k) (omega arith)
