-- ===== src/Base/Bits.antt =====
-- Binary digits: fields side by side, and a mask of ones.
use Prim.Native.Nat.{bit_or, bit_or-bitwise, bit_and, bit_and-bitwise, digits, max, min}
use Prim.Native.Nat.pow
use Prim.Native.Nat.{ℕ, zero, suc, ◌+◌, ◌*◌, ◌/◌, ◌%◌, ◌^◌, ◌≤◌, ◌<◌}
use mathlib.Core.Path.{◌≡◌, refl, ap, subst, ◌∙◌}
use native.Mathlib.Omega.{arith}

max_zero : (a : ℕ) → max a 0 ≡ a
max_zero a = ground arith

digits-or_zero : (n a : ℕ) → a ≤ n → digits (λ b. b) max n a 0 ≡ a
digits-or_zero zero a h = omega arith
digits-or_zero (suc n) zero h = refl
digits-or_zero (suc n) (suc a) h =
    let rest = digits-or_zero n (suc a / 2) (omega arith) in
    omega (arith, rest, max_zero (suc a % 2))

zero_max : (a : ℕ) → max 0 a ≡ a
zero_max a = ground arith

digits-or_fields :
    (k n a b c : ℕ) → c ≡ a * 2 ^ k → c ≤ n → b < 2 ^ k → digits (λ x. x) max n c b ≡ c + b
digits-or_fields zero n a b c e h small =
    let none_left : b ≡ 0 = omega arith in rw none_left (digits-or_zero n c h ∙ omega arith)
digits-or_fields (suc k) zero a b c e h small = omega arith
digits-or_fields (suc k) (suc n) a b zero e h small = omega arith
digits-or_fields (suc k) (suc n) a b (suc c) e h small =
    let twice : 2 ^ suc k ≡ 2 ^ k * 2 = pow.suc 2 k in
    let even : suc c ≡ a * 2 ^ k * 2 = omega (arith, e ∙ ap (◌*◌ a) twice) in
    let half : suc c / 2 ≡ a * 2 ^ k = omega (arith, even) in
    let rest =
      digits-or_fields k n a (b / 2) (suc c / 2) half (omega arith) (omega (arith, small, twice)) in
    let bit : suc c % 2 ≡ 0 = omega (arith, even) in
    let top : max (suc c % 2) (b % 2) ≡ b % 2 = rw bit (zero_max (b % 2)) in
    omega (arith, rest, top, bit)

-- A field shifted by `k` digits beside a number of at most `k` digits.
pub bit_or_fields : (k a b : ℕ) → b < 2 ^ k → bit_or (a * 2 ^ k) b ≡ a * 2 ^ k + b
bit_or_fields k a b small =
    bit_or-bitwise (a * 2 ^ k) b
    ∙ digits-or_fields k (a * 2 ^ k) a b (a * 2 ^ k) refl (omega arith) small

min_one : (a : ℕ) → a ≤ 1 → min a 1 ≡ a
min_one a h = ground arith

digits-and_zero : (n a : ℕ) → digits (λ x. 0) min n a 0 ≡ 0
digits-and_zero zero a = refl
digits-and_zero (suc n) zero = refl
digits-and_zero (suc n) (suc a) =
    let rest = digits-and_zero n (suc a / 2) in
    let none_left : min (suc a % 2) 0 ≡ 0 = ground arith in omega (arith, rest, none_left)

digits-and_low :
    (k n a q r mask : ℕ)
    → suc mask ≡ 2 ^ k
    → a ≡ q * 2 ^ k + r
    → r < 2 ^ k
    → a ≤ n
    → digits (λ x. 0) min n a mask ≡ r
digits-and_low zero n a q r mask e split small h =
    let no_mask : mask ≡ 0 = omega arith in rw no_mask (digits-and_zero n a ∙ omega arith)
digits-and_low (suc k) zero a q r mask e split small h = omega arith
digits-and_low (suc k) (suc n) zero q r mask e split small h = omega arith
digits-and_low (suc k) (suc n) (suc a) q r mask e split small h =
    let twice : 2 ^ suc k ≡ 2 ^ k * 2 = pow.suc 2 k in
    let odd : mask % 2 ≡ 1 = omega (arith, e, twice) in
    let half : suc (mask / 2) ≡ 2 ^ k = omega (arith, e, twice) in
    let parts : suc a ≡ q * 2 ^ k * 2 + r = omega (arith, split ∙ ap (λ t. q * t + r) twice) in
    let upper : suc a / 2 ≡ q * 2 ^ k + r / 2 = omega (arith, parts) in
    let lower : suc a % 2 ≡ r % 2 = omega (arith, parts) in
    let rest =
      digits-and_low k n (suc a / 2) q (r / 2) (mask / 2) half upper (omega (arith, small, twice))
        (omega arith) in
    let bit : min (suc a % 2) (mask % 2) ≡ suc a % 2 = rw odd (min_one (suc a % 2) (omega arith)) in
    omega (arith, rest, bit, lower)

-- A mask of `k` ones takes the lowest `k` digits.
pub bit_and_low : (k q r mask : ℕ) → suc mask ≡ 2 ^ k → r < 2 ^ k → bit_and (q * 2 ^ k + r) mask ≡ r
bit_and_low k q r mask e small =
    bit_and-bitwise (q * 2 ^ k + r) mask
    ∙ digits-and_low k (q * 2 ^ k + r) (q * 2 ^ k + r) q r mask e refl small (omega arith)

-- A mask of `k` ones keeps a number of at most `k` digits.
pub bit_and_mask : (k a mask : ℕ) → suc mask ≡ 2 ^ k → a < 2 ^ k → bit_and a mask ≡ a
bit_and_mask k a mask e small =
    let whole : 0 * 2 ^ k + a ≡ a = omega arith in
    subst (λ x. bit_and x mask ≡ a) whole (bit_and_low k 0 a mask e small)
