-- ===== src/Common/Mask.antt =====
-- A mask of low ones takes the remainder by a power of two.
use Prim.Native.Nat.{bit_and, digits, bit_and-bitwise}
use fancy_kit.Common.{
  ℕ, zero, suc, ◌+◌, ◌-◌, ◌*◌, ◌/◌, ◌%◌, ◌^◌, ◌≤◌, ◌<◌, ◌≡◌, ap, ◌∙◌, min, arith,
}
use native.Mathlib.Nat.{mod-lt, mod-eq_of_lt, div-add-mod, add-mul-mod_self_left, pow-suc}

pub pow_pos : (k : ℕ) → 0 < 2 ^ k
pow_pos zero = omega arith
pow_pos (suc k) = omega (arith, pow-suc 2 k, pow_pos k)

-- The remainder by `2 * p`, digit by digit.
mod_double : (a p : ℕ) → 0 < p → a % (2 * p) ≡ (a / 2) % p * 2 + a % 2
mod_double a p h =
    let r = a / 2 % p in
    let q = a / 2 / p in
    let whole : a ≡ r * 2 + a % 2 + 2 * p * q =
      omega (arith, div-add-mod (a / 2) p, div-add-mod a 2) in
    let below : r * 2 + a % 2 < 2 * p = omega (arith, mod-lt (a / 2) h) in
    ap (λ t. t % (2 * p)) whole
    ∙ add-mul-mod_self_left (r * 2 + a % 2) (2 * p) q
    ∙ mod-eq_of_lt below

mask_half : (k : ℕ) → (2 ^ suc k - 1) / 2 ≡ 2 ^ k - 1
mask_half k = omega (arith, pow-suc 2 k, pow_pos k)

mask_odd : (k : ℕ) → (2 ^ suc k - 1) % 2 ≡ 1
mask_odd k = omega (arith, pow-suc 2 k, pow_pos k)

mask_digits : (n k a : ℕ) → a ≤ n → digits (λ b. zero) min n a (2 ^ k - 1) ≡ a % 2 ^ k
mask_digits zero k zero h = omega (arith, pow_pos k)
mask_digits zero k (suc a) h = absurd (omega arith)
mask_digits (suc n) k zero h = omega (arith, pow_pos k)
mask_digits (suc n) zero (suc a) h = omega (arith, mask_digits n zero (suc a / 2) (omega arith))
mask_digits (suc n) (suc k) (suc a) h =
    rw (mask_half k, mask_odd k)
      (omega (
        arith,
        mask_digits n k (suc a / 2) (omega arith),
        mod_double (suc a) (2 ^ k) (pow_pos k),
        ap (λ t. suc a % t) (pow-suc 2 k),
        ap (λ t. suc a % t) (let e : 2 ^ k * 2 ≡ 2 * 2 ^ k = omega arith in e),
      ))

pub bit_and_mask : (a k : ℕ) → bit_and a (2 ^ k - 1) ≡ a % 2 ^ k
bit_and_mask a k = bit_and-bitwise a (2 ^ k - 1) ∙ mask_digits a k a (omega arith)
