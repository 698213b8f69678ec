-- ===== src/Bits.antt =====
-- The bitwise operators of C on machine words, as functions on the bits of their arguments.
pub mod Test
use native.Mathlib.Nat.{pow-suc, mul_assoc, mul_comm}
use blue_bridge.Prelude.{
  ℕ, zero, suc, ◌+◌, ◌*◌, ◌/◌, ◌%◌, ◌^◌, ◌<◌, ◌≡◌, arith, if◌then◌else◌, ◌==◌, Bool, not, ◌&&◌,
  ◌||◌, ap, ◌∙◌,
}

abbrev pub bit : Bool → ℕ
bit b = if b then 1 else 0

-- `x | y` on words of `w` bits
unfoldable pub bit_or : ℕ → ℕ → ℕ → ℕ
bit_or zero x y = 0
bit_or (suc w) x y = bit ((x % 2 == 1) || (y % 2 == 1)) + 2 * bit_or w (x / 2) (y / 2)

pub bit_or-zero : (w y : ℕ) → y < 2 ^ w → bit_or w 0 y ≡ y
unfolding bit_or
bit_or-zero zero y h = omega arith
bit_or-zero (suc w) y h = ground (arith, bit_or-zero w (y / 2) (omega (arith, pow-suc 2 w)))

double : (k s : ℕ) → 2 ^ suc k * s ≡ 2 * (2 ^ k * s)
double k s = ap (λ p. p * s) (pow-suc 2 k ∙ mul_comm (2 ^ k) 2) ∙ mul_assoc 2 (2 ^ k) s

half : (y z : ℕ) → y ≡ 2 * z → y / 2 ≡ z
half y z e = omega arith

even_step : (w x y z : ℕ) → y ≡ 2 * z → bit_or w (x / 2) z ≡ x / 2 + z → bit_or (suc w) x y ≡ x + y
unfolding bit_or
even_step w x y z e h =
    ap (λ v. bit ((x % 2 == 1) || (y % 2 == 1)) + 2 * v) (ap (bit_or w (x / 2)) (half y z e) ∙ h)
    ∙ (ground arith)

-- Where the bits of `x` are below bit `k` and those of the other are not, they add up.
pub bit_or-Apart :
    (w k x s : ℕ) → x < 2 ^ k → x + 2 ^ k * s < 2 ^ w → bit_or w x (2 ^ k * s) ≡ x + 2 ^ k * s
unfolding bit_or
bit_or-Apart w zero zero s l h = bit_or-zero w (1 * s) (omega arith) ∙ (omega arith)
bit_or-Apart w zero (suc x) s l h = omega arith
bit_or-Apart zero (suc k) x s l h = omega arith
bit_or-Apart (suc w) (suc k) x s l h = even_step w x (2 ^ suc k * s) (2 ^ k * s) (double k s) (
    bit_or-Apart w k (x / 2) s (omega (arith, pow-suc 2 k))
      (omega (arith, double k s, pow-suc 2 w)))

-- `x ^ y` on words of `w` bits
unfoldable pub bit_xor : ℕ → ℕ → ℕ → ℕ
bit_xor zero x y = 0
bit_xor (suc w) x y = bit (not (x % 2 == y % 2)) + 2 * bit_xor w (x / 2) (y / 2)

-- `x & y` on words of `w` bits
unfoldable pub bit_and : ℕ → ℕ → ℕ → ℕ
bit_and zero x y = 0
bit_and (suc w) x y = bit ((x % 2 == 1) && (y % 2 == 1)) + 2 * bit_and w (x / 2) (y / 2)

-- `~x` on words of `w` bits
unfoldable pub bit_not : ℕ → ℕ → ℕ
bit_not zero x = 0
bit_not (suc w) x = bit (not (x % 2 == 1)) + 2 * bit_not w (x / 2)
