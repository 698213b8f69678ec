-- ===== src/Bits/Test.antt =====
-- Reading a single bit of a word, and what the bitwise operators of C do to it.
use native.Mathlib.Nat.{pow-suc}
use blue_bridge.Prelude.{
  ℕ, zero, suc, ◌+◌, ◌*◌, ◌/◌, ◌%◌, ◌^◌, ◌<◌, ◌≡◌, refl, arith, ◌==◌, eq_of_==, Bool, true, false,
  not, ◌&&◌, ◌||◌, ap, ◌∙◌,
}
use blue_bridge.Bits.{bit, bit_or, bit_and, bit_not}

abbrev pub test_bit : ℕ → ℕ → Bool
test_bit x zero = x % 2 == 1
test_bit x (suc j) = test_bit (x / 2) j

low : (b : Bool) (r : ℕ) → ((bit b + 2 * r) % 2 == 1) ≡ b
low b r = ground arith

high : (b : Bool) (r : ℕ) → (bit b + 2 * r) / 2 ≡ r
high b r = ground arith

pub test_bit-bit_or :
    (w x y j : ℕ) → j < w → test_bit (bit_or w x y) j ≡ (test_bit x j || test_bit y j)
unfolding bit_or
test_bit-bit_or zero x y j h = absurd (omega arith)
test_bit-bit_or (suc w) x y zero h = low _ _
test_bit-bit_or (suc w) x y (suc j) h =
    ap (λ v. test_bit v j) (high _ _) ∙ test_bit-bit_or w (x / 2) (y / 2) j (omega arith)

pub test_bit-bit_and :
    (w x y j : ℕ) → j < w → test_bit (bit_and w x y) j ≡ (test_bit x j && test_bit y j)
unfolding bit_and
test_bit-bit_and zero x y j h = absurd (omega arith)
test_bit-bit_and (suc w) x y zero h = low _ _
test_bit-bit_and (suc w) x y (suc j) h =
    ap (λ v. test_bit v j) (high _ _) ∙ test_bit-bit_and w (x / 2) (y / 2) j (omega arith)

pub test_bit-bit_not : (w x j : ℕ) → j < w → test_bit (bit_not w x) j ≡ not (test_bit x j)
unfolding bit_not
test_bit-bit_not zero x j h = absurd (omega arith)
test_bit-bit_not (suc w) x zero h = low _ _
test_bit-bit_not (suc w) x (suc j) h =
    ap (λ v. test_bit v j) (high _ _) ∙ test_bit-bit_not w (x / 2) j (omega arith)

halve : (k : ℕ) → 2 ^ suc k / 2 ≡ 2 ^ k
halve k = omega (arith, pow-suc 2 k)

pub test_zero : (j : ℕ) → test_bit 0 j ≡ false
test_zero zero = refl
test_zero (suc j) = test_zero j

pub test_bit-mask : (k j : ℕ) → test_bit (2 ^ k) j ≡ (j == k)
test_bit-mask zero zero = refl
test_bit-mask zero (suc j) = test_zero j ∙ (ground arith)
test_bit-mask (suc k) zero = ground (arith, pow-suc 2 k)
test_bit-mask (suc k) (suc j) =
    ap (λ v. test_bit v j) (halve k) ∙ test_bit-mask k j ∙ (ground arith)

and_zero : (w x : ℕ) → bit_and w x 0 ≡ 0
unfolding bit_and
and_zero zero x = refl
and_zero (suc w) x = ground (arith, and_zero w (x / 2))

even_mask : (k : ℕ) → (2 ^ suc k % 2 == 1) ≡ false
even_mask k = ground (arith, pow-suc 2 k)

and_false : (b : Bool) → (b && false) ≡ false
and_false true = refl
and_false false = refl

and_even : (w x k : ℕ) → bit_and (suc w) x (2 ^ suc k) ≡ 2 * bit_and w (x / 2) (2 ^ k)
unfolding bit_and
and_even w x k =
    ap (λ b. bit ((x % 2 == 1) && b) + 2 * bit_and w (x / 2) (2 ^ suc k / 2)) (even_mask k)
    ∙ ap (λ b. bit b + 2 * bit_and w (x / 2) (2 ^ suc k / 2)) (and_false (x % 2 == 1))
    ∙ ap (λ v. bit false + 2 * bit_and w (x / 2) v) (halve k)
    ∙ (ground arith)

twice : (n : ℕ) → (2 * n == 0) ≡ (n == 0)
twice n = ground arith

masked_zero : (w x : ℕ) → (bit_and (suc w) x 1 == 0) ≡ not (x % 2 == 1)
unfolding bit_and
masked_zero w x =
    ap (λ v. bit ((x % 2 == 1) && true) + 2 * v == 0) (and_zero w (x / 2)) ∙ (ground arith)

-- `word & 1 << k` is zero where bit k is clear.
pub masked : (w x k : ℕ) → k < w → (bit_and w x (2 ^ k) == 0) ≡ not (test_bit x k)
masked zero x k h = absurd (omega arith)
masked (suc w) x zero h = masked_zero w x
masked (suc w) x (suc k) h =
    ap (λ v. v == 0) (and_even w x k)
    ∙ twice (bit_and w (x / 2) (2 ^ k))
    ∙ masked w (x / 2) k (omega arith)

pub bit_or-lt : (w x y : ℕ) → bit_or w x y < 2 ^ w
unfolding bit_or
bit_or-lt zero x y = omega arith
bit_or-lt (suc w) x y = ground (arith, bit_or-lt w (x / 2) (y / 2), pow-suc 2 w)

pub bit_and-lt : (w x y : ℕ) → bit_and w x y < 2 ^ w
unfolding bit_and
bit_and-lt zero x y = omega arith
bit_and-lt (suc w) x y = ground (arith, bit_and-lt w (x / 2) (y / 2), pow-suc 2 w)

-- A word all of whose bits are set is the greatest.
pub all_set : (w x : ℕ) → ((j : ℕ) → j < w → test_bit x j ≡ true) → x < 2 ^ w → x + 1 ≡ 2 ^ w
all_set zero x h l = omega (arith, l)
all_set (suc w) x h l = omega (
  arith,
  eq_of_== (x % 2) 1 (h 0 (omega arith)),
  pow-suc 2 w,
  l,
  all_set w (x / 2) (λ j k. h (suc j) (omega (arith, k))) (omega (arith, l, pow-suc 2 w)),
)

pub greatest-test_bit : (w x j : ℕ) → x + 1 ≡ 2 ^ w → j < w → test_bit x j ≡ true
greatest-test_bit zero x j e h = absurd (omega arith)
greatest-test_bit (suc w) x zero e h = ground (arith, pow-suc 2 w)
greatest-test_bit (suc w) x (suc j) e h =
    greatest-test_bit w (x / 2) j (omega (arith, e, pow-suc 2 w)) (omega arith)
