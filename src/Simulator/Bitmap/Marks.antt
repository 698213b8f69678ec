-- ===== src/Simulator/Bitmap/Marks.antt =====
-- legacy/OldPageTable/experiment/swap.c: what bitmap_mark and bitmap_unmark do to bitmap_isset.
use native.Mathlib.Nat.{mod-lt}
use blue_bridge.Prelude.{
  ℕ, ◌/◌, ◌%◌, ◌^◌, ◌<◌, ◌≡◌, refl, sym, ap, ap₂, subst, ◌∙◌, inl, inr, arith, none, some, Bool,
  true, false, not, ◌&&◌, ◌||◌, Bool-cases, eq_of_==, ltb, ◌==◌, if◌then◌else◌, update,
}
use mathlib.Core.Option.{map}
use blue_bridge.Bits.{bit_or, bit_and, bit_not}
use blue_bridge.Bits.Test.{
  test_bit, test_bit-bit_or, test_bit-bit_and, test_bit-bit_not, test_bit-mask, masked,
}
use blue_bridge.Simulator.Bitmap.{
  Bitmap, bitmap_translate, bitmap_mark, bitmap_unmark, bitmap_isset,
}

-- The bit of number `i` in an array of words.
abbrev pub at : (ℕ → ℕ) → ℕ → Bool
at v i = test_bit (v (i / 32)) (i % 32)

not_involutive : (b : Bool) → not (not b) ≡ b
not_involutive true = refl
not_involutive false = refl

and_true : (b : Bool) → (b && true) ≡ b
and_true true = refl
and_true false = refl

offset_lt : (i : ℕ) → i % 32 < 32
offset_lt i = mod-lt i (omega arith)

mask_zero : (v : ℕ → ℕ) (i : ℕ) → (bit_and 32 (v (i / 32)) (2 ^ (i % 32)) == 0) ≡ not (at v i)
mask_zero v i = masked 32 (v (i / 32)) (i % 32) (offset_lt i)

pub bitmap_isset-at : (b : Bitmap) (i : ℕ) → bitmap_isset b i ≡ at b.v i
unfolding bitmap_isset bitmap_translate
bitmap_isset-at b i = ap not (mask_zero b.v i) ∙ not_involutive (at b.v i)

same_bit : (i j : ℕ) → (j / 32 == i / 32) ≡ true → (j % 32 == i % 32) ≡ (j == i)
same_bit i j e = ground arith

other_bit : (i j : ℕ) → (j / 32 == i / 32) ≡ false → (j == i) ≡ false
other_bit i j e = ground arith

or_last : (a b : Bool) → (a || b) ≡ (b || a)
or_last a b = ground arith

mask_at : (i j : ℕ) → (j / 32 == i / 32) ≡ true → test_bit (2 ^ (i % 32)) (j % 32) ≡ (j == i)
mask_at i j e = test_bit-mask (i % 32) (j % 32) ∙ same_bit i j e

at_word :
    (v : ℕ → ℕ) (i j : ℕ) → (j / 32 == i / 32) ≡ true → test_bit (v (i / 32)) (j % 32) ≡ at v j
at_word v i j e = ap (λ k. test_bit (v k) (j % 32)) (sym (eq_of_== (j / 32) (i / 32) e))

pub set-at :
    (v : ℕ → ℕ) (i j : ℕ)
    → at (update v (i / 32) (bit_or 32 (v (i / 32)) (2 ^ (i % 32)))) j ≡ ((j == i) || at v j)
set-at v i j = elim (Bool-cases (j / 32 == i / 32)) [
  | inl same ↦ rw same (
      test_bit-bit_or 32 (v (i / 32)) (2 ^ (i % 32)) (j % 32) (offset_lt j)
      ∙ ap₂ (λ a b. a || b) (at_word v i j same) (mask_at i j same)
      ∙ or_last (at v j) (j == i))
  | inr other ↦ rw other (ap (λ b. b || at v j) (sym (other_bit i j other)))
]

pub clear-at :
    (v : ℕ → ℕ) (i j : ℕ)
    → at (update v (i / 32) (bit_and 32 (v (i / 32)) (bit_not 32 (2 ^ (i % 32))))) j
      ≡ (at v j && not (j == i))
clear-at v i j = elim (Bool-cases (j / 32 == i / 32)) [
  | inl same ↦ rw same (
      test_bit-bit_and 32 (v (i / 32)) (bit_not 32 (2 ^ (i % 32))) (j % 32) (offset_lt j)
      ∙ ap₂ (λ a b. a && b) (at_word v i j same)
          (test_bit-bit_not 32 (2 ^ (i % 32)) (j % 32) (offset_lt j) ∙ ap not (mask_at i j same)))
  | inr other ↦
      rw other (sym (and_true (at v j)) ∙ ap (λ b. at v j && not b) (sym (other_bit i j other)))
]

guarded :
    (c d : Bool) (after : Bitmap) (j : ℕ) (r : Bool)
    → c ≡ d
    → bitmap_isset after j ≡ r
    → map (λ b. bitmap_isset b j) (if c then some after else none) ≡ (if d then some r else none)
guarded true d after j r e f =
    subst (λ x. some (bitmap_isset after j) ≡ (if x then some r else none)) e (ap some f)
guarded false d after j r e f = subst (λ x. none ≡ (if x then some r else none)) e refl

-- bitmap_mark fails where the index is out of range or its bit is set already; else exactly that bit
-- is set after it.
pub bitmap_mark-bitmap_isset :
    (b : Bitmap) (i j : ℕ)
    → map (λ after. bitmap_isset after j) (bitmap_mark b i) ≡ (
        if ltb i b.nbits && not (bitmap_isset b i)
        then some ((j == i) || bitmap_isset b j)
        else none)
unfolding bitmap_mark bitmap_translate
bitmap_mark-bitmap_isset b i j =
    guarded (ltb i b.nbits && (bit_and 32 (b.v (i / 32)) (2 ^ (i % 32)) == 0))
      (ltb i b.nbits && not (bitmap_isset b i)) _ j ((j == i) || bitmap_isset b j)
      (ap (λ c. ltb i b.nbits && c) (mask_zero b.v i ∙ ap not (sym (bitmap_isset-at b i))))
      (bitmap_isset-at _ j ∙ set-at b.v i j ∙ ap (λ c. (j == i) || c) (sym (bitmap_isset-at b j)))

-- bitmap_unmark fails where the index is out of range or its bit is clear; else exactly that bit is
-- clear after it.
pub bitmap_unmark-bitmap_isset :
    (b : Bitmap) (i j : ℕ)
    → map (λ after. bitmap_isset after j) (bitmap_unmark b i) ≡ (
        if ltb i b.nbits && bitmap_isset b i then some (bitmap_isset b j && not (j == i)) else none)
unfolding bitmap_unmark bitmap_translate
bitmap_unmark-bitmap_isset b i j =
    guarded (ltb i b.nbits && not (bit_and 32 (b.v (i / 32)) (2 ^ (i % 32)) == 0))
      (ltb i b.nbits && bitmap_isset b i) _ j (bitmap_isset b j && not (j == i))
      (ap (λ c. ltb i b.nbits && c)
        (ap not (mask_zero b.v i) ∙ not_involutive (at b.v i) ∙ sym (bitmap_isset-at b i)))
      (bitmap_isset-at _ j
        ∙ clear-at b.v i j
        ∙ ap (λ c. c && not (j == i)) (sym (bitmap_isset-at b j)))
