-- ===== src/Vmem/Raid/Laws.antt =====
-- The laws of the bitwise exclusive or, and of the parity's sums of bytes (ip6/lib/vmem/rrmem.c).
use native.Mathlib.Nat.{pow-suc}
use blue_bridge.Prelude.{
  ℕ, zero, suc, ◌+◌, ◌*◌, ◌/◌, ◌%◌, ◌^◌, ◌≤◌, ◌<◌, ◌≡◌, refl, sym, ap, ap₂, ◌∙◌, arith, ◌==◌, Bool,
  not, Bool-cases, inl, inr, ne_of_==, not_==_of_lt, eq_of_==, subst,
}
use blue_bridge.Bits.{bit, bit_xor}
use blue_bridge.Vmem.Raid.{xor_all, xor_others}

pub xor_comm : (w x y : ℕ) → bit_xor w x y ≡ bit_xor w y x
unfolding bit_xor
xor_comm zero x y = refl
xor_comm (suc w) x y = ground (arith, xor_comm w (x / 2) (y / 2))

pub xor_self : (w x : ℕ) → bit_xor w x x ≡ 0
unfolding bit_xor
xor_self zero x = refl
xor_self (suc w) x = ground (arith, xor_self w (x / 2))

pub xor_zero : (w x : ℕ) → x < 2 ^ w → bit_xor w 0 x ≡ x
unfolding bit_xor
xor_zero zero x h = omega arith
xor_zero (suc w) x h = ground (arith, xor_zero w (x / 2) (omega (arith, pow-suc 2 w)))

low : (b : Bool) (r : ℕ) → (bit b + 2 * r) % 2 ≡ bit b
low b r = ground arith

high : (b : Bool) (r : ℕ) → (bit b + 2 * r) / 2 ≡ r
high b r = ground arith

bits_assoc :
    (x y z : ℕ)
    → bit (not (bit (not (x % 2 == y % 2)) == z % 2))
      ≡ bit (not (x % 2 == bit (not (y % 2 == z % 2))))
bits_assoc x y z = ground arith

pub xor_assoc : (w x y z : ℕ) → bit_xor w (bit_xor w x y) z ≡ bit_xor w x (bit_xor w y z)
unfolding bit_xor
xor_assoc zero x y z = refl
xor_assoc (suc w) x y z =
    let b = not (x % 2 == y % 2) in
    let c = not (y % 2 == z % 2) in
    let r = bit_xor w (x / 2) (y / 2) in
    let s = bit_xor w (y / 2) (z / 2) in
    ap₂ (λ u v. bit (not (u == z % 2)) + 2 * bit_xor w v (z / 2)) (low b r) (high b r)
    ∙ ap₂ (λ u v. u + 2 * v) (bits_assoc x y z) (xor_assoc w (x / 2) (y / 2) (z / 2))
    ∙ sym (ap₂ (λ u v. bit (not (x % 2 == u)) + 2 * bit_xor w (x / 2) v) (low c s) (high c s))

-- A byte is what is left of the parity when the other bytes are taken away.
pub xor_others_absent :
    (f : ℕ → ℕ) (missing n : ℕ) → n ≤ missing → xor_others f missing n ≡ xor_all f n
unfolding xor_others xor_all
xor_others_absent f missing zero h = refl
xor_others_absent f missing (suc j) h =
    rw (not_==_of_lt j missing (omega arith))
      (ap (λ v. bit_xor 8 v (f j)) (xor_others_absent f missing j (omega arith)))

pub xor_others-all :
    (f : ℕ → ℕ) (missing n : ℕ)
    → missing < n
    → bit_xor 8 (xor_others f missing n) (f missing) ≡ xor_all f n
unfolding xor_others xor_all
xor_others-all f missing zero h = omega arith
xor_others-all f missing (suc j) h = elim (Bool-cases (j == missing)) [
  | inl here ↦ rw here (
      subst (λ k. bit_xor 8 (xor_others f missing k) (f missing) ≡ bit_xor 8 (xor_all f k) (f k))
        (sym (eq_of_== j missing here))
        (ap (λ v. bit_xor 8 v (f missing)) (xor_others_absent f missing missing (omega arith))))
  | inr elsewhere ↦ rw elsewhere (
      xor_assoc 8 (xor_others f missing j) (f j) (f missing)
      ∙ ap (bit_xor 8 (xor_others f missing j)) (xor_comm 8 (f j) (f missing))
      ∙ sym (xor_assoc 8 (xor_others f missing j) (f missing) (f j))
      ∙ ap (λ v. bit_xor 8 v (f j))
          (xor_others-all f missing j (omega (arith, ne_of_== j missing elsewhere))))
]

pub xor_others_recover :
    (f : ℕ → ℕ) (missing n : ℕ)
    → missing < n
    → f missing < 2 ^ 8
    → bit_xor 8 (xor_others f missing n) (xor_all f n) ≡ f missing
xor_others_recover f missing n h byte =
    let s = xor_others f missing n in
    ap (bit_xor 8 s) (sym (xor_others-all f missing n h))
    ∙ sym (xor_assoc 8 s s (f missing))
    ∙ ap (λ v. bit_xor 8 v (f missing)) (xor_self 8 s)
    ∙ xor_zero 8 (f missing) byte
