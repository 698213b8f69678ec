-- ===== src/Simulator/Bitmap/Create.antt =====
-- legacy/OldPageTable/experiment/swap.c: bitmap_create gives a bitmap whose indexes are all clear.
use native.Mathlib.Nat.{mod-lt, mod-eq_of_lt}
use blue_bridge.Prelude.{
  ℕ, zero, suc, ◌+◌, ◌-◌, ◌*◌, ◌/◌, ◌%◌, ◌^◌, ◌≤◌, ◌<◌, ◌≡◌, refl, sym, ap, ap₂, subst, ◌∙◌, inl,
  inr, arith, Option, none, some, false, ◌&&◌, ◌||◌, Bool-cases, eq_of_==, ne_of_==, ==_refl,
  lt→leb, ltb, leb, ◌==◌, lt→ltb, le→ltb, if◌then◌else◌, update,
}
use blue_bridge.Bits.{bit_or}
use blue_bridge.Bits.Test.{test_bit, test_bit-bit_or, test_bit-mask, test_zero, bit_or-lt}
use blue_bridge.Simulator.Bitmap.{Bitmap, bitmap_isset, divroundup, mark_from, bitmap_create}
use blue_bridge.Simulator.Bitmap.Marks.{at, bitmap_isset-at}
use blue_bridge.Simulator.Bitmap.Alloc.{IsBitmap}

-- What the loop over the leftover bits sets.
pub mark_from-test_bit :
    (left j word k : ℕ)
    → j + left ≤ 32
    → k < 32
    → test_bit (mark_from left j word) k ≡ (test_bit word k || (leb j k && ltb k (j + left)))
unfolding mark_from
mark_from-test_bit zero j word k h l = ground arith
mark_from-test_bit (suc left) j word k h l =
    mark_from-test_bit left (j + 1) (bit_or 32 word (2 ^ j)) k (omega arith) l
    ∙ ap (λ b. b || (leb (j + 1) k && ltb k (j + 1 + left)))
        (test_bit-bit_or 32 word (2 ^ j) k l ∙ ap (λ b. test_bit word k || b) (test_bit-mask j k))
    ∙ (ground arith)

mark_from-lt : (left j word : ℕ) → word < 2 ^ 32 → mark_from left j word < 2 ^ 32
unfolding mark_from
mark_from-lt zero j word h = h
mark_from-lt (suc left) j word h =
    mark_from-lt left (j + 1) (bit_or 32 word (2 ^ j)) (bit_or-lt 32 word (2 ^ j))

-- The words that bitmap_create leaves: the bits above nbits of the last one are set.
abbrev fresh : ℕ → ℕ → ℕ
fresh nbits =
    if nbits % 32 == 0
    then (λ _. 0)
    else update (λ _. 0) (nbits / 32) (mark_from (32 - nbits % 32) (nbits % 32) 0)

words_of : (nbits : ℕ) → nbits + 32 ≤ 2 ^ 32 → divroundup nbits 32 ≡ (nbits + 31) / 32
unfolding divroundup
words_of nbits h =
    let e : (nbits + 32 - 1) % 2 ^ 32 ≡ nbits + 32 - 1 = mod-eq_of_lt (omega (arith, h)) in
    omega (arith, e)

-- bitmap_create with the last word and the bits over it given.
abbrev leftover : (nbits last overbits : ℕ) → Option Bitmap
leftover nbits last overbits =
    if (nbits / 32 == last) && (ltb 0 overbits && ltb overbits 32)
    then some
        (record { nbits = nbits; v = update (λ _. 0) last (mark_from (32 - overbits) overbits 0) })
    else none

abbrev created : (nbits words : ℕ) → Option Bitmap
created nbits words =
    if ltb (nbits / 32) words
    then leftover nbits (words - 1) (nbits - (words - 1) * 32)
    else some (record { nbits = nbits; v = λ _. 0 })

last_word : (nbits : ℕ) → nbits / 32 + 1 - 1 ≡ nbits / 32
last_word nbits = omega arith

last_bits : (nbits : ℕ) → nbits - (nbits / 32 + 1 - 1) * 32 ≡ nbits % 32
last_bits nbits = omega arith

bitmap_create-fresh :
    (nbits : ℕ)
    → nbits + 32 ≤ 2 ^ 32
    → bitmap_create nbits ≡ some (record { nbits = nbits; v = fresh nbits })
unfolding bitmap_create
bitmap_create-fresh nbits h = elim (Bool-cases (nbits % 32 == 0)) [
  | inl whole ↦
      let e : divroundup nbits 32 ≡ nbits / 32 =
        words_of nbits h ∙ omega (arith, eq_of_== (nbits % 32) 0 whole) in
      ap (created nbits) e ∙ rw (le→ltb (nbits / 32) (nbits / 32) (omega arith)) (rw whole refl)
  | inr over ↦
      let e : divroundup nbits 32 ≡ nbits / 32 + 1 =
        words_of nbits h ∙ omega (arith, ne_of_== (nbits % 32) 0 over) in
      ap (created nbits) e
      ∙ rw (lt→ltb (nbits / 32) (nbits / 32 + 1) (omega arith)) (
          ap₂ (leftover nbits) (last_word nbits) (last_bits nbits)
          ∙ rw (==_refl (nbits / 32)) (
              rw (lt→ltb 0 (nbits % 32) (omega (arith, ne_of_== (nbits % 32) 0 over)))
                (rw (lt→ltb (nbits % 32) 32 (mod-lt nbits (omega arith))) (rw over refl))))
]

zero_at : (i : ℕ) → at (λ _. 0) i ≡ false
zero_at i = test_zero (i % 32)

fresh-at : (nbits i : ℕ) → i / 32 < (nbits + 31) / 32 → at (fresh nbits) i ≡ leb nbits i
fresh-at nbits i h = elim (Bool-cases (nbits % 32 == 0)) [
  | inl whole ↦
      rw whole (zero_at i ∙ sym (lt→leb i nbits (omega (arith, h, eq_of_== (nbits % 32) 0 whole))))
  | inr over ↦ rw over (elim (Bool-cases (i / 32 == nbits / 32)) [
    | inl same ↦ rw same (
        mark_from-test_bit (32 - nbits % 32) (nbits % 32) 0 (i % 32) (omega arith)
          (mod-lt i (omega arith))
        ∙ ap
            (λ b. b || (leb (nbits % 32) (i % 32) && ltb (i % 32) (nbits % 32 + (32 - nbits % 32))))
            (test_zero (i % 32))
        ∙ (ground arith))
    | inr other ↦
        rw other (
          zero_at i ∙ sym (lt→leb i nbits (omega (arith, h, ne_of_== (i / 32) (nbits / 32) other))))
  ])
]

fresh-lt : (nbits k : ℕ) → fresh nbits k < 2 ^ 32
fresh-lt nbits k = elim (Bool-cases (nbits % 32 == 0)) [
  | inl whole ↦ rw whole (omega arith)
  | inr over ↦ rw over (elim (Bool-cases (k == nbits / 32)) [
    | inl same ↦ rw same (mark_from-lt (32 - nbits % 32) (nbits % 32) 0 (omega arith))
    | inr other ↦ rw other (omega arith)
  ])
]

pub record Created (nbits : ℕ) (result : Option Bitmap) : Type 0 where
  pub after : Bitmap
  pub returns : result ≡ some after
  pub size : after.nbits ≡ nbits
  pub wf : IsBitmap after
  pub clear : (i : ℕ) → i < nbits → bitmap_isset after i ≡ false

-- For a size that leaves the rounding up in 32 bits, bitmap_create passes its assertions, and gives a
-- bitmap of that size with all its indexes clear and the bits after them set.
pub bitmap_create-Created : (nbits : ℕ) → nbits + 32 ≤ 2 ^ 32 → Created nbits (bitmap_create nbits)
bitmap_create-Created nbits h = record {
  after = record { nbits = nbits; v = fresh nbits };
  returns = bitmap_create-fresh nbits h;
  size = refl;
  wf = record {
    fits = h;
    words = fresh-lt nbits;
    over =
        λ i l m. fresh-at nbits i (subst (λ w. i / 32 < w) (words_of nbits h) m) ∙ (ground arith);
  };
  clear = λ i l.
      bitmap_isset-at (record { nbits = nbits; v = fresh nbits }) i
      ∙ fresh-at nbits i (omega arith)
      ∙ lt→leb i nbits l;
}
