-- ===== src/Simulator/Bitmap/Alloc.antt =====
-- legacy/OldPageTable/experiment/swap.c: bitmap_alloc finds the first clear bit.
use native.Mathlib.Nat.{mod-lt, mod-eq_of_lt}
use blue_bridge.Prelude.{
  ℕ, zero, suc, ◌+◌, ◌-◌, ◌*◌, ◌/◌, ◌%◌, ◌^◌, ◌≤◌, ◌<◌, ◌≡◌, sym, ap, ap₂, subst, ◌∙◌, inl, inr,
  arith, Option, none, some, Bool, true, false, not, ◌||◌, Bool-cases, eq_of_==, ne_of_==, ltb,
  ◌==◌, ltb→lt, ltb→le, if◌then◌else◌, update,
}
use blue_bridge.Bits.{bit_or, bit_and}
use blue_bridge.Bits.Test.{test_bit, masked, bit_or-lt, all_set, greatest-test_bit}
use blue_bridge.Simulator.Bitmap.{
  Bitmap, bitmap_isset, divroundup, first_clear, Allocated, index, full, failed, alloc_from,
  bitmap_alloc, word_allbits,
}
use blue_bridge.Simulator.Bitmap.Marks.{at, bitmap_isset-at, set-at}
use mathlib.Core.Bool.{true≢false}

-- Words of 32 bits, the bits after the last index set.
pub record IsBitmap (b : Bitmap) : Type 0 where
  pub fits : b.nbits + 32 ≤ 2 ^ 32
  pub words : (k : ℕ) → b.v k < 2 ^ 32
  pub over : (i : ℕ) → b.nbits ≤ i → i / 32 < divroundup b.nbits 32 → at b.v i ≡ true

-- The bits below `i` are set.
abbrev pub SetBelow : Bitmap → ℕ → Type 0
SetBelow b i = (k : ℕ) → k < i → at b.v k ≡ true

pub record Taken (b : Bitmap) (i : ℕ) (after : Bitmap) : Type 0 where
  pub in_range : i < b.nbits
  pub was_clear : bitmap_isset b i ≡ false
  pub least : (k : ℕ) → k < i → bitmap_isset b k ≡ true
  pub now_set : (j : ℕ) → bitmap_isset after j ≡ ((j == i) || bitmap_isset b j)
  pub again : IsBitmap after

abbrev pub Allocates : Bitmap → Allocated → Type 0
Allocates b (index i after) = Taken b i after
Allocates b full = (k : ℕ) → k < b.nbits → bitmap_isset b k ≡ true
Allocates b failed = ⊥

-- What the inner loop finds from `offset` on.
abbrev Found : (word offset stop : ℕ) → Option ℕ → Type 0
Found word offset stop none = (j : ℕ) → offset ≤ j → j < stop → test_bit word j ≡ true
Found word offset stop (some o) =
    (offset ≤ o)
    × (o < stop)
    × (test_bit word o ≡ false)
    × ((j : ℕ) → offset ≤ j → j < o → test_bit word j ≡ true)

true_of_not : (b : Bool) → not b ≡ false → b ≡ true
true_of_not b e = ground arith

false_of_not : (b : Bool) → not b ≡ true → b ≡ false
false_of_not b e = ground arith

extend :
    (word offset stop : ℕ) (r : Option ℕ)
    → test_bit word offset ≡ true
    → Found word (offset + 1) stop r
    → Found word offset stop r
extend word offset stop none on h = λ j l m. elim (Bool-cases (j == offset)) [
  | inl same ↦ ap (test_bit word) (eq_of_== j offset same) ∙ on
  | inr other ↦ h j (omega (arith, ne_of_== j offset other)) m
]
extend word offset stop (some o) on (l, m, clear, before) = (
  omega arith,
  m,
  clear,
  λ j p q. elim (Bool-cases (j == offset)) [
    | inl same ↦ ap (test_bit word) (eq_of_== j offset same) ∙ on
    | inr other ↦ before j (omega (arith, ne_of_== j offset other)) q
  ],
)

first_clear-Found :
    (left offset word : ℕ)
    → offset + left ≤ 32
    → Found word offset (offset + left) (first_clear left offset word)
unfolding first_clear
first_clear-Found zero offset word h = λ j l m. absurd (omega arith)
first_clear-Found (suc left) offset word h = elim (Bool-cases (bit_and 32 word (2 ^ offset) == 0)) [
  | inl clear ↦ rw clear (
    omega arith,
    omega arith,
    false_of_not (test_bit word offset) (sym (masked 32 word offset (omega arith)) ∙ clear),
    λ j p q. absurd (omega arith),
  )
  | inr on ↦
      let rest = first_clear-Found left (offset + 1) word (omega arith) in
      let set : test_bit word offset ≡ true =
        true_of_not (test_bit word offset) (sym (masked 32 word offset (omega arith)) ∙ on) in
      rw on (
        extend word offset (offset + suc left) _ set (
          subst (λ s. Found word (offset + 1) s (first_clear left (offset + 1) word)) (omega arith)
            rest))
]

index_word : (ix o : ℕ) → o < 32 → (ix * 32 + o) / 32 ≡ ix
index_word ix o h = omega arith

index_offset : (ix o : ℕ) → o < 32 → (ix * 32 + o) % 32 ≡ o
index_offset ix o h = omega arith

abbrev set_bit : Bitmap → (ix o : ℕ) → Bitmap
set_bit b ix o = record b { v = update b.v ix (bit_or 32 (b.v ix) (2 ^ o)) }

set_bit-at :
    (b : Bitmap) (ix o : ℕ)
    → o < 32
    → (j : ℕ) → at (set_bit b ix o).v j ≡ ((j == ix * 32 + o) || at b.v j)
set_bit-at b ix o h j =
    ap₂ (λ k p. at (update b.v k (bit_or 32 (b.v k) (2 ^ p))) j) (sym (index_word ix o h))
      (sym (index_offset ix o h))
    ∙ set-at b.v (ix * 32 + o) j

or_on : (a c : Bool) → c ≡ true → (a || c) ≡ true
or_on a c e = ground arith

pub set_bit-IsBitmap : (b : Bitmap) (ix o : ℕ) → o < 32 → IsBitmap b → IsBitmap (set_bit b ix o)
set_bit-IsBitmap b ix o h wf = record {
  fits = wf.fits;
  words = λ k. elim (Bool-cases (k == ix)) [
    | inl same ↦ rw same (bit_or-lt 32 (b.v ix) (2 ^ o))
    | inr other ↦ rw other (wf.words k)
  ];
  over = λ i l m. set_bit-at b ix o h i ∙ or_on (i == ix * 32 + o) (at b.v i) (wf.over i l m);
}

module _ (b : Bitmap) (wf : IsBitmap b) where
  at_index : (ix o : ℕ) → o < 32 → at b.v (ix * 32 + o) ≡ test_bit (b.v ix) o
  at_index ix o h = ap₂ (λ k j. test_bit (b.v k) j) (index_word ix o h) (index_offset ix o h)

  -- The bits of a word that are all set extend those set below it.
  over_word :
      (ix : ℕ)
      → SetBelow b (ix * 32)
      → ((j : ℕ) → j < 32 → test_bit (b.v ix) j ≡ true)
      → SetBelow b ((ix + 1) * 32)
  over_word ix below word k h = elim (Bool-cases (k / 32 == ix)) [
    | inl same ↦
        ap (λ m. test_bit (b.v m) (k % 32)) (eq_of_== (k / 32) ix same)
        ∙ word (k % 32) (mod-lt k (omega arith))
    | inr other ↦ below k (omega (arith, ne_of_== (k / 32) ix other))
  ]

  isset_below : (i : ℕ) → SetBelow b i → (k : ℕ) → k < i → bitmap_isset b k ≡ true
  isset_below i below k h = bitmap_isset-at b k ∙ below k h

  least_at :
      (ix o : ℕ)
      → SetBelow b (ix * 32)
      → o < 32
      → ((j : ℕ) → j < o → test_bit (b.v ix) j ≡ true)
      → SetBelow b (ix * 32 + o)
  least_at ix o below l before k m = elim (Bool-cases (k / 32 == ix)) [
    | inl same ↦
        ap (λ w. test_bit (b.v w) (k % 32)) (eq_of_== (k / 32) ix same)
        ∙ before (k % 32) (omega (arith, eq_of_== (k / 32) ix same))
    | inr other ↦ below k (omega (arith, ne_of_== (k / 32) ix other))
  ]

  take :
      (ix o : ℕ)
      → ix < divroundup b.nbits 32
      → SetBelow b (ix * 32)
      → o < 32
      → test_bit (b.v ix) o ≡ false
      → ((j : ℕ) → j < o → test_bit (b.v ix) j ≡ true)
      → Allocates b (
          if ltb (ix * 32 + o) b.nbits
          then index (ix * 32 + o) (record b { v = update b.v ix (bit_or 32 (b.v ix) (2 ^ o)) })
          else failed)
  take ix o h below l clear before = elim (Bool-cases (ltb (ix * 32 + o) b.nbits)) [
    | inl inside ↦ rw inside (record {
      in_range = ltb→lt (ix * 32 + o) b.nbits inside;
      was_clear = bitmap_isset-at b (ix * 32 + o) ∙ at_index ix o l ∙ clear;
      least = λ k m. bitmap_isset-at b k ∙ least_at ix o below l before k m;
      now_set = λ j.
          bitmap_isset-at (set_bit b ix o) j
          ∙ set_bit-at b ix o l j
          ∙ ap (λ c. (j == ix * 32 + o) || c) (sym (bitmap_isset-at b j));
      again = set_bit-IsBitmap b ix o l wf;
    })
    | inr outside ↦ absurd (
        true≢false (
          sym (
            wf.over (ix * 32 + o) (ltb→le (ix * 32 + o) b.nbits outside)
              (subst (λ w. w < divroundup b.nbits 32) (sym (index_word ix o l)) h))
          ∙ at_index ix o l
          ∙ clear))
  ]

  words_enough : b.nbits ≤ divroundup b.nbits 32 * 32
  unfolding divroundup
  words_enough =
      let e : (b.nbits + 32 - 1) % 2 ^ 32 ≡ b.nbits + 32 - 1 =
        mod-eq_of_lt (omega (arith, wf.fits)) in
      omega (arith, wf.fits, e)

  word_step :
      (ix : ℕ)
      → ix < divroundup b.nbits 32
      → SetBelow b (ix * 32)
      → (b.v ix == word_allbits) ≡ false
      → (r : Option ℕ) → Found (b.v ix) 0 32 r
      → Allocates b (elim r [
        | none ↦ failed
        | some o ↦
            if ltb (ix * 32 + o) b.nbits then index (ix * 32 + o) (set_bit b ix o) else failed
      ])
  word_step ix h below free none all =
      ne_of_== (b.v ix) word_allbits free
        (omega (arith, all_set 32 (b.v ix) (λ j l. all j (omega arith) l) (wf.words ix)))
  word_step ix h below free (some o) (l, m, clear, before) =
      take ix o h below m clear (λ j k. before j (omega arith) k)

  alloc_from-Allocates :
      (left ix : ℕ)
      → ix + left ≡ divroundup b.nbits 32
      → SetBelow b (ix * 32)
      → Allocates b (alloc_from left ix b)
  unfolding alloc_from
  alloc_from-Allocates zero ix e below =
      λ k h. bitmap_isset-at b k ∙ below k (omega (arith, e, h, words_enough))
  alloc_from-Allocates (suc left) ix e below = elim (Bool-cases (b.v ix == word_allbits)) [
    | inl taken ↦ rw taken (
        alloc_from-Allocates left (ix + 1) (omega arith) (
          over_word ix below (λ j l.
            greatest-test_bit 32 (b.v ix) j (ap (λ w. w + 1) (eq_of_== (b.v ix) word_allbits taken))
              l)))
    | inr free ↦ rw free (
        word_step ix (omega arith) below free (first_clear 32 0 (b.v ix))
          (first_clear-Found 32 0 (b.v ix) (omega arith)))
  ]

-- bitmap_alloc never fails an assertion: it returns the least clear index, in range, with its bit set and
-- no other changed, or says that there is no room, and then every bit is set.
pub bitmap_alloc-Allocates : (b : Bitmap) → IsBitmap b → Allocates b (bitmap_alloc b)
unfolding bitmap_alloc
bitmap_alloc-Allocates b wf =
    alloc_from-Allocates b wf (divroundup b.nbits 32) 0 (omega arith) (λ k h. absurd (omega arith))
