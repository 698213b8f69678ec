-- ===== src/Simulator/Bitmap.antt =====
-- legacy/OldPageTable/experiment/swap.c: the bitmap that manages the swap space. An array of 32-bit
-- words; `none` is an assertion that fails.
pub mod Marks
pub mod Alloc
pub mod Create
use blue_bridge.Prelude.{
  ℕ, zero, suc, ◌+◌, ◌-◌, ◌*◌, ◌/◌, ◌%◌, ◌^◌, ◌≤◌, ◌<◌, Option, none, some, Bool, true, false, not,
  ◌&&◌, ltb, leb, ◌==◌, if◌then◌else◌, ◌>>=◌, update,
}
use blue_bridge.Bits.{bit_or, bit_and, bit_not}

abbrev pub bits_per_word : ℕ
bits_per_word = 32

abbrev pub word_allbits : ℕ
word_allbits = 0xffff_ffff

unfoldable pub divroundup : ℕ → ℕ → ℕ
divroundup a b = (a + b - 1) % 2 ^ 32 / b

pub record Bitmap : Type 0 where
  pub nbits : ℕ
  pub v : ℕ → ℕ

-- `for (j=first; j<first+left; j++) word |= 1 << j`
unfoldable pub mark_from : (left j : ℕ) → ℕ → ℕ
mark_from zero j word = word
mark_from (suc left) j word = mark_from left (j + 1) (bit_or 32 word (2 ^ j))

unfoldable pub bitmap_create : ℕ → Option Bitmap
unfolding divroundup mark_from
bitmap_create nbits =
    let words = divroundup nbits bits_per_word in
    let last = words - 1 in
    let overbits = nbits - last * bits_per_word in
    if ltb (nbits / bits_per_word) words
    then (if (nbits / bits_per_word == last) && (ltb 0 overbits && ltb overbits bits_per_word)
        then some (record {
          nbits = nbits;
          v = update (λ _. 0) last (mark_from (bits_per_word - overbits) overbits 0);
        })
        else none)
    else some (record { nbits = nbits; v = λ _. 0 })

-- The inner loop of bitmap_alloc: the first clear bit from `offset` on; `none` is its end.
unfoldable pub first_clear : (left offset : ℕ) → ℕ → Option ℕ
first_clear zero offset word = none
first_clear (suc left) offset word =
    let rest = first_clear left (offset + 1) word in
    if bit_and 32 word (2 ^ offset) == 0 then some offset else rest

-- What bitmap_alloc does: an index, no room, or an assertion that fails.
pub data Allocated : Type 0 where
  index : ℕ → Bitmap → Allocated
  full : Allocated
  failed : Allocated

-- The outer loop, over `left` words from word ix on.
unfoldable pub alloc_from : (left ix : ℕ) → Bitmap → Allocated
unfolding first_clear
alloc_from zero ix b = full
alloc_from (suc left) ix b =
    let rest = alloc_from left (ix + 1) b in
    if b.v ix == word_allbits then rest else elim (first_clear bits_per_word 0 (b.v ix)) [
      | none ↦ failed
      | some offset ↦
          let found = ix * bits_per_word + offset in
          if ltb found b.nbits
          then index found (record b { v = update b.v ix (bit_or 32 (b.v ix) (2 ^ offset)) })
          else failed
    ]

unfoldable pub bitmap_alloc : Bitmap → Allocated
unfolding alloc_from divroundup
bitmap_alloc b = alloc_from (divroundup b.nbits bits_per_word) 0 b

-- bitmap_translate: the word of a bit, and its mask in the word
unfoldable pub bitmap_translate : ℕ → ℕ × ℕ
bitmap_translate bitno = (bitno / bits_per_word, 2 ^ (bitno % bits_per_word))

unfoldable pub bitmap_mark : Bitmap → ℕ → Option Bitmap
unfolding bitmap_translate
bitmap_mark b i =
    let (ix, mask) = bitmap_translate i in
    if ltb i b.nbits && (bit_and 32 (b.v ix) mask == 0)
    then some (record b { v = update b.v ix (bit_or 32 (b.v ix) mask) })
    else none

unfoldable pub bitmap_unmark : Bitmap → ℕ → Option Bitmap
unfolding bitmap_translate
bitmap_unmark b i =
    let (ix, mask) = bitmap_translate i in
    if ltb i b.nbits && not (bit_and 32 (b.v ix) mask == 0)
    then some (record b { v = update b.v ix (bit_and 32 (b.v ix) (bit_not 32 mask)) })
    else none

unfoldable pub bitmap_isset : Bitmap → ℕ → Bool
unfolding bitmap_translate
bitmap_isset b i = let (ix, mask) = bitmap_translate i in not (bit_and 32 (b.v ix) mask == 0)
