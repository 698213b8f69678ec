-- ===== src/Simulator/Tests.antt =====
-- The policies, the bitmap and the paging of legacy/OldPageTable/experiment on small memories.
use blue_bridge.Prelude.{
  ℕ, ◌+◌, ◌*◌, ◌≡◌, Option, none, some, true, false, List, [], ◌∷◌, update, arith, ◌==◌, ltb,
  if◌then◌else◌,
}
use blue_bridge.Simulator.Clock.{Clock, clock_evict, Swept, clock_evict-Swept}
use blue_bridge.Simulator.Lru.{Lru, lru_refs, lru_init, IsQueue, lru_refs-last_uses}
use blue_bridge.Simulator.Opt.{opt_evict, IsFarthest, opt_evict-IsFarthest}
use blue_bridge.Simulator.Bitmap.{Bitmap, bitmap_create, bitmap_alloc, bitmap_mark, bitmap_isset}
use blue_bridge.Simulator.Bitmap.Marks.{bitmap_mark-bitmap_isset}
use blue_bridge.Simulator.Bitmap.Alloc.{Allocates, bitmap_alloc-Allocates}
use blue_bridge.Simulator.Bitmap.Create.{Created, bitmap_create-Created}
use blue_bridge.Simulator.Paging.{Entry, Swap, Sim}
use blue_bridge.Simulator.Paging.Linked.{Linked}
use blue_bridge.Simulator.Paging.Found.{Found}
use mathlib.Core.Option.{map}

-- Three frames, the hand at the second, which is referenced with the third.
abbrev turning : Clock
turning = record { clk_refed = λ i. ltb 0 i; clk_hand = 1 }

clock_evict-Swept_example : Swept 3 1 (λ i. ltb 0 i) (clock_evict 3 turning)
clock_evict-Swept_example = clock_evict-Swept 3 turning (omega arith)

lru_refs-last_uses_example :
    (s : Lru) × (lru_refs (1 ∷ 2 ∷ 1 ∷ []) lru_init ≡ some s) × (s.queue ≡ 2 ∷ 1 ∷ []) × IsQueue s
lru_refs-last_uses_example = lru_refs-last_uses (1 ∷ 2 ∷ 1 ∷ [])

opt_evict-IsFarthest_example :
    (victim : ℕ) × (opt_evict
        (λ i. i * 4096)
        (λ _. 0)
        2
        (record { opt_head = []; opt_curr = 4096 ∷ 0 ∷ [] })
      ≡ some victim)
    × IsFarthest (λ i. i * 4096) 4096 (0 ∷ []) 2 victim
opt_evict-IsFarthest_example =
    opt_evict-IsFarthest (λ i. i * 4096) 4096 (0 ∷ []) (λ _. 0) 2 [] (omega arith)

-- Two bits, the first set.
abbrev half : Bitmap
half = record { nbits = 2; v = λ k. if k == 0 then 0xffff_fffd else 0 }

bitmap_mark-bitmap_isset_example :
    map (λ after. bitmap_isset after 1) (bitmap_mark half 1) ≡ some true
unfolding bitmap_isset blue_bridge.Bits.bit_and
bitmap_mark-bitmap_isset_example = bitmap_mark-bitmap_isset half 1 1

bitmap_create-Created_example : Created 40 (bitmap_create 40)
bitmap_create-Created_example = bitmap_create-Created 40 (omega arith)

bitmap_alloc-Allocates_example :
    Allocates
      (bitmap_create-Created_example.after)
      (bitmap_alloc (bitmap_create-Created_example.after))
bitmap_alloc-Allocates_example =
    bitmap_alloc-Allocates (bitmap_create-Created_example.after) (bitmap_create-Created_example.wf)

-- A swap that gives out the numbers of its slots in turn.
abbrev slots : Swap
slots = record {
  Store = ℕ × (ℕ → List ℕ);
  allocate = λ s. (s.0, (s.0 + 1, s.1));
  get = λ a s. s.1 a;
  write = λ content a s. (s.0, update s.1 a content);
}

abbrev blank : Entry
blank = record {
  number = 0;
  valid = false;
  dirty = false;
  referenced = false;
  on_swap = false;
  swap_off = none;
}

-- One frame, in which the page 3 is, dirty.
abbrev one_frame : Sim slots ℕ
one_frame = record {
  entries = update (λ _. blank) 3 (record blank { valid = true; dirty = true });
  in_use = λ i. i == 0;
  pte = λ _. 3;
  vaddr = λ _. 3 * 4096;
  physmem = λ _. [];
  store = (0, λ _. []);
  policy = 0;
  hit_count = 0;
  miss_count = 1;
  ref_count = 1;
  evict_clean_count = 0;
  evict_dirty_count = 0;
}

abbrev evict_first : ℕ → Option (ℕ × ℕ)
evict_first n = some (0, n + 1)
