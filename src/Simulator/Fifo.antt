-- ===== src/Simulator/Fifo.antt =====
-- legacy/OldPageTable/experiment/fifo.c and rand.c: policies that keep at most the next frame.
use native.Mathlib.Nat.{mod-add-mod, zero-mod}
use blue_bridge.Prelude.{ℕ, zero, suc, ◌+◌, ◌%◌, ◌<◌, ◌≡◌, ap, ◌∙◌, arith}

pub fifo_init : ℕ
fifo_init = 0

-- The frame to evict, and the next fifo_head.
unfoldable pub fifo_evict : (memsize : ℕ) → (fifo_head : ℕ) → ℕ × ℕ
fifo_evict memsize fifo_head = (fifo_head, (fifo_head + 1) % memsize)

-- fifo_ref leaves the state as it is.
unfoldable pub fifo_ref : ℕ → ℕ
fifo_ref fifo_head = fifo_head

-- `random` stands for what the C library's generator returns.
unfoldable pub rand_evict : (random memsize : ℕ) → ℕ
rand_evict random memsize = random % memsize

-- fifo_head after `n` evictions, references between them or not.
unfoldable pub fifo_evictions : (memsize n : ℕ) → ℕ
unfolding fifo_init fifo_evict fifo_ref
fifo_evictions memsize zero = fifo_init
fifo_evictions memsize (suc n) = (fifo_evict memsize (fifo_ref (fifo_evictions memsize n))).1

-- The victim of each eviction is its number, counted from 0, modulo the number of frames: all are
-- evicted in turn.
pub fifo_evict-turn :
    (memsize n : ℕ) → 0 < memsize → (fifo_evict memsize (fifo_evictions memsize n)).0 ≡ n % memsize
unfolding fifo_evictions fifo_evict fifo_ref fifo_init
fifo_evict-turn memsize zero h = omega (arith, zero-mod memsize)
fifo_evict-turn memsize (suc n) h =
    ap (λ k. (k + 1) % memsize) (fifo_evict-turn memsize n h)
    ∙ mod-add-mod n memsize 1
    ∙ ap (λ k. k % memsize) (omega arith)
