-- ===== src/Vmem/Threads.antt =====
-- register_vmem_threads and init_vmem_thread of ip6/lib/vmem/page_table.c, under LRU: the frames of
-- several threads. What is local to a thread stands in the table of that thread.
use native.Mathlib.Nat.{mul_comm, mul-le-mul_right, suc-mul, mod-eq_of_lt}
use blue_bridge.Prelude.{
  ℕ, zero, suc, ltb→le, ◌==◌, false, ◌+◌, ◌*◌, ◌%◌, ◌^◌, ◌<◌, ◌≤◌, ◌≡◌, inl, inr, refl, sym, ap,
  ap₂, ◌∙◌, subst, Option, none, some, List, [], has, true, ltb, le→ltb, Bool-cases, if◌then◌else◌,
  ◌>>=◌, arith,
}
use blue_bridge.Types.{block_size}
use blue_bridge.Vmem.Backing.{Backing}
use blue_bridge.Vmem.PageTable.{PageTable, prot_none}
use blue_bridge.Vmem.Policies.{lru}
use blue_bridge.Vmem.Lru.{init_lru}
use blue_bridge.Vmem.Lru.Laws.{init_lru-Holds}
use blue_bridge.Vmem.Fault.Invariant.{IsValid, view}
use blue_bridge.Vmem.Flush.{lru_page_table_flush}
use blue_bridge.Vmem.Flush.Drain.{WrittenBack, lru_page_table_flush-WrittenBack}

frames_of :
    (t num n npages : ℕ)
    → t < num
    → num * n ≤ npages
    → npages < 2 ^ 64
    → (t * n % 2 ^ 64 ≡ t * n) × ((t + 1) * n % 2 ^ 64 ≡ t * n + n)
frames_of t num n npages h fits small =
    let next : (t + 1) * n ≡ t * n + n = ap (λ k. k * n) (omega arith) ∙ suc-mul t n in
    let top : t * n + n ≤ num * n =
      subst (λ k. k ≤ num * n) (suc-mul t n) (mul-le-mul_right n (above h)) in
    (
      mod-eq_of_lt (omega (arith, top, fits, small)),
      ap (λ k. k % 2 ^ 64) next ∙ mod-eq_of_lt (omega (arith, top, fits, small)),
    )
  where
    above : t < num → suc t ≤ num
    above h = omega arith

first_last : {first last n m k : ℕ} → first ≡ k → last ≡ k + m → n ≡ m → last ≡ first + n
first_last p q r = omega (arith, p, q, r)

no_page : (q : ℕ) → has q [] ≡ true → ⊥
no_page q o = cc

guard :
    (n npages num : ℕ)
    → 0 < num
    → num * n ≤ npages
    → npages < 2 ^ 64
    → ltb (block_size * npages % 2 ^ 64) (block_size * n % 2 ^ 64 * num % 2 ^ 64) ≡ false
guard n npages zero h fits small = absurd (omega arith)
guard n npages (suc num) h fits small =
    let one : n ≤ suc num * n = omega (arith, suc-mul num n) in
    let frames : block_size * n % 2 ^ 64 ≡ n = omega (arith, one, fits, small) in
    le→ltb _ _ (
      subst (λ k. k * suc num % 2 ^ 64 ≤ block_size * npages % 2 ^ 64) (sym frames)
        (omega (arith, mul_comm n (suc num), fits, small)))

-- Blocks of n frames do not overlap.
one_thread : (t u f n : ℕ) → t * n ≤ f → f < t * n + n → u * n ≤ f → f < u * n + n → t ≡ u
one_thread t u f n a b c d = elim (Bool-cases (ltb t u)) [
  | inl below ↦ absurd (omega (arith, b, c, suc-mul t n, mul-le-mul_right n (after t u below)))
  | inr above ↦ elim (Bool-cases (ltb u t)) [
    | inl below ↦ absurd (omega (arith, a, d, suc-mul u n, mul-le-mul_right n (after u t below)))
    | inr equal ↦ omega (arith, ltb→le t u above, ltb→le u t equal)
  ]
]
  where
    after : (t u : ℕ) → ltb t u ≡ true → suc t ≤ u
    after t u e = ground arith

module _ {B : Backing} where
  -- `none` is an exit, when the frames would be more than the pages, or an abort of the flush. mremap is
  -- taken to succeed.
  unfoldable pub register_vmem_threads :
      (temp_page num_threads : ℕ) → PageTable lru B → Option (PageTable lru B)
  register_vmem_threads temp_page num_threads pt = do
    pt' ← lru_page_table_flush temp_page pt
    let frame_space = block_size * pt'.nframes % 2 ^ 64
    if ltb (block_size * pt'.npages % 2 ^ 64) (frame_space * num_threads % 2 ^ 64)
        then none
        else some pt'

  -- The frames of thread t_id, and its list and table
  unfoldable pub init_vmem_thread : (t_id : ℕ) → PageTable lru B → PageTable lru B
  init_vmem_thread t_id pt = record pt {
    start_frame = t_id * pt.nframes % 2 ^ 64;
    end_frame = (t_id + 1) * pt.nframes % 2 ^ 64;
    pages = init_lru pt.nframes;
  }

  -- A thread that starts on `pt` with none of its pages in memory.
  pub record Started (pt : PageTable lru B) (t n : ℕ) (before : PageTable lru B) : Type 0 where
    pub valid : IsValid pt []
    pub first : pt.start_frame ≡ t * n
    pub last : pt.end_frame ≡ t * n + n
    pub sees : (p : ℕ) → view pt p ≡ view before p

  -- Where `num_threads` threads stand after the flush: each one on a fresh table, and no frame with two.
  pub record Shared (pt : PageTable lru B) (num_threads : ℕ) (r : Option (PageTable lru B))
      : Type 0 where
    pub after : PageTable lru B
    pub run : r ≡ some after
    pub each : (t : ℕ) → t < num_threads → Started (init_vmem_thread t after) t pt.nframes pt
    pub apart :
        (t u f : ℕ)
        → t < num_threads
        → u < num_threads
        → (init_vmem_thread t after).start_frame ≤ f
        → f < (init_vmem_thread t after).end_frame
        → (init_vmem_thread u after).start_frame ≤ f
        → f < (init_vmem_thread u after).end_frame
        → t ≡ u

  init_vmem_thread-Started :
      (pt : PageTable lru B) (r : Option (PageTable lru B)) (t num_threads : ℕ)
      → (w : WrittenBack pt r) → num_threads * pt.nframes ≤ pt.npages
      → pt.npages < 2 ^ 64
      → t < num_threads
      → Started (init_vmem_thread t w.after) t pt.nframes pt
  unfolding init_vmem_thread
  init_vmem_thread-Started pt r t num_threads w fits small h =
      let (first, last) = frames_of t num_threads pt.nframes pt.npages h fits small in
      let first' = ap (λ n. t * n % 2 ^ 64) w.nframes ∙ first in
      let last' = ap (λ n. (t + 1) * n % 2 ^ 64) w.nframes ∙ last in
      record {
        valid = record {
          holds = init_lru-Holds w.after.nframes;
          ready = w.valid.ready;
          backed = w.valid.backed;
          frames = first_last first' last' w.nframes;
          some_frame = w.valid.some_frame;
          within = omega arith;
          resident = λ q o. absurd (no_page q o);
          absent = λ q o. w.bits q;
          apart = λ q u o k e. absurd (no_page q o);
        };
        first = first';
        last = last';
        sees = λ p.
            ap
              (λ b.
                if b == prot_none
                then B.contents w.after.store p
                else w.after.physmem (w.after.page_mapping p))
              (w.bits p)
            ∙ w.stored p;
      }

  -- On a valid table whose pages are as many as the frames of all the threads, register_vmem_threads
  -- returns: each thread then starts on a valid table through which it sees the memory as it was, and no
  -- frame belongs to two threads.
  pub register_vmem_threads-Shared :
      (temp_page num_threads : ℕ) (pt : PageTable lru B) (ks : List ℕ)
      → IsValid pt ks
      → 0 < num_threads
      → num_threads * pt.nframes ≤ pt.npages
      → pt.npages < 2 ^ 64
      → Shared pt num_threads (register_vmem_threads temp_page num_threads pt)
  unfolding register_vmem_threads
  register_vmem_threads-Shared temp_page num_threads pt ks v some_thread fits small =
      let w = lru_page_table_flush-WrittenBack temp_page pt ks v in
      let start : (t : ℕ) → t < num_threads → Started (init_vmem_thread t w.after) t pt.nframes pt =
        λ t h. init_vmem_thread-Started pt _ t num_threads w fits small h in
      record {
        after = w.after;
        run = rw w.run (
            ap₂
              (λ n m.
                if ltb (block_size * m % 2 ^ 64) (block_size * n % 2 ^ 64 * num_threads % 2 ^ 64)
                then none
                else some w.after)
              w.nframes w.npages
            ∙ rw (guard pt.nframes pt.npages num_threads some_thread fits small) refl);
        each = start;
        apart = λ t u f h k a b c d.
            one_thread t u f pt.nframes (subst (λ x. x ≤ f) (start t h).first a)
              (subst (λ x. f < x) (start t h).last b) (subst (λ x. x ≤ f) (start u k).first c)
              (subst (λ x. f < x) (start u k).last d);
      }
