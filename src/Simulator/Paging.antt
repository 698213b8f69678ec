-- ===== src/Simulator/Paging.antt =====
-- legacy/OldPageTable/experiment/pagetable.c: frames for pages, with swap.c's swap_pagein and
-- swap_pageout. An entry's word is its frame's number, which keeps 20 bits, and its flags; the two
-- levels of tables are one, by the page's number. The functions of the policy and the client of
-- remote memory behind swap.c are arguments; `none` is where a policy has no frame to evict, or an
-- address from 2 ^ 36 on, past the end of the first table. What is printed on the way is left out.
pub mod Contents
pub mod Found
pub mod Linked
pub mod Vacated
use blue_bridge.Prelude.{
  ℕ, zero, suc, ◌+◌, ◌-◌, ◌*◌, ◌/◌, ◌%◌, ◌^◌, Option, none, some, Bool, true, false, ◌||◌, List,
  ◌++◌, update, replicate, if◌then◌else◌, ◌>>=◌, not, leb,
}
use blue_bridge.Types.Codec.{le_bytes}

-- SIMPAGESIZE
abbrev pub sim_page_size : ℕ
sim_page_size = 4096

-- struct pgtbl_entry_t; `swap_off` is `none` for INVALID_SWAP.
pub record Entry : Type 0 where
  pub number : ℕ
  pub valid : Bool
  pub dirty : Bool
  pub referenced : Bool
  pub on_swap : Bool
  pub swap_off : Option ℕ

-- What swap.c calls for a page: allocateRemoteMem, getRemoteMem and writeRemoteMem.
pub record Swap : Type 1 where
  pub Store : Type 0
  pub allocate : Store → ℕ × Store
  pub get : ℕ → Store → List ℕ
  pub write : List ℕ → ℕ → Store → Store

pub record Sim (W : Swap) (P : Type 0) : Type 0 where
  pub entries : ℕ → Entry
  pub in_use : ℕ → Bool
  pub pte : ℕ → ℕ
  pub vaddr : ℕ → ℕ
  pub physmem : ℕ → List ℕ
  pub store : W.Store
  pub policy : P
  pub hit_count : ℕ
  pub miss_count : ℕ
  pub ref_count : ℕ
  pub evict_clean_count : ℕ
  pub evict_dirty_count : ℕ

-- The first of the `n` frames from `i` on that is not in use.
unfoldable pub free_frame : (n i : ℕ) → (ℕ → Bool) → Option ℕ
free_frame zero i in_use = none
free_frame (suc n) i in_use =
    let rest = free_frame n (i + 1) in_use in if in_use i then rest else some i

-- init_frame, a page of zeros with its address in it
unfoldable pub init_frame : (vaddr : ℕ) → List ℕ
init_frame vaddr = replicate 4 0 ++ le_bytes 8 vaddr ++ replicate (sim_page_size - 12) 0

module _ (W : Swap) where
  -- The victim's address in the swap, allocated if it has none.
  unfoldable pub swap_slot : Option ℕ → W.Store → ℕ × W.Store
  swap_slot none store = W.allocate store
  swap_slot (some a) store = (a, store)

module _ {W : Swap} {P : Type 0} where
  unfoldable pub swap_pageout : (frame page : ℕ) → Sim W P → Sim W P
  unfolding swap_slot
  swap_pageout frame page s =
      let (a, store) = swap_slot W (s.entries page).swap_off s.store in
      record s {
        entries = update s.entries page (record (s.entries page) { swap_off = some a });
        store = W.write (s.physmem frame) a store;
      }

  -- A dirty victim leaves its frame for the swap.
  unfoldable pub evict_dirty : (frame page : ℕ) → Sim W P → Sim W P
  unfolding swap_pageout
  evict_dirty frame page s =
      let t = swap_pageout frame page s in
      record t {
        entries = update t.entries page (record (t.entries page) { valid = false; on_swap = true });
        evict_dirty_count = t.evict_dirty_count + 1;
      }

  unfoldable pub evict_clean : (page : ℕ) → Sim W P → Sim W P
  evict_clean page s = record s {
    entries = update s.entries page (record (s.entries page) { valid = false });
    evict_clean_count = s.evict_clean_count + 1;
  }

  unfoldable pub evict_page : (frame page : ℕ) → Sim W P → Sim W P
  evict_page frame page s =
      if (s.entries page).dirty then evict_dirty frame page s else evict_clean page s

  -- The page's content and entry in the frame it was given.
  unfoldable pub place_page :
      (vaddr page frame : ℕ) (swapped : Bool) (content : List ℕ) → Sim W P → Sim W P
  place_page vaddr page frame swapped content t = record t {
    entries = update t.entries page (record (t.entries page) {
      number = frame * 2 ^ 12 % 2 ^ 32 / 2 ^ 12;
      valid = false;
      dirty = not swapped;
      referenced = false;
      on_swap = swapped;
    });
    physmem = update t.physmem frame content;
    vaddr = update t.vaddr frame (vaddr / 2 ^ 12 * 2 ^ 12);
  }

  module _ (memsize : ℕ) (evict_fcn : P → Option (ℕ × P)) (ref_fcn : Entry → P → P) where
    -- The frame, free or made so, and the state before it is taken.
    unfoldable pub vacate : Sim W P → Option (ℕ × Sim W P)
    unfolding free_frame evict_page
    vacate s = elim (free_frame memsize 0 s.in_use) [
      | some frame ↦ some (frame, s)
      | none ↦ do
        (frame, policy) ← evict_fcn s.policy
        some (frame, evict_page frame (s.pte frame) (record s { policy = policy }))
    ]

    unfoldable pub allocate_frame : (page : ℕ) → Sim W P → Option (ℕ × Sim W P)
    unfolding vacate
    allocate_frame page s = do
      (frame, t) ← vacate s
      some (frame, record t { in_use = update t.in_use frame true; pte = update t.pte frame page })

    -- A page that is not in memory: zeros if it is new, else what it was swapped out with.
    unfoldable pub page_in : (vaddr page : ℕ) → Sim W P → Option (Sim W P)
    unfolding allocate_frame init_frame
    page_in vaddr page s = do
      (frame, t) ← allocate_frame page (record s { miss_count = s.miss_count + 1 })
      let swapped = (s.entries page).on_swap
      content ←
          (if swapped
            then (do a ← (t.entries page).swap_off; some (W.get a t.store))
            else some (init_frame vaddr))
      some (place_page vaddr page frame swapped content t)

    -- The frame of the address, with `writes` for the accesses M and S.
    unfoldable pub find_physpage : (vaddr : ℕ) → (writes : Bool) → Sim W P → Option (ℕ × Sim W P)
    unfolding page_in
    find_physpage vaddr writes s = do
      let page = vaddr / 2 ^ 12
      t ←
          (if leb (2 ^ 36) vaddr
            then none
            else if (s.entries page).valid
            then some (record s { hit_count = s.hit_count + 1 })
            else page_in vaddr page s)
      let e0 = t.entries page
      let e = record e0 { valid = true; referenced = true; dirty = e0.dirty || writes }
      some (
        e.number,
        record t {
          ref_count = t.ref_count + 1;
          entries = update t.entries page e;
          policy = ref_fcn e t.policy;
        },
      )
