-- ===== src/Simulator/Paging/Found.antt =====
-- legacy/OldPageTable/experiment/pagetable.c: the page of an address is brought into memory.
use blue_bridge.Prelude.{
  ℕ, ◌/◌, ◌^◌, ◌<◌, ◌≤◌, ◌≡◌, ◌≢◌, Option, none, some, Bool, List, true, false, update,
}
use blue_bridge.Simulator.Paging.{Entry, Swap, Sim, init_frame}
use blue_bridge.Simulator.Paging.Contents.{SwapLaws, Backed}
use blue_bridge.Simulator.Paging.Vacated.{content, Consistent, Vacated}
use blue_bridge.Simulator.Paging.Linked.{Linked}

-- What an access finds: a new page is made for the address.
abbrev pub or_new : (vaddr : ℕ) → Option (List ℕ) → List ℕ
or_new vaddr none = init_frame vaddr
or_new vaddr (some c) = c

module _ {W : Swap} {P : Type 0} (laws : SwapLaws W) where
  -- What an access leaves.
  pub record Found (memsize vaddr : ℕ) (writes : Bool) (s : Sim W P) (result : Option (ℕ × Sim W P))
      : Type 0 where
    pub frame : ℕ
    pub after : Sim W P
    pub returns : result ≡ some (frame, after)
    pub consistent : Consistent laws memsize after
    pub valid : (after.entries (vaddr / 2 ^ 12)).valid ≡ true
    pub number : (after.entries (vaddr / 2 ^ 12)).number ≡ frame
    pub dirty : writes ≡ true → (after.entries (vaddr / 2 ^ 12)).dirty ≡ true
    pub holds : after.physmem frame ≡ or_new vaddr (content laws s (vaddr / 2 ^ 12))
    pub others : (q : ℕ) → q ≢ vaddr / 2 ^ 12 → content laws after q ≡ content laws s q

  module _ (memsize : ℕ) (evict_fcn : P → Option (ℕ × P)) (ref_fcn : Entry → P → P)
      (small : memsize ≤ 2 ^ 20)
      (evicts : (p : P) → (f : ℕ) × (q : P) × (evict_fcn p ≡ some (f, q)) × (f < memsize)) where
    -- The page `page` has a frame and the content `now`, the other pages hold what they did, and the
    -- state stays consistent when the page's entry becomes a valid one.
    record Ready (page : ℕ) (seen : ℕ → Option (List ℕ)) (now : List ℕ) (t : Sim W P) : Type 0 where
      slot : (t.entries page).on_swap ≡ true → (a : ℕ) × ((t.entries page).swap_off ≡ some a)
      holds : t.physmem (t.entries page).number ≡ now
      keeps : (q : ℕ) → q ≢ page → content laws t q ≡ seen q
      taken :
          (y : Entry)
          → y.number ≡ (t.entries page).number
          → y.valid ≡ true
          → y.on_swap ≡ (t.entries page).on_swap
          → y.swap_off ≡ (t.entries page).swap_off
          → (y.dirty ≡ false → (t.entries page).dirty ≡ false)
          → Linked memsize (update t.entries page y) t.in_use t.pte
            × Backed W laws (update t.entries page y) t.physmem t.store

    allocated : (page frame : ℕ) → Sim W P → Sim W P
    allocated page frame t = record t {
      in_use = update t.in_use frame true;
      pte = update t.pte frame page;
    }
