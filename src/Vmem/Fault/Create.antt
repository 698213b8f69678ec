-- ===== src/Vmem/Fault/Create.antt =====
-- The page table that page_table_create of ip6/lib/vmem/page_table.c hands out.
use blue_bridge.Prelude.{ℕ, ◌≤◌, ◌<◌, ◌≡◌, refl, true, [], has, arith}
use blue_bridge.Vmem.Backing.{Block, Backing}
use blue_bridge.Vmem.Policy.{Policy}
use blue_bridge.Vmem.PageTable.{page_table_create}
use blue_bridge.Vmem.Fault.Invariant.{view, IsValid}

module _ {P : Policy} {B : Backing} where
  -- A fresh page table over at least one frame is valid with no page in memory, and a program sees
  -- the store through it.
  pub page_table_create-IsValid :
      (npages nframes p : ℕ) (garbage : ℕ → Block) (s : P.State) (store : B.Store)
      → P.Holds s []
      → B.IsReady store
      → npages ≤ B.nblocks store
      → 0 < nframes
      → IsValid (page_table_create {P = P} {B = B} npages nframes garbage s store) []
        × (view (page_table_create {P = P} {B = B} npages nframes garbage s store) p
            ≡ B.contents store p)
  unfolding page_table_create
  page_table_create-IsValid npages nframes p garbage s store h ready backed some_frame = (
    record {
      holds = h;
      ready = ready;
      backed = backed;
      frames = omega arith;
      some_frame = some_frame;
      within = omega arith;
      resident = λ q o. absurd (no_page q o);
      absent = λ q o. refl;
      apart = λ q r o u e. absurd (no_page q o);
    },
    refl,
  )
    where
      no_page : (q : ℕ) → has q [] ≡ true → ⊥
      no_page q o = cc
