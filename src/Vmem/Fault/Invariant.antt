-- ===== src/Vmem/Fault/Invariant.antt =====
-- What holds between page faults (ip6/lib/vmem/page_table.c), and the memory that the program sees.
use blue_bridge.Prelude.{
  ℕ, ◌+◌, ◌≤◌, ◌<◌, ◌≡◌, ◌⊎◌, true, false, List, has, length, ◌==◌, if◌then◌else◌,
}
use blue_bridge.Vmem.Backing.{Block, Backing}
use blue_bridge.Vmem.Policy.{Policy}
use blue_bridge.Vmem.PageTable.{PageTable, prot_none, prot_read, prot_read_write}

module _ {P : Policy} {B : Backing} where
  -- The block that a page holds: its frame if it is in memory, else its block in the store.
  abbrev pub view : PageTable P B → ℕ → Block
  view pt p =
      if pt.page_bits p == prot_none then B.contents pt.store p else pt.physmem (pt.page_mapping p)

  -- What holds of one page that is in memory.
  pub record IsResident (pt : PageTable P B) (ks : List ℕ) (p : ℕ) : Type 0 where
    pub in_range : p < pt.npages
    pub bits : (pt.page_bits p ≡ prot_read) ⊎ (pt.page_bits p ≡ prot_read_write)
    pub from_start : pt.start_frame ≤ pt.page_mapping p
    pub to_count : pt.page_mapping p < pt.start_frame + length ks
    pub width : length (pt.physmem (pt.page_mapping p)) ≡ B.block_size
    pub clean : pt.page_bits p ≡ prot_read → pt.physmem (pt.page_mapping p) ≡ B.contents pt.store p

  -- The pages `ks` are in memory, each in a frame of its own below the count.
  pub record IsValid (pt : PageTable P B) (ks : List ℕ) : Type 0 where
    pub holds : P.Holds pt.pages ks
    pub ready : B.IsReady pt.store
    pub backed : pt.npages ≤ B.nblocks pt.store
    pub frames : pt.end_frame ≡ pt.start_frame + pt.nframes
    pub some_frame : 0 < pt.nframes
    pub within : length ks ≤ pt.nframes
    pub resident : (p : ℕ) → has p ks ≡ true → IsResident pt ks p
    pub absent : (p : ℕ) → has p ks ≡ false → pt.page_bits p ≡ prot_none
    pub apart :
        (p q : ℕ)
        → has p ks ≡ true
        → has q ks ≡ true
        → pt.page_mapping p ≡ pt.page_mapping q
        → p ≡ q

  -- What every step of a handler keeps: the memory seen, and the sizes.
  pub record SameView (pt pt' : PageTable P B) : Type 0 where
    pub view_kept : (p : ℕ) → p < pt.npages → view pt' p ≡ view pt p
    pub npages_kept : pt'.npages ≡ pt.npages
    pub nframes_kept : pt'.nframes ≡ pt.nframes
