-- ===== src/Vmem/PageTable.antt =====
-- struct page_table of ip6/lib/vmem/page_table.h with the globals of page_table.c that a fault
-- handler reads and writes. The frames are blocks of `physmem`; remap_file_pages and mprotect give
-- the hardware the entry that page_mapping and page_bits hold. `none` is an abort.
use blue_bridge.Prelude.{
  ℕ, ◌+◌, ◌%◌, ◌^◌, ◌||◌, Option, none, some, update, ltb, leb, if◌then◌else◌, ◌>>=◌,
}
use blue_bridge.Vmem.Backing.{Block, Backing}
use blue_bridge.Vmem.Policy.{Policy}

abbrev pub prot_none : ℕ
prot_none = 0

abbrev pub prot_read : ℕ
prot_read = 1

-- PROT_READ|PROT_WRITE
abbrev pub prot_read_write : ℕ
prot_read_write = 3

pub record PageTable (P : Policy) (B : Backing) : Type 0 where
  pub npages : ℕ
  pub nframes : ℕ
  pub start_frame : ℕ
  pub end_frame : ℕ
  pub physmem : ℕ → Block
  pub page_mapping : ℕ → ℕ
  pub page_bits : ℕ → ℕ
  pub page_faults : ℕ
  pub page_reads : ℕ
  pub page_writes : ℕ
  pub pages : P.State
  pub store : B.Store

-- x++ on a uint64_t
unfoldable pub incr : ℕ → ℕ
incr x = (x + 1) % 2 ^ 64

module _ {P : Policy} {B : Backing} where
  unfoldable pub page_table_set_entry : ℕ → ℕ → ℕ → PageTable P B → Option (PageTable P B)
  page_table_set_entry page frame bits pt =
      if leb pt.npages page
      then none
      else if ltb frame pt.start_frame || leb pt.end_frame frame
      then none
      else some (record pt {
        page_mapping = update pt.page_mapping page frame;
        page_bits = update pt.page_bits page bits;
      })

  -- The frame and the bits.
  unfoldable pub page_table_get_entry : ℕ → PageTable P B → Option (ℕ × ℕ)
  page_table_get_entry page pt =
      if leb pt.npages page then none else some (pt.page_mapping page, pt.page_bits page)

  -- readData(page, &pt->physmem[frame * BLOCK_SIZE])
  unfoldable pub read_data : ℕ → ℕ → PageTable P B → Option (PageTable P B)
  read_data page frame pt = do
    (block, s) ← B.read page pt.store
    some (record pt {
      physmem = update pt.physmem frame block;
      page_reads = incr pt.page_reads;
      store = s;
    })

  -- writeData(page, &pt->physmem[frame * BLOCK_SIZE])
  unfoldable pub write_data : ℕ → ℕ → PageTable P B → Option (PageTable P B)
  write_data page frame pt = do
    s ← B.write page (pt.physmem frame) pt.store
    some (record pt { page_writes = incr pt.page_writes; store = s })

  -- page_table_create, and the counters as they start: `garbage` is what the frames hold. The calls
  -- of the operating system (shm_open, ftruncate, mmap64, sigaction) are taken to succeed.
  unfoldable pub page_table_create :
      (npages nframes : ℕ) (garbage : ℕ → Block) → P.State → B.Store → PageTable P B
  page_table_create npages nframes garbage s store = record {
    npages = npages;
    nframes = nframes;
    start_frame = 0;
    end_frame = nframes;
    physmem = garbage;
    page_mapping = λ _. 0;
    page_bits = λ _. 0;
    page_faults = 0;
    page_reads = 0;
    page_writes = 0;
    pages = s;
    store = store;
  }
