-- ===== src/Vmem/Fault.antt =====
-- The page fault handlers of ip6/lib/vmem/page_table.c that keep their resident pages in a list or
-- a table. LRU_page_fault_handler, LFU_page_fault_handler and FFIFO_page_fault_handler are one text
-- but for the operations of their policy, which are a parameter here.
pub mod Create
pub mod Fill
pub mod Grant
pub mod Handler
pub mod Install
pub mod Invariant
pub mod Replace
use blue_bridge.Prelude.{ℕ, ◌+◌, Option, some, ltb, ◌==◌, if◌then◌else◌, ◌>>=◌}
use blue_bridge.Vmem.Backing.{Backing}
use blue_bridge.Vmem.Policy.{Policy}
use blue_bridge.Vmem.PageTable.{
  PageTable, prot_none, prot_read, prot_read_write, incr, page_table_set_entry,
  page_table_get_entry, read_data, write_data,
}

module _ {P : Policy} {B : Backing} where
  -- The page is not in memory, and a frame is free.
  unfoldable pub fill_frame : ℕ → PageTable P B → Option (PageTable P B)
  fill_frame page pt = do
    let i = P.tracked pt.pages + pt.start_frame
    s ← P.insert page pt.pages
    pt1 ← page_table_set_entry page i prot_read (record pt { pages = s })
    read_data page i pt1

  -- `if (bits == (PROT_READ|PROT_WRITE)) writeData(...)`
  unfoldable pub write_back : ℕ → ℕ → ℕ → PageTable P B → Option (PageTable P B)
  write_back page frame bits pt =
      if bits == prot_read_write then write_data page frame pt else some pt

  -- The page is not in memory, and one that is must go.
  unfoldable pub replace_frame : ℕ → PageTable P B → Option (PageTable P B)
  replace_frame page pt = do
    (temp_page, s) ← P.evict pt.pages
    (frame, bits) ← page_table_get_entry temp_page (record pt { pages = s })
    pt1 ← write_back temp_page frame bits (record pt { pages = s })
    pt2 ← read_data page frame pt1
    pt3 ← page_table_set_entry page frame prot_read pt2
    pt4 ← page_table_set_entry temp_page frame prot_none pt3
    s' ← P.insert page pt4.pages
    some (record pt4 { pages = s' })

  -- The page is in memory: the write bit is set.
  unfoldable pub set_write_bit : ℕ → ℕ → PageTable P B → Option (PageTable P B)
  set_write_bit page frame pt = do
    s ← P.touch page pt.pages
    page_table_set_entry page frame prot_read_write (record pt { pages = s })

  unfoldable pub page_fault_handler : ℕ → PageTable P B → Option (PageTable P B)
  page_fault_handler page pt = do
    let pt0 = record pt { page_faults = incr pt.page_faults }
    (frame, bits) ← page_table_get_entry page pt0
    if bits == prot_none
        then (if ltb (P.tracked pt.pages) pt.nframes
            then fill_frame page pt0
            else replace_frame page pt0)
        else set_write_bit page frame pt0
