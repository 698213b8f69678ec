-- ===== src/Vmem/Flush.antt =====
-- page_table_flush of ip6/lib/vmem/page_table.c under the list policies. `none` is an abort, or a loop
-- that has not ended when the fuel is used up.
pub mod Drain
mod Tests
use blue_bridge.Prelude.{ℕ, zero, suc, ◌+◌, Option, none, some, ◌==◌, if◌then◌else◌, ◌>>=◌}
use blue_bridge.Vmem.Backing.{Backing}
use blue_bridge.Vmem.Policy.{Policy}
use blue_bridge.Vmem.PageTable.{PageTable, prot_none, page_table_set_entry, page_table_get_entry}
use blue_bridge.Vmem.Fault.{write_back}
use blue_bridge.Vmem.Lru.{delete_lru}
use blue_bridge.Vmem.Policies.{lru, ffifo}

module _ {P : Policy} {B : Backing} (evict : P.State → Option (ℕ × P.State)) where
  -- The body of the loop.
  unfoldable pub flush_page : PageTable P B → Option (PageTable P B)
  flush_page pt = do
    (temp_page, s) ← evict pt.pages
    (frame, bits) ← page_table_get_entry temp_page (record pt { pages = s })
    pt1 ← write_back temp_page frame bits (record pt { pages = s })
    page_table_set_entry temp_page frame prot_none pt1

  -- `while (count > 0)`
  unfoldable pub flush_pages : (fuel : ℕ) → PageTable P B → Option (PageTable P B)
  unfolding flush_page
  flush_pages zero pt = none
  flush_pages (suc fuel) pt =
      if P.tracked pt.pages == 0 then some pt else (do pt' ← flush_page pt; flush_pages fuel pt')

-- `temp_page` is what stands in the variable before deleteLRU sets it.
module _ {B : Backing} (temp_page : ℕ) where
  unfoldable pub lru_page_table_flush : PageTable lru B → Option (PageTable lru B)
  unfolding flush_pages
  lru_page_table_flush pt = flush_pages (delete_lru temp_page) (pt.pages.list.count + 1) pt

  unfoldable pub ffifo_page_table_flush : PageTable ffifo B → Option (PageTable ffifo B)
  unfolding flush_pages
  ffifo_page_table_flush pt = flush_pages (delete_lru temp_page) (pt.pages.list.count + 1) pt
