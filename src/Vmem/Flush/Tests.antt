-- ===== src/Vmem/Flush/Tests.antt =====
-- A table with one page in memory, flushed, and shared by two threads; and faults at addresses
-- (ip6/lib/vmem/page_table.c).
use blue_bridge.Prelude.{refl, [], ◌∷◌, arith}
use blue_bridge.Vmem.Mem.{Mem, mem_paging, IsAllocated}
use blue_bridge.Vmem.Lru.{init_lru}
use blue_bridge.Vmem.Lru.Laws.{init_lru-Holds}
use blue_bridge.Vmem.Policies.{lru}
use blue_bridge.Vmem.PageTable.{PageTable, page_table_create, prot_read}
use blue_bridge.Vmem.Fault.{page_fault_handler}
use blue_bridge.Vmem.Fault.Create.{page_table_create-IsValid}
use blue_bridge.Vmem.Fault.Grant.{Ends}
use blue_bridge.Vmem.Fault.Handler.{page_fault_handler-Ends}
use blue_bridge.Vmem.Fault.Invariant.{IsValid}
use blue_bridge.Vmem.Flush.{lru_page_table_flush}
use blue_bridge.Vmem.Flush.Drain.{WrittenBack, lru_page_table_flush-WrittenBack}
use blue_bridge.Vmem.Threads.{register_vmem_threads, Shared, register_vmem_threads-Shared}

abbrev local : Mem
local = record { mem_list = λ p. p ∷ []; block_size = 1; nblocks = 4 }

local-IsAllocated : IsAllocated 1 local
local-IsAllocated = record { block_size = refl; whole = λ b. refl }

abbrev fresh : PageTable lru (mem_paging 1)
unfolding page_table_create init_lru
fresh = page_table_create 4 2 (λ _. 9 ∷ []) (init_lru 2) local

fresh-IsValid : IsValid fresh []
unfolding page_table_create init_lru
fresh-IsValid =
    (page_table_create-IsValid {P = lru} {B = mem_paging 1} 4 2 0 (λ _. 9 ∷ []) (init_lru 2) local
      (init_lru-Holds 2) local-IsAllocated (omega arith) (omega arith)).0

-- Page 3 is in memory.
used : Ends fresh 3 prot_read (page_fault_handler 3 fresh)
unfolding fresh
used = page_fault_handler-Ends 3 fresh [] fresh-IsValid (omega arith)

lru_page_table_flush-WrittenBack_example :
    WrittenBack used.after (lru_page_table_flush 77 used.after)
lru_page_table_flush-WrittenBack_example =
    lru_page_table_flush-WrittenBack 77 used.after used.pages used.valid

register_vmem_threads-Shared_example : Shared fresh 2 (register_vmem_threads 77 2 fresh)
unfolding fresh
register_vmem_threads-Shared_example =
    register_vmem_threads-Shared 77 2 fresh [] fresh-IsValid (omega arith) (omega arith)
      (omega arith)
