-- ===== src/Vmem/Rand/Tests.antt =====
-- Two frames and four pages under the random policy (ip6/lib/vmem/page_table.c), over local memory.
use blue_bridge.Prelude.{ℕ, zero, suc, refl, List, [], ◌∷◌, arith}
use blue_bridge.Vmem.Hash.{HashNode, hash_node, no_nodes}
use blue_bridge.Vmem.Hash.Lookup.{no_nodes-IsHash, lookup}
use blue_bridge.Vmem.Mem.{Mem, mem_paging, IsAllocated}
use blue_bridge.Vmem.PageTable.{PageTable, page_table_create, prot_read}
use blue_bridge.Vmem.Fault.Create.{page_table_create-IsValid}
use blue_bridge.Vmem.Fault.Grant.{Ends}
use blue_bridge.Vmem.Fault.Invariant.{IsValid}
use blue_bridge.Vmem.Rand.{Rand, probe}
use blue_bridge.Vmem.Rand.Laws.{rand, Holds}
use blue_bridge.Vmem.Rand.Probe.{Probed, probe-Probed}
use blue_bridge.Vmem.Rand.Handler.{rand_page_fault_handler, rand_page_fault_handler-Ends}

abbrev start : Rand
start = record { table = no_nodes 2; count = 0; draws = λ i. i; drawn = 0 }

start-Holds : Holds start []
unfolding lookup blue_bridge.Vmem.Hash.seek_node
start-Holds = record {
  table = no_nodes-IsHash 2;
  homed = λ i q e. refl;
  some_frame = omega arith;
  distinct = tt;
  count = refl;
  tracks = λ q. refl;
}

abbrev local : Mem
local = record { mem_list = λ p. p ∷ []; block_size = 1; nblocks = 4 }

local-IsAllocated : IsAllocated 1 local
local-IsAllocated = record { block_size = refl; whole = λ b. refl }

abbrev fresh : PageTable rand (mem_paging 1)
unfolding page_table_create
fresh = page_table_create 4 2 (λ _. 9 ∷ []) start local

fresh-IsValid : IsValid fresh []
unfolding page_table_create
fresh-IsValid =
    (page_table_create-IsValid {P = rand} {B = mem_paging 1} 4 2 0 (λ _. 9 ∷ []) start local
      start-Holds local-IsAllocated (omega arith) (omega arith)).0

rand_page_fault_handler-Ends_example : Ends fresh 3 prot_read (rand_page_fault_handler 3 fresh)
unfolding fresh
rand_page_fault_handler-Ends_example =
    rand_page_fault_handler-Ends 3 fresh [] fresh-IsValid (omega arith) refl

-- Of three buckets only the first holds a page.
abbrev buckets : ℕ → List HashNode
buckets zero = hash_node 6 0 ∷ []
buckets (suc _) = []

probe-Probed_example : Probed 3 buckets (probe 3 3 buckets 1)
probe-Probed_example =
    probe-Probed 3 buckets 0 (hash_node 6 0) [] 1 refl (omega arith) (omega arith)
