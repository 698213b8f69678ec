-- ===== src/Vmem/Tests.antt =====
-- Two frames and four pages of one byte over local memory (ip6/lib/vmem): the theorems at concrete
-- tables, and runs of the handlers.
use blue_bridge.Prelude.{
  ℕ, ◌≡◌, refl, Option, none, some, List, [], ◌∷◌, ◌++◌, arith, update, subst,
}
use blue_bridge.Vmem.Backing.{Block}
use blue_bridge.Vmem.Dll.{
  Dll, node, create_dll_list_node, move_list_node_to_front, deletedll_list_node, load, set_next,
  set_prev, relink_next, relink_prev,
}
use blue_bridge.Vmem.Dll.Refine.{IsDll, create_dll_list_node-IsDll}
use blue_bridge.Vmem.Dll.Remove.{move_list_node_to_front-IsDll, deletedll_list_node-IsDll}
use blue_bridge.Vmem.Hash.{
  no_nodes, hash_function, insert_hash_node, delete_hash_node, unlink_node, seek_node,
  get_hash_node,
}
use blue_bridge.Vmem.Hash.Lookup.{
  lookup, lookup-insert, lookup-delete, no_nodes-IsHash, insert-IsHash, lookup-no_nodes,
}
use blue_bridge.Vmem.Mem.{Mem, mem_paging, IsAllocated, read_with, mem_read, mem_write}
use blue_bridge.Vmem.Lru.{Lru, init_lru, lru_insert, lru_touch, delete_lru}
use blue_bridge.Vmem.Lru.Laws.{init_lru-Holds, Holds, lru_insert-Holds, delete_lru-Holds}
use blue_bridge.Vmem.Policies.{lru, lru_page_fault_handler}
use blue_bridge.Vmem.PageTable.{
  PageTable, page_table_create, prot_read, prot_read_write, page_table_set_entry,
  page_table_get_entry, read_data, write_data, incr,
}
use blue_bridge.Vmem.Fault.{
  page_fault_handler, fill_frame, replace_frame, set_write_bit, write_back,
}
use blue_bridge.Vmem.Fault.Create.{page_table_create-IsValid}
use blue_bridge.Vmem.Fault.Grant.{Ends}
use blue_bridge.Vmem.Fault.Handler.{next_bits, page_fault_handler-Ends, page_fault_handler_illegal}
use blue_bridge.Vmem.Fault.Invariant.{view, IsValid}
use blue_bridge.Vmem.Trace.{
  fault, write, write_frame, faults, writes, Run, done, then_run, Run-flat,
}

abbrev blocks : ℕ → Block
blocks p = p ∷ []

abbrev local : Mem
local = record { mem_list = blocks; block_size = 1; nblocks = 4 }

local-IsAllocated : IsAllocated 1 local
local-IsAllocated = record { block_size = refl; whole = λ b. refl }

abbrev fresh : PageTable lru (mem_paging 1)
unfolding page_table_create init_lru
fresh = page_table_create 4 2 (λ _. 9 ∷ []) (init_lru 2) local

fresh-IsValid : IsValid fresh []
unfolding page_table_create init_lru
fresh-IsValid =
    (page_table_create-IsValid {P = lru} {B = mem_paging 1} 4 2 0 (λ _. 9 ∷ []) (init_lru 2) local
      (init_lru-Holds 2) local-IsAllocated (omega arith) (omega arith)).0

page_fault_handler-Ends_example : Ends fresh 3 prot_read (page_fault_handler 3 fresh)
unfolding fresh
page_fault_handler-Ends_example = page_fault_handler-Ends 3 fresh [] fresh-IsValid (omega arith)

page_fault_handler_illegal_example : page_fault_handler 4 fresh ≡ none
unfolding fresh
page_fault_handler_illegal_example = page_fault_handler_illegal 4 fresh (omega arith)

-- Everything a handler calls, for runs.
abbrev after : List ℕ → PageTable lru (mem_paging 1) → Option (PageTable lru (mem_paging 1))
after [] pt = some pt
after (p ∷ ps) pt = elim (lru_page_fault_handler p pt) [ none ↦ none | some pt' ↦ after ps pt' ]

abbrev shown : Option (PageTable lru (mem_paging 1)) → Option (Block × ℕ × ℕ × ℕ)
shown none = none
shown (some pt) = some (view pt 3, pt.page_bits 3, pt.page_reads, pt.page_writes)

-- Page 3 is made writable; pages 0 and 1 push it out again, and it is written back.
write_back_run : shown (after (3 ∷ 3 ∷ 0 ∷ 1 ∷ []) fresh) ≡ some (3 ∷ [], 0, 3, 1)
unfolding fresh lru_page_fault_handler page_fault_handler fill_frame replace_frame set_write_bit
    write_back page_table_set_entry page_table_get_entry read_data write_data incr lru_insert
    lru_touch delete_lru create_dll_list_node move_list_node_to_front deletedll_list_node load
    set_next set_prev relink_next relink_prev hash_function insert_hash_node delete_hash_node
    unlink_node seek_node get_hash_node read_with mem_read mem_write
write_back_run = refl

first : Ends fresh 3 prot_read (page_fault_handler 3 fresh)
unfolding fresh
first = page_fault_handler-Ends 3 fresh [] fresh-IsValid (omega arith)

second : Ends first.after 3 prot_read_write (page_fault_handler 3 first.after)
unfolding fresh
second =
    subst (λ b. Ends first.after 3 (next_bits b) (page_fault_handler 3 first.after)) first.granted
      (page_fault_handler-Ends 3 first.after first.pages first.valid
        (rw first.same.npages_kept (omega arith)))

abbrev written : PageTable lru (mem_paging 1)
written = write_frame 3 (7 ∷ []) second.after

two_faults_and_a_write : Run fresh (fault 3 ∷ fault 3 ∷ write 3 (7 ∷ []) ∷ []) written
unfolding fresh
two_faults_and_a_write = then_run (faults (omega arith) first.run) (
    then_run (faults (rw first.same.npages_kept (omega arith)) second.run) (
      then_run
        (writes (rw (second.same.npages_kept, first.same.npages_kept) (omega arith)) second.granted
          refl)
        done))

Run-flat_example : (view written 3 ≡ 7 ∷ []) × ((ks : List ℕ) × IsValid written ks)
unfolding fresh
Run-flat_example = Run-flat [] 3 two_faults_and_a_write fresh-IsValid (omega arith)

-- A list of two nodes, page 5 in front of page 8.
abbrev two : Dll
two = record {
  cell = update (update (λ _. none) 1 (some (node 8 0 2))) 2 (some (node 5 1 0));
  brk = 3;
  head = 2;
  tail = 1;
  count = 2;
}

two-IsDll : IsDll two ((2, 5) ∷ (1, 8) ∷ [])
two-IsDll = record {
  links = (λ e. absurd (omega arith), refl, refl, (λ e. absurd (omega arith), refl, refl, tt));
  head = refl;
  tail = refl;
  count = refl;
  below = (omega arith, (omega arith, tt));
  positive = omega arith;
}

create_dll_list_node-IsDll_example :
    (d : Dll) × (create_dll_list_node 6 two ≡ some (3, d)) × IsDll d ((3, 6) ∷ (2, 5) ∷ (1, 8) ∷ [])
create_dll_list_node-IsDll_example =
    create_dll_list_node-IsDll 6 two ((2, 5) ∷ (1, 8) ∷ []) two-IsDll

move_list_node_to_front-IsDll_example :
    (d : Dll) × (move_list_node_to_front 1 two ≡ some d) × IsDll d ((1, 8) ∷ (2, 5) ∷ [])
move_list_node_to_front-IsDll_example =
    move_list_node_to_front-IsDll 1 8 two ((2, 5) ∷ []) [] two-IsDll

deletedll_list_node-IsDll_example :
    (d : Dll) × (deletedll_list_node 2 two ≡ some d) × IsDll d ((1, 8) ∷ []) × (d.cell 2 ≡ none)
deletedll_list_node-IsDll_example = deletedll_list_node-IsDll 2 5 two [] ((1, 8) ∷ []) two-IsDll

lookup-insert_example : lookup 7 (insert_hash_node 3 1 (no_nodes 4)) ≡ lookup 7 (no_nodes 4)
lookup-insert_example = lookup-insert 3 1 7 (no_nodes 4)

lookup-delete_example : lookup 3 (delete_hash_node 3 (insert_hash_node 3 1 (no_nodes 4))) ≡ none
lookup-delete_example =
    lookup-delete 3 3 (insert_hash_node 3 1 (no_nodes 4))
      (insert-IsHash 3 1 (no_nodes 4) (no_nodes-IsHash 4) (lookup-no_nodes 4 3))

-- An LRU state with the pages 6 and 4, page 6 newest.
one_page : (s : Lru) × (lru_insert 4 (init_lru 2) ≡ some s) × Holds s (4 ∷ [])
one_page = lru_insert-Holds 4 (init_lru 2) [] (init_lru-Holds 2) refl

two_pages : (s : Lru) × (lru_insert 6 one_page.0 ≡ some s) × Holds s (6 ∷ 4 ∷ [])
two_pages = lru_insert-Holds 6 one_page.0 (4 ∷ []) one_page.2 refl

delete_lru-Holds_example :
    (v : ℕ) × (rest : List ℕ) × (s : Lru) × (6 ∷ 4 ∷ [] ≡ rest ++ v ∷ [])
    × (delete_lru 0 two_pages.0 ≡ some (v, s))
    × Holds s rest
delete_lru-Holds_example = delete_lru-Holds 0 6 two_pages.0 (4 ∷ []) two_pages.2
