-- ===== src/Vmem/Lru.antt =====
-- The state of the LRU and FFIFO policies of ip6/lib/vmem/page_table.c: the list of resident pages,
-- newest first, and the hash table that finds a page's node.
pub mod Order
pub mod Laws
use blue_bridge.Prelude.{ℕ, Option, some, ◌==◌, if◌then◌else◌, ◌>>=◌}
use blue_bridge.Vmem.Dll.{
  Dll, empty, load, create_dll_list_node, move_list_node_to_front, deletedll_list_node,
}
use blue_bridge.Vmem.Hash.{Hash, no_nodes, insert_hash_node, delete_hash_node, get_hash_node}

pub record Lru : Type 0 where
  pub list : Dll
  pub table : Hash

-- As init_virtual_memory and init_vmem_thread set it up.
unfoldable pub init_lru : ℕ → Lru
init_lru nframes = record { list = empty; table = no_nodes nframes }

-- insertHashNode(page, createdllListNode(page))
unfoldable pub lru_insert : ℕ → Lru → Option Lru
lru_insert page s = do
  (p, d) ← create_dll_list_node page s.list
  some (record { list = d; table = insert_hash_node page p s.table })

-- moveListNodeToFront(getHashNode(page))
unfoldable pub lru_touch : ℕ → Lru → Option Lru
lru_touch page s = do
  p ← get_hash_node page s.table
  d ← move_list_node_to_front p s.list
  some (record s { list = d })

-- The victim is handed back, where the code writes it through its argument; `page` is what the
-- argument pointed at before.
unfoldable pub delete_lru : ℕ → Lru → Option (ℕ × Lru)
delete_lru page s = if s.list.tail == 0 then some (page, s) else do
  n ← load s.list.tail s.list
  d ← deletedll_list_node s.list.tail s.list
  some (n.key, record { list = d; table = delete_hash_node n.key s.table })

-- The eviction in FFIFO_page_fault_handler, which reads through `tail` with no test.
unfoldable pub ffifo_evict : Lru → Option (ℕ × Lru)
ffifo_evict s = do
  n ← load s.list.tail s.list
  d ← deletedll_list_node s.list.tail s.list
  some (n.key, record { list = d; table = delete_hash_node n.key s.table })
