-- ===== src/Vmem/Dll.antt =====
-- The doubly linked list of ip6/lib/vmem/page_table.c and page_table.h, with its nodes on an
-- explicit heap. `none` is a fault: a read or a write through NULL or a freed node. `malloc` hands
-- out addresses that were never used; `count` counts allocated nodes, so it cannot overflow.
pub mod Links
pub mod Parts
pub mod Refine
pub mod Remove
use blue_bridge.Prelude.{
  ℕ, suc, ◌+◌, ◌-◌, Option, none, some, update, ltb, ◌==◌, if◌then◌else◌, ◌>>=◌,
}

-- struct dllListNode
pub record Node : Type 0 where
  pub key : ℕ
  pub next : ℕ
  pub prev : ℕ

abbrev pub node : ℕ → ℕ → ℕ → Node
node k n p = record { key = k; next = n; prev = p }

abbrev pub Heap : Type 0
Heap = ℕ → Option Node

-- struct dllList, with the heap of its nodes and the next address that `malloc` returns
pub record Dll : Type 0 where
  pub cell : Heap
  pub brk : ℕ
  pub head : ℕ
  pub tail : ℕ
  pub count : ℕ

-- calloc'd, `count = 0`
abbrev pub empty : Dll
empty = record { cell = λ _. none; brk = 1; head = 0; tail = 0; count = 0 }

unfoldable pub load : ℕ → Dll → Option Node
load p d = if p == 0 then none else d.cell p

-- `p->next = q` and `p->prev = q`
unfoldable pub set_next : ℕ → ℕ → Dll → Option Dll
unfolding load
set_next p q d = do
  n ← load p d
  some (record d { cell = update d.cell p (some (record n { next = q })) })

unfoldable pub set_prev : ℕ → ℕ → Dll → Option Dll
unfolding load
set_prev p q d = do
  n ← load p d
  some (record d { cell = update d.cell p (some (record n { prev = q })) })

-- `if (p != NULL) p->next = q`
unfoldable pub relink_next : ℕ → ℕ → Dll → Option Dll
unfolding set_next
relink_next p q d = if p == 0 then some d else set_next p q d

unfoldable pub relink_prev : ℕ → ℕ → Dll → Option Dll
unfolding set_prev
relink_prev p q d = if p == 0 then some d else set_prev p q d

unfoldable pub create_dll_list_node : ℕ → Dll → Option (ℕ × Dll)
create_dll_list_node key d = do
  let p = d.brk
  let d1 = record d { cell = update d.cell p (some (node key d.head 0)); brk = suc p }
  d2 ← if ltb 0 d.count then set_prev d.head p d1 else some (record d1 { tail = p })
  some (p, record d2 { head = p; count = d2.count + 1 })

unfoldable pub move_list_node_to_front : ℕ → Dll → Option Dll
move_list_node_to_front p d = if d.head == p then some d else do
  n ← load p d
  d1 ← relink_next n.prev n.next d
  n1 ← load p d1
  d2 ← relink_prev n1.next n1.prev d1
  d3 ← set_next p d2.head d2
  n3 ← load p d3
  let d4 = record d3 { tail = if d3.tail == p then n3.prev else d3.tail }
  d5 ← set_prev p 0 d4
  d6 ← if ltb 1 d5.count then set_prev d5.head p d5 else some (record d5 { head = p; tail = p })
  some (record d6 { head = p })

unfoldable pub deletedll_list_node : ℕ → Dll → Option Dll
deletedll_list_node p d = do
  n ← load p d
  let d1 = record d { head = if p == d.head then n.next else d.head }
  let d2 = record d1 { tail = if p == d1.tail then n.prev else d1.tail }
  d3 ← relink_next n.prev n.next d2
  n3 ← load p d3
  d4 ← relink_prev n3.next n3.prev d3
  some (record d4 { count = d4.count - 1; cell = update d4.cell p none })
