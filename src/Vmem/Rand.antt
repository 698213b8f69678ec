-- ===== src/Vmem/Rand.antt =====
-- The state of RAND_page_fault_handler (ip6/lib/vmem/page_table.c): the hash table, whose list nodes are
-- NULL, and the count. What rand() returns, call by call, is given. `none` is a division by zero
-- or the probing of a table that is empty, which does not end.
pub mod Probe
pub mod Laws
pub mod Handler
mod Tests
use blue_bridge.Prelude.{
  ℕ, zero, suc, ◌+◌, ◌-◌, ◌%◌, Option, none, some, List, [], ◌∷◌, ltb, ◌==◌, if◌then◌else◌, ◌>>=◌,
}
use blue_bridge.Vmem.Backing.{Backing}
use blue_bridge.Vmem.Hash.{HashNode, Hash, insert_hash_node, delete_hash_node, hash_function}

pub record Rand : Type 0 where
  pub table : Hash
  pub count : ℕ
  pub draws : ℕ → ℕ
  pub drawn : ℕ

-- `randIndex++; if (randIndex > nframes-1) randIndex = 0;`
unfoldable pub next_index : (nframes i : ℕ) → ℕ
next_index nframes i = if ltb (nframes - 1) (i + 1) then 0 else i + 1

-- `while (hashTable[randIndex].head == NULL)`, and the key of the head it stops at. The fuel of a whole
-- turn is enough.
unfoldable pub probe : (fuel nframes : ℕ) → (ℕ → List HashNode) → ℕ → Option ℕ
unfolding next_index
probe zero nframes head i = none
probe (suc fuel) nframes head i =
    let rest = probe fuel nframes head (next_index nframes i) in
    elim (head i) [ [] ↦ rest | n ∷ ns ↦ some n.key ]

-- The page to replace, and the state after the call of rand().
unfoldable pub rand_choose : (nframes : ℕ) → Rand → Option (ℕ × Rand)
unfolding probe
rand_choose nframes s = if nframes == 0 then none else (do
  key ← probe nframes nframes s.table.head (s.draws s.drawn % nframes)
  some (key, record s { drawn = s.drawn + 1 }))

unfoldable pub rand_insert : ℕ → Rand → Rand
rand_insert page s = record s { table = insert_hash_node page 0 s.table }

unfoldable pub rand_delete : ℕ → Rand → Rand
rand_delete page s = record s { table = delete_hash_node page s.table }
