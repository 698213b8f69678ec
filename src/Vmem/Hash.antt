-- ===== src/Vmem/Hash.antt =====
-- The chained hash table of ip6/lib/vmem/page_table.c (struct hash, struct hashNode), keyed by page
-- number, with one bucket for each frame. A chain is the list of its nodes, the first one first.
pub mod Lookup
use blue_bridge.Prelude.{
  ℕ, ◌+◌, ◌-◌, ◌%◌, Bool, true, false, Option, none, some, List, [], ◌∷◌, update, ◌==◌,
  if◌then◌else◌,
}

-- struct hashNode without its `next`
pub record HashNode : Type 0 where
  pub key : ℕ
  pub list_node_pointer : ℕ

abbrev pub hash_node : ℕ → ℕ → HashNode
hash_node k p = record { key = k; list_node_pointer = p }

-- The array of struct hash: the chain and the count of each bucket.
pub record Hash : Type 0 where
  pub nframes : ℕ
  pub head : ℕ → List HashNode
  pub count : ℕ → ℕ

-- calloc'd
abbrev pub no_nodes : ℕ → Hash
no_nodes nframes = record { nframes = nframes; head = λ _. []; count = λ _. 0 }

-- The frames are at least one: the code divides by their number.
unfoldable pub hash_function : Hash → ℕ → ℕ
hash_function t key = key % t.nframes

pub push_node : List HashNode → HashNode → ℕ → ℕ → Hash → Hash
push_node [] n i c t = record t { head = update t.head i (n ∷ []); count = update t.count i 1 }
push_node (m ∷ ms) n i c t = record t {
  head = update t.head i (n ∷ m ∷ ms);
  count = update t.count i (c + 1);
}

unfoldable pub insert_hash_node : ℕ → ℕ → Hash → Hash
unfolding push_node
insert_hash_node key list_node_pointer t =
    let i = hash_function t key in
    push_node (t.head i) (hash_node key list_node_pointer) i (t.count i) t

-- The loop of deleteHashNode: whether a node was unlinked, and the chain that is left.
unfoldable pub unlink_node : ℕ → List HashNode → Bool × List HashNode
unlink_node key [] = (false, [])
unlink_node key (n ∷ ns) =
    let rest = unlink_node key ns in if n.key == key then (true, ns) else (rest.0, n ∷ rest.1)

unfoldable pub delete_hash_node : ℕ → Hash → Hash
delete_hash_node key t =
    let i = hash_function t key in
    let (found, ns) = unlink_node key (t.head i) in
    if found
    then record t { head = update t.head i ns; count = update t.count i (t.count i - 1) }
    else t

-- The loop of getHashNode; it reads through NULL when no node has the key.
unfoldable pub seek_node : ℕ → List HashNode → Option ℕ
seek_node key [] = none
seek_node key (n ∷ ns) = if n.key == key then some n.list_node_pointer else seek_node key ns

-- `some 0` is the NULL that an empty bucket gives; `none` is a fault.
get_node : List HashNode → ℕ → Option ℕ
get_node [] key = some 0
get_node (n ∷ ns) key = seek_node key (n ∷ ns)

unfoldable pub get_hash_node : ℕ → Hash → Option ℕ
unfolding get_node
get_hash_node key t = get_node (t.head (hash_function t key)) key
