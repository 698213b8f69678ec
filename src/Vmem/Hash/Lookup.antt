-- ===== src/Vmem/Hash/Lookup.antt =====
-- The hash table of ip6/lib/vmem/page_table.c as a map from pages to list nodes.
use blue_bridge.Prelude.{
  ℕ, suc, ◌+◌, ◌%◌, ◌≡◌, refl, false, Option, none, some, List, [], ◌∷◌, arith, length, ◌==◌,
  if◌then◌else◌, Bool-cases, inl, inr, eq_of_==, ==_refl, sym, ap,
}
use blue_bridge.Vmem.Hash.{
  HashNode, hash_node, Hash, no_nodes, hash_function, push_node, insert_hash_node, unlink_node,
  delete_hash_node, seek_node, get_hash_node, get_node,
}

-- The list node that the table holds for a page.
unfoldable pub lookup : ℕ → Hash → Option ℕ
lookup key t = seek_node key (t.head (hash_function t key))

-- No key stands twice in a chain.
abbrev pub Distinct : List HashNode → Type 0
Distinct [] = Unit {0}
Distinct (n ∷ ns) = (seek_node n.key ns ≡ none) × Distinct ns

-- The invariant of the table.
pub record IsHash (t : Hash) : Type 0 where
  pub distinct : (i : ℕ) → Distinct (t.head i)
  pub counted : (i : ℕ) → t.count i ≡ length (t.head i)

pub no_nodes-IsHash : (n : ℕ) → IsHash (no_nodes n)
no_nodes-IsHash n = record { distinct = λ i. tt; counted = λ i. refl }

pub lookup-no_nodes : (n key : ℕ) → lookup key (no_nodes n) ≡ none
unfolding lookup seek_node
lookup-no_nodes n key = refl

pub push_node-head :
    (ms : List HashNode) (n : HashNode) (i c j : ℕ) (t : Hash)
    → (push_node ms n i c t).head j ≡ (if j == i then n ∷ ms else t.head j)
unfolding push_node
push_node-head [] n i c j t = refl
push_node-head (m ∷ ms) n i c j t = refl

push_node-count :
    (ms : List HashNode) (n : HashNode) (i c j : ℕ) (t : Hash)
    → c ≡ length ms
    → (push_node ms n i c t).count j ≡ (if j == i then suc (length ms) else t.count j)
unfolding push_node
push_node-count [] n i c j t e = refl
push_node-count (m ∷ ms) n i c j t e = ground arith

pub push_node-nframes :
    (ms : List HashNode) (n : HashNode) (i c : ℕ) (t : Hash)
    → (push_node ms n i c t).nframes ≡ t.nframes
unfolding push_node
push_node-nframes [] n i c t = refl
push_node-nframes (m ∷ ms) n i c t = refl

pub key_of_bucket : (key j n : ℕ) → (j % n == key % n) ≡ false → (key == j) ≡ false
key_of_bucket key j n e = elim (Bool-cases (key == j)) [
  | inl same ↦ cc (ap (λ x. x % n == key % n) (eq_of_== key j same), ==_refl (key % n))
  | inr other ↦ other
]

-- An insertion is seen at its own page and nowhere else.
pub lookup-insert :
    (key p j : ℕ) (t : Hash)
    → lookup j (insert_hash_node key p t) ≡ (if key == j then some p else lookup j t)
unfolding lookup insert_hash_node hash_function seek_node
lookup-insert key p j t =
    let i = key % t.nframes in
    let n = hash_node key p in
    rw
      (
        push_node-nframes (t.head i) n i (t.count i) t,
        push_node-head (t.head i) n i (t.count i) (j % t.nframes) t,
      )
      (elim (Bool-cases (j % t.nframes == i)) [
        | inl same ↦ rw same (
            ap (λ x. if key == j then some p else seek_node j (t.head x))
              (sym (eq_of_== (j % t.nframes) i same)))
        | inr other ↦ rw (other, key_of_bucket key j t.nframes other)
      ])

pub insert-IsHash :
    (key p : ℕ) (t : Hash) → IsHash t → lookup key t ≡ none → IsHash (insert_hash_node key p t)
unfolding lookup insert_hash_node
insert-IsHash key p t h e =
    let i = hash_function t key in
    let n = hash_node key p in
    record {
      distinct = λ j.
          rw (push_node-head (t.head i) n i (t.count i) j t) (elim (Bool-cases (j == i)) [
            | inl same ↦ rw same (e, h.distinct i)
            | inr other ↦ rw other (h.distinct j)
          ]);
      counted = λ j.
          rw
            (
              push_node-head (t.head i) n i (t.count i) j t,
              push_node-count (t.head i) n i (t.count i) j t (h.counted i),
            )
            (elim (Bool-cases (j == i)) [
              | inl same ↦ rw same
              | inr other ↦ rw other (h.counted j)
            ]);
    }

-- What unlinking leaves in a chain without repetitions.
pub seek-unlink :
    (key j : ℕ) (ns : List HashNode)
    → Distinct ns
    → seek_node j (unlink_node key ns).1 ≡ (if key == j then none else seek_node j ns)
unfolding seek_node unlink_node
seek-unlink key j [] d = ground arith
seek-unlink key j (n ∷ ns) d = ground (arith, seek-unlink key j ns d.1)

unlink-Distinct : (key : ℕ) (ns : List HashNode) → Distinct ns → Distinct (unlink_node key ns).1
unfolding unlink_node seek_node
unlink-Distinct key [] d = tt
unlink-Distinct key (n ∷ ns) d =
    ground (arith, unlink-Distinct key ns d.1, seek-unlink key n.key ns d.1)

length-unlink :
    (key : ℕ) (ns : List HashNode)
    → length ns ≡ length (unlink_node key ns).1 + (if (unlink_node key ns).0 then 1 else 0)
unfolding unlink_node
length-unlink key [] = refl
length-unlink key (n ∷ ns) = ground (arith, length-unlink key ns)

unlink_missing :
    (key : ℕ) (ns : List HashNode) → (unlink_node key ns).0 ≡ false → (unlink_node key ns).1 ≡ ns
unfolding unlink_node
unlink_missing key [] e = refl
unlink_missing key (n ∷ ns) e = ground (arith, unlink_missing key ns)

same_entry : (f : ℕ → List HashNode) (i j : ℕ) → f j ≡ (if j == i then f i else f j)
same_entry f i j = elim (Bool-cases (j == i)) [
  | inl same ↦ rw same (ap f (eq_of_== j i same))
  | inr other ↦ rw other
]

-- Both branches of deleteHashNode leave, in each bucket, what unlinking leaves there.
pub delete-head :
    (key j : ℕ) (t : Hash)
    → (delete_hash_node key t).head j ≡ (
        if j == hash_function t key
        then (unlink_node key (t.head (hash_function t key))).1
        else t.head j)
unfolding delete_hash_node
delete-head key j t =
    let i = hash_function t key in
    elim (Bool-cases (unlink_node key (t.head i)).0) [
      | inl found ↦ rw found
      | inr missing ↦ rw (missing, unlink_missing key (t.head i) missing) (same_entry t.head i j)
    ]

pub delete-nframes : (key : ℕ) (t : Hash) → (delete_hash_node key t).nframes ≡ t.nframes
unfolding delete_hash_node
delete-nframes key t = ground arith

-- A deletion is seen at its own page and nowhere else.
pub lookup-delete :
    (key j : ℕ) (t : Hash)
    → IsHash t
    → lookup j (delete_hash_node key t) ≡ (if key == j then none else lookup j t)
unfolding lookup hash_function
lookup-delete key j t h =
    let i = key % t.nframes in
    rw (delete-nframes key t, delete-head key (j % t.nframes) t)
      (elim (Bool-cases (j % t.nframes == i)) [
        | inl same ↦
            rw (same, eq_of_== (j % t.nframes) i same) (seek-unlink key j (t.head i) (h.distinct i))
        | inr other ↦ rw (other, key_of_bucket key j t.nframes other)
      ])

delete-counted :
    (key j : ℕ) (t : Hash)
    → IsHash t
    → (delete_hash_node key t).count j ≡ length ((delete_hash_node key t).head j)
unfolding delete_hash_node
delete-counted key j t h =
    let i = hash_function t key in
    elim (Bool-cases (unlink_node key (t.head i)).0) [
      | inl found ↦ rw found (elim (Bool-cases (j == i)) [
        | inl same ↦ rw same (ground (arith, h.counted i, length-unlink key (t.head i)))
        | inr other ↦ rw other (h.counted j)
      ])
      | inr missing ↦ rw missing (h.counted j)
    ]

pub delete-IsHash : (key : ℕ) (t : Hash) → IsHash t → IsHash (delete_hash_node key t)
delete-IsHash key t h =
    let i = hash_function t key in
    record {
      distinct = λ j. rw (delete-head key j t) (elim (Bool-cases (j == i)) [
        | inl same ↦ rw same (unlink-Distinct key (t.head i) (h.distinct i))
        | inr other ↦ rw other (h.distinct j)
      ]);
      counted = λ j. delete-counted key j t h;
    }

get_node_lem :
    (ns : List HashNode) (key p : ℕ) → seek_node key ns ≡ some p → get_node ns key ≡ some p
unfolding get_node seek_node
get_node_lem [] key p e = cc
get_node_lem (n ∷ ns) key p e = e

pub get-lookup : (key p : ℕ) (t : Hash) → lookup key t ≡ some p → get_hash_node key t ≡ some p
unfolding lookup get_hash_node seek_node
get-lookup key p t e = get_node_lem (t.head (hash_function t key)) key p e
