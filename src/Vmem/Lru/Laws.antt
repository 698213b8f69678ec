-- ===== src/Vmem/Lru/Laws.antt =====
-- The list and the hash table of the LRU policy of ip6/lib/vmem/page_table.c stay in agreement,
-- and the operations insert in front, move to the front and take from the back.
use mathlib.Core.List.{append-nil}
use blue_bridge.Prelude.{
  ℕ, ◌≡◌, ◌≢◌, refl, sym, ap, ◌∙◌, subst, true, false, none, some, List, [], ◌∷◌, ◌++◌, arith,
  length, has, erase, IsDistinct, ◌==◌, if◌then◌else◌, ne→==, Bool-cases, inl, inr, eq_of_==,
}
use blue_bridge.Vmem.Dll.{Dll, Node, node, load, deletedll_list_node}
use blue_bridge.Vmem.Dll.Links.{Cells, last, last-append}
use blue_bridge.Vmem.Dll.Parts.{parts}
use blue_bridge.Vmem.Dll.Refine.{IsDll, create_dll_list_node-IsDll}
use blue_bridge.Vmem.Dll.Remove.{load_lem, deletedll_list_node-IsDll, move_list_node_to_front-IsDll}
use blue_bridge.Vmem.Hash.{Hash, insert_hash_node, delete_hash_node}
use blue_bridge.Vmem.Hash.Lookup.{
  lookup, IsHash, no_nodes-IsHash, lookup-no_nodes, lookup-insert, insert-IsHash, lookup-delete,
  delete-IsHash, get-lookup,
}
use blue_bridge.Vmem.Lru.{Lru, init_lru, lru_insert, lru_touch, delete_lru, ffifo_evict}
use blue_bridge.Vmem.Lru.Order.{
  keys, keys-append, ptr_of, ptr_of_cons, ptr_of_nil, ptr_of_missing, length-keys, ptr_of_middle,
  IsDistinct-middle, erase_middle, find_node, last_node,
}

-- The list holds the nodes `xs`, and the table finds the node of each page.
pub record Tracks (s : Lru) (xs : Cells) : Type 0 where
  pub list : IsDll s.list xs
  pub table : IsHash s.table
  pub agree : (j : ℕ) → lookup j s.table ≡ ptr_of j xs
  pub distinct : IsDistinct (keys xs)

-- The pages tracked, newest first.
pub record Holds (s : Lru) (ks : List ℕ) : Type 0 where
  pub nodes : Cells
  pub tracks : Tracks s nodes
  pub pages : keys nodes ≡ ks

pub init_lru-Holds : (n : ℕ) → Holds (init_lru n) []
unfolding init_lru
init_lru-Holds n = record {
  nodes = [];
  tracks = record {
    list = record {
      links = tt;
      head = refl;
      tail = refl;
      count = refl;
      below = tt;
      positive = omega arith;
    };
    table = no_nodes-IsHash n;
    agree = λ j. lookup-no_nodes n j ∙ sym (ptr_of_nil j);
    distinct = tt;
  };
  pages = refl;
}

pub count-Holds : (s : Lru) (ks : List ℕ) → Holds s ks → s.list.count ≡ length ks
count-Holds s ks h = h.tracks.list.count ∙ sym (length-keys h.nodes) ∙ ap length h.pages

-- An insertion of a page that is not tracked puts it in front.
pub lru_insert-Holds :
    (k : ℕ) (s : Lru) (ks : List ℕ)
    → Holds s ks
    → has k ks ≡ false
    → (s' : Lru) × (lru_insert k s ≡ some s') × Holds s' (k ∷ ks)
unfolding lru_insert
lru_insert-Holds k s ks h out =
    let t = h.tracks in
    let (d, e, is) = create_dll_list_node-IsDll k s.list h.nodes t.list in
    let p = s.list.brk in
    let off = subst (λ x. has k x ≡ false) (sym h.pages) out in
    let absent = t.agree k ∙ ptr_of_missing k h.nodes off in
    (
      record { list = d; table = insert_hash_node k p s.table },
      rw e,
      record {
        nodes = (p, k) ∷ h.nodes;
        tracks = record {
          list = is;
          table = insert-IsHash k p s.table t.table absent;
          agree =
              λ j. rw (lookup-insert k p j s.table, t.agree j) (sym (ptr_of_cons j p k h.nodes));
          distinct = (off, t.distinct);
        };
        pages = ap (◌∷◌ k) h.pages;
      },
    )

-- A touch of a tracked page moves it in front of the others.
pub lru_touch-Holds :
    (k : ℕ) (s : Lru) (ks : List ℕ)
    → Holds s ks
    → has k ks ≡ true
    → (s' : Lru) × (lru_touch k s ≡ some s') × Holds s' (k ∷ erase k ks)
unfolding lru_touch
lru_touch-Holds k s ks h found =
    let t = h.tracks in
    let (p, xs, ys, e, f) = find_node k h.nodes (subst (λ x. has k x ≡ true) (sym h.pages) found) in
    let is = subst (IsDll s.list) e t.list in
    let (out, rest) = IsDistinct-middle p k xs ys (subst (λ z. IsDistinct (keys z)) e t.distinct) in
    let (d, e', is') = move_list_node_to_front-IsDll p k s.list xs ys is in
    (
      record s { list = d },
      rw (get-lookup k p s.table (t.agree k ∙ f), e'),
      record {
        nodes = (p, k) ∷ xs ++ ys;
        tracks = record {
          list = is';
          table = t.table;
          agree = λ j.
              t.agree j
              ∙ ap (ptr_of j) e
              ∙ ptr_of_middle p k j xs ys out
              ∙ sym (ptr_of_cons j p k (xs ++ ys));
          distinct = (out, rest);
        };
        pages = ap (◌∷◌ k) (
            sym (erase_middle p k xs ys out)
            ∙ ap (λ z. erase k (keys z)) (sym e)
            ∙ ap (erase k) h.pages);
      },
    )

-- With a tail there, deleteLRU does what FFIFO_page_fault_handler does to its list.
delete_lru-ffifo : (page : ℕ) (s : Lru) → s.list.tail ≢ 0 → delete_lru page s ≡ ffifo_evict s
unfolding delete_lru ffifo_evict
delete_lru-ffifo page s nz = rw (ne→== s.list.tail 0 nz)

-- The node at `tail` holds the oldest page, and is never NULL while a page is tracked.
record Oldest (s : Lru) (ks : List ℕ) : Type 0 where
  victim : ℕ
  rest : List ℕ
  after : Lru
  split : ks ≡ rest ++ victim ∷ []
  ne_null : s.list.tail ≢ 0
  run : ffifo_evict s ≡ some (victim, after)
  holds : Holds after rest

evict_run :
    (s : Lru) (n : Node) (d : Dll)
    → load s.list.tail s.list ≡ some n
    → deletedll_list_node s.list.tail s.list ≡ some d
    → ffifo_evict s ≡ some (n.key, record { list = d; table = delete_hash_node n.key s.table })
unfolding ffifo_evict
evict_run s n d e e' = rw (e, e')

agree_without :
    (k j p : ℕ) (xs : Cells) (t : Hash)
    → lookup j t ≡ (if k == j then some p else ptr_of j xs)
    → has k (keys xs) ≡ false
    → (if k == j then none else lookup j t) ≡ ptr_of j xs
agree_without k j p xs t e out = elim (Bool-cases (k == j)) [
  | inl same ↦ rw (same, ← eq_of_== k j same) (sym (ptr_of_missing k xs out))
  | inr other ↦ rw other (e ∙ (rw other))
]

Oldest-at :
    (s : Lru) (p k : ℕ) (xs : Cells) → Tracks s (xs ++ (p, k) ∷ []) → Oldest s (keys xs ++ k ∷ [])
unfolding ffifo_evict
Oldest-at s p k xs t =
    let c = parts s.list.cell p k xs [] t.list.links in
    let (d, e, is, freed) = deletedll_list_node-IsDll p k s.list xs [] t.list in
    let at : s.list.tail ≡ p = t.list.tail ∙ last-append 0 xs ((p, k) ∷ []) in
    let (out, dis) = IsDistinct-middle p k xs [] t.distinct in
    let is' = subst (IsDll d) (append-nil xs) is in
    record {
      victim = k;
      rest = keys xs;
      after = record { list = d; table = delete_hash_node k s.table };
      split = refl;
      ne_null = rw at c.ne_zero;
      run =
          evict_run s (node k 0 (last 0 xs)) d
            (ap (λ q. load q s.list) at ∙ load_lem p k 0 (last 0 xs) s.list c.ne_zero c.holds)
            (ap (λ q. deletedll_list_node q s.list) at ∙ e);
      holds = record {
        nodes = xs;
        tracks = record {
          list = is';
          table = delete-IsHash k s.table t.table;
          agree = λ j.
              lookup-delete k j s.table t.table
              ∙ agree_without k j p xs s.table
                  (t.agree j
                    ∙ ptr_of_middle p k j xs [] out
                    ∙ ap (λ z. if k == j then some p else ptr_of j z) (append-nil xs))
                  (subst (λ z. has k (keys z) ≡ false) (append-nil xs) out);
          distinct = subst (λ z. IsDistinct (keys z)) (append-nil xs) dis;
        };
        pages = refl;
      };
    }

oldest : (s : Lru) (k : ℕ) (ks : List ℕ) → Holds s (k ∷ ks) → Oldest s (k ∷ ks)
oldest s k ks h = go h.nodes h.tracks h.pages
  where
    at_last : (c : ℕ × ℕ) (cs : Cells) → Tracks s (c ∷ cs) → Oldest s (keys (c ∷ cs))
    at_last c cs t =
        let (p, j, xs, e) = last_node c cs in
        subst (Oldest s) (sym (ap keys e ∙ keys-append xs ((p, j) ∷ [])))
          (Oldest-at s p j xs (subst (Tracks s) e t))

    go : (xs : Cells) → Tracks s xs → keys xs ≡ k ∷ ks → Oldest s (k ∷ ks)
    go [] t e = cc
    go (c ∷ cs) t e = subst (Oldest s) e (at_last c cs t)

-- FFIFO evicts the oldest page, and never reads through NULL while a page is tracked.
pub ffifo_evict-Holds :
    (k : ℕ) (s : Lru) (ks : List ℕ)
    → Holds s (k ∷ ks)
    → (v : ℕ) × (rest : List ℕ) × (s' : Lru) × (k ∷ ks ≡ rest ++ v ∷ [])
      × (ffifo_evict s ≡ some (v, s'))
      × Holds s' rest
ffifo_evict-Holds k s ks h =
    let o = oldest s k ks h in (o.victim, o.rest, o.after, o.split, o.run, o.holds)

-- `deleteLRU` does too, and overwrites what its argument pointed at.
pub delete_lru-Holds :
    (page k : ℕ) (s : Lru) (ks : List ℕ)
    → Holds s (k ∷ ks)
    → (v : ℕ) × (rest : List ℕ) × (s' : Lru) × (k ∷ ks ≡ rest ++ v ∷ [])
      × (delete_lru page s ≡ some (v, s'))
      × Holds s' rest
delete_lru-Holds page k s ks h =
    let o = oldest s k ks h in
    (o.victim, o.rest, o.after, o.split, delete_lru-ffifo page s o.ne_null ∙ o.run, o.holds)

pub Holds-IsDistinct : (s : Lru) (ks : List ℕ) → Holds s ks → IsDistinct ks
Holds-IsDistinct s ks h = subst IsDistinct h.pages h.tracks.distinct
