-- ===== src/Vmem/Rand/Laws.antt =====
-- The random policy (ip6/lib/vmem/page_table.c) as an instance of what a fault handler needs.
use native.Mathlib.Nat.{mod-lt}
use blue_bridge.Prelude.{
  ℕ, ◌+◌, ◌-◌, ◌%◌, ◌<◌, ◌≡◌, inl, inr, refl, sym, ap, ◌∙◌, subst, arith, Option, none, some, List,
  ◌∷◌, length, Bool, Bool-cases, ◌==◌, if◌then◌else◌, true, false, has, erase, IsDistinct,
  has-erase, length-erase, erase-IsDistinct, has_self, eq_of_==, ne→==, ==_refl, ==_symm, ◌>>=◌,
}
use blue_bridge.Vmem.Hash.{
  HashNode, Hash, hash_node, hash_function, seek_node, insert_hash_node, delete_hash_node,
}
use blue_bridge.Vmem.Hash.Lookup.{
  lookup, IsHash, lookup-insert, lookup-delete, insert-IsHash, delete-IsHash, push_node-head,
  push_node-nframes, delete-head, delete-nframes, seek-unlink,
}
use blue_bridge.Vmem.Policy.{Policy, Without}
use blue_bridge.Vmem.Rand.{Rand, rand_choose, rand_insert, rand_delete}
use blue_bridge.Vmem.Rand.Probe.{List-cases, probe-Probed}

-- Every node stands in the bucket of its key.
abbrev pub Homed : Hash → Type 0
Homed t = (i q : ℕ) → (i == q % t.nframes) ≡ false → seek_node q (t.head i) ≡ none

-- The entry of a page that is tracked: the list node NULL.
abbrev pub null_if : Bool → Option ℕ
null_if true = some 0
null_if false = none

pub record Holds (s : Rand) (ks : List ℕ) : Type 0 where
  pub table : IsHash s.table
  pub homed : Homed s.table
  pub some_frame : 0 < s.table.nframes
  pub distinct : IsDistinct ks
  pub count : s.count ≡ length ks
  pub tracks : (q : ℕ) → lookup q s.table ≡ null_if (has q ks)

nframes-insert : (k : ℕ) (t : Hash) → (insert_hash_node k 0 t).nframes ≡ t.nframes
unfolding insert_hash_node
nframes-insert k t = push_node-nframes (t.head (hash_function t k)) _ _ _ t

insert-Homed : (k : ℕ) (t : Hash) → Homed t → Homed (insert_hash_node k 0 t)
unfolding insert_hash_node seek_node hash_function
insert-Homed k t h i q e =
    let b = k % t.nframes in
    let away : (i == q % t.nframes) ≡ false =
      subst (λ n. (i == q % n) ≡ false) (nframes-insert k t) e in
    ap (seek_node q) (push_node-head (t.head b) (hash_node k 0) b (t.count b) i t)
    ∙ elim (Bool-cases (i == b)) [
      | inl same ↦ rw same (elim (Bool-cases (k == q)) [
        | inl key ↦ cc (away, same, ap (λ x. i == x % t.nframes) (eq_of_== k q key))
        | inr other ↦
            rw other (subst (λ x. seek_node q (t.head x) ≡ none) (eq_of_== i b same) (h i q away))
      ])
      | inr other ↦ rw other (h i q away)
    ]

if_none : (b : Bool) → ◌≡◌ {A = Option ℕ} (if b then none else none) none
if_none true = refl
if_none false = refl

delete-Homed : (k : ℕ) (t : Hash) → IsHash t → Homed t → Homed (delete_hash_node k t)
unfolding hash_function
delete-Homed k t w h i q e =
    let b = k % t.nframes in
    let away : (i == q % t.nframes) ≡ false =
      subst (λ n. (i == q % n) ≡ false) (delete-nframes k t) e in
    ap (seek_node q) (delete-head k i t) ∙ elim (Bool-cases (i == b)) [
      | inl same ↦ rw same (
          seek-unlink k q (t.head b) (w.distinct b)
          ∙ ap (λ o. if k == q then none else o)
              (subst (λ x. seek_node q (t.head x) ≡ none) (eq_of_== i b same) (h i q away))
          ∙ if_none (k == q))
      | inr other ↦ rw other (h i q away)
    ]

insert_lookup :
    (k q : ℕ) (ks : List ℕ)
    → (if k == q then null_if true else null_if (has q ks)) ≡ null_if (has q (k ∷ ks))
insert_lookup k q ks = ground (arith, ==_symm k q)

-- The operations in the terms of the interface: an insertion counts, and a deletion discounts.
unfoldable pub insert : ℕ → Rand → Option Rand
insert k s = some (record (rand_insert k s) { count = s.count + 1 })

unfoldable pub evict : Rand → Option (ℕ × Rand)
evict s = do
  (v, s') ← rand_choose s.table.nframes s
  some (v, record (rand_delete v s') { count = s'.count - 1 })

pub insert-Holds :
    (k : ℕ) (s : Rand) (ks : List ℕ)
    → Holds s ks
    → has k ks ≡ false
    → (s' : Rand) × (insert k s ≡ some s') × Holds s' (k ∷ ks)
unfolding insert rand_insert
insert-Holds k s ks h out = (
  record (rand_insert k s) { count = s.count + 1 },
  refl,
  record {
    table = insert-IsHash k 0 s.table h.table (h.tracks k ∙ ap null_if out);
    homed = insert-Homed k s.table h.homed;
    some_frame = subst (λ n. 0 < n) (sym (nframes-insert k s.table)) h.some_frame;
    distinct = (out, h.distinct);
    count = omega (arith, h.count);
    tracks = λ q.
        lookup-insert k 0 q s.table
        ∙ ap (λ o. if k == q then some 0 else o) (h.tracks q)
        ∙ insert_lookup k q ks;
  },
)

seek_first :
    (x : HashNode) (xs : List HashNode) → seek_node x.key (x ∷ xs) ≡ some x.list_node_pointer
unfolding seek_node
seek_first x xs =
    ap (λ (b : Bool). if b then some x.list_node_pointer else seek_node x.key xs) (==_refl x.key)

is_true : (b : Bool) (p : ℕ) → null_if b ≡ some p → b ≡ true
is_true true p e = refl
is_true false p e = cc

no_value {ℓ} : {A : Type ℓ} {a : A} → none ≡ some a → ⊥
no_value e = cc

-- The bucket of a page that is tracked is not empty.
bucket_of :
    (s : Rand) (ks : List ℕ) (q : ℕ)
    → Holds s ks
    → has q ks ≡ true
    → (x : HashNode) × (xs : List HashNode) × (s.table.head (q % s.table.nframes) ≡ x ∷ xs)
unfolding lookup hash_function seek_node
bucket_of s ks q h o = elim (List-cases (s.table.head (q % s.table.nframes))) [
  | inl empty ↦ absurd (no_value (sym (ap (seek_node q) empty) ∙ h.tracks q ∙ ap null_if o))
  | inr full ↦ full
]

-- The key that a probe finds is tracked.
found_tracked :
    (s : Rand) (ks : List ℕ) (i : ℕ) (x : HashNode) (xs : List HashNode)
    → Holds s ks
    → s.table.head i ≡ x ∷ xs
    → has x.key ks ≡ true
unfolding lookup hash_function seek_node
found_tracked s ks i x xs h e =
    let here : seek_node x.key (s.table.head i) ≡ some x.list_node_pointer =
      ap (seek_node x.key) e ∙ seek_first x xs in
    elim (Bool-cases (i == x.key % s.table.nframes)) [
      | inl home ↦ is_true (has x.key ks) x.list_node_pointer (
          sym (h.tracks x.key)
          ∙ ap (λ b. seek_node x.key (s.table.head b)) (sym (eq_of_== i _ home))
          ∙ here)
      | inr away ↦ absurd (no_value (sym (h.homed i x.key away) ∙ here))
    ]

null_unless : (b c : Bool) → (if b then none else null_if c) ≡ null_if (if b then false else c)
null_unless true c = refl
null_unless false c = refl

deleted :
    (v : ℕ) (s : Rand) (k : ℕ) (ks : List ℕ)
    → has v (k ∷ ks) ≡ true
    → Holds s (k ∷ ks)
    → Holds
        (record s { table = delete_hash_node v s.table; count = s.count - 1; drawn = s.drawn + 1 })
        (erase v (k ∷ ks))
deleted v s k ks o h = record {
  table = delete-IsHash v s.table h.table;
  homed = delete-Homed v s.table h.table h.homed;
  some_frame = subst (λ n. 0 < n) (sym (delete-nframes v s.table)) h.some_frame;
  distinct = erase-IsDistinct v (k ∷ ks) h.distinct;
  count = omega (arith, h.count, length-erase v (k ∷ ks) o);
  tracks = λ q.
      lookup-delete v q s.table h.table
      ∙ ap (λ r. if v == q then none else r) (h.tracks q)
      ∙ null_unless (v == q) (has q (k ∷ ks))
      ∙ ap null_if (sym (has-erase v q (k ∷ ks) h.distinct));
}

pub evict-Holds :
    (k : ℕ) (s : Rand) (ks : List ℕ)
    → Holds s (k ∷ ks)
    → (v : ℕ) × (s' : Rand) × (ks' : List ℕ) × (evict s ≡ some (v, s'))
      × Holds s' ks'
      × Without v (k ∷ ks) ks'
unfolding evict rand_choose rand_delete
evict-Holds k s ks h =
    let n = s.table.nframes in
    let (x, xs, full) = bucket_of s (k ∷ ks) k h (has_self k ks) in
    let found =
      probe-Probed n s.table.head (k % n) x xs (s.draws s.drawn % n) full (mod-lt k h.some_frame)
        (mod-lt (s.draws s.drawn) h.some_frame) in
    let v = found.node.key in
    let o = found_tracked s (k ∷ ks) found.bucket found.node found.rest h found.at_bucket in
    (
      v,
      record s { table = delete_hash_node v s.table; count = s.count - 1; drawn = s.drawn + 1 },
      erase v (k ∷ ks),
      rw (ne→== n 0 (λ e. omega (arith, e, h.some_frame))) (
          ap
            (λ (r : Option ℕ). do
              (p, s') ← (do key ← r; some (key, record s { drawn = s.drawn + 1 }))
              some (p, record (rand_delete p s') { count = s'.count - 1 }))
            found.returns),
      deleted v s k ks o h,
      (
        o,
        λ q.
            has-erase v q (k ∷ ks) h.distinct
            ∙ ap (λ b. if b then false else has q (k ∷ ks)) (==_symm v q),
        length-erase v (k ∷ ks) o,
      ),
    )

abbrev pub rand : Policy
rand = record {
  State = Rand;
  Holds = Holds;
  tracked = λ s. s.count;
  insert = insert;
  touch = λ _ s. some s;
  evict = evict;
  tracked-length = λ s ks h. h.count;
  insert-Holds = insert-Holds;
  touch-Holds = λ k s ks h o. (s, ks, refl, h, (λ q. refl, refl));
  evict-Holds = evict-Holds;
}
