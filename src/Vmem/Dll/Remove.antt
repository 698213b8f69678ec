-- ===== src/Vmem/Dll/Remove.antt =====
-- deletedllListNode and moveListNodeToFront of ip6/lib/vmem/page_table.c on the sequence of nodes.
use blue_bridge.Prelude.{
  ℕ, suc, ◌-◌, ◌≡◌, ◌≢◌, ◌∙◌, refl, sym, false, none, some, [], ◌∷◌, ◌++◌, arith, length, update,
  if◌then◌else◌, ◌==◌, update_self, subst, lt→ltb,
}
use blue_bridge.Vmem.Dll.{
  Heap, Node, node, Dll, load, set_next, set_prev, deletedll_list_node, move_list_node_to_front,
}
use blue_bridge.Vmem.Dll.Links.{
  Cells, on, first, last, Links, frame, on-append, on-last, ne_of_on, last-append,
}
use blue_bridge.Vmem.Dll.Parts.{parts, unlink}
use blue_bridge.Vmem.Dll.Refine.{IsDll, Below-append, Below-split}

pub load_lem :
    (p k n r : ℕ) (d : Dll) → p ≢ 0 → d.cell p ≡ some (node k n r) → load p d ≡ some (node k n r)
unfolding load
load_lem p k n r d nz e = ground arith

set_next_lem :
    (p q k n r : ℕ) (d : Dll)
    → p ≢ 0
    → d.cell p ≡ some (node k n r)
    → set_next p q d ≡ some (record d { cell = update d.cell p (some (node k q r)) })
unfolding set_next
set_next_lem p q k n r d nz e = rw (load_lem p k n r d nz e)

set_prev_lem :
    (p q k n r : ℕ) (d : Dll)
    → p ≢ 0
    → d.cell p ≡ some (node k n r)
    → set_prev p q d ≡ some (record d { cell = update d.cell p (some (node k n q)) })
unfolding set_prev
set_prev_lem p q k n r d nz e = rw (load_lem p k n r d nz e)

off_both : (p : ℕ) (xs ys : Cells) → on p xs ≡ false → on p ys ≡ false → on p (xs ++ ys) ≡ false
off_both p xs ys o o' = rw (on-append p xs ys, o) o'

apart_of_on : (p q j : ℕ) (xs : Cells) → on p ((q, j) ∷ xs) ≡ false → (q == p) ≡ false
apart_of_on p q j xs o = ground arith

head_without :
    (p k hd : ℕ) (xs ys : Cells)
    → hd ≡ first (xs ++ (p, k) ∷ ys) 0
    → on p xs ≡ false
    → (if p == hd then first ys 0 else hd) ≡ first (xs ++ ys) 0
head_without p k hd [] ys e out = ground arith
head_without p k hd (x ∷ xs) ys e out = ground arith

tail_without :
    (p k tl : ℕ) (xs ys : Cells)
    → tl ≡ last 0 (xs ++ (p, k) ∷ ys)
    → on p ys ≡ false
    → (if p == tl then last 0 xs else tl) ≡ last 0 (xs ++ ys)
tail_without p k tl xs [] e out =
    ground (arith, last-append 0 xs ((p, k) ∷ []), last-append 0 xs [])
tail_without p k tl xs ((q, j) ∷ ys) e out =
    let same = e ∙ last-append 0 xs ((p, k) ∷ (q, j) ∷ ys) in
    let off = ne_of_on p (last q ys) ((q, j) ∷ ys) out (on-last q j ys) in
    rw (same, off) (sym (last-append 0 xs ((q, j) ∷ ys)))

length_without : (c : ℕ × ℕ) (xs ys : Cells) → length (xs ++ c ∷ ys) ≡ suc (length (xs ++ ys))
length_without c [] ys = refl
length_without c (x ∷ xs) ys = omega (arith, length_without c xs ys)

-- `deletedllListNode` takes exactly its node out, and frees it.
pub deletedll_list_node-IsDll :
    (p k : ℕ) (d : Dll) (xs ys : Cells)
    → IsDll d (xs ++ (p, k) ∷ ys)
    → (d' : Dll) × (deletedll_list_node p d ≡ some d') × IsDll d' (xs ++ ys) × (d'.cell p ≡ none)
unfolding deletedll_list_node
deletedll_list_node-IsDll p k d xs ys i =
    let c = parts d.cell p k xs ys i.links in
    let hd = if p == d.head then first ys 0 else d.head in
    let tl = if p == d.tail then last 0 xs else d.tail in
    let d2 : Dll = record d { head = hd; tail = tl } in
    let (g1, g2, e1, s1, e2, j) = unlink d2 p k xs ys c in
    let below = Below-split d.brk xs ((p, k) ∷ ys) i.below in
    (
      record { cell = update g2 p none; brk = d.brk; head = hd; tail = tl; count = d.count - 1 },
      rw (
        load_lem p k (first ys 0) (last 0 xs) d c.ne_zero c.holds,
        e1,
        load_lem p k (first ys 0) (last 0 xs) (record d2 { cell = g1 }) c.ne_zero (s1 ∙ c.holds),
        e2,
      ),
      record {
        links =
            frame 0 (xs ++ ys) 0
              (λ q o.
                ground (arith, on-append p xs ys, ne_of_on p q (xs ++ ys), c.not_front, c.not_back))
              j.joined;
        head = head_without p k d.head xs ys i.head c.not_front;
        tail = tail_without p k d.tail xs ys i.tail c.not_back;
        count = omega (arith, i.count, length_without (p, k) xs ys);
        below = Below-append d.brk xs ys below.0 below.1.1;
        positive = i.positive;
      },
      update_self g2 p none,
    )

-- The writes that put `p` before the first node `q`.
tail_swap : (p tl l : ℕ) → (if tl == p then l else tl) ≡ (if p == tl then l else tl)
tail_swap p tl l = ground arith

push_front :
    (g : Heap) (p k q j : ℕ) (n : Node) (zs : Cells)
    → Links g 0 ((q, j) ∷ zs) 0
    → p ≢ 0
    → on p ((q, j) ∷ zs) ≡ false
    → Links
        (update
          (update (update g p (some n)) p (some (node k q 0)))
          q
          (some (node j (first zs 0) p)))
        0
        ((p, k) ∷ (q, j) ∷ zs)
        0
push_front g p k q j n zs (qnz, e, out, l) nz off = (
  nz,
  ground arith,
  off,
  (qnz, ground arith, out, frame q zs 0 (λ r o. ground (arith, ne_of_on p r zs)) l),
)

abbrev Moved : ℕ → ℕ → Cells → Cells → Dll → Type 0
Moved p k xs ys d =
    IsDll d (xs ++ (p, k) ∷ ys)
    → (d' : Dll) × (move_list_node_to_front p d ≡ some d') × IsDll d' ((p, k) ∷ xs ++ ys)

move_behind :
    (p k q j : ℕ) (d : Dll) (xs ys : Cells) → Moved p k ((q, j) ∷ xs) ys (record d { head = q })
unfolding move_list_node_to_front
move_behind p k q j d xs ys i =
    let c = parts d.cell p k ((q, j) ∷ xs) ys i.links in
    let d0 : Dll = record d { head = q } in
    let (g1, g2, e1, s1, e2, u) = unlink d0 p k ((q, j) ∷ xs) ys c in
    let (qnz, eq, out, rest) = u.joined in
    let l = last q xs in
    let tl = if d.tail == p then l else d.tail in
    let h3 = update g2 p (some (node k q l)) in
    let h5 = update h3 p (some (node k q 0)) in
    let d2 : Dll = record d0 { cell = g2 } in
    let d3 : Dll = record d0 { cell = h3 } in
    let d4 : Dll = record d0 { cell = h3; tail = tl } in
    let d5 : Dll = record d0 { cell = h5; tail = tl } in
    let held = u.same ∙ c.holds in
    let off : on p ((q, j) ∷ xs ++ ys) ≡ false =
      off_both p ((q, j) ∷ xs) ys c.not_front c.not_back in
    let below = Below-split d.brk ((q, j) ∷ xs) ((p, k) ∷ ys) i.below in
    let apart : (q == p) ≡ false = apart_of_on p q j (xs ++ ys) off in
    (
      record d5 { cell = update h5 q (some (node j (first (xs ++ ys) 0) p)); head = p },
      rw (
        apart,
        load_lem p k (first ys 0) l d0 c.ne_zero c.holds,
        e1,
        load_lem p k (first ys 0) l (record d0 { cell = g1 }) c.ne_zero (s1 ∙ c.holds),
        e2,
        set_next_lem p q k (first ys 0) l d2 c.ne_zero held,
        load_lem p k q l d3 c.ne_zero (update_self g2 p _),
        set_prev_lem p 0 k q l d4 c.ne_zero (update_self g2 p _),
        lt→ltb 1 d.count (omega (arith, i.count, length_without (p, k) xs ys)),
        set_prev_lem q p j (first (xs ++ ys) 0) 0 d5 qnz (rw apart eq),
      ),
      record {
        links = push_front g2 p k q j (node k q l) (xs ++ ys) u.joined c.ne_zero off;
        head = refl;
        tail =
            rw (tail_swap p d.tail l) (tail_without p k d.tail ((q, j) ∷ xs) ys i.tail c.not_back);
        count = omega (arith, i.count, length_without (p, k) ((q, j) ∷ xs) ys);
        below = (below.1.0, Below-append d.brk ((q, j) ∷ xs) ys below.0 below.1.1);
        positive = i.positive;
      },
    )

-- `moveListNodeToFront` moves exactly its node, and keeps the order of the others.
pub move_list_node_to_front-IsDll :
    (p k : ℕ) (d : Dll) (xs ys : Cells)
    → IsDll d (xs ++ (p, k) ∷ ys)
    → (d' : Dll) × (move_list_node_to_front p d ≡ some d') × IsDll d' ((p, k) ∷ xs ++ ys)
unfolding move_list_node_to_front
move_list_node_to_front-IsDll p k d [] ys i = (d, ground (arith, i.head), i)
move_list_node_to_front-IsDll p k d ((q, j) ∷ xs) ys i =
    subst (λ x. Moved p k ((q, j) ∷ xs) ys (record d { head = x })) (sym i.head)
      (move_behind p k q j d xs ys) i
