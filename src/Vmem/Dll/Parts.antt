-- ===== src/Vmem/Dll/Parts.antt =====
-- A node of the list of ip6/lib/vmem/page_table.c between its neighbours, and what joining the
-- neighbours leaves.
use blue_bridge.Prelude.{
  ℕ, ◌≡◌, ◌≢◌, ◌∙◌, inl, inr, true, false, some, [], ◌∷◌, ◌++◌, arith, Bool-cases, ◌==◌, ne→==,
}
use blue_bridge.Vmem.Dll.{Heap, node, Dll, relink_next, relink_prev}
use blue_bridge.Vmem.Dll.Links.{
  Cells, on, first, last, Links, Apart, frame, on-ne_zero, on-last, ne_of_on, Links-split,
  Links-join, relink_next-Links, relink_prev-Links,
}

off-last : (p : ℕ) (xs : Cells) → p ≢ 0 → on p xs ≡ false → (p == last 0 xs) ≡ false
off-last p [] nz out = ne→== p 0 nz
off-last p ((q, j) ∷ xs) nz out = ne_of_on p (last q xs) ((q, j) ∷ xs) out (on-last q j xs)

off-first : (p : ℕ) (xs : Cells) → p ≢ 0 → on p xs ≡ false → (p == first xs 0) ≡ false
off-first p [] nz out = ne→== p 0 nz
off-first p ((q, j) ∷ xs) nz out = ground arith

-- The node `p` between the nodes `xs` and `ys`.
pub record Parts (h : Heap) (p k : ℕ) (xs ys : Cells) : Type 0 where
  pub front : Links h 0 xs p
  pub ne_zero : p ≢ 0
  pub holds : h p ≡ some (node k (first ys 0) (last 0 xs))
  pub back : Links h p ys 0
  pub not_front : on p xs ≡ false
  pub not_back : on p ys ≡ false
  pub apart : Apart xs ys
  pub last_ne : (p == last 0 xs) ≡ false
  pub first_ne : (p == first ys 0) ≡ false
  pub last_apart : (q : ℕ) → on q ys ≡ true → (q == last 0 xs) ≡ false
  pub first_apart : (q : ℕ) → on q xs ≡ true → (q == first ys 0) ≡ false

pub parts :
    (h : Heap) (p k : ℕ) (xs ys : Cells) → Links h 0 (xs ++ (p, k) ∷ ys) 0 → Parts h p k xs ys
parts h p k xs ys l =
    let (f, (nz, e, out, b), apart) = Links-split h 0 xs ((p, k) ∷ ys) 0 l in
    let not_front : on p xs ≡ false = elim (Bool-cases (on p xs)) [
      | inl o ↦ absurd (ground (arith, apart p))
      | inr o ↦ o
    ] in
    let apart' : Apart xs ys = λ q o. ground (arith, apart q) in
    record {
      front = f;
      ne_zero = nz;
      holds = e;
      back = b;
      not_front = not_front;
      not_back = out;
      apart = apart';
      last_ne = off-last p xs nz not_front;
      first_ne = off-first p ys nz out;
      last_apart = λ q o. off-last q xs (on-ne_zero h p ys 0 q b o) (ground (arith, apart' q));
      first_apart = λ q o. off-first q ys (on-ne_zero h 0 xs p q f o) (apart' q o);
    }

-- What `relink_next` and `relink_prev` make of the neighbours of `p`: they are joined, and `p`
-- keeps its cell.
pub record Joined (h g : Heap) (p : ℕ) (xs ys : Cells) : Type 0 where
  pub joined : Links g 0 (xs ++ ys) 0
  pub same : g p ≡ h p

pub unlink :
    (d : Dll) (p k : ℕ) (xs ys : Cells)
    → Parts d.cell p k xs ys
    → (g1 g2 : Heap) × (relink_next (last 0 xs) (first ys 0) d ≡ some (record d { cell = g1 }))
      × (g1 p ≡ d.cell p)
      × (relink_prev (first ys 0) (last 0 xs) (record d { cell = g1 })
          ≡ some (record d { cell = g2 }))
      × Joined d.cell g2 p xs ys
unlink d p k xs ys c =
    let (g1, e1, l1, s1) = relink_next-Links d xs p (first ys 0) c.front in
    let l2 = frame p ys 0 (λ q o. s1 q (c.last_apart q o)) c.back in
    let (g2, e2, l3, s2) = relink_prev-Links (record d { cell = g1 }) p ys (last 0 xs) l2 in
    (
      g1,
      g2,
      e1,
      s1 p c.last_ne,
      e2,
      record {
        joined =
            Links-join g2 0 xs ys 0 (frame 0 xs (first ys 0) (λ q o. s2 q (c.first_apart q o)) l1)
              l3 c.apart;
        same = s2 p c.first_ne ∙ s1 p c.last_ne;
      },
    )
