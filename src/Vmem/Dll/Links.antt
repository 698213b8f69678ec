-- ===== src/Vmem/Dll/Links.antt =====
-- Segments of a doubly linked list, and what a write to one `next` or `prev` does to them.
use blue_bridge.Prelude.{
  ℕ, ◌<◌, ◌≡◌, ◌≢◌, refl, ap, inl, inr, Bool-cases, eq_of_==, Bool, true, false, ◌||◌, some, List,
  [], ◌∷◌, ◌++◌, arith, update, ◌==◌,
}
use blue_bridge.Vmem.Dll.{Node, node, Heap, Dll, relink_next, relink_prev}

-- Address and key of each node, in order.
abbrev pub Cells : Type 0
Cells = List (ℕ × ℕ)

abbrev pub on : ℕ → Cells → Bool
on a [] = false
on a ((p, _) ∷ xs) = (a == p) || on a xs

abbrev pub first : Cells → ℕ → ℕ
first [] a = a
first ((p, _) ∷ _) a = p

abbrev pub last : ℕ → Cells → ℕ
last b [] = b
last b ((p, _) ∷ xs) = last p xs

-- The nodes `xs`, distinct, linked both ways, between `b` and `a`.
abbrev pub Links : Heap → ℕ → Cells → ℕ → Type 0
Links h b [] a = Unit {0}
Links h b ((p, k) ∷ xs) a =
    (p ≢ 0) × (h p ≡ some (node k (first xs a) b)) × (on p xs ≡ false) × Links h p xs a

abbrev pub Apart : Cells → Cells → Type 0
Apart xs ys = (q : ℕ) → on q xs ≡ true → on q ys ≡ false

abbrev pub Below : ℕ → Cells → Type 0
Below n [] = Unit {0}
Below n ((p, _) ∷ xs) = (p < n) × Below n xs

pub frame :
    {h g : Heap} (b : ℕ) (xs : Cells) (a : ℕ)
    → ((q : ℕ) → on q xs ≡ true → g q ≡ h q)
    → Links h b xs a
    → Links g b xs a
frame b [] a same l = tt
frame b ((p, k) ∷ xs) a same (nz, e, out, l) =
    (nz, ground (arith, same p), out, frame p xs a (λ q o. same q (ground arith)) l)

pub on-ne_zero : (h : Heap) (b : ℕ) (xs : Cells) (a q : ℕ) → Links h b xs a → on q xs ≡ true → q ≢ 0
on-ne_zero h b [] a q l o = absurd (ground arith)
on-ne_zero h b ((p, k) ∷ xs) a q (nz, e, out, l) o = ground (arith, on-ne_zero h p xs a q l)

pub on-append : (q : ℕ) (xs ys : Cells) → on q (xs ++ ys) ≡ (on q xs || on q ys)
on-append q [] ys = refl
on-append q (x ∷ xs) ys = ground (arith, on-append q xs ys)

pub last-append : (b : ℕ) (xs ys : Cells) → last b (xs ++ ys) ≡ last (last b xs) ys
last-append b [] ys = refl
last-append b ((p, k) ∷ xs) ys = last-append p xs ys

pub first-append : (xs ys : Cells) (a : ℕ) → first (xs ++ ys) a ≡ first xs (first ys a)
first-append [] ys a = refl
first-append (x ∷ xs) ys a = refl

-- A nonempty segment contains its last node.
pub on-last : (p k : ℕ) (xs : Cells) → on (last p xs) ((p, k) ∷ xs) ≡ true
on-last p k [] = ground arith
on-last p k ((q, j) ∷ xs) = ground (arith, on-last q j xs)

-- A node off the list differs from a node on it.
pub ne_of_on : (p r : ℕ) (xs : Cells) → on p xs ≡ false → on r xs ≡ true → (p == r) ≡ false
ne_of_on p r xs out o = elim (Bool-cases (p == r)) [
  | inl e ↦ cc (ap (λ x. on x xs) (eq_of_== p r e))
  | inr e ↦ e
]

pub Links-split :
    (h : Heap) (b : ℕ) (xs ys : Cells) (a : ℕ)
    → Links h b (xs ++ ys) a
    → Links h b xs (first ys a) × Links h (last b xs) ys a × Apart xs ys
Links-split h b [] ys a l = (tt, l, λ q o. absurd (ground arith))
Links-split h b ((p, k) ∷ xs) ys a (nz, e, out, l) =
    let (l1, l2, apart) = Links-split h p xs ys a l in
    (
      (nz, ground (arith, first-append xs ys a), ground (arith, on-append p xs ys), l1),
      l2,
      λ q o. ground (arith, apart q, on-append p xs ys),
    )

pub Links-join :
    (h : Heap) (b : ℕ) (xs ys : Cells) (a : ℕ)
    → Links h b xs (first ys a)
    → Links h (last b xs) ys a
    → Apart xs ys
    → Links h b (xs ++ ys) a
Links-join h b [] ys a l1 l2 apart = l2
Links-join h b ((p, k) ∷ xs) ys a (nz, e, out, l1) l2 apart = (
  nz,
  ground (arith, first-append xs ys a),
  ground (arith, on-append p xs ys, apart p),
  Links-join h p xs ys a l1 l2 (λ q o. apart q (ground arith)),
)

-- The last node is given another successor.
Links-set_next :
    (h : Heap) (b p k : ℕ) (xs : Cells) (a c : ℕ)
    → Links h b ((p, k) ∷ xs) a
    → (n : Node) × (h (last p xs) ≡ some n)
      × Links (update h (last p xs) (some (record n { next = c }))) b ((p, k) ∷ xs) c
Links-set_next h b p k [] a c (nz, e, out, l) = (node k a b, e, (nz, ground arith, refl, tt))
Links-set_next h b p k ((q, j) ∷ xs) a c (nz, e, out, l) =
    let (n, e', l') = Links-set_next h p q j xs a c l in
    (n, e', (nz, rw (ne_of_on p (last q xs) ((q, j) ∷ xs) out (on-last q j xs)) e, out, l'))

abbrev pub SameBut : ℕ → Heap → Heap → Type 0
SameBut p h g = (q : ℕ) → (q == p) ≡ false → g q ≡ h q

pub relink_next-Links :
    (d : Dll) (xs : Cells) (a c : ℕ)
    → Links d.cell 0 xs a
    → (g : Heap) × (relink_next (last 0 xs) c d ≡ some (record d { cell = g }))
      × Links g 0 xs c
      × SameBut (last 0 xs) d.cell g
unfolding relink_next
relink_next-Links d [] a c l = (d.cell, refl, tt, λ q o. refl)
relink_next-Links d ((p, k) ∷ xs) a c l =
    let (n, e, l') = Links-set_next d.cell 0 p k xs a c l in
    let nz = on-ne_zero d.cell 0 ((p, k) ∷ xs) a (last p xs) l (on-last p k xs) in
    (
      update d.cell (last p xs) (some (record n { next = c })),
      ground arith,
      l',
      λ q o. ground arith,
    )

-- The first node is given another predecessor.
pub relink_prev-Links :
    (d : Dll) (b : ℕ) (xs : Cells) (c : ℕ)
    → Links d.cell b xs 0
    → (g : Heap) × (relink_prev (first xs 0) c d ≡ some (record d { cell = g }))
      × Links g c xs 0
      × SameBut (first xs 0) d.cell g
unfolding relink_prev
relink_prev-Links d b [] c l = (d.cell, refl, tt, λ q o. refl)
relink_prev-Links d b ((p, k) ∷ xs) c (nz, e, out, l) = (
  update d.cell p (some (node k (first xs 0) c)),
  ground arith,
  (nz, ground arith, out, frame p xs 0 (λ q o. ground arith) l),
  λ q o. ground arith,
)
