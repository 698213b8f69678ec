-- ===== src/Vmem/Dll/Refine.antt =====
-- The list operations of ip6/lib/vmem/page_table.c (createdllListNode, deletedllListNode) on the
-- heap do what they promise on the sequence of nodes.
use blue_bridge.Prelude.{
  ℕ, suc, ◌+◌, ◌≤◌, ◌<◌, ◌≡◌, refl, false, some, [], ◌∷◌, ◌++◌, arith, length, update,
}
use blue_bridge.Vmem.Dll.{node, Dll, load, set_prev, create_dll_list_node}
use blue_bridge.Vmem.Dll.Links.{Cells, on, first, last, Links, Below, frame}

-- `d` holds the nodes `xs`, from `head` to `tail`.
pub record IsDll (d : Dll) (xs : Cells) : Type 0 where
  pub links : Links d.cell 0 xs 0
  pub head : d.head ≡ first xs 0
  pub tail : d.tail ≡ last 0 xs
  pub count : d.count ≡ length xs
  pub below : Below d.brk xs
  pub positive : 0 < d.brk

pub not_on_of_Below : (n : ℕ) (xs : Cells) (q : ℕ) → Below n xs → n ≤ q → on q xs ≡ false
not_on_of_Below n [] q b h = refl
not_on_of_Below n ((p, k) ∷ xs) q (lt, b) h = ground (arith, not_on_of_Below n xs q b h)

Below-suc : (n : ℕ) (xs : Cells) → Below n xs → Below (suc n) xs
Below-suc n [] b = tt
Below-suc n (x ∷ xs) b = (omega arith, Below-suc n xs b.1)

pub Below-append : (n : ℕ) (xs ys : Cells) → Below n xs → Below n ys → Below n (xs ++ ys)
Below-append n [] ys b c = c
Below-append n (x ∷ xs) ys b c = (b.0, Below-append n xs ys b.1 c)

pub Below-split : (n : ℕ) (xs ys : Cells) → Below n (xs ++ ys) → Below n xs × Below n ys
Below-split n [] ys b = (tt, b)
Below-split n (x ∷ xs) ys b = let r = Below-split n xs ys b.1 in ((b.0, r.0), r.1)

-- `createdllListNode` puts a new node in front.
pub create_dll_list_node-IsDll :
    (key : ℕ) (d : Dll) (xs : Cells)
    → IsDll d xs
    → (d' : Dll) × (create_dll_list_node key d ≡ some (d.brk, d')) × IsDll d' ((d.brk, key) ∷ xs)
unfolding create_dll_list_node set_prev load
create_dll_list_node-IsDll key d [] i = (
  record {
    cell = update d.cell d.brk (some (node key d.head 0));
    brk = suc d.brk;
    head = d.brk;
    tail = d.brk;
    count = d.count + 1;
  },
  ground (arith, i.count),
  record {
    links = (ground (arith, i.positive), ground (arith, i.head), refl, tt);
    head = refl;
    tail = refl;
    count = ground (arith, i.count);
    below = (omega arith, tt);
    positive = omega arith;
  },
)
create_dll_list_node-IsDll key d ((p, k) ∷ xs) i =
    let (nz, e, out, l) = i.links in
    let off = not_on_of_Below d.brk ((p, k) ∷ xs) d.brk i.below (omega arith) in
    (
      record {
        cell =
            update (update d.cell d.brk (some (node key d.head 0))) d.head
              (some (node k (first xs 0) d.brk));
        brk = suc d.brk;
        head = d.brk;
        tail = d.tail;
        count = d.count + 1;
      },
      rw (i.count, i.head) (ground arith),
      record {
        links = (
          ground (arith, i.positive),
          ground (arith, i.head),
          off,
          (nz, ground (arith, i.head), out, frame p xs 0 (λ q o. ground (arith, i.head)) l),
        );
        head = refl;
        tail = i.tail;
        count = ground (arith, i.count);
        below = (omega arith, Below-suc d.brk ((p, k) ∷ xs) i.below);
        positive = omega arith;
      },
    )
