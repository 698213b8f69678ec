-- ===== src/Vmem/Lru/Order.antt =====
-- The sequence of nodes of the LRU list as a finite map from pages to nodes.
use blue_bridge.Prelude.{
  ℕ, ◌≡◌, refl, true, false, ◌||◌, Option, none, some, List, [], ◌∷◌, ◌++◌, arith, length, ap, has,
  erase, IsDistinct, ◌==◌, if◌then◌else◌, Bool-cases, inl, inr,
}
use blue_bridge.Vmem.Dll.Links.{Cells}

abbrev pub keys : Cells → List ℕ
keys [] = []
keys ((_, k) ∷ xs) = k ∷ keys xs

pub ptr_of : ℕ → Cells → Option ℕ
ptr_of j [] = none
ptr_of j ((p, k) ∷ xs) = if k == j then some p else ptr_of j xs

pub ptr_of_cons :
    (j p k : ℕ) (xs : Cells) → ptr_of j ((p, k) ∷ xs) ≡ (if k == j then some p else ptr_of j xs)
unfolding ptr_of
ptr_of_cons j p k xs = refl

pub ptr_of_nil : (j : ℕ) → ptr_of j [] ≡ none
unfolding ptr_of
ptr_of_nil j = refl

pub ptr_of_missing : (j : ℕ) (xs : Cells) → has j (keys xs) ≡ false → ptr_of j xs ≡ none
unfolding ptr_of
ptr_of_missing j [] h = refl
ptr_of_missing j ((p, k) ∷ xs) h = ground (arith, ptr_of_missing j xs)

pub length-keys : (xs : Cells) → length (keys xs) ≡ length xs
length-keys [] = refl
length-keys (x ∷ xs) = omega (arith, length-keys xs)

pub keys-append : (xs ys : Cells) → keys (xs ++ ys) ≡ keys xs ++ keys ys
keys-append [] ys = refl
keys-append ((p, k) ∷ xs) ys = ap (◌∷◌ k) (keys-append xs ys)

module _ (p k : ℕ) where
  pub ptr_of_middle :
      (j : ℕ) (xs ys : Cells)
      → has k (keys (xs ++ ys)) ≡ false
      → ptr_of j (xs ++ (p, k) ∷ ys) ≡ (if k == j then some p else ptr_of j (xs ++ ys))
  unfolding ptr_of
  ptr_of_middle j [] ys h = refl
  ptr_of_middle j ((q, i) ∷ xs) ys h = ground (arith, ptr_of_middle j xs ys)

  pub has-middle :
      (j : ℕ) (xs ys : Cells)
      → has j (keys (xs ++ (p, k) ∷ ys)) ≡ ((j == k) || has j (keys (xs ++ ys)))
  has-middle j [] ys = refl
  has-middle j (x ∷ xs) ys = ground (arith, has-middle j xs ys)

  pub IsDistinct-middle :
      (xs ys : Cells)
      → IsDistinct (keys (xs ++ (p, k) ∷ ys))
      → (has k (keys (xs ++ ys)) ≡ false) × IsDistinct (keys (xs ++ ys))
  IsDistinct-middle [] ys d = d
  IsDistinct-middle ((q, i) ∷ xs) ys d =
      let (out, d') = IsDistinct-middle xs ys d.1 in ground (arith, has-middle i xs ys)

  pub erase_middle :
      (xs ys : Cells)
      → has k (keys (xs ++ ys)) ≡ false
      → erase k (keys (xs ++ (p, k) ∷ ys)) ≡ keys (xs ++ ys)
  erase_middle [] ys h = ground arith
  erase_middle ((q, i) ∷ xs) ys h = ground (arith, erase_middle xs ys)

-- A tracked page has a node somewhere in the list.
pub find_node :
    (k : ℕ) (zs : Cells)
    → has k (keys zs) ≡ true
    → (p : ℕ) × (xs ys : Cells) × (zs ≡ xs ++ (p, k) ∷ ys) × (ptr_of k zs ≡ some p)
unfolding ptr_of
find_node k [] h = cc
find_node k ((p, i) ∷ zs) h = elim (Bool-cases (k == i)) [
  | inl same ↦ (p, [], zs, ground arith, ground arith)
  | inr other ↦
      let (q, xs, ys, e, f) = find_node k zs (ground arith) in
      (q, (p, i) ∷ xs, ys, ap (◌∷◌ (p, i)) e, ground arith)
]

-- A nonempty list has a last node.
pub last_node : (c : ℕ × ℕ) (cs : Cells) → (p k : ℕ) × (xs : Cells) × (c ∷ cs ≡ xs ++ (p, k) ∷ [])
last_node (p, k) [] = (p, k, [], refl)
last_node c (c' ∷ cs) = let (p, k, xs, e) = last_node c' cs in (p, k, c ∷ xs, ap (◌∷◌ c) e)
