-- ===== src/Vmem/Policy.antt =====
-- What a page fault handler of ip6/lib/vmem/page_table.c needs of its replacement policy: the
-- pages tracked, a count of them, and the operations that track, touch and choose a page.
use blue_bridge.Prelude.{
  ℕ, suc, ◌≡◌, true, false, Option, some, List, ◌∷◌, length, has, ◌==◌, if◌then◌else◌,
}

-- The same pages, in whatever order.
abbrev pub SamePages : List ℕ → List ℕ → Type 0
SamePages xs ys = ((q : ℕ) → has q xs ≡ has q ys) × (length xs ≡ length ys)

-- `ys` lacks the page `v`, and nothing else.
abbrev pub Without : ℕ → List ℕ → List ℕ → Type 0
Without v xs ys =
    (has v xs ≡ true)
    × ((q : ℕ) → has q ys ≡ (if q == v then false else has q xs))
    × (suc (length ys) ≡ length xs)

pub record Policy : Type 1 where
  pub State : Type 0
  pub Holds : State → List ℕ → Type 0
  pub tracked : State → ℕ
  pub insert : ℕ → State → Option State
  pub touch : ℕ → State → Option State
  pub evict : State → Option (ℕ × State)
  pub tracked-length : (s : State) (ks : List ℕ) → Holds s ks → tracked s ≡ length ks
  pub insert-Holds :
      (k : ℕ) (s : State) (ks : List ℕ)
      → Holds s ks
      → has k ks ≡ false
      → (s' : State) × (insert k s ≡ some s') × Holds s' (k ∷ ks)
  pub touch-Holds :
      (k : ℕ) (s : State) (ks : List ℕ)
      → Holds s ks
      → has k ks ≡ true
      → (s' : State) × (ks' : List ℕ) × (touch k s ≡ some s') × Holds s' ks' × SamePages ks' ks
  pub evict-Holds :
      (k : ℕ) (s : State) (ks : List ℕ)
      → Holds s (k ∷ ks)
      → (v : ℕ) × (s' : State) × (ks' : List ℕ) × (evict s ≡ some (v, s'))
        × Holds s' ks'
        × Without v (k ∷ ks) ks'
