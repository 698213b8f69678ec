-- ===== src/Vmem/Rand/Probe.antt =====
-- The probing of RAND_page_fault_handler (ip6/lib/vmem/page_table.c) ends at a page of the table.
use blue_bridge.Prelude.{
  ℕ, zero, suc, ◌+◌, ◌-◌, ◌<◌, ◌≡◌, ◌≢◌, ◌⊎◌, inl, inr, refl, sym, ap, subst, arith, Option, some,
  List, [], ◌∷◌, leb, if◌then◌else◌,
}
use blue_bridge.Vmem.Hash.{HashNode}
use blue_bridge.Vmem.Rand.{next_index, probe}

-- How far bucket j lies ahead of bucket i.
abbrev ahead : (n i j : ℕ) → ℕ
ahead n i j = if leb i j then j - i else j + n - i

next_index-lt : (n i : ℕ) → i < n → next_index n i < n
unfolding next_index
next_index-lt n i h = ground arith

ahead-next : (n i j : ℕ) → i < n → j < n → i ≢ j → suc (ahead n (next_index n i) j) ≡ ahead n i j
unfolding next_index
ahead-next n i j h k ne = ground arith

ahead-lt : (n i j : ℕ) → i < n → j < n → ahead n i j < n
ahead-lt n i j h k = ground arith

pub List-cases {ℓ} :
    {A : Type ℓ} (xs : List A) → (xs ≡ []) ⊎ ((x : A) × (ys : List A) × (xs ≡ x ∷ ys))
List-cases [] = inl refl
List-cases (x ∷ xs) = inr (x, xs, refl)

-- What a probe stops at: the first node of a bucket.
pub record Probed (n : ℕ) (head : ℕ → List HashNode) (result : Option ℕ) : Type 0 where
  pub bucket : ℕ
  pub in_range : bucket < n
  pub node : HashNode
  pub rest : List HashNode
  pub at_bucket : head bucket ≡ node ∷ rest
  pub returns : result ≡ some node.key

module _ (n : ℕ) (head : ℕ → List HashNode) (j : ℕ) (node : HashNode) (rest : List HashNode) where
  probe-Probed_from :
      (fuel i : ℕ)
      → head j ≡ node ∷ rest
      → j < n
      → i < n
      → ahead n i j < fuel
      → Probed n head (probe fuel n head i)
  unfolding probe
  probe-Probed_from zero i full k h f = absurd (omega arith)
  probe-Probed_from (suc fuel) i full k h f = elim (List-cases (head i)) [
    | inl empty ↦
        let ne : i ≢ j = λ e. cc (full, empty, ap head e) in
        subst
          (λ (xs : List HashNode).
            Probed n head
              (elim xs [ [] ↦ probe fuel n head (next_index n i) | x ∷ _ ↦ some x.key ]))
          (sym empty)
          (probe-Probed_from fuel (next_index n i) full k (next_index-lt n i h)
            (omega (arith, ahead-next n i j h k ne, f)))
    | inr (x, xs, e) ↦ record {
      bucket = i;
      in_range = h;
      node = x;
      rest = xs;
      at_bucket = e;
      returns =
          ap
            (λ (ys : List HashNode). elim ys [
              | [] ↦ probe fuel n head (next_index n i)
              | y ∷ _ ↦ some y.key
            ])
            e;
    }
  ]

  -- With a bucket that is not empty, a probe with fuel for one turn ends, wherever it starts.
  pub probe-Probed :
      (i : ℕ) → head j ≡ node ∷ rest → j < n → i < n → Probed n head (probe n n head i)
  probe-Probed i full k h = probe-Probed_from n i full k h (ahead-lt n i j h k)
