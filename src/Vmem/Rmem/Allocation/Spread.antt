-- ===== src/Vmem/Rmem/Allocation/Spread.antt =====
-- The blocks that fill_rmem of ip6/lib/vmem/rmem.c spreads over the hosts do not overlap.
use blue_bridge.Prelude.{
  ℕ, zero, suc, ◌+◌, ◌-◌, ◌*◌, ◌%◌, ◌^◌, ◌≤◌, ◌<◌, ◌≡◌, ◌≢◌, refl, sym, ap, subst, ◌∙◌, Bool,
  Bool-cases, true, false, inl, inr, List, ◌∷◌, update, update_self, has, ltb, ltb→lt, ltb→le,
  lt→ltb, le→ltb, if◌then◌else◌, arith, has_self,
}
use blue_bridge.Types.{Memaddr, block_size}
use blue_bridge.Client.{addr_list}
use blue_bridge.Client.Readback.{Apart}
use blue_bridge.Vmem.Rmem.Allocation.{copy_list}

abbrev at_index : Memaddr → ℕ → Memaddr
at_index a j = record a { paddr = (a.paddr + j * block_size) % 2 ^ 64 }

copy_list-before :
    (a : Memaddr) (i n o : ℕ) (f : ℕ → Memaddr) (b : ℕ)
    → b < o
    → copy_list o (addr_list a i n) f b ≡ f b
unfolding copy_list addr_list
copy_list-before a i zero o f b h = refl
copy_list-before a i (suc n) o f b h =
    copy_list-before a (i + 1) n (o + 1) (update f o (at_index a i)) b (omega arith)
    ∙ (ground arith)

copy_list-at :
    (a : Memaddr) (i n o j : ℕ) (f : ℕ → Memaddr)
    → j < n
    → copy_list o (addr_list a i n) f (o + j) ≡ at_index a (i + j)
unfolding copy_list addr_list
copy_list-at a i zero o j f h = absurd (omega arith)
copy_list-at a i (suc n) o zero f h =
    copy_list-before a (i + 1) n (o + 1) (update f o (at_index a i)) (o + 0) (omega arith)
    ∙ ap (update f o (at_index a i)) {x = o + 0} {y = o} (omega arith)
    ∙ update_self f o (at_index a i)
    ∙ ap (at_index a) {x = i} {y = i + 0} (omega arith)
copy_list-at a i (suc n) o (suc j) f h =
    ap (copy_list (o + 1) (addr_list a (i + 1) n) (update f o (at_index a i))) {x = o + suc j}
      {y = o + 1 + j} (omega arith)
    ∙ copy_list-at a (i + 1) n (o + 1) j (update f o (at_index a i)) (omega arith)
    ∙ ap (at_index a) {x = i + 1 + j} {y = i + suc j} (omega arith)

-- The list with the addresses from `a` on behind its first `k`.
abbrev placed : (k : ℕ) → Memaddr → (ℕ → Memaddr) → ℕ → Memaddr
placed k a f b = if ltb b k then f b else at_index a (b - k)

copy_list-placed :
    (a : Memaddr) (n k : ℕ) (f : ℕ → Memaddr) (b : ℕ)
    → b < k + n
    → copy_list k (addr_list a 0 n) f b ≡ placed k a f b
copy_list-placed a n k f b h = elim (Bool-cases (ltb b k)) [
  | inl before ↦ rw before (copy_list-before a 0 n k f b (ltb→lt b k before))
  | inr behind ↦ rw behind (
      ap (copy_list k (addr_list a 0 n) f) {x = b} {y = k + (b - k)}
        (omega (arith, ltb→le b k behind))
      ∙ copy_list-at a 0 n k (b - k) f (omega (arith, ltb→le b k behind))
      ∙ ap (at_index a) {x = 0 + (b - k)} {y = b - k} (omega arith))
]

Truth : Bool → Type 0
Truth true = Unit
Truth false = ⊥

true_not_false : true ≡ false → ⊥
unfolding Truth
true_not_false e = subst Truth e tt

-- The first `k` blocks lie on the hosts `used` and do not overlap.
pub record Filled (k : ℕ) (f : ℕ → Memaddr) (used : List ℕ) : Type 0 where
  pub known : (b : ℕ) → b < k → has (f b).subid used ≡ true
  pub apart : (b c : ℕ) → b < k → c < k → b ≢ c → Apart block_size (f b) (f c)

placed_before : (k : ℕ) (a : Memaddr) (f : ℕ → Memaddr) (b : ℕ) → b < k → placed k a f b ≡ f b
placed_before k a f b h = rw (lt→ltb b k h) refl

placed_behind :
    (k : ℕ) (a : Memaddr) (f : ℕ → Memaddr) (b : ℕ) → k ≤ b → placed k a f b ≡ at_index a (b - k)
placed_behind k a f b h = rw (le→ltb b k h) refl

at_index-Apart :
    (a : Memaddr) (i j n : ℕ)
    → a.paddr + n ≤ 2 ^ 64
    → i < n
    → j < n
    → i ≢ j
    → Apart block_size (at_index a i) (at_index a j)
at_index-Apart a i j n fits hi hj ne = elim (Bool-cases (ltb i j)) [
  | inl less ↦ inr (inl (omega (arith, ltb→lt i j less)))
  | inr more ↦ inr (inr (omega (arith, ltb→le i j more, ne)))
]

module _ (k n : ℕ) (f : ℕ → Memaddr) (used : List ℕ) (a : Memaddr) (filled : Filled k f used)
    (new : has a.subid used ≡ false) (fits : a.paddr + n ≤ 2 ^ 64) where
  placed-known : (b : ℕ) → has (placed k a f b).subid (a.subid ∷ used) ≡ true
  placed-known b = elim (Bool-cases (ltb b k)) [
    | inl before ↦
        subst (λ x. has x.subid (a.subid ∷ used) ≡ true)
          (sym (placed_before k a f b (ltb→lt b k before)))
          (ground (arith, filled.known b (ltb→lt b k before)))
    | inr behind ↦
        subst (λ x. has x.subid (a.subid ∷ used) ≡ true)
          (sym (placed_behind k a f b (ltb→le b k behind))) (has_self a.subid used)
  ]

  other_host : (b : ℕ) → b < k → (f b).subid ≢ a.subid
  other_host b h e = true_not_false (sym (filled.known b h) ∙ ap (λ s. has s used) e ∙ new)

  placed-Apart :
      (b c : ℕ) → b < k + n → c < k + n → b ≢ c → Apart block_size (placed k a f b) (placed k a f c)
  placed-Apart b c hb hc ne = elim (Bool-cases (ltb b k)) [
    | inl b_before ↦ elim (Bool-cases (ltb c k)) [
      | inl c_before ↦
          two (placed_before k a f b (ltb→lt b k b_before))
            (placed_before k a f c (ltb→lt c k c_before))
            (filled.apart b c (ltb→lt b k b_before) (ltb→lt c k c_before) ne)
      | inr c_behind ↦
          two (placed_before k a f b (ltb→lt b k b_before))
            (placed_behind k a f c (ltb→le c k c_behind)) (inl (other_host b (ltb→lt b k b_before)))
    ]
    | inr b_behind ↦ elim (Bool-cases (ltb c k)) [
      | inl c_before ↦
          two (placed_behind k a f b (ltb→le b k b_behind))
            (placed_before k a f c (ltb→lt c k c_before))
            (inl (λ e. other_host c (ltb→lt c k c_before) (sym e)))
      | inr c_behind ↦
          two (placed_behind k a f b (ltb→le b k b_behind))
            (placed_behind k a f c (ltb→le c k c_behind))
            (at_index-Apart a (b - k) (c - k) n fits (omega (arith, ltb→le b k b_behind))
              (omega (arith, ltb→le c k c_behind))
              (λ e. ne (omega (arith, e, ltb→le b k b_behind, ltb→le c k c_behind))))
    ]
  ]
    where
      two :
          {x y : Memaddr}
          → placed k a f b ≡ x
          → placed k a f c ≡ y
          → Apart block_size x y
          → Apart block_size (placed k a f b) (placed k a f c)
      two {x = x} {y = y} e g h =
          subst (λ z. Apart block_size z (placed k a f c)) (sym e)
            (subst (Apart block_size x) (sym g) h)

  -- A host that has no block yet takes the next ones.
  pub copy_list-Filled : Filled (k + n) (copy_list k (addr_list a 0 n) f) (a.subid ∷ used)
  copy_list-Filled = record {
    known = λ b h.
        subst (λ x. has x.subid (a.subid ∷ used) ≡ true) (sym (copy_list-placed a n k f b h))
          (placed-known b);
    apart = λ b c hb hc ne.
        subst (λ x. Apart block_size x (copy_list k (addr_list a 0 n) f c))
          (sym (copy_list-placed a n k f b hb))
          (subst (Apart block_size (placed k a f b)) (sym (copy_list-placed a n k f c hc))
            (placed-Apart b c hb hc ne));
  }
