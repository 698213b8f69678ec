-- ===== src/Vmem/Raid/Restore.antt =====
-- A lost stripe, computed from the others and the parity (ip6/lib/vmem/rrmem.c).
use native.Mathlib.Nat.{suc-mul, mod-lt}
use blue_bridge.Prelude.{
  ℕ, zero, suc, ◌+◌, ◌*◌, ◌/◌, ◌%◌, ◌^◌, ◌≤◌, ◌<◌, ◌≡◌, ◌≢◌, ◌⊎◌, sym, ap, ap₂, ◌∙◌, arith,
  if◌then◌else◌, ltb, Bool, inl, inr, subst, lt→ltb, update, update_self, true, false,
}
use blue_bridge.Bits.{bit_xor}
use blue_bridge.Vmem.Raid.{
  Buffer, xor_all, xor_others, fill, parity_base, parity45, stripe_alloc,
  repair_stripe_from_parity45,
}
use blue_bridge.Vmem.Raid.Laws.{xor_others_recover}
use blue_bridge.Vmem.Raid.Stripes.{update_other, fill_at, xor_others-cong, parity_base-long}

stripe_alloc-cases :
    (size n j k : ℕ)
    → k < stripe_alloc size n j
    → (k < size / n) ⊎ ((k ≡ size / n) × (j < size % n))
unfolding stripe_alloc
stripe_alloc-cases size n j k h = ground arith

le-stripe_alloc : (size n j : ℕ) → size / n ≤ stripe_alloc size n j
unfolding stripe_alloc
le-stripe_alloc size n j = ground arith

lt-stripe_alloc : (size n j : ℕ) → j < size % n → size / n < stripe_alloc size n j
unfolding stripe_alloc
lt-stripe_alloc size n j h = ground arith

pub parity_base-sum :
    (size n j : ℕ)
    → parity_base size n j ≡ j * (size / n) + (if ltb j (size % n) then j else size % n)
unfolding parity_base
parity_base-sum size n zero = ground arith
parity_base-sum size n (suc j) = ground (arith, parity_base-sum size n j, suc-mul j (size / n))

-- A filled buffer whose next byte is set if `b`.
filled_below :
    (b : Bool) (f : ℕ → ℕ) (n : ℕ) (buffer : Buffer) (v k : ℕ)
    → k < n
    → (if b then update (fill f n buffer) n v else fill f n buffer) k ≡ f k
filled_below true f n buffer v k h =
    update_other (fill f n buffer) n v k (λ e. omega (arith, e)) ∙ fill_at f n buffer k h
filled_below false f n buffer v k h = fill_at f n buffer k h

filled_at :
    (b : Bool) (buffer : Buffer) (n v : ℕ)
    → b ≡ true
    → (if b then update buffer n v else buffer) n ≡ v
filled_at b buffer n v e = rw e (update_self buffer n v)

parity45_short :
    (bytes : Buffer) (size n : ℕ) (parity : Buffer) (k : ℕ)
    → k < size / n
    → parity45 bytes size n parity k ≡ xor_all (λ j. bytes (k + parity_base size n j)) n
unfolding parity45
parity45_short bytes size n parity k h =
    filled_below (ltb 0 (size % n)) (λ i. xor_all (λ j. bytes (i + parity_base size n j)) n)
      (size / n) parity _ k h

parity45_long :
    (bytes : Buffer) (size n : ℕ) (parity : Buffer)
    → 0 < size % n
    → parity45 bytes size n parity (size / n)
      ≡ xor_all (λ i. bytes (size / n + i * (size / n + 1))) (size % n)
unfolding parity45
parity45_long bytes size n parity h =
    filled_at (ltb 0 (size % n))
      (fill (λ i. xor_all (λ j. bytes (i + parity_base size n j)) n) (size / n) parity) (size / n) _
      (lt→ltb 0 (size % n) h)

module _ (row : Buffer) (rbufs : ℕ → Buffer) (parity : Buffer) (m n size : ℕ) where
  repair_short :
      (k : ℕ)
      → k < size / n
      → repair_stripe_from_parity45 row rbufs parity m n size k
        ≡ bit_xor 8 (xor_others (λ j. rbufs j k) m n) (parity k)
  unfolding repair_stripe_from_parity45
  repair_short k h =
      filled_below (ltb m (size % n)) (λ i. bit_xor 8 (xor_others (λ j. rbufs j i) m n) (parity i))
        (size / n) row _ k h

  repair_long :
      m < size % n
      → repair_stripe_from_parity45 row rbufs parity m n size (size / n)
        ≡ bit_xor 8 (xor_others (λ j. rbufs j (size / n)) m (size % n)) (parity (size / n))
  unfolding repair_stripe_from_parity45
  repair_long h =
      filled_at (ltb m (size % n))
        (fill (λ i. bit_xor 8 (xor_others (λ j. rbufs j i) m n) (parity i)) (size / n) row)
        (size / n) _ (lt→ltb m (size % n) h)

repaired_long :
    (bytes : Buffer) (size n m : ℕ) (row : Buffer) (rbufs : ℕ → Buffer) (parity zeros : Buffer)
    → m < n
    → ((k : ℕ) → bytes k < 2 ^ 8)
    → ((j k : ℕ)
        → j < n
        → j ≢ m
        → k < stripe_alloc size n j
        → rbufs j k ≡ bytes (parity_base size n j + k))
    → ((k : ℕ) → parity k ≡ parity45 bytes size n zeros k)
    → m < size % n
    → repair_stripe_from_parity45 row rbufs parity m n size (size / n)
      ≡ bytes (parity_base size n m + size / n)
repaired_long bytes size n m row rbufs parity zeros h byte rows p long =
    let q = size / n in
    let r = size % n in
    let rest : r < n = mod-lt size (omega arith) in
    repair_long row rbufs parity m n size long
    ∙ ap₂ (bit_xor 8)
        (xor_others-cong (λ j. rbufs j q) (λ j. bytes (q + j * (q + 1))) m r
          (λ j a b.
            rows j q (omega arith) b (lt-stripe_alloc size n j a)
            ∙ ap bytes (omega (arith, parity_base-long size n j (omega arith)))))
        (p q ∙ parity45_long bytes size n zeros (omega arith))
    ∙ xor_others_recover (λ j. bytes (q + j * (q + 1))) m r long (byte _)
    ∙ ap bytes (omega (arith, parity_base-long size n m (omega arith)))

-- The stripe of a lost host, computed from the others and the parity, is what was written to it.
pub repaired :
    (bytes : Buffer) (size n m : ℕ) (row : Buffer) (rbufs : ℕ → Buffer) (parity zeros : Buffer)
    → m < n
    → ((k : ℕ) → bytes k < 2 ^ 8)
    → ((j k : ℕ)
        → j < n
        → j ≢ m
        → k < stripe_alloc size n j
        → rbufs j k ≡ bytes (parity_base size n j + k))
    → ((k : ℕ) → parity k ≡ parity45 bytes size n zeros k)
    → (k : ℕ) → k < stripe_alloc size n m
    → repair_stripe_from_parity45 row rbufs parity m n size k ≡ bytes (parity_base size n m + k)
repaired bytes size n m row rbufs parity zeros h byte rows p k l =
    elim (stripe_alloc-cases size n m k l) [
      | inl short ↦
          repair_short row rbufs parity m n size k short
          ∙ ap₂ (bit_xor 8)
              (xor_others-cong (λ j. rbufs j k) (λ j. bytes (k + parity_base size n j)) m n
                (λ j a b.
                  rows j k a b (omega (arith, le-stripe_alloc size n j)) ∙ ap bytes (omega arith)))
              (p k ∙ parity45_short bytes size n zeros k short)
          ∙ xor_others_recover (λ j. bytes (k + parity_base size n j)) m n h (byte _)
          ∙ ap bytes (omega arith)
      | inr (e, long) ↦
          subst
            (λ i.
              repair_stripe_from_parity45 row rbufs parity m n size i
              ≡ bytes (parity_base size n m + i))
            (sym e) (repaired_long bytes size n m row rbufs parity zeros h byte rows p long)
    ]
