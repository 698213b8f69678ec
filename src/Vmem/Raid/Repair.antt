-- ===== src/Vmem/Raid/Repair.antt =====
-- Writing and reading a block in RAID 4 with one host lost (ip6/lib/vmem/rrmem.c).
use native.Mathlib.Nat.{mod-lt, div-add-mod}
use blue_bridge.Prelude.{
  ℕ, ◌+◌, ◌-◌, ◌*◌, ◌/◌, ◌%◌, ◌^◌, ◌≤◌, ◌<◌, ◌≡◌, ◌≢◌, refl, sym, ap, ◌∙◌, arith, if◌then◌else◌,
  ◌==◌, Bool, Bool-cases, inl, inr, ne_of_==, eq_of_==, subst, lt→ltb, le→ltb, update, update_self,
  Option, none, some,
}
use blue_bridge.Vmem.Raid.{
  Buffer, parity_base, parity45, stripe_alloc, copy_from, read_stripes, repair_stripe_from_parity45,
  raid4_write, raid4_read,
}
use blue_bridge.Vmem.Raid.Stripes.{write_stripes_at, write_stripes_after, read_stripes-written}
use blue_bridge.Vmem.Raid.Restore.{parity_base-sum, repaired}

pub parity_base-all : (size n : ℕ) → 0 < n → parity_base size n n ≡ size
parity_base-all size n h =
    parity_base-sum size n n
    ∙ ap (λ b. n * (size / n) + (if b then n else size % n))
        (le→ltb n (size % n) (omega (arith, mod-lt size h)))
    ∙ div-add-mod size n

raid4_write-stripe :
    (bytes : Buffer) (size num_hosts j k : ℕ)
    → j < num_hosts - 1
    → k < stripe_alloc size (num_hosts - 1) j
    → raid4_write bytes size num_hosts j k ≡ bytes (parity_base size (num_hosts - 1) j + k)
unfolding raid4_write copy_from
raid4_write-stripe bytes size num_hosts j k h l =
    ap (λ (f : Buffer). f k) (write_stripes_at bytes size (num_hosts - 1) _ (num_hosts - 1) j h)
    ∙ rw (lt→ltb k _ l) refl

raid4_write-parity :
    (bytes : Buffer) (size num_hosts : ℕ)
    → raid4_write bytes size num_hosts (num_hosts - 1)
      ≡ parity45 bytes size (num_hosts - 1) (λ _. 0)
unfolding raid4_write
raid4_write-parity bytes size num_hosts =
    write_stripes_after bytes size (num_hosts - 1) _ (num_hosts - 1) (num_hosts - 1) (omega arith)
    ∙ update_self (λ _ _. 0) (num_hosts - 1) (parity45 bytes size (num_hosts - 1) (λ _. 0))

-- The hosts that answer: all, or all but one.
abbrev pub Answers : Option ℕ → ℕ → Type 0
Answers none j = Unit {0}
Answers (some m) j = j ≢ m

module _ (bytes : Buffer) (size num_hosts m : ℕ) (rbufs : ℕ → Buffer) where
  others :
      ((j : ℕ) → j < num_hosts → j ≢ m → rbufs j ≡ raid4_write bytes size num_hosts j)
      → (j k : ℕ) → j < num_hosts - 1
      → j ≢ m
      → k < stripe_alloc size (num_hosts - 1) j
      → rbufs j k ≡ bytes (parity_base size (num_hosts - 1) j + k)
  others same j k h ne l =
      ap (λ (f : Buffer). f k) (same j (omega arith) ne)
      ∙ raid4_write-stripe bytes size num_hosts j k h l

  rows_after :
      2 ≤ num_hosts
      → ((k : ℕ) → bytes k < 2 ^ 8)
      → ((j : ℕ) → j < num_hosts → j ≢ m → rbufs j ≡ raid4_write bytes size num_hosts j)
      → m ≢ num_hosts - 1
      → (j k : ℕ) → j < num_hosts - 1
      → k < stripe_alloc size (num_hosts - 1) j
      → update rbufs m
          (repair_stripe_from_parity45
            (rbufs m)
            rbufs
            (rbufs (num_hosts - 1))
            m
            (num_hosts - 1)
            size)
          j
          k
        ≡ bytes (parity_base size (num_hosts - 1) j + k)
  rows_after hosts byte same ne j k h l = elim (Bool-cases (j == m)) [
    | inl here ↦ rw here (
        subst
          (λ x.
            x < num_hosts - 1
            → k < stripe_alloc size (num_hosts - 1) x
            → repair_stripe_from_parity45 (rbufs m) rbufs (rbufs (num_hosts - 1)) m (num_hosts - 1)
                size k
              ≡ bytes (parity_base size (num_hosts - 1) x + k))
          (sym (eq_of_== j m here))
          (λ a b.
            repaired bytes size (num_hosts - 1) m (rbufs m) rbufs (rbufs (num_hosts - 1)) (λ _. 0) a
              byte (others same)
              (λ i.
                ap (λ (f : Buffer). f i)
                  (same (num_hosts - 1) (omega arith) (λ e. ne (sym e))
                    ∙ raid4_write-parity bytes size num_hosts))
              k b)
          h l)
    | inr elsewhere ↦ rw elsewhere (others same j k h (ne_of_== j m elsewhere) l)
  ]

-- In RAID 4 a block that was written to at least two hosts is read back whole when no more than one
-- of them fails to answer.
pub raid4_read-write :
    (bytes target : Buffer) (size num_hosts : ℕ) (missing : Option ℕ) (rbufs : ℕ → Buffer)
    → 2 ≤ num_hosts
    → ((k : ℕ) → bytes k < 2 ^ 8)
    → ((j : ℕ) → j < num_hosts → Answers missing j → rbufs j ≡ raid4_write bytes size num_hosts j)
    → (k : ℕ) → k < size
    → raid4_read rbufs missing num_hosts size target k ≡ bytes k
unfolding raid4_read
raid4_read-write bytes target size num_hosts none rbufs h byte same k l =
    let n = num_hosts - 1 in
    read_stripes-written rbufs size n bytes target n
      (λ j i a b.
        ap (λ (f : Buffer). f i) (same j (omega arith) tt)
        ∙ raid4_write-stripe bytes size num_hosts j i a b)
      k (omega (arith, parity_base-all size n (omega arith)))
raid4_read-write bytes target size num_hosts (some m) rbufs h byte same k l =
    let n = num_hosts - 1 in
    let inside : k < parity_base size n n = omega (arith, parity_base-all size n (omega arith)) in
    let after : Bool → ℕ = λ b.
      (read_stripes
          (if b
            then rbufs
            else update rbufs m (repair_stripe_from_parity45 (rbufs m) rbufs (rbufs n) m n size))
          size n target n).0
        k in
    elim (Bool-cases (m == n)) [
      | inl parity_lost ↦
          ap after parity_lost
          ∙ (read_stripes-written rbufs size n bytes target n
              (λ j i a b.
                others bytes size num_hosts m rbufs same j i a
                  (λ e. omega (arith, e, eq_of_== m n parity_lost)) b)
              k inside)
      | inr stripe_lost ↦
          ap after stripe_lost
          ∙ (read_stripes-written
              (update rbufs m (repair_stripe_from_parity45 (rbufs m) rbufs (rbufs n) m n size)) size
              n bytes target n
              (rows_after bytes size num_hosts m rbufs h byte same (ne_of_== m n stripe_lost)) k
              inside)
    ]
