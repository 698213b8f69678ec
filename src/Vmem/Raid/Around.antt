-- ===== src/Vmem/Raid/Around.antt =====
-- The stripes of RAID 5 around the host that keeps the parity (ip6/lib/vmem/rrmem.c).
use native.Mathlib.Nat.{mod-lt}
use blue_bridge.Prelude.{
  ℕ, zero, suc, ◌+◌, ◌-◌, ◌%◌, ◌≤◌, ◌<◌, ◌≡◌, ◌≢◌, refl, sym, ap, ap₂, ◌∙◌, arith, ◌==◌, ltb,
  Bool-cases, inl, inr, ne_of_==, eq_of_==, subst, lt→ltb, ltb→lt, le_of_ltb, if◌then◌else◌, update,
  Option, none, some, Bool, true,
}
use blue_bridge.Vmem.Raid.{
  Buffer, parity_base, stripe_alloc, copy_from, copy_to, repair_stripe_from_parity45,
}
use blue_bridge.Vmem.Raid.Levels.{rank, write_around, read_around, raid5_write, raid5_read}
use blue_bridge.Vmem.Raid.Stripes.{update_other, parity_base-suc, copy_to_below, copy_to_inside}
use blue_bridge.Vmem.Raid.Repair.{parity_base-all}

rank_next : (p i : ℕ) → i ≢ p → rank p (suc i) ≡ suc (rank p i)
rank_next p i h = ground arith

rank_parity : (p i : ℕ) → (i == p) ≡ true → rank p (suc i) ≡ rank p i
rank_parity p i e = ground arith

rank_first : (p : ℕ) → rank p 0 ≡ 0
rank_first p = ground arith

rank_last : (p num_hosts : ℕ) → p < num_hosts → rank p num_hosts ≡ num_hosts - 1
rank_last p num_hosts h = ground arith

equal : (m p : ℕ) → m ≡ p → (m == p) ≡ true
equal m p e = ground arith

none_before : (size n p k : ℕ) → k < parity_base size n (rank p 0) → k < 0
unfolding parity_base
none_before size n p k h = subst (λ r. k < parity_base size n r) (rank_first p) h

-- The base after another stripe.
base_next :
    (size n p i : ℕ)
    → i ≢ p
    → parity_base size n (rank p i) + stripe_alloc size n (rank p i)
      ≡ parity_base size n (rank p (suc i))
base_next size n p i h =
    sym (parity_base-suc size n (rank p i)) ∙ ap (parity_base size n) (sym (rank_next p i h))

module _ (bytes : Buffer) (size n p : ℕ) (wbufs : ℕ → Buffer) where
  write_around-base :
      (i : ℕ) → (write_around bytes size n p wbufs i).1 ≡ parity_base size n (rank p i)
  unfolding write_around parity_base
  write_around-base zero = ground arith
  write_around-base (suc i) = elim (Bool-cases (i == p)) [
    | inl at ↦ rw at (write_around-base i ∙ ap (parity_base size n) (sym (rank_parity p i at)))
    | inr off ↦ rw off (
        ap (λ b. b + stripe_alloc size n (rank p i)) (write_around-base i)
        ∙ base_next size n p i (ne_of_== i p off))
  ]

  write_around_after : (i k : ℕ) → i ≤ k → (write_around bytes size n p wbufs i).0 k ≡ wbufs k
  unfolding write_around
  write_around_after zero k h = refl
  write_around_after (suc i) k h = elim (Bool-cases (i == p)) [
    | inl at ↦ rw at (write_around_after i k (omega arith))
    | inr off ↦ rw off (
        update_other ((write_around bytes size n p wbufs i).0) i _ k (λ e. omega (arith, e))
        ∙ write_around_after i k (omega arith))
  ]

  -- Host k keeps its part of the block.
  pub write_around_at :
      (i k : ℕ)
      → k < i
      → k ≢ p
      → (write_around bytes size n p wbufs i).0 k
        ≡ copy_from bytes (parity_base size n (rank p k)) (stripe_alloc size n (rank p k)) (wbufs k)
  unfolding write_around
  write_around_at zero k h ne = absurd (omega arith)
  write_around_at (suc i) k h ne = elim (Bool-cases (i == p)) [
    | inl at ↦ rw at (
        write_around_at i k
          (omega (arith, eq_of_== i p at, before i k h (λ e. ne (e ∙ eq_of_== i p at)))) ne)
    | inr off ↦ rw off (elim (Bool-cases (k == i)) [
      | inl here ↦ rw here (
          subst
            (λ j.
              copy_from bytes (write_around bytes size n p wbufs i).1
                (stripe_alloc size n (rank p i)) ((write_around bytes size n p wbufs i).0 i)
              ≡ copy_from bytes (parity_base size n (rank p j)) (stripe_alloc size n (rank p j))
                  (wbufs j))
            (sym (eq_of_== k i here))
            (ap₂ (λ b x. copy_from bytes b (stripe_alloc size n (rank p i)) x) (write_around-base i)
              (write_around_after i i (omega arith))))
      | inr elsewhere ↦
          rw elsewhere (write_around_at i k (before i k h (ne_of_== k i elsewhere)) ne)
    ])
  ]
    where
      before : (i k : ℕ) → k < suc i → k ≢ i → k < i
      before i k h e = omega arith

module _ (rbufs : ℕ → Buffer) (size n p : ℕ) (bytes target : Buffer) where
  read_around-base :
      (i : ℕ) → (read_around rbufs size n p target i).1 ≡ parity_base size n (rank p i)
  unfolding read_around parity_base
  read_around-base zero = ground arith
  read_around-base (suc i) = elim (Bool-cases (i == p)) [
    | inl at ↦ rw at (read_around-base i ∙ ap (parity_base size n) (sym (rank_parity p i at)))
    | inr off ↦ rw off (
        ap (λ b. b + stripe_alloc size n (rank p i)) (read_around-base i)
        ∙ base_next size n p i (ne_of_== i p off))
  ]

  -- Stripes that are copies of the block's parts are put together to the block.
  pub read_around-written :
      (i : ℕ)
      → ((j k : ℕ)
          → j < i
          → j ≢ p
          → k < stripe_alloc size n (rank p j)
          → rbufs j k ≡ bytes (parity_base size n (rank p j) + k))
      → (k : ℕ) → k < parity_base size n (rank p i)
      → (read_around rbufs size n p target i).0 k ≡ bytes k
  unfolding read_around parity_base
  read_around-written zero h k l = absurd (omega (arith, none_before size n p k l))
  read_around-written (suc i) h k l = elim (Bool-cases (i == p)) [
    | inl at ↦ rw at (
        read_around-written i (λ j m a. h j m (omega arith)) k
          (subst (λ r. k < parity_base size n r) (rank_parity p i at) l))
    | inr off ↦
        let at = parity_base size n (rank p i) in
        let alloc = stripe_alloc size n (rank p i) in
        let before = (read_around rbufs size n p target i).0 in
        let ne = ne_of_== i p off in
        let l' : k < at + alloc = subst (λ b. k < b) (sym (base_next size n p i ne)) l in
        rw off (
          ap (λ b. copy_to (rbufs i) b alloc before k) (read_around-base i)
          ∙ elim (Bool-cases (ltb k at)) [
            | inl below ↦
                copy_to_below (rbufs i) at alloc before k (ltb→lt k at below)
                ∙ read_around-written i (λ j m u. h j m (omega arith)) k (ltb→lt k at below)
            | inr from ↦
                copy_to_inside (rbufs i) at alloc before k (le_of_ltb k at refl from) l'
                ∙ h i (k - at) (omega arith) ne (omega (arith, l', le_of_ltb k at refl from))
                ∙ ap bytes (omega (arith, le_of_ltb k at refl from))
          ])
  ]

pub raid5_write-stripe :
    (bytes : Buffer) (size num_hosts block j k : ℕ)
    → j < num_hosts
    → j ≢ block % num_hosts
    → k < stripe_alloc size (num_hosts - 1) (rank (block % num_hosts) j)
    → raid5_write bytes size num_hosts block j k
      ≡ bytes (parity_base size (num_hosts - 1) (rank (block % num_hosts) j) + k)
unfolding raid5_write copy_from
raid5_write-stripe bytes size num_hosts block j k h ne l =
    ap (λ (f : Buffer). f k)
      (write_around_at bytes size (num_hosts - 1) (block % num_hosts) _ num_hosts j h ne)
    ∙ rw (lt→ltb k _ l) refl

-- The failures that a level survives: RAID 5 that of the host with the parity, whose repair is never
-- needed.
abbrev pub Survives5 : Option ℕ → ℕ → Type 0
Survives5 none p = Unit {0}
Survives5 (some m) p = m ≡ p

-- In RAID 5 a block that was written is read back whole when every host answers but, perhaps, the one
-- that keeps the block's parity.
pub raid5_read-write :
    (bytes target : Buffer) (size num_hosts block : ℕ) (missing : Option ℕ) (rbufs : ℕ → Buffer)
    → 2 ≤ num_hosts
    → Survives5 missing (block % num_hosts)
    → ((j : ℕ)
        → j < num_hosts
        → j ≢ block % num_hosts
        → rbufs j ≡ raid5_write bytes size num_hosts block j)
    → (k : ℕ) → k < size
    → raid5_read rbufs missing num_hosts size block target k ≡ bytes k
unfolding raid5_read
raid5_read-write bytes target size num_hosts block missing rbufs h survives same k l =
    survived missing survives
    ∙ read_around-written rbufs size n p bytes target num_hosts
        (λ j i a ne b.
          ap (λ (f : Buffer). f i) (same j a ne)
          ∙ raid5_write-stripe bytes size num_hosts block j i a ne b)
        k (subst (λ b. k < b) (sym whole) l)
  where
    n : ℕ
    n = num_hosts - 1

    p : ℕ
    p = block % num_hosts

    whole : parity_base size n (rank p num_hosts) ≡ size
    whole =
        ap (parity_base size n) (rank_last p num_hosts (mod-lt block (omega arith)))
        ∙ parity_base-all size n (omega arith)

    survived :
        (missing : Option ℕ)
        → Survives5 missing p
        → raid5_read rbufs missing num_hosts size block target k
          ≡ (read_around rbufs size n p target num_hosts).0 k
    survived none e = refl
    survived (some m) e =
        ap
          (λ (b : Bool).
            (read_around
                (if b
                  then rbufs
                  else update rbufs m
                      (repair_stripe_from_parity45 (rbufs m) rbufs (rbufs p) m n size))
                size n p target num_hosts).0
              k)
          (equal m p e)
