-- ===== src/Vmem/Raid/Last.antt =====
-- RAID 5 with one host lost, when the last host keeps the parity (ip6/lib/vmem/rrmem.c): the repair
-- takes the first buffers as the stripes, and then they are.
use blue_bridge.Prelude.{
  ℕ, zero, suc, ◌+◌, ◌-◌, ◌%◌, ◌^◌, ◌≤◌, ◌<◌, ◌≡◌, ◌≢◌, refl, sym, ap, ◌∙◌, arith, ◌==◌, Bool-cases,
  inl, inr, ne_of_==, eq_of_==, subst, if◌then◌else◌, update, update_self, ne→==, some, Bool,
}
use blue_bridge.Vmem.Raid.{Buffer, parity_base, parity45, stripe_alloc, repair_stripe_from_parity45}
use blue_bridge.Vmem.Raid.Levels.{rank, write_around, read_around, raid5_write, raid5_read}
use blue_bridge.Vmem.Raid.Stripes.{update_other}
use blue_bridge.Vmem.Raid.Restore.{repaired}
use blue_bridge.Vmem.Raid.Repair.{parity_base-all}
use blue_bridge.Vmem.Raid.Around.{raid5_write-stripe, read_around-written}

write_around-parity :
    (bytes : Buffer) (size n p : ℕ) (wbufs : ℕ → Buffer) (i : ℕ)
    → (write_around bytes size n p wbufs i).0 p ≡ wbufs p
unfolding write_around
write_around-parity bytes size n p wbufs zero = refl
write_around-parity bytes size n p wbufs (suc i) = elim (Bool-cases (i == p)) [
  | inl at ↦ rw at (write_around-parity bytes size n p wbufs i)
  | inr off ↦ rw off (
      update_other ((write_around bytes size n p wbufs i).0) i _ p (λ e. ne_of_== i p off (sym e))
      ∙ write_around-parity bytes size n p wbufs i)
]

raid5_write-parity :
    (bytes : Buffer) (size num_hosts block : ℕ)
    → raid5_write bytes size num_hosts block (block % num_hosts)
      ≡ parity45 bytes size (num_hosts - 1) (λ _. 0)
unfolding raid5_write
raid5_write-parity bytes size num_hosts block =
    write_around-parity bytes size (num_hosts - 1) (block % num_hosts) _ num_hosts
    ∙ update_self (λ _ _. 0) (block % num_hosts) (parity45 bytes size (num_hosts - 1) (λ _. 0))

rank_before : (p j : ℕ) → j < p → rank p j ≡ j
rank_before p j h = ground arith

module _ (bytes target : Buffer) (size num_hosts block m : ℕ) (rbufs : ℕ → Buffer)
    (hosts : 2 ≤ num_hosts) (byte : (k : ℕ) → bytes k < 2 ^ 8)
    (last : block % num_hosts ≡ num_hosts - 1) (lost : m ≢ block % num_hosts) (host : m < num_hosts)
    (same : (j : ℕ)
      → j < num_hosts
      → j ≢ m
      → rbufs j ≡ raid5_write bytes size num_hosts block j) where
  abbrev p : ℕ
  p = block % num_hosts

  abbrev stripes : ℕ
  stripes = num_hosts - 1

  others_kept :
      (j k : ℕ)
      → j < stripes
      → j ≢ m
      → k < stripe_alloc size stripes j
      → rbufs j k ≡ bytes (parity_base size stripes j + k)
  others_kept j k h ne l =
      let r = rank_before p j (omega (arith, h, last)) in
      ap (λ (f : Buffer). f k) (same j (omega (arith, h)) ne)
      ∙ raid5_write-stripe bytes size num_hosts block j k (omega (arith, h))
          (λ e. omega (arith, e, last, h)) (subst (λ i. k < stripe_alloc size stripes i) (sym r) l)
      ∙ ap (λ i. bytes (parity_base size stripes i + k)) r

  stripes_after :
      (j k : ℕ)
      → j < num_hosts
      → j ≢ p
      → k < stripe_alloc size stripes (rank p j)
      → update rbufs m (repair_stripe_from_parity45 (rbufs m) rbufs (rbufs p) m stripes size) j k
        ≡ bytes (parity_base size stripes (rank p j) + k)
  stripes_after j k h ne l =
      let r = rank_before p j (omega (arith, h, last, ne)) in
      let l' = subst (λ i. k < stripe_alloc size stripes i) r l in
      elim (Bool-cases (j == m)) [
        | inl here ↦
            let same_m = eq_of_== j m here in
            rw here (
              repaired bytes size stripes m (rbufs m) rbufs (rbufs p) (λ _. 0)
                (omega (arith, last, lost, host)) byte others_kept
                (λ i.
                  ap (λ (f : Buffer). f i)
                    (same p (omega (arith, last, hosts)) (λ e. lost (sym e))
                      ∙ raid5_write-parity bytes size num_hosts block))
                k (subst (λ i. k < stripe_alloc size stripes i) same_m l')
              ∙ ap (λ i. bytes (parity_base size stripes i + k)) (sym same_m ∙ sym r))
        | inr elsewhere ↦ rw elsewhere (
            others_kept j k (omega (arith, h, last, ne)) (ne_of_== j m elsewhere) l'
            ∙ ap (λ i. bytes (parity_base size stripes i + k)) (sym r))
      ]

  -- Whichever stripe is lost, the block is read back whole when the last host keeps its parity.
  pub raid5_read-write_last :
      (k : ℕ) → k < size → raid5_read rbufs (some m) num_hosts size block target k ≡ bytes k
  unfolding raid5_read
  raid5_read-write_last k l =
      ap
        (λ (b : Bool).
          (read_around
              (if b
                then rbufs
                else update rbufs m
                    (repair_stripe_from_parity45 (rbufs m) rbufs (rbufs p) m stripes size))
              size stripes p target num_hosts).0
            k)
        (ne→== m p lost)
      ∙ read_around-written
          (update rbufs m (repair_stripe_from_parity45 (rbufs m) rbufs (rbufs p) m stripes size))
          size stripes p bytes target num_hosts stripes_after k (subst (λ b. k < b) (sym whole) l)
    where
      whole : parity_base size stripes (rank p num_hosts) ≡ size
      whole =
          ap (parity_base size stripes) (rank_end p num_hosts last hosts)
          ∙ parity_base-all size stripes (omega (arith, hosts))
        where
          rank_end : (p n : ℕ) → p ≡ n - 1 → 2 ≤ n → rank p n ≡ n - 1
          rank_end p n e h = ground arith
