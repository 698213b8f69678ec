-- ===== src/Client/Counts.antt =====
-- The counts of batch_write (ip6/lib/client_lib.c): how many packets each server gets, and how many
-- servers wait for their last one.
use blue_bridge.Prelude.{
  ℕ, zero, suc, ◌+◌, ◌%◌, ◌^◌, ◌≤◌, ◌<◌, ◌≡◌, inl, inr, refl, sym, ap, subst, ◌∙◌, List, [], ◌∷◌,
  length, drop, arith, update, ltb, ◌==◌, if◌then◌else◌, eq_of_==, ne_of_==, ==_refl, lt→ltb,
  Bool-cases,
}
use blue_bridge.Types.{Memaddr}
use blue_bridge.Client.{write_pkts}

abbrev pub bump : (ℕ → ℕ) → ℕ → ℕ → ℕ
bump c s = update c s ((c s + 1) % 2 ^ 32)

pub bump_le : (c : ℕ → ℕ) (s j : ℕ) → bump c s j ≤ c j + 1
bump_le c s j = elim (Bool-cases (j == s)) [
  | inl same ↦
      rw same (subst (λ x. (c s + 1) % 2 ^ 32 ≤ c x + 1) (sym (eq_of_== j s same)) (omega arith))
  | inr other ↦ rw other (omega arith)
]

le-bump : (c : ℕ → ℕ) (s j : ℕ) → c s < 2 ^ 16 → c j ≤ bump c s j
le-bump c s j h = elim (Bool-cases (j == s)) [
  | inl same ↦
      rw same (subst (λ x. c x ≤ (c s + 1) % 2 ^ 32) (sym (eq_of_== j s same)) (omega arith))
  | inr other ↦ rw other (omega arith)
]

-- How many packets each server gets, counted on from `c`.
abbrev pub totals : (ℕ → ℕ) → List Memaddr → ℕ → ℕ
totals c [] = c
totals c (a ∷ addrs) = totals (update c a.subid ((c a.subid + 1) % 2 ^ 32)) addrs

-- The servers below `n` whose count `c` is not yet complete.
abbrev pub pending : ℕ → (ℕ → ℕ) → (ℕ → ℕ) → ℕ
pending zero c t = 0
pending (suc n) c t = let rest = pending n c t in if ltb (c n) (t n) then suc rest else rest

pub write_pkts-totals :
    (port : ℕ) (addrs : List Memaddr) (payload : List ℕ) (n : ℕ) (c : ℕ → ℕ)
    → (write_pkts port addrs payload n c).1 ≡ totals c addrs
unfolding write_pkts
write_pkts-totals port [] payload n c = refl
write_pkts-totals port (a ∷ addrs) payload n c = write_pkts-totals port addrs (drop n payload) n _

-- A count only grows, and stays below the number of packets.
pub le-totals :
    (c : ℕ → ℕ) (addrs : List Memaddr) (s : ℕ)
    → ((j : ℕ) → c j + length addrs < 2 ^ 16)
    → c s ≤ totals c addrs s
le-totals c [] s h = omega arith
le-totals c (a ∷ addrs) s h = omega (
  arith,
  le-totals (bump c a.subid) addrs s (λ j. omega (arith, h j, bump_le c a.subid j)),
  le-bump c a.subid s (omega (arith, h a.subid)),
)

pub totals_le :
    (c : ℕ → ℕ) (addrs : List Memaddr) (s : ℕ)
    → ((j : ℕ) → c j + length addrs < 2 ^ 16)
    → totals c addrs s ≤ c s + length addrs
totals_le c [] s h = omega arith
totals_le c (a ∷ addrs) s h = omega (
  arith,
  totals_le (bump c a.subid) addrs s (λ j. omega (arith, h j, bump_le c a.subid j)),
  bump_le c a.subid s,
)

pending_end :
    (n : ℕ) (c t : ℕ → ℕ)
    → c n < t n
    → pending n c t
      ≡ pending n (update c n (c n + 1)) t
        + (if ltb n n then (if c n + 1 == t n then 1 else 0) else 0)
    → pending (suc n) c t
      ≡ pending (suc n) (update c n (c n + 1)) t
        + (if ltb n (suc n) then (if c n + 1 == t n then 1 else 0) else 0)
pending_end n c t h k = rw (==_refl n) (ground arith)

-- The last packet to a server completes its count, and no other does.
pub pending-update :
    (n : ℕ) (c t : ℕ → ℕ) (s : ℕ)
    → c s < t s
    → pending n c t
      ≡ pending n (update c s (c s + 1)) t
        + (if ltb s n then (if c s + 1 == t s then 1 else 0) else 0)
pending-update zero c t s h = ground arith
pending-update (suc n) c t s h = elim (Bool-cases (n == s)) [
  | inl same ↦
      subst
        (λ s.
          c s < t s
          → pending n c t
            ≡ pending n (update c s (c s + 1)) t
              + (if ltb s n then (if c s + 1 == t s then 1 else 0) else 0)
          → pending (suc n) c t
            ≡ pending (suc n) (update c s (c s + 1)) t
              + (if ltb s (suc n) then (if c s + 1 == t s then 1 else 0) else 0))
        (eq_of_== n s same) (pending_end n c t) h (pending-update n c t s h)
  | inr other ↦ rw other (ground (arith, pending-update n c t s h, ne_of_== n s other))
]

pub pending-bump :
    (n : ℕ) (c t : ℕ → ℕ) (s : ℕ)
    → c s < 2 ^ 16
    → c s < t s
    → s < n
    → pending n c t ≡ pending n (bump c s) t + (if (c s + 1) % 2 ^ 32 == t s then 1 else 0)
pending-bump n c t s small h k =
    subst (λ v. pending n c t ≡ pending n (update c s v) t + (if v == t s then 1 else 0))
      (omega arith)
      (pending-update n c t s h
        ∙ ap
            (λ b.
              pending n (update c s (c s + 1)) t
              + (if b then (if c s + 1 == t s then 1 else 0) else 0))
            (lt→ltb s n k))

pub pending_none : (n : ℕ) (c : ℕ → ℕ) → pending n c c ≡ 0
pending_none zero c = refl
pending_none (suc n) c = ground (arith, pending_none n c)
