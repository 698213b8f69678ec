-- ===== src/Simulator/Opt.antt =====
-- legacy/OldPageTable/experiment/opt.c: the optimal policy, which knows the trace. The trace and the place in
-- it, opt_head and opt_curr, are lists of page addresses; opt_init is given the addresses that it
-- reads from the lines of the trace file.
use blue_bridge.Prelude.{
  ℕ, zero, suc, ◌+◌, ◌*◌, ◌/◌, map, ◌≤◌, ◌<◌, ◌≡◌, ◌⊎◌, inl, inr, refl, sym, ap, ◌∙◌, Option, none,
  some, Bool-cases, List, [], ◌∷◌, ltb, ◌==◌, if◌then◌else◌, ◌>>=◌, update, subst, eq_of_==,
  ne_of_==, ltb→lt, le_of_ltb, arith, ◌≢◌, get_elem?, some_injective,
}
use mathlib.Core.Option.{none-ne-some}

-- opt_head and opt_curr; the first is never empty while references are left.
pub record Opt : Type 0 where
  pub opt_head : List ℕ
  pub opt_curr : List ℕ

unfoldable pub opt_init : List ℕ → Opt
opt_init trace =
    let pages = map (λ vaddr. vaddr / 4096 * 4096) trace in
    record { opt_head = pages; opt_curr = pages }

-- The next place, from the start again after the last; without a place, a null pointer.
unfoldable pub opt_ref : Opt → Option Opt
opt_ref s = elim s.opt_curr [
  | [] ↦ none
  | _ ∷ [] ↦ some (record s { opt_curr = s.opt_head })
  | _ ∷ p ∷ ps ↦ some (record s { opt_curr = p ∷ ps })
]

-- `while (p && p->vaddr != target_vaddr)`, with the distance so far
unfoldable pub opt_distance : (target : ℕ) → (distance : ℕ) → List ℕ → Option ℕ
opt_distance target distance [] = none
opt_distance target distance (vaddr ∷ p) =
    let rest = opt_distance target (distance + 1) p in
    if vaddr == target then some distance else rest

-- The first loop: a frame that is never used again, or the distances of all.
unfoldable pub opt_scan : (vaddr : ℕ → ℕ) → (after : List ℕ) → (left i : ℕ) → (ℕ → ℕ) → ℕ ⊎ (ℕ → ℕ)
unfolding opt_distance
opt_scan vaddr after zero i opt_dist = inr opt_dist
opt_scan vaddr after (suc left) i opt_dist = elim (opt_distance (vaddr i) 0 after) [
  | none ↦ inl i
  | some distance ↦ opt_scan vaddr after left (i + 1) (update opt_dist i distance)
]

-- The second loop; `none` is a longest distance and frame of -1.
unfoldable pub opt_longest : (opt_dist : ℕ → ℕ) → (n : ℕ) → Option (ℕ × ℕ)
opt_longest opt_dist zero = none
opt_longest opt_dist (suc i) = elim (opt_longest opt_dist i) [
  | none ↦ some (i, opt_dist i)
  | some longest ↦ if ltb (longest.1) (opt_dist i) then some (i, opt_dist i) else some longest
]

-- The frames hold the pages `vaddr` of the coremap. `none` is a null pointer, or the frame -1.
unfoldable pub opt_evict : (vaddr : ℕ → ℕ) → (opt_dist : ℕ → ℕ) → (memsize : ℕ) → Opt → Option ℕ
unfolding opt_scan opt_longest
opt_evict vaddr opt_dist memsize s = elim s.opt_curr [
  | [] ↦ none
  | _ ∷ after ↦ elim (opt_scan vaddr after memsize 0 opt_dist) [
    | inl i ↦ some i
    | inr dist ↦ do longest ← opt_longest dist memsize; some (longest.0)
  ]
]

-- No sooner than: a use that never comes, or as late as the other.
abbrev Later : Option ℕ → Option ℕ → Type 0
Later none e = Unit {0}
Later (some d) none = ⊥
Later (some d) (some e) = e ≤ d

module _ (vaddr : ℕ → ℕ) (after : List ℕ) where
  abbrev next_use : ℕ → Option ℕ
  next_use i = opt_distance (vaddr i) 0 after

  -- What the first loop ends with, of `n` frames.
  abbrev Scanned : ℕ → ℕ ⊎ (ℕ → ℕ) → Type 0
  Scanned n (inl i) = (i < n) × (next_use i ≡ none)
  Scanned n (inr dist) = (j : ℕ) → j < n → next_use j ≡ some (dist j)

  scan_step :
      (left i : ℕ) (dist : ℕ → ℕ) (o : Option ℕ)
      → next_use i ≡ o
      → ((d : ℕ)
          → next_use i ≡ some d
          → Scanned (i + suc left) (opt_scan vaddr after left (i + 1) (update dist i d)))
      → Scanned (i + suc left) (elim o [
        | none ↦ inl i
        | some distance ↦ opt_scan vaddr after left (i + 1) (update dist i distance)
      ])
  scan_step left i dist none e k = (omega arith, e)
  scan_step left i dist (some d) e k = k d e

  opt_scan-Scanned :
      (left i : ℕ) (dist : ℕ → ℕ)
      → ((j : ℕ) → j < i → next_use j ≡ some (dist j))
      → Scanned (i + left) (opt_scan vaddr after left i dist)
  unfolding opt_scan
  opt_scan-Scanned zero i dist h = λ j p. h j (omega arith)
  opt_scan-Scanned (suc left) i dist h = scan_step left i dist (next_use i) refl (λ d e.
      subst (λ n. Scanned n (opt_scan vaddr after left (i + 1) (update dist i d))) (omega arith)
        (opt_scan-Scanned left (i + 1) (update dist i d) (λ j p. elim (Bool-cases (j == i)) [
          | inl same ↦ rw same (ap next_use (eq_of_== j i same) ∙ e)
          | inr other ↦ rw other (h j (omega (arith, ne_of_== j i other)))
        ])))

-- The longest of the first distances.
abbrev IsLongest : (ℕ → ℕ) → ℕ → Option (ℕ × ℕ) → Type 0
IsLongest dist n none = n ≡ 0
IsLongest dist n (some (i, d)) = (i < n) × ((dist i ≡ d) × ((j : ℕ) → j < n → dist j ≤ d))

below_step :
    (dist : ℕ → ℕ) (d i : ℕ)
    → ((j : ℕ) → j < i → dist j ≤ d)
    → dist i ≤ d
    → (j : ℕ) → j < suc i
    → dist j ≤ d
below_step dist d i h k j p = elim (Bool-cases (j == i)) [
  | inl same ↦ subst (λ m. dist m ≤ d) (sym (eq_of_== j i same)) k
  | inr other ↦ h j (omega (arith, ne_of_== j i other))
]

step-IsLongest :
    (dist : ℕ → ℕ) (i : ℕ) (o : Option (ℕ × ℕ))
    → IsLongest dist i o
    → IsLongest dist (suc i) (elim o [
      | none ↦ some (i, dist i)
      | some longest ↦ if ltb (longest.1) (dist i) then some (i, dist i) else some longest
    ])
step-IsLongest dist i none h = (omega arith, (refl, λ j p. omega (arith, h, ap dist (j_eq j p))))
  where
    j_eq : (j : ℕ) → j < suc i → j ≡ i
    j_eq j p = omega (arith, h)
step-IsLongest dist i (some (k, d)) h = elim (Bool-cases (ltb d (dist i))) [
  | inl more ↦ rw more (
    omega arith,
    (
      refl,
      λ j p.
          below_step dist (dist i) i (λ m q. omega (arith, h.1.1 m q, ltb→lt d (dist i) more))
            (omega arith) j p,
    ),
  )
  | inr less ↦ rw less (
    omega (arith, h.0),
    (h.1.0, λ j p. below_step dist d i h.1.1 (le_of_ltb d (dist i) refl less) j p),
  )
]

opt_longest-IsLongest : (dist : ℕ → ℕ) (n : ℕ) → IsLongest dist n (opt_longest dist n)
unfolding opt_longest
opt_longest-IsLongest dist zero = refl
opt_longest-IsLongest dist (suc i) =
    step-IsLongest dist i (opt_longest dist i) (opt_longest-IsLongest dist i)

-- Where opt_distance finds the page: at its first place in the list, or nowhere.
FirstAt : (target k : ℕ) → List ℕ → Option ℕ → Type 0
FirstAt target k p none = (e : ℕ) → get_elem? p e ≢ some target
FirstAt target k p (some d) =
    (m : ℕ) × (d ≡ k + m)
    × (get_elem? p m ≡ some target)
    × ((e : ℕ) → get_elem? p e ≡ some target → m ≤ e)

later_at :
    (target k v : ℕ) (p : List ℕ) (o : Option ℕ)
    → v ≢ target
    → FirstAt target (k + 1) p o
    → FirstAt target k (v ∷ p) o
unfolding FirstAt
later_at target k v p none ne h = λ e. elim e as (λ i. get_elem? (v ∷ p) i ≢ some target) [
  | zero ↦ λ same. ne (some_injective same)
  | suc e ↦ h e
]
later_at target k v p (some d) ne (m, same, at, first) = (
  suc m,
  omega arith,
  at,
  λ e. elim e as (λ i. get_elem? (v ∷ p) i ≡ some target → suc m ≤ i) [
    | zero ↦ λ here. absurd (ne (some_injective here))
    | suc e ↦ λ there. omega (arith, first e there)
  ],
)

opt_distance-FirstAt : (target k : ℕ) (p : List ℕ) → FirstAt target k p (opt_distance target k p)
unfolding opt_distance FirstAt
opt_distance-FirstAt target k [] = λ e same. none-ne-some target same
opt_distance-FirstAt target k (v ∷ p) = elim (Bool-cases (v == target)) [
  | inl found ↦ rw found (zero, omega arith, ap some (eq_of_== v target found), λ e _. omega arith)
  | inr other ↦
      rw other
        (later_at target k v p _ (ne_of_== v target other) (opt_distance-FirstAt target (k + 1) p))
]

-- A page that is used later than another is used by then only if the other is.
used_before :
    (victim other : ℕ) (after : List ℕ) (o o' : Option ℕ)
    → FirstAt victim 0 after o
    → FirstAt other 0 after o'
    → Later o o'
    → (e : ℕ) → get_elem? after e ≡ some victim
    → (d : ℕ) × (d ≤ e) × (get_elem? after d ≡ some other)
unfolding FirstAt
used_before victim other after none o' h h' l e at = absurd (h e at)
used_before victim other after (some d) none h h' l e at = absurd l
used_before victim other after (some d) (some d') (m, same, _, first) (m', same', at', _) l e at =
    (m', omega (arith, first e at), at')

module _ (vaddr : ℕ → ℕ) (now : ℕ) (after : List ℕ) where
  -- What is evicted: a frame such that, wherever its page stands in the trace, the page of every
  -- other frame stands there or before.
  pub record IsFarthest (memsize victim : ℕ) : Type 0 where
    pub in_range : victim < memsize
    pub farthest :
        (j : ℕ)
        → j < memsize
        → (e : ℕ) → get_elem? after e ≡ some (vaddr victim)
        → (d : ℕ) × (d ≤ e) × (get_elem? after d ≡ some (vaddr j))

  Later-IsFarthest :
      (memsize victim : ℕ)
      → victim < memsize
      → ((j : ℕ) → j < memsize → Later (next_use vaddr after victim) (next_use vaddr after j))
      → IsFarthest memsize victim
  Later-IsFarthest memsize victim below later = record {
    in_range = below;
    farthest = λ j p.
        used_before (vaddr victim) (vaddr j) after _ _ (opt_distance-FirstAt (vaddr victim) 0 after)
          (opt_distance-FirstAt (vaddr j) 0 after) (later j p);
  }

  chosen :
      (dist : ℕ → ℕ) (memsize : ℕ) (o : Option (ℕ × ℕ))
      → 0 < memsize
      → ((j : ℕ) → j < memsize → next_use vaddr after j ≡ some (dist j))
      → IsLongest dist memsize o
      → (victim : ℕ) × ((o >>= (λ (l : ℕ × ℕ). some (l.0))) ≡ some victim)
        × IsFarthest memsize victim
  chosen dist memsize none h k l = absurd (omega (arith, l))
  chosen dist memsize (some (i, d)) h k l = (
    i,
    refl,
    Later-IsFarthest memsize i (l.0) (λ j p.
        subst (λ o. Later o (next_use vaddr after j)) (sym (k i l.0))
          (subst (λ o. Later (some (dist i)) o) (sym (k j p)) (omega (arith, l.1.1 j p, l.1.0)))),
  )

  evicted :
      (memsize : ℕ) (o : ℕ ⊎ (ℕ → ℕ))
      → 0 < memsize
      → Scanned vaddr after memsize o
      → (victim : ℕ) × (◌≡◌ {A = Option ℕ}
          (elim o [
            | inl i ↦ some i
            | inr dist ↦ opt_longest dist memsize >>= (λ (l : ℕ × ℕ). some (l.0))
          ])
          (some victim))
        × IsFarthest memsize victim
  evicted memsize (inl i) h s = (
    i,
    refl,
    Later-IsFarthest memsize i (s.0)
        (λ j p. subst (λ o. Later o (next_use vaddr after j)) (sym s.1) tt),
  )
  evicted memsize (inr dist) h s =
      chosen dist memsize (opt_longest dist memsize) h s (opt_longest-IsLongest dist memsize)

  -- While there are frames and the trace goes on, the evicted frame is one whose page is used again
  -- no sooner than any other frame's: where its page stands in the rest of the trace, each other
  -- frame's page stands there or before.
  pub opt_evict-IsFarthest :
      (opt_dist : ℕ → ℕ) (memsize : ℕ) (head : List ℕ)
      → 0 < memsize
      → (victim : ℕ) × (opt_evict vaddr opt_dist memsize
            (record { opt_head = head; opt_curr = now ∷ after })
          ≡ some victim)
        × IsFarthest memsize victim
  unfolding opt_evict
  opt_evict-IsFarthest opt_dist memsize head h =
      evicted memsize (opt_scan vaddr after memsize 0 opt_dist) h (
        subst (λ n. Scanned vaddr after n (opt_scan vaddr after memsize 0 opt_dist)) (omega arith)
          (opt_scan-Scanned vaddr after memsize 0 opt_dist (λ j p. absurd (omega arith))))
