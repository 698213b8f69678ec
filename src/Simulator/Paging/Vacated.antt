-- ===== src/Simulator/Paging/Vacated.antt =====
-- legacy/OldPageTable/experiment/pagetable.c: a frame is free or made so.
use blue_bridge.Prelude.{
  ℕ, zero, suc, ◌+◌, ◌<◌, ◌≤◌, ◌≡◌, refl, sym, ap, subst, ◌∙◌, inl, inr, Option, none, some, Bool,
  List, Bool-cases, true, false, update, update_self, update_twice, if◌then◌else◌, arith,
  some_injective, Option-cases, ne→==, eq_of_==, ne_of_==, ◌==◌,
}
use mathlib.Core.Option.{none-ne-some}
use blue_bridge.Simulator.Paging.{
  Entry, Swap, Sim, free_frame, swap_slot, swap_pageout, evict_dirty, evict_clean, evict_page,
  vacate,
}
use blue_bridge.Simulator.Paging.Contents.{SwapLaws, Backed, content_of, written_out, dropped}
use blue_bridge.Simulator.Paging.Linked.{Linked, Spare, Linked-free, Linked-evicted, clash}

-- What the search for a free frame answers.
free_frame-some :
    (n i f : ℕ) (in_use : ℕ → Bool)
    → free_frame n i in_use ≡ some f
    → (f < i + n) × (in_use f ≡ false)
unfolding free_frame
free_frame-some zero i f in_use e = absurd (none-ne-some f e)
free_frame-some (suc n) i f in_use e = elim (Bool-cases (in_use i)) [
  | inl used ↦
      let (below, free) = free_frame-some n (i + 1) f in_use (rw used at e) in (omega arith, free)
  | inr free ↦
      let same : i ≡ f = some_injective (rw free at e) in (omega arith, ap in_use (sym same) ∙ free)
]

free_frame-none :
    (n i j : ℕ) (in_use : ℕ → Bool)
    → free_frame n i in_use ≡ none
    → i ≤ j
    → j < i + n
    → in_use j ≡ true
unfolding free_frame
free_frame-none zero i j in_use e low high = absurd (omega arith)
free_frame-none (suc n) i j in_use e low high = elim (Bool-cases (in_use i)) [
  | inl used ↦ elim (Bool-cases (j == i)) [
    | inl same ↦ ap in_use (eq_of_== _ _ same) ∙ used
    | inr other ↦
        let apart = ne_of_== _ _ other in
        free_frame-none n (i + 1) j in_use (rw used at e) (omega arith) (omega arith)
  ]
  | inr free ↦ absurd (none-ne-some i (sym (rw free at e)))
]

module _ {W : Swap} {P : Type 0} (laws : SwapLaws W) where
  -- What the page `p` holds.
  abbrev pub content : Sim W P → ℕ → Option (List ℕ)
  content s p = content_of W s.physmem s.store (s.entries p)

  -- Entries and frames point at each other, and pages that are not dirty are on swap.
  pub record Consistent (memsize : ℕ) (s : Sim W P) : Type 0 where
    pub linked : Linked memsize s.entries s.in_use s.pte
    pub backed : Backed W laws s.entries s.physmem s.store

  -- What an eviction leaves.
  record Evicted (s : Sim W P) (v : ℕ) (t : Sim W P) : Type 0 where
    entry : Entry
    invalid : entry.valid ≡ false
    slot : entry.on_swap ≡ true → (a : ℕ) × (entry.swap_off ≡ some a)
    entries : t.entries ≡ update s.entries v entry
    in_use : t.in_use ≡ s.in_use
    pte : t.pte ≡ s.pte
    backed : Backed W laws t.entries t.physmem t.store
    keeps : (q : ℕ) → content t q ≡ content s q

  evict_dirty-Evicted :
      (frame v : ℕ) (s : Sim W P)
      → Backed W laws s.entries s.physmem s.store
      → (s.entries v).valid ≡ true
      → (s.entries v).number ≡ frame
      → Evicted s v (evict_dirty frame v s)
  unfolding evict_dirty swap_pageout
  evict_dirty-Evicted frame v s b valid number =
      let a = (swap_slot W (s.entries v).swap_off s.store).0 in
      let e : Entry = record (s.entries v) { swap_off = some a } in
      let x : Entry = record e { valid = false; on_swap = true } in
      let store' = W.write (s.physmem frame) a ((swap_slot W (s.entries v).swap_off s.store).1) in
      let left = written_out W laws s.entries s.physmem s.store b v valid frame number in
      let same =
        update_twice s.entries v e _
        ∙ ap (λ (x : Entry). update s.entries v (record x { valid = false; on_swap = true }))
            (update_self s.entries v e) in
      record {
        entry = x;
        invalid = refl;
        slot = λ _. (a, refl);
        entries = same;
        in_use = refl;
        pte = refl;
        backed = rw same left.backed;
        keeps =
            λ q. ap (λ (en : ℕ → Entry). content_of W s.physmem store' (en q)) same ∙ left.keeps q;
      }

  evict_clean-Evicted :
      (v : ℕ) (s : Sim W P)
      → Backed W laws s.entries s.physmem s.store
      → (s.entries v).valid ≡ true
      → (s.entries v).dirty ≡ false
      → ((s.entries v).on_swap ≡ true → (a : ℕ) × ((s.entries v).swap_off ≡ some a))
      → Evicted s v (evict_clean v s)
  unfolding evict_clean
  evict_clean-Evicted v s b valid clean held =
      let left = dropped W laws s.entries s.physmem s.store b v valid clean in
      record {
        entry = record (s.entries v) { valid = false };
        invalid = refl;
        slot = held;
        entries = refl;
        in_use = refl;
        pte = refl;
        backed = left.backed;
        keeps = left.keeps;
      }

  evict_page-Evicted :
      (frame v : ℕ) (s : Sim W P)
      → Backed W laws s.entries s.physmem s.store
      → (s.entries v).valid ≡ true
      → (s.entries v).number ≡ frame
      → ((s.entries v).on_swap ≡ true → (a : ℕ) × ((s.entries v).swap_off ≡ some a))
      → Evicted s v (evict_page frame v s)
  unfolding evict_page
  evict_page-Evicted frame v s b valid number held = elim (Bool-cases (s.entries v).dirty) [
    | inl dirty ↦
        subst (λ (d : Bool). Evicted s v (if d then evict_dirty frame v s else evict_clean v s))
          (sym dirty) (evict_dirty-Evicted frame v s b valid number)
    | inr clean ↦
        subst (λ (d : Bool). Evicted s v (if d then evict_dirty frame v s else evict_clean v s))
          (sym clean) (evict_clean-Evicted v s b valid clean held)
  ]

  -- A frame for a page, before the page has it.
  pub record Vacated (memsize : ℕ) (before : ℕ → Entry) (seen : ℕ → Option (List ℕ)) (frame : ℕ)
      (t : Sim W P) : Type 0 where
    pub spare : Spare memsize frame t.entries t.in_use t.pte
    pub out : (p : ℕ) → (before p).valid ≡ false → t.entries p ≡ before p
    pub backed : Backed W laws t.entries t.physmem t.store
    pub keeps : (q : ℕ) → content t q ≡ seen q

  Evicted-Vacated :
      (memsize frame : ℕ) (s t : Sim W P)
      → Linked memsize s.entries s.in_use s.pte
      → frame < memsize
      → s.in_use frame ≡ true
      → Evicted s (s.pte frame) t
      → Vacated memsize s.entries (content s) frame t
  Evicted-Vacated memsize frame s t l below used ev = record {
    spare = rw ev.entries (
        rw ev.in_use (
          rw ev.pte (
            Linked-evicted memsize frame s.entries s.in_use s.pte ev.entry l below used ev.invalid
              ev.slot)));
    out = λ p gone. rw ev.entries (
        rw
          (ne→== p (s.pte frame) (λ e.
            clash ((l.tenant frame below used).0) (ap (λ q. (s.entries q).valid) (sym e) ∙ gone)))
          refl);
    backed = ev.backed;
    keeps = ev.keeps;
  }

  module _ (memsize : ℕ) (evict_fcn : P → Option (ℕ × P)) (ref_fcn : Entry → P → P)
      (evicts : (p : P) → (f : ℕ) × (q : P) × (evict_fcn p ≡ some (f, q)) × (f < memsize)) where
    pub vacate-Vacated :
        (s : Sim W P)
        → Consistent memsize s
        → (frame : ℕ) × (t : Sim W P) × (vacate memsize evict_fcn ref_fcn s ≡ some (frame, t))
          × Vacated memsize s.entries (content s) frame t
    unfolding vacate
    vacate-Vacated s c = elim (Option-cases (free_frame memsize 0 s.in_use)) [
      | inr (f, e) ↦
          let (below, free) = free_frame-some memsize 0 f s.in_use e in
          (
            f,
            s,
            rw (e, vacate) refl,
            record {
              spare = Linked-free memsize f s.entries s.in_use s.pte c.linked (omega arith) free;
              out = λ _ _. refl;
              backed = c.backed;
              keeps = λ _. refl;
            },
          )
      | inl e ↦
          let (f, q, chosen, below) = evicts s.policy in
          let s' : Sim W P = record s { policy = q } in
          let used = free_frame-none memsize 0 f s.in_use e (omega arith) (omega arith) in
          let (valid, number) = c.linked.tenant f below used in
          (
            f,
            evict_page f (s.pte f) s',
            rw (e, vacate) (rw chosen refl),
            Evicted-Vacated memsize f s' _ c.linked below used
                (evict_page-Evicted f (s.pte f) s' c.backed valid number (c.linked.slot (s.pte f))),
          )
    ]
