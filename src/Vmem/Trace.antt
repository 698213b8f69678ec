-- ===== src/Vmem/Trace.antt =====
-- Programs that run on the virtual memory of ip6/lib/vmem/page_table.c. The hardware lets a program
-- write a page whose bits are PROT_READ|PROT_WRITE; any other access ends in the fault handler.
use blue_bridge.Prelude.{
  ℕ, ◌<◌, ◌≡◌, ◌∙◌, sym, refl, ap, subst, true, false, some, List, [], ◌∷◌, has, length, arith,
  update, ◌==◌, if◌then◌else◌, inl, inr, Bool-cases, eq_of_==, ne_of_==, ne→==, some_injective,
}
use blue_bridge.Vmem.Backing.{Block, Backing}
use blue_bridge.Vmem.Policy.{Policy}
use blue_bridge.Vmem.PageTable.{PageTable, prot_read_write}
use blue_bridge.Vmem.Fault.{page_fault_handler}
use blue_bridge.Vmem.Fault.Handler.{page_fault_handler-Ends}
use blue_bridge.Vmem.Fault.Invariant.{view, IsResident, IsValid}
use blue_bridge.Vmem.Fault.Install.{in_frame}

pub data Event : Type 0 where
  fault : ℕ → Event
  write : ℕ → Block → Event

-- What an event does to a flat memory.
abbrev pub flat : Event → (ℕ → Block) → ℕ → Block
flat (fault p) m = m
flat (write p d) m = update m p d

abbrev pub flat_run : List Event → (ℕ → Block) → ℕ → Block
flat_run [] m = m
flat_run (e ∷ es) m = flat_run es (flat e m)

-- The flat memory of a run depends only on the pages in range.
flat-cong :
    (n : ℕ) (e : Event) (m m' : ℕ → Block)
    → ((p : ℕ) → p < n → m p ≡ m' p)
    → (p : ℕ) → p < n
    → flat e m p ≡ flat e m' p
flat-cong n (fault q) m m' h p lt = h p lt
flat-cong n (write q d) m m' h p lt = ap (λ x. if p == q then d else x) (h p lt)

flat_run-cong :
    (n : ℕ) (es : List Event) (m m' : ℕ → Block)
    → ((p : ℕ) → p < n → m p ≡ m' p)
    → (p : ℕ) → p < n
    → flat_run es m p ≡ flat_run es m' p
flat_run-cong n [] m m' h = h
flat_run-cong n (e ∷ es) m m' h = flat_run-cong n es (flat e m) (flat e m') (flat-cong n e m m' h)

module _ {P : Policy} {B : Backing} where
  abbrev pub write_frame : ℕ → Block → PageTable P B → PageTable P B
  write_frame page d pt = record pt { physmem = update pt.physmem (pt.page_mapping page) d }

  -- One access of the program.
  pub data Step (pt : PageTable P B) : Event → PageTable P B → Type 0 where
    faults :
        {pt' : PageTable P B} {page : ℕ}
        → page < pt.npages
        → page_fault_handler page pt ≡ some pt'
        → Step pt (fault page) pt'
    writes :
        {page : ℕ} {d : Block}
        → page < pt.npages
        → pt.page_bits page ≡ prot_read_write
        → length d ≡ B.block_size
        → Step pt (write page d) (write_frame page d pt)

  pub data Run : PageTable P B → List Event → PageTable P B → Type 0 where
    done : {pt : PageTable P B} → Run pt [] pt
    then_run :
        {pt mid pt' : PageTable P B} {e : Event} {es : List Event}
        → Step pt e mid
        → Run mid es pt'
        → Run pt (e ∷ es) pt'

  -- A page with bits is in memory.
  in_memory :
      (pt : PageTable P B) (ks : List ℕ) (p : ℕ)
      → IsValid pt ks
      → pt.page_bits p ≡ prot_read_write
      → has p ks ≡ true
  in_memory pt ks p v b = elim (Bool-cases (has p ks)) [
    | inl o ↦ o
    | inr o ↦ absurd (omega (arith, v.absent p o))
  ]

  -- The frames of two pages in memory differ.
  other_frame :
      (pt : PageTable P B) (ks : List ℕ) (p q : ℕ)
      → IsValid pt ks
      → has p ks ≡ true
      → has q ks ≡ true
      → (p == q) ≡ false
      → (pt.page_mapping p == pt.page_mapping q) ≡ false
  other_frame pt ks p q v o u n = ne→== _ _ (λ e. ne_of_== p q n (v.apart p q o u e))

  module _ (page : ℕ) (d : Block) (pt : PageTable P B) (ks : List ℕ) (v : IsValid pt ks)
      (b : pt.page_bits page ≡ prot_read_write) (w : length d ≡ B.block_size) where
    written-IsResident : (p : ℕ) → has p ks ≡ true → IsResident (write_frame page d pt) ks p
    written-IsResident p o =
        let r = v.resident p o in
        record {
          in_range = r.in_range;
          bits = r.bits;
          from_start = r.from_start;
          to_count = r.to_count;
          width = ground (arith, r.width);
          clean = λ c. elim (Bool-cases (p == page)) [
            | inl same ↦ absurd (omega (arith, sym (ap pt.page_bits (eq_of_== p page same)) ∙ c, b))
            | inr other ↦
                rw (other_frame pt ks p page v o (in_memory pt ks page v b) other) (r.clean c)
          ];
        }

    write_frame-IsValid : IsValid (write_frame page d pt) ks
    write_frame-IsValid = record {
      holds = v.holds;
      ready = v.ready;
      backed = v.backed;
      frames = v.frames;
      some_frame = v.some_frame;
      within = v.within;
      resident = written-IsResident;
      absent = v.absent;
      apart = v.apart;
    }

    write_frame-view : (p : ℕ) → view (write_frame page d pt) p ≡ update (view pt) page d p
    write_frame-view p = elim (Bool-cases (p == page)) [
      | inl same ↦ rw same (
          subst (λ x. view (write_frame page d pt) x ≡ d) (sym (eq_of_== p page same))
            (in_frame (pt.page_bits page) _ _ (inr b) ∙ (ground arith)))
      | inr other ↦ elim (Bool-cases (has p ks)) [
        | inl o ↦ rw (other, other_frame pt ks p page v o (in_memory pt ks page v b) other)
        | inr o ↦ rw (other, v.absent p o)
      ]
    ]

  -- What one access does, on the table and on the memory seen.
  record Stepped (pt pt' : PageTable P B) (e : Event) : Type 0 where
    pages : List ℕ
    valid : IsValid pt' pages
    npages : pt'.npages ≡ pt.npages
    seen : (p : ℕ) → p < pt.npages → view pt' p ≡ flat e (view pt) p

  step_lem :
      {pt pt' : PageTable P B} {e : Event} (ks : List ℕ)
      → Step pt e pt'
      → IsValid pt ks
      → Stepped pt pt' e
  step_lem {pt} {pt'} ks (faults {page} lt run) v =
      let e = page_fault_handler-Ends page pt ks v lt in
      let same : e.after ≡ pt' = some_injective (sym e.run ∙ run) in
      subst (λ x. Stepped pt x (fault page)) same
        (record {
          pages = e.pages;
          valid = e.valid;
          npages = e.same.npages_kept;
          seen = e.same.view_kept;
        })
  step_lem ks (writes {page} {d} lt b w) v = record {
    pages = ks;
    valid = write_frame-IsValid page d _ ks v b w;
    npages = refl;
    seen = λ p h. write_frame-view page d _ ks v b w p;
  }

  run_lem :
      {pt pt' : PageTable P B} {es : List Event} (ks : List ℕ)
      → Run pt es pt'
      → IsValid pt ks
      → ((ks' : List ℕ) × IsValid pt' ks')
        × ((p : ℕ) → p < pt.npages → view pt' p ≡ flat_run es (view pt) p)
  run_lem ks done v = ((ks, v), λ p h. refl)
  run_lem ks (then_run {es} s r) v =
      let t = step_lem ks s v in
      let (valid, seen) = run_lem t.pages r t.valid in
      (valid, λ p h. seen p (rw t.npages h) ∙ flat_run-cong _ es _ _ t.seen p h)

  -- Whatever faults happen in a run, and whatever pages they move between the frames and the store,
  -- each page in range holds what the run last wrote to it, and the table stays valid.
  pub Run-flat :
      {pt pt' : PageTable P B} {es : List Event} (ks : List ℕ) (p : ℕ)
      → Run pt es pt'
      → IsValid pt ks
      → p < pt.npages
      → (view pt' p ≡ flat_run es (view pt) p) × ((ks' : List ℕ) × IsValid pt' ks')
  Run-flat ks p r v h = let (valid, seen) = run_lem ks r v in (seen p h, valid)
