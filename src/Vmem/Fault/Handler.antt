-- ===== src/Vmem/Fault/Handler.antt =====
-- The whole page fault handler of ip6/lib/vmem/page_table.c.
use blue_bridge.Prelude.{
  ℕ, ◌≤◌, ◌<◌, ◌≡◌, ◌∙◌, false, Option, none, List, [], ◌∷◌, has, length, arith, ◌==◌,
  if◌then◌else◌, inl, inr, Bool-cases, ltb, ltb→lt, le_of_ltb,
}
use blue_bridge.Vmem.Backing.{Backing}
use blue_bridge.Vmem.Policy.{Policy}
use blue_bridge.Vmem.PageTable.{
  PageTable, prot_none, prot_read, prot_read_write, incr, page_table_get_entry,
}
use blue_bridge.Vmem.Fault.{replace_frame, page_fault_handler}
use blue_bridge.Vmem.Fault.Fill.{fill_frame-Ends}
use blue_bridge.Vmem.Fault.Grant.{Ends, set_write_bit-Ends}
use blue_bridge.Vmem.Fault.Invariant.{IsValid}
use blue_bridge.Vmem.Fault.Install.{in_frame}
use blue_bridge.Vmem.Fault.Replace.{get_entry_in_range, replace_frame-Ends}

-- The bits that a fault on a page with the bits `b` gives it.
abbrev pub next_bits : ℕ → ℕ
next_bits b = if b == prot_none then prot_read else prot_read_write

module _ {P : Policy} {B : Backing} where
  abbrev counted : PageTable P B → PageTable P B
  counted pt = record pt { page_faults = incr pt.page_faults }

  counted-IsValid : (pt : PageTable P B) (ks : List ℕ) → IsValid pt ks → IsValid (counted pt) ks
  counted-IsValid pt ks v = record {
    holds = v.holds;
    ready = v.ready;
    backed = v.backed;
    frames = v.frames;
    some_frame = v.some_frame;
    within = v.within;
    resident = λ p o.
        let r = v.resident p o in
        record {
          in_range = r.in_range;
          bits = r.bits;
          from_start = r.from_start;
          to_count = r.to_count;
          width = r.width;
          clean = r.clean;
        };
    absent = v.absent;
    apart = v.apart;
  }

  relabel :
      (pt : PageTable P B) (page b : ℕ) (r r' : Option (PageTable P B))
      → r' ≡ r
      → Ends (counted pt) page b r
      → Ends pt page b r'
  relabel pt page b r r' eq e = record {
    after = e.after;
    pages = e.pages;
    run = eq ∙ e.run;
    valid = e.valid;
    same = record {
      view_kept = e.same.view_kept;
      npages_kept = e.same.npages_kept;
      nframes_kept = e.same.nframes_kept;
    };
    in_memory = e.in_memory;
    granted = e.granted;
  }

  full :
      (page : ℕ) (pt : PageTable P B) (ks : List ℕ)
      → IsValid pt ks
      → page < pt.npages
      → has page ks ≡ false
      → pt.nframes ≤ length ks
      → Ends pt page prot_read (replace_frame page pt)
  full page pt [] v lt out h = absurd (omega (arith, v.some_frame))
  full page pt (k ∷ ks) v lt out h = replace_frame-Ends page k pt ks v lt out

  -- A fault on a page in range never aborts: it brings the page in with read permission, or makes
  -- it writable if it is in, and the program sees the same memory.
  pub page_fault_handler-Ends :
      (page : ℕ) (pt : PageTable P B) (ks : List ℕ)
      → IsValid pt ks
      → page < pt.npages
      → Ends pt page (next_bits (pt.page_bits page)) (page_fault_handler page pt)
  unfolding page_fault_handler
  page_fault_handler-Ends page pt ks v lt =
      let pt0 = counted pt in
      let v0 = counted-IsValid pt ks v in
      let entry = get_entry_in_range page pt0 lt in
      let n = P.tracked-length pt.pages ks v.holds in
      elim (Bool-cases (has page ks)) [
        | inl o ↦
            let b =
              in_frame (pt.page_bits page) prot_read prot_read_write (v.resident page o).bits in
            rw b (
              relabel pt page prot_read_write _ _
                (rw entry (in_frame (pt.page_bits page) _ _ (v.resident page o).bits))
                (set_write_bit-Ends page pt0 ks v0 o))
        | inr o ↦ elim (Bool-cases (ltb (P.tracked pt.pages) pt.nframes)) [
          | inl free ↦ rw (v.absent page o) (
              relabel pt page prot_read _ _ (rw (entry, v.absent page o, free))
                (fill_frame-Ends page pt0 ks v0 lt o (ltb→lt _ _ free)))
          | inr used ↦ rw (v.absent page o) (
              relabel pt page prot_read _ _ (rw (entry, v.absent page o, used))
                (full page pt0 ks v0 lt o (le_of_ltb _ _ n used)))
        ]
      ]

  -- A fault beyond the virtual memory aborts, and so does every caller.
  pub page_fault_handler_illegal :
      (page : ℕ) (pt : PageTable P B) → pt.npages ≤ page → page_fault_handler page pt ≡ none
  unfolding page_fault_handler page_table_get_entry
  page_fault_handler_illegal page pt h = ground arith
