-- ===== src/Vmem/Fault/Fill.antt =====
-- A fault on a page that is not in memory while a frame is free (ip6/lib/vmem/page_table.c).
use blue_bridge.Prelude.{
  ℕ, ◌+◌, ◌<◌, ◌≡◌, refl, false, List, ◌∷◌, has, length, arith, update, update_self, ne_of_has,
  has_self, not_==_of_lt,
}
use blue_bridge.Vmem.Backing.{Backing}
use blue_bridge.Vmem.Policy.{Policy}
use blue_bridge.Vmem.PageTable.{PageTable, prot_read, incr, read_data}
use blue_bridge.Vmem.Fault.{fill_frame}
use blue_bridge.Vmem.Fault.Grant.{Ends, set_entry_in_range}
use blue_bridge.Vmem.Fault.Invariant.{view, IsResident, IsValid}
use blue_bridge.Vmem.Fault.Install.{Room, Filled, filled-IsValid, filled-view, in_frame}

module _ {P : Policy} {B : Backing} where
  wider :
      (pt : PageTable P B) (page : ℕ) (ks : List ℕ) (p : ℕ)
      → IsResident pt ks p
      → IsResident pt (page ∷ ks) p
  wider pt page ks p r = record {
    in_range = r.in_range;
    bits = r.bits;
    from_start = r.from_start;
    to_count = omega (arith, r.to_count);
    width = r.width;
    clean = r.clean;
  }

  -- The frame behind the last one used is free.
  fill-Room :
      (pt : PageTable P B) (page f : ℕ) (ks : List ℕ)
      → IsValid pt ks
      → page < pt.npages
      → has page ks ≡ false
      → f ≡ length ks + pt.start_frame
      → length ks < pt.nframes
      → Room pt page f ks
  fill-Room pt page f ks v lt out e free = record {
    fresh = out;
    in_range = lt;
    ready = v.ready;
    backed = v.backed;
    frames = v.frames;
    some_frame = v.some_frame;
    within = free;
    low = omega arith;
    high = omega arith;
    resident = λ p o. wider pt page ks p (v.resident p o);
    unused = λ p o. not_==_of_lt _ f (omega (arith, (v.resident p o).to_count));
    apart = v.apart;
  }

  pub fill_frame-Ends :
      (page : ℕ) (pt : PageTable P B) (ks : List ℕ)
      → IsValid pt ks
      → page < pt.npages
      → has page ks ≡ false
      → P.tracked pt.pages < pt.nframes
      → Ends pt page prot_read (fill_frame page pt)
  unfolding fill_frame read_data
  fill_frame-Ends page pt ks v lt out free =
      let n = P.tracked-length pt.pages ks v.holds in
      let f = P.tracked pt.pages + pt.start_frame in
      let m = fill-Room pt page f ks v lt out (omega (arith, n)) (omega (arith, n)) in
      let (s, e, h) = P.insert-Holds page pt.pages ks v.holds out in
      let (st, e', ready, size, same) =
        B.read_back page pt.store v.ready (omega (arith, v.backed)) in
      let pt' : PageTable P B = record pt {
        physmem = update pt.physmem f (B.contents pt.store page);
        page_mapping = update pt.page_mapping page f;
        page_bits = update pt.page_bits page prot_read;
        page_reads = incr pt.page_reads;
        pages = s;
        store = st;
      } in
      let d : Filled pt pt' page f ks = record {
        holds = h;
        ready = ready;
        nblocks = size;
        contents = same;
        physmem = λ g. refl;
        mapping_page = update_self pt.page_mapping page f;
        mapping_rest = λ p o. rw (ne_of_has p page ks o out);
        bits_page = update_self pt.page_bits page prot_read;
        bits_rest = λ p o. rw (ne_of_has p page ks o out);
        bits_other = λ p o. ground (arith, v.absent p);
        npages = refl;
        nframes = refl;
        start_frame = refl;
        end_frame = refl;
      } in
      record {
        after = pt';
        pages = page ∷ ks;
        run = rw (
          e,
          set_entry_in_range page f prot_read (record pt { pages = s }) lt m.low
              (omega (arith, m.high, m.frames, m.within)),
          e',
        );
        valid = filled-IsValid pt pt' page f ks m d;
        same = record {
          view_kept =
              filled-view pt pt' page f ks m d (view pt)
                (λ p o. in_frame (pt.page_bits p) _ _ (v.resident p o).bits)
                (λ p _ o. rw (v.absent p o));
          npages_kept = refl;
          nframes_kept = refl;
        };
        in_memory = has_self page ks;
        granted = d.bits_page;
      }
