-- ===== src/Vmem/Fault/Grant.antt =====
-- A fault on a page that is in memory (ip6/lib/vmem/page_table.c): it becomes writable.
use blue_bridge.Prelude.{
  ℕ, ◌≤◌, ◌<◌, ◌≡◌, ◌∙◌, sym, refl, true, Option, some, List, has, arith, update, eq_of_==,
  update_same,
}
use blue_bridge.Vmem.Backing.{Backing}
use blue_bridge.Vmem.Policy.{Policy, SamePages}
use blue_bridge.Vmem.PageTable.{PageTable, prot_read_write, page_table_set_entry}
use blue_bridge.Vmem.Fault.{set_write_bit}
use blue_bridge.Vmem.Fault.Invariant.{IsResident, IsValid, SameView}

module _ {P : Policy} {B : Backing} where
  -- page_table_set_entry aborts neither on a page nor on a frame in range.
  pub set_entry_in_range :
      (page frame bits : ℕ) (pt : PageTable P B)
      → page < pt.npages
      → pt.start_frame ≤ frame
      → frame < pt.end_frame
      → page_table_set_entry page frame bits pt
        ≡ some (record pt {
          page_mapping = update pt.page_mapping page frame;
          page_bits = update pt.page_bits page bits;
        })
  unfolding page_table_set_entry
  set_entry_in_range page frame bits pt h l u = ground arith

  -- How a step ends: with which table, which pages in memory, and what holds of it.
  pub record Ends (pt : PageTable P B) (page bits : ℕ) (r : Option (PageTable P B)) : Type 0 where
    pub after : PageTable P B
    pub pages : List ℕ
    pub run : r ≡ some after
    pub valid : IsValid after pages
    pub same : SameView pt after
    pub in_memory : has page pages ≡ true
    pub granted : after.page_bits page ≡ bits

  writable-IsResident :
      (pt : PageTable P B) (s : P.State) (ks ks' : List ℕ) (page p : ℕ)
      → SamePages ks' ks
      → IsResident pt ks p
      → IsResident
          (record pt {
            page_mapping = update pt.page_mapping page (pt.page_mapping page);
            page_bits = update pt.page_bits page prot_read_write;
            pages = s;
          })
          ks'
          p
  writable-IsResident pt s ks ks' page p same r =
      let m = update_same pt.page_mapping page p in
      record {
        in_range = r.in_range;
        bits = ground (arith, r.bits);
        from_start = rw m r.from_start;
        to_count = rw (m, same.1) r.to_count;
        width = rw m r.width;
        clean = λ b. rw m (r.clean (ground arith));
      }

  pub set_write_bit-Ends :
      (page : ℕ) (pt : PageTable P B) (ks : List ℕ)
      → IsValid pt ks
      → has page ks ≡ true
      → Ends pt page prot_read_write (set_write_bit page (pt.page_mapping page) pt)
  unfolding set_write_bit
  set_write_bit-Ends page pt ks v found =
      let (s, ks', e, h, same) = P.touch-Holds page pt.pages ks v.holds found in
      let r = v.resident page found in
      record {
        after = record pt {
          page_mapping = update pt.page_mapping page (pt.page_mapping page);
          page_bits = update pt.page_bits page prot_read_write;
          pages = s;
        };
        pages = ks';
        run = rw e (
            set_entry_in_range page (pt.page_mapping page) prot_read_write (record pt { pages = s })
              r.in_range r.from_start (omega (arith, r.to_count, v.frames, v.within)));
        valid = record {
          holds = h;
          ready = v.ready;
          backed = v.backed;
          frames = v.frames;
          some_frame = v.some_frame;
          within = omega (arith, v.within, same.1);
          resident = λ p m.
              writable-IsResident pt s ks ks' page p same (v.resident p (sym (same.0 p) ∙ m));
          absent = λ p m. ground (arith, v.absent p (sym (same.0 p) ∙ m), same.0 page);
          apart = λ p q m n e.
              v.apart p q (sym (same.0 p) ∙ m) (sym (same.0 q) ∙ n)
                (sym (update_same pt.page_mapping page p) ∙ e ∙ update_same pt.page_mapping page q);
        };
        same = record {
          view_kept = λ p lt.
              rw (update_same pt.page_mapping page p) (ground (arith, r.bits, eq_of_== p page));
          npages_kept = refl;
          nframes_kept = refl;
        };
        in_memory = same.0 page ∙ found;
        granted = ground arith;
      }
