-- ===== src/Vmem/Fault/Replace.antt =====
-- A fault on a page that is not in memory while no frame is free (ip6/lib/vmem/page_table.c): a page
-- is written back if it is dirty, and its frame is given to the new one.
use blue_bridge.Prelude.{
  ℕ, ◌≤◌, ◌<◌, ◌≡◌, ◌∙◌, sym, refl, ap, subst, true, false, Option, some, List, ◌∷◌, has, arith,
  update, ◌==◌, if◌then◌else◌, inl, inr, Bool-cases, eq_of_==, ne_of_has, has_self, ne→==, ne_of_==,
  ==_refl, if_false, or_false,
}
use blue_bridge.Vmem.Backing.{Backing}
use blue_bridge.Vmem.Policy.{Policy, Without}
use blue_bridge.Vmem.PageTable.{
  PageTable, prot_none, prot_read, incr, page_table_get_entry, read_data, write_data,
}
use blue_bridge.Vmem.Fault.{replace_frame, write_back}
use blue_bridge.Vmem.Fault.Grant.{Ends, set_entry_in_range}
use blue_bridge.Vmem.Fault.Invariant.{view, IsResident, IsValid}
use blue_bridge.Vmem.Fault.Install.{Room, Filled, filled-IsValid, filled-view, in_frame}

module _ {P : Policy} {B : Backing} where
  pub get_entry_in_range :
      (page : ℕ) (pt : PageTable P B)
      → page < pt.npages
      → page_table_get_entry page pt ≡ some (pt.page_mapping page, pt.page_bits page)
  unfolding page_table_get_entry
  get_entry_in_range page pt h = ground arith

  -- After the write back the store has the page's frame, and every other block as before.
  pub record Flushed (pt : PageTable P B) (v : ℕ) (r : Option (PageTable P B)) : Type 0 where
    pub store : B.Store
    pub writes : ℕ
    pub run : r ≡ some (record pt { page_writes = writes; store = store })
    pub ready : B.IsReady store
    pub nblocks : B.nblocks store ≡ B.nblocks pt.store
    pub contents :
        (c : ℕ)
        → B.contents store c
          ≡ (if c == v then pt.physmem (pt.page_mapping v) else B.contents pt.store c)

  pub write_back-Flushed :
      (v : ℕ) (pt : PageTable P B) (ks : List ℕ)
      → IsResident pt ks v
      → B.IsReady pt.store
      → pt.npages ≤ B.nblocks pt.store
      → Flushed pt v (write_back v (pt.page_mapping v) (pt.page_bits v) pt)
  unfolding write_back write_data
  write_back-Flushed v pt ks r ready backed = elim r.bits [
    | inl clean ↦ record {
      store = pt.store;
      writes = pt.page_writes;
      run = rw clean;
      ready = ready;
      nblocks = refl;
      contents = λ c. elim (Bool-cases (c == v)) [
        | inl same ↦ rw same (ap (B.contents pt.store) (eq_of_== c v same) ∙ sym (r.clean clean))
        | inr other ↦ rw other
      ];
    }
    | inr dirty ↦
        let (st, e, ready', size, after) =
          B.write_through v (pt.physmem (pt.page_mapping v)) pt.store ready
            (omega (arith, r.in_range, backed)) r.width in
        record {
          store = st;
          writes = incr pt.page_writes;
          run = rw (dirty, e);
          ready = ready';
          nblocks = size;
          contents = after;
        }
  ]

module _ {P : Policy} {B : Backing} (pt : PageTable P B) (ks : List ℕ) (v : ℕ) (rest : List ℕ)
    (i : IsValid pt ks) (w : Without v ks rest) where
  member : (p : ℕ) → has p rest ≡ true → (p == v) ≡ false × (has p ks ≡ true)
  member p o = ground (arith, w.1 p)

  no_member : (p : ℕ) → has p rest ≡ false → (p == v) ≡ false → has p ks ≡ false
  no_member p o n = ground (arith, w.1 p)

  module _ (s : P.State) (page : ℕ)
      (f : Flushed
        (record pt { pages = s })
        v
        (write_back v (pt.page_mapping v) (pt.page_bits v) (record pt { pages = s })))
      (lt : page < pt.npages) (out : has page ks ≡ false) where
    abbrev flushed : PageTable P B
    flushed = record pt { page_writes = f.writes; pages = s; store = f.store }

    kept : (p : ℕ) → (p == v) ≡ false → B.contents f.store p ≡ B.contents pt.store p
    kept p n = f.contents p ∙ (rw n)

    still-IsResident : (p : ℕ) → has p rest ≡ true → IsResident flushed (page ∷ rest) p
    still-IsResident p o =
        let (n, old) = member p o in
        let r = i.resident p old in
        record {
          in_range = r.in_range;
          bits = r.bits;
          from_start = r.from_start;
          to_count = omega (arith, r.to_count, w.2);
          width = r.width;
          clean = λ b. r.clean b ∙ sym (kept p n);
        }

    left-Room : Room flushed page (pt.page_mapping v) rest
    left-Room =
        let r = i.resident v w.0 in
        record {
          fresh = rw (w.1 page, out) (if_false (page == v));
          in_range = lt;
          ready = f.ready;
          backed = rw f.nblocks i.backed;
          frames = i.frames;
          some_frame = i.some_frame;
          within = omega (arith, i.within, w.2);
          low = r.from_start;
          high = omega (arith, r.to_count, w.2);
          resident = still-IsResident;
          unused = λ p o.
              let (n, old) = member p o in ne→== _ _ (λ e. ne_of_== p v n (i.apart p v old w.0 e));
          apart = λ p q o u e. i.apart p q (member p o).1 (member q u).1 e;
        }

    -- The memory seen before, in terms of the flushed table.
    view_inside : (p : ℕ) → has p rest ≡ true → view pt p ≡ flushed.physmem (flushed.page_mapping p)
    view_inside p o = in_frame (pt.page_bits p) _ _ (i.resident p (member p o).1).bits

    view_outside :
        (p : ℕ) → p < pt.npages → has p rest ≡ false → view pt p ≡ B.contents flushed.store p
    view_outside p h o = elim (Bool-cases (p == v)) [
      | inl same ↦
          subst (λ x. view pt x ≡ B.contents f.store x) (sym (eq_of_== p v same))
            (in_frame (pt.page_bits v) _ _ (i.resident v w.0).bits
              ∙ sym (f.contents v ∙ (rw (==_refl v))))
      | inr other ↦ rw (i.absent p (no_member p o other)) (sym (kept p other))
    ]

    -- The table after the two entries are set and the page is read and tracked.
    module _ (s' : P.State) (st : B.Store) (h : P.Holds s' (page ∷ rest)) (ready : B.IsReady st)
        (size : B.nblocks st ≡ B.nblocks f.store)
        (same : (c : ℕ) → B.contents st c ≡ B.contents f.store c) where
      abbrev replaced : PageTable P B
      replaced = record pt {
        physmem = update pt.physmem (pt.page_mapping v) (B.contents f.store page);
        page_mapping =
            update (update pt.page_mapping page (pt.page_mapping v)) v (pt.page_mapping v);
        page_bits = update (update pt.page_bits page prot_read) v prot_none;
        page_reads = incr pt.page_reads;
        page_writes = f.writes;
        pages = s';
        store = st;
      }

      replaced-Filled : Filled flushed replaced page (pt.page_mapping v) rest
      replaced-Filled =
          let n = ne_of_has v page ks w.0 out in
          record {
            holds = h;
            ready = ready;
            nblocks = size;
            contents = same;
            physmem = λ g. refl;
            mapping_page = ground arith;
            mapping_rest = λ p o. rw ((member p o).0, ne_of_has p page ks (member p o).1 out);
            bits_page = ground arith;
            bits_rest = λ p o. rw ((member p o).0, ne_of_has p page ks (member p o).1 out);
            bits_other = λ p o.
                let (np, nr) = or_false (p == page) (has p rest) o in
                elim (Bool-cases (p == v)) [
                  | inl same ↦ rw same
                  | inr other ↦ rw (other, np) (i.absent p (no_member p nr other))
                ];
            npages = refl;
            nframes = refl;
            start_frame = refl;
            end_frame = refl;
          }

module _ {P : Policy} {B : Backing} where
  pub repaged :
      (pt : PageTable P B) (ks : List ℕ) (p : ℕ) (s : P.State)
      → IsResident pt ks p
      → IsResident (record pt { pages = s }) ks p
  repaged pt ks p s r = record {
    in_range = r.in_range;
    bits = r.bits;
    from_start = r.from_start;
    to_count = r.to_count;
    width = r.width;
    clean = r.clean;
  }

  pub replace_frame-Ends :
      (page k : ℕ) (pt : PageTable P B) (ks : List ℕ)
      → IsValid pt (k ∷ ks)
      → page < pt.npages
      → has page (k ∷ ks) ≡ false
      → Ends pt page prot_read (replace_frame page pt)
  unfolding replace_frame read_data
  replace_frame-Ends page k pt ks i lt out =
      let (v, s, rest, e, h, w) = P.evict-Holds k pt.pages ks i.holds in
      let r = i.resident v w.0 in
      let pt0 : PageTable P B = record pt { pages = s } in
      let f = write_back-Flushed v pt0 (k ∷ ks) (repaged pt (k ∷ ks) v s r) i.ready i.backed in
      let m = left-Room pt (k ∷ ks) v rest i w s page f lt out in
      let (s', e', h') = P.insert-Holds page s rest h m.fresh in
      let (st, e'', ready, size, same) =
        B.read_back page f.store f.ready (omega (arith, m.backed)) in
      let d = replaced-Filled pt (k ∷ ks) v rest i w s page f lt out s' st h' ready size same in
      let low = r.from_start in
      let high : pt.page_mapping v < pt.end_frame = omega (arith, r.to_count, i.frames, i.within) in
      let pt2 : PageTable P B = record (flushed pt (k ∷ ks) v rest i w s page f lt out) {
        physmem = update pt.physmem (pt.page_mapping v) (B.contents f.store page);
        page_reads = incr pt.page_reads;
        store = st;
      } in
      let pt3 : PageTable P B = record pt2 {
        page_mapping = update pt.page_mapping page (pt.page_mapping v);
        page_bits = update pt.page_bits page prot_read;
      } in
      record {
        after = replaced pt (k ∷ ks) v rest i w s page f lt out s' st h' ready size same;
        pages = page ∷ rest;
        run = rw (
          e,
          get_entry_in_range v pt0 r.in_range,
          f.run,
          e'',
          set_entry_in_range page (pt.page_mapping v) prot_read pt2 lt low high,
          set_entry_in_range v (pt.page_mapping v) prot_none pt3 r.in_range low high,
          e',
        );
        valid = filled-IsValid _ _ page (pt.page_mapping v) rest m d;
        same = record {
          view_kept =
              filled-view _ _ page (pt.page_mapping v) rest m d (view pt)
                (view_inside pt (k ∷ ks) v rest i w s page f lt out)
                (view_outside pt (k ∷ ks) v rest i w s page f lt out);
          npages_kept = refl;
          nframes_kept = refl;
        };
        in_memory = has_self page rest;
        granted = d.bits_page;
      }
