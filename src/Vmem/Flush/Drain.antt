-- ===== src/Vmem/Flush/Drain.antt =====
-- page_table_flush (ip6/lib/vmem/page_table.c) writes back what the program sees, and ends.
use blue_bridge.Prelude.{
  ℕ, zero, suc, ◌+◌, ◌≤◌, ◌<◌, ◌≡◌, ◌∙◌, sym, refl, ap, subst, true, false, Option, some, List, [],
  ◌∷◌, has, length, arith, update, update_same, ◌==◌, if◌then◌else◌, inl, inr, Bool-cases, eq_of_==,
  ne→==, ==_refl,
}
use blue_bridge.Vmem.Backing.{Backing}
use blue_bridge.Vmem.Policy.{Policy, Without}
use blue_bridge.Vmem.PageTable.{PageTable, prot_none}
use blue_bridge.Vmem.Fault.{write_back}
use blue_bridge.Vmem.Fault.Grant.{set_entry_in_range}
use blue_bridge.Vmem.Fault.Install.{in_frame}
use blue_bridge.Vmem.Fault.Invariant.{view, IsResident, IsValid}
use blue_bridge.Vmem.Fault.Replace.{get_entry_in_range, write_back-Flushed, Flushed, repaged}
use blue_bridge.Vmem.Flush.{flush_page, flush_pages, lru_page_table_flush, ffifo_page_table_flush}
use blue_bridge.Vmem.Lru.{Lru, delete_lru}
use blue_bridge.Vmem.Lru.Laws.{Holds, delete_lru-Holds}
use blue_bridge.Vmem.Policies.{lru, ffifo, evicted}

-- What an eviction does to a policy that tracks a page.
abbrev pub EvictsOne : (P : Policy) → (P.State → Option (ℕ × P.State)) → Type 0
EvictsOne P evict =
    (k : ℕ) (s : P.State) (ks : List ℕ)
    → P.Holds s (k ∷ ks)
    → (v : ℕ) × (s' : P.State) × (ks' : List ℕ) × (evict s ≡ some (v, s'))
      × P.Holds s' ks'
      × Without v (k ∷ ks) ks'

module _ {P : Policy} {B : Backing} where
  -- In the middle of a flush that began at `start`, with the pages `all`: the pages `ks` are left.
  pub record IsDraining (start pt : PageTable P B) (all ks : List ℕ) : Type 0 where
    pub holds : P.Holds pt.pages ks
    pub ready : B.IsReady pt.store
    pub npages : pt.npages ≡ start.npages
    pub nframes : pt.nframes ≡ start.nframes
    pub start_frame : pt.start_frame ≡ start.start_frame
    pub end_frame : pt.end_frame ≡ start.end_frame
    pub backed : pt.npages ≤ B.nblocks pt.store
    pub fits : pt.start_frame + length all ≤ pt.end_frame
    pub resident : (p : ℕ) → has p ks ≡ true → IsResident pt all p
    pub absent : (p : ℕ) → has p ks ≡ false → pt.page_bits p ≡ prot_none
    pub seen : (p : ℕ) → view pt p ≡ view start p

  module _ (start pt : PageTable P B) (all ks : List ℕ) (v : ℕ) (rest : List ℕ) (s : P.State)
      (i : IsDraining start pt all ks) (w : Without v ks rest)
      (f : Flushed
        (record pt { pages = s })
        v
        (write_back v (pt.page_mapping v) (pt.page_bits v) (record pt { pages = s }))) where
    abbrev out : PageTable P B
    out = record pt {
      pages = s;
      page_writes = f.writes;
      store = f.store;
      page_mapping = update pt.page_mapping v (pt.page_mapping v);
      page_bits = update pt.page_bits v prot_none;
    }

    member : (p : ℕ) → has p rest ≡ true → (p == v) ≡ false × (has p ks ≡ true)
    member p o = ground (arith, w.1 p)

    no_member : (p : ℕ) → has p rest ≡ false → (p == v) ≡ false → has p ks ≡ false
    no_member p o n = ground (arith, w.1 p)

    kept : (p : ℕ) → (p == v) ≡ false → B.contents f.store p ≡ B.contents pt.store p
    kept p n = f.contents p ∙ (rw n)

    left-IsResident : (p : ℕ) → has p rest ≡ true → IsResident out all p
    left-IsResident p o =
        let (n, old) = member p o in
        let r = i.resident p old in
        let m = update_same pt.page_mapping v p in
        record {
          in_range = r.in_range;
          bits = rw n r.bits;
          from_start = subst (λ g. pt.start_frame ≤ g) (sym m) r.from_start;
          to_count = subst (λ g. g < pt.start_frame + length all) (sym m) r.to_count;
          width = subst (λ g. length (pt.physmem g) ≡ B.block_size) (sym m) r.width;
          clean = λ b. ap pt.physmem m ∙ r.clean (sym (rw n refl) ∙ b) ∙ sym (kept p n);
        }

    out-seen : (p : ℕ) → view out p ≡ view pt p
    out-seen p = elim (Bool-cases (p == v)) [
      | inl same ↦
          subst (λ x. view out x ≡ view pt x) (sym (eq_of_== p v same))
            (rw (==_refl v) (
              f.contents v
              ∙ ap (λ b. if b then pt.physmem (pt.page_mapping v) else B.contents pt.store v)
                  (==_refl v)
              ∙ sym (in_frame (pt.page_bits v) _ _ (i.resident v w.0).bits)))
      | inr other ↦ rw other (
          ap (λ x. if pt.page_bits p == prot_none then x else pt.physmem (pt.page_mapping p))
            (kept p other))
    ]

    out-IsDraining : P.Holds s rest → IsDraining start out all rest
    out-IsDraining h = record {
      holds = h;
      ready = f.ready;
      npages = i.npages;
      nframes = i.nframes;
      start_frame = i.start_frame;
      end_frame = i.end_frame;
      backed = omega (arith, i.backed, f.nblocks);
      fits = i.fits;
      resident = left-IsResident;
      absent = λ p o. elim (Bool-cases (p == v)) [
        | inl same ↦ rw same refl
        | inr other ↦ rw other (i.absent p (no_member p o other))
      ];
      seen = λ p. out-seen p ∙ i.seen p;
    }

  module _ (evict : P.State → Option (ℕ × P.State)) (law : EvictsOne P evict)
      (start : PageTable P B) (all : List ℕ) where
    flush_page-IsDraining :
        (k : ℕ) (pt : PageTable P B) (ks : List ℕ)
        → IsDraining start pt all (k ∷ ks)
        → (pt' : PageTable P B) × (rest : List ℕ) × (flush_page evict pt ≡ some pt')
          × IsDraining start pt' all rest
          × (suc (length rest) ≡ suc (length ks))
    unfolding flush_page
    flush_page-IsDraining k pt ks i =
        let (v, s, rest, e, h, w) = law k pt.pages ks i.holds in
        let r = i.resident v w.0 in
        let f =
          write_back-Flushed v (record pt { pages = s }) all (repaged pt all v s r) i.ready
            i.backed in
        (
          out start pt all (k ∷ ks) v rest s i w f,
          rest,
          rw e (
              rw (get_entry_in_range v (record pt { pages = s }) r.in_range) (
                rw f.run (
                  set_entry_in_range v (pt.page_mapping v) prot_none _ r.in_range r.from_start
                    (omega (arith, r.to_count, i.fits))))),
          out-IsDraining start pt all (k ∷ ks) v rest s i w f h,
          w.2,
        )

    flush_pages-IsDraining :
        (fuel : ℕ) (pt : PageTable P B) (ks : List ℕ)
        → IsDraining start pt all ks
        → length ks < fuel
        → (after : PageTable P B) × (flush_pages evict fuel pt ≡ some after)
          × IsDraining start after all []
    unfolding flush_pages
    flush_pages-IsDraining zero pt ks i h = absurd (omega arith)
    flush_pages-IsDraining (suc fuel) pt [] i h =
        (pt, rw (P.tracked-length pt.pages [] i.holds) refl, i)
    flush_pages-IsDraining (suc fuel) pt (k ∷ ks) i h =
        let (pt', rest, run, i', shorter) = flush_page-IsDraining k pt ks i in
        let (after, runs, done) =
          flush_pages-IsDraining fuel pt' rest i' (omega (arith, shorter, h)) in
        (
          after,
          rw
              (ne→== (P.tracked pt.pages) 0
                (λ e. omega (arith, e, P.tracked-length pt.pages (k ∷ ks) i.holds)))
              (rw run runs),
          done,
        )

  -- A flush ends with no page in memory, a valid table, and in the store what the program saw.
  pub record WrittenBack (pt : PageTable P B) (r : Option (PageTable P B)) : Type 0 where
    pub after : PageTable P B
    pub run : r ≡ some after
    pub valid : IsValid after []
    pub npages : after.npages ≡ pt.npages
    pub nframes : after.nframes ≡ pt.nframes
    pub bits : (p : ℕ) → after.page_bits p ≡ prot_none
    pub stored : (p : ℕ) → B.contents after.store p ≡ view pt p

  begin : (pt : PageTable P B) (ks : List ℕ) → IsValid pt ks → IsDraining pt pt ks ks
  begin pt ks v = record {
    holds = v.holds;
    ready = v.ready;
    npages = refl;
    nframes = refl;
    start_frame = refl;
    end_frame = refl;
    backed = v.backed;
    fits = omega (arith, v.frames, v.within);
    resident = v.resident;
    absent = v.absent;
    seen = λ p. refl;
  }

  drained-IsValid :
      (pt after : PageTable P B) (ks : List ℕ)
      → IsValid pt ks
      → IsDraining pt after ks []
      → IsValid after []
  drained-IsValid pt after ks v i = record {
    holds = i.holds;
    ready = i.ready;
    backed = i.backed;
    frames = omega (arith, v.frames, i.start_frame, i.end_frame, i.nframes);
    some_frame = omega (arith, v.some_frame, i.nframes);
    within = omega arith;
    resident = λ q o. absurd (no_page q o);
    absent = i.absent;
    apart = λ q r o u e. absurd (no_page q o);
  }
    where
      no_page : (q : ℕ) → has q [] ≡ true → ⊥
      no_page q o = cc

  pub flush_pages-WrittenBack :
      (evict : P.State → Option (ℕ × P.State)) (pt : PageTable P B) (ks : List ℕ)
      → EvictsOne P evict
      → IsValid pt ks
      → WrittenBack pt (flush_pages evict (P.tracked pt.pages + 1) pt)
  flush_pages-WrittenBack evict pt ks law v =
      let (after, run, i) =
        flush_pages-IsDraining evict law pt ks (P.tracked pt.pages + 1) pt ks (begin pt ks v)
          (omega (arith, P.tracked-length pt.pages ks v.holds)) in
      record {
        after = after;
        run = run;
        valid = drained-IsValid pt after ks v i;
        npages = i.npages;
        nframes = i.nframes;
        bits = λ p. i.absent p refl;
        stored = λ p.
            sym (
              ap
                (λ b.
                  if b == prot_none
                  then B.contents after.store p
                  else after.physmem (after.page_mapping p))
                (i.absent p refl))
            ∙ i.seen p;
      }

delete_lru-EvictsOne :
    (temp_page k : ℕ) (s : Lru) (ks : List ℕ)
    → Holds s (k ∷ ks)
    → (v : ℕ) × (s' : Lru) × (ks' : List ℕ) × (delete_lru temp_page s ≡ some (v, s'))
      × Holds s' ks'
      × Without v (k ∷ ks) ks'
delete_lru-EvictsOne temp_page k s ks h =
    evicted s k ks (delete_lru temp_page s) h (delete_lru-Holds temp_page k s ks h)

module _ {B : Backing} (temp_page : ℕ) where
  -- Under LRU, a flush of a valid table does not abort and ends: no page is in memory after it, the
  -- table is valid, and the store holds of each page what the program saw.
  pub lru_page_table_flush-WrittenBack :
      (pt : PageTable lru B) (ks : List ℕ)
      → IsValid pt ks
      → WrittenBack pt (lru_page_table_flush temp_page pt)
  unfolding lru_page_table_flush
  lru_page_table_flush-WrittenBack pt ks v =
      flush_pages-WrittenBack (delete_lru temp_page) pt ks (delete_lru-EvictsOne temp_page) v

  pub ffifo_page_table_flush-WrittenBack :
      (pt : PageTable ffifo B) (ks : List ℕ)
      → IsValid pt ks
      → WrittenBack pt (ffifo_page_table_flush temp_page pt)
  unfolding ffifo_page_table_flush
  ffifo_page_table_flush-WrittenBack pt ks v =
      flush_pages-WrittenBack (delete_lru temp_page) pt ks (delete_lru-EvictsOne temp_page) v
