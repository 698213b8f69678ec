-- ===== src/Vmem/Fault/Install.antt =====
-- A page is read into a free frame (ip6/lib/vmem/page_table.c): what both handler branches for a page
-- that is not in memory have in common.
use blue_bridge.Prelude.{
  ℕ, suc, ◌+◌, ◌≤◌, ◌<◌, ◌≡◌, ◌≢◌, ◌∙◌, sym, ap, subst, true, false, List, ◌∷◌, has, length, arith,
  update, ◌==◌, if◌then◌else◌, inl, inr, Bool-cases, eq_of_==, ne_of_==, update_self, ◌⊎◌,
}
use blue_bridge.Vmem.Backing.{Block, Backing}
use blue_bridge.Vmem.Policy.{Policy}
use blue_bridge.Vmem.PageTable.{PageTable, prot_none, prot_read, prot_read_write}
use blue_bridge.Vmem.Fault.Invariant.{view, IsResident, IsValid}

module _ {P : Policy} {B : Backing} where
  -- The frame `f` is free for `page` while the pages `rest` are in memory.
  pub record Room (pt : PageTable P B) (page f : ℕ) (rest : List ℕ) : Type 0 where
    pub fresh : has page rest ≡ false
    pub in_range : page < pt.npages
    pub ready : B.IsReady pt.store
    pub backed : pt.npages ≤ B.nblocks pt.store
    pub frames : pt.end_frame ≡ pt.start_frame + pt.nframes
    pub some_frame : 0 < pt.nframes
    pub within : suc (length rest) ≤ pt.nframes
    pub low : pt.start_frame ≤ f
    pub high : f < pt.start_frame + suc (length rest)
    pub resident : (p : ℕ) → has p rest ≡ true → IsResident pt (page ∷ rest) p
    pub unused : (p : ℕ) → has p rest ≡ true → (pt.page_mapping p == f) ≡ false
    pub apart :
        (p q : ℕ)
        → has p rest ≡ true
        → has q rest ≡ true
        → pt.page_mapping p ≡ pt.page_mapping q
        → p ≡ q

  -- The table that the branch leaves: `page` in `f`, the pages `rest` as before, no other page.
  pub record Filled (pt pt' : PageTable P B) (page f : ℕ) (rest : List ℕ) : Type 0 where
    pub holds : P.Holds pt'.pages (page ∷ rest)
    pub ready : B.IsReady pt'.store
    pub nblocks : B.nblocks pt'.store ≡ B.nblocks pt.store
    pub contents : (p : ℕ) → B.contents pt'.store p ≡ B.contents pt.store p
    pub physmem : (g : ℕ) → pt'.physmem g ≡ update pt.physmem f (B.contents pt.store page) g
    pub mapping_page : pt'.page_mapping page ≡ f
    pub mapping_rest : (p : ℕ) → has p rest ≡ true → pt'.page_mapping p ≡ pt.page_mapping p
    pub bits_page : pt'.page_bits page ≡ prot_read
    pub bits_rest : (p : ℕ) → has p rest ≡ true → pt'.page_bits p ≡ pt.page_bits p
    pub bits_other : (p : ℕ) → has p (page ∷ rest) ≡ false → pt'.page_bits p ≡ prot_none
    pub npages : pt'.npages ≡ pt.npages
    pub nframes : pt'.nframes ≡ pt.nframes
    pub start_frame : pt'.start_frame ≡ pt.start_frame
    pub end_frame : pt'.end_frame ≡ pt.end_frame

has_rest :
    (p page : ℕ) (rest : List ℕ)
    → (p == page) ≡ false
    → has p (page ∷ rest) ≡ true
    → has p rest ≡ true
has_rest p page rest other o = ground arith

-- A page with bits is read from its frame.
pub in_frame {ℓ} :
    {A : Type ℓ} (bits : ℕ) (a b : A)
    → (bits ≡ prot_read) ⊎ (bits ≡ prot_read_write)
    → (if bits == prot_none then a else b) ≡ b
in_frame bits a b h = ground arith

module _ {P : Policy} {B : Backing} (pt pt' : PageTable P B) (page f : ℕ) (rest : List ℕ)
    (m : Room pt page f rest) (d : Filled pt pt' page f rest) where
  page_block : pt'.physmem (pt'.page_mapping page) ≡ B.contents pt.store page
  page_block = ap pt'.physmem d.mapping_page ∙ d.physmem f ∙ update_self pt.physmem f _

  rest_block :
      (p : ℕ)
      → has p rest ≡ true
      → pt'.physmem (pt'.page_mapping p) ≡ pt.physmem (pt.page_mapping p)
  rest_block p o =
      ap pt'.physmem (d.mapping_rest p o) ∙ d.physmem (pt.page_mapping p) ∙ (rw (m.unused p o))

  page-IsResident : IsResident pt' (page ∷ rest) page
  page-IsResident = record {
    in_range = rw d.npages m.in_range;
    bits = inl d.bits_page;
    from_start = rw (d.mapping_page, d.start_frame) m.low;
    to_count = rw (d.mapping_page, d.start_frame) m.high;
    width =
        ap length page_block
        ∙ B.length-contents pt.store page m.ready (omega (arith, m.in_range, m.backed));
    clean = λ _. page_block ∙ sym (d.contents page);
  }

  rest-IsResident : (p : ℕ) → has p rest ≡ true → IsResident pt' (page ∷ rest) p
  rest-IsResident p o =
      let r = m.resident p o in
      record {
        in_range = rw d.npages r.in_range;
        bits = rw (d.bits_rest p o) r.bits;
        from_start = rw (d.mapping_rest p o, d.start_frame) r.from_start;
        to_count = rw (d.mapping_rest p o, d.start_frame) r.to_count;
        width = ap length (rest_block p o) ∙ r.width;
        clean = λ b. rest_block p o ∙ r.clean (sym (d.bits_rest p o) ∙ b) ∙ sym (d.contents p);
      }

  -- `page` is the only page in the frame `f`.
  page_alone : (p : ℕ) → has p rest ≡ true → pt'.page_mapping p ≢ pt'.page_mapping page
  page_alone p o e =
      ne_of_== (pt.page_mapping p) f (m.unused p o) (sym (d.mapping_rest p o) ∙ e ∙ d.mapping_page)

  filled-apart :
      (p q : ℕ)
      → has p (page ∷ rest) ≡ true
      → has q (page ∷ rest) ≡ true
      → pt'.page_mapping p ≡ pt'.page_mapping q
      → p ≡ q
  filled-apart p q i j e = elim (Bool-cases (p == page)) [
    | inl pp ↦ elim (Bool-cases (q == page)) [
      | inl qq ↦ eq_of_== p page pp ∙ sym (eq_of_== q page qq)
      | inr qn ↦ absurd (
          page_alone q (has_rest q page rest qn j)
            (sym e ∙ ap pt'.page_mapping (eq_of_== p page pp)))
    ]
    | inr pn ↦ elim (Bool-cases (q == page)) [
      | inl qq ↦
          absurd (
            page_alone p (has_rest p page rest pn i) (e ∙ ap pt'.page_mapping (eq_of_== q page qq)))
      | inr qn ↦
          let o = has_rest p page rest pn i in
          let u = has_rest q page rest qn j in
          m.apart p q o u (sym (d.mapping_rest p o) ∙ e ∙ d.mapping_rest q u)
    ]
  ]

  pub filled-IsValid : IsValid pt' (page ∷ rest)
  filled-IsValid = record {
    holds = d.holds;
    ready = d.ready;
    backed = rw (d.npages, d.nblocks) m.backed;
    frames = rw (d.end_frame, d.start_frame, d.nframes) m.frames;
    some_frame = rw d.nframes m.some_frame;
    within = rw d.nframes m.within;
    resident = λ p o. elim (Bool-cases (p == page)) [
      | inl same ↦ subst (IsResident pt' (page ∷ rest)) (sym (eq_of_== p page same)) page-IsResident
      | inr other ↦ rest-IsResident p (has_rest p page rest other o)
    ];
    absent = d.bits_other;
    apart = filled-apart;
  }

  -- The page that came in and the pages that left read from the store, the others from their frame.
  pub filled-view :
      (old : ℕ → Block)
      → ((p : ℕ) → has p rest ≡ true → old p ≡ pt.physmem (pt.page_mapping p))
      → ((p : ℕ) → p < pt.npages → has p rest ≡ false → old p ≡ B.contents pt.store p)
      → (p : ℕ) → p < pt.npages
      → view pt' p ≡ old p
  filled-view old inside outside p lt = elim (Bool-cases (has p rest)) [
    | inl o ↦
        in_frame (pt'.page_bits p) _ _ (rw (d.bits_rest p o) (m.resident p o).bits)
        ∙ rest_block p o
        ∙ sym (inside p o)
    | inr o ↦ elim (Bool-cases (p == page)) [
      | inl same ↦
          subst (λ x. view pt' x ≡ old x) (sym (eq_of_== p page same))
            (in_frame (pt'.page_bits page) _ _ (inl d.bits_page)
              ∙ page_block
              ∙ sym (outside page m.in_range m.fresh))
      | inr other ↦ rw (d.bits_other p (rw other o)) (d.contents p ∙ sym (outside p lt o))
    ]
  ]
