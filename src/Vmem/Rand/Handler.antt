-- ===== src/Vmem/Rand/Handler.antt =====
-- RAND_page_fault_handler (ip6/lib/vmem/page_table.c), which changes its table after the entries, and the
-- handler of the other policies.
use blue_bridge.Prelude.{
  ℕ, ◌+◌, ◌-◌, ◌<◌, ◌≡◌, refl, sym, ap, ◌∙◌, inl, inr, Option, none, some, Bool, Bool-cases,
  Option-cases, List, ltb, leb, ◌==◌, ◌||◌, if◌then◌else◌, ◌>>=◌, arith, ltb→le, subst,
  some_injective, ◌%◌,
}
use blue_bridge.Vmem.Backing.{Backing}
use blue_bridge.Vmem.PageTable.{
  PageTable, prot_none, prot_read, prot_read_write, incr, page_table_set_entry,
  page_table_get_entry, read_data, write_data,
}
use blue_bridge.Vmem.Fault.{
  fill_frame, replace_frame, write_back, set_write_bit, page_fault_handler,
}
use blue_bridge.Vmem.Fault.Grant.{Ends}
use blue_bridge.Vmem.Fault.Invariant.{IsValid}
use blue_bridge.Vmem.Fault.Handler.{next_bits, page_fault_handler-Ends}
use blue_bridge.Vmem.Rand.{Rand, probe, rand_choose, rand_insert, rand_delete}
use blue_bridge.Vmem.Rand.Laws.{rand, insert, evict}
use mathlib.Core.Option.{map}

abbrev drawing : Rand → ℕ → Option (ℕ × Rand)
drawing s key = some (key, record s { drawn = s.drawn + 1 })

counted :
    (s : Rand) (v : ℕ) (s' : Rand) (o : Option ℕ)
    → (o >>= drawing s) ≡ some (v, s')
    → s'.count ≡ s.count
counted s v s' none e = cc
counted s v s' (some key) e = ap (λ (p : ℕ × Rand). p.1.count) (sym (some_injective e))

choose_count :
    (n : ℕ) (s : Rand) (v : ℕ) (s' : Rand) → rand_choose n s ≡ some (v, s') → s'.count ≡ s.count
unfolding rand_choose
choose_count n s v s' e = elim (Bool-cases (n == 0)) [
  | inl zero_frames ↦ cc
  | inr frames ↦ counted s v s' (probe n n s.table.head (s.draws s.drawn % n)) (
      sym (
        ap
          (λ (b : Bool).
            if b then none else probe n n s.table.head (s.draws s.drawn % n) >>= drawing s)
          frames)
      ∙ e)
]

module _ {B : Backing} where
  -- There is a free frame.
  unfoldable pub rand_fill : ℕ → PageTable rand B → Option (PageTable rand B)
  unfolding rand_insert
  rand_fill page pt = do
    let i = pt.pages.count + pt.start_frame
    pt1 ← page_table_set_entry page i prot_read (record pt { pages = rand_insert page pt.pages })
    pt2 ← read_data page i pt1
    some (record pt2 { pages = record (pt2.pages) { count = pt2.pages.count + 1 } })

  unfoldable pub rand_replace : ℕ → PageTable rand B → Option (PageTable rand B)
  unfolding rand_insert rand_delete rand_choose
  rand_replace page pt = do
    (temp_page, s) ← rand_choose pt.nframes pt.pages
    (frame, bits) ← page_table_get_entry temp_page (record pt { pages = s })
    pt1 ← write_back temp_page frame bits (record pt { pages = s })
    pt2 ← read_data page frame pt1
    pt3 ← page_table_set_entry page frame prot_read pt2
    pt4 ← page_table_set_entry temp_page frame prot_none pt3
    some (record pt4 { pages = rand_insert page (rand_delete temp_page pt4.pages) })

  unfoldable pub rand_page_fault_handler : ℕ → PageTable rand B → Option (PageTable rand B)
  unfolding rand_fill rand_replace
  rand_page_fault_handler page pt = do
    let pt0 = record pt { page_faults = incr pt.page_faults }
    (frame, bits) ← page_table_get_entry page pt0
    if bits == prot_none
        then (if ltb pt.pages.count pt.nframes then rand_fill page pt0 else rand_replace page pt0)
        else page_table_set_entry page frame prot_read_write pt0

  abbrev with_pages : Rand → PageTable rand B → PageTable rand B
  with_pages s pt = record pt { pages = s }

  set_entry-with_pages :
      (page frame bits : ℕ) (s : Rand) (pt : PageTable rand B)
      → page_table_set_entry page frame bits (with_pages s pt)
        ≡ map (with_pages s) (page_table_set_entry page frame bits pt)
  unfolding page_table_set_entry
  set_entry-with_pages page frame bits s pt = elim (Bool-cases (leb pt.npages page)) [
    | inl over ↦ rw over refl
    | inr within ↦
        rw within (elim (Bool-cases (ltb frame pt.start_frame || leb pt.end_frame frame)) [
          | inl bad ↦ rw bad refl
          | inr good ↦ rw good refl
        ])
  ]

  read_data-with_pages :
      (page frame : ℕ) (s : Rand) (pt : PageTable rand B)
      → read_data page frame (with_pages s pt) ≡ map (with_pages s) (read_data page frame pt)
  unfolding read_data
  read_data-with_pages page frame s pt = elim (Option-cases (B.read page pt.store)) [
    | inl e ↦ rw e refl
    | inr (r, e) ↦ rw e refl
  ]

  write_back-with_pages :
      (page frame bits : ℕ) (s : Rand) (pt : PageTable rand B)
      → write_back page frame bits (with_pages s pt)
        ≡ map (with_pages s) (write_back page frame bits pt)
  unfolding write_back write_data
  write_back-with_pages page frame bits s pt = elim (Bool-cases (bits == prot_read_write)) [
    | inl dirty ↦ rw dirty (elim (Option-cases (B.write page (pt.physmem frame) pt.store)) [
      | inl e ↦ rw e refl
      | inr (r, e) ↦ rw e refl
    ])
    | inr clean ↦ rw clean refl
  ]

  -- A step that leaves the policy's state alone, between two that do not.
  map_bind :
      (s : Rand) (o : Option (PageTable rand B)) (f : PageTable rand B → Option (PageTable rand B))
      → ((pt : PageTable rand B) → f (with_pages s pt) ≡ map (with_pages s) (f pt))
      → (map (with_pages s) o >>= f) ≡ map (with_pages s) (o >>= f)
  map_bind s none f h = refl
  map_bind s (some pt) f h = h pt

  map_end :
      (s s' : Rand) (o : Option (PageTable rand B)) (f : Rand → Rand)
      → f s ≡ s'
      → (map (with_pages s) o >>= (λ (z : PageTable rand B). some (record z { pages = f z.pages })))
        ≡ map (with_pages s') o
  map_end s s' none f e = refl
  map_end s s' (some pt) f e = ap (λ t. some (with_pages t pt)) e

  -- The steps of a replacement between the choice of the page and the insertion.
  abbrev swap : (page temp_page frame bits : ℕ) → PageTable rand B → Option (PageTable rand B)
  swap page temp_page frame bits pt = do
    pt1 ← write_back temp_page frame bits pt
    pt2 ← read_data page frame pt1
    pt3 ← page_table_set_entry page frame prot_read pt2
    page_table_set_entry temp_page frame prot_none pt3

  swap-with_pages :
      (page temp_page frame bits : ℕ) (s : Rand) (pt : PageTable rand B)
      → swap page temp_page frame bits (with_pages s pt)
        ≡ map (with_pages s) (swap page temp_page frame bits pt)
  swap-with_pages page temp_page frame bits s pt =
      ap (λ o. o >>= reading) (write_back-with_pages temp_page frame bits s pt)
      ∙ map_bind s (write_back temp_page frame bits pt) reading (λ x.
        ap (λ o. o >>= setting) (read_data-with_pages page frame s x)
        ∙ map_bind s (read_data page frame x) setting (λ y.
          ap (λ o. o >>= page_table_set_entry temp_page frame prot_none)
            (set_entry-with_pages page frame prot_read s y)
          ∙ map_bind s (page_table_set_entry page frame prot_read y)
              (page_table_set_entry temp_page frame prot_none)
              (set_entry-with_pages temp_page frame prot_none s)))
    where
      setting : PageTable rand B → Option (PageTable rand B)
      setting x =
          page_table_set_entry page frame prot_read x
          >>= page_table_set_entry temp_page frame prot_none

      reading : PageTable rand B → Option (PageTable rand B)
      reading x = read_data page frame x >>= setting

  bind_assoc :
      (o : Option (PageTable rand B)) (f g : PageTable rand B → Option (PageTable rand B))
      → (o >>= (λ x. f x >>= g)) ≡ ((o >>= f) >>= g)
  bind_assoc none f g = refl
  bind_assoc (some x) f g = refl

  bind_ext :
      (o : Option (PageTable rand B)) (f g : PageTable rand B → Option (PageTable rand B))
      → ((x : PageTable rand B) → f x ≡ g x)
      → (o >>= f) ≡ (o >>= g)
  bind_ext none f g h = refl
  bind_ext (some x) f g h = h x

  -- The new state comes out, whatever it is made of.
  abbrev finish : (Rand → Rand) → PageTable rand B → Option (PageTable rand B)
  finish f z = some (record z { pages = f z.pages })

  replaced :
      (page v frame bits : ℕ) (s s' : Rand) (f : Rand → Rand) (pt : PageTable rand B)
      → f s ≡ s'
      → (do
        pt1 ← write_back v frame bits (with_pages s pt)
        pt2 ← read_data page frame pt1
        pt3 ← page_table_set_entry page frame prot_read pt2
        pt4 ← page_table_set_entry v frame prot_none pt3
        finish f pt4)
        ≡ map (with_pages s') (swap page v frame bits pt)
  replaced page v frame bits s s' f pt e =
      bind_ext (write_back v frame bits (with_pages s pt)) _
        (λ x.
          (do
            y ← read_data page frame x
            z ← page_table_set_entry page frame prot_read y
            page_table_set_entry v frame prot_none z)
          >>= finish f)
        (λ x.
          bind_ext (read_data page frame x) _
            (λ y.
              (do
                z ← page_table_set_entry page frame prot_read y
                page_table_set_entry v frame prot_none z)
              >>= finish f)
            (λ y.
              bind_assoc (page_table_set_entry page frame prot_read y)
                (page_table_set_entry v frame prot_none) (finish f))
          ∙ bind_assoc (read_data page frame x) _ (finish f))
      ∙ bind_assoc (write_back v frame bits (with_pages s pt)) _ (finish f)
      ∙ ap (λ o. o >>= finish f) (swap-with_pages page v frame bits s pt)
      ∙ map_end s s' (swap page v frame bits pt) f e

  fill-same : (page : ℕ) (pt : PageTable rand B) → rand_fill page pt ≡ fill_frame page pt
  unfolding rand_fill fill_frame insert
  fill-same page pt =
      let i = pt.pages.count + pt.start_frame in
      let s = rand_insert page pt.pages in
      let s' : Rand = record s { count = s.count + 1 } in
      let bump : Rand → Rand = λ r. record r { count = r.count + 1 } in
      let steps : PageTable rand B → Option (PageTable rand B) =
        λ z. page_table_set_entry page i prot_read z >>= read_data page i in
      let moved : (t : Rand) → steps (with_pages t pt) ≡ map (with_pages t) (steps pt) = λ t.
        ap (λ o. o >>= read_data page i) (set_entry-with_pages page i prot_read t pt)
        ∙ map_bind t (page_table_set_entry page i prot_read pt) (read_data page i)
            (read_data-with_pages page i t) in
      bind_assoc (page_table_set_entry page i prot_read (with_pages s pt)) (read_data page i)
        (finish bump)
      ∙ ap (λ o. o >>= finish bump) (moved s)
      ∙ map_end s s' (steps pt) bump refl
      ∙ sym (moved s')

  -- The two replacements once a page is chosen.
  replace_with :
      (page : ℕ) → PageTable rand B → (Rand → Rand) → ℕ × Rand → Option (PageTable rand B)
  unfolding page_table_get_entry
  replace_with page pt f (v, s) = do
    (frame, bits) ← page_table_get_entry v (with_pages s pt)
    pt1 ← write_back v frame bits (with_pages s pt)
    pt2 ← read_data page frame pt1
    pt3 ← page_table_set_entry page frame prot_read pt2
    pt4 ← page_table_set_entry v frame prot_none pt3
    finish f pt4

  replace_with-same :
      (page : ℕ) (pt : PageTable rand B) (f g : Rand → Rand) (v : ℕ) (s t : Rand)
      → f s ≡ g t
      → replace_with page pt f (v, s) ≡ replace_with page pt g (v, t)
  unfolding replace_with
  replace_with-same page pt f g v s t e = elim (Bool-cases (leb pt.npages v)) [
    | inl over ↦ rw over refl
    | inr within ↦ rw within (
        replaced page v (pt.page_mapping v) (pt.page_bits v) s (g t) f pt e
        ∙ sym (replaced page v (pt.page_mapping v) (pt.page_bits v) t (g t) g pt refl))
  ]

  chosen-same :
      (page : ℕ) (pt : PageTable rand B) (o : Option (ℕ × Rand))
      → ((v : ℕ) (s : Rand) → o ≡ some (v, s) → 0 < s.count)
      → (do (v, s) ← o; replace_with page pt (λ r. rand_insert page (rand_delete v r)) (v, s)) ≡ (do
        (v, s) ← (do (v, s) ← o; some (v, record (rand_delete v s) { count = s.count - 1 }))
        replace_with page pt (λ r. record (rand_insert page r) { count = r.count + 1 }) (v, s))
  unfolding rand_insert rand_delete
  chosen-same page pt none h = refl
  chosen-same page pt (some (v, s)) h =
      replace_with-same page pt (λ r. rand_insert page (rand_delete v r))
        (λ r. record (rand_insert page r) { count = r.count + 1 }) v s
        (record (rand_delete v s) { count = s.count - 1 })
        (ap (λ c. record (rand_insert page (rand_delete v s)) { count = c })
          (back s.count (h v s refl)))
    where
      back : (c : ℕ) → 0 < c → c ≡ c - 1 + 1
      back c h = omega arith

  replace-same :
      (page : ℕ) (pt : PageTable rand B)
      → pt.nframes ≡ pt.pages.table.nframes
      → 0 < pt.pages.count
      → rand_replace page pt ≡ replace_frame page pt
  unfolding rand_replace replace_frame replace_with evict insert
  replace-same page pt n c =
      ap
        (λ m. do
          (v, s) ← rand_choose m pt.pages
          replace_with page pt (λ r. rand_insert page (rand_delete v r)) (v, s))
        n
      ∙ chosen-same page pt (rand_choose pt.pages.table.nframes pt.pages)
          (λ v s e. subst (λ k. 0 < k) (sym (choose_count pt.pages.table.nframes pt.pages v s e)) c)

  -- The handler does what that of the other policies does, at the random policy.
  handler-same :
      (page : ℕ) (pt : PageTable rand B)
      → pt.nframes ≡ pt.pages.table.nframes
      → 0 < pt.nframes
      → rand_page_fault_handler page pt ≡ page_fault_handler page pt
  unfolding rand_page_fault_handler page_fault_handler page_table_get_entry set_write_bit
  handler-same page pt n h = elim (Bool-cases (leb pt.npages page)) [
    | inl over ↦ rw over refl
    | inr within ↦ rw within (elim (Bool-cases (pt.page_bits page == prot_none)) [
      | inl out ↦ rw out (elim (Bool-cases (ltb pt.pages.count pt.nframes)) [
        | inl free ↦ rw free (fill-same page (record pt { page_faults = incr pt.page_faults }))
        | inr used ↦ rw used (
            replace-same page (record pt { page_faults = incr pt.page_faults }) n
              (omega (arith, h, ltb→le pt.pages.count pt.nframes used)))
      ])
      | inr there ↦ rw there refl
    ])
  ]

  -- On a valid table over buckets for its frames, a fault of the random policy on a page in range
  -- does not abort and its probing ends: it brings the page in with read permission, or makes it
  -- writable if it is in memory, keeps the memory seen through every page, and leaves a valid table.
  pub rand_page_fault_handler-Ends :
      (page : ℕ) (pt : PageTable rand B) (ks : List ℕ)
      → IsValid pt ks
      → page < pt.npages
      → pt.nframes ≡ pt.pages.table.nframes
      → Ends pt page (next_bits (pt.page_bits page)) (rand_page_fault_handler page pt)
  rand_page_fault_handler-Ends page pt ks v h n =
      subst (Ends pt page (next_bits (pt.page_bits page)))
        (sym (handler-same page pt n v.some_frame)) (page_fault_handler-Ends page pt ks v h)
