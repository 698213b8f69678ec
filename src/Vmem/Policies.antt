-- ===== src/Vmem/Policies.antt =====
-- The list policies of ip6/lib/vmem/page_table.c as instances of what a fault handler needs, and
-- the handlers at them.
use blue_bridge.Prelude.{
  ℕ, ◌≡◌, refl, sym, subst, true, false, Option, some, List, [], ◌∷◌, ◌++◌, arith, length-append,
  has, has-append, has-erase, length-erase, erase, IsDistinct, ◌==◌, Bool-cases, inl, inr, eq_of_==,
  ==_refl, ==_symm, or_true, or_none,
}
use blue_bridge.Vmem.Backing.{Backing}
use blue_bridge.Vmem.Policy.{Policy, SamePages, Without}
use blue_bridge.Vmem.PageTable.{PageTable}
use blue_bridge.Vmem.Fault.{page_fault_handler}
use blue_bridge.Vmem.Lru.{Lru, lru_insert, lru_touch, delete_lru, ffifo_evict}
use blue_bridge.Vmem.Lru.Laws.{
  Holds, count-Holds, Holds-IsDistinct, lru_insert-Holds, lru_touch-Holds, delete_lru-Holds,
  ffifo_evict-Holds,
}

-- Moving a page to the front keeps the pages.
front-SamePages :
    (k : ℕ) (ks : List ℕ) → IsDistinct ks → has k ks ≡ true → SamePages (k ∷ erase k ks) ks
front-SamePages k ks d o = (
  λ q. elim (Bool-cases (q == k)) [
    | inl same ↦ rw same (sym (subst (λ x. has x ks ≡ true) (sym (eq_of_== q k same)) o))
    | inr other ↦ rw (other, has-erase k q ks d, ==_symm k q, other)
  ],
  length-erase k ks o,
)

snoc_fresh : (v : ℕ) (xs : List ℕ) → IsDistinct (xs ++ v ∷ []) → has v xs ≡ false
snoc_fresh v [] d = refl
snoc_fresh v (x ∷ xs) d = ground (arith, snoc_fresh v xs d.1, has-append x xs (v ∷ []), ==_symm v x)

-- Taking the last page away leaves the others.
back_at : (v : ℕ) (rest : List ℕ) → IsDistinct (rest ++ v ∷ []) → Without v (rest ++ v ∷ []) rest
back_at v rest d = (
  rw (has-append v rest (v ∷ [])) (rw (==_refl v) (or_true (has v rest))),
  λ q. elim (Bool-cases (q == v)) [
    | inl same ↦
        rw same (subst (λ x. has x rest ≡ false) (sym (eq_of_== q v same)) (snoc_fresh v rest d))
    | inr other ↦ rw (other, has-append q rest (v ∷ [])) (rw other (sym (or_none (has q rest))))
  ],
  omega (arith, length-append {0} rest (v ∷ [])),
)

-- What both evictions do, in the terms of the interface.
pub evicted :
    (s : Lru) (k : ℕ) (ks : List ℕ) (r : Option (ℕ × Lru))
    → Holds s (k ∷ ks)
    → ((v : ℕ) × (rest : List ℕ) × (s' : Lru) × (k ∷ ks ≡ rest ++ v ∷ [])
        × (r ≡ some (v, s'))
        × Holds s' rest)
    → (v : ℕ) × (s' : Lru) × (ks' : List ℕ) × (r ≡ some (v, s'))
      × Holds s' ks'
      × Without v (k ∷ ks) ks'
evicted s k ks r h (v, rest, s', e, run, h') =
    let d = subst IsDistinct e (Holds-IsDistinct s (k ∷ ks) h) in
    (v, s', rest, run, h', subst (λ z. Without v z rest) (sym e) (back_at v rest d))

pub touched :
    (k : ℕ) (s : Lru) (ks : List ℕ)
    → Holds s ks
    → has k ks ≡ true
    → (s' : Lru) × (ks' : List ℕ) × (lru_touch k s ≡ some s') × Holds s' ks' × SamePages ks' ks
touched k s ks h o =
    let (s', e, h') = lru_touch-Holds k s ks h o in
    (s', k ∷ erase k ks, e, h', front-SamePages k ks (Holds-IsDistinct s ks h) o)

pub lru_evicted :
    (k : ℕ) (s : Lru) (ks : List ℕ)
    → Holds s (k ∷ ks)
    → (v : ℕ) × (s' : Lru) × (ks' : List ℕ) × (delete_lru 0 s ≡ some (v, s'))
      × Holds s' ks'
      × Without v (k ∷ ks) ks'
lru_evicted k s ks h = evicted s k ks (delete_lru 0 s) h (delete_lru-Holds 0 k s ks h)

pub ffifo_evicted :
    (k : ℕ) (s : Lru) (ks : List ℕ)
    → Holds s (k ∷ ks)
    → (v : ℕ) × (s' : Lru) × (ks' : List ℕ) × (ffifo_evict s ≡ some (v, s'))
      × Holds s' ks'
      × Without v (k ∷ ks) ks'
ffifo_evicted k s ks h = evicted s k ks (ffifo_evict s) h (ffifo_evict-Holds k s ks h)

-- deleteLRU is called with `tempPage = 0`.
abbrev pub lru : Policy
lru = record {
  State = Lru;
  Holds = Holds;
  tracked = λ s. s.list.count;
  insert = lru_insert;
  touch = lru_touch;
  evict = delete_lru 0;
  tracked-length = count-Holds;
  insert-Holds = lru_insert-Holds;
  touch-Holds = touched;
  evict-Holds = lru_evicted;
}

-- FFIFO_page_fault_handler does not touch a page that is in memory.
abbrev pub ffifo : Policy
ffifo = record {
  State = Lru;
  Holds = Holds;
  tracked = λ s. s.list.count;
  insert = lru_insert;
  touch = λ _ s. some s;
  evict = ffifo_evict;
  tracked-length = count-Holds;
  insert-Holds = lru_insert-Holds;
  touch-Holds = λ k s ks h o. (s, ks, refl, h, (λ q. refl, refl));
  evict-Holds = ffifo_evicted;
}

module _ {B : Backing} where
  unfoldable pub lru_page_fault_handler : ℕ → PageTable lru B → Option (PageTable lru B)
  lru_page_fault_handler = page_fault_handler

  unfoldable pub ffifo_page_fault_handler : ℕ → PageTable ffifo B → Option (PageTable ffifo B)
  ffifo_page_fault_handler = page_fault_handler
