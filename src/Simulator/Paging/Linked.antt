-- ===== src/Simulator/Paging/Linked.antt =====
-- The frames and the entries of legacy/OldPageTable/experiment/pagetable.c point at each other.
use blue_bridge.Prelude.{
  ℕ, ◌<◌, ◌≡◌, ◌≢◌, refl, sym, ap, ◌∙◌, inl, inr, some, Bool, Bool-cases, true, false, update, ◌==◌,
  eq_of_==, ne_of_==, ne→==, ==_refl,
}
use blue_bridge.Simulator.Paging.{Entry}

pub clash : {b : Bool} → b ≡ true → b ≡ false → ⊥
clash t f = cc

-- A page in memory owns the frame of its number, a frame in use belongs to such a page, and a page
-- on swap has an address there.
pub record Linked (memsize : ℕ) (entries : ℕ → Entry) (in_use : ℕ → Bool) (pte : ℕ → ℕ)
    : Type 0 where
  pub home :
      (p : ℕ)
      → (entries p).valid ≡ true
      → ((entries p).number < memsize)
        × (in_use (entries p).number ≡ true)
        × (pte (entries p).number ≡ p)
  pub tenant :
      (i : ℕ)
      → i < memsize
      → in_use i ≡ true
      → ((entries (pte i)).valid ≡ true) × ((entries (pte i)).number ≡ i)
  pub slot : (p : ℕ) → (entries p).on_swap ≡ true → (a : ℕ) × ((entries p).swap_off ≡ some a)

-- The same, but for one frame, which no page owns.
pub record Spare (memsize frame : ℕ) (entries : ℕ → Entry) (in_use : ℕ → Bool) (pte : ℕ → ℕ)
    : Type 0 where
  pub below : frame < memsize
  pub home :
      (p : ℕ)
      → (entries p).valid ≡ true
      → ((entries p).number < memsize)
        × ((entries p).number ≢ frame)
        × (in_use (entries p).number ≡ true)
        × (pte (entries p).number ≡ p)
  pub tenant :
      (i : ℕ)
      → i < memsize
      → i ≢ frame
      → in_use i ≡ true
      → ((entries (pte i)).valid ≡ true) × ((entries (pte i)).number ≡ i)
  pub slot : (p : ℕ) → (entries p).on_swap ≡ true → (a : ℕ) × ((entries p).swap_off ≡ some a)

module _ (memsize frame : ℕ) (entries : ℕ → Entry) (in_use : ℕ → Bool) (pte : ℕ → ℕ) where
  pub Linked-free :
      Linked memsize entries in_use pte
      → frame < memsize
      → in_use frame ≡ false
      → Spare memsize frame entries in_use pte
  Linked-free l below free = record {
    below = below;
    home = λ p valid. let (h, u, o) = l.home p valid in (h, (λ same. cc), u, o);
    tenant = λ i small other used. l.tenant i small used;
    slot = l.slot;
  }

  pub Linked-evicted :
      (x : Entry)
      → Linked memsize entries in_use pte
      → frame < memsize
      → in_use frame ≡ true
      → x.valid ≡ false
      → (x.on_swap ≡ true → (a : ℕ) × (x.swap_off ≡ some a))
      → Spare memsize frame (update entries (pte frame) x) in_use pte
  Linked-evicted x l below used invalid held = record {
    below = below;
    home = λ p. elim (Bool-cases (p == pte frame)) [
      | inl same ↦ rw same (λ valid. absurd (clash valid invalid))
      | inr other ↦ rw other (λ valid.
          let (h, u, o) = l.home p valid in
          (h, (λ same. ne_of_== _ _ other (sym o ∙ ap pte same)), u, o))
    ];
    tenant = λ i small other used'. elim (Bool-cases (pte i == pte frame)) [
      | inl same ↦ absurd (
          other (
            sym ((l.tenant i small used').1)
            ∙ ap (λ q. (entries q).number) (eq_of_== _ _ same)
            ∙ (l.tenant frame below used).1))
      | inr apart ↦ rw apart (l.tenant i small used')
    ];
    slot = λ p. elim (Bool-cases (p == pte frame)) [
      | inl same ↦ rw same held
      | inr other ↦ rw other (l.slot p)
    ];
  }

  pub Spare-taken :
      (q : ℕ) (y : Entry)
      → Spare memsize frame entries in_use pte
      → (entries q).valid ≡ false
      → y.number ≡ frame
      → y.valid ≡ true
      → (y.on_swap ≡ true → (a : ℕ) × (y.swap_off ≡ some a))
      → Linked memsize (update entries q y) (update in_use frame true) (update pte frame q)
  Spare-taken q y l out number valid held = record {
    home = λ p. elim (Bool-cases (p == q)) [
      | inl same ↦
          rw same (λ _. rw number (rw (==_refl frame) (l.below, refl, sym (eq_of_== _ _ same))))
      | inr other ↦
          rw other (λ valid'. let (h, n, u, o) = l.home p valid' in rw (ne→== _ _ n) (h, u, o))
    ];
    tenant = λ i small. elim (Bool-cases (i == frame)) [
      | inl same ↦ rw same (λ _. rw (==_refl q) (valid, number ∙ sym (eq_of_== _ _ same)))
      | inr other ↦ rw other (λ used.
          let (v, n) = l.tenant i small (ne_of_== _ _ other) used in
          rw (ne→== (pte i) q (λ e. clash v (ap (λ r. (entries r).valid) e ∙ out))) (v, n))
    ];
    slot = λ p. elim (Bool-cases (p == q)) [
      | inl same ↦ rw same held
      | inr other ↦ rw other (l.slot p)
    ];
  }

  pub Linked-touched :
      (q : ℕ) (y : Entry)
      → Linked memsize entries in_use pte
      → (entries q).valid ≡ true
      → y.number ≡ (entries q).number
      → y.valid ≡ true
      → (y.on_swap ≡ true → (a : ℕ) × (y.swap_off ≡ some a))
      → Linked memsize (update entries q y) in_use pte
  Linked-touched q y l before number valid held = record {
    home = λ p. elim (Bool-cases (p == q)) [
      | inl same ↦
          rw same (λ _.
            rw number (let (h, u, o) = l.home q before in (h, u, o ∙ sym (eq_of_== _ _ same))))
      | inr other ↦ rw other (l.home p)
    ];
    tenant = λ i small used. elim (Bool-cases (pte i == q)) [
      | inl same ↦ rw same (
        valid,
        (number
            ∙ ap (λ r. (entries r).number) (sym (eq_of_== _ _ same))
            ∙ (l.tenant i small used).1),
      )
      | inr other ↦ rw other (l.tenant i small used)
    ];
    slot = λ p. elim (Bool-cases (p == q)) [
      | inl same ↦ rw same held
      | inr other ↦ rw other (l.slot p)
    ];
  }
