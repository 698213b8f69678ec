-- ===== src/Simulator/Paging/Contents.antt =====
-- What the pages of legacy/OldPageTable/experiment/pagetable.c hold, in memory or on swap.
use blue_bridge.Prelude.{
  ℕ, ◌≡◌, ◌≢◌, refl, sym, ap, subst, ◌∙◌, inl, inr, Option, Option-cases, none, some, Bool-cases,
  true, false, List, update, ◌==◌, eq_of_==, ne_of_==, if◌then◌else◌, ◌>>=◌, some_injective,
}
use blue_bridge.Simulator.Paging.{Entry, Swap, swap_slot}
use blue_bridge.Simulator.Paging.Linked.{clash}

-- What the client of remote memory does: addresses are given out once, and what is written to one is
-- read from it, and from no other.
pub record SwapLaws (W : Swap) : Type 1 where
  pub Given : W.Store → ℕ → Type 0
  pub allocated : (s : W.Store) → Given ((W.allocate s).1) ((W.allocate s).0)
  pub unused : (s : W.Store) → Given s ((W.allocate s).0) → ⊥
  pub allocate_keeps : (s : W.Store) (a : ℕ) → Given s a → Given ((W.allocate s).1) a
  pub allocate_get : (s : W.Store) (a : ℕ) → Given s a → W.get a ((W.allocate s).1) ≡ W.get a s
  pub write_keeps : (c : List ℕ) (a b : ℕ) (s : W.Store) → Given s b → Given (W.write c a s) b
  pub write_get : (c : List ℕ) (a : ℕ) (s : W.Store) → Given s a → W.get a (W.write c a s) ≡ c
  pub write_other :
      (c : List ℕ) (a b : ℕ) (s : W.Store) → b ≢ a → W.get b (W.write c a s) ≡ W.get b s

-- What a page holds; `none` is a page that is new.
abbrev pub content_of : (W : Swap) → (ℕ → List ℕ) → W.Store → Entry → Option (List ℕ)
content_of W physmem store e =
    if e.valid
    then some (physmem e.number)
    else if e.on_swap
    then (e.swap_off >>= (λ a. some (W.get a store)))
    else none

-- Pages on swap have addresses of their own, and a page in memory that is not dirty is what its
-- address holds.
pub record Backed (W : Swap) (laws : SwapLaws W) (entries : ℕ → Entry) (physmem : ℕ → List ℕ)
    (store : W.Store) : Type 0 where
  pub given : (p a : ℕ) → (entries p).swap_off ≡ some a → laws.Given store a
  pub distinct : (p q a : ℕ) → (entries p).swap_off ≡ some a → (entries q).swap_off ≡ some a → p ≡ q
  pub clean :
      (p : ℕ)
      → (entries p).valid ≡ true
      → (entries p).dirty ≡ false
      → ((entries p).on_swap ≡ true)
        × (a : ℕ) × ((entries p).swap_off ≡ some a)
        × (W.get a store ≡ physmem (entries p).number)

module _ (W : Swap) (laws : SwapLaws W) where
  -- A page holds the same while its frame and its address on swap do.
  pub content_same :
      (physmem physmem' : ℕ → List ℕ) (store store' : W.Store) (e : Entry)
      → (e.valid ≡ true → physmem' e.number ≡ physmem e.number)
      → ((a : ℕ) → e.swap_off ≡ some a → W.get a store' ≡ W.get a store)
      → content_of W physmem' store' e ≡ content_of W physmem store e
  content_same physmem physmem' store store' e mem swap = elim (Bool-cases e.valid) [
    | inl valid ↦ rw valid (ap some (mem valid))
    | inr out ↦ rw out (elim (Bool-cases e.on_swap) [
      | inr new ↦ rw new refl
      | inl swapped ↦ rw swapped (elim (Option-cases e.swap_off) [
        | inl off ↦ rw off refl
        | inr (a, at) ↦ rw at (ap some (swap a at))
      ])
    ])
  ]

  module _ (entries : ℕ → Entry) (physmem : ℕ → List ℕ) (store : W.Store)
      (b : Backed W laws entries physmem store) (v : ℕ) where
    -- The address that a victim is written to.
    record Slot (a : ℕ) (store' : W.Store) : Type 0 where
      own : laws.Given store' a
      keeps : (c : ℕ) → laws.Given store c → laws.Given store' c
      get : (c : ℕ) → laws.Given store c → W.get c store' ≡ W.get c store
      apart : (q c : ℕ) → q ≢ v → (entries q).swap_off ≡ some c → c ≢ a

    swap_slot-Slot :
        (o : Option ℕ)
        → (entries v).swap_off ≡ o
        → Slot ((swap_slot W o store).0) ((swap_slot W o store).1)
    unfolding swap_slot
    swap_slot-Slot none e = record {
      own = laws.allocated store;
      keeps = laws.allocate_keeps store;
      get = laws.allocate_get store;
      apart = λ q c ne at same. laws.unused store (subst (laws.Given store) same (b.given q c at));
    }
    swap_slot-Slot (some a) e = record {
      own = b.given v a e;
      keeps = λ c h. h;
      get = λ c h. refl;
      apart = λ q c ne at same. ne (b.distinct q v a (at ∙ ap some same) e);
    }

    -- What evicting the page `v` leaves, with the entry `x`.
    pub record Left (x : Entry) (store' : W.Store) : Type 0 where
      pub backed : Backed W laws (update entries v x) physmem store'
      pub keeps :
          (q : ℕ)
          → content_of W physmem store' (update entries v x q)
            ≡ content_of W physmem store (entries q)

    pub written_out :
        (entries v).valid ≡ true
        → (frame : ℕ) → (entries v).number ≡ frame
        → let s = swap_slot W (entries v).swap_off store in
          Left
            (record (entries v) { swap_off = some (s.0); valid = false; on_swap = true })
            (W.write (physmem frame) (s.0) (s.1))
    written_out valid frame number =
        let a = (swap_slot W (entries v).swap_off store).0 in
        let store1 = (swap_slot W (entries v).swap_off store).1 in
        let slot = swap_slot-Slot (entries v).swap_off refl in
        let store2 = W.write (physmem frame) a store1 in
        let get : (q c : ℕ)
            → q ≢ v
            → (entries q).swap_off ≡ some c
            → W.get c store2 ≡ W.get c store =
          λ q c ne at.
            laws.write_other (physmem frame) a c store1 (slot.apart q c ne at)
            ∙ slot.get c (b.given q c at) in
        record {
          backed = record {
            given = λ p c. elim (Bool-cases (p == v)) [
              | inl same ↦ rw same (λ at.
                  subst (laws.Given store2) (some_injective at)
                    (laws.write_keeps (physmem frame) a a store1 slot.own))
              | inr other ↦ rw other (λ at.
                  laws.write_keeps (physmem frame) a c store1 (slot.keeps c (b.given p c at)))
            ];
            distinct = λ p q c. elim (Bool-cases (p == v)) [
              | inl same ↦ rw same (elim (Bool-cases (q == v)) [
                | inl same' ↦ λ _ _. eq_of_== p v same ∙ sym (eq_of_== q v same')
                | inr other' ↦ rw other' (λ at at'.
                    absurd (slot.apart q c (ne_of_== q v other') at' (sym (some_injective at))))
              ])
              | inr other ↦ rw other (elim (Bool-cases (q == v)) [
                | inl same' ↦ rw same' (λ at at'.
                    absurd (slot.apart p c (ne_of_== p v other) at (sym (some_injective at'))))
                | inr other' ↦ rw other' (b.distinct p q c)
              ])
            ];
            clean = λ p. elim (Bool-cases (p == v)) [
              | inl same ↦ rw same (λ valid'. absurd (clash valid' refl))
              | inr other ↦ rw other (λ valid' undirty.
                  let (on, c, at, same) = b.clean p valid' undirty in
                  (on, c, at, get p c (ne_of_== p v other) at ∙ same))
            ];
          };
          keeps = λ q. elim (Bool-cases (q == v)) [
            | inl same ↦
                rw (same, eq_of_== q v same, valid)
                  (ap some
                    (laws.write_get (physmem frame) a store1 slot.own ∙ ap physmem (sym number)))
            | inr other ↦ rw other (
                content_same physmem physmem store store2 (entries q) (λ _. refl)
                  (λ c. get q c (ne_of_== q v other)))
          ];
        }

    pub dropped :
        (entries v).valid ≡ true
        → (entries v).dirty ≡ false
        → Left (record (entries v) { valid = false }) store
    dropped valid undirty =
        let (on, a, at, same) = b.clean v valid undirty in
        let x : Entry = record (entries v) { valid = false } in
        let off : (q : ℕ) → (update entries v x q).swap_off ≡ (entries q).swap_off = λ q.
          elim (Bool-cases (q == v)) [
            | inl here ↦ rw here (ap (λ p. (entries p).swap_off) (sym (eq_of_== q v here)))
            | inr other ↦ rw other refl
          ] in
        record {
          backed = record {
            given = λ p c e. b.given p c (sym (off p) ∙ e);
            distinct = λ p q c e e'. b.distinct p q c (sym (off p) ∙ e) (sym (off q) ∙ e');
            clean = λ p. elim (Bool-cases (p == v)) [
              | inl here ↦ rw here (λ valid'. absurd (clash valid' refl))
              | inr other ↦ rw other (b.clean p)
            ];
          };
          keeps = λ q. elim (Bool-cases (q == v)) [
            | inl here ↦ rw (here, eq_of_== q v here, valid, on, at) (ap some same)
            | inr other ↦ rw other refl
          ];
        }

    -- The entry becomes `y`, in a memory that is the same for the other pages.
    pub renewed :
        (y : Entry) (physmem' : ℕ → List ℕ)
        → y.swap_off ≡ (entries v).swap_off
        → (y.dirty ≡ false
            → (y.on_swap ≡ true)
              × (a : ℕ) × (y.swap_off ≡ some a)
              × (W.get a store ≡ physmem' y.number))
        → ((p : ℕ)
            → p ≢ v
            → (entries p).valid ≡ true
            → physmem' (entries p).number ≡ physmem (entries p).number)
        → Backed W laws (update entries v y) physmem' store
    renewed y physmem' off clean others =
        let off_at : (q : ℕ) → (update entries v y q).swap_off ≡ (entries q).swap_off = λ q.
          elim (Bool-cases (q == v)) [
            | inl here ↦ rw here (off ∙ ap (λ p. (entries p).swap_off) (sym (eq_of_== q v here)))
            | inr other ↦ rw other refl
          ] in
        record {
          given = λ p c e. b.given p c (sym (off_at p) ∙ e);
          distinct = λ p q c e e'. b.distinct p q c (sym (off_at p) ∙ e) (sym (off_at q) ∙ e');
          clean = λ p. elim (Bool-cases (p == v)) [
            | inl here ↦ rw here (λ _. clean)
            | inr other ↦ rw other (λ valid undirty.
                let (on, a, at, same) = b.clean p valid undirty in
                (on, a, at, same ∙ sym (others p (ne_of_== p v other) valid)))
          ];
        }
