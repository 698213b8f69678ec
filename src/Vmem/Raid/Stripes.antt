-- ===== src/Vmem/Raid/Stripes.antt =====
-- The stripes of a block and their repair (ip6/lib/vmem/rrmem.c).
use native.Mathlib.Nat.{suc-mul}
use blue_bridge.Prelude.{
  ℕ, zero, suc, ◌+◌, ◌-◌, ◌*◌, ◌/◌, ◌%◌, ◌≤◌, ◌<◌, ◌≡◌, ◌≢◌, refl, sym, ap, ap₂, ◌∙◌, arith, ◌==◌,
  ltb, leb, Bool-cases, inl, inr, ne_of_==, ne→==, eq_of_==, subst, lt→ltb, ltb→lt, le_of_ltb,
  lt→leb, true, update,
}
use blue_bridge.Bits.{bit_xor}
use blue_bridge.Vmem.Raid.{
  Buffer, xor_others, fill, parity_base, stripe_alloc, copy_from, copy_to, write_stripes,
  read_stripes,
}

pub update_other {ℓ} :
    {A : Type ℓ} (f : ℕ → A) (i : ℕ) (v : A) (k : ℕ) → k ≢ i → update f i v k ≡ f k
update_other f i v k h = rw (ne→== k i h)

pub fill_at : (f : ℕ → ℕ) (n : ℕ) (buffer : Buffer) (k : ℕ) → k < n → fill f n buffer k ≡ f k
unfolding fill
fill_at f zero buffer k h = omega arith
fill_at f (suc i) buffer k h = elim (Bool-cases (k == i)) [
  | inl here ↦ rw here (ap f (sym (eq_of_== k i here)))
  | inr elsewhere ↦ rw elsewhere (fill_at f i buffer k (omega (arith, ne_of_== k i elsewhere)))
]

pub xor_others-cong :
    (f g : ℕ → ℕ) (missing n : ℕ)
    → ((j : ℕ) → j < n → j ≢ missing → f j ≡ g j)
    → xor_others f missing n ≡ xor_others g missing n
unfolding xor_others
xor_others-cong f g missing zero h = refl
xor_others-cong f g missing (suc j) h = elim (Bool-cases (j == missing)) [
  | inl here ↦ rw here (xor_others-cong f g missing j (λ k l. h k (omega arith)))
  | inr elsewhere ↦ rw elsewhere (
      ap₂ (bit_xor 8) (xor_others-cong f g missing j (λ k l. h k (omega arith)))
        (h j (omega arith) (ne_of_== j missing elsewhere)))
]

-- The stripes one after the other fill the block.
pub parity_base-suc :
    (size n j : ℕ) → parity_base size n (suc j) ≡ parity_base size n j + stripe_alloc size n j
unfolding parity_base stripe_alloc
parity_base-suc size n j = ground arith

pub parity_base-long : (size n j : ℕ) → j ≤ size % n → parity_base size n j ≡ j * (size / n + 1)
unfolding parity_base
parity_base-long size n zero h = omega arith
parity_base-long size n (suc j) h =
    rw (lt→ltb j (size % n) h)
      (omega (arith, parity_base-long size n j (omega arith), suc-mul j (size / n + 1)))

pub write_stripes-base :
    (bytes : Buffer) (size n : ℕ) (wbufs : ℕ → Buffer) (i : ℕ)
    → (write_stripes bytes size n wbufs i).1 ≡ parity_base size n i
unfolding write_stripes parity_base
write_stripes-base bytes size n wbufs zero = refl
write_stripes-base bytes size n wbufs (suc i) =
    ap (λ b. b + stripe_alloc size n i) (write_stripes-base bytes size n wbufs i)
    ∙ sym (parity_base-suc size n i)

pub write_stripes_after :
    (bytes : Buffer) (size n : ℕ) (wbufs : ℕ → Buffer) (i k : ℕ)
    → i ≤ k
    → (write_stripes bytes size n wbufs i).0 k ≡ wbufs k
unfolding write_stripes
write_stripes_after bytes size n wbufs zero k h = refl
write_stripes_after bytes size n wbufs (suc i) k h =
    update_other ((write_stripes bytes size n wbufs i).0) i _ k (λ e. omega (arith, e))
    ∙ write_stripes_after bytes size n wbufs i k (omega arith)

-- Stripe k is a copy of its part of the block.
pub write_stripes_at :
    (bytes : Buffer) (size n : ℕ) (wbufs : ℕ → Buffer) (i k : ℕ)
    → k < i
    → (write_stripes bytes size n wbufs i).0 k
      ≡ copy_from bytes (parity_base size n k) (stripe_alloc size n k) (wbufs k)
unfolding write_stripes
write_stripes_at bytes size n wbufs zero k h = absurd (omega arith)
write_stripes_at bytes size n wbufs (suc i) k h = elim (Bool-cases (k == i)) [
  | inl here ↦ rw here (
      subst
        (λ j.
          copy_from bytes (write_stripes bytes size n wbufs i).1 (stripe_alloc size n i)
            ((write_stripes bytes size n wbufs i).0 i)
          ≡ copy_from bytes (parity_base size n j) (stripe_alloc size n j) (wbufs j))
        (sym (eq_of_== k i here))
        (ap₂ (λ b x. copy_from bytes b (stripe_alloc size n i) x)
          (write_stripes-base bytes size n wbufs i)
          (write_stripes_after bytes size n wbufs i i (omega arith))))
  | inr elsewhere ↦
      rw elsewhere (write_stripes_at bytes size n wbufs i k (omega (arith, ne_of_== k i elsewhere)))
]

pub read_stripes-base :
    (rbufs : ℕ → Buffer) (size n : ℕ) (bytes : Buffer) (i : ℕ)
    → (read_stripes rbufs size n bytes i).1 ≡ parity_base size n i
unfolding read_stripes parity_base
read_stripes-base rbufs size n bytes zero = refl
read_stripes-base rbufs size n bytes (suc i) =
    ap (λ b. b + stripe_alloc size n i) (read_stripes-base rbufs size n bytes i)
    ∙ sym (parity_base-suc size n i)

le→leb : (a b : ℕ) → a ≤ b → leb a b ≡ true
le→leb a b h = ground arith

pub copy_to_below :
    (source : Buffer) (base n : ℕ) (target : Buffer) (k : ℕ)
    → k < base
    → copy_to source base n target k ≡ target k
unfolding copy_to
copy_to_below source base n target k h = rw (lt→leb k base h) refl

pub copy_to_inside :
    (source : Buffer) (base n : ℕ) (target : Buffer) (k : ℕ)
    → base ≤ k
    → k < base + n
    → copy_to source base n target k ≡ source (k - base)
unfolding copy_to
copy_to_inside source base n target k h l = rw (le→leb base k h) (rw (lt→ltb k (base + n) l) refl)

-- Stripes that are copies of the block's parts are put together to the block.
pub read_stripes-written :
    (rbufs : ℕ → Buffer) (size n : ℕ) (bytes target : Buffer) (i : ℕ)
    → ((j k : ℕ) → j < i → k < stripe_alloc size n j → rbufs j k ≡ bytes (parity_base size n j + k))
    → (k : ℕ) → k < parity_base size n i
    → (read_stripes rbufs size n target i).0 k ≡ bytes k
unfolding read_stripes parity_base
read_stripes-written rbufs size n bytes target zero h k l = absurd (omega arith)
read_stripes-written rbufs size n bytes target (suc i) h k l =
    let (before, base) = read_stripes rbufs size n target i in
    let alloc = stripe_alloc size n i in
    let at = parity_base size n i in
    let l' : k < at + alloc = omega (arith, l, parity_base-suc size n i) in
    ap (λ b. copy_to (rbufs i) b alloc before k) (read_stripes-base rbufs size n target i)
    ∙ elim (Bool-cases (ltb k at)) [
      | inl below ↦
          copy_to_below (rbufs i) at alloc before k (ltb→lt k at below)
          ∙ read_stripes-written rbufs size n bytes target i (λ j m u. h j m (omega arith)) k
              (ltb→lt k at below)
      | inr from ↦
          copy_to_inside (rbufs i) at alloc before k (le_of_ltb k at refl from) l'
          ∙ h i (k - at) (omega arith) (omega (arith, l', le_of_ltb k at refl from))
          ∙ ap bytes (omega (arith, le_of_ltb k at refl from))
    ]
