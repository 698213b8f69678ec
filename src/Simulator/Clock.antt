-- ===== src/Simulator/Clock.antt =====
-- legacy/OldPageTable/experiment/clock.c: the clock policy. `none` is the assertion after the loop, or a
-- loop that has not ended when the fuel is used up.
use native.Mathlib.Nat.{mod-eq_of_lt, mod_self, mod-lt}
use blue_bridge.Prelude.{
  ℕ, zero, suc, ◌+◌, ◌-◌, ◌%◌, ◌≤◌, ◌<◌, ◌≡◌, ◌≢◌, ◌⊎◌, inl, inr, refl, sym, ap, ◌∙◌, Option, none,
  some, Bool, true, false, Bool-cases, ltb, leb, ◌==◌, eq_of_==, ne_of_==, if◌then◌else◌, update,
  lt→ltb, le→ltb, arith,
}

pub record Clock : Type 0 where
  pub clk_refed : ℕ → Bool
  pub clk_hand : ℕ

pub clock_init : Clock
clock_init = record { clk_refed = λ _. false; clk_hand = 0 }

unfoldable pub clock_ref : (frame : ℕ) → Clock → Clock
clock_ref frame s = record s { clk_refed = update s.clk_refed frame true }

-- The loop of clock_evict from frame i on.
unfoldable pub clock_sweep : (fuel memsize i : ℕ) → (ℕ → Bool) → Option (ℕ × Clock)
clock_sweep zero memsize i refed = none
clock_sweep (suc fuel) memsize i refed =
    let rest = clock_sweep fuel memsize ((i + 1) % memsize) (update refed i false) in
    if ltb i memsize
    then (if refed i
        then rest
        else some (i, record { clk_refed = update refed i true; clk_hand = i }))
    else none

unfoldable pub clock_evict : (memsize : ℕ) → Clock → Option (ℕ × Clock)
unfolding clock_sweep
clock_evict memsize s = clock_sweep (memsize + 1) memsize s.clk_hand s.clk_refed

-- How far a frame lies ahead of the hand.
abbrev pub turn : (memsize hand x : ℕ) → ℕ
turn memsize hand x = if leb hand x then x - hand else x + memsize - hand

next : (n i : ℕ) → i < n → (i + 1) % n ≡ (if i + 1 == n then 0 else i + 1)
next n i h = elim (Bool-cases (i + 1 == n)) [
  | inl wraps ↦ rw wraps (ap (λ k. k % n) (eq_of_== (i + 1) n wraps) ∙ mod_self n)
  | inr steps ↦ rw steps (mod-eq_of_lt (ground arith))
]

-- What the sweep finds: the distance `d` of the victim from the hand, the frames passed all
-- referenced, and cleared, the victim the first that is not, or the hand after a whole turn.
pub record Swept (n hand : ℕ) (refed : ℕ → Bool) (result : Option (ℕ × Clock)) : Type 0 where
  pub victim : ℕ
  pub after : Clock
  pub d : ℕ
  pub returns : result ≡ some (victim, after)
  pub in_range : victim < n
  pub found :
      ((d < n) × ((turn n hand victim ≡ d) × (refed victim ≡ false))) ⊎ ((d ≡ n) × (victim ≡ hand))
  pub passed : (x : ℕ) → x < n → turn n hand x < d → refed x ≡ true
  pub at_victim : after.clk_hand ≡ victim
  pub cleared :
      (x : ℕ)
      → x < n
      → after.clk_refed x
        ≡ (if x == victim then true else if ltb (turn n hand x) d then false else refed x)

lt_of_ne : (a d : ℕ) → a < d + 1 → a ≢ d → a < d
lt_of_ne a d h k = omega arith

ltb_step : (a d : ℕ) → a ≢ d → ltb a d ≡ ltb a (d + 1)
ltb_step a d h = ground arith

module _ (n hand : ℕ) (refed : ℕ → Bool) (h : hand < n) where
  turn_same : (x y : ℕ) → x < n → y < n → turn n hand x ≡ turn n hand y → x ≡ y
  turn_same x y p q e = ground arith

  turn_lt : (x : ℕ) → x < n → turn n hand x < n
  turn_lt x p = ground arith

  abbrev IsAt : ℕ → ℕ → Type 0
  IsAt d i = ((d < n) × (turn n hand i ≡ d)) ⊎ ((d ≡ n) × (i ≡ hand))

  step-IsAt : (d i : ℕ) → i < n → d < n → turn n hand i ≡ d → IsAt (d + 1) ((i + 1) % n)
  step-IsAt d i p q e = rw (next n i p) (ground arith)

  -- The frames passed are cleared.
  abbrev Behind : ℕ → (ℕ → Bool) → Type 0
  Behind d r = (x : ℕ) → x < n → r x ≡ (if ltb (turn n hand x) d then false else refed x)

  step-Behind :
      (d i : ℕ) (r : ℕ → Bool)
      → i < n
      → turn n hand i ≡ d
      → Behind d r
      → Behind (d + 1) (update r i false)
  step-Behind d i r p e b x q = elim (Bool-cases (x == i)) [
    | inl same ↦ rw same (
        sym (
          ap (λ b. if b then false else refed x)
            (lt→ltb (turn n hand x) (d + 1)
              (omega (arith, ap (turn n hand) (eq_of_== x i same), e)))))
    | inr other ↦ rw other (
        b x q
        ∙ ap (λ b. if b then false else refed x)
            (ltb_step (turn n hand x) d (λ k. ne_of_== x i other (turn_same x i q p (k ∙ sym e)))))
  ]

  ahead_unchanged :
      (d x : ℕ) (r : ℕ → Bool) → x < n → Behind d r → d ≤ turn n hand x → r x ≡ refed x
  ahead_unchanged d x r p b l =
      b x p ∙ ap (λ b. if b then false else refed x) (le→ltb (turn n hand x) d l)

  cleared_at : (d x : ℕ) (r : ℕ → Bool) → x < n → Behind d r → turn n hand x < d → r x ≡ false
  cleared_at d x r p b l =
      b x p ∙ ap (λ b. if b then false else refed x) (lt→ltb (turn n hand x) d l)

  set_victim :
      (d i x : ℕ) (r : ℕ → Bool)
      → x < n
      → Behind d r
      → update r i true x
        ≡ (if x == i then true else if ltb (turn n hand x) d then false else refed x)
  set_victim d i x r q b = ap (λ v. if x == i then true else v) (b x q)

  clock_sweep-Swept :
      (fuel d i : ℕ) (r : ℕ → Bool)
      → n < d + fuel
      → d ≤ n
      → i < n
      → IsAt d i
      → Behind d r
      → ((x : ℕ) → x < n → turn n hand x < d → refed x ≡ true)
      → Swept n hand refed (clock_sweep fuel n i r)
  unfolding clock_sweep
  clock_sweep-Swept zero d i r f l p spot b seen = absurd (omega arith)
  clock_sweep-Swept (suc fuel) d i r f l p (inl (dn, e)) b seen = elim (Bool-cases (r i)) [
    | inl on ↦
        let here : refed i ≡ true = sym (ahead_unchanged d i r p b (omega (arith, e))) ∙ on in
        let rest =
          clock_sweep-Swept fuel (d + 1) ((i + 1) % n) (update r i false) (omega arith)
            (omega arith) (mod-lt (i + 1) (omega arith)) (step-IsAt d i p dn e)
            (step-Behind d i r p e b)
            (λ x q k. elim (Bool-cases (x == i)) [
              | inl same ↦ ap refed (eq_of_== x i same) ∙ here
              | inr other ↦ seen x q (
                  lt_of_ne (turn n hand x) d k
                    (λ m. ne_of_== x i other (turn_same x i q p (m ∙ sym e))))
            ]) in
        rw (lt→ltb i n p) (rw on rest)
    | inr off ↦ record {
      victim = i;
      after = record { clk_refed = update r i true; clk_hand = i };
      d = d;
      returns = rw (lt→ltb i n p) (rw off refl);
      in_range = p;
      found = inl (dn, (e, sym (ahead_unchanged d i r p b (omega (arith, e))) ∙ off));
      passed = seen;
      at_victim = refl;
      cleared = λ x q. set_victim d i x r q b;
    }
  ]
  clock_sweep-Swept (suc fuel) d i r f l p (inr (dn, e)) b seen =
      let off : r i ≡ false = cleared_at d i r p b (omega (arith, dn, turn_lt i p)) in
      record {
        victim = i;
        after = record { clk_refed = update r i true; clk_hand = i };
        d = d;
        returns = rw (lt→ltb i n p) (rw off refl);
        in_range = p;
        found = inr (dn, e);
        passed = seen;
        at_victim = refl;
        cleared = λ x q. set_victim d i x r q b;
      }

-- Under a hand that lies in the memory, clock_evict ends: it evicts the first frame from the hand on
-- that is not referenced, or the hand's when all are, clears the frames passed, and leaves the hand
-- at the victim, which is then marked.
pub clock_evict-Swept :
    (memsize : ℕ) (s : Clock)
    → s.clk_hand < memsize
    → Swept memsize s.clk_hand s.clk_refed (clock_evict memsize s)
unfolding clock_evict
clock_evict-Swept memsize s h =
    clock_sweep-Swept memsize s.clk_hand s.clk_refed h (memsize + 1) 0 s.clk_hand s.clk_refed
      (omega arith) (omega arith) h (inl (omega arith, ground arith)) (λ x q. ground arith)
      (λ x q k. absurd (omega (arith, k)))
