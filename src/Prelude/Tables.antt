-- ===== src/Prelude/Tables.antt =====
-- Total tables over the numbers: arrays whose bounds the code checks itself, and maps.
use Prim.Native.Nat.{ℕ}
use mathlib.Core.Path.{◌≡◌, sym, ap}
use mathlib.Core.Logic.{inl, inr}
use native.Mathlib.Omega.{arith}
use blue_bridge.Prelude.Tests.{◌==◌, if◌then◌else◌, Bool-cases, eq_of_==}

abbrev pub update {ℓ} : {A : Type ℓ} → (ℕ → A) → ℕ → A → ℕ → A
update f k v j = if j == k then v else f j

pub update_self {ℓ} : {A : Type ℓ} (f : ℕ → A) (k : ℕ) (v : A) → update f k v k ≡ v
update_self f k v = ground arith

pub update_same {ℓ} : {A : Type ℓ} (f : ℕ → A) (k j : ℕ) → update f k (f k) j ≡ f j
update_same f k j = elim (Bool-cases (j == k)) [
  | inl same ↦ rw same (ap f (sym (eq_of_== j k same)))
  | inr other ↦ rw other
]

update_twice_at {ℓ} :
    {A : Type ℓ} (f : ℕ → A) (k : ℕ) (v w : A) (j : ℕ)
    → update (update f k v) k w j ≡ update f k w j
update_twice_at f k v w j = elim (Bool-cases (j == k)) [ inl same ↦ rw same | inr other ↦ rw other ]

-- Of two values for a key the second stays.
pub update_twice {ℓ} :
    {A : Type ℓ} (f : ℕ → A) (k : ℕ) (v w : A) → update (update f k v) k w ≡ update f k w
update_twice f k v w = λ p j. update_twice_at f k v w j p
