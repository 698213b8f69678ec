-- ===== src/Client/Runs.antt =====
-- The batches of write_bulk_rmem of ip6/lib/client_lib.c, one after the other.
use native.Mathlib.Nat.{zero-add, suc-add, mul-suc}
use blue_bridge.Prelude.{
  length-take_le, ℕ, zero, suc, ◌+◌, ◌*◌, ◌%◌, ◌^◌, ◌≤◌, ◌<◌, ◌≡◌, refl, subst, sym, ap, ap₂, ◌∙◌,
  List, [], ◌∷◌, ◌++◌, length, take, drop, arith, Option, some, ◌>>=◌, length-take, Bool, true,
  ◌==◌, if◌then◌else◌,
}
use blue_bridge.Memory.{Bytes}
use blue_bridge.Types.{Memaddr, Sockaddr, block_size}
use blue_bridge.Server.{Server}
use blue_bridge.Server.Requests.{All}
use blue_bridge.Net.{Net}
use blue_bridge.Client.{batch_write, batch_size, ushrt_max, exit_success}
use blue_bridge.Client.Bulk.{write_batches}
use blue_bridge.Client.Single.{memories}
use blue_bridge.Client.Chunk.{SameFrame, frame_trans}
use blue_bridge.Client.Burst.{stored, batch_write-Done}
use blue_bridge.Client.Readback.{Apart, AreApart}

module _ {A : Type 0} where
  take_nil : (j : ℕ) → ◌≡◌ {A = List A} (take j []) []
  take_nil zero = refl
  take_nil (suc j) = refl

  drop_nil : (j : ℕ) → ◌≡◌ {A = List A} (drop j []) []
  drop_nil zero = refl
  drop_nil (suc j) = refl

  pub take_add : (k j : ℕ) (xs : List A) → take (k + j) xs ≡ take k xs ++ take j (drop k xs)
  take_add zero j xs = ap (λ n. take n xs) (zero-add j)
  take_add (suc k) j [] = take_nil (suc k + j) ∙ sym (take_nil j)
  take_add (suc k) j (x ∷ xs) =
      ap (λ n. take n (x ∷ xs)) (suc-add k j) ∙ ap (◌∷◌ x) (take_add k j xs)

  pub drop_add : (k j : ℕ) (xs : List A) → drop (k + j) xs ≡ drop j (drop k xs)
  drop_add zero j xs = ap (λ n. drop n xs) (zero-add j)
  drop_add (suc k) j [] = drop_nil (suc k + j) ∙ sym (drop_nil j)
  drop_add (suc k) j (x ∷ xs) = ap (λ n. drop n (x ∷ xs)) (suc-add k j) ∙ drop_add k j xs

  pub All-take : (P : A → Type 0) (n : ℕ) (xs : List A) → All P xs → All P (take n xs)
  All-take P zero xs h = tt
  All-take P (suc n) [] h = tt
  All-take P (suc n) (x ∷ xs) h = (h.0, All-take P n xs (h.1))

  pub All-drop : (P : A → Type 0) (n : ℕ) (xs : List A) → All P xs → All P (drop n xs)
  All-drop P zero xs h = h
  All-drop P (suc n) [] h = tt
  All-drop P (suc n) (x ∷ xs) h = All-drop P n xs (h.1)

pub AreApart-take : (n k : ℕ) (addrs : List Memaddr) → AreApart n addrs → AreApart n (take k addrs)
AreApart-take n zero addrs h = tt
AreApart-take n (suc k) [] h = tt
AreApart-take n (suc k) (a ∷ addrs) h =
    (All-take (Apart n a) k addrs (h.0), AreApart-take n k addrs (h.1))

stored-append :
    (xs ys : List Memaddr) (payload : List ℕ) (n : ℕ) (m : ℕ → Bytes)
    → stored (xs ++ ys) payload n m
      ≡ stored ys (drop (n * length xs) payload) n (stored xs payload n m)
stored-append [] ys payload n m =
    ap (λ k. stored ys (drop k payload) n m) {x = 0} {y = n * 0} (omega arith)
stored-append (a ∷ xs) ys payload n m =
    stored-append xs ys (drop n payload) n _
    ∙ ap (λ p. stored ys p n (stored (a ∷ xs) payload n m))
        (sym (drop_add n (n * length xs) payload)
          ∙ ap (λ k. drop k payload) {y = n * suc (length xs)}
              (omega (arith, mul-suc n (length xs))))

pub bind_some :
    {A : Type 0} {B : Type 0} (o : Option A) (f : A → Option B) (x : A)
    → o ≡ some x
    → (o >>= f) ≡ f x
bind_some o f x e = ap (λ p. p >>= f) e

pub no_residual : (size : ℕ) → (size % block_size % 2 ^ 16 == 0) ≡ true
no_residual size = ground arith

pub no_more :
    (b : Bool) (o : Option (Sockaddr × Net)) (state : Sockaddr × Net)
    → b ≡ true
    → ◌>>=◌ {B = ℕ × (Sockaddr × Net)} (if b then some state else o) (λ s. some (exit_success, s))
      ≡ some (exit_success, state)
no_more b o state e = rw e

-- What holds between batches, when the first `k` chunks are written.
pub record After (addrs : List Memaddr) (payload : List ℕ) (net : Net) (k : ℕ)
    (state : Sockaddr × Net) : Type 0 where
  pub idle : (state.1).ring ≡ []
  pub memory :
      (λ j. ((state.1).servers j).memory) ≡ stored (take k addrs) payload block_size (memories net)
  pub frame : SameFrame net (state.1)

module _ (fresh : Server → ℕ) (addrs : List Memaddr) (payload : List ℕ) (net : Net)
    (below : All (λ a. a.subid < ushrt_max) addrs) where
  abbrev pub Leaves : ℕ → Option (Sockaddr × Net) → Type 0
  Leaves k o = (state : Sockaddr × Net) × ((o ≡ some state) × After addrs payload net k state)

  stored-After :
      (k j p : ℕ) (m' : ℕ → Bytes)
      → k ≤ length addrs
      → p ≡ block_size * k
      → m' ≡ stored (take k addrs) payload block_size (memories net)
      → stored (take j (drop k addrs)) (drop p payload) block_size m'
        ≡ stored (take (k + j) addrs) payload block_size (memories net)
  stored-After k j p m' fits e copied =
      ap₂ (λ q x. stored (take j (drop k addrs)) (drop q payload) block_size x)
        (e ∙ ap (λ n. block_size * n) (sym (length-take k addrs fits))) copied
      ∙ sym (stored-append (take k addrs) (take j (drop k addrs)) payload block_size (memories net))
      ∙ ap (λ xs. stored xs payload block_size (memories net)) (sym (take_add k j addrs))

  pub batch-After :
      (k j p : ℕ) (state : Sockaddr × Net)
      → k + j ≤ length addrs
      → j < 2 ^ 16
      → p ≡ block_size * k
      → After addrs payload net k state
      → Leaves (k + j) (
          batch_write fresh (state.0) (take j (drop k addrs)) (drop p payload) block_size (state.1))
  batch-After k j p state fits small e after =
      let done =
        batch_write-Done fresh (state.0) (take j (drop k addrs)) (drop p payload) block_size
          (state.1) (omega (arith, length-take_le j (drop k addrs)))
          (All-take (λ a. a.subid < ushrt_max) j _
            (All-drop (λ a. a.subid < ushrt_max) k addrs below))
          after.idle in
      (
        (done.target, done.net'),
        (
          done.returns,
          record {
            idle = done.idle;
            memory = done.memory ∙ stored-After k j p _ (omega arith) e after.memory;
            frame = frame_trans done.frame after.frame;
          },
        ),
      )

  pub batches-After :
      (batches i : ℕ) (state : Sockaddr × Net)
      → (i + batches) * batch_size ≤ length addrs
      → After addrs payload net (i * batch_size) state
      → Leaves
          ((i + batches) * batch_size)
          (write_batches fresh batches i (state.0) addrs payload (state.1))
  unfolding write_batches
  batches-After zero i state fits after =
      (state, (refl, subst (λ k. After addrs payload net k state) (omega arith) after))
  batches-After (suc batches) i state fits after =
      let (state1, (e1, after1)) =
        batch-After (i * batch_size) batch_size (block_size * i * batch_size) state (omega arith)
          (omega arith) (omega arith) after in
      let (state2, (e2, after2)) =
        batches-After batches (i + 1) state1 (omega arith)
          (subst (λ k. After addrs payload net k state1) (omega arith) after1) in
      (
        state2,
        (
          bind_some _ _ _ e1 ∙ e2,
          subst (λ k. After addrs payload net k state2) (omega arith) after2,
        ),
      )
