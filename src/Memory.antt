-- ===== src/Memory.antt =====
-- Flat byte memory, with memcpy, memset and the bytes that a send reads: what the C library does for
-- ip6/lib/server_lib.c and ip6/lib/client_lib.c.
use blue_bridge.Prelude.{
  ℕ, zero, suc, ◌+◌, ◌≤◌, ◌<◌, ◌≡◌, ◌⊎◌, inl, inr, refl, sym, ap, ap₂, ◌∙◌, List, [], ◌∷◌, ◌++◌,
  length, arith, update, replicate, length-replicate,
}

abbrev pub Bytes : Type 0
Bytes = ℕ → ℕ

unfoldable pub memcpy : ℕ → List ℕ → Bytes → Bytes
memcpy a [] m = m
memcpy a (b ∷ bs) m = memcpy (a + 1) bs (update m a b)

unfoldable pub memset : ℕ → ℕ → ℕ → Bytes → Bytes
unfolding memcpy
memset a c n m = memcpy a (replicate n c) m

-- The `n` bytes from `a` on.
unfoldable pub bytes_at : ℕ → ℕ → Bytes → List ℕ
bytes_at a zero m = []
bytes_at a (suc n) m = m a ∷ bytes_at (a + 1) n m

pub memcpy_outside :
    (a : ℕ) (bs : List ℕ) (m : Bytes) (x : ℕ)
    → (x < a) ⊎ (a + length bs ≤ x)
    → memcpy a bs m x ≡ m x
unfolding memcpy
memcpy_outside a [] m x h = refl
memcpy_outside a (b ∷ bs) m x h =
    memcpy_outside (a + 1) bs (update m a b) x (step h) ∙ (ground arith)
  where
    step : (x < a) ⊎ (a + suc (length bs) ≤ x) → (x < a + 1) ⊎ (a + 1 + length bs ≤ x)
    step (inl l) = inl (omega arith)
    step (inr l) = inr (omega arith)

pub length-bytes_at : (a n : ℕ) (m : Bytes) → length (bytes_at a n m) ≡ n
unfolding bytes_at
length-bytes_at a zero m = refl
length-bytes_at a (suc n) m = omega (arith, length-bytes_at (a + 1) n m)

pub bytes_at-cong :
    (a n : ℕ) (m m' : Bytes)
    → ((x : ℕ) → a ≤ x → x < a + n → m x ≡ m' x)
    → bytes_at a n m ≡ bytes_at a n m'
unfolding bytes_at
bytes_at-cong a zero m m' h = refl
bytes_at-cong a (suc n) m m' h =
    ap₂ (◌∷◌) (h a (omega arith) (omega arith))
      (bytes_at-cong (a + 1) n m m' (λ x l u. h x (omega arith) (omega arith)))

-- What was copied is read back.
pub bytes_at-memcpy :
    (a : ℕ) (bs : List ℕ) (m : Bytes) → bytes_at a (length bs) (memcpy a bs m) ≡ bs
unfolding bytes_at memcpy
bytes_at-memcpy a [] m = refl
bytes_at-memcpy a (b ∷ bs) m =
    ap₂ (◌∷◌) (memcpy_outside (a + 1) bs (update m a b) a (inl (omega arith)) ∙ (ground arith))
      (bytes_at-memcpy (a + 1) bs (update m a b))

pub memcpy_nil : (a : ℕ) (m : Bytes) → memcpy a [] m ≡ m
unfolding memcpy
memcpy_nil a m = refl

-- A copy of a list and of one that follows it are one copy.
pub memcpy-append :
    (a : ℕ) (bs cs : List ℕ) (m : Bytes)
    → memcpy a (bs ++ cs) m ≡ memcpy (a + length bs) cs (memcpy a bs m)
unfolding memcpy
memcpy-append a [] cs m = ap (λ k. memcpy k cs m) {x = a} {y = a + 0} (omega arith)
memcpy-append a (b ∷ bs) cs m =
    memcpy-append (a + 1) bs cs (update m a b)
    ∙ ap (λ k. memcpy k cs (memcpy (a + 1) bs (update m a b))) {y = a + suc (length bs)}
        (omega arith)

-- A copy elsewhere does not show.
pub bytes_at-memcpy_apart :
    (a n b : ℕ) (bs : List ℕ) (m : Bytes)
    → (a + n ≤ b) ⊎ (b + length bs ≤ a)
    → bytes_at a n (memcpy b bs m) ≡ bytes_at a n m
bytes_at-memcpy_apart a n b bs m h =
    bytes_at-cong a n _ _ (λ x l u. memcpy_outside b bs m x (side x l u h))
  where
    side :
        (x : ℕ)
        → a ≤ x
        → x < a + n
        → (a + n ≤ b) ⊎ (b + length bs ≤ a)
        → (x < b) ⊎ (b + length bs ≤ x)
    side x l u (inl k) = inl (omega arith)
    side x l u (inr k) = inr (omega arith)

-- What was set is read back.
pub bytes_at-memset : (a c n : ℕ) (m : Bytes) → bytes_at a n (memset a c n m) ≡ replicate n c
unfolding memset
bytes_at-memset a c n m =
    ap (λ k. bytes_at a k (memcpy a (replicate n c) m)) (sym (length-replicate n c))
    ∙ bytes_at-memcpy a (replicate n c) m
