-- ===== src/Rpc/Caller/Loops.antt =====
-- The loops of ip6/apps/thrift/ddc_client.c over its arrays: populate_array, and the comparison of
-- the result.
use mathlib.Core.List.{head-eq_of_cons-eq, tail-eq_of_cons-eq}
use blue_bridge.Prelude.{
  ℕ, zero, suc, ◌+◌, ◌%◌, ◌<◌, ◌≡◌, refl, sym, ap, ◌∙◌, List, [], ◌∷◌, length, arith, update, true,
  ◌==◌,
}
use blue_bridge.Memory.{Bytes, memcpy, bytes_at, bytes_at-memcpy}
use blue_bridge.Server.Requests.{All}
use blue_bridge.Rpc.{populate_array}
use blue_bridge.Rpc.Ddc.Increment.{added}
use blue_bridge.Rpc.Caller.{no_failure}

-- The numbers that follow `num`.
abbrev pub counting : ℕ → ℕ → List ℕ
counting num zero = []
counting num (suc n) = num ∷ counting ((num + 1) % 256 % 255) n

length-counting : (num n : ℕ) → length (counting num n) ≡ n
length-counting num zero = refl
length-counting num (suc n) = ap suc (length-counting ((num + 1) % 256 % 255) n)

-- They leave 255 out, so that one more is a byte.
pub counting-All : (num n : ℕ) → num < 255 → All (λ b. b < 255) (counting num n)
counting-All num zero h = tt
counting-All num (suc n) h = (h, counting-All ((num + 1) % 256 % 255) n (omega arith))

populate_array-memcpy :
    (a n num : ℕ) (m : Bytes) → populate_array a n num m ≡ memcpy a (counting num n) m
unfolding populate_array memcpy
populate_array-memcpy a zero num m = refl
populate_array-memcpy a (suc n) num m =
    populate_array-memcpy (a + 1) n ((num + 1) % 256 % 255) (update m a num)

pub bytes_at-populate_array :
    (a n num : ℕ) (m : Bytes) → bytes_at a n (populate_array a n num m) ≡ counting num n
bytes_at-populate_array a n num m =
    ap (bytes_at a n) (populate_array-memcpy a n num m)
    ∙ ap (λ k. bytes_at a k (memcpy a (counting num n) m)) (sym (length-counting num n))
    ∙ bytes_at-memcpy a (counting num n) m

-- The comparison finds no difference in arrays of which one is the other plus one, in bytes, if
-- that is no more than a byte.
pub no_failure_lem :
    (r a n : ℕ) (m : Bytes)
    → bytes_at r n m ≡ added 1 (bytes_at a n m)
    → All (λ b. b < 255) (bytes_at a n m)
    → no_failure r a n 1 m ≡ true
unfolding no_failure bytes_at
no_failure_lem r a zero m e h = refl
no_failure_lem r a (suc n) m e h =
    let head : m r ≡ (m a + 1) % 256 = head-eq_of_cons-eq e in
    let rest = no_failure_lem (r + 1) (a + 1) n m (tail-eq_of_cons-eq e) (h.1) in
    let one : (m r == m a + 1) ≡ true = ground (arith, head, h.0) in rw one rest
