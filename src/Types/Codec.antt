-- ===== src/Types/Codec.antt =====
-- The bytes of the integers and of the addresses of ip6/lib/types.h on a little-endian machine, as
-- memcpy and the casts between struct in6_addr and ip6_memaddr see them.
use native.Mathlib.Nat.{pow-suc}
use mathlib.Core.List.{append-nil}
use blue_bridge.Prelude.{
  ℕ, zero, suc, ◌+◌, ◌*◌, ◌/◌, ◌%◌, ◌^◌, ◌<◌, ◌≡◌, refl, sym, ap, ◌∙◌, List, [], ◌∷◌, ◌++◌, length,
  take, drop, arith,
}
use blue_bridge.Types.{Memaddr, IsMemaddr}

-- `n` bytes of a number, the low one first.
pub le_bytes : ℕ → ℕ → List ℕ
le_bytes zero x = []
le_bytes (suc n) x = (x % 256) ∷ le_bytes n (x / 256)

-- The number that bytes stand for.
unfoldable pub le_number : List ℕ → ℕ
le_number [] = 0
le_number (b ∷ bs) = b + 256 * le_number bs

pub length-le_bytes : (n x : ℕ) → length (le_bytes n x) ≡ n
unfolding le_bytes
length-le_bytes zero x = refl
length-le_bytes (suc n) x = omega (arith, length-le_bytes n (x / 256))

pub le_number-le_bytes : (n x : ℕ) → x < 256 ^ n → le_number (le_bytes n x) ≡ x
unfolding le_number le_bytes
le_number-le_bytes zero x h = omega arith
le_number-le_bytes (suc n) x h =
    omega (arith, le_number-le_bytes n (x / 256) (omega (arith, pow-suc 256 n)))

take-le_bytes : (n x : ℕ) → take n (le_bytes n x) ≡ le_bytes n x
unfolding le_bytes
take-le_bytes zero x = refl
take-le_bytes (suc n) x = ap (◌∷◌ (x % 256)) (take-le_bytes n (x / 256))

pub le_number-take : (n x : ℕ) → x < 256 ^ n → le_number (take n (le_bytes n x)) ≡ x
le_number-take n x h = ap le_number (take-le_bytes n x) ∙ le_number-le_bytes n x h

-- The 16 bytes of an address.
unfoldable pub memaddr_bytes : Memaddr → List ℕ
unfolding le_bytes
memaddr_bytes a = le_bytes 2 a.subid ++ le_bytes 2 a.cmd ++ le_bytes 4 a.args ++ le_bytes 8 a.paddr

unfoldable pub memaddr_of : List ℕ → Memaddr
unfolding le_number
memaddr_of bs = record {
  subid = le_number (take 2 bs);
  cmd = le_number (take 2 (drop 2 bs));
  args = le_number (take 4 (drop 4 bs));
  paddr = le_number (take 8 (drop 8 bs));
}

-- An address read back from bytes that begin with its own is the address.
pub memaddr_of-append :
    (a : Memaddr) (rest : List ℕ) → IsMemaddr a → memaddr_of (memaddr_bytes a ++ rest) ≡ a
unfolding memaddr_of memaddr_bytes le_number le_bytes
memaddr_of-append a rest h = λ i. record {
  subid = le_number-le_bytes 2 a.subid h.subid i;
  cmd = le_number-le_bytes 2 a.cmd h.cmd i;
  args = le_number-le_bytes 4 a.args h.args i;
  paddr = le_number-le_bytes 8 a.paddr h.paddr i;
}

-- An address read back from its bytes is the address.
pub memaddr_of-bytes : (a : Memaddr) → IsMemaddr a → memaddr_of (memaddr_bytes a) ≡ a
memaddr_of-bytes a h = ap memaddr_of (sym (append-nil (memaddr_bytes a))) ∙ memaddr_of-append a [] h
