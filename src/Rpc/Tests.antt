-- ===== src/Rpc/Tests.antt =====
-- Calls of ip6/apps/thrift at two clients of two servers: the theorems at concrete arrays, and runs.
use mathlib.Core.List.{cons≢nil}
use blue_bridge.Prelude.{
  ℕ, ◌+◌, ◌≤◌, ◌≡◌, ◌⊎◌, inl, inr, refl, Option, none, some, List, [], ◌∷◌, ◌++◌, ◌<◌, ◌^◌, sym,
  subst, ap, ◌∙◌, Bool-cases, some_injective, eq_of_==, ◌==◌, arith, true,
}
use blue_bridge.Types.{Memaddr, Sockaddr, IsMemaddr}
use blue_bridge.Server.{Server}
use blue_bridge.Net.{Net}
use blue_bridge.Rpc.{marshall_shmem_ptr, unmarshall_shmem_ptr}
use blue_bridge.Rpc.Arguments.{IsArgument}
use blue_bridge.Rpc.Pointers.{IsReady, unmarshall-marshall_self}
use blue_bridge.Rpc.Ddc.{increment_array, add_arrays}
use blue_bridge.Rpc.Ddc.Increment.{Incremented, increment_array-Incremented}
use blue_bridge.Rpc.Ddc.Add.{Added, add_arrays-Added}
use blue_bridge.Rpc.Caller.{test_increment_array}
use blue_bridge.Rpc.Caller.Service.{Machine, IsFree, with_block, served}
use blue_bridge.Rpc.Caller.Whole.{test_increment_array_lem}
use blue_bridge.Rpc.Tcp.{word_count, mat_multiply, success}
use blue_bridge.Rpc.Tcp.Words.{word_count_lem, spaced}
use blue_bridge.Rpc.Tcp.Matrix.{mat_multiply_lem}

abbrev address : ℕ → ℕ → Memaddr
address subid paddr = record { subid = subid; cmd = 0; args = 0; paddr = paddr }

abbrev host : ℕ → Sockaddr
host i = record { addr = address i 0; port = 5000 }

-- Memory that counts.
abbrev server : Server
server = record { memory = λ x. x; heap = λ _. none; sent = [] }

abbrev net : Net
net = record {
  servers = λ _. server;
  addresses = host;
  client = host 9;
  ring = [];
  memory = λ _. 0;
}

abbrev free_of : Option ℕ → ℕ
free_of none = 64
free_of (some n) = 128

-- 64 if it is free, else 128.
abbrev next_block : Server → ℕ
next_block s = free_of (s.heap 64)

wide : (subid paddr : ℕ) → subid < 2 ^ 16 → paddr < 2 ^ 64 → IsMemaddr (address subid paddr)
wide subid paddr h k = record { subid = h; cmd = omega arith; args = omega arith; paddr = k }

ready : IsReady next_block (address 1 0) 2 net
ready = record {
  idle = refl;
  route = refl;
  server = omega arith;
  fits = omega arith;
  below = omega arith;
  client = wide 9 0 (omega arith) (omega arith);
}

abbrev pointer : ℕ → List ℕ
pointer x = marshall_shmem_ptr [] (address 1 x)

-- Two bytes below the block that is allocated next.
two_bytes : (x : ℕ) → x < 62 → IsArgument (unmarshall_shmem_ptr (pointer x)) 2 1 64
two_bytes x h =
    subst (λ a. IsArgument a 2 1 64)
      (sym (unmarshall-marshall_self (address 1 x) (wide 1 x (omega arith) (omega arith))))
      (record { server = omega arith; fits = omega arith; apart = inr (inl (omega arith)) })

increment_array-Incremented_example :
    Incremented next_block
      (address 1 0)
      (unmarshall_shmem_ptr (pointer 10))
      3
      2
      net
      (increment_array next_block (address 1 0) 200 0 (host 1) (pointer 10) 3 2 net)
increment_array-Incremented_example =
    increment_array-Incremented next_block (address 1 0) 200 0 (host 1) (pointer 10) 3 2 net refl
      (omega arith) ready (two_bytes 10 (omega arith)) (omega arith)

add_arrays-Added_example :
    Added next_block
      (address 1 0)
      (unmarshall_shmem_ptr (pointer 10))
      (unmarshall_shmem_ptr (pointer 20))
      2
      net
      (add_arrays next_block (address 1 0) 200 210 220 0 0 (host 1) (pointer 10) (pointer 20) 2 net)
add_arrays-Added_example =
    add_arrays-Added next_block (address 1 0) 200 210 220 0 0 (host 1) (pointer 10) (pointer 20) 2
      net refl refl (omega arith) ready (two_bytes 10 (omega arith)) (two_bytes 20 (omega arith))
      (omega arith) (omega arith) (inl (omega arith)) (inl (omega arith)) (inl (omega arith))

abbrev other_client : Machine
other_client = record { client = host 8; ring = []; memory = λ _. 0 }

abbrev Nothing : Option ℕ → Type 0
Nothing none = Unit
Nothing (some n) = ⊥

none-ne_some : {n : ℕ} → none ≡ some n → ⊥
none-ne_some e = subst Nothing e tt

nothing_used : IsFree 2 64 (λ _. none)
nothing_used = record {
  fits = omega arith;
  below = omega arith;
  apart = λ b k e. absurd (none-ne_some e);
}

abbrev used : ℕ → Option ℕ
used = with_block 1 64 2 (λ _ _. none) 1

used_apart : (b k : ℕ) → used b ≡ some k → (b + k ≤ 128) ⊎ (128 + 2 ≤ b)
used_apart b k e = elim (Bool-cases (b == 64)) [
  | inl same ↦ inl (omega (arith, some_injective (rw same at e), eq_of_== b 64 same))
  | inr other ↦ absurd (none-ne_some (rw other at e))
]

after_one : (s : Server) → s.heap ≡ used → IsFree 2 (next_block s) s.heap
after_one s e =
    subst (λ p. IsFree 2 p s.heap) (sym (ap (λ f. free_of (f 64)) e))
      (record {
        fits = omega arith;
        below = omega arith;
        apart = λ b k h. used_apart b k (sym (ap (λ f. f b) e) ∙ h);
      })

test_increment_array_example :
    (state : Sockaddr × Net) × (test_increment_array next_block
        (address 1 0)
        (served next_block (address 1 0) other_client 200 0 (host 1))
        300
        310
        0
        2
        (host 1)
        net
      ≡ some (true, state))
test_increment_array_example =
    test_increment_array_lem next_block (address 1 0) (address 1 0) other_client 2 net nothing_used
      after_one (λ i. refl) (omega arith) (omega arith) (wide 9 0 (omega arith) (omega arith))
      (wide 8 0 (omega arith) (omega arith)) refl refl (omega arith) 200 300 310 0 0 (host 1)
      (host 1) refl refl (omega arith) (omega arith) (inl (omega arith))

word_count_example : word_count (spaced ((97 ∷ []) ∷ (98 ∷ 99 ∷ []) ∷ []) ++ 100 ∷ []) 6 ≡ some 2
word_count_example =
    word_count_lem ((97 ∷ []) ∷ (98 ∷ 99 ∷ []) ∷ []) (100 ∷ [])
      (((λ e. cons≢nil e), (refl, tt)), (((λ e. cons≢nil e), (refl, (refl, tt))), tt)) (refl, tt)

mat_multiply_example :
    mat_multiply (1 ∷ 2 ∷ []) ((3 ∷ 4 ∷ []) ∷ []) 2 1 2 ≡ some (success (10 ∷ []))
mat_multiply_example = mat_multiply_lem (1 ∷ 2 ∷ []) ((3 ∷ 4 ∷ []) ∷ []) 2 2 refl (refl, tt)
