-- ===== src/Rpc/Pointers.antt =====
-- Remote pointers of ip6/apps/thrift/thrift_utils.c: where they point, and their bytes.
use mathlib.Core.List.{append-nil}
use blue_bridge.Prelude.{
  ℕ, ◌+◌, ◌^◌, ◌≤◌, ◌<◌, ◌≡◌, ◌≢◌, ◌⊎◌, inl, inr, refl, sym, ap, subst, ◌∙◌, List, [], ◌++◌, length,
  arith, update, replicate, length-replicate, ◌==◌, Bool-cases, eq_of_==,
}
use blue_bridge.Memory.{Bytes, memcpy, memset, memcpy_outside}
use blue_bridge.Types.{Memaddr, Sockaddr, IsMemaddr}
use blue_bridge.Types.Codec.{memaddr_bytes, memaddr_of-append}
use blue_bridge.Server.{Server}
use blue_bridge.Net.{Net}
use blue_bridge.Client.{ushrt_max, allocate_uniform_rmem}
use blue_bridge.Client.Allocation.{Allocated, taken, allocate_uniform_rmem-Allocated}
use blue_bridge.Rpc.{num_ptrs, sign_extended, get_pointer, marshall_shmem_ptr, unmarshall_shmem_ptr}

num_ptrs-taken : (size : ℕ) → size < 2 ^ 31 → sign_extended (num_ptrs size) ≡ taken size
unfolding num_ptrs sign_extended
num_ptrs-taken size h = ground arith

-- The host routes its replies from its own subnet, the block that its calloc returns next lies in
-- memory, and nothing is under way to the client.
pub record IsReady (fresh : Server → ℕ) (host : Memaddr) (n : ℕ) (net : Net) : Type 0 where
  pub idle : net.ring ≡ []
  pub route : (net.addresses host.subid).addr.subid ≡ host.subid
  pub server : host.subid < ushrt_max
  pub fits : fresh (net.servers host.subid) + n ≤ 2 ^ 64
  pub below : fresh (net.servers host.subid) < 2 ^ 64
  pub client : IsMemaddr net.client.addr

-- A byte that is not in the `n` bytes from `p` on of server `i`.
abbrev pub Outside : (i p n j x : ℕ) → Type 0
Outside i p n j x = (j ≢ i) ⊎ ((x < p) ⊎ (p + n ≤ x))

module _ (m : ℕ → Bytes) (i p n : ℕ) (bs : List ℕ) (short : length bs ≤ n) where
  same_server : (x : ℕ) → (x < p) ⊎ (p + n ≤ x) → memcpy p bs (m i) x ≡ m i x
  same_server x (inl h) = memcpy_outside p bs (m i) x (inl h)
  same_server x (inr h) = memcpy_outside p bs (m i) x (inr (omega arith))

  -- A copy into a block leaves the bytes outside of it.
  pub copied-Outside : (j x : ℕ) → Outside i p n j x → update m i (memcpy p bs (m i)) j x ≡ m j x
  copied-Outside j x apart = elim (Bool-cases (j == i)) [
    | inl same ↦ rw same (at_server (eq_of_== j i same) apart)
    | inr other ↦ rw other refl
  ]
    where
      at_server : j ≡ i → Outside i p n j x → memcpy p bs (m i) x ≡ m j x
      at_server e (inl other) = absurd (other e)
      at_server e (inr outside) = same_server x outside ∙ ap (λ k. m k x) (sym e)

pub cleared-Outside :
    (m : ℕ → Bytes) (i p n j x : ℕ)
    → Outside i p n j x
    → update m i (memset p 0 n (m i)) j x ≡ m j x
unfolding memset
cleared-Outside m i p n j x apart =
    copied-Outside m i p n (replicate n 0) (omega (arith, length-replicate {A = ℕ} n 0)) j x apart

-- The address that an allocation answers with fits its fields.
pub allocated-IsMemaddr :
    (a client : Memaddr)
    → IsMemaddr client
    → a.cmd ≡ 5
    → a.args ≡ client.args
    → a.subid < ushrt_max
    → a.paddr < 2 ^ 64
    → IsMemaddr a
allocated-IsMemaddr a client h cmd args subid paddr = record {
  subid = omega arith;
  cmd = omega arith;
  args = omega (arith, h.args, args);
  paddr = paddr;
}

-- An address read back from the bytes of a message that begins with it is the address.
pub unmarshall-marshall :
    (a : Memaddr) (rest : List ℕ)
    → IsMemaddr a
    → unmarshall_shmem_ptr (marshall_shmem_ptr [] a ++ rest) ≡ a
unfolding unmarshall_shmem_ptr marshall_shmem_ptr memaddr_bytes
unmarshall-marshall a rest h = memaddr_of-append a rest h

-- An address read back from a message that is its bytes is the address.
pub unmarshall-marshall_self :
    (a : Memaddr) → IsMemaddr a → unmarshall_shmem_ptr (marshall_shmem_ptr [] a) ≡ a
unmarshall-marshall_self a h =
    ap unmarshall_shmem_ptr (sym (append-nil (marshall_shmem_ptr [] a)))
    ∙ unmarshall-marshall a [] h

module _ (fresh : Server → ℕ) where
  pub get_pointer-Allocated :
      (target : Sockaddr) (host : Memaddr) (size : ℕ) (net : Net)
      → size < 2 ^ 31
      → net.ring ≡ []
      → Allocated fresh
          (record target { addr = host })
          (taken size)
          net
          (get_pointer fresh target host size net)
  unfolding get_pointer
  get_pointer-Allocated target host size net small idle =
      let to = record target { addr = host } in
      subst (λ n. Allocated fresh to (taken size) net (allocate_uniform_rmem fresh to n net))
        (sym (num_ptrs-taken size small))
        (allocate_uniform_rmem-Allocated fresh to (taken size) net (ground arith) idle)
