-- ===== src/Rpc/Ddc/Increment.antt =====
-- increment_array of ip6/apps/thrift/ddc_simple_arr_comp_server.c: from the array at one remote
-- pointer to the array at another.
use blue_bridge.Prelude.{
  subst, ℕ, zero, suc, ◌+◌, ◌%◌, ◌^◌, ◌<◌, ◌≡◌, refl, sym, ap, ◌∙◌, List, [], ◌∷◌, ◌++◌, length,
  map, arith, update, Option, some,
}
use blue_bridge.Memory.{Bytes, memcpy, bytes_at, bytes_at-memcpy, bytes_at-cong, length-bytes_at}
use blue_bridge.Types.{Memaddr, Sockaddr}
use blue_bridge.Types.Codec.{memaddr_bytes}
use blue_bridge.Server.{Server}
use blue_bridge.Net.{Net}
use blue_bridge.Client.Runs.{bind_some}
use blue_bridge.Client.Single.{memories}
use blue_bridge.Client.Allocation.{taken}
use blue_bridge.Client.Uniform.{read_uniform_rmem-HasReadUniform}
use blue_bridge.Rpc.{get_pointer, marshall_shmem_ptr, unmarshall_shmem_ptr}
use blue_bridge.Rpc.Pointers.{IsReady, Outside, unmarshall-marshall, get_pointer-Allocated}
use blue_bridge.Rpc.Arguments.{
  IsArgument, argument-HasRoom, argument-read, block-IsMemaddr, write_uniform_rmem-Stored,
}
use blue_bridge.Rpc.Tcp
use blue_bridge.Rpc.Ddc.{add_value, argument, increment_array}

abbrev pub added : ℕ → List ℕ → List ℕ
added value bs = map (λ b. (b + value) % 256) bs

length-added : (value : ℕ) (bs : List ℕ) → length (added value bs) ≡ length bs
length-added value [] = refl
length-added value (b ∷ bs) = ap suc (length-added value bs)

-- The loop is one copy of the sums.
add_value-memcpy :
    (a n value : ℕ) (m : Bytes) → add_value a n value m ≡ memcpy a (added value (bytes_at a n m)) m
unfolding add_value memcpy bytes_at
add_value-memcpy a zero value m = refl
add_value-memcpy a (suc n) value m =
    add_value-memcpy (a + 1) n value (update m a ((m a + value) % 256))
    ∙ ap (λ bs. memcpy (a + 1) (added value bs) (update m a ((m a + value) % 256)))
        (bytes_at-cong (a + 1) n _ m (λ x l u. ground arith))

pub bytes_at-add_value :
    (a n value : ℕ) (m : Bytes)
    → bytes_at a n (add_value a n value m) ≡ added value (bytes_at a n m)
bytes_at-add_value a n value m =
    let bs = added value (bytes_at a n m) in
    ap (bytes_at a n) (add_value-memcpy a n value m)
    ∙ ap (λ k. bytes_at a k (memcpy a bs m)) {y = length bs}
        (omega (arith, length-added value (bytes_at a n m), length-bytes_at a n m))
    ∙ bytes_at-memcpy a bs m

-- The call with the array in the message computes the same.
by_value :
    (value : ℕ) (bs : List ℕ) → Tcp.increment_array bs value (length bs) ≡ some (added value bs)
unfolding Tcp.increment_array
by_value value [] = refl
by_value value (b ∷ bs) = rw (by_value value bs)

pub by_value_at :
    (value n : ℕ) (bs : List ℕ)
    → length bs ≡ n
    → Tcp.increment_array bs value n ≡ some (added value bs)
by_value_at value n bs e = ap (Tcp.increment_array bs value) (sym e) ∙ by_value value bs

-- What a call leaves: the message names a block of the host whose bytes are what the call with the
-- array in the message returns, nothing outside that block changed, and no reply is under way.
pub record Incremented (fresh : Server → ℕ) (host a : Memaddr) (value n : ℕ) (net : Net)
    (result : Option (List ℕ × (Sockaddr × Net))) : Type 0 where
  pub returned : List ℕ
  pub target : Sockaddr
  pub net' : Net
  pub returns : result ≡ some (returned, (target, net'))
  pub idle : net'.ring ≡ []
  pub server : (unmarshall_shmem_ptr returned).subid ≡ host.subid
  pub paddr : (unmarshall_shmem_ptr returned).paddr ≡ fresh (net.servers host.subid)
  pub computed :
      Tcp.increment_array (bytes_at a.paddr n (memories net a.subid)) value n
      ≡ some (bytes_at (fresh (net.servers host.subid)) n (memories net' host.subid))
  pub kept :
      (j x : ℕ)
      → Outside host.subid (fresh (net.servers host.subid)) (taken n) j x
      → memories net' j x ≡ memories net j x

module _ (fresh : Server → ℕ) (host : Memaddr) where
  increment_array_zero-Incremented :
      (int_arr : ℕ) (target : Sockaddr) (pointer : List ℕ) (value n : ℕ) (net : Net)
      → n < 2 ^ 31
      → IsReady fresh host (taken n) net
      → IsArgument (unmarshall_shmem_ptr pointer) n host.subid (fresh (net.servers host.subid))
      → int_arr + taken n < 2 ^ 64
      → Incremented fresh host
          (unmarshall_shmem_ptr pointer)
          value
          n
          net
          (increment_array fresh host int_arr 0 target pointer value n net)
  unfolding increment_array argument
  increment_array_zero-Incremented int_arr target pointer value n net small ready arg local =
      let a = unmarshall_shmem_ptr pointer in
      let got = get_pointer-Allocated fresh target host n net small ready.idle in
      let read =
        read_uniform_rmem-HasReadUniform fresh got.target' (argument pointer n 0) int_arr n got.net'
          (argument-HasRoom pointer n host.subid (fresh (net.servers host.subid)) small arg)
          (omega arith) (ground (arith, local)) got.idle in
      let net3 : Net = record (read.net') { memory = add_value int_arr n value read.net'.memory } in
      let bytes = bytes_at int_arr n net3.memory in
      let wrote =
        write_uniform_rmem-Stored fresh host n net ready small target
          (get_pointer fresh target host n net) got read.target bytes net3
          (length-bytes_at int_arr n net3.memory) read.idle read.memory in
      let p = fresh (net.servers host.subid) in
      let blk = got.block.memaddr in
      let named =
        unmarshall-marshall blk (memaddr_bytes blk)
          (block-IsMemaddr fresh host n net ready small target _ got) in
      record {
        returned = marshall_shmem_ptr [] blk ++ memaddr_bytes blk;
        target = wrote.target;
        net' = wrote.net';
        returns =
            bind_some _ _ _ got.returns
            ∙ bind_some _ _ _ read.returns
            ∙ bind_some _ _ _ wrote.returns;
        idle = wrote.idle;
        server = ap (λ (x : Memaddr). x.subid) named ∙ got.server ∙ ready.route;
        paddr = ap (λ (x : Memaddr). x.paddr) named ∙ got.paddr;
        computed =
            by_value_at value n (bytes_at a.paddr n (memories net a.subid))
              (length-bytes_at a.paddr n (memories net a.subid))
            ∙ ap (λ x. some x)
                (sym (
                  ap (λ k. bytes_at p k (memories wrote.net' host.subid)) {x = n} {y = length bytes}
                    (sym (length-bytes_at int_arr n net3.memory))
                  ∙ wrote.memory.holds
                  ∙ bytes_at-add_value int_arr n value read.net'.memory
                  ∙ ap (added value) (
                      argument-read fresh host n net ready small target _ got pointer int_arr
                        got.net' _ read refl arg)));
        kept = wrote.memory.kept;
      }

  -- A call with an array of fewer than 2 ^ 31 bytes in remote memory, whose block begins at its
  -- pointer and lies outside the block that the host's calloc returns next, with a local array
  -- below 2 ^ 64 and no reply of before under way, at a host that answers from its own subnet,
  -- returns, if the offset that the code leaves uninitialised in the argument's block is 0. Its
  -- message names a block of the host whose bytes are what the call with the array in the message
  -- returns, nothing outside that block changed, and no reply is left.
  pub increment_array-Incremented :
      (int_arr offset : ℕ) (target : Sockaddr) (pointer : List ℕ) (value n : ℕ) (net : Net)
      → offset ≡ 0
      → n < 2 ^ 31
      → IsReady fresh host (taken n) net
      → IsArgument (unmarshall_shmem_ptr pointer) n host.subid (fresh (net.servers host.subid))
      → int_arr + taken n < 2 ^ 64
      → Incremented fresh host
          (unmarshall_shmem_ptr pointer)
          value
          n
          net
          (increment_array fresh host int_arr offset target pointer value n net)
  increment_array-Incremented int_arr offset target pointer value n net unset small ready arg
        local =
      subst
        (λ k.
          Incremented fresh host (unmarshall_shmem_ptr pointer) value n net
            (increment_array fresh host int_arr k target pointer value n net))
        (sym unset)
        (increment_array_zero-Incremented int_arr target pointer value n net small ready arg local)
