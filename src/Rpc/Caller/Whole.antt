-- ===== src/Rpc/Caller/Whole.antt =====
-- test_increment_array of ip6/apps/thrift/ddc_client.c, with a service that runs increment_array of
-- ip6/apps/thrift/ddc_simple_arr_comp_server.c at another client of the same servers.
use blue_bridge.Prelude.{
  ℕ, ◌+◌, ◌^◌, ◌≤◌, ◌<◌, ◌≡◌, ◌≢◌, ◌⊎◌, inl, refl, sym, ap, ap₂, subst, ◌∙◌, List, [], length,
  arith, Option, some, some_injective, true,
}
use blue_bridge.Memory.{bytes_at, length-bytes_at}
use blue_bridge.Types.{Memaddr, MemaddrBlock, Sockaddr, IsMemaddr}
use blue_bridge.Server.{Server}
use blue_bridge.Net.{Net}
use blue_bridge.Client.{ushrt_max}
use blue_bridge.Client.Allocation.{taken, Allocated}
use blue_bridge.Client.Chunk.{heaps}
use blue_bridge.Client.Runs.{bind_some}
use blue_bridge.Client.Single.{memories}
use blue_bridge.Client.Uniform.{
  HasReadUniform, buffer-HasReadUniform, read_uniform_rmem-HasReadUniform,
}
use blue_bridge.Rpc.{get_pointer, marshall_shmem_ptr, unmarshall_shmem_ptr, populate_array}
use blue_bridge.Rpc.Pointers.{IsReady, unmarshall-marshall_self, get_pointer-Allocated}
use blue_bridge.Rpc.Arguments.{
  IsArgument, Holds, Disjoint, kept_apart, argument-HasRoom, bytes_at-argument, block-IsMemaddr,
  write_uniform_rmem-Stored,
}
use blue_bridge.Rpc.Ddc.{argument}
use blue_bridge.Rpc.Ddc.Increment.{Incremented, added, by_value_at, increment_array-Incremented}
use blue_bridge.Server.Requests.{All}
use blue_bridge.Rpc.Caller.Loops.{counting, counting-All, no_failure_lem, bytes_at-populate_array}
use blue_bridge.Rpc.Caller.{no_failure, test_increment_array}
use blue_bridge.Rpc.Caller.Service.{
  Machine, connected, machine_of, IsFree, with_block, served, block-apart, free_rmem-Freed,
}

module _ (fresh : Server → ℕ) (host host2 : Memaddr) (machine : Machine) (n : ℕ) (net : Net)
    (calloc : IsFree (taken n) (fresh (net.servers host.subid)) (heaps net host.subid))
    (calloc2 : (s : Server)
      → s.heap
        ≡ with_block host.subid (fresh (net.servers host.subid)) (taken n) (heaps net) host2.subid
      → IsFree (taken n) (fresh s) s.heap)
    (route : (i : ℕ) → (net.addresses i).addr.subid ≡ i) (server : host.subid < ushrt_max)
    (server2 : host2.subid < ushrt_max) (client : IsMemaddr net.client.addr)
    (client2 : IsMemaddr machine.client.addr) (idle : net.ring ≡ []) (idle2 : machine.ring ≡ [])
    (small : n < 2 ^ 31) where
  own-IsReady : IsReady fresh host (taken n) net
  own-IsReady = record {
    idle = idle;
    route = route host.subid;
    server = server;
    fits = calloc.fits;
    below = calloc.below;
    client = client;
  }

  -- The blocks in use once the caller has its own.
  abbrev in_use : ℕ → ℕ → Option ℕ
  in_use = with_block host.subid (fresh (net.servers host.subid)) (taken n) (heaps net)

  heaps-allocated :
      (to : Sockaddr) (o : Option (MemaddrBlock × (Sockaddr × Net)))
      (got : Allocated fresh (record to { addr = host }) (taken n) net o)
      → heaps got.net' ≡ in_use
  heaps-allocated to o got =
      got.heaps
      ∙ ap (λ k. with_block host.subid (fresh (net.servers host.subid)) k (heaps net))
          {x = taken (taken n)} {y = taken n} (ground arith)

  next-IsFree :
      (net3 : Net)
      → heaps net3 ≡ in_use
      → IsFree (taken n) (fresh (net3.servers host2.subid)) (heaps net3 host2.subid)
  next-IsFree net3 e = calloc2 (net3.servers host2.subid) (ap (λ f. f host2.subid) e)

  service-IsReady :
      (net3 : Net)
      → heaps net3 ≡ in_use
      → net3.addresses ≡ net.addresses
      → IsReady fresh host2 (taken n) (connected machine net3)
  service-IsReady net3 h e = record {
    idle = idle2;
    route = ap (λ f. (f host2.subid).addr.subid) e ∙ route host2.subid;
    server = server2;
    fits = (next-IsFree net3 h).fits;
    below = (next-IsFree net3 h).below;
    client = client2;
  }

  -- The block that the caller allocated is an argument of the service.
  called-IsArgument :
      (to : Sockaddr) (o : Option (MemaddrBlock × (Sockaddr × Net)))
      (got : Allocated fresh (record to { addr = host }) (taken n) net o) (net3 : Net)
      → heaps net3 ≡ in_use
      → IsArgument
          (unmarshall_shmem_ptr (marshall_shmem_ptr [] got.block.memaddr))
          n
          host2.subid
          (fresh (net3.servers host2.subid))
  called-IsArgument to o got net3 same =
      let blk = got.block.memaddr in
      let q = fresh (net3.servers host2.subid) in
      let e = got.server ∙ route host.subid in
      subst (λ a. IsArgument a n host2.subid q)
        (sym (
          unmarshall-marshall_self blk
            (block-IsMemaddr fresh host n net own-IsReady small to o got)))
        (record {
          server = omega (arith, e, server);
          fits = omega (arith, got.paddr, calloc.fits);
          apart =
              subst (λ i. (i ≢ host2.subid) ⊎ ((blk.paddr + n ≤ q) ⊎ (q + taken n ≤ blk.paddr)))
                (sym e)
                (subst (λ p. (host.subid ≢ host2.subid) ⊎ ((p + n ≤ q) ⊎ (q + taken n ≤ p)))
                  (sym got.paddr)
                  (block-apart n host.subid host2.subid _ q (heaps net) (heaps net3 host2.subid)
                    (ap (λ f. f host2.subid) same) (next-IsFree net3 same)));
        })

  -- The service's argument holds what the caller wrote.
  bytes_at-called :
      (to : Sockaddr) (o : Option (MemaddrBlock × (Sockaddr × Net)))
      (got : Allocated fresh (record to { addr = host }) (taken n) net o) (net3 : Net)
      (bytes : List ℕ)
      → length bytes ≡ n
      → Holds host.subid
          (fresh (net.servers host.subid))
          (taken n)
          bytes
          (memories net)
          (memories net3)
      → let a = unmarshall_shmem_ptr (marshall_shmem_ptr [] got.block.memaddr) in
        bytes_at a.paddr n (memories net3 a.subid) ≡ bytes
  bytes_at-called to o got net3 bytes count held =
      let blk = got.block.memaddr in
      let p = fresh (net.servers host.subid) in
      ap (λ (x : Memaddr). bytes_at x.paddr n (memories net3 x.subid))
        (unmarshall-marshall_self blk (block-IsMemaddr fresh host n net own-IsReady small to o got))
      ∙ ap₂ (λ q i. bytes_at q n (memories net3 i)) got.paddr (got.server ∙ route host.subid)
      ∙ ap (λ k. bytes_at p k (memories net3 host.subid)) (sym count)
      ∙ held.holds

  -- The block that the service answers with, as the caller reads it.
  result-IsArgument :
      (returned : List ℕ) (p : ℕ)
      → p + taken n ≤ 2 ^ 64
      → (unmarshall_shmem_ptr returned).subid ≡ host2.subid
      → (unmarshall_shmem_ptr returned).paddr ≡ p
      → IsArgument (unmarshall_shmem_ptr returned) n (host2.subid + 1) 0
  result-IsArgument returned p h e f = record {
    server = omega (arith, e, server2);
    fits = omega (arith, f, h);
    apart = inl (λ x. omega (arith, x, e));
  }

  -- What the comparison finds, from what the service answered and what was read.
  compared :
      (arr result_arr : ℕ) (net3 : Net) (pointer : List ℕ) (o : Option (List ℕ × (Sockaddr × Net)))
      (inc : Incremented fresh host2 (unmarshall_shmem_ptr pointer) 1 n (connected machine net3) o)
      (r : Option (ℕ × (Sockaddr × Net)))
      (read : HasReadUniform
        (argument inc.returned n 0)
        result_arr
        n
        (connected (machine_of net3) inc.net')
        r)
      → Disjoint arr result_arr n
      → bytes_at arr n net3.memory ≡ counting 0 n
      → bytes_at
          (unmarshall_shmem_ptr pointer).paddr
          n
          (memories net3 (unmarshall_shmem_ptr pointer).subid)
        ≡ counting 0 n
      → no_failure result_arr arr n 1 read.net'.memory ≡ true
  compared arr result_arr net3 pointer o inc r read apart local remote =
      let m = read.net'.memory in
      let a = unmarshall_shmem_ptr pointer in
      let xs = bytes_at a.paddr n (memories net3 a.subid) in
      let below : 0 < 255 = omega arith in
      let p2 = fresh (net3.servers host2.subid) in
      let kept : bytes_at arr n m ≡ counting 0 n =
        ap (bytes_at arr n) read.own
        ∙ kept_apart arr result_arr n _ net3.memory (length-bytes_at _ n _) apart
        ∙ local in
      let computed : bytes_at p2 n (memories inc.net' host2.subid) ≡ added 1 xs = some_injective (
        sym inc.computed
        ∙ by_value_at 1 n xs (length-bytes_at a.paddr n (memories net3 a.subid))) in
      let result : bytes_at result_arr n m ≡ added 1 (counting 0 n) =
        buffer-HasReadUniform (argument inc.returned n 0) result_arr n _ r read
        ∙ bytes_at-argument inc.returned n host2.subid p2 (memories inc.net') inc.server inc.paddr
        ∙ computed
        ∙ ap (added 1) remote in
      no_failure_lem result_arr arr n m (result ∙ ap (added 1) (sym kept))
        (subst (All (λ b. b < 255)) (sym kept) (counting-All 0 n below))

  test_increment_array_zero :
      (int_arr arr result_arr : ℕ) (service target : Sockaddr)
      → int_arr + taken n < 2 ^ 64
      → result_arr + taken n < 2 ^ 64
      → Disjoint arr result_arr n
      → (state : Sockaddr × Net) × (test_increment_array fresh host
            (served fresh host2 machine int_arr 0 service)
            arr
            result_arr
            0
            n
            target
            net
          ≡ some (true, state))
  unfolding test_increment_array
  test_increment_array_zero int_arr arr result_arr service target local local_result apart =
      let got = get_pointer-Allocated fresh target host n net small idle in
      let net2 : Net = record (got.net') { memory = populate_array arr n 0 got.net'.memory } in
      let wrote =
        write_uniform_rmem-Stored fresh host n net own-IsReady small target
          (get_pointer fresh target host n net) got got.target' (bytes_at arr n net2.memory) net2
          (length-bytes_at arr n net2.memory) got.idle refl in
      let net3 = wrote.net' in
      let ptr = marshall_shmem_ptr [] got.block.memaddr in
      let used = wrote.frame.heaps ∙ heaps-allocated target _ got in
      let inc =
        increment_array-Incremented fresh host2 int_arr 0 service ptr 1 n (connected machine net3)
          refl small (service-IsReady net3 used (wrote.frame.addresses ∙ got.addresses))
          (called-IsArgument target _ got net3 used) local in
      let net4 = connected (machine_of net3) inc.net' in
      let result_arg : IsArgument (unmarshall_shmem_ptr inc.returned) n (host2.subid + 1) 0 =
        result-IsArgument inc.returned (fresh (net3.servers host2.subid))
          (next-IsFree net3 used).fits inc.server inc.paddr in
      let read =
        read_uniform_rmem-HasReadUniform fresh wrote.target (argument inc.returned n 0) result_arr n
          net4 (argument-HasRoom inc.returned n (host2.subid + 1) 0 small result_arg) (omega arith)
          (ground (arith, local_result)) wrote.idle in
      let matches =
        compared arr result_arr net3 ptr _ inc _ read apart
          (ap (bytes_at arr n) wrote.frame.own ∙ bytes_at-populate_array arr n 0 got.net'.memory)
          (bytes_at-called target _ got net3 _ (length-bytes_at arr n net2.memory) wrote.memory
            ∙ bytes_at-populate_array arr n 0 got.net'.memory) in
      let freed6 = free_rmem-Freed fresh read.target got.block.memaddr read.net' read.idle in
      let freed7 =
        free_rmem-Freed fresh freed6.target (argument inc.returned n 0).memaddr freed6.net'
          freed6.idle in
      (
        (freed7.target, freed7.net'),
        bind_some _ _ _ got.returns
            ∙ bind_some _ _ _ wrote.returns
            ∙ bind_some _ _ _ (bind_some _ _ _ inc.returns)
            ∙ bind_some _ _ _ read.returns
            ∙ bind_some _ _ _ freed6.returns
            ∙ bind_some _ _ _ freed7.returns
            ∙ ap (λ b. some (b, (freed7.target, freed7.net'))) matches,
      )

  -- An array of fewer than 2 ^ 31 numbers is sent to a service that increments it at another client
  -- of the same servers. The two callocs return blocks of memory apart from those in use then, each
  -- server answers from its own subnet, the hosts have counters, the clients' addresses fit their
  -- fields, the local arrays lie below 2 ^ 64, that of the result apart from the array, and nothing
  -- is under way to either client. The offsets that the service and the test leave uninitialised in
  -- their blocks are 0. Then the test ends, and finds no difference between the result that it reads
  -- and the array that it wrote plus one.
  pub test_increment_array_lem :
      (int_arr arr result_arr offset offset2 : ℕ) (service target : Sockaddr)
      → offset ≡ 0
      → offset2 ≡ 0
      → int_arr + taken n < 2 ^ 64
      → result_arr + taken n < 2 ^ 64
      → Disjoint arr result_arr n
      → (state : Sockaddr × Net) × (test_increment_array fresh host
            (served fresh host2 machine int_arr offset2 service)
            arr
            result_arr
            offset
            n
            target
            net
          ≡ some (true, state))
  test_increment_array_lem int_arr arr result_arr offset offset2 service target unset unset2 local
        local_result apart =
      subst
        (λ (o : ℕ × ℕ).
          (state : Sockaddr × Net) × (test_increment_array fresh host
              (served fresh host2 machine int_arr (o.1) service) arr result_arr (o.0) n target net
            ≡ some (true, state)))
        {x = (0, 0)} {y = (offset, offset2)} (λ i. (sym unset i, sym unset2 i))
        (test_increment_array_zero int_arr arr result_arr service target local local_result apart)
