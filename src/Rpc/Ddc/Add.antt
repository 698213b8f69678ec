-- ===== src/Rpc/Ddc/Add.antt =====
-- add_arrays of ip6/apps/thrift/ddc_simple_arr_comp_server.c: from the arrays at two remote pointers
-- to the array at a third.
use blue_bridge.Prelude.{
  subst, ℕ, zero, suc, ◌+◌, ◌%◌, ◌^◌, ◌<◌, ◌≡◌, inl, inr, refl, sym, ap, ap₂, ◌∙◌, List, [], ◌∷◌,
  length, arith, update, Option, some,
}
use blue_bridge.Memory.{Bytes, memcpy, bytes_at, bytes_at-memcpy, bytes_at-cong, length-bytes_at}
use blue_bridge.Types.{Memaddr, MemaddrBlock, Sockaddr}
use blue_bridge.Server.{Server}
use blue_bridge.Net.{Net}
use blue_bridge.Client.Runs.{bind_some}
use blue_bridge.Client.Single.{memories}
use blue_bridge.Client.Allocation.{taken, Allocated}
use blue_bridge.Client.Uniform.{HasReadUniform, read_uniform_rmem-HasReadUniform}
use blue_bridge.Rpc.{get_pointer, marshall_shmem_ptr, unmarshall_shmem_ptr}
use blue_bridge.Rpc.Pointers.{IsReady, Outside, unmarshall-marshall_self, get_pointer-Allocated}
use blue_bridge.Rpc.Arguments.{
  IsArgument, Disjoint, kept_apart, argument-HasRoom, argument-read, block-IsMemaddr,
  write_uniform_rmem-Stored,
}
use blue_bridge.Rpc.Tcp
use blue_bridge.Rpc.Ddc.{add_elements, argument, add_arrays}

abbrev sums : List ℕ → List ℕ → List ℕ
sums [] ys = []
sums (x ∷ xs) [] = []
sums (x ∷ xs) (y ∷ ys) = ((x + y) % 256) ∷ sums xs ys

length-sums : (xs ys : List ℕ) → length xs ≡ length ys → length (sums xs ys) ≡ length xs
length-sums [] ys e = refl
length-sums (x ∷ xs) [] e = absurd (omega arith)
length-sums (x ∷ xs) (y ∷ ys) e = ap suc (length-sums xs ys (omega arith))

-- A store in front of one array does not show in the rest of the other.
bytes_at-rest :
    (a r n x : ℕ) (m : Bytes)
    → Disjoint a r (suc n)
    → bytes_at (a + 1) n (update m r x) ≡ bytes_at (a + 1) n m
bytes_at-rest a r n x m (inl h) = bytes_at-cong (a + 1) n _ m (λ y l u. ground arith)
bytes_at-rest a r n x m (inr h) = bytes_at-cong (a + 1) n _ m (λ y l u. ground arith)

rest-Disjoint : (a r n : ℕ) → Disjoint a r (suc n) → Disjoint (a + 1) (r + 1) n
rest-Disjoint a r n (inl h) = inl (omega arith)
rest-Disjoint a r n (inr h) = inr (omega arith)

-- The loop is one copy of the sums.
add_elements-memcpy :
    (a b r n : ℕ) (m : Bytes)
    → Disjoint a r n
    → Disjoint b r n
    → add_elements a b r n m ≡ memcpy r (sums (bytes_at a n m) (bytes_at b n m)) m
unfolding add_elements memcpy bytes_at
add_elements-memcpy a b r zero m h k = refl
add_elements-memcpy a b r (suc n) m h k =
    let m1 = update m r ((m a + m b) % 256) in
    add_elements-memcpy (a + 1) (b + 1) (r + 1) n m1 (rest-Disjoint a r n h) (rest-Disjoint b r n k)
    ∙ ap₂ (λ xs ys. memcpy (r + 1) (sums xs ys) m1) (bytes_at-rest a r n _ m h)
        (bytes_at-rest b r n _ m k)

pub bytes_at-add_elements :
    (a b r n : ℕ) (m : Bytes)
    → Disjoint a r n
    → Disjoint b r n
    → bytes_at r n (add_elements a b r n m) ≡ sums (bytes_at a n m) (bytes_at b n m)
bytes_at-add_elements a b r n m h k =
    let bs = sums (bytes_at a n m) (bytes_at b n m) in
    ap (bytes_at r n) (add_elements-memcpy a b r n m h k)
    ∙ ap (λ l. bytes_at r l (memcpy r bs m)) {y = length bs}
        (omega (
          arith,
          length-sums (bytes_at a n m) (bytes_at b n m)
              (length-bytes_at a n m ∙ sym (length-bytes_at b n m)),
          length-bytes_at a n m,
        ))
    ∙ bytes_at-memcpy r bs m

-- The call with the arrays in the message computes the same.
by_value :
    (n : ℕ) (xs ys : List ℕ)
    → length xs ≡ n
    → length ys ≡ n
    → Tcp.add_arrays xs ys n ≡ some (sums xs ys)
unfolding Tcp.add_arrays
by_value zero [] ys e f = refl
by_value zero (x ∷ xs) ys e f = absurd (omega arith)
by_value (suc n) [] ys e f = absurd (omega arith)
by_value (suc n) (x ∷ xs) [] e f = absurd (omega arith)
by_value (suc n) (x ∷ xs) (y ∷ ys) e f = rw (by_value n xs ys (omega arith) (omega arith))

-- What a call leaves: the message names a block of the host whose bytes are what the call with the
-- arrays in the message returns, nothing outside that block changed, and no reply is under way.
pub record Added (fresh : Server → ℕ) (host a b : Memaddr) (n : ℕ) (net : Net)
    (result : Option (List ℕ × (Sockaddr × Net))) : Type 0 where
  pub returned : List ℕ
  pub target : Sockaddr
  pub net' : Net
  pub returns : result ≡ some (returned, (target, net'))
  pub idle : net'.ring ≡ []
  pub server : (unmarshall_shmem_ptr returned).subid ≡ host.subid
  pub paddr : (unmarshall_shmem_ptr returned).paddr ≡ fresh (net.servers host.subid)
  pub computed :
      Tcp.add_arrays
        (bytes_at a.paddr n (memories net a.subid))
        (bytes_at b.paddr n (memories net b.subid))
        n
      ≡ some (bytes_at (fresh (net.servers host.subid)) n (memories net' host.subid))
  pub kept :
      (j x : ℕ)
      → Outside host.subid (fresh (net.servers host.subid)) (taken n) j x
      → memories net' j x ≡ memories net j x

module _ (fresh : Server → ℕ) (host : Memaddr) where
  -- What the local arrays come to when both arguments are read.
  added_elements :
      (arr1 arr2 result_array : ℕ) (target : Sockaddr) (array1 array2 : List ℕ) (n : ℕ) (net : Net)
      (small : n < 2 ^ 31) (ready : IsReady fresh host (taken n) net)
      (o : Option (MemaddrBlock × (Sockaddr × Net)))
      (got : Allocated fresh (record target { addr = host }) (taken n) net o)
      (r1 : Option (ℕ × (Sockaddr × Net)))
      (read1 : HasReadUniform (argument array1 n 0) arr1 n got.net' r1)
      (r2 : Option (ℕ × (Sockaddr × Net)))
      (read2 : HasReadUniform (argument array2 n 0) arr2 n read1.net' r2)
      → IsArgument (unmarshall_shmem_ptr array1) n host.subid (fresh (net.servers host.subid))
      → IsArgument (unmarshall_shmem_ptr array2) n host.subid (fresh (net.servers host.subid))
      → Disjoint arr1 arr2 n
      → Disjoint arr1 result_array n
      → Disjoint arr2 result_array n
      → let a = unmarshall_shmem_ptr array1 in
        let b = unmarshall_shmem_ptr array2 in
        Tcp.add_arrays
          (bytes_at a.paddr n (memories net a.subid))
          (bytes_at b.paddr n (memories net b.subid))
          n
        ≡ some (bytes_at result_array n (add_elements arr1 arr2 result_array n read2.net'.memory))
  added_elements arr1 arr2 result_array target array1 array2 n net small ready o got r1 read1 r2
        read2 arg1 arg2 apart apart1 apart2 =
      let a = unmarshall_shmem_ptr array1 in
      let b = unmarshall_shmem_ptr array2 in
      let m = read2.net'.memory in
      let first : bytes_at arr1 n m ≡ bytes_at a.paddr n (memories net a.subid) =
        ap (bytes_at arr1 n) read2.own
        ∙ kept_apart arr1 arr2 n _ read1.net'.memory (length-bytes_at _ n _) apart
        ∙ argument-read fresh host n net ready small target o got array1 arr1 got.net' r1 read1 refl
            arg1 in
      let second : bytes_at arr2 n m ≡ bytes_at b.paddr n (memories net b.subid) =
        argument-read fresh host n net ready small target o got array2 arr2 read1.net' r2 read2
          read1.memory arg2 in
      by_value n _ _ (length-bytes_at a.paddr n _) (length-bytes_at b.paddr n _)
      ∙ ap (λ x. some x)
          (sym (
            bytes_at-add_elements arr1 arr2 result_array n m apart1 apart2 ∙ ap₂ sums first second))

  add_arrays_zero-Added :
      (arr1 arr2 result_array : ℕ) (target : Sockaddr) (array1 array2 : List ℕ) (n : ℕ) (net : Net)
      → n < 2 ^ 31
      → IsReady fresh host (taken n) net
      → IsArgument (unmarshall_shmem_ptr array1) n host.subid (fresh (net.servers host.subid))
      → IsArgument (unmarshall_shmem_ptr array2) n host.subid (fresh (net.servers host.subid))
      → arr1 + taken n < 2 ^ 64
      → arr2 + taken n < 2 ^ 64
      → Disjoint arr1 arr2 n
      → Disjoint arr1 result_array n
      → Disjoint arr2 result_array n
      → Added fresh host
          (unmarshall_shmem_ptr array1)
          (unmarshall_shmem_ptr array2)
          n
          net
          (add_arrays fresh host arr1 arr2 result_array 0 0 target array1 array2 n net)
  unfolding add_arrays argument
  add_arrays_zero-Added arr1 arr2 result_array target array1 array2 n net small ready arg1 arg2
        local1 local2 apart apart1 apart2 =
      let p = fresh (net.servers host.subid) in
      let got = get_pointer-Allocated fresh target host n net small ready.idle in
      let read1 =
        read_uniform_rmem-HasReadUniform fresh got.target' (argument array1 n 0) arr1 n got.net'
          (argument-HasRoom array1 n host.subid p small arg1) (omega arith) (ground (arith, local1))
          got.idle in
      let read2 =
        read_uniform_rmem-HasReadUniform fresh read1.target (argument array2 n 0) arr2 n read1.net'
          (argument-HasRoom array2 n host.subid p small arg2) (omega arith) (ground (arith, local2))
          read1.idle in
      let m = read2.net'.memory in
      let net4 : Net = record (read2.net') { memory = add_elements arr1 arr2 result_array n m } in
      let bytes = bytes_at result_array n net4.memory in
      let wrote =
        write_uniform_rmem-Stored fresh host n net ready small target
          (get_pointer fresh target host n net) got read2.target bytes net4
          (length-bytes_at result_array n net4.memory) read2.idle (read2.memory ∙ read1.memory) in
      let blk = got.block.memaddr in
      let named : unmarshall_shmem_ptr (marshall_shmem_ptr [] blk) ≡ blk =
        unmarshall-marshall_self blk (block-IsMemaddr fresh host n net ready small target _ got) in
      record {
        returned = marshall_shmem_ptr [] blk;
        target = wrote.target;
        net' = wrote.net';
        returns =
            bind_some _ _ _ got.returns
            ∙ bind_some _ _ _ read1.returns
            ∙ bind_some _ _ _ read2.returns
            ∙ bind_some _ _ _ wrote.returns;
        idle = wrote.idle;
        server = ap (λ (x : Memaddr). x.subid) named ∙ got.server ∙ ready.route;
        paddr = ap (λ (x : Memaddr). x.paddr) named ∙ got.paddr;
        computed =
            added_elements arr1 arr2 result_array target array1 array2 n net small ready _ got _
              read1 _ read2 arg1 arg2 apart apart1 apart2
            ∙ ap (λ x. some x)
                (sym (
                  ap (λ k. bytes_at p k (memories wrote.net' host.subid)) {x = n} {y = length bytes}
                    (sym (length-bytes_at result_array n net4.memory))
                  ∙ wrote.memory.holds));
        kept = wrote.memory.kept;
      }

  -- A call with two arrays of fewer than 2 ^ 31 bytes in remote memory, whose blocks begin at their
  -- pointers and lie outside the block that the host's calloc returns next, with local arrays below
  -- 2 ^ 64 that do not overlap and no reply of before under way, at a host that answers from its own
  -- subnet, returns, if the offsets that the code leaves uninitialised in the arguments' blocks are
  -- 0. Its message names a block of the host whose bytes are what the call with the arrays in the
  -- message returns, nothing outside that block changed, and no reply is left.
  pub add_arrays-Added :
      (arr1 arr2 result_array offset1 offset2 : ℕ) (target : Sockaddr) (array1 array2 : List ℕ)
      (n : ℕ) (net : Net)
      → offset1 ≡ 0
      → offset2 ≡ 0
      → n < 2 ^ 31
      → IsReady fresh host (taken n) net
      → IsArgument (unmarshall_shmem_ptr array1) n host.subid (fresh (net.servers host.subid))
      → IsArgument (unmarshall_shmem_ptr array2) n host.subid (fresh (net.servers host.subid))
      → arr1 + taken n < 2 ^ 64
      → arr2 + taken n < 2 ^ 64
      → Disjoint arr1 arr2 n
      → Disjoint arr1 result_array n
      → Disjoint arr2 result_array n
      → Added fresh host
          (unmarshall_shmem_ptr array1)
          (unmarshall_shmem_ptr array2)
          n
          net
          (add_arrays fresh host arr1 arr2 result_array offset1 offset2 target array1 array2 n net)
  add_arrays-Added arr1 arr2 result_array offset1 offset2 target array1 array2 n net unset1 unset2
        small ready arg1 arg2 local1 local2 apart apart1 apart2 =
      subst
        (λ (o : ℕ × ℕ).
          Added fresh host (unmarshall_shmem_ptr array1) (unmarshall_shmem_ptr array2) n net
            (add_arrays fresh host arr1 arr2 result_array (o.0) (o.1) target array1 array2 n net))
        {x = (0, 0)} {y = (offset1, offset2)} (λ i. (sym unset1 i, sym unset2 i))
        (add_arrays_zero-Added arr1 arr2 result_array target array1 array2 n net small ready arg1
          arg2 local1 local2 apart apart1 apart2)
