-- ===== src/Rpc/Arguments.antt =====
-- The arguments and the result of a call of ip6/apps/thrift/ddc_simple_arr_comp_server.c in remote
-- memory.
use blue_bridge.Prelude.{
  ℕ, ◌+◌, ◌^◌, ◌≤◌, ◌<◌, ◌≡◌, ◌≢◌, ◌⊎◌, inl, inr, sym, ap, ap₂, subst, ◌∙◌, List, [], length, arith,
  update, update_self, take, take-length, Option, some,
}
use blue_bridge.Memory.{
  Bytes, memcpy, memset, bytes_at, bytes_at-memcpy, bytes_at-memcpy_apart, bytes_at-cong,
}
use blue_bridge.Types.{Memaddr, MemaddrBlock, Sockaddr, IsMemaddr}
use blue_bridge.Server.{Server}
use blue_bridge.Net.{Net}
use blue_bridge.Client.{ushrt_max, exit_success}
use blue_bridge.Client.Bulk.{write_uniform_rmem}
use blue_bridge.Client.Chunk.{SameFrame}
use blue_bridge.Client.Single.{memories}
use blue_bridge.Client.Allocation.{taken, Allocated}
use blue_bridge.Client.Uniform.{
  HasRoom, HasReadUniform, start, buffer-HasReadUniform, write_uniform_rmem-WroteUniform,
}
use blue_bridge.Rpc.{unmarshall_shmem_ptr}
use blue_bridge.Rpc.Pointers.{
  IsReady, Outside, copied-Outside, cleared-Outside, allocated-IsMemaddr,
}
use blue_bridge.Rpc.Ddc.{argument}

-- An array of `n` bytes lies in its server's memory, outside the block at `p` of server `i`.
pub record IsArgument (a : Memaddr) (n i p : ℕ) : Type 0 where
  pub server : a.subid < ushrt_max
  pub fits : a.paddr + taken n ≤ 2 ^ 64
  pub apart : (a.subid ≢ i) ⊎ ((a.paddr + n ≤ p) ⊎ (p + taken n ≤ a.paddr))

-- Two local arrays of `n` bytes that do not overlap.
abbrev pub Disjoint : (a b n : ℕ) → Type 0
Disjoint a b n = (a + n ≤ b) ⊎ (b + n ≤ a)

pub kept_apart :
    (a b n : ℕ) (bs : List ℕ) (m : Bytes)
    → length bs ≡ n
    → Disjoint a b n
    → bytes_at a n (memcpy b bs m) ≡ bytes_at a n m
kept_apart a b n bs m e (inl h) = bytes_at-memcpy_apart a n b bs m (inl h)
kept_apart a b n bs m e (inr h) = bytes_at-memcpy_apart a n b bs m (inr (omega arith))

pub argument-HasRoom :
    (pointer : List ℕ) (n i p : ℕ)
    → n < 2 ^ 31
    → IsArgument (unmarshall_shmem_ptr pointer) n i p
    → HasRoom (argument pointer n 0) n
unfolding argument
argument-HasRoom pointer n i p small a = record {
  server = a.server;
  some_left = ground arith;
  fits = ground arith;
  length = ground arith;
  last = ground (arith, a.fits);
}

pub bytes_at-argument :
    (pointer : List ℕ) (n j p : ℕ) (m : ℕ → Bytes)
    → (unmarshall_shmem_ptr pointer).subid ≡ j
    → (unmarshall_shmem_ptr pointer).paddr ≡ p
    → bytes_at (start (argument pointer n 0)) n (m (argument pointer n 0).memaddr.subid)
      ≡ bytes_at p n (m j)
unfolding argument
bytes_at-argument pointer n j p m e f =
    ap₂ (λ q i. bytes_at q n (m i)) {x = (unmarshall_shmem_ptr pointer).paddr + 0} {y = p}
      (omega (arith, f)) e

argument-cleared :
    (a : Memaddr) (n i p : ℕ) (m m1 : ℕ → Bytes)
    → IsArgument a n i p
    → m1 ≡ update m i (memset p 0 (taken n) (m i))
    → bytes_at a.paddr n (m1 a.subid) ≡ bytes_at a.paddr n (m a.subid)
argument-cleared a n i p m m1 h e =
    ap (λ f. bytes_at a.paddr n (f a.subid)) e
    ∙ bytes_at-cong a.paddr n _ _
        (λ x l u. cleared-Outside m i p (taken n) a.subid x (side x l u h.apart))
  where
    side :
        (x : ℕ)
        → a.paddr ≤ x
        → x < a.paddr + n
        → (a.subid ≢ i) ⊎ ((a.paddr + n ≤ p) ⊎ (p + taken n ≤ a.paddr))
        → Outside i p (taken n) a.subid x
    side x l u (inl other) = inl other
    side x l u (inr (inl k)) = inr (inl (omega arith))
    side x l u (inr (inr k)) = inr (inr (omega arith))

-- The bytes stand at `p` on server `i`, and nothing outside the `n` bytes there changed.
pub record Holds (i p n : ℕ) (bytes : List ℕ) (m m' : ℕ → Bytes) : Type 0 where
  pub holds : bytes_at p (length bytes) (m' i) ≡ bytes
  pub kept : (j x : ℕ) → Outside i p n j x → m' j x ≡ m j x

copied-Holds :
    (i p n : ℕ) (bytes : List ℕ) (m m1 : ℕ → Bytes)
    → length bytes ≤ n
    → m1 ≡ update m i (memset p 0 n (m i))
    → Holds i p n bytes m (update m1 i (memcpy p bytes (m1 i)))
copied-Holds i p n bytes m m1 short e = record {
  holds =
      ap (bytes_at p (length bytes)) (update_self m1 i (memcpy p bytes (m1 i)))
      ∙ bytes_at-memcpy p bytes (m1 i);
  kept = λ j x apart.
      copied-Outside m1 i p n bytes short j x apart
      ∙ ap (λ f. f j x) e
      ∙ cleared-Outside m i p n j x apart;
}

stored_at :
    {i j p q : ℕ} {bs : List ℕ} (m : ℕ → Bytes) (cs : List ℕ)
    → i ≡ j
    → p ≡ q
    → bs ≡ cs
    → update m i (memcpy p bs (m i)) ≡ update m j (memcpy q cs (m j))
stored_at m cs e f g = λ x. update m (e x) (memcpy (f x) (g x) (m (e x)))

-- What writing the result leaves.
pub record Stored (i p n : ℕ) (bytes : List ℕ) (m : ℕ → Bytes) (net : Net)
    (result : Option (ℕ × (Sockaddr × Net))) : Type 0 where
  pub target : Sockaddr
  pub net' : Net
  pub returns : result ≡ some (exit_success, (target, net'))
  pub idle : net'.ring ≡ []
  pub memory : Holds i p n bytes m (memories net')
  pub frame : SameFrame net net'

module _ (fresh : Server → ℕ) (host : Memaddr) (n : ℕ) (net : Net)
    (ready : IsReady fresh host (taken n) net) (small : n < 2 ^ 31) where
  abbrev fresh_block : ℕ
  fresh_block = fresh (net.servers host.subid)

  pub allocated-cleared :
      (to : Sockaddr) (o : Option (MemaddrBlock × (Sockaddr × Net)))
      (got : Allocated fresh (record to { addr = host }) (taken n) net o)
      → memories got.net'
        ≡ update
            (memories net)
            host.subid
            (memset fresh_block 0 (taken n) (memories net host.subid))
  allocated-cleared to o got =
      got.memory
      ∙ ap
          (λ k. update (memories net) host.subid (memset fresh_block 0 k (memories net host.subid)))
          {x = taken (taken n)} {y = taken n} (ground arith)

  -- A local array holds the argument after it is read.
  pub argument-read :
      (to : Sockaddr) (o : Option (MemaddrBlock × (Sockaddr × Net)))
      (got : Allocated fresh (record to { addr = host }) (taken n) net o) (pointer : List ℕ)
      (buf : ℕ) (net1 : Net) (r : Option (ℕ × (Sockaddr × Net)))
      (read : HasReadUniform (argument pointer n 0) buf n net1 r)
      → memories net1 ≡ memories got.net'
      → IsArgument (unmarshall_shmem_ptr pointer) n host.subid fresh_block
      → bytes_at buf n read.net'.memory
        ≡ bytes_at
            (unmarshall_shmem_ptr pointer).paddr
            n
            (memories net (unmarshall_shmem_ptr pointer).subid)
  unfolding argument
  argument-read to o got pointer buf net1 r read same arg =
      let a = unmarshall_shmem_ptr pointer in
      buffer-HasReadUniform (argument pointer n 0) buf n net1 r read
      ∙ ap (λ p. bytes_at p n (memories net1 a.subid)) {y = a.paddr} (omega arith)
      ∙ argument-cleared a n host.subid fresh_block (memories net) (memories net1) arg
          (same ∙ allocated-cleared to o got)

  -- The allocated block's address fits its fields.
  pub block-IsMemaddr :
      (to : Sockaddr) (o : Option (MemaddrBlock × (Sockaddr × Net)))
      (got : Allocated fresh (record to { addr = host }) (taken n) net o)
      → IsMemaddr got.block.memaddr
  block-IsMemaddr to o got =
      allocated-IsMemaddr got.block.memaddr net.client.addr ready.client got.cmd got.args
        (omega (arith, got.server, ready.route, ready.server))
        (omega (arith, got.paddr, ready.below))

  -- The block that the host allocated is written whole.
  pub write_uniform_rmem-Stored :
      (to : Sockaddr) (o : Option (MemaddrBlock × (Sockaddr × Net)))
      (got : Allocated fresh (record to { addr = host }) (taken n) net o) (target : Sockaddr)
      (bytes : List ℕ) (net1 : Net)
      → length bytes ≡ n
      → net1.ring ≡ []
      → memories net1 ≡ memories got.net'
      → Stored host.subid fresh_block
          (taken n)
          bytes
          (memories net)
          net1
          (write_uniform_rmem fresh target got.block bytes n net1)
  write_uniform_rmem-Stored to o got target bytes net1 count idle same =
      let room : HasRoom got.block n = record {
        server = omega (arith, got.server, ready.route, ready.server);
        some_left = ground (arith, got.offset, got.length);
        fits = ground (arith, got.offset, got.length);
        length = ground (arith, got.length);
        last = ground (arith, got.length, got.paddr, ready.fits);
      } in
      let done =
        write_uniform_rmem-WroteUniform fresh target got.block bytes n net1 room
          (omega (arith, count)) idle in
      record {
        target = done.target;
        net' = done.net';
        returns = done.returns;
        idle = done.idle;
        memory =
            subst (Holds host.subid fresh_block (taken n) bytes (memories net))
              (sym (
                done.memory
                ∙ stored_at (memories net1) bytes (got.server ∙ ready.route)
                    (omega (arith, got.paddr, got.offset))
                    (ap (λ k. take k bytes) (sym count) ∙ take-length bytes)))
              (copied-Holds host.subid fresh_block (taken n) bytes (memories net) (memories net1)
                (ground (arith, count)) (same ∙ allocated-cleared to o got));
        frame = done.frame;
      }
