-- ===== src/Client/Uniform.antt =====
-- read_uniform_rmem and write_uniform_rmem of ip6/lib/client_lib.c: the addresses of a block are its
-- bytes, one after the other.
use blue_bridge.Prelude.{
  ℕ, zero, suc, ◌+◌, ◌-◌, ◌*◌, ◌%◌, ◌^◌, ◌≤◌, ◌<◌, ◌≡◌, refl, sym, ap, ap₂, ◌∙◌, List, [], ◌∷◌,
  length, take, arith, Option, some, update, update_self, update_same, update_twice,
}
use blue_bridge.Memory.{Bytes, memcpy, bytes_at, bytes_at-memcpy, length-bytes_at}
use blue_bridge.Types.{Memaddr, MemaddrBlock, Sockaddr, block_size}
use blue_bridge.Server.{Server}
use blue_bridge.Server.Requests.{All}
use blue_bridge.Net.{Net}
use blue_bridge.Client.{addr_list, ushrt_max, exit_success}
use blue_bridge.Client.Bulk.{read_uniform_rmem, write_uniform_rmem}
use blue_bridge.Client.Burst.{stored}
use blue_bridge.Client.Chunk.{SameFrame}
use blue_bridge.Client.Fetch.{gathered}
use blue_bridge.Client.Fetches.{read_bulk_rmem-HasReadBulk}
use blue_bridge.Client.Batches.{write_bulk_rmem-WroteBulk}
use blue_bridge.Client.Single.{memories}

length-addr_list : (a : Memaddr) (i n : ℕ) → length (addr_list a i n) ≡ n
unfolding addr_list
length-addr_list a i zero = refl
length-addr_list a i (suc n) = ap suc (length-addr_list a (i + 1) n)

addr_list-All :
    (a : Memaddr) (i n : ℕ) → a.subid < ushrt_max → All (λ b. b.subid < ushrt_max) (addr_list a i n)
unfolding addr_list
addr_list-All a i zero h = tt
addr_list-All a i (suc n) h = (h, addr_list-All a (i + 1) n h)

take-addr_list : (a : Memaddr) (i k n : ℕ) → k ≤ n → take k (addr_list a i n) ≡ addr_list a i k
unfolding addr_list
take-addr_list a i zero n h = refl
take-addr_list a i (suc k) zero h = absurd (omega arith)
take-addr_list a i (suc k) (suc n) h =
    ap (◌∷◌ (record a { paddr = (a.paddr + i * block_size) % 2 ^ 64 }))
      (take-addr_list a (i + 1) k n (omega arith))

gathered-addr_list :
    (a : Memaddr) (i k : ℕ) (m : ℕ → Bytes)
    → a.paddr + i + k ≤ 2 ^ 64
    → gathered (addr_list a i k) block_size m ≡ bytes_at (a.paddr + i) k (m a.subid)
unfolding addr_list bytes_at
gathered-addr_list a i zero m h = refl
gathered-addr_list a i (suc k) m h =
    ap₂ (λ p q. m a.subid p ∷ q) {x = (a.paddr + i * block_size) % 2 ^ 64} {y = a.paddr + i}
      (omega arith)
      (gathered-addr_list a (i + 1) k m (omega arith)
        ∙ ap (λ p. bytes_at p k (m a.subid)) (omega arith))

stored-addr_list :
    (a : Memaddr) (i k : ℕ) (payload : List ℕ) (m : ℕ → Bytes)
    → a.paddr + i + k ≤ 2 ^ 64
    → k ≤ length payload
    → stored (addr_list a i k) payload block_size m
      ≡ update m a.subid (memcpy (a.paddr + i) (take k payload) (m a.subid))
unfolding addr_list memcpy
stored-addr_list a i zero payload m h short = sym (λ p j. update_same m a.subid j p)
stored-addr_list a i (suc k) [] m h short = absurd (omega arith)
stored-addr_list a i (suc k) (b ∷ bs) m h short =
    let q = (a.paddr + i * block_size) % 2 ^ 64 in
    let m1 = update m a.subid (update (m a.subid) q b) in
    stored-addr_list a (i + 1) k bs m1 (omega arith) (omega arith)
    ∙ update_twice m a.subid _ _
    ∙ ap (update m a.subid) (
        ap₂ (λ p x. memcpy p (take k bs) x) {x = a.paddr + (i + 1)} {y = a.paddr + i + 1}
          (omega arith) (update_self m a.subid _ ∙ ap (λ p. update (m a.subid) p b) (omega arith)))

-- `size` bytes from the offset of a block on lie in it, and the block lies in its server's memory.
pub record HasRoom (block : MemaddrBlock) (size : ℕ) : Type 0 where
  pub server : block.memaddr.subid < ushrt_max
  pub some_left : block.offset < block.length
  pub fits : block.offset + size ≤ block.length
  pub length : block.length < 2 ^ 64
  pub last : block.memaddr.paddr + block.length ≤ 2 ^ 64

-- Where reads and writes of a block begin.
abbrev pub start : MemaddrBlock → ℕ
start block = block.memaddr.paddr + block.offset

-- The bytes are in the block, and no reply is left under way.
pub record WroteUniform (block : MemaddrBlock) (bytes : List ℕ) (net : Net)
    (result : Option (ℕ × (Sockaddr × Net))) : Type 0 where
  pub target : Sockaddr
  pub net' : Net
  pub returns : result ≡ some (exit_success, (target, net'))
  pub idle : net'.ring ≡ []
  pub memory :
      memories net'
      ≡ update
          (memories net)
          block.memaddr.subid
          (memcpy (start block) bytes (memories net block.memaddr.subid))
  pub frame : SameFrame net net'

-- The buffer holds the block's bytes, no server's memory changed, and no reply is under way.
pub record HasReadUniform (block : MemaddrBlock) (rx_buf size : ℕ) (net : Net)
    (result : Option (ℕ × (Sockaddr × Net))) : Type 0 where
  pub target : Sockaddr
  pub net' : Net
  pub returns : result ≡ some (exit_success, (target, net'))
  pub idle : net'.ring ≡ []
  pub own :
      net'.memory
      ≡ memcpy rx_buf (bytes_at (start block) size (memories net block.memaddr.subid)) net.memory
  pub memory : memories net' ≡ memories net

module _ (fresh : Server → ℕ) where
  -- A write into a block of as many bytes as it has room for, with no reply of before under way,
  -- succeeds and copies the bytes to the block from its offset on, and nowhere else.
  pub write_uniform_rmem-WroteUniform :
      (target : Sockaddr) (block : MemaddrBlock) (payload : List ℕ) (size : ℕ) (net : Net)
      → HasRoom block size
      → size ≤ length payload
      → net.ring ≡ []
      → WroteUniform block
          (take size payload)
          net
          (write_uniform_rmem fresh target block payload size net)
  unfolding write_uniform_rmem
  write_uniform_rmem-WroteUniform target block payload size net room enough idle =
      let n = block.length - block.offset in
      let addrs = addr_list block.memaddr block.offset n in
      let num_addrs = (block.length + 2 ^ 64 - block.offset) % 2 ^ 64 in
      let counted = length-addr_list block.memaddr block.offset n in
      let left : num_addrs ≡ n = omega (arith, room.fits, room.length, room.some_left) in
      let done =
        write_bulk_rmem-WroteBulk fresh target addrs num_addrs payload size net
          (omega (arith, counted, room.some_left)) (omega (arith, left, room.fits))
          (omega (arith, left, counted)) (addr_list-All block.memaddr block.offset n room.server)
          idle in
      record {
        target = done.target;
        net' = done.net';
        returns = rw done.returns refl;
        idle = done.idle;
        memory =
            done.memory
            ∙ ap (λ bs. stored bs payload block_size (memories net))
                (take-addr_list block.memaddr block.offset size n (omega (arith, room.fits)))
            ∙ stored-addr_list block.memaddr block.offset size payload (memories net)
                (omega (arith, room.fits, room.last)) enough;
        frame = done.frame;
      }

  -- A read from a block of fewer than 2 ^ 32 of the bytes that it has, with no reply of before
  -- under way and into a buffer with room for the block below 2 ^ 64, succeeds, copies the bytes of
  -- the block from its offset on to the buffer, and changes no server's memory.
  pub read_uniform_rmem-HasReadUniform :
      (target : Sockaddr) (block : MemaddrBlock) (rx_buf size : ℕ) (net : Net)
      → HasRoom block size
      → size < 2 ^ 32
      → rx_buf + block.length < 2 ^ 64
      → net.ring ≡ []
      → HasReadUniform block rx_buf size net (read_uniform_rmem fresh target block rx_buf size net)
  unfolding read_uniform_rmem
  read_uniform_rmem-HasReadUniform target block rx_buf size net room small below idle =
      let n = block.length - block.offset in
      let addrs = addr_list block.memaddr block.offset n in
      let num_addrs = (block.length + 2 ^ 64 - block.offset) % 2 ^ 64 in
      let counted = length-addr_list block.memaddr block.offset n in
      let left : num_addrs ≡ n = omega (arith, room.fits, room.length, room.some_left) in
      let done =
        read_bulk_rmem-HasReadBulk fresh target addrs num_addrs rx_buf size net
          (omega (arith, counted, room.some_left)) (omega (arith, left, room.fits))
          (omega (arith, left, counted)) small (omega (arith, counted, below))
          (addr_list-All block.memaddr block.offset n room.server) idle in
      record {
        target = done.target;
        net' = done.net';
        returns = rw done.returns refl;
        idle = done.idle;
        own =
            done.own
            ∙ ap (λ bs. memcpy rx_buf bs net.memory)
                (ap (λ bs. gathered bs block_size (memories net))
                    (take-addr_list block.memaddr block.offset size n (omega (arith, room.fits)))
                  ∙ gathered-addr_list block.memaddr block.offset size (memories net)
                      (omega (arith, room.fits, room.last)));
        memory = done.memory;
      }

-- The buffer holds what was read.
pub buffer-HasReadUniform :
    (block : MemaddrBlock) (rx_buf size : ℕ) (net : Net) (o : Option (ℕ × (Sockaddr × Net)))
    (read : HasReadUniform block rx_buf size net o)
    → bytes_at rx_buf size read.net'.memory
      ≡ bytes_at (start block) size (memories net block.memaddr.subid)
buffer-HasReadUniform block rx_buf size net o read =
    let bs = bytes_at (start block) size (memories net block.memaddr.subid) in
    ap (bytes_at rx_buf size) read.own
    ∙ ap (λ k. bytes_at rx_buf k (memcpy rx_buf bs net.memory)) {x = size} {y = length bs}
        (sym (length-bytes_at (start block) size (memories net block.memaddr.subid)))
    ∙ bytes_at-memcpy rx_buf bs net.memory
