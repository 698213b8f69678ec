-- ===== src/Vmem/Rmem/Paging.antt =====
-- Remote memory (ip6/lib/vmem/rmem.c) as a store behind the frames. The frame's address in the
-- client's memory is the parameter `frame`.
use blue_bridge.Prelude.{
  ℕ, ◌<◌, ◌≡◌, refl, Option, some, length, take, take-length, ap, sym, subst, ◌∙◌, ◌==◌, lt→leb,
  lt→ltb, update, if◌then◌else◌, ◌>>=◌,
}
use blue_bridge.Memory.{bytes_at, memcpy}
use blue_bridge.Types.{block_size as transport_size}
use blue_bridge.Server.{Server}
use blue_bridge.Client.Single.{memories, write_rmem-Wrote, read_rmem-HasRead}
use blue_bridge.Vmem.Backing.{Block, Backing}
use blue_bridge.Vmem.Rmem.{
  Rmem, rmem_read, rmem_write, block_in, IsRemote, block_written, length-block_in,
}

abbrev pub remote_block : Rmem → ℕ → Block
remote_block r = block_in r (memories r.net)

take_whole : (n : ℕ) (d : Block) → length d ≡ n → take n d ≡ d
take_whole n d e = subst (λ k. take k d ≡ d) e (take-length d)

in_range :
    (r : Rmem) (b : ℕ)
    → b < r.nblocks
    → bytes_at (r.mem_list b).paddr r.block_size (memories r.net (r.mem_list b).subid)
      ≡ remote_block r b
in_range r b h = rw (lt→ltb b r.nblocks h) refl

module _ (fresh : Server → ℕ) (frame : ℕ) where
  -- rmem_read into the frame, and what the frame then holds
  unfoldable pub read_remote : ℕ → Rmem → Option (Block × Rmem)
  read_remote b r = do
    r' ← rmem_read fresh b frame r
    some (bytes_at frame r.block_size r'.net.memory, r')

  -- Writing a block of remote memory that is in range and of its size succeeds, changes this block
  -- and no other, and leaves no reply under way.
  pub rmem_write_lem :
      (size b : ℕ) (d : Block) (r : Rmem)
      → IsRemote size r
      → b < r.nblocks
      → length d ≡ size
      → (r' : Rmem) × (rmem_write fresh b d r ≡ some r')
        × IsRemote size r'
        × (r'.nblocks ≡ r.nblocks)
        × ((c : ℕ) → remote_block r' c ≡ (if c == b then d else remote_block r c))
  unfolding rmem_write
  rmem_write_lem size b d r i h e =
      let w = write_rmem-Wrote fresh r.target (r.mem_list b) (take transport_size d) r.net i.idle in
      let whole = take_whole transport_size d (e ∙ i.transport) in
      (
        record r { target = w.target; net = w.net' },
        rw (lt→leb b r.nblocks h)
            (ap (λ o. o >>= (λ s. some (record r { target = s.0; net = s.1 }))) w.returns),
        record {
          block_size = i.block_size;
          transport = i.transport;
          small = i.small;
          idle = w.idle;
          apart = i.apart;
        },
        refl,
        λ c.
            ap (λ m. block_in r m c) w.memory
            ∙ ap
                (λ x.
                  block_in r
                    (update (memories r.net) (r.mem_list b).subid
                      (memcpy (r.mem_list b).paddr x (memories r.net (r.mem_list b).subid)))
                    c)
                whole
            ∙ block_written size r b c d (memories r.net) i h (e ∙ sym i.block_size),
      )

  -- Reading a block of remote memory that is in range puts its bytes into the frame, changes no
  -- block, and leaves no reply under way.
  pub read_remote_lem :
      (size b : ℕ) (r : Rmem)
      → IsRemote size r
      → b < r.nblocks
      → (r' : Rmem) × (read_remote b r ≡ some (remote_block r b, r'))
        × IsRemote size r'
        × (r'.nblocks ≡ r.nblocks)
        × ((c : ℕ) → remote_block r' c ≡ remote_block r c)
  unfolding read_remote rmem_read
  read_remote_lem size b r i h =
      let g =
        read_rmem-HasRead fresh r.target (r.mem_list b) frame r.block_size r.net i.small i.idle in
      let r' : Rmem = record r { target = g.target; net = g.net' } in
      (
        r',
        rw (lt→leb b r.nblocks h)
            (rw g.returns (ap (λ d. some (d, r')) (g.buffer ∙ in_range r b h))),
        record {
          block_size = i.block_size;
          transport = i.transport;
          small = i.small;
          idle = g.idle;
          apart = i.apart;
        },
        refl,
        λ c. ap (λ m. block_in r m c) g.memory,
      )

  abbrev pub rmem_paging : ℕ → Backing
  rmem_paging size = record {
    Store = Rmem;
    IsReady = IsRemote size;
    block_size = size;
    nblocks = λ r. r.nblocks;
    contents = remote_block;
    read = read_remote;
    write = rmem_write fresh;
    length-contents = λ r b i h. length-block_in r (memories r.net) b h ∙ i.block_size;
    read_back = λ b r i h. read_remote_lem size b r i h;
    write_through = λ b d r i h e. rmem_write_lem size b d r i h e;
  }
