-- ===== src/Vmem/Rmem.antt =====
-- ip6/lib/vmem/rmem.c: blocks of remote memory, over the client library. `none` is an abort, or a
-- wait for a packet that never comes. The thread's target_ip stands in the record.
pub mod Allocation
pub mod Paging
mod Tests
use blue_bridge.Prelude.{
  ℕ, ◌+◌, ◌<◌, ◌≤◌, ◌^◌, ◌≡◌, ◌≢◌, refl, Option, none, some, List, [], ◌∷◌, length, take,
  take-length, update, ap, sym, subst, ◌∙◌, Bool-cases, inl, inr, ◌==◌, leb, ltb, lt→leb, lt→ltb,
  ltb→lt, update_self, if◌then◌else◌, ◌>>=◌, arith, ne_of_==, eq_of_==,
}
use blue_bridge.Memory.{Bytes, bytes_at, memcpy, bytes_at-memcpy, length-bytes_at}
use blue_bridge.Types.{Memaddr, Sockaddr, block_size as transport_size}
use blue_bridge.Server.{Server}
use blue_bridge.Net.{Net}
use blue_bridge.Client.{read_rmem, write_rmem}
use blue_bridge.Client.Readback.{Apart, copied-Apart}
use blue_bridge.Vmem.Backing.{Block, Backing}

-- struct rmem, with target_ip and the network behind it
pub record Rmem : Type 0 where
  pub mem_list : ℕ → Memaddr
  pub block_size : ℕ
  pub nblocks : ℕ
  pub target : Sockaddr
  pub net : Net

unfoldable pub rmem_blocks : Rmem → ℕ
rmem_blocks r = r.nblocks

module _ (fresh : Server → ℕ) where
  unfoldable pub rmem_write : ℕ → Block → Rmem → Option Rmem
  rmem_write block bytes r = if leb r.nblocks block then none else do
    (target', net') ← write_rmem fresh r.target (r.mem_list block) (take transport_size bytes) r.net
    some (record r { target = target'; net = net' })

  -- `bytes` is the address of the caller's buffer.
  unfoldable pub rmem_read : ℕ → (bytes : ℕ) → Rmem → Option Rmem
  rmem_read block bytes r = if leb r.nblocks block then none else do
    (n, (target', net')) ← read_rmem fresh r.target (r.mem_list block) bytes r.block_size r.net
    some (record r { target = target'; net = net' })

-- What memories hold for a block.
abbrev pub block_in : Rmem → (ℕ → Bytes) → ℕ → Block
block_in r m b =
    if ltb b r.nblocks
    then bytes_at (r.mem_list b).paddr r.block_size (m (r.mem_list b).subid)
    else []

-- No reply is under way, and the blocks do not overlap.
pub record IsRemote (size : ℕ) (r : Rmem) : Type 0 where
  pub block_size : r.block_size ≡ size
  pub transport : size ≡ transport_size
  pub small : r.block_size < 2 ^ 16
  pub idle : r.net.ring ≡ []
  pub apart :
      (b c : ℕ)
      → b < r.nblocks
      → c < r.nblocks
      → b ≢ c
      → Apart r.block_size (r.mem_list b) (r.mem_list c)

-- The servers' memories after a block is copied to its address.
abbrev after_write : Rmem → ℕ → Block → (ℕ → Bytes) → ℕ → Bytes
after_write r b d m =
    update m (r.mem_list b).subid (memcpy (r.mem_list b).paddr d (m (r.mem_list b).subid))

same_block :
    (r : Rmem) (b : ℕ) (d : Block) (m : ℕ → Bytes)
    → b < r.nblocks
    → length d ≡ r.block_size
    → block_in r (after_write r b d m) b ≡ d
same_block r b d m h e = rw (lt→ltb b r.nblocks h) (
    ap (bytes_at (r.mem_list b).paddr r.block_size) (update_self m (r.mem_list b).subid _)
    ∙ subst
        (λ n.
          bytes_at (r.mem_list b).paddr n (memcpy (r.mem_list b).paddr d (m (r.mem_list b).subid))
          ≡ d)
        e (bytes_at-memcpy (r.mem_list b).paddr d (m (r.mem_list b).subid)))

other_block :
    (size : ℕ) (r : Rmem) (b c : ℕ) (d : Block) (m : ℕ → Bytes)
    → IsRemote size r
    → b < r.nblocks
    → length d ≡ r.block_size
    → c ≢ b
    → block_in r (after_write r b d m) c ≡ block_in r m c
other_block size r b c d m i h e ne = elim (Bool-cases (ltb c r.nblocks)) [
  | inl within ↦ rw within (
      copied-Apart r.block_size r.block_size (r.mem_list c) (r.mem_list b) d m (omega arith)
        (omega (arith, e)) (i.apart c b (ltb→lt c r.nblocks within) h ne))
  | inr beyond ↦ rw beyond refl
]

pub block_written :
    (size : ℕ) (r : Rmem) (b c : ℕ) (d : Block) (m : ℕ → Bytes)
    → IsRemote size r
    → b < r.nblocks
    → length d ≡ r.block_size
    → block_in r (after_write r b d m) c ≡ (if c == b then d else block_in r m c)
block_written size r b c d m i h e = elim (Bool-cases (c == b)) [
  | inl same ↦
      ap (block_in r (after_write r b d m)) (eq_of_== c b same)
      ∙ same_block r b d m h e
      ∙ ap (λ t. if t then d else block_in r m c) (sym same)
  | inr other ↦
      other_block size r b c d m i h e (ne_of_== c b other)
      ∙ ap (λ t. if t then d else block_in r m c) (sym other)
]

pub length-block_in :
    (r : Rmem) (m : ℕ → Bytes) (b : ℕ) → b < r.nblocks → length (block_in r m b) ≡ r.block_size
length-block_in r m b h =
    rw (lt→ltb b r.nblocks h) (length-bytes_at (r.mem_list b).paddr r.block_size _)
