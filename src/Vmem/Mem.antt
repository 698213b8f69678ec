-- ===== src/Vmem/Mem.antt =====
-- ip6/lib/vmem/mem.c: blocks of local memory. `none` is an abort; the allocation of the struct is
-- taken to succeed, and mem_deallocate, which frees the blocks, has nothing to hand back. The ints
-- `block` and `nblocks` stand for those that are not negative; a negative block aborts too.
use blue_bridge.Prelude.{
  ℕ, ◌<◌, ◌≡◌, refl, Option, none, some, length, update, take, take-length, ap, sym, subst, ◌∙◌,
  Bool-cases, inl, inr, ◌==◌, leb, lt→leb, if◌then◌else◌, ◌>>=◌,
}
use blue_bridge.Vmem.Backing.{Block, Backing}

-- struct mem
pub record Mem : Type 0 where
  pub mem_list : ℕ → Block
  pub block_size : ℕ
  pub nblocks : ℕ

-- `garbage` is what malloc leaves in the blocks.
unfoldable pub mem_allocate : (garbage : ℕ → Block) → ℕ → ℕ → Mem
mem_allocate garbage block_size nblocks = record {
  mem_list = garbage;
  block_size = block_size;
  nblocks = nblocks;
}

-- memcpy(r->memList[block], data, r->block_size)
unfoldable pub mem_write : ℕ → Block → Mem → Option Mem
mem_write block bytes r =
    if leb r.nblocks block
    then none
    else some (record r { mem_list = update r.mem_list block (take r.block_size bytes) })

-- memcpy(data, r->memList[block], r->block_size)
unfoldable pub mem_read : ℕ → Mem → Option Block
mem_read block r = if leb r.nblocks block then none else some (take r.block_size (r.mem_list block))

unfoldable pub mem_blocks : Mem → ℕ
mem_blocks r = r.nblocks

-- Every block is allocated whole.
pub record IsAllocated (size : ℕ) (r : Mem) : Type 0 where
  pub block_size : r.block_size ≡ size
  pub whole : (b : ℕ) → length (r.mem_list b) ≡ size

unfoldable pub read_with : ℕ → Mem → Option (Block × Mem)
read_with b r = do d ← mem_read b r; some (d, r)

take_whole : (n : ℕ) (d : Block) → length d ≡ n → take n d ≡ d
take_whole n d e = subst (λ k. take k d ≡ d) e (take-length d)

pub mem_read_back :
    (size b : ℕ) (r : Mem) → IsAllocated size r → b < r.nblocks → mem_read b r ≡ some (r.mem_list b)
unfolding mem_read
mem_read_back size b r i h =
    rw (lt→leb b r.nblocks h, i.block_size) (ap some (take_whole size (r.mem_list b) (i.whole b)))

pub mem_write_lem :
    (size b : ℕ) (d : Block) (r : Mem)
    → IsAllocated size r
    → b < r.nblocks
    → length d ≡ size
    → mem_write b d r ≡ some (record r { mem_list = update r.mem_list b d })
unfolding mem_write
mem_write_lem size b d r i h e =
    rw (lt→leb b r.nblocks h, take_whole r.block_size d (e ∙ sym i.block_size))

pub written-IsAllocated :
    (size b : ℕ) (d : Block) (r : Mem)
    → IsAllocated size r
    → length d ≡ size
    → IsAllocated size (record r { mem_list = update r.mem_list b d })
written-IsAllocated size b d r i e = record {
  block_size = i.block_size;
  whole =
      λ c. elim (Bool-cases (c == b)) [ inl same ↦ rw same e | inr other ↦ rw other (i.whole c) ];
}

pub read_back_lem :
    (size b : ℕ) (r : Mem)
    → IsAllocated size r
    → b < r.nblocks
    → (r' : Mem) × (read_with b r ≡ some (r.mem_list b, r'))
      × IsAllocated size r'
      × (r'.nblocks ≡ r.nblocks)
      × ((c : ℕ) → r'.mem_list c ≡ r.mem_list c)
unfolding read_with
read_back_lem size b r i h = (r, rw (mem_read_back size b r i h), i, refl, λ c. refl)

-- The local memory as a store behind the frames.
abbrev pub mem_paging : ℕ → Backing
mem_paging size = record {
  Store = Mem;
  IsReady = IsAllocated size;
  block_size = size;
  nblocks = λ r. r.nblocks;
  contents = λ r. r.mem_list;
  read = read_with;
  write = mem_write;
  length-contents = λ r b i h. i.whole b;
  read_back = λ b r i h. read_back_lem size b r i h;
  write_through = λ b d r i h e. (
    record r { mem_list = update r.mem_list b d },
    mem_write_lem size b d r i h e,
    written-IsAllocated size b d r i e,
    refl,
    λ c. refl,
  );
}
