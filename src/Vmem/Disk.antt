-- ===== src/Vmem/Disk.antt =====
-- ip6/lib/vmem/disk.c: blocks of a file. `none` is an abort, or the null pointer of disk_open. The
-- operating system's calls on files are a parameter; malloc succeeds.
pub mod Paging
mod Tests
use blue_bridge.Prelude.{
  ℕ, suc, ◌+◌, ◌*◌, ◌%◌, ◌^◌, ◌<◌, ◌≤◌, ◌≡◌, ◌≢◌, refl, Option, none, some, List, length, update,
  take, take-length, ap, sym, subst, ◌∙◌, Bool-cases, inl, inr, ◌==◌, leb, lt→leb, if◌then◌else◌,
  ◌>>=◌, arith, ==_refl, eq_of_==, ne_of_==,
}
use blue_bridge.Memory.{
  Bytes, memcpy, bytes_at, bytes_at-memcpy, bytes_at-memcpy_apart, length-bytes_at, bytes_at-cong,
}
use blue_bridge.Types.{block_size as transport_size}
use blue_bridge.Vmem.Backing.{Block, Backing}

-- The calls: `none` is a negative result; pread and pwrite also give the count, as a uint64_t.
pub record FileSystem : Type 1 where
  pub File : Type 0
  pub open_file : (name : ℕ) → Option File
  pub ftruncate : (size : ℕ) → File → Option File
  pub pread : (nbytes offset : ℕ) → File → ℕ × List ℕ
  pub pwrite : (bytes : List ℕ) → (offset : ℕ) → File → ℕ × File

-- What is relied on: a file has a size and bytes, ftruncate sets the size, and within the size reads
-- and writes are whole.
pub record IsRegular (F : FileSystem) : Type 0 where
  pub size : F.File → ℕ
  pub view : F.File → Bytes
  pub truncated : (n : ℕ) (f f' : F.File) → F.ftruncate n f ≡ some f' → size f' ≡ n
  pub reads :
      (n offset : ℕ) (f : F.File)
      → offset + n ≤ size f
      → F.pread n offset f ≡ (n, bytes_at offset n (view f))
  pub writes :
      (d : List ℕ) (offset : ℕ) (f : F.File)
      → offset + length d ≤ size f
      → (f' : F.File) × (F.pwrite d offset f ≡ (length d, f'))
        × (size f' ≡ size f)
        × ((x : ℕ) → view f' x ≡ memcpy offset d (view f) x)

module _ (F : FileSystem) where
  -- struct disk, with the file behind its descriptor
  pub record Disk : Type 0 where
    pub file : F.File
    pub block_size : ℕ
    pub nblocks : ℕ

  unfoldable pub disk_open : (diskname nblocks : ℕ) → Option Disk
  disk_open diskname nblocks = do
    file ← F.open_file diskname
    file' ← F.ftruncate (nblocks * transport_size % 2 ^ 64) file
    some (record { file = file'; block_size = transport_size; nblocks = nblocks })

  unfoldable pub disk_write : ℕ → Block → Disk → Option Disk
  disk_write block bytes d =
      if leb d.nblocks block
      then none
      else let (actual, file) =
          F.pwrite (take d.block_size bytes) (block * d.block_size % 2 ^ 64) d.file in
        if actual == d.block_size then some (record d { file = file }) else none

  unfoldable pub disk_read : ℕ → Disk → Option Block
  disk_read block d =
      if leb d.nblocks block
      then none
      else let (actual, bytes) = F.pread d.block_size (block * d.block_size % 2 ^ 64) d.file in
        if actual == d.block_size then some bytes else none

  unfoldable pub disk_nblocks : Disk → ℕ
  disk_nblocks d = d.nblocks
