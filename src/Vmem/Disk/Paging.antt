-- ===== src/Vmem/Disk/Paging.antt =====
-- The disk (ip6/lib/vmem/disk.c) as a store behind the frames, over files with whole reads and writes.
use native.Mathlib.Nat.{mul-le-mul_right, suc-mul, mod-eq_of_lt}
use blue_bridge.Prelude.{
  ℕ, suc, ◌+◌, ◌*◌, ◌%◌, ◌^◌, ◌<◌, ◌≤◌, ◌≡◌, ◌≢◌, ◌⊎◌, refl, Option, none, some, List, length, take,
  take-length, ap, sym, subst, ◌∙◌, Bool-cases, inl, inr, ◌==◌, ltb, lt→leb, if◌then◌else◌, ◌>>=◌,
  arith, true, false, Bool, eq_of_==, ne_of_==, some_injective,
}
use blue_bridge.Memory.{
  Bytes, memcpy, bytes_at, bytes_at-memcpy, bytes_at-memcpy_apart, length-bytes_at, bytes_at-cong,
}
use blue_bridge.Types.{block_size as transport_size}
use blue_bridge.Vmem.Backing.{Block, Backing}
use blue_bridge.Vmem.Disk.{FileSystem, IsRegular, Disk, disk_open, disk_read, disk_write}

-- The blocks of one size lie one after the other.
blocks_apart : (n b c : ℕ) → b ≢ c → (b * n + n ≤ c * n) ⊎ (c * n + n ≤ b * n)
blocks_apart n b c h = elim (Bool-cases (ltb b c)) [
  | inl below ↦ inl (omega (arith, suc-mul b n, mul-le-mul_right n (after b c below)))
  | inr above ↦ inr (omega (arith, suc-mul c n, mul-le-mul_right n (before b c h above)))
]
  where
    after : (b c : ℕ) → ltb b c ≡ true → suc b ≤ c
    after b c e = ground arith

    before : (b c : ℕ) → b ≢ c → ltb b c ≡ false → suc c ≤ b
    before b c h e = ground arith

block_end : (n b m : ℕ) → b < m → b * n + n ≤ m * n
block_end n b m h = omega (arith, suc-mul b n, mul-le-mul_right n (after h))
  where
    after : b < m → suc b ≤ m
    after h = omega arith

take_whole : (n : ℕ) (d : Block) → length d ≡ n → take n d ≡ d
take_whole n d e = subst (λ k. take k d ≡ d) e (take-length d)

if_same {ℓ} : {A : Type ℓ} (a b : ℕ) (x y : A) → a ≡ b → (if a == b then x else y) ≡ x
if_same a b x y e = ground (arith, e)

some_if {ℓ} :
    {A : Type ℓ} (b : Bool) (x y : A) → some (if b then x else y) ≡ (if b then some x else some y)
some_if true x y = refl
some_if false x y = refl

-- What a copy of one block leaves in each.
written :
    (size b : ℕ) (d : Block) (m : Bytes) (c : ℕ)
    → length d ≡ size
    → bytes_at (c * size) size (memcpy (b * size) d m)
      ≡ (if c == b then d else bytes_at (c * size) size m)
written size b d m c e = elim (Bool-cases (c == b)) [
  | inl same ↦ rw same (
      ap (λ k. bytes_at (k * size) size (memcpy (b * size) d m)) (eq_of_== c b same)
      ∙ subst (λ n. bytes_at (b * size) n (memcpy (b * size) d m) ≡ d) e
          (bytes_at-memcpy (b * size) d m))
  | inr other ↦ rw other (
      bytes_at-memcpy_apart (c * size) size (b * size) d m (
        subst (λ n. (c * size + size ≤ b * size) ⊎ (b * size + n ≤ c * size)) (sym e)
          (blocks_apart size c b (ne_of_== c b other))))
]

module _ (F : FileSystem) (regular : IsRegular F) where
  -- The file is as long as the blocks, which 64 bits can count.
  pub record IsOpen (size : ℕ) (d : Disk F) : Type 0 where
    pub block_size : d.block_size ≡ size
    pub small : d.nblocks * size < 2 ^ 64
    pub sized : regular.size d.file ≡ d.nblocks * size

  abbrev pub disk_block : (size : ℕ) → Disk F → ℕ → Block
  disk_block size d b = bytes_at (b * size) size (regular.view d.file)

  offset_whole :
      (size b : ℕ) (d : Disk F)
      → IsOpen size d
      → b < d.nblocks
      → b * d.block_size % 2 ^ 64 ≡ b * size
  offset_whole size b d i h =
      ap (λ n. b * n % 2 ^ 64) i.block_size
      ∙ mod-eq_of_lt (omega (arith, i.small, block_end size b d.nblocks h))

  truncated :
      (nblocks : ℕ) (d : Disk F) (n : ℕ) (o : Option F.File)
      → nblocks * transport_size < 2 ^ 64
      → n ≡ nblocks * transport_size
      → ((f : F.File) → o ≡ some f → regular.size f ≡ n)
      → ((do
        file ← o
        some (record { file = file; block_size = transport_size; nblocks = nblocks }))
          ≡ some d)
      → IsOpen transport_size d × (d.nblocks ≡ nblocks)
  truncated nblocks d n none h m k e = cc
  truncated nblocks d n (some f) h m k e =
      subst (λ x. IsOpen transport_size x × (x.nblocks ≡ nblocks)) (some_injective e)
        (record { block_size = refl; small = h; sized = k f refl ∙ m }, refl)

  opened :
      (nblocks : ℕ) (d : Disk F)
      → nblocks * transport_size < 2 ^ 64
      → (o : Option F.File)
      → ((do
        file ← o
        file' ← F.ftruncate (nblocks * transport_size % 2 ^ 64) file
        some (record { file = file'; block_size = transport_size; nblocks = nblocks }))
          ≡ some d)
      → IsOpen transport_size d × (d.nblocks ≡ nblocks)
  opened nblocks d h none e = cc
  opened nblocks d h (some f) e =
      truncated nblocks d (nblocks * transport_size % 2 ^ 64)
        (F.ftruncate (nblocks * transport_size % 2 ^ 64) f) h (mod-eq_of_lt h)
        (λ f' r. regular.truncated (nblocks * transport_size % 2 ^ 64) f f' r) e

  -- An open file of whole blocks is ready.
  pub disk_open-IsOpen :
      (diskname nblocks : ℕ) (d : Disk F)
      → nblocks * transport_size < 2 ^ 64
      → disk_open F diskname nblocks ≡ some d
      → IsOpen transport_size d × (d.nblocks ≡ nblocks)
  unfolding disk_open
  disk_open-IsOpen diskname nblocks d h e = opened nblocks d h (F.open_file diskname) e

  -- Reading a block in range gives its bytes.
  pub disk_read_lem :
      (size b : ℕ) (d : Disk F)
      → IsOpen size d
      → b < d.nblocks
      → disk_read F b d ≡ some (disk_block size d b)
  unfolding disk_read
  disk_read_lem size b d i h =
      let got : ℕ × List ℕ → Option Block = λ p. if p.0 == d.block_size then some p.1 else none in
      rw (lt→leb b d.nblocks h) (
        ap (λ o. got (F.pread d.block_size o d.file)) (offset_whole size b d i h)
        ∙ ap (λ n. got (F.pread n (b * size) d.file)) i.block_size
        ∙ ap got (
            regular.reads size (b * size) d.file
              (omega (arith, i.sized, block_end size b d.nblocks h)))
        ∙ if_same size d.block_size (some (disk_block size d b)) none (sym i.block_size))

  -- Writing a block in range succeeds, and changes this block and no other.
  pub disk_write_lem :
      (size b : ℕ) (bytes : Block) (d : Disk F)
      → IsOpen size d
      → b < d.nblocks
      → length bytes ≡ size
      → (d' : Disk F) × (disk_write F b bytes d ≡ some d')
        × IsOpen size d'
        × (d'.nblocks ≡ d.nblocks)
        × ((c : ℕ) → disk_block size d' c ≡ (if c == b then bytes else disk_block size d c))
  unfolding disk_write
  disk_write_lem size b bytes d i h e =
      let (f', w, sized, view) =
        regular.writes bytes (b * size) d.file
          (omega (arith, e, i.sized, block_end size b d.nblocks h)) in
      let d' : Disk F = record d { file = f' } in
      let put : ℕ × F.File → Option (Disk F) =
        λ p. if p.0 == d.block_size then some (record d { file = p.1 }) else none in
      (
        d',
        rw (lt→leb b d.nblocks h) (
            ap (λ o. put (F.pwrite (take d.block_size bytes) o d.file)) (offset_whole size b d i h)
            ∙ ap (λ x. put (F.pwrite x (b * size) d.file))
                (take_whole d.block_size bytes (e ∙ sym i.block_size))
            ∙ ap put w
            ∙ if_same (length bytes) d.block_size (some d') none (e ∙ sym i.block_size)),
        record { block_size = i.block_size; small = i.small; sized = sized ∙ i.sized },
        refl,
        λ c.
            bytes_at-cong (c * size) size (regular.view f') _ (λ x l u. view x)
            ∙ written size b bytes (regular.view d.file) c e,
      )

  -- What a write leaves, read anywhere: the block written reads back, and every other block in range
  -- reads as before.
  pub disk_read-write :
      (size b c : ℕ) (bytes : Block) (d : Disk F)
      → IsOpen size d
      → b < d.nblocks
      → c < d.nblocks
      → length bytes ≡ size
      → (do d' ← disk_write F b bytes d; disk_read F c d')
        ≡ (if c == b then some bytes else disk_read F c d)
  disk_read-write size b c bytes d i h k e =
      let (d', run, i', same, blocks) = disk_write_lem size b bytes d i h e in
      ap (λ o. o >>= disk_read F c) run
      ∙ disk_read_lem size c d' i' (subst (λ n. c < n) (sym same) k)
      ∙ ap some (blocks c)
      ∙ some_if (c == b) bytes (disk_block size d c)
      ∙ ap (λ o. if c == b then some bytes else o) (sym (disk_read_lem size c d i k))

  unfoldable pub read_disk : ℕ → Disk F → Option (Block × Disk F)
  read_disk b d = do x ← disk_read F b d; some (x, d)

  abbrev pub disk_paging : ℕ → Backing
  unfolding read_disk
  disk_paging size = record {
    Store = Disk F;
    IsReady = IsOpen size;
    block_size = size;
    nblocks = λ d. d.nblocks;
    contents = disk_block size;
    read = read_disk;
    write = disk_write F;
    length-contents = λ d b i h. length-bytes_at (b * size) size (regular.view d.file);
    read_back = λ b d i h.
        (d, ap (λ o. o >>= (λ x. some (x, d))) (disk_read_lem size b d i h), i, refl, λ c. refl);
    write_through = λ b x d i h e. disk_write_lem size b x d i h e;
  }
