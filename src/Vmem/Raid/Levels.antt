-- ===== src/Vmem/Raid/Levels.antt =====
-- ip6/lib/vmem/rrmem.c: rrmem_write and rrmem_read at the RAID levels 0, 4 and 5, up to the buffers that
-- write_raid_mem sends and read_raid_mem fills. A block's index is a positive int.
use blue_bridge.Prelude.{
  ℕ, zero, suc, ◌+◌, ◌-◌, ◌%◌, Option, none, some, Bool, ◌&&◌, ◌||◌, ltb, leb, ◌==◌, if◌then◌else◌,
  update,
}
use blue_bridge.Vmem.Raid.{
  Buffer, parity45, stripe_alloc, copy_from, copy_to, write_stripes, read_stripes,
  repair_stripe_from_parity45, raid4_write, raid4_read,
}

abbrev pub max_hosts : ℕ
max_hosts = 5

unfoldable pub raid0_write : Buffer → ℕ → (num_hosts : ℕ) → ℕ → Buffer
unfolding write_stripes
raid0_write bytes size num_hosts = (write_stripes bytes size num_hosts (λ _ _. 0) num_hosts).0

unfoldable pub raid0_read : (rbufs : ℕ → Buffer) → (num_hosts size : ℕ) → Buffer → Buffer
unfolding read_stripes
raid0_read rbufs num_hosts size bytes = (read_stripes rbufs size num_hosts bytes num_hosts).0

-- The stripe that host i keeps when host `p` keeps the parity: `i - t`
abbrev pub rank : ℕ → ℕ → ℕ
rank p i = i - (if ltb p i then 1 else 0)

-- The loops of RAID 5 over the first `i` hosts, with `base`
unfoldable pub write_around : Buffer → (size stripes p : ℕ) → (ℕ → Buffer) → ℕ → (ℕ → Buffer) × ℕ
write_around bytes size stripes p wbufs zero = (wbufs, 0)
write_around bytes size stripes p wbufs (suc i) =
    let (bufs, base) = write_around bytes size stripes p wbufs i in
    let alloc = stripe_alloc size stripes (rank p i) in
    if i == p
    then (bufs, base)
    else (update bufs i (copy_from bytes base alloc (bufs i)), base + alloc)

unfoldable pub read_around : (ℕ → Buffer) → (size stripes p : ℕ) → Buffer → ℕ → Buffer × ℕ
read_around rbufs size stripes p bytes zero = (bytes, 0)
read_around rbufs size stripes p bytes (suc i) =
    let (target, base) = read_around rbufs size stripes p bytes i in
    let alloc = stripe_alloc size stripes (rank p i) in
    if i == p then (target, base) else (copy_to (rbufs i) base alloc target, base + alloc)

unfoldable pub raid5_write : Buffer → ℕ → (num_hosts block : ℕ) → ℕ → Buffer
unfolding write_around
raid5_write bytes size num_hosts block =
    let p = block % num_hosts in
    let wbufs = update (λ _ _. 0) p (parity45 bytes size (num_hosts - 1) (λ _. 0)) in
    (write_around bytes size (num_hosts - 1) p wbufs num_hosts).0

unfoldable pub raid5_read :
    (rbufs : ℕ → Buffer) → (missing : Option ℕ) → (num_hosts size block : ℕ) → Buffer → Buffer
unfolding read_around
raid5_read rbufs missing num_hosts size block bytes =
    let p = block % num_hosts in
    let rbufs' : ℕ → Buffer = elim missing [
      | none ↦ rbufs
      | some m ↦
          if m == p
          then rbufs
          else update rbufs m
              (repair_stripe_from_parity45 (rbufs m) rbufs (rbufs p) m (num_hosts - 1) size)
    ] in
    (read_around rbufs' size (num_hosts - 1) p bytes num_hosts).0

-- What rrmem_write does: write_raid_mem with its buffers and the number of replies it needs.
pub data Written : Type 0 where
  sends : (wbufs : ℕ → Buffer) → (needed : ℕ) → Written
  write_aborts : Written
  write_exits : Written

-- What rrmem_read leaves in the caller's buffer.
pub data Answer : Type 0 where
  gives : Buffer → Answer
  read_aborts : Answer
  read_exits : Answer

-- assert(get_num_hosts() >= 2 && get_num_hosts() <= MAX_HOSTS)
abbrev pub enough_hosts : ℕ → Bool
enough_hosts num_hosts = leb 2 num_hosts && leb num_hosts max_hosts

unfoldable pub rrmem_write : (raid nblocks num_hosts size block : ℕ) → Buffer → Written
rrmem_write raid nblocks num_hosts size block bytes =
    if leb nblocks block
    then write_aborts
    else if (raid == 0) || ((raid == 4) || (raid == 5))
    then (if enough_hosts num_hosts
        then (if raid == 0
            then sends (raid0_write bytes size num_hosts) num_hosts
            else if raid == 4
            then sends (raid4_write bytes size num_hosts) (num_hosts - 1)
            else sends (raid5_write bytes size num_hosts block) (num_hosts - 1))
        else write_aborts)
    else write_exits

-- `rbufs` and `missing` are what read_raid_mem fills and returns. At another level the buffer is left
-- as it was.
unfoldable pub rrmem_read :
    (raid nblocks num_hosts size block : ℕ)
    → (rbufs : ℕ → Buffer) → (missing : Option ℕ) → Buffer
    → Answer
rrmem_read raid nblocks num_hosts size block rbufs missing bytes =
    if leb nblocks block
    then read_aborts
    else if (raid == 0) || ((raid == 4) || (raid == 5))
    then (if enough_hosts num_hosts
        then (if raid == 0
            then elim missing [
              | none ↦ gives (raid0_read rbufs num_hosts size bytes)
              | some m ↦ read_exits
            ]
            else if raid == 4
            then gives (raid4_read rbufs missing num_hosts size bytes)
            else gives (raid5_read rbufs missing num_hosts size block bytes))
        else read_aborts)
    else gives bytes
