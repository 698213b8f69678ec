-- ===== src/Vmem/Raid.antt =====
-- The parity of ip6/lib/vmem/rrmem.c: a block is cut into a stripe for each host but one, which keeps
-- the bytewise parity of the stripes. Buffers are functions from positions to bytes; sizes and
-- counts are positive ints.
pub mod Last
pub mod Laws
pub mod Levels
pub mod Around
pub mod Whole
pub mod Repair
pub mod Restore
mod Tests
pub mod Stripes
use blue_bridge.Prelude.{
  ℕ, zero, suc, ◌+◌, ◌-◌, ◌*◌, ◌/◌, ◌%◌, ◌<◌, Option, none, some, Bool, true, false, ◌&&◌, ltb, leb,
  ◌==◌, if◌then◌else◌, update,
}
use blue_bridge.Bits.{bit_xor}

abbrev pub Buffer : Type 0
Buffer = ℕ → ℕ

-- `byte = byte ^ f(j)` for each j below n
unfoldable pub xor_all : (ℕ → ℕ) → ℕ → ℕ
xor_all f zero = 0
xor_all f (suc j) = bit_xor 8 (xor_all f j) (f j)

-- The same, without j = missing
unfoldable pub xor_others : (ℕ → ℕ) → ℕ → ℕ → ℕ
xor_others f missing zero = 0
xor_others f missing (suc j) =
    let rest = xor_others f missing j in if j == missing then rest else bit_xor 8 rest (f j)

-- `for (i = 0; i < n; i++) buffer[i] = f(i)`
unfoldable pub fill : (ℕ → ℕ) → ℕ → Buffer → Buffer
fill f zero buffer = buffer
fill f (suc i) buffer = update (fill f i buffer) i (f i)

-- The base of stripe j, as parity45 counts it up.
unfoldable pub parity_base : ℕ → ℕ → ℕ → ℕ
parity_base size stripes zero = 0
parity_base size stripes (suc j) =
    parity_base size stripes j + size / stripes + (if ltb j (size % stripes) then 1 else 0)

unfoldable pub parity45 : Buffer → ℕ → ℕ → Buffer → Buffer
parity45 bytes size stripes parity =
    let alloc = size / stripes in
    let parity' =
      fill (λ i. xor_all (λ j. bytes (i + parity_base size stripes j)) stripes) alloc parity in
    if ltb 0 (size % stripes)
    then update parity' alloc (xor_all (λ i. bytes (alloc + i * (alloc + 1))) (size % stripes))
    else parity'

-- Comparing a signed char with an unsigned byte: from 128 on they differ.
unfoldable pub char_equals : ℕ → ℕ → Bool
char_equals c b = ltb c 128 && (c == b)

-- Whether the first n bytes of the parity are right.
unfoldable pub check_bytes : (ℕ → Buffer) → ℕ → Buffer → ℕ → Bool
check_bytes stripes num_stripes parity zero = true
check_bytes stripes num_stripes parity (suc i) =
    let rest = check_bytes stripes num_stripes parity i in
    rest && char_equals (xor_all (λ j. stripes j i) num_stripes) (parity i)

unfoldable pub check_parity45 : (ℕ → Buffer) → ℕ → Buffer → ℕ → Bool
unfolding check_bytes
check_parity45 stripes num_stripes parity size =
    let alloc = size / num_stripes in
    check_bytes stripes num_stripes parity alloc
    && (if ltb 0 (size % num_stripes)
        then char_equals (xor_all (λ i. stripes i alloc) (size % num_stripes)) (parity alloc)
        else true)

unfoldable pub repair_stripe_from_parity45 :
    (repair : Buffer)
    → (stripes : ℕ → Buffer) → (parity : Buffer) → (missing num_stripes size : ℕ) → Buffer
repair_stripe_from_parity45 repair stripes parity missing num_stripes size =
    let alloc = size / num_stripes in
    let repair' =
      fill (λ i. bit_xor 8 (xor_others (λ j. stripes j i) missing num_stripes) (parity i)) alloc
        repair in
    if ltb missing (size % num_stripes)
    then update repair' alloc
        (bit_xor 8 (xor_others (λ i. stripes i alloc) missing (size % num_stripes)) (parity alloc))
    else repair'

-- The size of stripe i: `alloc` of rrmem_write and rrmem_read at that turn of the loop.
unfoldable pub stripe_alloc : ℕ → ℕ → ℕ → ℕ
stripe_alloc size stripes i = if leb (size % stripes) i then size / stripes else size / stripes + 1

-- memcpy of n bytes from `source + base`
unfoldable pub copy_from : Buffer → ℕ → ℕ → Buffer → Buffer
copy_from source base n target k = if ltb k n then source (base + k) else target k

-- memcpy of n bytes to `target + base`
unfoldable pub copy_to : Buffer → ℕ → ℕ → Buffer → Buffer
copy_to source base n target k =
    if leb base k && ltb k (base + n) then source (k - base) else target k

-- The loop of rrmem_write over the first `i` stripes, with its `base`.
unfoldable pub write_stripes : Buffer → ℕ → ℕ → (ℕ → Buffer) → ℕ → (ℕ → Buffer) × ℕ
write_stripes bytes size stripes wbufs zero = (wbufs, 0)
write_stripes bytes size stripes wbufs (suc i) =
    let (bufs, base) = write_stripes bytes size stripes wbufs i in
    let alloc = stripe_alloc size stripes i in
    (update bufs i (copy_from bytes base alloc (bufs i)), base + alloc)

-- The loop of rrmem_read over the first `i` stripes, with its `base`.
unfoldable pub read_stripes : (ℕ → Buffer) → ℕ → ℕ → Buffer → ℕ → Buffer × ℕ
read_stripes rbufs size stripes bytes zero = (bytes, 0)
read_stripes rbufs size stripes bytes (suc i) =
    let (target, base) = read_stripes rbufs size stripes bytes i in
    let alloc = stripe_alloc size stripes i in (copy_to (rbufs i) base alloc target, base + alloc)

-- What rrmem_write hands to write_raid_mem in RAID 4: a buffer for each host, the last the parity.
unfoldable pub raid4_write : Buffer → ℕ → (num_hosts : ℕ) → ℕ → Buffer
unfolding write_stripes
raid4_write bytes size num_hosts =
    let last = num_hosts - 1 in
    let wbufs = update (λ _ _. 0) last (parity45 bytes size last (λ _. 0)) in
    (write_stripes bytes size last wbufs last).0

-- What rrmem_read makes, in RAID 4, of the buffers that read_raid_mem filled, with the index of a
-- host that did not answer, if there is one.
unfoldable pub raid4_read :
    (rbufs : ℕ → Buffer) → (missing : Option ℕ) → (num_hosts size : ℕ) → Buffer → Buffer
unfolding read_stripes
raid4_read rbufs missing num_hosts size bytes =
    let last = num_hosts - 1 in
    let rbufs' : ℕ → Buffer = elim missing [
      | none ↦ rbufs
      | some m ↦
          if m == last
          then rbufs
          else update rbufs m (repair_stripe_from_parity45 (rbufs m) rbufs (rbufs last) m last size)
    ] in
    (read_stripes rbufs' size last bytes last).0
