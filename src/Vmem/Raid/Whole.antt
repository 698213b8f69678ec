-- ===== src/Vmem/Raid/Whole.antt =====
-- rrmem_write and then rrmem_read (ip6/lib/vmem/rrmem.c) at every level.
use blue_bridge.Prelude.{◌⊎◌, ℕ, ◌-◌, ◌<◌, ◌≡◌, ◌≢◌, Option, none, some}
use blue_bridge.Vmem.Raid.{Buffer, raid4_write}
use blue_bridge.Vmem.Raid.Levels.{raid0_write, raid5_write, Answer, gives}

-- The levels that are implemented.
pub data Level : Type 0 where
  striping : Level
  fixed_parity : Level
  rotating_parity : Level

abbrev pub raid_of : Level → ℕ
raid_of striping = 0
raid_of fixed_parity = 4
raid_of rotating_parity = 5

-- The host that may be missing, of `num_hosts`, when a block whose parity is at host `p` is read. The
-- repair in RAID 5 takes the wrong buffers unless the last host keeps the parity.
abbrev pub Survives : Level → Option ℕ → (num_hosts p : ℕ) → Type 0
Survives striping none num_hosts p = Unit {0}
Survives striping (some m) num_hosts p = ⊥
Survives fixed_parity missing num_hosts p = Unit {0}
Survives rotating_parity none num_hosts p = Unit {0}
Survives rotating_parity (some m) num_hosts p =
    (m ≡ p) ⊎ ((p ≡ num_hosts - 1) × (m ≢ p) × (m < num_hosts))

abbrev pub sent : Level → Buffer → (size num_hosts block : ℕ) → ℕ → Buffer
sent striping bytes size num_hosts block = raid0_write bytes size num_hosts
sent fixed_parity bytes size num_hosts block = raid4_write bytes size num_hosts
sent rotating_parity bytes size num_hosts block = raid5_write bytes size num_hosts block

abbrev pub needed : Level → ℕ → ℕ
needed striping num_hosts = num_hosts
needed fixed_parity num_hosts = num_hosts - 1
needed rotating_parity num_hosts = num_hosts - 1

-- What rrmem_read gives for the block.
pub record ReadsBack (bytes : Buffer) (size : ℕ) (answer : Answer) : Type 0 where
  pub result : Buffer
  pub returns : answer ≡ gives result
  pub whole : (k : ℕ) → k < size → result k ≡ bytes k
