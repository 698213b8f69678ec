-- ===== src/Vmem/Raid/Tests.antt =====
-- A block of five bytes over three hosts (ip6/lib/vmem/rrmem.c), the second of them lost.
use blue_bridge.Prelude.{ℕ, ◌*◌, ◌%◌, ◌==◌, if◌then◌else◌}
use blue_bridge.Vmem.Raid.{Buffer}
use blue_bridge.Vmem.Raid.Levels.{raid5_write}

abbrev block : Buffer
block k = k * 77 % 256

abbrev answers : ℕ → Buffer
answers j = if j == 1 then (λ _. 0) else raid5_write block 5 3 2 j
