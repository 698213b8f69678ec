-- ===== src/Vmem/Backing.antt =====
-- What ip6/lib/vmem/page_table.c needs of the memory behind its frames (mem, disk, rmem or rrmem): a
-- number of blocks of one size that read back what was written. `none` is an abort.
use blue_bridge.Prelude.{ℕ, ◌<◌, ◌≡◌, Option, some, List, length, ◌==◌, if◌then◌else◌}

-- The bytes of one block.
abbrev pub Block : Type 0
Block = List ℕ

pub record Backing : Type 1 where
  pub Store : Type 0
  pub IsReady : Store → Type 0
  pub block_size : ℕ
  pub nblocks : Store → ℕ
  pub contents : Store → ℕ → Block
  pub read : ℕ → Store → Option (Block × Store)
  pub write : ℕ → Block → Store → Option Store
  pub length-contents :
      (s : Store) (b : ℕ) → IsReady s → b < nblocks s → length (contents s b) ≡ block_size
  pub read_back :
      (b : ℕ) (s : Store)
      → IsReady s
      → b < nblocks s
      → (s' : Store) × (read b s ≡ some (contents s b, s'))
        × IsReady s'
        × (nblocks s' ≡ nblocks s)
        × ((c : ℕ) → contents s' c ≡ contents s c)
  pub write_through :
      (b : ℕ) (d : Block) (s : Store)
      → IsReady s
      → b < nblocks s
      → length d ≡ block_size
      → (s' : Store) × (write b d s ≡ some s')
        × IsReady s'
        × (nblocks s' ≡ nblocks s)
        × ((c : ℕ) → contents s' c ≡ (if c == b then d else contents s c))
