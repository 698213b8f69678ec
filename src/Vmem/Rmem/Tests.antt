-- ===== src/Vmem/Rmem/Tests.antt =====
-- Two blocks of one byte on two servers (ip6/lib/vmem/rmem.c).
use blue_bridge.Prelude.{ℕ, ◌≡◌, refl, inl, arith, none, some, [], ◌∷◌, ◌==◌, if◌then◌else◌}
use blue_bridge.Types.{Sockaddr}
use blue_bridge.Server.{Server}
use blue_bridge.Vmem.Rmem.{Rmem, IsRemote, rmem_write}
use blue_bridge.Vmem.Rmem.Allocation.{rmem_allocate}
use blue_bridge.Vmem.Rmem.Allocation.Ready.{rmem_allocate-IsRemote}
use blue_bridge.Vmem.Rmem.Paging.{remote_block, read_remote, rmem_write_lem, read_remote_lem}

abbrev host : ℕ → Sockaddr
host i = record { addr = record { subid = i; cmd = 0; args = 0; paddr = 0 }; port = 5000 }

abbrev next_block : Server → ℕ
next_block s = 64

abbrev two_blocks : Rmem
two_blocks = record {
  mem_list = λ b. record { subid = b; cmd = 0; args = 0; paddr = 64 };
  block_size = 1;
  nblocks = 2;
  target = host 0;
  net = record {
    servers = λ _. record { memory = λ _. 0; heap = λ _. none; sent = [] };
    addresses = host;
    client = host 9;
    ring = [];
    memory = λ _. 0;
  };
}

two_blocks-IsRemote : IsRemote 1 two_blocks
two_blocks-IsRemote = record {
  block_size = refl;
  transport = refl;
  small = omega arith;
  idle = refl;
  apart = λ b c h k ne. inl ne;
}

rmem_write_lem_example :
    (r' : Rmem) × (rmem_write next_block 1 (7 ∷ []) two_blocks ≡ some r')
    × IsRemote 1 r'
    × (r'.nblocks ≡ 2)
    × ((c : ℕ) → remote_block r' c ≡ (if c == 1 then 7 ∷ [] else remote_block two_blocks c))
rmem_write_lem_example =
    rmem_write_lem next_block 200 1 1 (7 ∷ []) two_blocks two_blocks-IsRemote (omega arith) refl

read_remote_lem_example :
    (r' : Rmem) × (read_remote next_block 200 1 two_blocks ≡ some (remote_block two_blocks 1, r'))
    × IsRemote 1 r'
    × (r'.nblocks ≡ 2)
    × ((c : ℕ) → remote_block r' c ≡ remote_block two_blocks c)
read_remote_lem_example =
    read_remote_lem next_block 200 1 1 two_blocks two_blocks-IsRemote (omega arith)

-- Three blocks of two hosts.
rmem_allocate-IsRemote_example :
    (r : Rmem) × (rmem_allocate next_block
        ((host 1).addr ∷ (host 2).addr ∷ [])
        3
        two_blocks.mem_list
        (host 0)
        two_blocks.net
      ≡ some r)
    × IsRemote 1 r
    × (r.nblocks ≡ 3)
rmem_allocate-IsRemote_example =
    rmem_allocate-IsRemote next_block (host 1).addr ((host 2).addr ∷ []) 3 two_blocks.mem_list
      (host 0) two_blocks.net (omega arith) (refl, (refl, tt)) (λ j. refl) (λ s. omega arith) refl
