-- ===== src/Vmem/Rmem/Allocation.antt =====
-- fill_rmem, rmem_allocate and rmem_deallocate of ip6/lib/vmem/rmem.c: the blocks of a remote memory
-- over its hosts. `hosts` are the hosts of the configuration, in the order of their numbers.
pub mod Ready
pub mod Spread
use blue_bridge.Prelude.{
  ℕ, zero, suc, ◌+◌, ◌-◌, ◌*◌, ◌/◌, ◌%◌, ◌^◌, ◌≤◌, ◌<◌, ◌≡◌, ◌≢◌, refl, sym, ap, ap₂, ◌∙◌, Bool,
  Bool-cases, true, false, inl, inr, Option, some, List, [], ◌∷◌, length, update, has, ltb, ltb→lt,
  ltb→le, ◌==◌, eq_of_==, if◌then◌else◌, ◌>>=◌, arith,
}
use blue_bridge.Types.{Memaddr, Sockaddr, block_size}
use blue_bridge.Server.{Server}
use blue_bridge.Net.{Net}
use blue_bridge.Client.{
  addr_list, request_blocks, allocate_bulk_rmem, allocate_uniform_rmem, free_rmem,
}
use blue_bridge.Client.Allocation.{Allocated, allocate_uniform_rmem-Allocated}
use blue_bridge.Client.Readback.{Apart}
use blue_bridge.Vmem.Rmem.{Rmem, IsRemote}

-- memcpy(&memList[offset], temp, ...)
unfoldable pub copy_list : (offset : ℕ) → List Memaddr → (ℕ → Memaddr) → ℕ → Memaddr
copy_list offset [] mem_list = mem_list
copy_list offset (a ∷ temp) mem_list = copy_list (offset + 1) temp (update mem_list offset a)

module _ (fresh : Server → ℕ) where
  -- The loop of fill_rmem from host `i` on.
  unfoldable pub fill_hosts :
      (num_hosts nblocks split i : ℕ)
      → List Memaddr
      → (ℕ → Memaddr)
      → Sockaddr
      → Net
      → Option ((ℕ → Memaddr) × (Sockaddr × Net))
  unfolding copy_list
  fill_hosts num_hosts nblocks split i [] mem_list target net = some (mem_list, (target, net))
  fill_hosts num_hosts nblocks split i (host ∷ hosts) mem_list target net = do
    let offset = split * i
    let count = if i == num_hosts - 1 then nblocks - offset else split
    (temp, (target', net')) ← allocate_bulk_rmem fresh (record target { addr = host }) count net
    fill_hosts num_hosts nblocks split (i + 1) hosts (copy_list offset temp mem_list) target' net'

  -- `garbage` is what malloc leaves in the list. The parameter is an int: `nblocks` stands for one that
  -- is not negative, below 2 ^ 31, and is then the caller's number of pages.
  unfoldable pub rmem_allocate :
      (hosts : List Memaddr) (nblocks : ℕ) (garbage : ℕ → Memaddr) → Sockaddr → Net → Option Rmem
  unfolding fill_hosts
  rmem_allocate hosts nblocks garbage target net = do
    let split = nblocks / length hosts
    (mem_list, (target', net')) ← fill_hosts (length hosts) nblocks split 0 hosts garbage target net
    some (record {
      mem_list = mem_list;
      block_size = block_size;
      nblocks = nblocks;
      target = target';
      net = net';
    })

  -- The loop of rmem_deallocate from host `i` on, `n` hosts.
  unfoldable pub free_hosts :
      (split n i : ℕ) → (ℕ → Memaddr) → Sockaddr → Net → Option (Sockaddr × Net)
  free_hosts split zero i mem_list target net = some (target, net)
  free_hosts split (suc n) i mem_list target net = do
    (a, (target', net')) ← free_rmem fresh target (mem_list (split * i)) net
    free_hosts split n (i + 1) (update mem_list (split * i) a) target' net'

  unfoldable pub rmem_deallocate : (num_hosts : ℕ) → Rmem → Option (Sockaddr × Net)
  unfolding free_hosts
  rmem_deallocate num_hosts r =
      free_hosts (r.nblocks / num_hosts) num_hosts 0 r.mem_list r.target r.net
