-- ===== src/Rpc/Caller.antt =====
-- test_increment_array of ip6/apps/thrift/ddc_client.c. The call itself, which Thrift generates, is
-- the argument `rpc`: what the service at the other end returns, and the network after it. The
-- addresses of the local arrays are what malloc returns, and `offset` is what the code leaves
-- uninitialised in the result's block.
pub mod Loops
pub mod Service
pub mod Whole
use blue_bridge.Prelude.{ℕ, zero, suc, ◌+◌, Option, some, List, [], Bool, true, ◌&&◌, ◌==◌, ◌>>=◌}
use blue_bridge.Memory.{Bytes, bytes_at}
use blue_bridge.Types.{Memaddr, MemaddrBlock, Sockaddr}
use blue_bridge.Server.{Server}
use blue_bridge.Net.{Net}
use blue_bridge.Client.{free_rmem}
use blue_bridge.Client.Bulk.{read_uniform_rmem, write_uniform_rmem}
use blue_bridge.Rpc.{get_pointer, marshall_shmem_ptr, populate_array}
use blue_bridge.Rpc.Ddc.{argument}

-- Whether no element of the result differs from the array's plus `incr_val`, compared as ints.
unfoldable pub no_failure : (result_arr arr arr_len incr_val : ℕ) → Bytes → Bool
no_failure result_arr arr zero incr_val m = true
no_failure result_arr arr (suc n) incr_val m =
    (m result_arr == m arr + incr_val) && no_failure (result_arr + 1) (arr + 1) n incr_val m

module _ (fresh : Server → ℕ) (host : Memaddr)
    (rpc : (pointer : List ℕ) → (value length : ℕ) → Net → Option (List ℕ × Net)) where
  -- With `print`, less the output and the clock: whether no failure is printed.
  unfoldable pub test_increment_array :
      (arr result_arr offset : ℕ) → (size : ℕ) → Sockaddr → Net → Option (Bool × (Sockaddr × Net))
  unfolding get_pointer populate_array marshall_shmem_ptr argument no_failure
  test_increment_array arr result_arr offset size target net = do
    (args_addr, (target1, net1)) ← get_pointer fresh target host size net
    let net2 = record net1 { memory = populate_array arr size 0 net1.memory }
    (code3, (target3, net3)) ←
        write_uniform_rmem fresh target1 args_addr (bytes_at arr size net2.memory) size net2
    (result_ptr, net4) ← rpc (marshall_shmem_ptr [] args_addr.memaddr) 1 size net3
    let result_addr = argument result_ptr size offset
    (code5, (target5, net5)) ← read_uniform_rmem fresh target3 result_addr result_arr size net4
    let matches = no_failure result_arr arr size 1 net5.memory
    (freed6, (target6, net6)) ← free_rmem fresh target5 args_addr.memaddr net5
    (freed7, (target7, net7)) ← free_rmem fresh target6 result_addr.memaddr net6
    some (matches, (target7, net7))
