-- ===== src/Rpc.antt =====
-- ip6/apps/thrift: remote procedure calls whose arguments and results stay in remote memory, and
-- the same calls with the arrays in the messages. This file is thrift_utils.c; GByteArray, which is
-- GLib's, is a list of bytes.
pub mod Arguments
pub mod Caller
pub mod Ddc
pub mod Pointers
pub mod Tcp
mod Tests
use blue_bridge.Prelude.{
  ℕ, zero, suc, ◌+◌, ◌-◌, ◌*◌, ◌/◌, ◌%◌, ◌^◌, Option, none, some, List, [], ◌∷◌, ◌++◌, length,
  get_elem?, ltb, ◌==◌, if◌then◌else◌, Bool, true, false, update,
}
use blue_bridge.Memory.{Bytes}
use blue_bridge.Types.{Memaddr, MemaddrBlock, Sockaddr, block_size}
use blue_bridge.Types.Codec.{le_bytes, memaddr_of}
use blue_bridge.Server.{Server}
use blue_bridge.Net.{Net}
use blue_bridge.Client.{allocate_uniform_rmem}

-- gen_rdm_ip6_target of client_lib.c: `rand` is what rand() returns, and no host stands behind the
-- end of the list.
unfoldable pub gen_rdm_ip6_target : List Memaddr → (rand : ℕ) → Option Memaddr
gen_rdm_ip6_target hosts rand = get_elem? hosts (rand % length hosts % 256)

-- A 32-bit signed integer, given by its bits, as a 64-bit unsigned one.
unfoldable pub sign_extended : ℕ → ℕ
sign_extended n = if ltb n (2 ^ 31) then n else n + (2 ^ 64 - 2 ^ 32)

-- The blocks that get_pointer asks for, an int
unfoldable pub num_ptrs : (size : ℕ) → ℕ
num_ptrs size =
    if size == 0 then 1 else (size + block_size + 2 ^ 64 - 1) % 2 ^ 64 / block_size % 2 ^ 32

module _ (fresh : Server → ℕ) where
  -- The target keeps its port. gen_rdm_ip6_target returns the picked address by value, where
  -- get_pointer, as it is written, wants a pointer to one: that address, which it means to pass on, is
  -- the argument `host`.
  unfoldable pub get_pointer :
      Sockaddr → (host : Memaddr) → (size : ℕ) → Net → Option (MemaddrBlock × (Sockaddr × Net))
  unfolding num_ptrs sign_extended
  get_pointer target host size =
      allocate_uniform_rmem fresh (record target { addr = host }) (sign_extended (num_ptrs size))

-- The fields of the address, appended one after the other.
unfoldable pub marshall_shmem_ptr : List ℕ → Memaddr → List ℕ
marshall_shmem_ptr ptr a =
    ptr ++ le_bytes 2 a.subid ++ le_bytes 2 a.cmd ++ le_bytes 4 a.args ++ le_bytes 8 a.paddr

-- The first 16 bytes; those that a shorter array lacks are read as zero here.
unfoldable pub unmarshall_shmem_ptr : List ℕ → Memaddr
unfolding memaddr_of
unmarshall_shmem_ptr = memaddr_of

-- The array without `random`: the next number leaves 255 out.
unfoldable pub populate_array : (array array_len num : ℕ) → Bytes → Bytes
populate_array array zero num m = m
populate_array array (suc n) num m =
    populate_array (array + 1) n ((num + 1) % 256 % 255) (update m array num)
