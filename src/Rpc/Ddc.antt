-- ===== src/Rpc/Ddc.antt =====
-- The service of ip6/apps/thrift/ddc_simple_arr_comp_server.c, whose arrays stay in remote memory.
-- `host` is the server that get_pointer picks. What the code leaves of a block uninitialised is an
-- argument, as is the address of each local array, which malloc returns and which fits the client's
-- memory; lengths are those that are not negative.
pub mod Add
pub mod Increment
use blue_bridge.Prelude.{
  ℕ, zero, suc, ◌+◌, ◌-◌, ◌/◌, ◌%◌, Option, some, List, [], ◌++◌, update, ◌==◌, if◌then◌else◌,
  ◌>>=◌,
}
use blue_bridge.Memory.{Bytes, bytes_at}
use blue_bridge.Types.{Memaddr, MemaddrBlock, Sockaddr, block_size}
use blue_bridge.Types.Codec.{memaddr_bytes}
use blue_bridge.Server.{Server}
use blue_bridge.Net.{Net}
use blue_bridge.Client.Bulk.{read_uniform_rmem, write_uniform_rmem}
use blue_bridge.Rpc.{get_pointer, marshall_shmem_ptr, unmarshall_shmem_ptr}

-- `int_arr[i] += value` for the `n` bytes from `int_arr` on
unfoldable pub add_value : (int_arr n value : ℕ) → Bytes → Bytes
add_value int_arr zero value m = m
add_value int_arr (suc n) value m =
    add_value (int_arr + 1) n value (update m int_arr ((m int_arr + value) % 256))

-- `result_array[i] = arr1[i] + arr2[i]` for `n` bytes
unfoldable pub add_elements : (arr1 arr2 result_array n : ℕ) → Bytes → Bytes
add_elements arr1 arr2 result_array zero m = m
add_elements arr1 arr2 result_array (suc n) m =
    add_elements (arr1 + 1) (arr2 + 1) (result_array + 1) n
      (update m result_array ((m arr1 + m arr2) % 256))

-- The block of an argument: its length comes from the length of the array.
unfoldable pub argument : (pointer : List ℕ) → (length offset : ℕ) → MemaddrBlock
unfolding unmarshall_shmem_ptr
argument pointer length offset = record {
  memaddr = unmarshall_shmem_ptr pointer;
  length = if length == 0 then 1 else 1 + (length - 1) / block_size;
  offset = offset;
}

module _ (fresh : Server → ℕ) (host : Memaddr) where
  -- The 16 bytes behind the pointer are those of the block's first field, the pointer again.
  unfoldable pub increment_array :
      (int_arr offset : ℕ)
      → Sockaddr
      → (pointer : List ℕ) → (value length : ℕ) → Net
      → Option (List ℕ × (Sockaddr × Net))
  unfolding get_pointer argument marshall_shmem_ptr memaddr_bytes add_value
  increment_array int_arr offset target pointer value length net = do
    (result_addr, (target1, net1)) ← get_pointer fresh target host length net
    (code2, (target2, net2)) ←
        read_uniform_rmem fresh target1 (argument pointer length offset) int_arr length net1
    let net3 = record net2 { memory = add_value int_arr length value net2.memory }
    (code4, (target4, net4)) ←
        write_uniform_rmem fresh target2 result_addr (bytes_at int_arr length net3.memory) length
          net3
    some (
      marshall_shmem_ptr [] result_addr.memaddr ++ memaddr_bytes result_addr.memaddr,
      (target4, net4),
    )

  unfoldable pub add_arrays :
      (arr1 arr2 result_array offset1 offset2 : ℕ)
      → Sockaddr
      → (array1 array2 : List ℕ) → (length : ℕ) → Net
      → Option (List ℕ × (Sockaddr × Net))
  unfolding get_pointer argument marshall_shmem_ptr add_elements
  add_arrays arr1 arr2 result_array offset1 offset2 target array1 array2 length net = do
    (result_addr, (target1, net1)) ← get_pointer fresh target host length net
    (code2, (target2, net2)) ←
        read_uniform_rmem fresh target1 (argument array1 length offset1) arr1 length net1
    (code3, (target3, net3)) ←
        read_uniform_rmem fresh target2 (argument array2 length offset2) arr2 length net2
    let net4 = record net3 { memory = add_elements arr1 arr2 result_array length net3.memory }
    (code5, (target5, net5)) ←
        write_uniform_rmem fresh target3 result_addr (bytes_at result_array length net4.memory)
          length net4
    some (marshall_shmem_ptr [] result_addr.memaddr, (target5, net5))

  -- Neither the length nor the offset of the argument's block is set.
  unfoldable pub no_op :
      (int_arr args_length offset : ℕ)
      → Sockaddr
      → (num_array : List ℕ) → (length : ℕ) → Net
      → Option (List ℕ × (Sockaddr × Net))
  unfolding get_pointer marshall_shmem_ptr unmarshall_shmem_ptr
  no_op int_arr args_length offset target num_array length net = do
    (block, (target1, net1)) ← get_pointer fresh target host length net
    let result_addr = record block { length = length }
    let args_addr : MemaddrBlock = record {
      memaddr = unmarshall_shmem_ptr num_array;
      length = args_length;
      offset = offset;
    }
    (code2, (target2, net2)) ← read_uniform_rmem fresh target1 args_addr int_arr length net1
    (code3, (target3, net3)) ←
        write_uniform_rmem fresh target2 result_addr (bytes_at int_arr length net2.memory) length
          net2
    some (marshall_shmem_ptr [] block.memaddr, (target3, net3))
