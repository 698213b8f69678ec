-- ===== src/Client/Bulk.antt =====
-- The bulk operations of ip6/lib/client_lib.c: full batches, an incomplete one, and what is left.
-- The addresses are a list of at least as many as the calls read.
use blue_bridge.Prelude.{
  ℕ, zero, suc, ◌+◌, ◌-◌, ◌*◌, ◌/◌, ◌%◌, ◌^◌, Option, none, some, List, [], ◌∷◌, take, drop, ltb,
  leb, ◌==◌, if◌then◌else◌, ◌>>=◌,
}
use blue_bridge.Types.{Memaddr, MemaddrBlock, Sockaddr, block_size}
use blue_bridge.Server.{Server}
use blue_bridge.Net.{Net}
use blue_bridge.Client.{
  addr_list, read_rmem, write_rmem, batch_read, batch_write, batch_size, exit_success, exit_failure,
}

module _ (fresh : Server → ℕ) where
  -- write_rmem at the first address of the list
  unfoldable pub write_first : Sockaddr → List Memaddr → List ℕ → Net → Option (Sockaddr × Net)
  write_first target [] payload net = none
  write_first target (a ∷ addrs) payload net = write_rmem fresh target a payload net

  unfoldable pub write_batches :
      (batches i : ℕ) → Sockaddr → List Memaddr → List ℕ → Net → Option (Sockaddr × Net)
  write_batches zero i target addrs payload net = some (target, net)
  write_batches (suc batches) i target addrs payload net = do
    let chunk_addrs = take batch_size (drop (i * batch_size) addrs)
    let chunks = drop (block_size * i * batch_size) payload
    (target', net') ← batch_write fresh target chunk_addrs chunks block_size net
    write_batches batches (i + 1) target' addrs payload net'

  unfoldable pub write_bulk_rmem :
      Sockaddr
      → List Memaddr
      → (num_addrs : ℕ) → List ℕ
      → (size : ℕ) → Net
      → Option (ℕ × (Sockaddr × Net))
  unfolding write_batches
  write_bulk_rmem target addrs num_addrs payload size net =
      let num_chunks = size / block_size in
      let chunk_residual = size % block_size % 2 ^ 16 in
      if leb size block_size
      then (do
        state ← write_first target addrs (take (size % 2 ^ 16) payload) net
        some (exit_success, state))
      else if ltb num_addrs num_chunks
      then some (exit_failure, (target, net))
      else (do
        let batches = num_chunks / batch_size
        let batch_residual = num_chunks % batch_size % 2 ^ 16
        (target1, net1) ← write_batches batches 0 target addrs payload net
        let offset = num_chunks - batch_residual
        (target2, net2) ←
            batch_write fresh target1 (take batch_residual (drop offset addrs))
              (drop (block_size * offset) payload) block_size net1
        state ←
            (if chunk_residual == 0
              then some (target2, net2)
              else write_first target2 addrs
                  (take chunk_residual (drop (block_size * (offset + 1)) payload)) net2)
        some (exit_success, state))

  -- read_rmem at the first address of the list
  unfoldable pub read_first : Sockaddr → List Memaddr → ℕ → ℕ → Net → Option (Sockaddr × Net)
  read_first target [] rx_buf len net = none
  read_first target (a ∷ addrs) rx_buf len net = do
    (bytes, state) ← read_rmem fresh target a rx_buf len net
    some state

  unfoldable pub read_batches : (batches i : ℕ) → Sockaddr → List Memaddr → ℕ → Net → Option Net
  read_batches zero i target addrs rx_buf net = some net
  read_batches (suc batches) i target addrs rx_buf net = do
    net' ←
        batch_read fresh target (take batch_size (drop (i * batch_size) addrs))
          (rx_buf + block_size * i * batch_size) block_size net
    read_batches batches (i + 1) target addrs rx_buf net'

  unfoldable pub read_bulk_rmem :
      Sockaddr
      → List Memaddr
      → (num_addrs : ℕ) → (rx_buf size : ℕ) → Net
      → Option (ℕ × (Sockaddr × Net))
  unfolding read_batches
  read_bulk_rmem target addrs num_addrs rx_buf size net =
      let num_chunks = size / block_size in
      let chunk_residual = size % block_size % 2 ^ 16 in
      if leb size block_size
      then (do
        state ← read_first target addrs rx_buf (size % 2 ^ 16) net
        some (exit_success, state))
      else if ltb num_addrs num_chunks
      then some (exit_failure, (target, net))
      else (do
        let batches = num_chunks / batch_size % 2 ^ 32
        let batch_residual = num_chunks % batch_size
        net1 ← read_batches batches 0 target addrs rx_buf net
        let offset = num_chunks - batch_residual
        net2 ←
            batch_read fresh target (take batch_residual (drop offset addrs))
              (rx_buf + block_size * offset) block_size net1
        state ←
            (if chunk_residual == 0
              then some (target, net2)
              else read_first target addrs (rx_buf + block_size * (offset + 1)) chunk_residual net2)
        some (exit_success, state))

  -- Both ignore what the bulk operation returns, and report success.
  unfoldable pub write_uniform_rmem :
      Sockaddr → MemaddrBlock → List ℕ → (size : ℕ) → Net → Option (ℕ × (Sockaddr × Net))
  unfolding write_bulk_rmem
  write_uniform_rmem target block payload size net = do
    let addrs = addr_list block.memaddr block.offset (block.length - block.offset)
    let num_addrs = (block.length + 2 ^ 64 - block.offset) % 2 ^ 64
    (code, state) ← write_bulk_rmem target addrs num_addrs payload size net
    some (exit_success, state)

  unfoldable pub read_uniform_rmem :
      Sockaddr → MemaddrBlock → (rx_buf size : ℕ) → Net → Option (ℕ × (Sockaddr × Net))
  unfolding read_bulk_rmem
  read_uniform_rmem target block rx_buf size net = do
    let addrs = addr_list block.memaddr block.offset (block.length - block.offset)
    let num_addrs = (block.length + 2 ^ 64 - block.offset) % 2 ^ 64
    (code, state) ← read_bulk_rmem target addrs num_addrs rx_buf size net
    some (exit_success, state)
