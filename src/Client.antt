-- ===== src/Client.antt =====
-- ip6/lib/client_lib.c: the operations on remote memory. Each one returns the new target, which the
-- receive overwrites with the address that the reply came from. A read's buffer is an address of
-- the client's memory, a write's payload a list of bytes. `none` is an operation that waits for a
-- packet for ever. What a read or a write sets in the caller's address is not handed back: every
-- call sets the command first, and no server reads an argument that a call did not set.
pub mod Allocation
pub mod Await
pub mod Batches
pub mod Bulk
pub mod Burst
pub mod Chunk
pub mod Counts
pub mod Fetch
pub mod Fetches
pub mod Readback
pub mod RoundTrip
pub mod Runs
pub mod Single
pub mod Uniform
mod Tests
use blue_bridge.Prelude.{
  ℕ, zero, suc, ◌+◌, ◌-◌, ◌*◌, ◌/◌, ◌%◌, ◌^◌, Bool, true, false, Option, none, some, List, [], ◌∷◌,
  length, take, drop, map, update, ltb, leb, ◌==◌, if◌then◌else◌, ◌>>=◌,
}
use blue_bridge.Memory.{memcpy}
use blue_bridge.Types.{
  Memaddr, MemaddrBlock, PktRqst, Sockaddr, block_size, pointer_size, alloc_cmd, write_cmd,
  read_cmd, free_cmd, alloc_bulk_cmd, write_bulk_cmd, read_bulk_cmd, trim_cmd,
}
use blue_bridge.Types.Codec.{le_bytes}
use blue_bridge.Server.{Server}
use blue_bridge.Net.{Net, send_udp_raw, cooked_batched_send, simple_epoll_rcv, write_packets}

-- USHRT_MAX
abbrev pub ushrt_max : ℕ
ushrt_max = 65535

abbrev pub batch_size : ℕ
batch_size = 40

abbrev pub exit_success : ℕ
exit_success = 0

abbrev pub exit_failure : ℕ
exit_failure = 1

-- The addresses of `num_blocks` blocks from `a` on.
unfoldable pub addr_list : Memaddr → ℕ → ℕ → List Memaddr
addr_list a i zero = []
addr_list a i (suc n) =
    record a { paddr = (a.paddr + i * block_size) % 2 ^ 64 } ∷ addr_list a (i + 1) n

-- Packet i of a burst write counts, in its argument, the packets of its server up to it.
unfoldable pub write_pkts : ℕ → List Memaddr → List ℕ → ℕ → (ℕ → ℕ) → List PktRqst × (ℕ → ℕ)
write_pkts port [] payload chunk_len sub_ids = ([], sub_ids)
write_pkts port (a ∷ addrs) payload chunk_len sub_ids =
    let index = (sub_ids a.subid + 1) % 2 ^ 32 in
    let (pkts, totals) =
      write_pkts port addrs (drop chunk_len payload) chunk_len (update sub_ids a.subid index) in
    (
      record {
        dst_addr = record a { args = index; cmd = write_bulk_cmd };
        dst_port = port;
        bytes = take chunk_len payload;
      }
          ∷ pkts,
      totals,
    )

-- Whether sub_ids has a place for the server of each address.
unfoldable pub counted : List Memaddr → Bool
counted [] = true
counted (a ∷ addrs) = if ltb a.subid ushrt_max then counted addrs else false

-- The data of packet i is the address in the client's memory that its reply goes to.
unfoldable pub read_pkts : ℕ → List Memaddr → ℕ → ℕ → (ℕ → ℕ) → List PktRqst × (ℕ → ℕ)
read_pkts port [] buffer chunk_len sub_ids = ([], sub_ids)
read_pkts port (a ∷ addrs) buffer chunk_len sub_ids =
    let (pkts, totals) =
      read_pkts port addrs (buffer + chunk_len) chunk_len
        (update sub_ids a.subid ((sub_ids a.subid + 1) % 2 ^ 32)) in
    (
      record {
        dst_addr = record a { args = chunk_len; cmd = read_bulk_cmd };
        dst_port = port;
        bytes = le_bytes pointer_size buffer;
      }
          ∷ pkts,
      totals,
    )

-- One receive for each server below `n` that was sent to; the last one's source stays as the target.
unfoldable pub await : ℕ → (sub_ids : ℕ → ℕ) → Sockaddr × Net → Option (Sockaddr × Net)
await zero sub_ids state = some state
await (suc n) sub_ids state = do
  state' ← await n sub_ids state
  if sub_ids n == 0
      then some state'
      else do (received, net) ← simple_epoll_rcv (state'.1); some (received.source, net)

module _ (fresh : Server → ℕ) where
  unfoldable pub allocate_rmem : Sockaddr → Net → Option (Memaddr × (Sockaddr × Net))
  allocate_rmem target net = do
    let to = record (target.addr) { cmd = alloc_cmd }
    (received, net') ← simple_epoll_rcv (send_udp_raw fresh [] to target.port net)
    some (
      record (received.packet.dst_addr) { subid = received.source.addr.subid },
      (received.source, net'),
    )

  -- The pointer that allocate_bulk_rmem and allocate_uniform_rmem ask for. Both pass the number of
  -- blocks, which the server takes as a number of bytes.
  unfoldable pub request_blocks : Sockaddr → ℕ → Net → Option (Memaddr × (Sockaddr × Net))
  request_blocks target num_blocks net = do
    let to = record (target.addr) { cmd = alloc_bulk_cmd }
    (received, net') ←
        simple_epoll_rcv (send_udp_raw fresh (le_bytes 8 num_blocks) to target.port net)
    some (
      record (received.packet.dst_addr) { subid = received.source.addr.subid },
      (received.source, net'),
    )

  unfoldable pub allocate_bulk_rmem : Sockaddr → ℕ → Net → Option (List Memaddr × (Sockaddr × Net))
  allocate_bulk_rmem target num_blocks net = do
    (a, state) ← request_blocks target num_blocks net
    some (addr_list a 0 num_blocks, state)

  unfoldable pub allocate_uniform_rmem :
      Sockaddr → ℕ → Net → Option (MemaddrBlock × (Sockaddr × Net))
  allocate_uniform_rmem target num_blocks net = do
    (a, state) ← request_blocks target num_blocks net
    some (record { memaddr = a; length = num_blocks; offset = 0 }, state)

  -- The number of bytes read comes first.
  unfoldable pub read_rmem : Sockaddr → Memaddr → ℕ → ℕ → Net → Option (ℕ × (Sockaddr × Net))
  read_rmem target remote_addr rx_buf len net = do
    let to = record remote_addr { cmd = read_cmd; args = len % 2 ^ 16 }
    (received, net') ← simple_epoll_rcv (send_udp_raw fresh [] to target.port net)
    some (
      length received.packet.bytes,
      (received.source, record net' { memory = memcpy rx_buf received.packet.bytes net'.memory }),
    )

  unfoldable pub write_rmem : Sockaddr → Memaddr → List ℕ → Net → Option (Sockaddr × Net)
  write_rmem target remote_addr payload net = do
    let to = record remote_addr { cmd = write_cmd }
    (received, net') ← simple_epoll_rcv (send_udp_raw fresh payload to target.port net)
    some (received.source, net')

  unfoldable pub batch_write : Sockaddr → List Memaddr → List ℕ → ℕ → Net → Option (Sockaddr × Net)
  unfolding cooked_batched_send
  batch_write target remote_addrs payload chunk_len net =
      let (pkts, sub_ids) = write_pkts target.port remote_addrs payload chunk_len (λ _. 0) in
      await ushrt_max sub_ids (target, cooked_batched_send fresh sub_ids pkts net)

  -- `none` where a subid is past the end of sub_ids.
  unfoldable pub batch_read : Sockaddr → List Memaddr → ℕ → ℕ → Net → Option Net
  unfolding counted
  batch_read target remote_addrs buffer chunk_len net =
      let (pkts, sub_ids) = read_pkts target.port remote_addrs buffer chunk_len (λ _. 0) in
      if counted remote_addrs
      then write_packets (length remote_addrs) (cooked_batched_send fresh sub_ids pkts net)
      else none

  -- The caller's address is overwritten with the destination of the reply, the client's own.
  unfoldable pub free_rmem : Sockaddr → Memaddr → Net → Option (Memaddr × (Sockaddr × Net))
  free_rmem target remote_addr net = do
    let to = record remote_addr { cmd = free_cmd }
    (received, net') ← simple_epoll_rcv (send_udp_raw fresh [] to target.port net)
    some (received.packet.dst_addr, (received.source, net'))

  unfoldable pub trim_bulk_rmem : Sockaddr → Memaddr → ℕ → Net → Option (Memaddr × (Sockaddr × Net))
  trim_bulk_rmem target remote_addr size net = do
    let to = record remote_addr { cmd = trim_cmd }
    (received, net') ← simple_epoll_rcv (send_udp_raw fresh (le_bytes 8 size) to target.port net)
    some (received.packet.dst_addr, (received.source, net'))
