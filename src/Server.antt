-- ===== src/Server.antt =====
-- ip6/lib/server_lib.c: the memory server. Every handler turns the sender's address into the
-- destination of its reply. calloc's result is the argument `fresh`; the code tests neither it nor
-- any pointer, so memory is flat, and `heap` records the sizes that calloc gave out.
pub mod Requests
use blue_bridge.Prelude.{
  ℕ, ◌%◌, ◌/◌, ◌^◌, Option, none, some, List, [], ◌∷◌, ◌++◌, length, take, update, ◌==◌,
  if◌then◌else◌,
}
use blue_bridge.Memory.{Bytes, memcpy, memset, bytes_at}
use blue_bridge.Types.{
  Memaddr, PktRqst, Sockaddr, block_size, pointer_size, alloc_cmd, write_cmd, read_cmd, free_cmd,
  alloc_bulk_cmd, write_bulk_cmd, read_bulk_cmd, trim_cmd,
}
use blue_bridge.Types.Codec.{le_number}

-- The memory, the blocks in use, and the packets sent so far, oldest first.
pub record Server : Type 0 where
  pub memory : Bytes
  pub heap : ℕ → Option ℕ
  pub sent : List PktRqst

-- send_udp_raw of network.c, less the clock
unfoldable pub send_udp_raw : List ℕ → Memaddr → ℕ → Server → Server
send_udp_raw bytes remote_addr dst_port s = record s {
  sent = s.sent ++ record { dst_addr = remote_addr; dst_port = dst_port; bytes = bytes } ∷ [];
}

unfoldable pub calloc : ℕ → ℕ → Server → Server
calloc fresh size s = record s {
  memory = memset fresh 0 size s.memory;
  heap = update s.heap fresh (some size);
}

unfoldable pub allocate_mem : (fresh : ℕ) → Sockaddr → Server → Server
allocate_mem fresh target_ip s =
    send_udp_raw [] (record (target_ip.addr) { cmd = alloc_cmd; paddr = fresh }) target_ip.port
      (calloc fresh block_size s)

unfoldable pub allocate_mem_bulk : (fresh : ℕ) → Sockaddr → ℕ → Server → Server
allocate_mem_bulk fresh target_ip size s =
    send_udp_raw [] (record (target_ip.addr) { cmd = alloc_bulk_cmd; paddr = fresh }) target_ip.port
      (calloc fresh (if size == 0 then 1 else size) s)

-- `(uint16_t) r_addr->args` bytes go out.
unfoldable pub read_mem : Sockaddr → Memaddr → Server → Server
read_mem target_ip r_addr s =
    send_udp_raw (bytes_at r_addr.paddr (r_addr.args % 2 ^ 16) s.memory)
      (record (target_ip.addr) { cmd = r_addr.cmd; paddr = r_addr.paddr }) target_ip.port s

-- The client's own pointer stands in the request and comes back in the reply.
unfoldable pub read_mem_ptr : List ℕ → Sockaddr → Memaddr → Server → Server
read_mem_ptr rcv_buffer target_ip r_addr s =
    send_udp_raw (bytes_at r_addr.paddr (r_addr.args % 2 ^ 16) s.memory)
      (record (target_ip.addr) {
        cmd = r_addr.cmd;
        paddr = le_number (take pointer_size rcv_buffer);
      })
      target_ip.port s

-- An empty reply that repeats the command and the pointer.
unfoldable pub acknowledge : Sockaddr → Memaddr → Server → Server
acknowledge target_ip r_addr s =
    send_udp_raw [] (record (target_ip.addr) { cmd = r_addr.cmd; paddr = r_addr.paddr })
      target_ip.port s

unfoldable pub write_mem : List ℕ → Sockaddr → Memaddr → Server → Server
write_mem rcv_buffer target_ip r_addr s =
    acknowledge target_ip r_addr (record s { memory = memcpy r_addr.paddr rcv_buffer s.memory })

-- (r_addr->args & 0x0000ffff) == ((r_addr->args & 0xffff0000) >> 16): the last of a burst.
unfoldable pub write_mem_bulk : List ℕ → Sockaddr → Memaddr → Server → Server
write_mem_bulk rcv_buffer target_ip r_addr s =
    let s' = record s { memory = memcpy r_addr.paddr rcv_buffer s.memory } in
    if r_addr.args % 2 ^ 16 == r_addr.args / 2 ^ 16 % 2 ^ 16
    then acknowledge target_ip r_addr s'
    else s'

unfoldable pub free_mem : Sockaddr → Memaddr → Server → Server
free_mem target_ip r_addr s =
    acknowledge target_ip r_addr (record s { heap = update s.heap r_addr.paddr none })

unfoldable pub trim_mem : Sockaddr → Memaddr → ℕ → Server → Server
trim_mem target_ip r_addr size s =
    acknowledge target_ip r_addr (record s { memory = memset r_addr.paddr 0 size s.memory })

-- The sizes of the bulk commands are the first eight bytes of the payload; those that a shorter
-- payload lacks are read as zero here.
unfoldable pub process_request : (fresh : ℕ) → Sockaddr → Memaddr → List ℕ → Server → Server
unfolding send_udp_raw calloc allocate_mem allocate_mem_bulk read_mem read_mem_ptr acknowledge
    write_mem write_mem_bulk free_mem trim_mem
process_request fresh target_ip remote_addr rcv_buffer s =
    if remote_addr.cmd == write_cmd
    then write_mem rcv_buffer target_ip remote_addr s
    else if remote_addr.cmd == write_bulk_cmd
    then write_mem_bulk rcv_buffer target_ip remote_addr s
    else if remote_addr.cmd == read_cmd
    then read_mem target_ip remote_addr s
    else if remote_addr.cmd == read_bulk_cmd
    then read_mem_ptr rcv_buffer target_ip remote_addr s
    else if remote_addr.cmd == free_cmd
    then free_mem target_ip remote_addr s
    else if remote_addr.cmd == alloc_cmd
    then allocate_mem fresh target_ip s
    else if remote_addr.cmd == alloc_bulk_cmd
    then allocate_mem_bulk fresh target_ip (le_number (take 8 rcv_buffer)) s
    else if remote_addr.cmd == trim_cmd
    then trim_mem target_ip remote_addr (le_number (take 8 rcv_buffer)) s
    else s
