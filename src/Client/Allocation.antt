-- ===== src/Client/Allocation.antt =====
-- allocate_uniform_rmem of ip6/lib/client_lib.c with the server's part of it.
use blue_bridge.Prelude.{
  ℕ, ◌^◌, ◌<◌, ◌≡◌, refl, ap, ◌∙◌, [], update, take, Option, some, ◌==◌, if◌then◌else◌,
}
use blue_bridge.Memory.{memset}
use blue_bridge.Types.{MemaddrBlock, Sockaddr, alloc_bulk_cmd}
use blue_bridge.Types.Codec.{le_bytes, le_number, le_number-take}
use blue_bridge.Server.{Server, process_request, allocate_mem_bulk, calloc}
use blue_bridge.Server.{send_udp_raw as server_send}
use blue_bridge.Net.{Net, send_udp_raw, cooked_send, handle_packet, simple_epoll_rcv}
use blue_bridge.Client.{request_blocks, allocate_uniform_rmem}
use blue_bridge.Client.Chunk.{memory-update, heaps, heap-set}
use blue_bridge.Client.Single.{memories}

-- The number of bytes that a server takes for a request of `n`.
abbrev pub taken : ℕ → ℕ
taken n = if n == 0 then 1 else n

-- A block of the target's server, at the address that its calloc returned, cleared.
pub record Allocated (fresh : Server → ℕ) (target : Sockaddr) (n : ℕ) (net : Net)
    (result : Option (MemaddrBlock × (Sockaddr × Net))) : Type 0 where
  pub block : MemaddrBlock
  pub target' : Sockaddr
  pub net' : Net
  pub returns : result ≡ some (block, (target', net'))
  pub idle : net'.ring ≡ []
  pub cmd : block.memaddr.cmd ≡ alloc_bulk_cmd
  pub args : block.memaddr.args ≡ net.client.addr.args
  pub server : block.memaddr.subid ≡ (net.addresses target.addr.subid).addr.subid
  pub paddr : block.memaddr.paddr ≡ fresh (net.servers target.addr.subid)
  pub length : block.length ≡ n
  pub offset : block.offset ≡ 0
  pub memory :
      memories net'
      ≡ update (memories net) target.addr.subid (
          memset
            (fresh (net.servers target.addr.subid))
            0
            (taken n)
            (memories net target.addr.subid))
  pub heaps :
      heaps net'
      ≡ update (heaps net) target.addr.subid (
          update
            (heaps net target.addr.subid)
            (fresh (net.servers target.addr.subid))
            (some (taken n)))
  pub addresses : net'.addresses ≡ net.addresses
  pub client : net'.client ≡ net.client
  pub own : net'.memory ≡ net.memory

module _ (fresh : Server → ℕ) where
  -- A request of fewer than 2 ^ 64 blocks, with no reply of before under way, is answered with a
  -- block of that length at the address that the calloc of the target's server returns, whose bytes
  -- are cleared there, and on the server that the reply came from.
  pub allocate_uniform_rmem-Allocated :
      (target : Sockaddr) (n : ℕ) (net : Net)
      → n < 2 ^ 64
      → net.ring ≡ []
      → Allocated fresh target n net (allocate_uniform_rmem fresh target n net)
  unfolding allocate_uniform_rmem request_blocks send_udp_raw cooked_send handle_packet
      simple_epoll_rcv process_request allocate_mem_bulk calloc server_send
  allocate_uniform_rmem-Allocated target n net small idle =
      let i = target.addr.subid in
      let size = le_number-take 8 n small in
      let server =
        allocate_mem_bulk (fresh (net.servers i)) net.client (le_number (take 8 (le_bytes 8 n)))
          (record (net.servers i) { sent = [] }) in
      let reply = record (net.client.addr) {
        cmd = alloc_bulk_cmd;
        paddr = fresh (net.servers i);
        subid = (net.addresses i).addr.subid;
      } in
      record {
        block = record { memaddr = reply; length = n; offset = 0 };
        target' = net.addresses i;
        net' = record net { servers = update net.servers i server; ring = [] };
        returns = rw idle refl;
        idle = refl;
        cmd = refl;
        args = refl;
        server = refl;
        paddr = refl;
        length = refl;
        offset = refl;
        memory =
            memory-update net.servers i server
            ∙ ap
                (λ k.
                  update (memories net) i
                    (memset (fresh (net.servers i)) 0 (if k == 0 then 1 else k) (memories net i)))
                size;
        heaps =
            heap-set net.servers i server
            ∙ ap
                (λ k.
                  update (heaps net) i
                    (update (heaps net i) (fresh (net.servers i)) (some (if k == 0 then 1 else k))))
                size;
        addresses = refl;
        client = refl;
        own = refl;
      }
