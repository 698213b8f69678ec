-- ===== src/Net.antt =====
-- The client's side of ip6/lib/network.c over ip6/lib/raw_backend: a client and its servers, joined
-- by a network that loses and reorders nothing and routes on the subnet of an address, as the
-- switch does. A server handles a packet when it arrives (handle_packet), and its replies wait in
-- the client's receive ring.
use blue_bridge.Prelude.{
  ℕ, ◌*◌, ◌%◌, ◌^◌, Option, none, some, List, [], ◌∷◌, ◌++◌, map, update, zero, suc, ◌>>=◌,
}
use blue_bridge.Bits.{bit_or}
use blue_bridge.Memory.{Bytes, memcpy}
use blue_bridge.Types.{Memaddr, PktRqst, Sockaddr}
use blue_bridge.Server.{Server, process_request}

-- A packet in the receive ring, with the address and port in its headers that it came from.
pub record Received : Type 0 where
  pub packet : PktRqst
  pub source : Sockaddr

pub record Net : Type 0 where
  pub servers : ℕ → Server
  pub addresses : ℕ → Sockaddr
  pub client : Sockaddr
  pub ring : List Received
  pub memory : Bytes

-- `dst_addr.args | sub_ids[subid] << 16`, in 32 bits
unfoldable pub stamp : (sub_ids : ℕ → ℕ) → PktRqst → PktRqst
stamp sub_ids pkt =
    let total = sub_ids pkt.dst_addr.subid * 2 ^ 16 % 2 ^ 32 in
    record pkt { dst_addr = record (pkt.dst_addr) { args = bit_or 32 pkt.dst_addr.args total } }

-- What calloc of a server returns next.
module _ (fresh : Server → ℕ) where
  -- The server that a packet reaches, after handle_packet; its ring holds the replies to this
  -- packet.
  unfoldable pub handle_packet : PktRqst → Net → Server
  unfolding process_request
  handle_packet pkt net =
      let server = net.servers pkt.dst_addr.subid in
      process_request (fresh server) net.client pkt.dst_addr pkt.bytes (record server { sent = [] })

  unfoldable pub cooked_send : PktRqst → Net → Net
  unfolding handle_packet
  cooked_send pkt net =
      let i = pkt.dst_addr.subid in
      let server = handle_packet pkt net in
      record net {
        servers = update net.servers i server;
        ring = net.ring ++ map (λ p. record { packet = p; source = net.addresses i }) server.sent;
      }

  unfoldable pub send_udp_raw : List ℕ → Memaddr → ℕ → Net → Net
  unfolding cooked_send
  send_udp_raw bytes remote_addr dst_port =
      cooked_send (record { dst_addr = remote_addr; dst_port = dst_port; bytes = bytes })

  unfoldable pub cooked_batched_send : (sub_ids : ℕ → ℕ) → List PktRqst → Net → Net
  unfolding cooked_send stamp
  cooked_batched_send sub_ids [] net = net
  cooked_batched_send sub_ids (pkt ∷ pkts) net =
      cooked_batched_send sub_ids pkts (cooked_send (stamp sub_ids pkt) net)

-- simple_epoll_rcv polls until there is a packet: with nothing under way it does not return.
unfoldable pub simple_epoll_rcv : Net → Option (Received × Net)
simple_epoll_rcv net = elim net.ring [
  | [] ↦ none
  | received ∷ rest ↦ some (received, record net { ring = rest })
]

-- Each packet is copied to where its destination's pointer says.
unfoldable pub write_packets : ℕ → Net → Option Net
write_packets zero net = some net
write_packets (suc num_packets) net = do
  (received, rest) ← simple_epoll_rcv net
  write_packets num_packets (record rest {
    memory = memcpy received.packet.dst_addr.paddr received.packet.bytes rest.memory;
  })
