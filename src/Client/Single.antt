-- ===== src/Client/Single.antt =====
-- One write and one read of ip6/lib/client_lib.c, with the server's part of each.
use blue_bridge.Prelude.{
  ℕ, ◌%◌, ◌<◌, ◌^◌, ◌≡◌, refl, sym, ap, ◌∙◌, List, [], length, arith, update, update_same, Option,
  some,
}
use blue_bridge.Memory.{Bytes, memcpy, bytes_at, bytes_at-memcpy, length-bytes_at}
use blue_bridge.Types.{Memaddr, Sockaddr, write_cmd, read_cmd}
use blue_bridge.Server.{Server, process_request, write_mem, read_mem, acknowledge}
use blue_bridge.Server.{send_udp_raw as server_send}
use blue_bridge.Net.{Net, send_udp_raw, cooked_send, handle_packet, simple_epoll_rcv}
use blue_bridge.Client.{write_rmem, read_rmem}
use blue_bridge.Client.Chunk.{memory-update, heap-update, SameFrame}

abbrev pub memories : Net → ℕ → Bytes
memories net j = (net.servers j).memory

-- The payload is copied, and no reply is left under way.
pub record Wrote (a : Memaddr) (payload : List ℕ) (net : Net) (result : Option (Sockaddr × Net))
    : Type 0 where
  pub target : Sockaddr
  pub net' : Net
  pub returns : result ≡ some (target, net')
  pub idle : net'.ring ≡ []
  pub memory :
      memories net' ≡ update (memories net) a.subid (memcpy a.paddr payload (memories net a.subid))
  pub frame : SameFrame net net'

-- The buffer holds the server's bytes, and no server's memory changed.
pub record HasRead (a : Memaddr) (rx_buf n : ℕ) (net : Net) (result : Option (ℕ × (Sockaddr × Net)))
    : Type 0 where
  pub target : Sockaddr
  pub net' : Net
  pub returns : result ≡ some (n, (target, net'))
  pub idle : net'.ring ≡ []
  pub own : net'.memory ≡ memcpy rx_buf (bytes_at a.paddr n (memories net a.subid)) net.memory
  pub buffer : bytes_at rx_buf n net'.memory ≡ bytes_at a.paddr n (memories net a.subid)
  pub memory : memories net' ≡ memories net

first_returned :
    (o : Option (ℕ × (Sockaddr × Net))) (m n : ℕ) (state : Sockaddr × Net)
    → o ≡ some (m, state)
    → m ≡ n
    → o ≡ some (n, state)
first_returned o m n state e f = e ∙ ap (λ k. some (k, state)) f

module _ (fresh : Server → ℕ) where
  pub write_rmem-Wrote :
      (target : Sockaddr) (a : Memaddr) (payload : List ℕ) (net : Net)
      → net.ring ≡ []
      → Wrote a payload net (write_rmem fresh target a payload net)
  unfolding write_rmem send_udp_raw cooked_send handle_packet simple_epoll_rcv process_request
      write_mem acknowledge server_send
  write_rmem-Wrote target a payload net idle =
      let server =
        write_mem payload net.client (record a { cmd = write_cmd })
          (record (net.servers a.subid) { sent = [] }) in
      record {
        target = net.addresses a.subid;
        net' = record net { servers = update net.servers a.subid server; ring = [] };
        returns = rw idle refl;
        idle = refl;
        memory = memory-update net.servers a.subid server;
        frame = record {
          heaps = heap-update net.servers a.subid server refl;
          addresses = refl;
          client = refl;
          own = refl;
        };
      }

  pub read_rmem-HasRead :
      (target : Sockaddr) (a : Memaddr) (rx_buf n : ℕ) (net : Net)
      → n < 2 ^ 16
      → net.ring ≡ []
      → HasRead a rx_buf n net (read_rmem fresh target a rx_buf n net)
  unfolding read_rmem send_udp_raw cooked_send handle_packet simple_epoll_rcv process_request
      read_mem server_send
  read_rmem-HasRead target a rx_buf n net small idle =
      let server =
        read_mem net.client (record a { cmd = read_cmd; args = n % 2 ^ 16 })
          (record (net.servers a.subid) { sent = [] }) in
      let bytes = bytes_at a.paddr (n % 2 ^ 16 % 2 ^ 16) (memories net a.subid) in
      let whole : n % 2 ^ 16 % 2 ^ 16 ≡ n = omega arith in
      let counted : length bytes ≡ n =
        length-bytes_at a.paddr (n % 2 ^ 16 % 2 ^ 16) (memories net a.subid) ∙ whole in
      let net' : Net = record net {
        servers = update net.servers a.subid server;
        ring = [];
        memory = memcpy rx_buf bytes net.memory;
      } in
      record {
        target = net.addresses a.subid;
        net' = net';
        returns = first_returned _ _ _ (net.addresses a.subid, net') (rw idle refl) counted;
        idle = refl;
        own = ap (λ k. memcpy rx_buf (bytes_at a.paddr k (memories net a.subid)) net.memory) whole;
        buffer =
            ap (λ k. bytes_at rx_buf k (memcpy rx_buf bytes net.memory)) (sym counted)
            ∙ bytes_at-memcpy rx_buf bytes net.memory
            ∙ ap (λ k. bytes_at a.paddr k (memories net a.subid)) whole;
        memory =
            memory-update net.servers a.subid server
            ∙ (λ i j. update_same (memories net) a.subid j i);
      }
