-- ===== src/Client/Fetch.antt =====
-- batch_read of ip6/lib/client_lib.c: a burst of reads from several servers.
use native.Mathlib.Nat.{mul-suc}
use mathlib.Core.List.{append_assoc, append-nil}
use blue_bridge.Prelude.{
  ℕ, suc, ◌+◌, ◌*◌, ◌%◌, ◌^◌, ◌<◌, ◌≡◌, refl, sym, ap, ap₂, ◌∙◌, List, [], ◌∷◌, ◌++◌, length, arith,
  lt→ltb, true, update_same, Option, some, length-append,
}
use blue_bridge.Bits.{bit_or, bit_or-Apart}
use blue_bridge.Memory.{Bytes, memcpy, memcpy-append, memcpy_nil, bytes_at, length-bytes_at}
use blue_bridge.Types.{Memaddr, Sockaddr, read_bulk_cmd, pointer_size}
use blue_bridge.Types.Codec.{le_bytes, le_number-take}
use blue_bridge.Server.{Server, process_request, read_mem_ptr}
use blue_bridge.Server.Requests.{All}
use blue_bridge.Server.{send_udp_raw as server_send}
use blue_bridge.Net.{
  Net, Received, stamp, cooked_send, cooked_batched_send, handle_packet, simple_epoll_rcv,
  write_packets,
}
use blue_bridge.Client.{read_pkts, counted, batch_read, ushrt_max}
use blue_bridge.Client.Chunk.{memory-update}
use blue_bridge.Client.Single.{memories}

counted-below : (addrs : List Memaddr) → All (λ a. a.subid < ushrt_max) addrs → counted addrs ≡ true
unfolding counted
counted-below [] below = refl
counted-below (a ∷ addrs) below =
    rw (lt→ltb a.subid ushrt_max (below.0)) (counted-below addrs (below.1))

-- The `n` bytes at each address, one after the other.
abbrev pub gathered : List Memaddr → ℕ → (ℕ → Bytes) → List ℕ
gathered [] n m = []
gathered (a ∷ addrs) n m = bytes_at a.paddr n (m a.subid) ++ gathered addrs n m

pub length-gathered :
    (addrs : List Memaddr) (n : ℕ) (m : ℕ → Bytes) → length (gathered addrs n m) ≡ n * length addrs
length-gathered [] n m = omega arith
length-gathered (a ∷ addrs) n m = omega (
  arith,
  length-append (bytes_at a.paddr n (m a.subid)) (gathered addrs n m),
  length-bytes_at a.paddr n (m a.subid),
  length-gathered addrs n m,
  mul-suc n (length addrs),
)

-- What replies write to the client's memory when they are taken in order.
abbrev written : List Received → Bytes → Bytes
written [] m = m
written (r ∷ rs) m = written rs (memcpy r.packet.dst_addr.paddr r.packet.bytes m)

write_packets-written :
    (rs : List Received) (net : Net)
    → net.ring ≡ rs
    → write_packets (length rs) net
      ≡ some (record net { ring = []; memory = written rs net.memory })
unfolding write_packets simple_epoll_rcv
write_packets-written [] net e = ap (λ x. some x) (λ i. record net { ring = e i })
write_packets-written (r ∷ rs) net e = rw e (write_packets-written rs _ refl)

-- The length in a packet of a burst read, as the server takes it out again.
chunk_len-stamped : (n total : ℕ) → n < 2 ^ 16 → bit_or 32 n (total * 2 ^ 16 % 2 ^ 32) % 2 ^ 16 ≡ n
chunk_len-stamped n total h =
    ap (λ k. bit_or 32 n k % 2 ^ 16) {y = 2 ^ 16 * (total % 2 ^ 16)} (omega arith)
    ∙ ap (λ k. k % 2 ^ 16) (bit_or-Apart 32 16 n (total % 2 ^ 16) h (omega arith))
    ∙ omega arith

-- A reply that carries these bytes to this address of the client.
record Carries (buffer : ℕ) (bs : List ℕ) (r : Received) : Type 0 where
  paddr : r.packet.dst_addr.paddr ≡ buffer
  bytes : r.packet.bytes ≡ bs

written-first :
    (a : Memaddr) (addrs : List Memaddr) (buffer n : ℕ) (ms : ℕ → Bytes) (r : Received) (m : Bytes)
    → Carries buffer (bytes_at a.paddr n (ms a.subid)) r
    → memcpy (buffer + n) (gathered addrs n ms) (memcpy r.packet.dst_addr.paddr r.packet.bytes m)
      ≡ memcpy buffer (gathered (a ∷ addrs) n ms) m
written-first a addrs buffer n ms r m carries =
    let bs = bytes_at a.paddr n (ms a.subid) in
    ap₂ (λ p xs. memcpy (buffer + n) (gathered addrs n ms) (memcpy p xs m)) carries.paddr
      carries.bytes
    ∙ ap (λ k. memcpy (buffer + k) (gathered addrs n ms) (memcpy buffer bs m))
        (sym (length-bytes_at a.paddr n (ms a.subid)))
    ∙ sym (memcpy-append buffer bs (gathered addrs n ms) m)

-- What a packet of a burst read does: one reply carries the bytes, and no memory changes.
record Asked (a : Memaddr) (buffer n : ℕ) (net net' : Net) : Type 0 where
  reply : Received
  ring : net'.ring ≡ net.ring ++ reply ∷ []
  carries : Carries buffer (bytes_at a.paddr n (memories net a.subid)) reply
  memory : memories net' ≡ memories net
  own : net'.memory ≡ net.memory

-- A burst's replies, and what they write.
record Replies (addrs : List Memaddr) (buffer n : ℕ) (net net' : Net) : Type 0 where
  replies : List Received
  count : length replies ≡ length addrs
  ring : net'.ring ≡ net.ring ++ replies
  writes : (m : Bytes) → written replies m ≡ memcpy buffer (gathered addrs n (memories net)) m
  memory : memories net' ≡ memories net
  own : net'.memory ≡ net.memory

-- The client's buffer holds the bytes at the addresses, in their order, and no server's memory
-- changed.
pub record Fetched (addrs : List Memaddr) (buffer n : ℕ) (net : Net) (result : Option Net)
    : Type 0 where
  pub net' : Net
  pub returns : result ≡ some net'
  pub idle : net'.ring ≡ []
  pub own : net'.memory ≡ memcpy buffer (gathered addrs n (memories net)) net.memory
  pub memory : memories net' ≡ memories net

module _ (fresh : Server → ℕ) where
  cooked_send-Asked :
      (t : ℕ → ℕ) (a : Memaddr) (port buffer n : ℕ) (net : Net)
      → n < 2 ^ 16
      → buffer < 2 ^ 64
      → Asked a buffer n net (
          cooked_send fresh
            (stamp t (record {
              dst_addr = record a { args = n; cmd = read_bulk_cmd };
              dst_port = port;
              bytes = le_bytes pointer_size buffer;
            }))
            net)
  unfolding stamp cooked_send handle_packet process_request read_mem_ptr server_send
  cooked_send-Asked t a port buffer n net h k =
      let pkt = stamp t (record {
        dst_addr = record a { args = n; cmd = read_bulk_cmd };
        dst_port = port;
        bytes = le_bytes pointer_size buffer;
      }) in
      let server =
        read_mem_ptr pkt.bytes net.client pkt.dst_addr
          (record (net.servers a.subid) { sent = [] }) in
      record {
        reply = _;
        ring = refl;
        carries = record {
          paddr = le_number-take pointer_size buffer k;
          bytes =
              ap (λ l. bytes_at a.paddr l (memories net a.subid))
                (chunk_len-stamped n (t a.subid) h);
        };
        memory =
            memory-update net.servers a.subid server
            ∙ (λ i j. update_same (memories net) a.subid j i);
        own = refl;
      }

  replies :
      (port : ℕ) (addrs : List Memaddr) (buffer n : ℕ) (c t : ℕ → ℕ) (net : Net)
      → n < 2 ^ 16
      → buffer + n * length addrs < 2 ^ 64
      → Replies addrs buffer n net
          (cooked_batched_send fresh t (read_pkts port addrs buffer n c).0 net)
  unfolding cooked_batched_send read_pkts
  replies port [] buffer n c t net h k = record {
    replies = [];
    count = refl;
    ring = sym (append-nil net.ring);
    writes = λ m. sym (memcpy_nil buffer m);
    memory = refl;
    own = refl;
  }
  replies port (a ∷ addrs) buffer n c t net h k =
      let now = cooked_send-Asked t a port buffer n net h (omega arith) in
      let rest =
        replies port addrs (buffer + n) n _ t _ h (omega (arith, mul-suc n (length addrs))) in
      record {
        replies = now.reply ∷ rest.replies;
        count = ap suc rest.count;
        ring =
            rest.ring
            ∙ ap (λ rs. rs ++ rest.replies) now.ring
            ∙ append_assoc net.ring (now.reply ∷ []) rest.replies;
        writes = λ m.
            rest.writes _
            ∙ ap
                (λ ms.
                  memcpy (buffer + n) (gathered addrs n ms)
                    (memcpy now.reply.packet.dst_addr.paddr now.reply.packet.bytes m))
                now.memory
            ∙ written-first a addrs buffer n (memories net) now.reply m now.carries;
        memory = rest.memory ∙ now.memory;
        own = rest.own ∙ now.own;
      }

  -- A burst of reads of up to 64 KB each from servers that the counters have room for, with no reply of before under way and into a buffer that
  -- ends below the largest address, returns, takes every reply, and leaves in the buffer the bytes
  -- at each address in the order of the addresses. No server's memory changes.
  pub batch_read-Fetched :
      (target : Sockaddr) (addrs : List Memaddr) (buffer n : ℕ) (net : Net)
      → n < 2 ^ 16
      → buffer + n * length addrs < 2 ^ 64
      → All (λ a. a.subid < ushrt_max) addrs
      → net.ring ≡ []
      → Fetched addrs buffer n net (batch_read fresh target addrs buffer n net)
  unfolding batch_read
  batch_read-Fetched target addrs buffer n net h k below idle =
      let pkts = read_pkts target.port addrs buffer n (λ _. 0) in
      let sent = replies target.port addrs buffer n (λ _. 0) pkts.1 net h k in
      let net1 = cooked_batched_send fresh pkts.1 pkts.0 net in
      let ring : net1.ring ≡ sent.replies = sent.ring ∙ ap (λ rs. rs ++ sent.replies) idle in
      record {
        net' = record net1 { ring = []; memory = written sent.replies net1.memory };
        returns = rw (counted-below addrs below) (
            ap (λ c. write_packets c net1) (sym sent.count)
            ∙ write_packets-written sent.replies net1 ring);
        idle = refl;
        own =
            sent.writes net1.memory ∙ ap (memcpy buffer (gathered addrs n (memories net))) sent.own;
        memory = sent.memory;
      }
