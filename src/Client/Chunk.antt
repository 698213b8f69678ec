-- ===== src/Client/Chunk.antt =====
-- One packet of batch_write (ip6/lib/client_lib.c), from cooked_batched_send to write_mem_bulk.
use blue_bridge.Prelude.{
  ℕ, suc, ◌+◌, ◌*◌, ◌/◌, ◌%◌, ◌^◌, ◌<◌, ◌≡◌, inl, inr, refl, ap, ◌∙◌, List, [], ◌∷◌, map, length,
  arith, update, ◌==◌, if◌then◌else◌, length-append, Bool, Bool-cases, Option, sym, eq_of_==,
}
use blue_bridge.Bits.{bit_or, bit_or-Apart}
use blue_bridge.Memory.{Bytes, memcpy}
use blue_bridge.Types.{Memaddr, Sockaddr, write_bulk_cmd}
use blue_bridge.Server.{Server, process_request, write_mem_bulk, acknowledge}
use blue_bridge.Server.{send_udp_raw as server_send}
use blue_bridge.Net.{Net, stamp, cooked_send, handle_packet}

-- The blocks in use at each server.
abbrev pub heaps : Net → ℕ → ℕ → Option ℕ
heaps net j = (net.servers j).heap

-- What reads and writes leave as it is besides the servers' memories.
pub record SameFrame (net net' : Net) : Type 0 where
  pub heaps : heaps net' ≡ heaps net
  pub addresses : net'.addresses ≡ net.addresses
  pub client : net'.client ≡ net.client
  pub own : net'.memory ≡ net.memory

pub same_frame : (net : Net) → SameFrame net net
same_frame net = record { heaps = refl; addresses = refl; client = refl; own = refl }

pub frame_trans :
    {net net1 net2 : Net} → SameFrame net1 net2 → SameFrame net net1 → SameFrame net net2
frame_trans f g = record {
  heaps = f.heaps ∙ g.heaps;
  addresses = f.addresses ∙ g.addresses;
  client = f.client ∙ g.client;
  own = f.own ∙ g.own;
}

heap-set_at :
    (f : ℕ → Server) (i : ℕ) (s : Server) (j : ℕ)
    → (update f i s j).heap ≡ update (λ k. (f k).heap) i s.heap j
heap-set_at f i s j = elim (Bool-cases (j == i)) [
  | inl same ↦ rw same refl
  | inr other ↦ rw other refl
]

pub heap-set :
    (f : ℕ → Server) (i : ℕ) (s : Server)
    → ◌≡◌ {A = ℕ → ℕ → Option ℕ} (λ j. (update f i s j).heap) (update (λ k. (f k).heap) i s.heap)
heap-set f i s = λ p j. heap-set_at f i s j p

heap-update_at :
    (f : ℕ → Server) (i : ℕ) (s : Server)
    → s.heap ≡ (f i).heap
    → (j : ℕ) → (update f i s j).heap ≡ (f j).heap
heap-update_at f i s e j = elim (Bool-cases (j == i)) [
  | inl same ↦ rw same (e ∙ ap (λ k. (f k).heap) (sym (eq_of_== j i same)))
  | inr other ↦ rw other refl
]

pub heap-update :
    (f : ℕ → Server) (i : ℕ) (s : Server)
    → s.heap ≡ (f i).heap
    → ◌≡◌ {A = ℕ → ℕ → Option ℕ} (λ j. (update f i s j).heap) (λ j. (f j).heap)
heap-update f i s e = λ p j. heap-update_at f i s e j p

-- What a packet of a burst write does: its chunk is copied, and it is answered if it is the last.
pub record Sent (a : Memaddr) (bytes : List ℕ) (replies : ℕ) (net net' : Net) : Type 0 where
  pub ring : length net'.ring ≡ length net.ring + replies
  pub memory :
      (λ j. (net'.servers j).memory)
      ≡ update
          (λ j. (net.servers j).memory)
          a.subid
          (memcpy a.paddr bytes (net.servers a.subid).memory)
  pub frame : SameFrame net net'

-- The number of a packet and the size of its burst, as the server takes them apart again.
stamped :
    (index total : ℕ)
    → index < 2 ^ 16
    → total < 2 ^ 16
    → bit_or 32 index (total * 2 ^ 16 % 2 ^ 32) ≡ index + 2 ^ 16 * total
stamped index total h k =
    ap (bit_or 32 index) (omega arith) ∙ bit_or-Apart 32 16 index total h (omega arith)

abbrev is_last : ℕ → Bool
is_last args = args % 2 ^ 16 == args / 2 ^ 16 % 2 ^ 16

is_last-stamped :
    (index total : ℕ)
    → index < 2 ^ 16
    → total < 2 ^ 16
    → is_last (bit_or 32 index (total * 2 ^ 16 % 2 ^ 32)) ≡ (index == total)
is_last-stamped index total h k = ap is_last (stamped index total h k) ∙ (ground arith)

length-map : {A : Type 0} {B : Type 0} (f : A → B) (xs : List A) → length (map f xs) ≡ length xs
length-map f [] = refl
length-map f (x ∷ xs) = ap suc (length-map f xs)

replies-write_mem_bulk :
    (bytes : List ℕ) (client : Sockaddr) (a : Memaddr) (s : Server)
    → length (write_mem_bulk bytes client a (record s { sent = [] })).sent
      ≡ (if is_last a.args then 1 else 0)
unfolding write_mem_bulk acknowledge server_send
replies-write_mem_bulk bytes client a s = elim (Bool-cases (is_last a.args)) [
  | inl last ↦ rw last refl
  | inr inner ↦ rw inner refl
]

memory-write_mem_bulk :
    (bytes : List ℕ) (client : Sockaddr) (a : Memaddr) (s : Server)
    → (write_mem_bulk bytes client a s).memory ≡ memcpy a.paddr bytes s.memory
unfolding write_mem_bulk acknowledge server_send
memory-write_mem_bulk bytes client a s = elim (Bool-cases (is_last a.args)) [
  | inl last ↦ rw last refl
  | inr inner ↦ rw inner refl
]

heap-write_mem_bulk :
    (bytes : List ℕ) (client : Sockaddr) (a : Memaddr) (s : Server)
    → (write_mem_bulk bytes client a s).heap ≡ s.heap
unfolding write_mem_bulk acknowledge server_send
heap-write_mem_bulk bytes client a s = elim (Bool-cases (is_last a.args)) [
  | inl last ↦ rw last refl
  | inr inner ↦ rw inner refl
]

memory-update_at :
    (f : ℕ → Server) (i : ℕ) (s : Server) (j : ℕ)
    → (update f i s j).memory ≡ update (λ k. (f k).memory) i s.memory j
memory-update_at f i s j = elim (Bool-cases (j == i)) [
  | inl same ↦ rw same refl
  | inr other ↦ rw other refl
]

pub memory-update :
    (f : ℕ → Server) (i : ℕ) (s : Server)
    → ◌≡◌ {A = ℕ → Bytes} (λ j. (update f i s j).memory) (update (λ k. (f k).memory) i s.memory)
memory-update f i s = λ p j. memory-update_at f i s j p

module _ (fresh : Server → ℕ) where
  pub cooked_send-Sent :
      (t : ℕ → ℕ) (a : Memaddr) (port index : ℕ) (bytes : List ℕ) (net : Net)
      → index < 2 ^ 16
      → t a.subid < 2 ^ 16
      → Sent a bytes (if index == t a.subid then 1 else 0) net (
          cooked_send fresh
            (stamp t (record {
              dst_addr = record a { args = index; cmd = write_bulk_cmd };
              dst_port = port;
              bytes = bytes;
            }))
            net)
  unfolding stamp cooked_send handle_packet process_request write_mem_bulk acknowledge server_send
  cooked_send-Sent t a port index bytes net h k =
      let pkt = stamp t (record {
        dst_addr = record a { args = index; cmd = write_bulk_cmd };
        dst_port = port;
        bytes = bytes;
      }) in
      let idle = record (net.servers a.subid) { sent = [] } in
      record {
        ring =
            length-append net.ring _
            ∙ ap (◌+◌ (length net.ring)) (
                length-map _ _
                ∙ replies-write_mem_bulk bytes net.client pkt.dst_addr (net.servers a.subid)
                ∙ ap (λ b. if b then 1 else 0) (is_last-stamped index (t a.subid) h k));
        memory =
            memory-update net.servers a.subid (write_mem_bulk bytes net.client pkt.dst_addr idle)
            ∙ ap (update (λ j. (net.servers j).memory) a.subid)
                (memory-write_mem_bulk bytes net.client pkt.dst_addr idle);
        frame = record {
          heaps =
              heap-update net.servers a.subid (write_mem_bulk bytes net.client pkt.dst_addr idle)
                (heap-write_mem_bulk bytes net.client pkt.dst_addr idle);
          addresses = refl;
          client = refl;
          own = refl;
        };
      }
