-- ===== src/Client/RoundTrip.antt =====
-- Single operations of ip6/lib/client_lib.c one after the other, through the server and back.
use blue_bridge.Prelude.{
  ℕ, ◌%◌, ◌<◌, ◌^◌, ◌≡◌, ◌≤◌, ◌+◌, refl, ap, ◌∙◌, sym, List, [], take, length-take, length, arith,
  update, update_self, Option, some, ◌>>=◌,
}
use blue_bridge.Memory.{Bytes, memcpy, bytes_at, bytes_at-memcpy}
use blue_bridge.Types.{Memaddr, Sockaddr, write_cmd}
use blue_bridge.Server.{Server, process_request, write_mem, read_mem, acknowledge}
use blue_bridge.Server.{send_udp_raw as server_send}
use blue_bridge.Net.{Net, send_udp_raw, cooked_send, handle_packet, simple_epoll_rcv}
use blue_bridge.Client.{write_rmem, read_rmem, exit_success}
use blue_bridge.Client.Single.{memories}
use blue_bridge.Client.Uniform.{
  HasRoom, start, buffer-HasReadUniform, write_uniform_rmem-WroteUniform,
  read_uniform_rmem-HasReadUniform,
}
use blue_bridge.Client.Bulk.{read_uniform_rmem, write_uniform_rmem}
use blue_bridge.Client.Runs.{bind_some}
use blue_bridge.Types.{MemaddrBlock}

read_back :
    (payload : List ℕ) (a : Memaddr) (servers : ℕ → Server) (s : Server) (m : Bytes)
    → length payload < 2 ^ 16
    → s.memory ≡ memcpy a.paddr payload m
    → bytes_at a.paddr (length payload % 2 ^ 16 % 2 ^ 16) (update servers a.subid s a.subid).memory
      ≡ payload
read_back payload a servers s m h e =
    ap (λ n. bytes_at a.paddr n (update servers a.subid s a.subid).memory) (omega arith)
    ∙ ap (λ (x : Server). bytes_at a.paddr (length payload) x.memory)
        (update_self servers a.subid s)
    ∙ ap (bytes_at a.paddr (length payload)) e
    ∙ bytes_at-memcpy a.paddr payload m

-- A read that ends with `bs` in the buffer.
read_result :
    (o : Option (ℕ × (Sockaddr × Net))) (bs payload : List ℕ) (target' : Sockaddr) (net' : Net)
    (m : Bytes) (rx_buf : ℕ)
    → o ≡ some (length bs, (target', net'))
    → bs ≡ payload
    → net'.memory ≡ memcpy rx_buf bs m
    → net'.ring ≡ []
    → (target' : Sockaddr) × ((net' : Net) × ((o ≡ some (length payload, (target', net')))
          × ((bytes_at rx_buf (length payload) net'.memory ≡ payload) × (net'.ring ≡ []))))
read_result o bs payload target' net' m rx_buf returns e copied idle = (
  target',
  (
    net',
    (
      returns ∙ ap (λ (x : List ℕ). some (length x, (target', net'))) e,
      (
        ap (bytes_at rx_buf (length payload)) (copied ∙ ap (λ x. memcpy rx_buf x m) e)
            ∙ bytes_at-memcpy rx_buf payload m,
        idle,
      ),
    ),
  ),
)

module _ (fresh : Server → ℕ) where
  -- What is written to an address is read back from it, into the client's buffer.
  pub write-read :
      (target : Sockaddr) (a : Memaddr) (payload : List ℕ) (rx_buf : ℕ) (net : Net)
      → length payload < 2 ^ 16
      → net.ring ≡ []
      → (target' : Sockaddr) × ((net' : Net) × ((write_rmem fresh target a payload net
                >>= (λ (s : Sockaddr × Net). read_rmem fresh (s.0) a rx_buf (length payload) (s.1))
              ≡ some (length payload, (target', net')))
            × ((bytes_at rx_buf (length payload) net'.memory ≡ payload) × (net'.ring ≡ []))))
  unfolding write_rmem read_rmem send_udp_raw cooked_send handle_packet simple_epoll_rcv
      process_request write_mem read_mem acknowledge server_send
  write-read target a payload rx_buf net small idle = rw idle (
      let e =
        read_back payload a net.servers
          (write_mem payload net.client (record a { cmd = write_cmd })
            (record (net.servers a.subid) { sent = [] }))
          (net.servers a.subid).memory small refl in
      read_result _ _ payload _ _ net.memory rx_buf refl e refl refl)

module _ (fresh : Server → ℕ) where
  -- What is written into a block that has room for it, in fewer than 2 ^ 32 bytes and with no reply
  -- of before under way, is what a read of the block then puts into a buffer with room for the block
  -- below 2 ^ 64. Both succeed.
  pub write_uniform-read_uniform :
      (target : Sockaddr) (block : MemaddrBlock) (payload : List ℕ) (rx_buf size : ℕ) (net : Net)
      → HasRoom block size
      → size ≤ length payload
      → size < 2 ^ 32
      → rx_buf + block.length < 2 ^ 64
      → net.ring ≡ []
      → (target' : Sockaddr) × ((net' : Net) × (((write_uniform_rmem fresh target block payload size
                  net
                >>= (λ (s : ℕ × (Sockaddr × Net)).
                    read_uniform_rmem fresh (s.1.0) block rx_buf size (s.1.1)))
              ≡ some (exit_success, (target', net')))
            × ((bytes_at rx_buf size net'.memory ≡ take size payload) × (net'.ring ≡ []))))
  write_uniform-read_uniform target block payload rx_buf size net room enough small below idle =
      let wrote =
        write_uniform_rmem-WroteUniform fresh target block payload size net room enough idle in
      let read =
        read_uniform_rmem-HasReadUniform fresh wrote.target block rx_buf size wrote.net' room small
          below wrote.idle in
      let s = block.memaddr.subid in
      (
        read.target,
        (
          read.net',
          (
            bind_some _ _ _ wrote.returns ∙ read.returns,
            (
              buffer-HasReadUniform block rx_buf size wrote.net' _ read
                  ∙ ap (λ m. bytes_at (start block) size (m s)) wrote.memory
                  ∙ ap (bytes_at (start block) size) (update_self (memories net) s _)
                  ∙ ap
                      (λ k.
                        bytes_at (start block) k
                          (memcpy (start block) (take size payload) (memories net s)))
                      (sym (length-take size payload enough))
                  ∙ bytes_at-memcpy (start block) (take size payload) (memories net s),
              read.idle,
            ),
          ),
        ),
      )
