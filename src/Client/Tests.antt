-- ===== src/Client/Tests.antt =====
-- A client and its servers (ip6/lib/client_lib.c, server_lib.c): the theorems at concrete packets
-- and addresses.
use blue_bridge.Prelude.{
  ℕ, ◌≡◌, refl, inl, inr, none, some, List, [], ◌∷◌, arith, if◌then◌else◌, ◌>>=◌, take,
}
use blue_bridge.Memory.{bytes_at}
use blue_bridge.Types.{Memaddr, Sockaddr, read_cmd}
use blue_bridge.Server.{Server, process_request}
use blue_bridge.Server.Requests.{Replied, answered, process_request-Replied}
use blue_bridge.Net.{Net}
use blue_bridge.Client.{batch_write, batch_read, write_rmem, read_rmem, exit_success}
use blue_bridge.Client.Batches.{write_bulk_rmem-Reads}
use blue_bridge.Client.Bulk.{write_bulk_rmem, read_bulk_rmem, write_uniform_rmem, read_uniform_rmem}
use blue_bridge.Client.Burst.{Done, batch_write-Done}
use blue_bridge.Client.Readback.{Reads}
use blue_bridge.Client.RoundTrip.{write-read, write_uniform-read_uniform}
use blue_bridge.Client.Fetch.{Fetched, batch_read-Fetched}
use blue_bridge.Client.Fetches.{HasReadBulk, read_bulk_rmem-HasReadBulk}
use blue_bridge.Client.Uniform.{HasRoom}
use blue_bridge.Client.Single.{memories}
use blue_bridge.Types.{MemaddrBlock}

abbrev address : ℕ → ℕ → Memaddr
address subid paddr = record { subid = subid; cmd = 0; args = 0; paddr = paddr }

abbrev host : ℕ → Sockaddr
host i = record { addr = address i 0; port = 5000 }

abbrev idle_server : Server
idle_server = record { memory = λ _. 0; heap = λ _. none; sent = [] }

abbrev next_block : Server → ℕ
next_block s = 64

abbrev idle_net : Net
idle_net = record {
  servers = λ _. idle_server;
  addresses = host;
  client = host 9;
  ring = [];
  memory = λ _. 0;
}

abbrev blocks : List Memaddr
blocks = address 1 64 ∷ address 2 64 ∷ address 1 65 ∷ []

abbrev payload : List ℕ
payload = 7 ∷ 8 ∷ 9 ∷ []

abbrev read_request : Memaddr
read_request = record (address 1 64) { cmd = read_cmd; args = 2 }

process_request-Replied_example :
    Replied
      (host 9)
      (if answered read_request then 1 else 0)
      idle_server
      (process_request 64 (host 9) read_request [] idle_server)
process_request-Replied_example = process_request-Replied 64 (host 9) read_request [] idle_server

batch_write-Done_example :
    Done blocks payload 1 idle_net (batch_write next_block (host 1) blocks payload 1 idle_net)
batch_write-Done_example =
    batch_write-Done next_block (host 1) blocks payload 1 idle_net (omega arith)
      (omega arith, (omega arith, (omega arith, tt))) refl

write_bulk_rmem-Reads_example :
    (state : Sockaddr × Net) × ((write_bulk_rmem next_block (host 1) blocks 3 payload 3 idle_net
        ≡ some (exit_success, state))
      × (((state.1).ring ≡ []) × Reads 1 (take 3 blocks) payload (memories (state.1))))
write_bulk_rmem-Reads_example =
    write_bulk_rmem-Reads next_block (host 1) blocks 3 payload 3 idle_net (omega arith)
      (omega arith) (omega arith) (omega arith, (omega arith, (omega arith, tt)))
      (
        (inl (λ e. omega (arith, e)), (inr (inl (omega arith)), tt)),
        ((inl (λ e. omega (arith, e)), tt), (tt, tt)),
      )
      refl

write-read_example :
    (target' : Sockaddr) × ((net' : Net) × ((write_rmem next_block
              (host 1)
              (address 1 64)
              payload
              idle_net
            >>= (λ (s : Sockaddr × Net). read_rmem next_block (s.0) (address 1 64) 200 3 (s.1))
          ≡ some (3, (target', net')))
        × ((bytes_at 200 3 net'.memory ≡ payload) × (net'.ring ≡ []))))
write-read_example =
    write-read next_block (host 1) (address 1 64) payload 200 idle_net (omega arith) refl

batch_read-Fetched_example :
    Fetched blocks 200 2 idle_net (batch_read next_block (host 1) blocks 200 2 idle_net)
batch_read-Fetched_example =
    batch_read-Fetched next_block (host 1) blocks 200 2 idle_net (omega arith) (omega arith)
      (omega arith, (omega arith, (omega arith, tt))) refl

read_bulk_rmem-HasReadBulk_example :
    HasReadBulk blocks 200 3 idle_net (read_bulk_rmem next_block (host 1) blocks 3 200 3 idle_net)
read_bulk_rmem-HasReadBulk_example =
    read_bulk_rmem-HasReadBulk next_block (host 1) blocks 3 200 3 idle_net (omega arith)
      (omega arith) (omega arith) (omega arith) (omega arith)
      (omega arith, (omega arith, (omega arith, tt))) refl

abbrev block_of_three : MemaddrBlock
block_of_three = record { memaddr = address 1 64; length = 3; offset = 1 }

block_of_three-HasRoom : HasRoom block_of_three 2
block_of_three-HasRoom = record {
  server = omega arith;
  some_left = omega arith;
  fits = omega arith;
  length = omega arith;
  last = omega arith;
}

write_uniform-read_uniform_example :
    (target' : Sockaddr) × ((net' : Net) × (((write_uniform_rmem next_block
              (host 1)
              block_of_three
              payload
              2
              idle_net
            >>= (λ (s : ℕ × (Sockaddr × Net)).
                read_uniform_rmem next_block (s.1.0) block_of_three 200 2 (s.1.1)))
          ≡ some (exit_success, (target', net')))
        × ((bytes_at 200 2 net'.memory ≡ 7 ∷ 8 ∷ []) × (net'.ring ≡ []))))
write_uniform-read_uniform_example =
    write_uniform-read_uniform next_block (host 1) block_of_three payload 200 2 idle_net
      block_of_three-HasRoom (omega arith) (omega arith) (omega arith) refl
