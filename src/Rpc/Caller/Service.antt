-- ===== src/Rpc/Caller/Service.antt =====
-- The service that a call of ip6/apps/thrift/ddc_client.c reaches, at another client of the same
-- servers, and what the C library promises both.
use blue_bridge.Prelude.{
  ℕ, ◌+◌, ◌^◌, ◌≤◌, ◌<◌, ◌≡◌, ◌≢◌, ◌⊎◌, inl, inr, refl, sym, ap, ◌∙◌, List, [], arith, update,
  update_self, Option, some, Bool-cases, ◌==◌, ◌>>=◌, eq_of_==, ne_of_==,
}
use blue_bridge.Memory.{Bytes}
use blue_bridge.Types.{Memaddr, Sockaddr}
use blue_bridge.Server.{Server}
use blue_bridge.Net.{Net, Received}
use blue_bridge.Client.{free_rmem}
use blue_bridge.Server.{process_request, free_mem, acknowledge}
use blue_bridge.Server.{send_udp_raw as server_send}
use blue_bridge.Types.{free_cmd}
use blue_bridge.Net.{send_udp_raw, cooked_send, handle_packet, simple_epoll_rcv}
use blue_bridge.Client.Allocation.{taken}
use blue_bridge.Rpc.Ddc.{increment_array}

-- The other client, where the service runs.
pub record Machine : Type 0 where
  pub client : Sockaddr
  pub ring : List Received
  pub memory : Bytes

-- The servers seen from a machine.
abbrev pub connected : Machine → Net → Net
connected machine net = record net {
  client = machine.client;
  ring = machine.ring;
  memory = machine.memory;
}

abbrev pub machine_of : Net → Machine
machine_of net = record { client = net.client; ring = net.ring; memory = net.memory }

-- What calloc documents of its result: a block that lies in memory, apart from those in use.
pub record IsFree (n p : ℕ) (heap : ℕ → Option ℕ) : Type 0 where
  pub fits : p + n ≤ 2 ^ 64
  pub below : p < 2 ^ 64
  pub apart : (b k : ℕ) → heap b ≡ some k → (b + k ≤ p) ⊎ (p + n ≤ b)

-- The blocks in use with `n` bytes at `p` of server `i` among them.
abbrev pub with_block : (i p n : ℕ) → (ℕ → ℕ → Option ℕ) → ℕ → ℕ → Option ℕ
with_block i p n before = update before i (update (before i) p (some n))

module _ (fresh : Server → ℕ) (host : Memaddr) where
  -- A call that arrives, is handled at the other machine, and is answered.
  abbrev pub served :
      Machine
      → (int_arr offset : ℕ) → Sockaddr
      → (pointer : List ℕ) → (value length : ℕ) → Net
      → Option (List ℕ × Net)
  served machine int_arr offset target pointer value n net = do
    (returned, (target', net')) ←
        increment_array fresh host int_arr offset target pointer value n (connected machine net)
    some (returned, connected (machine_of net) net')

-- The block that the service's host allocates next lies apart from the one that the caller
-- allocated.
pub block-apart :
    (n i j p q : ℕ) (before : ℕ → ℕ → Option ℕ) (heap : ℕ → Option ℕ)
    → heap ≡ with_block i p (taken n) before j
    → IsFree (taken n) q heap
    → (i ≢ j) ⊎ ((p + n ≤ q) ⊎ (q + taken n ≤ p))
block-apart n i j p q before heap e free = elim (Bool-cases (i == j)) [
  | inl same ↦ inr (
      widen (
        free.apart p (taken n) (
          ap (λ f. f p) e
          ∙ ap (λ k. with_block i p (taken n) before k p) (sym (eq_of_== i j same))
          ∙ ap (λ f. f p) (update_self before i (update (before i) p (some (taken n))))
          ∙ update_self (before i) p (some (taken n)))))
  | inr other ↦ inl (ne_of_== i j other)
]
  where
    widen : (p + taken n ≤ q) ⊎ (q + taken n ≤ p) → (p + n ≤ q) ⊎ (q + taken n ≤ p)
    widen (inl h) = inl (ground arith)
    widen (inr h) = inr h

pub record Freed (net : Net) (result : Option (Memaddr × (Sockaddr × Net))) : Type 0 where
  pub address : Memaddr
  pub target : Sockaddr
  pub net' : Net
  pub returns : result ≡ some (address, (target, net'))
  pub idle : net'.ring ≡ []

pub free_rmem-Freed :
    (fresh : Server → ℕ) (target : Sockaddr) (a : Memaddr) (net : Net)
    → net.ring ≡ []
    → Freed net (free_rmem fresh target a net)
unfolding free_rmem send_udp_raw cooked_send handle_packet simple_epoll_rcv process_request free_mem
    acknowledge server_send
free_rmem-Freed fresh target a net idle =
    let server =
      free_mem net.client (record a { cmd = free_cmd })
        (record (net.servers a.subid) { sent = [] }) in
    record {
      address = record (net.client.addr) { cmd = free_cmd; paddr = a.paddr };
      target = net.addresses a.subid;
      net' = record net { servers = update net.servers a.subid server; ring = [] };
      returns = rw idle refl;
      idle = refl;
    }
