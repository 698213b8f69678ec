-- ===== src/Client/Burst.antt =====
-- batch_write of ip6/lib/client_lib.c: a burst to several servers.
use blue_bridge.Prelude.{
  ℕ, zero, suc, ◌+◌, ◌%◌, ◌^◌, ◌<◌, ◌≡◌, refl, ap, ◌∙◌, List, [], ◌∷◌, length, take, drop, arith,
  update, update_self, Option, some,
}
use blue_bridge.Memory.{Bytes, memcpy}
use blue_bridge.Types.{Memaddr, Sockaddr}
use blue_bridge.Server.Requests.{All}
use blue_bridge.Server.{Server}
use blue_bridge.Net.{Net, cooked_batched_send}
use blue_bridge.Client.{write_pkts, await, batch_write, ushrt_max}
use blue_bridge.Client.Counts.{
  bump, bump_le, totals, pending, pending-bump, pending_none, le-totals, totals_le,
  write_pkts-totals,
}
use blue_bridge.Client.Chunk.{cooked_send-Sent, SameFrame, same_frame, frame_trans}
use blue_bridge.Client.Await.{await-drop}

-- The memories of the servers after a burst: the chunks copied one by one.
abbrev pub stored : List Memaddr → List ℕ → ℕ → (ℕ → Bytes) → ℕ → Bytes
stored [] payload n m = m
stored (a ∷ addrs) payload n m =
    stored addrs (drop n payload) n (update m a.subid (memcpy a.paddr (take n payload) (m a.subid)))

-- What a burst does, with the number of its replies.
pub record Burst (addrs : List Memaddr) (payload : List ℕ) (n replies : ℕ) (net net' : Net)
    : Type 0 where
  pub ring : length net'.ring ≡ length net.ring + replies
  pub memory : (λ j. (net'.servers j).memory) ≡ stored addrs payload n (λ j. (net.servers j).memory)
  pub frame : SameFrame net net'

pub record Done (addrs : List Memaddr) (payload : List ℕ) (n : ℕ) (net : Net)
    (result : Option (Sockaddr × Net)) : Type 0 where
  pub target : Sockaddr
  pub net' : Net
  pub returns : result ≡ some (target, net')
  pub idle : net'.ring ≡ []
  pub memory : (λ j. (net'.servers j).memory) ≡ stored addrs payload n (λ j. (net.servers j).memory)
  pub frame : SameFrame net net'

drop_all : {A : Type 0} (k : ℕ) (xs : List A) → length xs ≡ k → drop k xs ≡ []
drop_all zero [] e = refl
drop_all (suc k) (x ∷ xs) e = drop_all k xs (omega arith)
drop_all zero (x ∷ xs) e = absurd (omega arith)
drop_all (suc k) [] e = refl

module _ (fresh : Server → ℕ) where
  pub burst :
      (m port : ℕ) (addrs : List Memaddr) (payload : List ℕ) (n : ℕ) (c t : ℕ → ℕ) (net : Net)
      → ((j : ℕ) → c j + length addrs < 2 ^ 16)
      → All (λ a. a.subid < m) addrs
      → t ≡ totals c addrs
      → Burst addrs payload n
          (pending m c t)
          net
          (cooked_batched_send fresh t (write_pkts port addrs payload n c).0 net)
  unfolding cooked_batched_send write_pkts
  burst m port [] payload n c t net small below e = record {
    ring = omega (arith, ap (pending m c) e ∙ pending_none m c);
    memory = refl;
    frame = same_frame net;
  }
  burst m port (a ∷ addrs) payload n c t net small below e =
      let s = a.subid in
      let small' : (j : ℕ) → bump c s j + length addrs < 2 ^ 16 =
        λ j. omega (arith, small j, bump_le c s j) in
      let e' : t s ≡ totals (bump c s) addrs s = ap (λ f. f s) e in
      let lt : c s < t s = omega (
        arith,
        le-totals (bump c s) addrs s small',
        e',
        small s,
        update_self c s ((c s + 1) % 2 ^ 32),
      ) in
      let lt' : t s < 2 ^ 16 = omega (arith, totals_le (bump c s) addrs s small', e', small' s) in
      let now =
        cooked_send-Sent fresh t a port ((c s + 1) % 2 ^ 32) (take n payload) net
          (omega (arith, small s)) lt' in
      let rest = burst m port addrs (drop n payload) n (bump c s) t _ small' (below.1) e in
      record {
        ring = omega (
          arith,
          rest.ring,
          now.ring,
          pending-bump m c t s (omega (arith, small s)) lt (below.0),
        );
        memory = rest.memory ∙ ap (stored addrs (drop n payload) n) now.memory;
        frame = frame_trans rest.frame now.frame;
      }

  awaited :
      (m : ℕ) (target : Sockaddr) (addrs : List Memaddr) (payload : List ℕ) (n : ℕ) (net : Net)
      → length addrs < 2 ^ 16
      → All (λ a. a.subid < m) addrs
      → net.ring ≡ []
      → let pkts = write_pkts target.port addrs payload n (λ _. 0) in
        Done addrs payload n net
          (await m pkts.1 (target, cooked_batched_send fresh pkts.1 pkts.0 net))
  awaited m target addrs payload n net small below idle =
      let pkts = write_pkts target.port addrs payload n (λ _. 0) in
      let sent =
        burst m target.port addrs payload n (λ _. 0) pkts.1 net (λ j. omega arith) below
          (write_pkts-totals target.port addrs payload n (λ _. 0)) in
      let count : length (cooked_batched_send fresh pkts.1 pkts.0 net).ring
          ≡ pending m (λ _. 0) pkts.1 =
        omega (arith, sent.ring, ap length idle) in
      let (target', returns) =
        await-drop m pkts.1 target (cooked_batched_send fresh pkts.1 pkts.0 net)
          (omega (arith, count)) in
      record {
        target = target';
        net' = _;
        returns = returns;
        idle = drop_all _ _ count;
        memory = sent.memory;
        frame = record {
          heaps = sent.frame.heaps;
          addresses = sent.frame.addresses;
          client = sent.frame.client;
          own = sent.frame.own;
        };
      }

  -- A burst write to servers that the counters have room for, with no reply of before under way,
  -- waits for no packet that does not come, leaves no reply behind, and has each server's memory
  -- hold the chunks copied to it, one after the other.
  pub batch_write-Done :
      (target : Sockaddr) (addrs : List Memaddr) (payload : List ℕ) (n : ℕ) (net : Net)
      → length addrs < 2 ^ 16
      → All (λ a. a.subid < ushrt_max) addrs
      → net.ring ≡ []
      → Done addrs payload n net (batch_write fresh target addrs payload n net)
  unfolding batch_write
  batch_write-Done target addrs payload n net small below idle =
      awaited ushrt_max target addrs payload n net small below idle
