-- ===== src/Client/Fetches.antt =====
-- read_bulk_rmem of ip6/lib/client_lib.c: its batches, one after the other, and a single read for a
-- size of at most one block.
use mathlib.Core.List.{append_assoc}
use blue_bridge.Prelude.{
  ℕ, zero, suc, ◌+◌, ◌-◌, ◌*◌, ◌/◌, ◌%◌, ◌^◌, ◌≤◌, ◌<◌, ◌≡◌, refl, subst, sym, ap, ap₂, ◌∙◌, List,
  [], ◌∷◌, ◌++◌, length, take, drop, arith, Option, some, length-take, length-take_le, le→ltb,
  lt→leb, Bool, true, if◌then◌else◌, ◌>>=◌, Bool-cases, ltb, ltb→lt, ltb→le, inl, inr,
}
use blue_bridge.Memory.{Bytes, bytes_at, memcpy, memcpy-append, memcpy_nil}
use blue_bridge.Types.{Memaddr, Sockaddr, block_size}
use blue_bridge.Server.{Server}
use blue_bridge.Server.Requests.{All}
use blue_bridge.Net.{Net}
use blue_bridge.Client.{batch_read, batch_size, ushrt_max, exit_success}
use blue_bridge.Client.Bulk.{read_first, read_batches, read_bulk_rmem}
use blue_bridge.Client.Runs.{All-take, All-drop, take_add, bind_some, no_residual}
use blue_bridge.Client.Fetch.{gathered, length-gathered, batch_read-Fetched}
use blue_bridge.Client.Single.{memories, read_rmem-HasRead}

gathered-append :
    (xs ys : List Memaddr) (n : ℕ) (m : ℕ → Bytes)
    → gathered (xs ++ ys) n m ≡ gathered xs n m ++ gathered ys n m
gathered-append [] ys n m = refl
gathered-append (a ∷ xs) ys n m =
    let first = bytes_at a.paddr n (m a.subid) in
    ap (λ bs. first ++ bs) (gathered-append xs ys n m)
    ∙ sym (append_assoc first (gathered xs n m) (gathered ys n m))

-- What holds when the first `k` blocks are read.
record After (addrs : List Memaddr) (rx_buf : ℕ) (net : Net) (k : ℕ) (net' : Net) : Type 0 where
  idle : net'.ring ≡ []
  own : net'.memory ≡ memcpy rx_buf (gathered (take k addrs) block_size (memories net)) net.memory
  memory : memories net' ≡ memories net

gathered-After :
    (addrs : List Memaddr) (rx_buf k j p : ℕ) (ms : ℕ → Bytes) (m : Bytes)
    → k ≤ length addrs
    → p ≡ block_size * k
    → memcpy
        (rx_buf + p)
        (gathered (take j (drop k addrs)) block_size ms)
        (memcpy rx_buf (gathered (take k addrs) block_size ms) m)
      ≡ memcpy rx_buf (gathered (take (k + j) addrs) block_size ms) m
gathered-After addrs rx_buf k j p ms m fits e =
    let first = gathered (take k addrs) block_size ms in
    let rest = gathered (take j (drop k addrs)) block_size ms in
    let count : p ≡ length first =
      omega (arith, e, length-gathered (take k addrs) block_size ms, length-take k addrs fits) in
    ap (λ l. memcpy (rx_buf + l) rest (memcpy rx_buf first m)) count
    ∙ sym (memcpy-append rx_buf first rest m)
    ∙ ap (λ bs. memcpy rx_buf bs m)
        (sym (gathered-append (take k addrs) (take j (drop k addrs)) block_size ms)
          ∙ ap (λ xs. gathered xs block_size ms) (sym (take_add k j addrs)))

module _ (fresh : Server → ℕ) (target : Sockaddr) (addrs : List Memaddr) (rx_buf : ℕ) (net : Net)
    (room : rx_buf + length addrs < 2 ^ 64) (below : All (λ a. a.subid < ushrt_max) addrs) where
  abbrev Leaves : ℕ → Option Net → Type 0
  Leaves k o = (net' : Net) × ((o ≡ some net') × After addrs rx_buf net k net')

  batch-After :
      (k j p : ℕ) (net1 : Net)
      → k + j ≤ length addrs
      → p ≡ block_size * k
      → After addrs rx_buf net k net1
      → Leaves
          (k + j)
          (batch_read fresh target (take j (drop k addrs)) (rx_buf + p) block_size net1)
  batch-After k j p net1 fits e after =
      let done =
        batch_read-Fetched fresh target (take j (drop k addrs)) (rx_buf + p) block_size net1
          (omega arith) (omega (arith, length-take_le j (drop k addrs)))
          (All-take (λ a. a.subid < ushrt_max) j _
            (All-drop (λ a. a.subid < ushrt_max) k addrs below))
          after.idle in
      (
        done.net',
        (
          done.returns,
          record {
            idle = done.idle;
            own =
                done.own
                ∙ ap₂
                    (λ ms m. memcpy (rx_buf + p) (gathered (take j (drop k addrs)) block_size ms) m)
                    after.memory after.own
                ∙ gathered-After addrs rx_buf k j p (memories net) net.memory (omega arith) e;
            memory = done.memory ∙ after.memory;
          },
        ),
      )

  batches-After :
      (batches i : ℕ) (net1 : Net)
      → (i + batches) * batch_size ≤ length addrs
      → After addrs rx_buf net (i * batch_size) net1
      → Leaves ((i + batches) * batch_size) (read_batches fresh batches i target addrs rx_buf net1)
  unfolding read_batches
  batches-After zero i net1 fits after =
      (net1, (refl, subst (λ k. After addrs rx_buf net k net1) (omega arith) after))
  batches-After (suc batches) i net1 fits after =
      let (net2, (e2, after2)) =
        batch-After (i * batch_size) batch_size (block_size * i * batch_size) net1 (omega arith)
          (omega arith) after in
      let (net3, (e3, after3)) =
        batches-After batches (i + 1) net2 (omega arith)
          (subst (λ k. After addrs rx_buf net k net2) (omega arith) after2) in
      (
        net3,
        (bind_some _ _ _ e2 ∙ e3, subst (λ k. After addrs rx_buf net k net3) (omega arith) after3),
      )

-- The client's buffer holds the first `size` blocks, no server's memory changed, and success is
-- reported.
pub record HasReadBulk (addrs : List Memaddr) (rx_buf size : ℕ) (net : Net)
    (result : Option (ℕ × (Sockaddr × Net))) : Type 0 where
  pub target : Sockaddr
  pub net' : Net
  pub returns : result ≡ some (exit_success, (target, net'))
  pub idle : net'.ring ≡ []
  pub own :
      net'.memory ≡ memcpy rx_buf (gathered (take size addrs) block_size (memories net)) net.memory
  pub memory : memories net' ≡ memories net

no_more :
    (b : Bool) (o : Option (Sockaddr × Net)) (state : Sockaddr × Net)
    → b ≡ true
    → ◌>>=◌ {B = ℕ × (Sockaddr × Net)} (if b then some state else o) (λ s. some (exit_success, s))
      ≡ some (exit_success, state)
no_more b o state e = rw e

module _ (fresh : Server → ℕ) where
  single :
      (size : ℕ) (target : Sockaddr) (a : Memaddr) (addrs : List Memaddr) (num_addrs rx_buf : ℕ)
      (net : Net)
      → size ≤ 1
      → net.ring ≡ []
      → HasReadBulk
          (a ∷ addrs)
          rx_buf
          size
          net
          (read_bulk_rmem fresh target (a ∷ addrs) num_addrs rx_buf size net)
  unfolding read_bulk_rmem read_first bytes_at
  single zero target a addrs num_addrs rx_buf net small idle =
      let done = read_rmem-HasRead fresh target a rx_buf 0 net (omega arith) idle in
      record {
        target = done.target;
        net' = done.net';
        returns = rw done.returns refl;
        idle = done.idle;
        own = done.own;
        memory = done.memory;
      }
  single (suc zero) target a addrs num_addrs rx_buf net small idle =
      let done = read_rmem-HasRead fresh target a rx_buf 1 net (omega arith) idle in
      record {
        target = done.target;
        net' = done.net';
        returns = rw done.returns refl;
        idle = done.idle;
        own = done.own;
        memory = done.memory;
      }
  single (suc (suc size)) target a addrs num_addrs rx_buf net small idle = absurd (omega arith)

  several :
      (size : ℕ) (target : Sockaddr) (addrs : List Memaddr) (num_addrs rx_buf : ℕ) (net : Net)
      → block_size < size
      → size ≤ num_addrs
      → num_addrs ≤ length addrs
      → size < 2 ^ 32
      → rx_buf + length addrs < 2 ^ 64
      → All (λ a. a.subid < ushrt_max) addrs
      → net.ring ≡ []
      → HasReadBulk addrs rx_buf size net
          (read_bulk_rmem fresh target addrs num_addrs rx_buf size net)
  unfolding read_bulk_rmem
  several size target addrs num_addrs rx_buf net large enough fits small room below idle =
      let chunks = size / block_size in
      let batches = chunks / batch_size % 2 ^ 32 in
      let residual = chunks % batch_size in
      let start : After addrs rx_buf net (0 * batch_size) net = record {
        idle = idle;
        own = sym (memcpy_nil rx_buf net.memory);
        memory = refl;
      } in
      let (net1, (e1, after1)) =
        batches-After fresh target addrs rx_buf net room below batches 0 net (omega arith) start in
      let (net2, (e2, after2)) =
        batch-After fresh target addrs rx_buf net room below (chunks - residual) residual
          (block_size * (chunks - residual)) net1 (omega arith) refl
          (subst (λ k. After addrs rx_buf net k net1) (omega arith) after1) in
      let after3 = subst (λ k. After addrs rx_buf net k net2) {y = size} (omega arith) after2 in
      record {
        target = target;
        net' = net2;
        returns = rw (lt→leb block_size size large) (
            rw (le→ltb num_addrs chunks (omega arith)) (
              bind_some _ _ _ e1
              ∙ bind_some _ _ _ e2
              ∙ no_more _ _ (target, net2) (no_residual size)));
        idle = after3.idle;
        own = after3.own;
        memory = after3.memory;
      }

  -- A bulk read of fewer than 2 ^ 32 bytes from at least as many addresses (one, if it is of none), of
  -- servers that the counters have room for, with no reply of before under way and into a buffer with room for a byte of each address below
  -- 2 ^ 64, succeeds, puts the bytes at the first addresses into the buffer in their order, and
  -- changes no server's memory.
  pub read_bulk_rmem-HasReadBulk :
      (target : Sockaddr) (addrs : List Memaddr) (num_addrs rx_buf size : ℕ) (net : Net)
      → 0 < length addrs
      → size ≤ num_addrs
      → num_addrs ≤ length addrs
      → size < 2 ^ 32
      → rx_buf + length addrs < 2 ^ 64
      → All (λ a. a.subid < ushrt_max) addrs
      → net.ring ≡ []
      → HasReadBulk addrs rx_buf size net
          (read_bulk_rmem fresh target addrs num_addrs rx_buf size net)
  read_bulk_rmem-HasReadBulk target [] num_addrs rx_buf size net some_addr enough fits small room
        below idle =
      absurd (omega arith)
  read_bulk_rmem-HasReadBulk target (a ∷ addrs) num_addrs rx_buf size net some_addr enough fits
        small room below idle =
      elim (Bool-cases (ltb 1 size)) [
        | inr one ↦ single size target a addrs num_addrs rx_buf net (ltb→le 1 size one) idle
        | inl more ↦
            several size target (a ∷ addrs) num_addrs rx_buf net (ltb→lt 1 size more) enough fits
              small room below idle
      ]
