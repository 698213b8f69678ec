-- ===== src/Client/Batches.antt =====
-- write_bulk_rmem of ip6/lib/client_lib.c.
use blue_bridge.Prelude.{
  ℕ, zero, suc, ◌-◌, ◌*◌, ◌/◌, ◌%◌, ◌^◌, ◌≤◌, ◌<◌, ◌≡◌, refl, subst, sym, ap, ◌∙◌, List, [], ◌∷◌,
  length, take, arith, Option, some, le→ltb, lt→leb, Bool-cases, ltb, ltb→lt, ltb→le, inl, inr,
  update, update_same,
}
use blue_bridge.Memory.{memcpy_nil}
use blue_bridge.Types.{Memaddr, Sockaddr, block_size}
use blue_bridge.Server.{Server}
use blue_bridge.Server.Requests.{All}
use blue_bridge.Net.{Net}
use blue_bridge.Client.{batch_size, ushrt_max, exit_success}
use blue_bridge.Client.Bulk.{write_first, write_bulk_rmem}
use blue_bridge.Client.Chunk.{SameFrame, same_frame}
use blue_bridge.Client.Single.{memories, write_rmem-Wrote}
use blue_bridge.Client.Burst.{stored}
use blue_bridge.Client.Readback.{AreApart, Reads, stored-Reads}
use blue_bridge.Client.Runs.{
  After, batch-After, batches-After, bind_some, no_residual, no_more, AreApart-take,
}

-- The first `size` chunks are written, no reply is left under way, and success is reported.
pub record WroteBulk (addrs : List Memaddr) (payload : List ℕ) (size : ℕ) (net : Net)
    (result : Option (ℕ × (Sockaddr × Net))) : Type 0 where
  pub target : Sockaddr
  pub net' : Net
  pub returns : result ≡ some (exit_success, (target, net'))
  pub idle : net'.ring ≡ []
  pub memory : memories net' ≡ stored (take size addrs) payload block_size (memories net)
  pub frame : SameFrame net net'

module _ (fresh : Server → ℕ) where
  single :
      (size : ℕ) (target : Sockaddr) (a : Memaddr) (addrs : List Memaddr) (num_addrs : ℕ)
      (payload : List ℕ) (net : Net)
      → size ≤ 1
      → net.ring ≡ []
      → WroteBulk
          (a ∷ addrs)
          payload
          size
          net
          (write_bulk_rmem fresh target (a ∷ addrs) num_addrs payload size net)
  unfolding write_bulk_rmem write_first
  single zero target a addrs num_addrs payload net small idle =
      let done = write_rmem-Wrote fresh target a [] net idle in
      record {
        target = done.target;
        net' = done.net';
        returns = rw done.returns refl;
        idle = done.idle;
        memory =
            done.memory
            ∙ ap (update (memories net) a.subid) (memcpy_nil a.paddr (memories net a.subid))
            ∙ (λ i j. update_same (memories net) a.subid j i);
        frame = done.frame;
      }
  single (suc zero) target a addrs num_addrs payload net small idle =
      let done = write_rmem-Wrote fresh target a (take 1 payload) net idle in
      record {
        target = done.target;
        net' = done.net';
        returns = rw done.returns refl;
        idle = done.idle;
        memory = done.memory;
        frame = done.frame;
      }
  single (suc (suc size)) target a addrs num_addrs payload net small idle = absurd (omega arith)

  several :
      (size : ℕ) (target : Sockaddr) (addrs : List Memaddr) (num_addrs : ℕ) (payload : List ℕ)
      (net : Net)
      → block_size < size
      → size ≤ num_addrs
      → num_addrs ≤ length addrs
      → All (λ a. a.subid < ushrt_max) addrs
      → net.ring ≡ []
      → WroteBulk addrs payload size net
          (write_bulk_rmem fresh target addrs num_addrs payload size net)
  unfolding write_bulk_rmem
  several size target addrs num_addrs payload net large enough fits below idle =
      let chunks = size / block_size in
      let residual = chunks % batch_size % 2 ^ 16 in
      let start : After addrs payload net (0 * batch_size) (target, net) = record {
        idle = idle;
        memory = refl;
        frame = same_frame net;
      } in
      let (state1, (e1, after1)) =
        batches-After fresh addrs payload net below (chunks / batch_size) 0 (target, net)
          (omega arith) start in
      let (state2, (e2, after2)) =
        batch-After fresh addrs payload net below (chunks - residual) residual
          (block_size * (chunks - residual)) state1 (omega arith) (omega arith) refl
          (subst (λ k. After addrs payload net k state1) (omega arith) after1) in
      let after3 = subst (λ k. After addrs payload net k state2) {y = size} (omega arith) after2 in
      record {
        target = state2.0;
        net' = state2.1;
        returns = rw (lt→leb block_size size large) (
            rw (le→ltb num_addrs chunks (omega arith))
              (bind_some _ _ _ e1 ∙ bind_some _ _ _ e2 ∙ no_more _ _ state2 (no_residual size)));
        idle = after3.idle;
        memory = after3.memory;
        frame = after3.frame;
      }

  -- A bulk write of any size to at least as many addresses (one, if it is of no byte), with no
  -- reply of before under way, succeeds and copies to each address its byte of the payload, one
  -- after the other.
  pub write_bulk_rmem-WroteBulk :
      (target : Sockaddr) (addrs : List Memaddr) (num_addrs : ℕ) (payload : List ℕ) (size : ℕ)
      (net : Net)
      → 0 < length addrs
      → size ≤ num_addrs
      → num_addrs ≤ length addrs
      → All (λ a. a.subid < ushrt_max) addrs
      → net.ring ≡ []
      → WroteBulk addrs payload size net
          (write_bulk_rmem fresh target addrs num_addrs payload size net)
  write_bulk_rmem-WroteBulk target [] num_addrs payload size net some_addr enough fits below idle =
      absurd (omega arith)
  write_bulk_rmem-WroteBulk target (a ∷ addrs) num_addrs payload size net some_addr enough fits
        below idle =
      elim (Bool-cases (ltb 1 size)) [
        | inr one ↦ single size target a addrs num_addrs payload net (ltb→le 1 size one) idle
        | inl more ↦
            several size target (a ∷ addrs) num_addrs payload net (ltb→lt 1 size more) enough fits
              below idle
      ]

  -- A bulk write of any size to at least as many addresses (one, if it is of no byte), of blocks
  -- that do not overlap and with no reply of before under way, succeeds, and each of the first
  -- addresses then holds its byte of the payload.
  pub write_bulk_rmem-Reads :
      (target : Sockaddr) (addrs : List Memaddr) (num_addrs : ℕ) (payload : List ℕ) (size : ℕ)
      (net : Net)
      → 0 < length addrs
      → size ≤ num_addrs
      → num_addrs ≤ length addrs
      → All (λ a. a.subid < ushrt_max) addrs
      → AreApart block_size addrs
      → net.ring ≡ []
      → (state : Sockaddr × Net) × ((write_bulk_rmem fresh target addrs num_addrs payload size net
            ≡ some (exit_success, state))
          × (((state.1).ring ≡ [])
              × Reads block_size (take size addrs) payload (memories (state.1))))
  write_bulk_rmem-Reads target addrs num_addrs payload size net some_addr enough fits below apart
        idle =
      let done =
        write_bulk_rmem-WroteBulk target addrs num_addrs payload size net some_addr enough fits
          below idle in
      (
        (done.target, done.net'),
        (
          done.returns,
          (
            done.idle,
            subst (Reads block_size (take size addrs) payload) (sym done.memory) (
                stored-Reads block_size (take size addrs) payload (memories net)
                  (AreApart-take block_size size addrs apart)),
          ),
        ),
      )
