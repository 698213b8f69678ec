-- ===== src/Vmem/Rmem/Allocation/Ready.antt =====
-- rmem_allocate of ip6/lib/vmem/rmem.c: what it leaves is a store for frames.
use native.Mathlib.Nat.{mul-suc, mul-le-mul_left, div-add-mod, mul_comm}
use mathlib.Core.Option.{map}
use blue_bridge.Prelude.{
  ℕ, suc, ◌+◌, ◌-◌, ◌*◌, ◌/◌, ◌^◌, ◌≤◌, ◌<◌, ◌≡◌, refl, ap, subst, ◌∙◌, true, false, inl, inr,
  Option, Option-cases, some, List, [], ◌∷◌, length, has, ◌==◌, arith,
}
use blue_bridge.Types.{Memaddr, MemaddrBlock, Sockaddr, block_size}
use blue_bridge.Server.{Server}
use blue_bridge.Net.{Net}
use blue_bridge.Client.{addr_list, request_blocks, allocate_bulk_rmem, allocate_uniform_rmem}
use blue_bridge.Client.Allocation.{allocate_uniform_rmem-Allocated}
use blue_bridge.Client.Runs.{bind_some}
use blue_bridge.Vmem.Rmem.{Rmem, IsRemote}
use blue_bridge.Vmem.Rmem.Allocation.{copy_list, fill_hosts, rmem_allocate}
use blue_bridge.Vmem.Rmem.Allocation.Spread.{Filled, copy_list-Filled}

-- No host lies on a server of `used`, or on one of another.
abbrev pub IsNew : List ℕ → List Memaddr → Type 0
IsNew used [] = Unit {0}
IsNew used (host ∷ hosts) = (has host.subid used ≡ false) × IsNew (host.subid ∷ used) hosts

-- All blocks are placed, and no reply is under way.
record Spread (nblocks : ℕ) (result : Option ((ℕ → Memaddr) × (Sockaddr × Net))) : Type 0 where
  mem_list : ℕ → Memaddr
  target : Sockaddr
  net' : Net
  returns : result ≡ some (mem_list, (target, net'))
  idle : net'.ring ≡ []
  used : List ℕ
  filled : Filled nblocks mem_list used

module _ (fresh : Server → ℕ) where
  bulk-uniform :
      (target : Sockaddr) (n : ℕ) (net : Net)
      → allocate_bulk_rmem fresh target n net
        ≡ map
            (λ (r : MemaddrBlock × (Sockaddr × Net)). (addr_list r.0.memaddr 0 n, (r.1.0, r.1.1)))
            (allocate_uniform_rmem fresh target n net)
  unfolding allocate_bulk_rmem allocate_uniform_rmem
  bulk-uniform target n net = elim (Option-cases (request_blocks fresh target n net)) [
    | inl e ↦ rw e refl
    | inr (r, e) ↦ rw e refl
  ]

  module _ (num_hosts nblocks split : ℕ) (shares : split * num_hosts ≤ nblocks)
      (small : nblocks < 2 ^ 64) (calloc : (s : Server) → fresh s + nblocks ≤ 2 ^ 64) where
    shares_le : (j : ℕ) → j ≤ num_hosts → split * j ≤ nblocks
    shares_le j h = omega (arith, shares, mul-le-mul_left split h)

    -- One host's share.
    record Share (k count : ℕ) (mem_list : ℕ → Memaddr) (used : List ℕ) (host : Memaddr)
        (target : Sockaddr) (net : Net) : Type 0 where
      temp : List Memaddr
      target' : Sockaddr
      net' : Net
      returns :
          allocate_bulk_rmem fresh (record target { addr = host }) count net
          ≡ some (temp, (target', net'))
      idle : net'.ring ≡ []
      addresses : net'.addresses ≡ net.addresses
      filled : Filled (k + count) (copy_list k temp mem_list) (host.subid ∷ used)

    share :
        (k count : ℕ) (mem_list : ℕ → Memaddr) (used : List ℕ) (host : Memaddr) (target : Sockaddr)
        (net : Net)
        → count ≤ nblocks
        → Filled k mem_list used
        → has host.subid used ≡ false
        → (net.addresses host.subid).addr.subid ≡ host.subid
        → net.ring ≡ []
        → Share k count mem_list used host target net
    share k count mem_list used host target net le filled new route idle =
        let got =
          allocate_uniform_rmem-Allocated fresh (record target { addr = host }) count net
            (omega arith) idle in
        let a = got.block.memaddr in
        let e = got.server ∙ route in
        record {
          temp = addr_list a 0 count;
          target' = got.target';
          net' = got.net';
          returns =
              bulk-uniform (record target { addr = host }) count net
              ∙ ap
                  (map (λ (r : MemaddrBlock × (Sockaddr × Net)).
                    (addr_list r.0.memaddr 0 count, (r.1.0, r.1.1))))
                  got.returns;
          idle = got.idle;
          addresses = got.addresses;
          filled =
              subst
                (λ s. Filled (k + count) (copy_list k (addr_list a 0 count) mem_list) (s ∷ used)) e
                (copy_list-Filled k count mem_list used a filled (ap (λ s. has s used) e ∙ new)
                  (omega (arith, got.paddr, calloc (net.servers host.subid))));
        }

    fill_hosts-Spread :
        (i : ℕ) (host : Memaddr) (hosts : List Memaddr) (mem_list : ℕ → Memaddr) (used : List ℕ)
        (target : Sockaddr) (net : Net)
        → i + suc (length hosts) ≡ num_hosts
        → Filled (split * i) mem_list used
        → IsNew used (host ∷ hosts)
        → ((j : ℕ) → (net.addresses j).addr.subid ≡ j)
        → net.ring ≡ []
        → Spread nblocks
            (fill_hosts fresh num_hosts nblocks split i (host ∷ hosts) mem_list target net)
    unfolding fill_hosts
    fill_hosts-Spread i host [] mem_list used target net e filled new route idle =
        let whole = shares_le i (omega arith) in
        let got =
          share (split * i) (nblocks - split * i) mem_list used host target net (omega arith) filled
            (new.0) (route host.subid) idle in
        let last : (i == num_hosts - 1) ≡ true = ground (arith, e) in
        rw last (record {
          mem_list = copy_list (split * i) got.temp mem_list;
          target = got.target';
          net' = got.net';
          returns = bind_some _ _ _ got.returns;
          idle = got.idle;
          used = host.subid ∷ used;
          filled =
              subst (λ k. Filled k (copy_list (split * i) got.temp mem_list) (host.subid ∷ used))
                {x = split * i + (nblocks - split * i)} {y = nblocks} (omega (arith, whole))
                got.filled;
        })
    fill_hosts-Spread i host (host2 ∷ hosts) mem_list used target net e filled new route idle =
        let upto = shares_le (i + 1) (omega arith) in
        let got =
          share (split * i) split mem_list used host target net
            (omega (arith, upto, mul-suc split i)) filled (new.0) (route host.subid) idle in
        let rest =
          fill_hosts-Spread (i + 1) host2 hosts (copy_list (split * i) got.temp mem_list)
            (host.subid ∷ used) got.target' got.net' (omega arith)
            (subst (λ k. Filled k (copy_list (split * i) got.temp mem_list) (host.subid ∷ used))
              {x = split * i + split} {y = split * (i + 1)} (omega (arith, mul-suc split i))
              got.filled)
            (new.1) (λ j. ap (λ f. (f j).addr.subid) got.addresses ∙ route j) got.idle in
        let inner : (i == num_hosts - 1) ≡ false = ground (arith, e) in
        rw inner (record {
          mem_list = rest.mem_list;
          target = rest.target;
          net' = rest.net';
          returns = bind_some _ _ _ got.returns ∙ rest.returns;
          idle = rest.idle;
          used = rest.used;
          filled = rest.filled;
        })

  -- With at least one host, each on a server of its own that answers from its own subnet, and a
  -- calloc whose blocks lie in memory, an allocation of fewer than 2 ^ 31 blocks ends with a remote
  -- memory of that many blocks, which do not overlap, and leaves no reply under way.
  pub rmem_allocate-IsRemote :
      (host : Memaddr) (hosts : List Memaddr) (nblocks : ℕ) (garbage : ℕ → Memaddr)
      (target : Sockaddr) (net : Net)
      → nblocks < 2 ^ 31
      → IsNew [] (host ∷ hosts)
      → ((j : ℕ) → (net.addresses j).addr.subid ≡ j)
      → ((s : Server) → fresh s + nblocks ≤ 2 ^ 64)
      → net.ring ≡ []
      → (r : Rmem) × (rmem_allocate fresh (host ∷ hosts) nblocks garbage target net ≡ some r)
        × IsRemote block_size r
        × (r.nblocks ≡ nblocks)
  unfolding rmem_allocate
  rmem_allocate-IsRemote host hosts nblocks garbage target net small new route calloc idle =
      let num_hosts = suc (length hosts) in
      let split = nblocks / num_hosts in
      let shares : split * num_hosts ≤ nblocks =
        omega (arith, div-add-mod nblocks num_hosts, mul_comm split num_hosts) in
      let start : Filled (split * 0) garbage [] = record {
        known = λ b h. absurd (omega (arith, h));
        apart = λ b c h k ne. absurd (omega (arith, h));
      } in
      let got =
        fill_hosts-Spread num_hosts nblocks split shares (omega (arith, small)) calloc 0 host hosts
          garbage [] target net (omega arith) start new route idle in
      let r : Rmem = record {
        mem_list = got.mem_list;
        block_size = block_size;
        nblocks = nblocks;
        target = got.target;
        net = got.net';
      } in
      (
        r,
        bind_some _ _ _ got.returns,
        record {
          block_size = refl;
          transport = refl;
          small = omega arith;
          idle = got.idle;
          apart = got.filled.apart;
        },
        refl,
      )
