-- ===== src/Client/Readback.antt =====
-- What the servers' memories hold after a burst of writes (batch_write of ip6/lib/client_lib.c).
use blue_bridge.Prelude.{
  length-take_le, ℕ, ◌+◌, ◌≤◌, ◌<◌, ◌^◌, ◌≡◌, ◌≢◌, ◌⊎◌, inl, inr, refl, subst, sym, ap, ◌∙◌, List,
  [], ◌∷◌, length, take, drop, arith, update, update_self, some, ◌==◌, eq_of_==, Bool-cases,
}
use blue_bridge.Memory.{Bytes, memcpy, bytes_at, bytes_at-memcpy, bytes_at-memcpy_apart}
use blue_bridge.Types.{Memaddr, Sockaddr}
use blue_bridge.Server.{Server}
use blue_bridge.Server.Requests.{All}
use blue_bridge.Net.{Net}
use blue_bridge.Client.{batch_write, ushrt_max}
use blue_bridge.Client.Burst.{stored, batch_write-Done}

-- Blocks of `n` bytes that do not overlap: other servers', or apart.
abbrev pub Apart : ℕ → Memaddr → Memaddr → Type 0
Apart n a b = (a.subid ≢ b.subid) ⊎ ((a.paddr + n ≤ b.paddr) ⊎ (b.paddr + n ≤ a.paddr))

abbrev pub AreApart : ℕ → List Memaddr → Type 0
AreApart n [] = Unit {0}
AreApart n (a ∷ addrs) = All (Apart n a) addrs × AreApart n addrs

-- Each address holds its chunk of the payload.
abbrev pub Reads : ℕ → List Memaddr → List ℕ → (ℕ → Bytes) → Type 0
Reads n [] payload m = Unit {0}
Reads n (a ∷ addrs) payload m =
    (bytes_at a.paddr (length (take n payload)) (m a.subid) ≡ take n payload)
    × Reads n addrs (drop n payload) m

same_server :
    (n k : ℕ) (a b : Memaddr) (bs : List ℕ) (m : ℕ → Bytes)
    → k ≤ n
    → length bs ≤ n
    → a.subid ≡ b.subid
    → Apart n a b
    → bytes_at a.paddr k (memcpy b.paddr bs (m b.subid)) ≡ bytes_at a.paddr k (m a.subid)
same_server n k a b bs m small short e (inl other) = absurd (other e)
same_server n k a b bs m small short e (inr (inl h)) =
    bytes_at-memcpy_apart a.paddr k b.paddr bs (m b.subid) (inl (omega arith))
    ∙ ap (λ i. bytes_at a.paddr k (m i)) (sym e)
same_server n k a b bs m small short e (inr (inr h)) =
    bytes_at-memcpy_apart a.paddr k b.paddr bs (m b.subid) (inr (omega arith))
    ∙ ap (λ i. bytes_at a.paddr k (m i)) (sym e)

pub copied-Apart :
    (n k : ℕ) (a b : Memaddr) (bs : List ℕ) (m : ℕ → Bytes)
    → k ≤ n
    → length bs ≤ n
    → Apart n a b
    → bytes_at a.paddr k (update m b.subid (memcpy b.paddr bs (m b.subid)) a.subid)
      ≡ bytes_at a.paddr k (m a.subid)
copied-Apart n k a b bs m small short apart = elim (Bool-cases (a.subid == b.subid)) [
  | inl same ↦ rw same (same_server n k a b bs m small short (eq_of_== a.subid b.subid same) apart)
  | inr other ↦ rw other refl
]

pub stored-Apart :
    (n k : ℕ) (a : Memaddr) (addrs : List Memaddr) (payload : List ℕ) (m : ℕ → Bytes)
    → k ≤ n
    → All (Apart n a) addrs
    → bytes_at a.paddr k (stored addrs payload n m a.subid) ≡ bytes_at a.paddr k (m a.subid)
stored-Apart n k a [] payload m small apart = refl
stored-Apart n k a (b ∷ addrs) payload m small apart =
    stored-Apart n k a addrs (drop n payload) _ small (apart.1)
    ∙ copied-Apart n k a b (take n payload) m small (length-take_le n payload) (apart.0)

pub stored-Reads :
    (n : ℕ) (addrs : List Memaddr) (payload : List ℕ) (m : ℕ → Bytes)
    → AreApart n addrs
    → Reads n addrs payload (stored addrs payload n m)
stored-Reads n [] payload m apart = tt
stored-Reads n (a ∷ addrs) payload m apart = (
  stored-Apart n _ a addrs (drop n payload) _ (length-take_le n payload) (apart.0)
      ∙ ap (bytes_at a.paddr (length (take n payload))) (update_self m a.subid _)
      ∙ bytes_at-memcpy a.paddr (take n payload) (m a.subid),
  stored-Reads n addrs (drop n payload) _ (apart.1),
)

module _ (fresh : Server → ℕ) where
  -- After a burst write to blocks that do not overlap, each server holds at each address the chunk
  -- that was meant for it.
  pub batch_write-Reads :
      (target : Sockaddr) (addrs : List Memaddr) (payload : List ℕ) (n : ℕ) (net : Net)
      → length addrs < 2 ^ 16
      → All (λ a. a.subid < ushrt_max) addrs
      → AreApart n addrs
      → net.ring ≡ []
      → (target' : Sockaddr) × ((net' : Net) × ((batch_write fresh target addrs payload n net
              ≡ some (target', net'))
            × Reads n addrs payload (λ j. (net'.servers j).memory)))
  batch_write-Reads target addrs payload n net small below apart idle =
      let done = batch_write-Done fresh target addrs payload n net small below idle in
      (
        done.target,
        (
          done.net',
          (
            done.returns,
            subst (Reads n addrs payload) (sym done.memory) (stored-Reads n addrs payload _ apart),
          ),
        ),
      )
