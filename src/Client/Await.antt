-- ===== src/Client/Await.antt =====
-- The receives after a burst, at the end of batch_write (ip6/lib/client_lib.c).
use blue_bridge.Prelude.{
  ℕ, zero, suc, ◌≤◌, ◌<◌, ◌≡◌, inl, inr, refl, List, [], ◌∷◌, length, drop, arith, ltb, ◌==◌, some,
  ◌>>=◌, false, not, Bool-cases,
}
use blue_bridge.Types.{Sockaddr}
use blue_bridge.Net.{Net, Received, simple_epoll_rcv}
use blue_bridge.Client.{await}
use blue_bridge.Client.Counts.{pending}

ltb_zero : (x : ℕ) → ltb 0 x ≡ not (x == 0)
ltb_zero x = ground arith

drop-cons :
    {A : Type 0} (k : ℕ) (xs : List A) → k < length xs → (x : A) × (drop k xs ≡ x ∷ drop (suc k) xs)
drop-cons zero (x ∷ xs) h = (x, refl)
drop-cons (suc k) (x ∷ xs) h = drop-cons k xs (omega arith)
drop-cons k [] h = absurd (omega arith)

le_pending : {m : ℕ} (n : ℕ) (c t : ℕ → ℕ) → pending (suc n) c t ≤ m → pending n c t ≤ m
le_pending n c t h = ground arith

lt_of_pending :
    {A : Type 0} (n : ℕ) (t : ℕ → ℕ) (xs : List A)
    → (t n == 0) ≡ false
    → pending (suc n) (λ _. 0) t ≤ length xs
    → pending n (λ _. 0) t < length xs
lt_of_pending n t xs h k = ground arith

receive :
    (net : Net) (ring : List Received) (x : Received) (rest : List Received)
    → ring ≡ x ∷ rest
    → ◌>>=◌ {B = Sockaddr × Net}
        (simple_epoll_rcv (record net { ring = ring }))
        (λ r. some (r.0.source, r.1))
      ≡ some (x.source, record net { ring = rest })
unfolding simple_epoll_rcv
receive net ring x rest e = rw e

-- As many packets as there are servers to wait for are received, and no other.
pub await-drop :
    (n : ℕ) (t : ℕ → ℕ) (target : Sockaddr) (net : Net)
    → pending n (λ _. 0) t ≤ length net.ring
    → (target' : Sockaddr) × (await n t (target, net)
        ≡ some (target', record net { ring = drop (pending n (λ _. 0) t) net.ring }))
unfolding await
await-drop zero t target net h = (target, refl)
await-drop (suc n) t target net h =
    let (target', e) = await-drop n t target net (le_pending n (λ _. 0) t h) in
    elim (Bool-cases (t n == 0)) [
      | inl unsent ↦ (target', rw e (rw unsent (rw (ltb_zero (t n)) (rw unsent refl))))
      | inr sent ↦
          let (received, f) =
            drop-cons (pending n (λ _. 0) t) net.ring (lt_of_pending n t net.ring sent h) in
          (received.source, rw e (rw sent (rw (ltb_zero (t n)) (rw sent (receive net _ _ _ f)))))
    ]
