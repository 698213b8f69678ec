-- ===== src/Server/Requests.antt =====
-- The replies of the server of ip6/lib/server_lib.c.
use mathlib.Core.List.{append-nil}
use blue_bridge.Prelude.{
  ℕ, suc, ◌%◌, ◌/◌, ◌^◌, ◌<◌, ◌≡◌, inl, inr, refl, sym, ap, subst, List, [], ◌∷◌, ◌++◌, zero, ◌∙◌,
  length, arith, ◌==◌, if◌then◌else◌, Bool, ◌||◌, ◌&&◌, not, leb, Bool-cases,
}
use blue_bridge.Types.{Memaddr, PktRqst, Sockaddr}
use blue_bridge.Server.{Server, process_request}

-- A command that the server knows.
abbrev pub known : ℕ → Bool
known c = leb 1 c && leb c 8

-- The last packet of a burst: its number is the number of packets.
abbrev pub last_of_burst : Memaddr → Bool
last_of_burst a = a.args % 2 ^ 16 == a.args / 2 ^ 16 % 2 ^ 16

-- Whether a request is answered: all known ones but a burst write that is not its burst's last.
abbrev pub answered : Memaddr → Bool
answered a = known a.cmd && (not (a.cmd == 6) || last_of_burst a)

-- A packet that goes back to where the request came from.
pub record GoesTo (target_ip : Sockaddr) (p : PktRqst) : Type 0 where
  pub port : p.dst_port ≡ target_ip.port
  pub subid : p.dst_addr.subid ≡ target_ip.addr.subid
  pub args : p.dst_addr.args ≡ target_ip.addr.args

abbrev pub All {ℓ κ} : {A : Type ℓ} → (A → Type κ) → List A → Type κ
All P [] = Unit
All P (x ∷ xs) = P x × All P xs

-- `n` packets were sent, all of them back.
pub record Replied (target_ip : Sockaddr) (n : ℕ) (s s' : Server) : Type 0 where
  pub replies : List PktRqst
  pub sent : s'.sent ≡ s.sent ++ replies
  pub count : length replies ≡ n
  pub back : All (GoesTo target_ip) replies

module _ (fresh : ℕ) (target_ip : Sockaddr) (a : Memaddr) (bs : List ℕ) (s : Server) where
  abbrev Replies : ℕ → Type 0
  Replies c =
      Replied target_ip (if answered (record a { cmd = c }) then 1 else 0) s
        (process_request fresh target_ip (record a { cmd = c }) bs s)

  one :
      (s' : Server) (p : PktRqst)
      → s'.sent ≡ s.sent ++ p ∷ []
      → GoesTo target_ip p
      → Replied target_ip 1 s s'
  one s' p e g = record { replies = p ∷ []; sent = e; count = refl; back = (g, tt) }

  none_sent : (s' : Server) → s'.sent ≡ s.sent → Replied target_ip 0 s s'
  none_sent s' e = record {
    replies = [];
    sent = e ∙ sym (append-nil s.sent);
    count = refl;
    back = tt;
  }

  ignored : (c : ℕ) → 8 < c → process_request fresh target_ip (record a { cmd = c }) bs s ≡ s
  unfolding process_request
  ignored c h = ground arith

  silent : (c : ℕ) → 8 < c → ◌≡◌ {A = ℕ} (if answered (record a { cmd = c }) then 1 else 0) 0
  silent c h = ground arith

  unknown : (c : ℕ) → 8 < c → Replies c
  unknown c h =
      subst
        (λ n. Replied target_ip n s (process_request fresh target_ip (record a { cmd = c }) bs s))
        (sym (silent c h)) (none_sent _ (ap (λ (x : Server). x.sent) (ignored c h)))

  by_command : (c : ℕ) → Replies c
  unfolding process_request
  by_command zero = none_sent _ refl
  by_command (suc zero) = one _ _ refl (record { port = refl; subid = refl; args = refl })
  by_command (suc (suc zero)) = one _ _ refl (record { port = refl; subid = refl; args = refl })
  by_command (suc (suc (suc zero))) =
      one _ _ refl (record { port = refl; subid = refl; args = refl })
  by_command (suc (suc (suc (suc zero)))) =
      one _ _ refl (record { port = refl; subid = refl; args = refl })
  by_command (suc (suc (suc (suc (suc zero))))) =
      one _ _ refl (record { port = refl; subid = refl; args = refl })
  by_command (suc (suc (suc (suc (suc (suc zero)))))) = elim (Bool-cases (last_of_burst a)) [
    | inl is_last ↦ rw is_last (one _ _ refl (record { port = refl; subid = refl; args = refl }))
    | inr inner ↦ rw inner (none_sent _ refl)
  ]
  by_command (suc (suc (suc (suc (suc (suc (suc zero))))))) =
      one _ _ refl (record { port = refl; subid = refl; args = refl })
  by_command (suc (suc (suc (suc (suc (suc (suc (suc zero)))))))) =
      one _ _ refl (record { port = refl; subid = refl; args = refl })
  by_command (suc (suc (suc (suc (suc (suc (suc (suc (suc c))))))))) =
      unknown (suc (suc (suc (suc (suc (suc (suc (suc (suc c))))))))) (omega arith)

  -- Every request is answered by exactly one packet, back to where it came from, if its command is
  -- known and it is no inner packet of a burst write, and else by none.
  pub process_request-Replied :
      Replied target_ip (if answered a then 1 else 0) s (process_request fresh target_ip a bs s)
  process_request-Replied = by_command a.cmd
