-- ===== src/System/Network/Carried.antt =====
-- A lossy network stands in for the direct call.
use nctusde.Base.{
  ℕ, ◌+◌, ◌^◌, ◌<◌, ◌≡◌, refl, ap, ◌∙◌, done-injective, false, true, ◌⊎◌, inl, inr, Option, none,
  some, List, arith, Outcome, done, hang, fault, >>=-eq-done, ltb, ◌==◌,
}
use nctusde.Wire.{Request, Packet, full, request_reset}
use nctusde.Server.{Server, handle}
use nctusde.Server.Replies.{handle-replies}
use nctusde.Link.{Fate, await, checked}
use nctusde.Link.Delivery.{Delivers, replied, exchange-once}
use nctusde.Emudisk.{succ32}
use nctusde.Emudisk.Simulation.{Follows, IsSent, SameCall}
use nctusde.System.{direct_call}
use nctusde.System.Network.{Network, network_call}

-- The two runs have the same server, and `id` is larger than what it has seen, or has wrapped
-- around.
pub record IsCarried (id : ℕ) (s : Server) (n : Network) : Type 0 where
  pub same : n.server ≡ s
  pub word : id < 2 ^ 32
  pub fresh : (s.current_max_request_id < id) ⊎ ((id ≡ 0) × (0 < s.current_max_request_id))

-- To follow a run is to come to what it comes to.
Follows-done :
    {A B : Type 0} (Q : A → B → Type 0) (m : Outcome A) (m' : Outcome B)
    → ((a : A) → m ≡ done a → (b : B) × (m' ≡ done b) × Q a b)
    → Follows Q m m'
Follows-done Q (done a) m' h = h a refl
Follows-done Q hang m' h = tt
Follows-done Q fault m' h = tt

abbrev reply_of : Server × Option Packet → Outcome (Server × Packet)
reply_of (s, none) = hang
reply_of (s, some p) = done (s, p)

sent_of :
    (r : Server × Option Packet) (s : Server) (p : Packet)
    → reply_of r ≡ done (s, p)
    → r ≡ (s, some p)
sent_of (s1, none) s p h = cc
sent_of (s1, some p1) s p h = ap (λ (x : Server × Packet). (x.0, some x.1)) (done-injective h)

handled :
    (s s' : Server) (q : Request) (bytes : List ℕ) (p : Packet)
    → direct_call s q bytes ≡ done (s', p)
    → handle s (full (checked q) bytes) ≡ done (s', some p)
unfolding direct_call
handled s s' q bytes p h =
    let (r, result, rest) = >>=-eq-done (handle s (full (checked q) bytes)) reply_of h in
    result ∙ ap done (sent_of r s' p rest)

-- A request with an id that wrapped around is older than what the server has seen.
wrapped-hangs :
    (s : Server) (q : Request) (bytes : List ℕ)
    → IsSent q
    → q.id ≡ 0
    → 0 < s.current_max_request_id
    → direct_call s q bytes ≡ hang
unfolding direct_call handle
wrapped-hangs s q bytes kind zero_ seen =
    let other : (q.type == request_reset) ≡ false = ground (arith, kind) in
    let older : ltb q.id s.current_max_request_id ≡ true = ground arith in rw (other, older) refl

module _ (fates : ℕ → List Fate) (delivers : (k : ℕ) → Delivers (fates k)) where
  -- A request that the server answers is answered over the network, and by the same packet.
  carried :
      (s s' : Server) (n : Network) (q : Request) (bytes : List ℕ) (p : Packet)
      → n.server ≡ s
      → IsSent q
      → s.current_max_request_id < q.id
      → direct_call s q bytes ≡ done (s', p)
      → network_call fates n q bytes
        ≡ done
            (record { server = s'; waiting = replied (await n.waiting q) p; sent = n.sent + 1 }, p)
  unfolding network_call
  carried s s' n q bytes p same kind new direct =
      let result = handled s s' q bytes p direct in
      let (id, small, _) = handle-replies s s' (checked q) bytes p kind new result in
      let answered =
        exchange-once n.server s' n.waiting q bytes p (fates n.sent) (ground (arith, kind))
          (rw same result) id small (delivers n.sent) in
      rw answered refl

  carried-number :
      (id cur : ℕ)
      → id < 2 ^ 32
      → cur ≡ id
      → (succ32 id < 2 ^ 32) × ((cur < succ32 id) ⊎ ((succ32 id ≡ 0) × (0 < cur)))
  carried-number id cur word same = (omega arith, omega arith)

  pub network-Follows :
      (id : ℕ) (s : Server) (n : Network) (q : Request) (bytes : List ℕ)
      → IsCarried id s n
      → q.id ≡ id
      → IsSent q
      → Follows
          (SameCall IsCarried (succ32 id))
          (direct_call s q bytes)
          (network_call fates n q bytes)
  network-Follows id s n q bytes c number kind =
      Follows-done (SameCall IsCarried (succ32 id)) (direct_call s q bytes) _ (λ (s', p) direct.
        elim c.fresh [
          | inl new ↦
              let later : s.current_max_request_id < q.id = omega (arith, new, number) in
              let (_, _, cur) =
                handle-replies s s' (checked q) bytes p kind later
                  (handled s s' q bytes p direct) in
              let (word, fresh) =
                carried-number id s'.current_max_request_id c.word (cur ∙ number) in
              (
                _,
                carried s s' n q bytes p c.same kind later direct,
                (refl, record { same = refl; word = word; fresh = fresh }),
              )
          | inr (zero_, seen) ↦ cc (wrapped-hangs s q bytes kind (number ∙ zero_) seen, direct)
        ])
