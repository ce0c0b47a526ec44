-- ===== src/Link/Receive.antt =====
-- Which datagrams nctuss_receive_skb takes for the reply.
use nctusde.Base.{
  ℕ, ◌+◌, ◌≡◌, ◌≢◌, refl, inl, inr, Bool, true, some, List, [], ◌∷◌, arith, done, Outcome, ◌>>=◌,
  false, subst, done-injective, >>=-eq-done, Bool-cases,
}
use nctusde.Wire.{Request, Packet}
use nctusde.Link.{
  Waiting, Frame, receive_skb, poll, poll_until_replied, send_until_replied,
  communicate_with_emulator, await, is_ours,
}

-- While `id` is waited for: a reply that was taken has that id.
pub record IsWaiting (id : ℕ) (w : Waiting) : Type 0 where
  pub waiting : w.current_waiting_reply_id ≡ id
  pub matched : (p : Packet) → w.skb_replied ≡ true → w.skb ≡ some p → p.reply.id ≡ id

receive_skb-IsWaiting :
    (id : ℕ) (w w' : Waiting) (f : Frame)
    → IsWaiting id w
    → receive_skb w f ≡ done w'
    → IsWaiting id w'
unfolding receive_skb
receive_skb-IsWaiting id w w' f h e = record {
  waiting = ground (arith, h.waiting);
  matched = λ p r s. ground (arith, h.waiting, h.matched p);
}

poll-IsWaiting :
    (id : ℕ) (w w' : Waiting) (fs : List Frame)
    → IsWaiting id w
    → poll w fs ≡ done w'
    → IsWaiting id w'
unfolding poll
poll-IsWaiting id w w' [] h e = subst (IsWaiting id) (done-injective e) h
poll-IsWaiting id w w' (f ∷ fs) h e =
    let (w1, e1, e2) = >>=-eq-done (receive_skb w f) _ e in
    poll-IsWaiting id w1 w' fs (receive_skb-IsWaiting id w w1 f h e1) e2

-- What follows the test of the inner loop.
abbrev tested : Waiting → List Frame → List (List Frame) → Bool → Outcome (Waiting × Bool)
tested w fs polls b = elim b [
  | true ↦ done (w, true)
  | false ↦ (poll w fs >>= λ w'. poll_until_replied w' polls)
]

poll_until_replied-IsWaiting :
    (id : ℕ) (w w' : Waiting) (polls : List (List Frame)) (replied : Bool)
    → IsWaiting id w
    → poll_until_replied w polls ≡ done (w', replied)
    → IsWaiting id w' × ((replied ≡ true) → w'.skb_replied ≡ true)
unfolding poll_until_replied
poll_until_replied-IsWaiting id w w' [] replied h e =
    subst (λ (r : Waiting × Bool). IsWaiting id r.0 × ((r.1 ≡ true) → (r.0).skb_replied ≡ true))
      (done-injective e) (h, λ t. cc)
poll_until_replied-IsWaiting id w w' (fs ∷ polls) replied h e = elim (Bool-cases w.skb_replied) [
  | inl r ↦
      subst (λ (r : Waiting × Bool). IsWaiting id r.0 × ((r.1 ≡ true) → (r.0).skb_replied ≡ true))
        (done-injective (subst (λ b. tested w fs polls b ≡ done (w', replied)) r e)) (h, λ t. r)
  | inr r ↦
      let (w1, e1, e2) =
        >>=-eq-done (poll w fs) _ (subst (λ b. tested w fs polls b ≡ done (w', replied)) r e) in
      poll_until_replied-IsWaiting id w1 w' polls replied (poll-IsWaiting id w w1 fs h e1) e2
]

send_until_replied-matches :
    (id : ℕ) (w w' : Waiting) (sendings : List (List (List Frame))) (p : Packet)
    → IsWaiting id w
    → send_until_replied w sendings ≡ done (some (w', p))
    → p.reply.id ≡ id
unfolding send_until_replied
send_until_replied-matches id w w' [] p h e = cc
send_until_replied-matches id w w' (polls ∷ sendings) p h e =
    let ((w1, replied), e1, e2) = >>=-eq-done (poll_until_replied w polls) _ e in
    let (h1, there) = poll_until_replied-IsWaiting id w w1 polls replied h e1 in
    elim (Bool-cases replied) [
      | inl r ↦ ground (arith, rw r at e2, h1.matched p (there r))
      | inr r ↦ send_until_replied-matches id w1 w' sendings p h1 (rw r at e2)
    ]

-- Whatever comes in and however often the request is sent again, the reply that is handed on
-- carries the id of the request.
pub communicate-matches :
    (w w' : Waiting) (q : Request) (sendings : List (List (List Frame))) (p : Packet)
    → communicate_with_emulator w q sendings ≡ done (some (w', p))
    → p.reply.id ≡ q.id
unfolding communicate_with_emulator
communicate-matches w w' q sendings p e =
    send_until_replied-matches q.id (await w q) w' sendings p
      (record { waiting = refl; matched = λ p r s. cc }) e

-- A frame that is for this module and answers another request is lost to the driver: it is neither
-- kept nor given back.
pub receive_skb-leaks :
    (w : Waiting) (f : Frame)
    → f.is_ip ≡ true
    → is_ours w.nn f ≡ true
    → f.packet.reply.id ≢ w.current_waiting_reply_id
    → receive_skb w f ≡ done (record w { leaked = w.leaked + 1 })
unfolding receive_skb
receive_skb-leaks w f ip ours ne = ground arith
