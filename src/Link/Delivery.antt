-- ===== src/Link/Delivery.antt =====
-- communicate_with_emulator and the server over a network that loses datagrams.
use nctusde.Base.{ℕ, ◌+◌, ◌≤◌, ◌≡◌, ◌≢◌, true, some, List, [], ◌∷◌, arith, length, done}
use nctusde.Wire.{Request, Packet, full, request_reset}
use nctusde.Server.{Server, handle}
use nctusde.Server.Retransmission.{handle_again}
use nctusde.Link.{
  Waiting, Fate, request_lost, reply_lost, delivered, exchange, await, checked, receive_skb,
  reply_frame, take_reply,
}

-- Some sending gets through and its reply comes in.
abbrev pub Delivers : List Fate → Type 0
Delivers [] = ⊥
Delivers (request_lost ∷ fates) = Delivers fates
Delivers (reply_lost ∷ fates) = Delivers fates
Delivers (delivered ∷ fates) = Unit

-- The state in which the reply is handed on.
abbrev pub replied : Waiting → Packet → Waiting
replied w p = record w { skb_replied = true; skb = some p; returned = w.returned + 1 }

receive-reply :
    (w : Waiting) (p : Packet)
    → p.reply.id ≡ w.current_waiting_reply_id
    → length p.payload ≤ 512
    → receive_skb w (reply_frame w.nn p) ≡ done (record w { skb_replied = true; skb = some p })
unfolding receive_skb
receive-reply w p e h = ground arith

module _ (w : Waiting) (q : Request) (bytes : List ℕ) (s' : Server) (p : Packet) where
  exchange-delivered :
      (s : Server) (fates : List Fate)
      → p.reply.id ≡ w.current_waiting_reply_id
      → length p.payload ≤ 512
      → handle s (full (checked q) bytes) ≡ done (s', some p)
      → exchange s w q bytes (delivered ∷ fates) ≡ done (some (s', replied w p, p))
  unfolding exchange take_reply
  exchange-delivered s fates m l h = rw (h, receive-reply w p m l)

  exchange-again :
      (fates : List Fate)
      → p.reply.id ≡ w.current_waiting_reply_id
      → length p.payload ≤ 512
      → handle s' (full (checked q) bytes) ≡ done (s', some p)
      → Delivers fates
      → exchange s' w q bytes fates ≡ done (some (s', replied w p, p))
  unfolding exchange
  exchange-again [] m l h d = absurd d
  exchange-again (request_lost ∷ fates) m l h d = exchange-again fates m l h d
  exchange-again (reply_lost ∷ fates) m l h d = rw h (exchange-again fates m l h d)
  exchange-again (delivered ∷ fates) m l h d = exchange-delivered s' fates m l h

  pub exchange-first :
      (s : Server) (fates : List Fate)
      → p.reply.id ≡ w.current_waiting_reply_id
      → length p.payload ≤ 512
      → handle s (full (checked q) bytes) ≡ done (s', some p)
      → handle s' (full (checked q) bytes) ≡ done (s', some p)
      → Delivers fates
      → exchange s w q bytes fates ≡ done (some (s', replied w p, p))
  unfolding exchange
  exchange-first s [] m l h h' d = absurd d
  exchange-first s (request_lost ∷ fates) m l h h' d = exchange-first s fates m l h h' d
  exchange-first s (reply_lost ∷ fates) m l h h' d = rw h (exchange-again fates m l h' d)
  exchange-first s (delivered ∷ fates) m l h h' d = exchange-delivered s fates m l h

-- If the server would answer the request when sent once, then over a network that loses any
-- requests and replies, but not for ever, sending it again until the reply comes in leaves the
-- server as carrying it out once does, and hands on that reply.
pub exchange-once :
    (s s' : Server) (w : Waiting) (q : Request) (bytes : List ℕ) (p : Packet) (fates : List Fate)
    → q.type ≢ request_reset
    → handle s (full (checked q) bytes) ≡ done (s', some p)
    → p.reply.id ≡ q.id
    → length p.payload ≤ 512
    → Delivers fates
    → exchange s (await w q) q bytes fates ≡ done (some (s', replied (await w q) p, p))
exchange-once s s' w q bytes p fates ne h m l d =
    exchange-first (await w q) q bytes s' p s fates m l h
      (handle_again s s' (checked q) bytes p ne h) d
