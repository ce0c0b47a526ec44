-- ===== src/Server/Serve/Answers.antt =====
-- What the server sends for the datagrams that come in.
use nctusde.Base.{ℕ, ◌≡◌, Option, some, List, map, Outcome, done}
use nctusde.Ssd.{Ssd}
use nctusde.Wire.{Packet}
use nctusde.Server.{Server, packet}
use nctusde.Server.Serve.{Received, serve, request_ids}

-- The request is carried out and answered under its id.
record IsServed (m : Outcome (Server × Option Packet)) (cur id : ℕ) : Type 0 where
  next : Server
  result : m ≡ done (next, some (packet next))
  recorded : next.current_max_request_id ≡ cur
  replied : next.reply.id ≡ id

-- The packets answer the requests in turn.
abbrev AreAnswered : Server → List Received → Type 0
AreAnswered s received =
    (s' : Server) × (packets : List Packet) × (serve s received ≡ done (s', packets))
    × (map (λ (p : Packet). p.reply.id) packets ≡ request_ids received)
