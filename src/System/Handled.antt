-- ===== src/System/Handled.antt =====
-- The server's handling of each kind of request, as the kernel module meets it.
use nctusde.Base.{ℕ, ◌%◌, ◌^◌, ◌<◌, ◌≡◌, refl, true, List, arith, done}
use nctusde.Ssd.{Ssd, submit_request_long, get_next_responses_long}
use nctusde.Wire.{
  Request, Packet, request_submit, request_next_responses, reply_ok, join_words, high_word,
  low_word,
}
use nctusde.Server.{
  Server, handle, dispatch, handle_submit, handle_next_responses, send, packet, answer, copy_ids,
}
use nctusde.Link.{checked}
use nctusde.System.{direct_call}

-- The server after a request was taken.
abbrev pub after_submit : Server → Request → Ssd → Server
after_submit s q ssd =
    (send (answer (record s { current_max_request_id = q.id; ssd = ssd }) reply_ok q.id) q).0

pub direct_call-submit :
    (s : Server) (q : Request) (bytes : List ℕ) (ssd : Ssd)
    → q.type ≡ request_submit
    → s.current_max_request_id < q.id
    → submit_request_long s.ssd (join_words q.data1 q.data2) q.data3 q.data4 q.data5 q.data6
      ≡ done (true, ssd)
    → (s' : Server) × (p : Packet) × (direct_call s q bytes ≡ done (s', p))
      × (s'.ssd ≡ ssd)
      × (s'.current_max_request_id ≡ q.id)
      × (s'.storage ≡ s.storage)
      × (s'.reply.io_request_ids ≡ s.reply.io_request_ids)
unfolding direct_call handle dispatch handle_submit send
direct_call-submit s q bytes ssd t lt e = (
  after_submit s (checked q) ssd,
  packet (after_submit s (checked q) ssd),
  ground arith,
  refl,
  refl,
  refl,
  refl,
)

-- The server after a query.
abbrev pub after_query : Server → Request → Server
after_query s q = (send (handle_next_responses (record s { current_max_request_id = q.id }) q) q).0

pub direct_call-next_responses :
    (s : Server) (q : Request) (bytes : List ℕ)
    → q.type ≡ request_next_responses
    → s.current_max_request_id < q.id
    → let r = (get_next_responses_long s.ssd (join_words q.data1 q.data2)).0 in
      (s' : Server) × (p : Packet) × (direct_call s q bytes ≡ done (s', p))
      × (p.reply.type ≡ reply_ok)
      × (p.reply.data1 ≡ r.num_response % 2 ^ 32)
      × (join_words p.reply.data2 p.reply.data3 ≡ join_words (high_word r.time) (low_word r.time))
      × (p.reply.io_request_ids ≡ copy_ids r.num_response r.io_request_ids s.reply.io_request_ids)
      × (s'.reply.io_request_ids ≡ copy_ids r.num_response r.io_request_ids s.reply.io_request_ids)
      × (s'.ssd ≡ (get_next_responses_long s.ssd (join_words q.data1 q.data2)).1)
      × (s'.current_max_request_id ≡ q.id)
      × (s'.storage ≡ s.storage)
unfolding direct_call handle dispatch handle_next_responses send packet
direct_call-next_responses s q bytes t lt = (
  after_query s (checked q),
  packet (after_query s (checked q)),
  ground arith,
  refl,
  refl,
  refl,
  refl,
  refl,
  refl,
  refl,
  refl,
)
