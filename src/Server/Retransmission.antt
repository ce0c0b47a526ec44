-- ===== src/Server/Retransmission.antt =====
-- What the server does with a datagram that it has seen before.
use nctusde.Base.{
  Done, Done-then, Done-bind, Done-if, ℕ, ◌+◌, ◌<◌, ◌≡◌, ◌≢◌, refl, subst, ap, ◌∙◌, inl, inr, false,
  Option, none, some, List, arith, ltb, ◌==◌, length, Outcome, done, hang, ◌>>=◌, Bool-cases,
}
use nctusde.Timing.{sector_size}
use nctusde.Ssd.{setup, submit_request_long, max_emulator_channels}
use nctusde.Wire.{
  Request, full, Packet, request_reset, request_submit, request_next_responses,
  request_read_write_data, request_size, reply_ok,
}
use nctusde.Server.{
  Server, answer, no_counts, handle, dispatch, send, packet, handle_reset, handle_submit,
  handle_next_responses, handle_read, handle_write, put_sector, get_sector,
}

-- A datagram was sent from the state that is left, and the turn kept the highest id.
abbrev Sends : ℕ → Server × Option Packet → Type 0
Sends cur (s', none) = Unit {0}
Sends cur (s', some p) = (packet s' ≡ p) × (s'.current_max_request_id ≡ cur)

abbrev Keeps : ℕ → Server → Type 0
Keeps cur s = s.current_max_request_id ≡ cur

send-Sends : (s : Server) (q : Request) → Sends s.current_max_request_id (send s q)
unfolding send
send-Sends s q = (refl, refl)

sent-Sends :
    (cur : ℕ) (q : Request) (m : Outcome Server)
    → Done (Keeps cur) m
    → Done (Sends cur) (m >>= λ s'. done (send s' q))
sent-Sends cur q m h =
    Done-bind (Sends cur) (Keeps cur) m _ h
      (λ s' k. subst (λ c. Sends c (send s' q)) k (send-Sends s' q))

module _ (s : Server) (q : Request) where
  submit-Keeps : Done (Keeps s.current_max_request_id) (handle_submit s q)
  unfolding handle_submit
  submit-Keeps =
      Done-then (Keeps s.current_max_request_id) (submit_request_long s.ssd _ _ _ _ _) _ (λ r. refl)

  read-Keeps : Done (Keeps s.current_max_request_id) (handle_read s q)
  unfolding handle_read
  read-Keeps =
      Done-then (Keeps s.current_max_request_id) (get_sector s.storage q.data2) _ (λ r. refl)

  write-Keeps : (bytes : List ℕ) → Done (Keeps s.current_max_request_id) (handle_write s q bytes)
  unfolding handle_write
  write-Keeps bytes =
      Done-then (Keeps s.current_max_request_id) (put_sector s.storage q.data2 bytes) _ (λ r. refl)

  next_responses-Keeps : Keeps s.current_max_request_id (handle_next_responses s q)
  unfolding handle_next_responses
  next_responses-Keeps = refl

  dispatch-Sends : (bytes : List ℕ) → Done (Sends s.current_max_request_id) (dispatch s q bytes)
  unfolding dispatch
  dispatch-Sends bytes =
      Done-if _ (q.type == request_reset) _ _ (send-Sends (answer s reply_ok q.id) q) (
        Done-if _ (q.type == request_submit) _ _ (sent-Sends cur q _ submit-Keeps) (
          Done-if _ (q.type == request_next_responses) _ _
            (subst (λ c. Sends c (send (handle_next_responses s q) q)) next_responses-Keeps
              (send-Sends (handle_next_responses s q) q))
            (Done-if _ (q.type == request_read_write_data) _ _
              (Done-if _ (q.data1 == 0) _ _ (sent-Sends cur q _ read-Keeps) (
                Done-if _ (ltb (request_size + length bytes) (request_size + sector_size)) _ _ tt
                  (sent-Sends cur q _ (write-Keeps bytes))))
              (send-Sends s q))))
    where
      cur : ℕ
      cur = s.current_max_request_id

handle-Sends :
    (s : Server) (q : Request) (bytes : List ℕ)
    → (q.type == request_reset) ≡ false
    → Done (Sends q.id) (handle s (full q bytes))
unfolding handle
handle-Sends s q bytes e = rw e (
    Done-if _ (ltb q.id s.current_max_request_id) _ _ tt
      (elim (Bool-cases (q.id == s.current_max_request_id)) [
        | inl same ↦ rw same (refl, ground arith)
        | inr new ↦ rw new (
            Done-if _ (q.id == q.id_check) _ _
              (dispatch-Sends (record s { current_max_request_id = q.id }) q bytes) tt)
      ]))

resend :
    (s : Server) (q : Request) (bytes : List ℕ)
    → (q.type == request_reset) ≡ false
    → s.current_max_request_id ≡ q.id
    → handle s (full q bytes) ≡ done (s, some (packet s))
unfolding handle
resend s q bytes e k = ground arith

-- A request other than a reset that was answered is not carried out again: the server answers
-- its retransmission with the same packet and stays as it is.
pub handle_again :
    (s s' : Server) (q : Request) (bytes : List ℕ) (p : Packet)
    → q.type ≢ request_reset
    → handle s (full q bytes) ≡ done (s', some p)
    → handle s' (full q bytes) ≡ done (s', some p)
handle_again s s' q bytes p ne h =
    let e : (q.type == request_reset) ≡ false = ground arith in
    let (sent, cur) = subst (Done (Sends q.id)) h (handle-Sends s q bytes e) in
    resend s' q bytes e cur ∙ ap (λ r. done (s', some r)) sent

-- A write under a new id whose datagram is too short gets no answer and leaves all but the largest
-- id as it is. That id is used up: a retransmission is answered with the reply to the request
-- before it.
pub handle_short_write :
    (s : Server) (q : Request) (bytes : List ℕ)
    → q.type ≡ request_read_write_data
    → q.data1 ≢ 0
    → length bytes < sector_size
    → s.current_max_request_id < q.id
    → q.id_check ≡ q.id
    → let s' = record s { current_max_request_id = q.id } in
      (handle s (full q bytes) ≡ done (s', none))
      × (handle s' (full q bytes) ≡ done (s', some (packet s)))
unfolding handle dispatch packet
handle_short_write s q bytes t w l lt e = (ground arith, ground arith)

-- A request older than the last one stops the server for good: it does not ignore it.
pub handle_old :
    (s : Server) (q : Request) (bytes : List ℕ)
    → q.type ≢ request_reset
    → q.id < s.current_max_request_id
    → handle s (full q bytes) ≡ hang
unfolding handle
handle_old s q bytes ne lt = ground arith

-- A reset with more channels than the server has is answered like any other, though the simulated
-- disk keeps its old parameters.
pub handle_large_reset :
    (s : Server) (q : Request) (bytes : List ℕ)
    → q.type ≡ request_reset
    → max_emulator_channels < q.data2
    → (s' : Server) × (p : Packet) × (handle s (full q bytes) ≡ done (s', some p))
      × (p.reply.type ≡ reply_ok)
      × (p.reply.id ≡ q.id)
      × (s'.ssd.size ≡ s.ssd.size)
      × (s'.ssd.channels ≡ s.ssd.channels)
      × (s'.ssd.speed_factor ≡ s.ssd.speed_factor)
unfolding handle handle_reset dispatch send packet setup
handle_large_reset s q bytes t h = (
  after_large_reset s q,
  packet (after_large_reset s q),
  ground arith,
  refl,
  refl,
  refl,
  refl,
  refl,
)
  where
    after_large_reset : Server → Request → Server
    after_large_reset s q =
        (send
          (answer
            (record s { current_max_request_id = 0; ssd = record (s.ssd) { counts = no_counts } })
            reply_ok q.id)
          q).0
