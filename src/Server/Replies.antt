-- ===== src/Server/Replies.antt =====
-- The reply to a request under a new id.
use nctusde.Base.{
  ℕ, ◌+◌, ◌-◌, ◌>>=◌, ◌≤◌, ◌<◌, ◌≡◌, refl, subst, ◌⊎◌, inl, inr, false, Option, none, some, List,
  arith, ltb, ◌==◌, if◌then◌else◌, length, length-take, Outcome, done, Done, Done-then, Done-bind,
  Done-if, Done-then_branch, Done-else_branch,
}
use nctusde.Timing.{sector_size}
use nctusde.Ssd.{submit_request_long}
use nctusde.Wire.{
  Request, full, Packet, request_reset, request_submit, request_next_responses,
  request_read_write_data, request_size, reply_size,
}
use nctusde.Server.{
  Server, handle, dispatch, send, packet, is_read, handle_submit, handle_next_responses,
  handle_read, handle_write, put_sector, get_sector,
}

-- What is sent answers the request `id`, the largest one so far, and holds a sector at most.
abbrev Answers : ℕ → Server × Option Packet → Type 0
Answers id (s', none) = Unit {0}
Answers id (s', some p) =
    (p.reply.id ≡ id) × (length p.payload ≤ sector_size) × (s'.current_max_request_id ≡ id)

-- The reply is filled in.
abbrev IsFilled : ℕ → Server → Type 0
IsFilled id s = (s.reply.id ≡ id) × (s.current_max_request_id ≡ id)

send-Answers : (s : Server) (q : Request) (id : ℕ) → IsFilled id s → Answers id (send s q)
unfolding send packet
send-Answers s q id filled =
    let n = (if is_read q then sector_size + reply_size else reply_size) - reply_size in
    (filled.0, ground (arith, length-take n s.reply_sector), filled.1)

sent-Answers :
    (q : Request) (id : ℕ) (m : Outcome Server)
    → Done (IsFilled id) m
    → Done (Answers id) (m >>= λ s'. done (send s' q))
sent-Answers q id m h = Done-bind (Answers id) (IsFilled id) m _ h (λ s' k. send-Answers s' q id k)

module _ (s : Server) (q : Request) (fresh : s.current_max_request_id ≡ q.id) where
  submit-IsFilled : Done (IsFilled q.id) (handle_submit s q)
  unfolding handle_submit
  submit-IsFilled =
      Done-then (IsFilled q.id) (submit_request_long s.ssd _ _ _ _ _) _ (λ r. (refl, fresh))

  read-IsFilled : Done (IsFilled q.id) (handle_read s q)
  unfolding handle_read
  read-IsFilled = Done-then (IsFilled q.id) (get_sector s.storage q.data2) _ (λ r. (refl, fresh))

  write-IsFilled : (bytes : List ℕ) → Done (IsFilled q.id) (handle_write s q bytes)
  unfolding handle_write
  write-IsFilled bytes =
      Done-then (IsFilled q.id) (put_sector s.storage q.data2 bytes) _ (λ r. (refl, fresh))

  next_responses-IsFilled : IsFilled q.id (handle_next_responses s q)
  unfolding handle_next_responses
  next_responses-IsFilled = (refl, fresh)

  dispatch-Answers :
      (bytes : List ℕ)
      → (q.type ≡ request_submit)
        ⊎ (q.type ≡ request_next_responses)
        ⊎ (q.type ≡ request_read_write_data)
      → Done (Answers q.id) (dispatch s q bytes)
  unfolding dispatch
  dispatch-Answers bytes kind = elim kind [
    | inl submit ↦ Done-else_branch _ (q.type == request_reset) _ _ (ground arith) (
        Done-then_branch _ (q.type == request_submit) _ _ (ground arith)
          (sent-Answers q q.id _ submit-IsFilled))
    | inr (inl query) ↦ Done-else_branch _ (q.type == request_reset) _ _ (ground arith) (
        Done-else_branch _ (q.type == request_submit) _ _ (ground arith) (
          Done-then_branch _ (q.type == request_next_responses) _ _ (ground arith)
            (send-Answers (handle_next_responses s q) q q.id next_responses-IsFilled)))
    | inr (inr moves) ↦ Done-else_branch _ (q.type == request_reset) _ _ (ground arith) (
        Done-else_branch _ (q.type == request_submit) _ _ (ground arith) (
          Done-else_branch _ (q.type == request_next_responses) _ _ (ground arith) (
            Done-then_branch _ (q.type == request_read_write_data) _ _ (ground arith) (
              Done-if _ (q.data1 == 0) _ _ (sent-Answers q q.id _ read-IsFilled) (
                Done-if _ (ltb (request_size + length bytes) (request_size + sector_size)) _ _ tt
                  (sent-Answers q q.id _ (write-IsFilled bytes)))))))
  ]

handle-Answers :
    (s : Server) (q : Request) (bytes : List ℕ)
    → (q.type ≡ request_submit)
      ⊎ (q.type ≡ request_next_responses)
      ⊎ (q.type ≡ request_read_write_data)
    → s.current_max_request_id < q.id
    → Done (Answers q.id) (handle s (full q bytes))
unfolding handle
handle-Answers s q bytes kind new =
    let other : (q.type == request_reset) ≡ false = ground (arith, kind) in
    let later : ltb q.id s.current_max_request_id ≡ false = ground arith in
    let differs : (q.id == s.current_max_request_id) ≡ false = ground arith in
    rw (other, later, differs)
      (Done-if _ (q.id == q.id_check) _ _
        (dispatch-Answers (record s { current_max_request_id = q.id }) q refl bytes kind) tt)

-- A datagram other than a reset that gets an answer under a new id gets one with its own id, which
-- carries at most a sector, and its id is then the largest one.
pub handle-replies :
    (s s' : Server) (q : Request) (bytes : List ℕ) (p : Packet)
    → (q.type ≡ request_submit)
      ⊎ (q.type ≡ request_next_responses)
      ⊎ (q.type ≡ request_read_write_data)
    → s.current_max_request_id < q.id
    → handle s (full q bytes) ≡ done (s', some p)
    → (p.reply.id ≡ q.id) × (length p.payload ≤ sector_size) × (s'.current_max_request_id ≡ q.id)
handle-replies s s' q bytes p kind new h =
    subst (Done (Answers q.id)) h (handle-Answers s q bytes kind new)
