-- ===== src/Server.antt =====
-- The loop of `main` in emulator_server/udp_server.cxx: what the server does with one datagram.
-- A `recvfrom` or `sendto` that fails changes no state.
pub mod Sectors
pub mod Retransmission
pub mod Replies
pub mod Database
pub mod Serve
pub mod Start
mod Tests
use nctusde.Base.{
  ℕ, zero, suc, ◌+◌, ◌-◌, ◌*◌, ◌%◌, ◌^◌, Bool, true, false, ◌&&◌, Option, none, some, List, [], ◌∷◌,
  ltb, leb, ◌==◌, if◌then◌else◌, get_or, take, length, Outcome, done, hang, fault, ◌>>=◌,
}
use nctusde.Timing.{sector_size}
use nctusde.Ssd.{
  Ssd, Counts, setup, submit_request_long, Responses, get_next_responses_long, memory_storage_size,
}
use nctusde.Wire.{
  Request, Reply, Datagram, truncated, full, Packet, request_size, reply_size, request_reset,
  request_submit, request_next_responses, request_read_write_data, reply_ok, reply_error, high_word,
  low_word, join_words,
}

-- The global `memory_storage`: the byte at each address.
abbrev pub Storage : Type 0
Storage = ℕ → ℕ

-- The variables of the file and of `main` that outlive a turn of the loop. The reply buffer and
-- its length are kept, since a duplicate request is answered from them.
pub record Server : Type 0 where
  pub current_max_request_id : ℕ
  pub ssd : Ssd
  pub storage : Storage
  pub reply : Reply
  pub reply_sector : List ℕ
  pub reply_length : ℕ

abbrev pub in_storage : ℕ → Bool
in_storage sector = leb (sector * sector_size + sector_size) memory_storage_size

unfoldable pub write_sector : Storage → ℕ → List ℕ → Storage
write_sector storage sector bytes a =
    if leb (sector * sector_size) a && ltb a (sector * sector_size + sector_size)
    then get_or bytes (a - sector * sector_size) 0
    else storage a

-- `n` bytes from an address on.
unfoldable pub read_bytes : Storage → ℕ → ℕ → List ℕ
read_bytes storage a zero = []
read_bytes storage a (suc n) = storage a ∷ read_bytes storage (a + 1) n

unfoldable pub put_sector : Storage → ℕ → List ℕ → Outcome Storage
put_sector storage sector bytes =
    if in_storage sector then done (write_sector storage sector bytes) else fault

unfoldable pub get_sector : Storage → ℕ → Outcome (List ℕ)
get_sector storage sector =
    if in_storage sector
    then done (read_bytes storage (sector * sector_size) sector_size)
    else fault

-- The loop that copies the first `n` ids, `long`s, into the words of the reply.
unfoldable pub copy_ids : ℕ → List ℕ → List ℕ → List ℕ
copy_ids zero ids words = words
copy_ids (suc n) [] words = words
copy_ids (suc n) (i ∷ ids) [] = []
copy_ids (suc n) (i ∷ ids) (w ∷ words) = (i % 2 ^ 32) ∷ copy_ids n ids words

abbrev pub no_counts : Counts
no_counts = record {
  total_random_request_count = 0;
  total_sequential_request_count = 0;
  total_rollback_request_count = 0;
}

-- `reply->type = …; reply->id = request->id`
abbrev pub answer : Server → ℕ → ℕ → Server
answer s type id = record s { reply = record (s.reply) { type = type; id = id } }

abbrev pub answer_responses : Server → ℕ → Responses → Server
answer_responses s id r = record s {
  reply = record (s.reply) {
    type = reply_ok;
    id = id;
    data1 = r.num_response % 2 ^ 32;
    data2 = high_word r.time;
    data3 = low_word r.time;
    io_request_ids = copy_ids r.num_response r.io_request_ids s.reply.io_request_ids;
  };
}

-- The reset above the `switch`.
unfoldable pub handle_reset : Server → Request → Outcome Server
handle_reset s q = setup (record (s.ssd) { counts = no_counts }) q.data1 q.data2 q.data3 >>= λ ssd.
    done (record s { current_max_request_id = 0; ssd = ssd })

unfoldable pub handle_submit : Server → Request → Outcome Server
handle_submit s q =
    submit_request_long s.ssd (join_words q.data1 q.data2) q.data3 q.data4 q.data5 q.data6
    >>= λ (taken, ssd).
        done (answer (record s { ssd = ssd }) (if taken then reply_ok else reply_error) q.id)

unfoldable pub handle_next_responses : Server → Request → Server
handle_next_responses s q =
    let (r, ssd) = get_next_responses_long s.ssd (join_words q.data1 q.data2) in
    answer_responses (record s { ssd = ssd }) q.id r

unfoldable pub handle_read : Server → Request → Outcome Server
handle_read s q = get_sector s.storage q.data2 >>= λ bytes.
    done (answer (record s { reply_sector = bytes }) reply_ok q.id)

unfoldable pub handle_write : Server → Request → List ℕ → Outcome Server
handle_write s q bytes = put_sector s.storage q.data2 bytes >>= λ storage.
    done (answer (record s { storage = storage }) reply_ok q.id)

-- The datagram that `sendto` takes from the buffer.
unfoldable pub packet : Server → Packet
packet s = record { reply = s.reply; payload = take (s.reply_length - reply_size) s.reply_sector }

abbrev pub is_read : Request → Bool
is_read q = q.type == request_read_write_data && q.data1 == 0

-- Below the `switch`.
unfoldable pub send : Server → Request → Server × Option Packet
unfolding packet
send s q = (s', some (packet s'))
  where
    s' : Server
    s' = record s {
      reply = record (s.reply) { id_check = s.reply.id };
      reply_length = if is_read q then sector_size + reply_size else reply_size;
    }

-- The `switch`. A write that is too short is given up; an unknown type leaves the reply as it was.
unfoldable pub dispatch : Server → Request → List ℕ → Outcome (Server × Option Packet)
unfolding handle_submit handle_next_responses handle_read handle_write send
dispatch s q bytes =
    if q.type == request_reset
    then done (send (answer s reply_ok q.id) q)
    else if q.type == request_submit
    then (handle_submit s q >>= λ s'. done (send s' q))
    else if q.type == request_next_responses
    then done (send (handle_next_responses s q) q)
    else if q.type == request_read_write_data
    then if q.data1 == 0
      then (handle_read s q >>= λ s'. done (send s' q))
      else if ltb (request_size + length bytes) (request_size + sector_size)
      then done (s, none)
      else (handle_write s q bytes >>= λ s'. done (send s' q))
    else done (send s q)

-- One turn of the loop: the new state, and the datagram that is sent, if any.
unfoldable pub handle : Server → Datagram → Outcome (Server × Option Packet)
unfolding handle_reset
handle s truncated = done (s, none)
handle s (full q bytes) =
    if q.type == request_reset
    then (handle_reset s q >>= λ s'. dispatch s' q bytes)
    else if ltb q.id s.current_max_request_id
    then hang
    else if q.id == s.current_max_request_id
    then done (s, some (packet s))
    else if q.id == q.id_check
    then dispatch (record s { current_max_request_id = q.id }) q bytes
    else hang
