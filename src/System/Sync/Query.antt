-- ===== src/System/Sync/Query.antt =====
-- Asking for the next responses.
use mathlib.Core.List.{Perm}
use mathlib.Core.List.Perm
use nctusde.Base.{
  ℕ, zero, suc, ◌+◌, ◌%◌, ◌^◌, ◌≤◌, ◌<◌, ◌≡◌, refl, ap, ◌∙◌, ◌⊎◌, inl, inr, List, [], ◌∷◌, ◌++◌,
  arith, length, nil_of_length, take, All, done, length-perm, All-below-perm, leb, if◌then◌else◌,
}
use nctusde.Wire.{
  Request, Packet, request_next_responses, reply_ok, high_word, low_word, join_words,
}
use nctusde.Wire.Time.{join_words-words}
use nctusde.Server.{Server, copy_ids}
use nctusde.Ssd.Long.{get_next_responses_long-natural}
use nctusde.Ssd.{active, completing, get_next_responses, Responses}
use nctusde.Ssd.Pending.{pending_ids}
use nctusde.Ssd.Valid.{IsValid, length-active}
use nctusde.Ssd.Answers.{IsAnswer, get_next_responses-IsAnswer, get_next_responses-keeps}
use nctusde.Emudisk.{Emudisk, max_disk_requests_in_parallel}
use nctusde.Emudisk.Slots.Table.{occupied_ids}
use nctusde.Emudisk.Calls.{Answer, emulator_get_responses, read_answer, next_id}
use nctusde.System.{direct_call}
use nctusde.System.Handled.{direct_call-next_responses}
use nctusde.System.Sync.{InSync}

-- The ids of the server's answer arrive as they were, if they fit a word.
take-copy_ids :
    (ids words : List ℕ)
    → length ids ≤ length words
    → All (λ i. i < 2 ^ 32) ids
    → take (length ids) (copy_ids (length ids) ids words) ≡ ids
unfolding copy_ids
take-copy_ids [] words h b = refl
take-copy_ids (i ∷ ids) [] h b = absurd (omega arith)
take-copy_ids (i ∷ ids) (w ∷ words) h b =
    let e : i % 2 ^ 32 ≡ i = omega (arith, b.0) in
    rw (e, take-copy_ids ids words (omega arith) b.1) refl

length-copy_ids : (n : ℕ) (ids words : List ℕ) → length (copy_ids n ids words) ≡ length words
unfolding copy_ids
length-copy_ids zero ids words = refl
length-copy_ids (suc n) [] words = refl
length-copy_ids (suc n) (i ∷ ids) [] = refl
length-copy_ids (suc n) (i ∷ ids) (w ∷ words) = ap suc (length-copy_ids n ids words)

All-append_left : (n : ℕ) (xs ys : List ℕ) → All (λ x. x < n) (xs ++ ys) → All (λ x. x < n) xs
All-append_left n [] ys h = tt
All-append_left n (x ∷ xs) ys h = (h.0, All-append_left n xs ys h.1)

-- What the module is told of the requests in its table.
pub record IsReport (in_flight : List ℕ) (latest : ℕ) (s : Server) (a : Answer) : Type 0 where
  pub few : a.num_responses ≤ max_disk_requests_in_parallel
  pub in_time : a.response_time < 2 ^ 63
  pub reported :
      ((a.num_responses ≡ 0) × (in_flight ≡ []))
      ⊎ ((0 < a.num_responses)
          × (latest < a.response_time)
          × (a.num_responses ≡ length a.io_request_ids)
          × All
              (λ c. (c.completion_time ≤ latest) ⊎ (a.response_time ≤ c.completion_time))
              (active s.ssd)
          × (a.io_request_ids ≡ completing (active s.ssd) a.response_time)
          × Perm in_flight (a.io_request_ids ++ pending_ids (active s.ssd) a.response_time))

abbrev pub answer_of : Packet → Answer
answer_of p = record {
  num_responses = p.reply.data1;
  response_time = join_words p.reply.data2 p.reply.data3;
  io_request_ids = take p.reply.data1 p.reply.io_request_ids;
}

-- The answer that is read is the server's, word by word.
IsAnswer-IsReport :
    (e : Emudisk) (s s' : Server) (p : Packet) (r : Responses)
    → InSync e s
    → IsAnswer (active s.ssd) e.latest_response_time r
    → p.reply.data1 ≡ r.num_response % 2 ^ 32
    → join_words p.reply.data2 p.reply.data3 ≡ join_words (high_word r.time) (low_word r.time)
    → p.reply.io_request_ids ≡ copy_ids r.num_response r.io_request_ids s.reply.io_request_ids
    → active s'.ssd ≡ active s.ssd
    → IsReport (occupied_ids e.slots) e.latest_response_time s' (answer_of p)
IsAnswer-IsReport e s s' p r v h num_e time_e ids_e active_e =
    let channels : length (active s.ssd) ≤ 8 =
      omega (arith, length-active v.valid, v.channels, v.few) in
    let num : p.reply.data1 ≡ r.num_response = omega (arith, h.counted) in
    let time : join_words p.reply.data2 p.reply.data3 ≡ r.time =
      time_e ∙ join_words-words r.time (omega (arith, h.in_time)) in
    record {
      few = omega (arith, h.counted);
      in_time = rw time (omega (arith, h.in_time));
      reported = elim h.answered [
        | inl (z, none_pending) ↦ inl (
          omega arith,
          nil_of_length (occupied_ids e.slots)
              (length-perm _ _ v.in_flight ∙ ap length none_pending),
        )
        | inr (pos, later, counted, least, due, all) ↦
            let below =
              All-append_left (2 ^ 32) r.io_request_ids _
                (All-below-perm (2 ^ 32) _ _ (Perm.trans v.in_flight all) v.ids) in
            let ids : take p.reply.data1 p.reply.io_request_ids ≡ r.io_request_ids =
              rw (num, ids_e, counted)
                (take-copy_ids r.io_request_ids s.reply.io_request_ids
                  (omega (arith, h.counted, v.words)) below) in
            inr (
              omega arith,
              rw time later,
              rw ids (omega arith),
              rw (time, active_e) least,
              rw (ids, time, active_e) due,
              rw (ids, time, active_e) (Perm.trans v.in_flight all),
            )
      ];
    }

-- What a query by the module comes to.
pub record Queried (blank : Request) (e : Emudisk) (s : Server) (e' : Emudisk) (s' : Server)
    (a : Answer) : Type 0 where
  pub result :
      emulator_get_responses blank direct_call e s e.latest_response_time ≡ done (e', s', a)
  pub report : IsReport (occupied_ids e.slots) e.latest_response_time s' a
  pub same_table : (e'.slots ≡ e.slots) × (e'.latest_response_time ≡ e.latest_response_time)
  pub same :
      (e'.next_response_ids ≡ e.next_response_ids) × (e'.os ≡ e.os) × (e'.completed ≡ e.completed)
  pub in_sync : InSync e' s'
  pub same_queue :
      (e'.request_inflight ≡ e.request_inflight)
      × (e'.disk_channels ≡ e.disk_channels)
      × (e'.queue_stopped ≡ e.queue_stopped)
      × (e'.next_response_num ≡ e.next_response_num)
      × (e'.next_response_time ≡ e.next_response_time)
      × (e'.failed ≡ e.failed)
  pub next_number : e'.udp_send_reply_id ≡ e.udp_send_reply_id + 1
  pub same_server :
      (active s'.ssd ≡ active s.ssd)
      × (s'.storage ≡ s.storage)
      × (s'.ssd.speed_factor ≡ s.ssd.speed_factor)

read_answer-done :
    (p : Packet)
    → p.reply.type ≡ reply_ok
    → p.reply.data1 ≤ max_disk_requests_in_parallel
    → read_answer p ≡ done (answer_of p)
unfolding read_answer
read_answer-done p t h = ground arith

module _ (blank : Request) (e : Emudisk) (s : Server) (v : InSync e s) where
  query : Request
  query = record blank {
    type = request_next_responses;
    id = e.udp_send_reply_id;
    data1 = high_word e.latest_response_time;
    data2 = low_word e.latest_response_time;
  }

  asked : Emudisk
  asked = record (next_id e) {
    current_max_get_responses_time =
        if leb e.current_max_get_responses_time e.latest_response_time
        then e.latest_response_time
        else e.current_max_get_responses_time;
  }

  asked-InSync :
      (s' : Server)
      → e.udp_send_reply_id + 1 < 2 ^ 32
      → IsValid s'.ssd
      → s'.ssd.channels ≡ s.ssd.channels
      → s'.ssd.speed_factor ≡ s.ssd.speed_factor
      → active s'.ssd ≡ active s.ssd
      → s'.current_max_request_id ≡ e.udp_send_reply_id
      → length s'.reply.io_request_ids ≡ length s.reply.io_request_ids
      → InSync asked s'
  unfolding asked
  asked-InSync s' wraps valid channels_e speed_e active_e cur_e words_e = record {
    valid = valid;
    channels = channels_e ∙ v.channels;
    few = v.few;
    running = omega (arith, speed_e, v.running);
    fresh = omega (arith, cur_e);
    words = words_e ∙ v.words;
    ids = v.ids;
    in_flight = rw active_e v.in_flight;
  }

  -- With table and server in step, a query for the responses after the latest one, whose time fits
  -- the server's signed 64 bits, under an id that is not the last of 32 bits, gets an answer that the
  -- module can read.
  -- It reports the requests of the table that complete next, and none only if the table is empty;
  -- the table stays as it is, and in step.
  pub get_responses-Queried :
      e.latest_response_time < 2 ^ 63
      → e.udp_send_reply_id + 1 < 2 ^ 32
      → (e' : Emudisk) × (s' : Server) × (a : Answer) × Queried blank e s e' s' a
  unfolding emulator_get_responses query asked
  get_responses-Queried word wraps =
      let now_e : join_words (high_word e.latest_response_time) (low_word e.latest_response_time)
          ≡ e.latest_response_time =
        join_words-words e.latest_response_time (omega (arith, word)) in
      let natural = get_next_responses_long-natural s.ssd e.latest_response_time word in
      let (s', p, called, type_e, num_e, time_e, ids_e, ids_e', ssd_e, cur_e, storage_e) =
        direct_call-next_responses s query [] refl v.fresh in
      let r = (get_next_responses s.ssd e.latest_response_time).0 in
      let (valid, channels_e, speed_e, active_e) =
        get_next_responses-keeps s.ssd e.latest_response_time v.valid in
      let ssd_e' : s'.ssd ≡ (get_next_responses s.ssd e.latest_response_time).1 =
        rw (now_e, natural) at ssd_e in
      let report =
        IsAnswer-IsReport e s s' p r v
          (get_next_responses-IsAnswer s.ssd e.latest_response_time v.valid)
          (rw (now_e, natural) at num_e) (rw (now_e, natural) at time_e)
          (rw (now_e, natural) at ids_e) (ap active ssd_e' ∙ active_e) in
      (
        asked,
        s',
        answer_of p,
        record {
          result = rw (called, read_answer-done p type_e report.few) refl;
          report = report;
          same_table = (refl, refl);
          same = (refl, refl, refl);
          same_queue = (refl, refl, refl, refl, refl, refl);
          next_number = omega arith;
          same_server = (rw ssd_e' active_e, storage_e, rw ssd_e' speed_e);
          in_sync =
              asked-InSync s' wraps (rw ssd_e' valid) (rw ssd_e' channels_e) (rw ssd_e' speed_e)
                (rw ssd_e' active_e) cur_e
                (ap length ids_e' ∙ length-copy_ids _ _ s.reply.io_request_ids);
        },
      )
