-- ===== src/System/Sync/Turn.antt =====
-- A turn of the processing task, with the server answering.
use nctusde.Base.{
  ℕ, ◌+◌, ◌^◌, ◌≤◌, ◌<◌, ◌≡◌, refl, ap, ◌∙◌, inl, inr, Bool, arith, length, length-append,
  length-perm, take, done, ltb, ◌==◌, false,
}
use nctusde.Wire.{Request}
use nctusde.Server.{Server}
use nctusde.Ssd.{active}
use nctusde.Ssd.Pending.{pending_ids}
use nctusde.Ssd.Valid.{length-take_of_le}
use nctusde.Emudisk.{Emudisk, Os}
use nctusde.Emudisk.Slots.Table.{occupied_ids}
use nctusde.Emudisk.Slots.Occupied.{HandedBack, HandedBack-then}
use nctusde.Emudisk.Pause.{pause_os, resume-pause, resume_os}
use nctusde.Emudisk.Calls.{Answer}
use nctusde.Emudisk.Strategy.{adopt}
use nctusde.Emudisk.Processing.{complete_requests, find_next_response, process_responses}
use nctusde.Emudisk.Processing.Completion.{complete_requests-AreCompleted}
use nctusde.System.{direct_call}
use nctusde.System.Sync.Query.{Queried, get_responses-Queried}
use nctusde.System.Sync.Ready.{
  Keeps, IsReady, Awaits, IsTurn, completed-InSync, kept-InSync, nothing-IsTurn, adopted-IsTurn,
}

module _ (blank : Request) (counter : ℕ) where
  found-none :
      (e : Emudisk) (os : Os) (s : Server) (e1 : Emudisk) (s1 : Server) (a : Answer) (later : ℕ)
      → pause_os e.os counter ≡ done os
      → Queried blank (record e { os = os }) s e1 s1 a
      → a.num_responses ≡ 0
      → find_next_response blank direct_call counter e s later
        ≡ done (record e1 { next_response_num = 0; os = resume_os e1.os }, s1, false)
  unfolding find_next_response
  found-none e os s e1 s1 a later paused q none = rw (paused, q.result, none) refl

  found-some :
      (e : Emudisk) (os : Os) (s : Server) (e1 : Emudisk) (s1 : Server) (a : Answer) (later : ℕ)
      → pause_os e.os counter ≡ done os
      → Queried blank (record e { os = os }) s e1 s1 a
      → 0 < a.num_responses
      → e.latest_response_time < a.response_time
      → find_next_response blank direct_call counter e s later
        ≡ done (record (adopt e1 a) { os = resume_os e1.os }, s1, ltb a.response_time later)
  unfolding find_next_response
  found-some e os s e1 s1 a later paused q some_ after =
      let positive : (a.num_responses == 0) ≡ false = ground arith in
      let in_order : ltb a.response_time e1.latest_response_time ≡ false =
        rw q.same_table.1 (ground arith) in
      rw (paused, q.result, positive, in_order) refl

  find_next_response-IsTurn :
      (e : Emudisk) (s : Server) (later : ℕ)
      → IsReady e s
      → e.latest_response_time < 2 ^ 63
      → e.udp_send_reply_id + 1 < 2 ^ 32
      → (e' : Emudisk) × (s' : Server) × (again : Bool) × (find_next_response blank direct_call
            counter e s later
          ≡ done (e', s', again))
        × IsTurn e s 0 e.latest_response_time e' s'
  unfolding find_next_response
  find_next_response-IsTurn e s later r word wraps =
      let (os, paused, _, _, resumed, _, _) = resume-pause e.os counter r.running in
      let (e1, s1, a, q) =
        get_responses-Queried blank (record e { os = os }) s
          (kept-InSync e (record e { os = os }) s r.in_sync refl refl refl) word wraps in
      elim q.report.reported [
        | inl (none, empty) ↦ (
          _,
          s1,
          false,
          found-none e os s e1 s1 a later paused q none,
          nothing-IsTurn blank e os s r e1 s1 a q resumed none empty,
        )
        | inr (some_, after, num, least, now_due, all) ↦ (
          _,
          s1,
          ltb a.response_time later,
          found-some e os s e1 s1 a later paused q some_ after,
          adopted-IsTurn blank e os s r e1 s1 a q resumed some_ after num now_due all,
        )
      ]

  turned :
      (e e1 : Emudisk) (s : Server) (e' : Emudisk) (s' : Server) (num : ℕ)
      → length e1.completed ≡ num + length e.completed
      → HandedBack e.slots e.completed (take num e.next_response_ids) e1.slots e1.completed
      → length (occupied_ids e1.slots) + num ≡ length (occupied_ids e.slots)
      → e1.udp_send_reply_id ≡ e.udp_send_reply_id
      → Keeps e s e1 s
      → e1.latest_response_time ≡ e.next_response_time
      → IsTurn e1 s 0 e1.latest_response_time e' s'
      → IsTurn e s num e.next_response_time e' s'
  turned e e1 s e' s' num c handed left number k latest t = record {
    ready = t.ready;
    completed = omega (arith, t.completed, c);
    handed =
        HandedBack-then e.slots e1.slots e'.slots e.completed e1.completed e'.completed
          (take num e.next_response_ids) handed t.handed;
    rest = t.rest;
    left = omega (arith, t.left, left);
    number = t.number ∙ ap (λ n. n + 1) number;
    keeps = record {
      inflight = t.keeps.inflight ∙ k.inflight;
      channels = t.keeps.channels ∙ k.channels;
      stopped = t.keeps.stopped ∙ k.stopped;
      failed = t.keeps.failed ∙ k.failed;
      size = t.keeps.size ∙ k.size;
      speed = t.keeps.speed;
      storage = t.keeps.storage;
    };
    now_latest = t.now_latest ∙ latest;
  }

  guarded :
      (e : Emudisk) (s : Server) (now later : ℕ) (e1 e' : Emudisk) (s' : Server) (again : Bool)
      → e.latest_response_time ≤ now
      → Awaits e s
      → complete_requests e (take e.next_response_num e.next_response_ids) ≡ done e1
      → find_next_response blank direct_call counter e1 s later ≡ done (e', s', again)
      → process_responses blank direct_call counter e s now later ≡ done (e', s', again)
  unfolding process_responses
  guarded e s now later e1 e' s' again h w c f =
      let in_order : ltb now e.latest_response_time ≡ false = ground arith in
      let waits : ltb e.next_response_time e.latest_response_time ≡ false =
        ground (arith, w.later) in
      let positive : (e.next_response_num == 0) ≡ false = ground (arith, w.counted.0) in
      rw (in_order, waits, positive, c) f

  -- With table and server in step and the OS running, a turn of the processing task that waits for
  -- the next responses hands back just the requests in the slots of those responses, one after the
  -- other, a read with the bytes of its slot's buffer, and leaves the other slots as they are. It
  -- asks for the responses after, and does not hang, if the clock does not go back before the
  -- latest response and the id of its message is not the last of 32 bits. Then table and server are in step again, the OS runs, and the task waits for the next
  -- responses, or for none if nothing is in flight.
  pub process_responses-IsTurn :
      (e : Emudisk) (s : Server) (now later : ℕ)
      → IsReady e s
      → Awaits e s
      → e.latest_response_time ≤ now
      → e.udp_send_reply_id + 1 < 2 ^ 32
      → (e' : Emudisk) × (s' : Server) × (again : Bool) × (process_responses blank direct_call
            counter e s now later
          ≡ done (e', s', again))
        × IsTurn e s e.next_response_num e.next_response_time e' s'
  process_responses-IsTurn e s now later r w h wraps =
      let ids = take e.next_response_num e.next_response_ids in
      let num : length ids ≡ e.next_response_num =
        length-take_of_le e.next_response_num e.next_response_ids
          (omega (arith, w.counted.1, r.ids_array)) in
      let (e1, c) = complete_requests-AreCompleted e ids _ w.awaited r.fits in
      let latest : e1.latest_response_time ≡ e.next_response_time = elim c.latest [
        | inl (none, _) ↦ absurd (omega (arith, w.counted.0, num, ap length none))
        | inr time ↦ time
      ] in
      let ready1 : IsReady e1 s = record {
        in_sync = completed-InSync e e1 s r.in_sync w c latest;
        fits = c.fits;
        running = rw c.same.2 r.running;
        ids_array = ap length c.same.0 ∙ r.ids_array;
      } in
      let (e', s', again, found, t) =
        find_next_response-IsTurn e1 s later ready1 (omega (arith, latest, w.word))
          (omega (arith, c.same.1)) in
      (
        e',
        s',
        again,
        guarded e s now later e1 e' s' again h w c.result found,
        turned e e1 s e' s' e.next_response_num (omega (arith, c.counted, num)) c.handed
            (omega (
              arith,
              length-perm _ _ c.in_flight,
              length-perm _ _ w.awaited,
              length-append ids (pending_ids (active s.ssd) e.next_response_time),
              num,
            ))
            c.same.1
            (record {
              inflight = c.same_queue.0;
              channels = c.same_queue.1;
              stopped = c.same_queue.2;
              failed = c.same_queue.3;
              size = c.same_size;
              speed = refl;
              storage = refl;
            })
            latest t,
      )
