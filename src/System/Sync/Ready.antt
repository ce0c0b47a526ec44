-- ===== src/System/Sync/Ready.antt =====
-- What holds between the turns of the module's functions, and how a query keeps it.
use mathlib.Core.List.{Perm}
use mathlib.Core.List.Perm
use nctusde.Base.{
  ℕ, zero, suc, ◌+◌, ◌^◌, ◌≤◌, ◌<◌, ◌≡◌, refl, sym, ap, ◌∙◌, ◌⊎◌, inl, inr, List, [], ◌∷◌, ◌++◌,
  arith, length, take, All, All-below-perm,
}
use nctusde.Wire.{Request}
use nctusde.Server.{Server}
use nctusde.Ssd.{active, completing}
use nctusde.Ssd.Pending.{pending_ids}
use nctusde.Emudisk.{Emudisk, Os, max_disk_requests_in_parallel}
use nctusde.Emudisk.Slots.Table.{occupied_ids}
use nctusde.Emudisk.Slots.Occupied.{HandedBack, HandedBack-none}
use nctusde.Emudisk.Pause.{IsRunning, resume_os}
use nctusde.Emudisk.Calls.{Answer}
use nctusde.Emudisk.Strategy.{adopt, copy_next_ids}
use nctusde.Emudisk.Processing.Completion.{Fits, AreCompleted}
use nctusde.System.Sync.{InSync}
use nctusde.System.Sync.Query.{Queried}

-- Between the turns of the module's functions.
pub record IsReady (e : Emudisk) (s : Server) : Type 0 where
  pub in_sync : InSync e s
  pub fits : All Fits e.slots
  pub running : IsRunning e.os
  pub ids_array : length e.next_response_ids ≡ max_disk_requests_in_parallel

-- The responses that the task sleeps for are those of requests in the table that complete next.
pub record Awaits (e : Emudisk) (s : Server) : Type 0 where
  pub counted : (0 < e.next_response_num) × (e.next_response_num ≤ max_disk_requests_in_parallel)
  pub later : e.latest_response_time < e.next_response_time
  pub word : e.next_response_time < 2 ^ 63
  pub due :
      Perm
        (completing (active s.ssd) e.next_response_time)
        (take e.next_response_num e.next_response_ids)
  pub awaited : Perm (occupied_ids e.slots) (
      take e.next_response_num e.next_response_ids
      ++ pending_ids (active s.ssd) e.next_response_time)

-- What is left to wait for after a turn: nothing only if nothing is in flight.
abbrev pub AwaitsRest : Emudisk → Server → Type 0
AwaitsRest e s = ((e.next_response_num ≡ 0) × (occupied_ids e.slots ≡ [])) ⊎ Awaits e s

take-copy_next_ids :
    (ids old : List ℕ)
    → length ids ≤ length old
    → take (length ids) (copy_next_ids (length ids) ids old) ≡ ids
unfolding copy_next_ids
take-copy_next_ids [] old h = refl
take-copy_next_ids (i ∷ ids) [] h = absurd (omega arith)
take-copy_next_ids (i ∷ ids) (o ∷ old) h = ap (◌∷◌ i) (take-copy_next_ids ids old (omega arith))

length-copy_next_ids : (n : ℕ) (ids old : List ℕ) → length (copy_next_ids n ids old) ≡ length old
unfolding copy_next_ids
length-copy_next_ids zero ids old = refl
length-copy_next_ids (suc n) [] old = refl
length-copy_next_ids (suc n) (i ∷ ids) [] = refl
length-copy_next_ids (suc n) (i ∷ ids) (o ∷ old) = ap suc (length-copy_next_ids n ids old)

All-append_right : (n : ℕ) (xs ys : List ℕ) → All (λ x. x < n) (xs ++ ys) → All (λ x. x < n) ys
All-append_right n [] ys h = h
All-append_right n (x ∷ xs) ys h = All-append_right n xs ys h.1

-- Once the awaited requests are completed, the server has still to answer those that are left.
pub completed-InSync :
    (e e' : Emudisk) (s : Server)
    → InSync e s
    → Awaits e s
    → AreCompleted e
        (take e.next_response_num e.next_response_ids)
        (pending_ids (active s.ssd) e.next_response_time)
        e'
    → e'.latest_response_time ≡ e.next_response_time
    → InSync e' s
completed-InSync e e' s v w c latest = record {
  valid = v.valid;
  channels = v.channels ∙ sym c.same_size;
  few = omega (arith, v.few, c.same_size);
  running = v.running;
  fresh = omega (arith, v.fresh, c.same.1);
  words = v.words;
  ids =
      All-below-perm (2 ^ 32) _ _ (Perm.symm c.in_flight)
        (All-append_right (2 ^ 32) _ _ (All-below-perm (2 ^ 32) _ _ w.awaited v.ids));
  in_flight = rw latest c.in_flight;
}

-- What holds of table and server does not depend on the OS or on what is waited for.
pub kept-InSync :
    (e e' : Emudisk) (s : Server)
    → InSync e s
    → e'.slots ≡ e.slots
    → e'.latest_response_time ≡ e.latest_response_time
    → e'.udp_send_reply_id ≡ e.udp_send_reply_id
    → InSync e' s
kept-InSync e e' s v slots_e latest_e id_e = record {
  valid = v.valid;
  channels = rw slots_e v.channels;
  few = rw slots_e v.few;
  running = v.running;
  fresh = rw id_e v.fresh;
  words = v.words;
  ids = rw slots_e v.ids;
  in_flight = rw (slots_e, latest_e) v.in_flight;
}

pub kept-IsReady :
    (e e' : Emudisk) (s : Server)
    → IsReady e s
    → e'.slots ≡ e.slots
    → e'.latest_response_time ≡ e.latest_response_time
    → e'.udp_send_reply_id ≡ e.udp_send_reply_id
    → e'.os ≡ e.os
    → e'.next_response_ids ≡ e.next_response_ids
    → IsReady e' s
kept-IsReady e e' s r slots_e latest_e id_e os_e ids_e = record {
  in_sync = kept-InSync e e' s r.in_sync slots_e latest_e id_e;
  fits = rw slots_e r.fits;
  running = rw os_e r.running;
  ids_array = rw ids_e r.ids_array;
}

pub kept-Awaits :
    (e e' : Emudisk) (s : Server)
    → Awaits e s
    → e'.slots ≡ e.slots
    → e'.latest_response_time ≡ e.latest_response_time
    → e'.next_response_num ≡ e.next_response_num
    → e'.next_response_time ≡ e.next_response_time
    → e'.next_response_ids ≡ e.next_response_ids
    → Awaits e' s
kept-Awaits e e' s w slots_e latest_e num_e time_e ids_e = record {
  counted = rw num_e w.counted;
  later = rw (latest_e, time_e) w.later;
  word = rw time_e w.word;
  due = rw (num_e, time_e, ids_e) w.due;
  awaited = rw (slots_e, num_e, time_e, ids_e) w.awaited;
}

-- The queue and the disk's contents are left as they are.
pub record Keeps (e : Emudisk) (s : Server) (e' : Emudisk) (s' : Server) : Type 0 where
  pub inflight : e'.request_inflight ≡ e.request_inflight
  pub channels : e'.disk_channels ≡ e.disk_channels
  pub stopped : e'.queue_stopped ≡ e.queue_stopped
  pub failed : e'.failed ≡ e.failed
  pub size : length e'.slots ≡ length e.slots
  pub speed : s'.ssd.speed_factor ≡ s.ssd.speed_factor
  pub storage : s'.storage ≡ s.storage

-- What asking for the next response comes to.
pub record IsTurn (e : Emudisk) (s : Server) (num latest : ℕ) (e' : Emudisk) (s' : Server)
    : Type 0 where
  pub ready : IsReady e' s'
  pub completed : length e'.completed ≡ num + length e.completed
  pub handed : HandedBack e.slots e.completed (take num e.next_response_ids) e'.slots e'.completed
  pub rest : AwaitsRest e' s'
  pub left : length (occupied_ids e'.slots) + num ≡ length (occupied_ids e.slots)
  pub number : e'.udp_send_reply_id ≡ e.udp_send_reply_id + 1
  pub keeps : Keeps e s e' s'
  pub now_latest : e'.latest_response_time ≡ latest

module _ (blank : Request) (e : Emudisk) (os : Os) (s : Server) (r : IsReady e s) (e1 : Emudisk)
    (s1 : Server) (a : Answer) (q : Queried blank (record e { os = os }) s e1 s1 a)
    (resumed : IsRunning (resume_os os)) where
  resumed-IsReady :
      (e' : Emudisk)
      → e'.slots ≡ e1.slots
      → e'.latest_response_time ≡ e1.latest_response_time
      → e'.udp_send_reply_id ≡ e1.udp_send_reply_id
      → e'.os ≡ resume_os e1.os
      → length e'.next_response_ids ≡ length e1.next_response_ids
      → IsReady e' s1
  resumed-IsReady e' slots_e latest_e id_e os_e ids_e = record {
    in_sync = kept-InSync e1 e' s1 q.in_sync slots_e latest_e id_e;
    fits = rw (slots_e, q.same_table.0) r.fits;
    running = rw (os_e, q.same.1) resumed;
    ids_array = ids_e ∙ ap length q.same.0 ∙ r.ids_array;
  }

  queried-Keeps :
      (e' : Emudisk)
      → e'.request_inflight ≡ e1.request_inflight
      → e'.disk_channels ≡ e1.disk_channels
      → e'.queue_stopped ≡ e1.queue_stopped
      → e'.failed ≡ e1.failed
      → e'.slots ≡ e1.slots
      → Keeps e s e' s1
  queried-Keeps e' inflight_e channels_e stopped_e failed_e slots_e = record {
    inflight = inflight_e ∙ q.same_queue.0;
    channels = channels_e ∙ q.same_queue.1;
    stopped = stopped_e ∙ q.same_queue.2;
    failed = failed_e ∙ q.same_queue.5;
    size = ap length (slots_e ∙ q.same_table.0);
    speed = q.same_server.2;
    storage = q.same_server.1;
  }

  pub nothing-IsTurn :
      a.num_responses ≡ 0
      → occupied_ids e.slots ≡ []
      → IsTurn e s 0 e.latest_response_time
          (record e1 { next_response_num = 0; os = resume_os e1.os })
          s1
  nothing-IsTurn none empty = record {
    ready = resumed-IsReady _ refl refl refl refl refl;
    completed = omega (arith, ap length q.same.2);
    handed = rw (q.same_table.0, q.same.2) (HandedBack-none e.slots e.completed);
    rest = inl (refl, rw q.same_table.0 empty);
    left = omega (arith, ap length (ap occupied_ids q.same_table.0));
    number = q.next_number;
    keeps = queried-Keeps _ refl refl refl refl refl;
    now_latest = q.same_table.1;
  }

  -- The responses that are waited for stay.
  pub kept-IsTurn :
      AwaitsRest (record e1 { os = resume_os e1.os }) s1
      → IsTurn e s 0 e.latest_response_time (record e1 { os = resume_os e1.os }) s1
  kept-IsTurn rest = record {
    ready = resumed-IsReady _ refl refl refl refl refl;
    completed = omega (arith, ap length q.same.2);
    handed = rw (q.same_table.0, q.same.2) (HandedBack-none e.slots e.completed);
    rest = rest;
    left = omega (arith, ap length (ap occupied_ids q.same_table.0));
    number = q.next_number;
    keeps = queried-Keeps _ refl refl refl refl refl;
    now_latest = q.same_table.1;
  }

  pub adopted-IsTurn :
      0 < a.num_responses
      → e.latest_response_time < a.response_time
      → a.num_responses ≡ length a.io_request_ids
      → a.io_request_ids ≡ completing (active s1.ssd) a.response_time
      → Perm
          (occupied_ids e.slots)
          (a.io_request_ids ++ pending_ids (active s1.ssd) a.response_time)
      → IsTurn e s 0 e.latest_response_time (record (adopt e1 a) { os = resume_os e1.os }) s1
  adopted-IsTurn some_ after num now_due all =
      let array : length e1.next_response_ids ≡ 8 = ap length q.same.0 ∙ r.ids_array in
      let adopted_ids =
        take-copy_next_ids a.io_request_ids e1.next_response_ids
          (omega (arith, array, num, q.report.few)) in
      record {
        ready =
            resumed-IsReady _ refl refl refl refl
              (length-copy_next_ids a.num_responses a.io_request_ids e1.next_response_ids);
        completed = omega (arith, ap length q.same.2);
        handed = rw (q.same_table.0, q.same.2) (HandedBack-none e.slots e.completed);
        left = omega (arith, ap length (ap occupied_ids q.same_table.0));
        number = q.next_number;
        keeps = queried-Keeps _ refl refl refl refl refl;
        now_latest = q.same_table.1;
        rest = inr (record {
          counted = (some_, q.report.few);
          later = rw q.same_table.1 after;
          word = q.report.in_time;
          due =
              rw (num, adopted_ids, now_due)
                (Perm.refl (completing (active s1.ssd) a.response_time));
          awaited = rw (q.same_table.0, num, adopted_ids) all;
        });
      }
