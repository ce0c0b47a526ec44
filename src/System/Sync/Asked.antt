-- ===== src/System/Sync/Asked.antt =====
-- Asking for the next response, at the end of nctuss_emudisk_strategy.
use mathlib.Core.List.{Perm}
use mathlib.Core.List.Perm
use nctusde.Base.{
  ℕ, ◌+◌, ◌^◌, ◌≤◌, ◌<◌, ◌≡◌, refl, sym, ap, ◌∙◌, ◌⊎◌, inl, inr, Bool, true, false, List, [], ◌∷◌,
  ◌++◌, arith, length, nil_of_length, length-append, length-perm, take, All, done, Bool-cases, ◌==◌,
}
use nctusde.Wire.{Request}
use nctusde.Server.{Server}
use nctusde.Ssd.{Channel, active, completing}
use nctusde.Ssd.Pending.{pending_ids}
use nctusde.Ssd.Valid.{length-take_of_le}
use nctusde.Emudisk.{Emudisk, Os}
use nctusde.Emudisk.Slots.Table.{occupied_ids}
use nctusde.Emudisk.Pause.{IsRunning, pause_os, resume_os, resume-pause}
use nctusde.Emudisk.Calls.{Answer}
use nctusde.Emudisk.Strategy.{adopt, is_better, is_sooner, ask_next_response}
use nctusde.System.{direct_call}
use nctusde.System.Sync.Query.{Queried, get_responses-Queried}
use nctusde.System.Sync.Ready.{
  IsReady, Awaits, AwaitsRest, IsTurn, kept-InSync, kept-IsTurn, adopted-IsTurn,
}
use nctusde.System.Sync.Waits.{IsStaleOrNone}

-- A request that completes after the latest response is one that is still to be answered.
completing-pending :
    (cs : List Channel) (latest time : ℕ)
    → latest < time
    → length (completing cs time) ≤ length (pending_ids cs latest)
unfolding completing pending_ids
completing-pending [] latest time h = omega arith
completing-pending (c ∷ cs) latest time h = ground (arith, completing-pending cs latest time h)

-- The next responses are not later than those of any time at which some request completes.
least_time :
    (cs : List Channel) (latest next time : ℕ)
    → All (λ c. (c.completion_time ≤ latest) ⊎ (next ≤ c.completion_time)) cs
    → latest < time
    → 0 < length (completing cs time)
    → next ≤ time
unfolding completing
least_time [] latest next time h later some_ = absurd (omega arith)
least_time (c ∷ cs) latest next time h later some_ = elim (Bool-cases (c.completion_time == time)) [
  | inl e ↦ ground (arith, h.0)
  | inr e ↦ least_time cs latest next time h.1 later (rw e at some_)
]

-- Nothing is waited for when nothing is in flight.
stale-none :
    (e : Emudisk) (s : Server)
    → IsReady e s
    → IsStaleOrNone e s
    → occupied_ids e.slots ≡ []
    → e.next_response_num ≡ 0
stale-none e s r (inl none) empty = none
stale-none e s r (inr w) empty = omega (
  arith,
  completing-pending (active s.ssd) e.latest_response_time e.next_response_time w.later,
  length-perm _ _ r.in_sync.in_flight,
  ap length empty,
  length-perm _ _ w.due,
  length-append w.more (take e.next_response_num e.next_response_ids),
  length-take_of_le e.next_response_num e.next_response_ids (omega (arith, w.counted, r.ids_array)),
)

-- An answer that is not better than the responses that are waited for is about those.
not_better :
    (e : Emudisk) (a : Answer)
    → is_better e a ≡ false
    → 0 < a.num_responses
    → (0 < e.next_response_num)
      × (e.next_response_time ≤ a.response_time)
      × ((e.next_response_time < a.response_time) ⊎ (a.num_responses ≤ e.next_response_num))
not_better e a worse some_ = (ground arith, ground arith, ground arith)

better-some : (e : Emudisk) (a : Answer) → is_better e a ≡ true → 0 < a.num_responses
better-some e a better = ground arith

module _ (blank : Request) (counter : ℕ) where
  asked-kept :
      (e : Emudisk) (os : Os) (s : Server) (e1 : Emudisk) (s1 : Server) (a : Answer)
      → pause_os e.os counter ≡ done os
      → Queried blank (record e { os = os }) s e1 s1 a
      → is_better e1 a ≡ false
      → ask_next_response blank direct_call counter e s
        ≡ done (record e1 { os = resume_os e1.os }, s1, false)
  unfolding ask_next_response
  asked-kept e os s e1 s1 a paused q worse = rw (paused, q.result, worse) refl

  asked-adopted :
      (e : Emudisk) (os : Os) (s : Server) (e1 : Emudisk) (s1 : Server) (a : Answer)
      → pause_os e.os counter ≡ done os
      → Queried blank (record e { os = os }) s e1 s1 a
      → is_better e1 a ≡ true
      → ask_next_response blank direct_call counter e s
        ≡ done (record (adopt e1 a) { os = resume_os e1.os }, s1, is_sooner e1 a)
  unfolding ask_next_response
  asked-adopted e os s e1 s1 a paused q better = rw (paused, q.result, better) refl

  module _ (e : Emudisk) (os : Os) (s : Server) (r : IsReady e s) (stale : IsStaleOrNone e s)
      (e1 : Emudisk) (s1 : Server) (a : Answer)
      (q : Queried blank (record e { os = os }) s e1 s1 a) where
    awaits :
        e.next_response_num ≤ 8
        → e.latest_response_time < e.next_response_time
        → e.next_response_time < 2 ^ 63
        → 0 < e.next_response_num
        → Perm
            (completing (active s.ssd) e.next_response_time)
            (take e.next_response_num e.next_response_ids)
        → Perm (occupied_ids e.slots) (
            take e.next_response_num e.next_response_ids
            ++ pending_ids (active s.ssd) e.next_response_time)
        → Awaits (record e1 { os = resume_os e1.os }) s1
    awaits few later word some_ due awaited =
        let num_e : e1.next_response_num ≡ e.next_response_num = q.same_queue.3 in
        let time_e : e1.next_response_time ≡ e.next_response_time = q.same_queue.4 in
        let ids_e : e1.next_response_ids ≡ e.next_response_ids = q.same.0 in
        let same_cs : active s1.ssd ≡ active s.ssd = q.same_server.0 in
        record {
          counted = rw num_e (some_, few);
          later = rw (q.same_table.1, time_e) later;
          word = rw time_e word;
          due = rw (num_e, time_e, ids_e, same_cs) due;
          awaited = rw (num_e, time_e, ids_e, same_cs, q.same_table.0) awaited;
        }

    -- The responses that are waited for are then the next ones.
    still_next :
        0 < e.next_response_num
        → e.next_response_time ≤ a.response_time
        → (e.next_response_time < a.response_time) ⊎ (a.num_responses ≤ e.next_response_num)
        → a.num_responses ≡ length a.io_request_ids
        → All
            (λ c.
              (c.completion_time ≤ e.latest_response_time) ⊎ (a.response_time ≤ c.completion_time))
            (active s1.ssd)
        → a.io_request_ids ≡ completing (active s1.ssd) a.response_time
        → Perm
            (occupied_ids e.slots)
            (a.io_request_ids ++ pending_ids (active s1.ssd) a.response_time)
        → Awaits (record e1 { os = resume_os e1.os }) s1
    still_next some_ sooner more num least now_due all = elim stale [
      | inl none ↦ absurd (omega arith)
      | inr w ↦
          let ids = take e.next_response_num e.next_response_ids in
          let taken : length ids ≡ e.next_response_num =
            length-take_of_le e.next_response_num e.next_response_ids
              (omega (arith, w.counted, r.ids_array)) in
          let due_num : length (completing (active s.ssd) e.next_response_time)
              ≡ length w.more + e.next_response_num =
            omega (arith, length-perm _ _ w.due, length-append w.more ids, taken) in
          let same_cs : active s1.ssd ≡ active s.ssd = q.same_server.0 in
          let time : e.next_response_time ≡ a.response_time = omega (
            arith,
            sooner,
            least_time (active s.ssd) e.latest_response_time a.response_time e.next_response_time
                (rw same_cs at least) w.later (omega (arith, due_num, some_)),
          ) in
          let now_ids : a.io_request_ids ≡ completing (active s.ssd) e.next_response_time =
            now_due
            ∙ ap (λ cs. completing cs a.response_time) same_cs
            ∙ ap (completing (active s.ssd)) (sym time) in
          let no_more : w.more ≡ [] =
            nil_of_length w.more (omega (arith, more, time, num, ap length now_ids, due_num)) in
          let exact : Perm (completing (active s.ssd) e.next_response_time) ids =
            rw no_more at w.due in
          let rest : Perm (occupied_ids e.slots) (
              completing (active s.ssd) e.next_response_time
              ++ pending_ids (active s.ssd) e.next_response_time) =
            rw (now_ids, same_cs, sym time) at all in
          awaits w.counted w.later w.word some_ exact (
            Perm.trans rest
              (Perm.append_right (pending_ids (active s.ssd) e.next_response_time) exact))
    ]

    -- If nothing is in flight, nothing is waited for.
    still_none :
        a.num_responses ≡ 0
        → occupied_ids e.slots ≡ []
        → AwaitsRest (record e1 { os = resume_os e1.os }) s1
    still_none none empty =
        inl (q.same_queue.3 ∙ stale-none e s r stale empty, rw q.same_table.0 empty)

    kept_rest : is_better e1 a ≡ false → AwaitsRest (record e1 { os = resume_os e1.os }) s1
    kept_rest worse = elim q.report.reported [
      | inl (none, empty) ↦ still_none none empty
      | inr (some_, after, num, least, now_due, all) ↦
          let (waits, sooner, more) = not_better e1 a worse some_ in
          inr (
            still_next (rw q.same_queue.3 at waits) (rw q.same_queue.4 at sooner)
              (rw (q.same_queue.3, q.same_queue.4) at more) num least now_due all)
    ]

    adopted_turn :
        IsRunning (resume_os os)
        → is_better e1 a ≡ true
        → IsTurn e s 0 e.latest_response_time (record (adopt e1 a) { os = resume_os e1.os }) s1
    adopted_turn resumed better = elim q.report.reported [
      | inl (none, empty) ↦ absurd (omega (arith, none, better-some e1 a better))
      | inr (some_, after, num, least, now_due, all) ↦
          adopted-IsTurn blank e os s r e1 s1 a q resumed some_ after num now_due all
    ]

  -- After requests are started, asking for the next response never hangs, and the task waits for
  -- the next responses again, whether the answer is adopted or not.
  pub ask_next_response-IsTurn :
      (e : Emudisk) (s : Server)
      → IsReady e s
      → IsStaleOrNone e s
      → e.latest_response_time < 2 ^ 63
      → e.udp_send_reply_id + 1 < 2 ^ 32
      → (e' : Emudisk) × (s' : Server) × (wake : Bool) × (ask_next_response blank direct_call
            counter e s
          ≡ done (e', s', wake))
        × IsTurn e s 0 e.latest_response_time e' s'
  ask_next_response-IsTurn e s r stale word wraps =
      let (os, paused, _, _, resumed, _, _) = resume-pause e.os counter r.running in
      let (e1, s1, a, q) =
        get_responses-Queried blank (record e { os = os }) s
          (kept-InSync e (record e { os = os }) s r.in_sync refl refl refl) word wraps in
      elim (Bool-cases (is_better e1 a)) [
        | inl better ↦ (
          _,
          s1,
          is_sooner e1 a,
          asked-adopted e os s e1 s1 a paused q better,
          adopted_turn e os s r stale e1 s1 a q resumed better,
        )
        | inr worse ↦ (
          _,
          s1,
          false,
          asked-kept e os s e1 s1 a paused q worse,
          kept-IsTurn blank e os s r e1 s1 a q resumed (kept_rest e os s r stale e1 s1 a q worse),
        )
      ]
