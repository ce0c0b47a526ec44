-- ===== src/Emudisk/Processing.antt =====
-- nctuss_emudisk_processing_task_func of emulator_kernel/nctuss_emudisk_main.c: the thread that
-- completes requests when their emulated response time has come.
pub mod Completion
use nctusde.Base.{
  ℕ, Bool, true, false, Option, none, some, List, [], ◌∷◌, take, ltb, ◌==◌, if◌then◌else◌, Outcome,
  done, hang, ◌>>=◌,
}
use nctusde.Wire.{Request, Packet}
use nctusde.Emudisk.{Emudisk, BlockRequest, Slot}
use nctusde.Emudisk.Slots.{get_request_id_to_req_mapping}
use nctusde.Emudisk.Transfer.{emudisk_transfer}
use nctusde.Emudisk.Pause.{pause_os, resume_os}
use nctusde.Emudisk.Calls.{emulator_get_responses}
use nctusde.Emudisk.Strategy.{adopt}

-- How long the thread sleeps at the top of its loop: until it is woken (`none`) if no response is
-- waited for. It then sleeps until the response time, whatever woke it.
unfoldable pub sleep_until : Emudisk → List (Option ℕ)
sleep_until e =
    if e.next_response_num == 0
    then none ∷ some e.next_response_time ∷ []
    else some e.next_response_time ∷ []

pub data AfterSleep : Type 0 where
  leaves sleeps_again processes : AfterSleep

-- The checks after the second sleep: `interrupted` is `ret == -EINTR`.
unfoldable pub after_sleep : Emudisk → Bool → AfterSleep
after_sleep e interrupted =
    if e.stopping then leaves else if interrupted then sleeps_again else processes

-- The data of a read goes from the slot's buffer to the request's segments.
abbrev pub fetch_data : Slot → Outcome BlockRequest
fetch_data slot =
    if slot.req.is_write
    then done slot.req
    else (emudisk_transfer slot.req slot.buffer >>= λ (req, _). done req)

-- The loop over the ids of the responses that are due.
unfoldable pub complete_requests : Emudisk → List ℕ → Outcome Emudisk
complete_requests e [] = done e
complete_requests e (id ∷ ids) = get_request_id_to_req_mapping e.slots id >>= λ (slots, slot).
    fetch_data slot >>= λ req.
    complete_requests
      (record e {
        slots = slots;
        latest_response_time = e.next_response_time;
        completed = req ∷ e.completed;
      })
      ids

module _ {Net : Type 0} (blank : Request) (call : Net → Request → List ℕ → Outcome (Net × Packet))
    (counter : ℕ) where
  -- The next response is asked for while the OS is paused. The last result says that its time has
  -- passed already, so that it is processed without sleeping.
  unfoldable pub find_next_response : Emudisk → Net → ℕ → Outcome (Emudisk × Net × Bool)
  find_next_response e net later = pause_os e.os counter >>= λ os.
      emulator_get_responses blank call (record e { os = os }) net e.latest_response_time
      >>= λ (e1, net1, a).
          if a.num_responses == 0
          then done (record e1 { next_response_num = 0; os = resume_os e1.os }, net1, false)
          else if ltb a.response_time e1.latest_response_time
          then hang
          else done (record (adopt e1 a) { os = resume_os e1.os }, net1, ltb a.response_time later)

  -- From `process_next_without_sleep` on; `now` and `later` are what `ktime_get` says before and
  -- after the requests are completed.
  unfoldable pub process_responses : Emudisk → Net → ℕ → ℕ → Outcome (Emudisk × Net × Bool)
  unfolding complete_requests find_next_response
  process_responses e net now later =
      if ltb now e.latest_response_time
      then hang
      else if ltb e.next_response_time e.latest_response_time
      then hang
      else if e.next_response_num == 0
      then hang
      else (complete_requests e (take e.next_response_num e.next_response_ids) >>= λ e'.
          find_next_response e' net later)

  -- As long as responses are overdue, over the readings of the clock. The flag says that more are.
  unfoldable pub process_all : Emudisk → Net → List (ℕ × ℕ) → Outcome (Emudisk × Net × Bool)
  unfolding process_responses
  process_all e net [] = done (e, net, true)
  process_all e net ((now, later) ∷ readings) =
      process_responses e net now later >>= λ (e', net', again). elim again [
        | true ↦ process_all e' net' readings
        | false ↦ done (e', net', false)
      ]
