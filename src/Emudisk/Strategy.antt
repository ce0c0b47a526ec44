-- ===== src/Emudisk/Strategy.antt =====
-- nctuss_emudisk_strategy of emulator_kernel/nctuss_emudisk_main.c, which the block layer calls
-- with the queue lock held, and nctuss_emudisk_softirq_done.
-- The queue is the list of the requests in it, each with what `ktime_get` says in the turn of the
-- loop that fetches it; `counter` is what the stopped timer shows while the OS is paused.
use nctusde.Base.{
  ℕ, zero, suc, ◌+◌, ◌-◌, ◌*◌, ◌/◌, ◌%◌, ◌^◌, Bool, true, false, ◌&&◌, ◌||◌, List, [], ◌∷◌, get_or,
  set, ltb, leb, ◌==◌, if◌then◌else◌, Outcome, done, hang, ◌>>=◌,
}
use nctusde.Timing.{sector_size}
use nctusde.Wire.{Request, Packet}
use nctusde.Emudisk.{Emudisk, BlockRequest, Slot, request_bytes, succ32, pred32, long_ge}
use nctusde.Emudisk.Slots.{put_request_id_to_req_mapping}
use nctusde.Emudisk.Transfer.{emudisk_transfer}
use nctusde.Emudisk.Pause.{pause_os, resume_os}
use nctusde.Emudisk.Calls.{
  Answer, emulator_submit_request, emulator_get_responses, emulator_transfer_data,
}

-- `rq_data_dir(req) == WRITE ? 1 : 0`
abbrev pub data_dir : BlockRequest → ℕ
data_dir req = if req.is_write then 1 else 0

-- `(blk_rq_bytes(req)+SECTOR_SIZE-1)/SECTOR_SIZE`
abbrev pub sector_count : BlockRequest → ℕ
sector_count req = (request_bytes req + sector_size - 1) / sector_size

abbrev no_request : BlockRequest
no_request = record { is_fs = false; is_write = false; pos = 0; segments = [] }

abbrev pub no_slot : Slot
no_slot = record { request_id = 0; req = no_request; req_sectors = 0; buffer = [] }

-- What emulator_get_responses found, set against the response that is waited for.
abbrev pub is_sooner : Emudisk → Answer → Bool
is_sooner e a = e.next_response_num == 0 || ltb a.response_time e.next_response_time

abbrev pub is_better : Emudisk → Answer → Bool
is_better e a =
    ltb 0 a.num_responses
    && (is_sooner e a
        || (e.next_response_time == a.response_time && ltb e.next_response_num a.num_responses))

-- The answer's ids over the front of the array.
unfoldable pub copy_next_ids : ℕ → List ℕ → List ℕ → List ℕ
copy_next_ids zero ids old = old
copy_next_ids (suc n) [] old = old
copy_next_ids (suc n) (i ∷ ids) [] = []
copy_next_ids (suc n) (i ∷ ids) (_ ∷ old) = i ∷ copy_next_ids n ids old

abbrev pub adopt : Emudisk → Answer → Emudisk
adopt e a = record e {
  next_response_time = a.response_time;
  next_response_num = a.num_responses;
  next_response_ids = copy_next_ids a.num_responses a.io_request_ids e.next_response_ids;
}

-- The fetched requests that are left in the queue beside the result.
pub record Turn (Net : Type 0) : Type 0 where
  pub disk : Emudisk
  pub net : Net
  pub submitted : Bool
  pub queue : List (ℕ × BlockRequest)

module _ {Net : Type 0} (blank : Request) (call : Net → Request → List ℕ → Outcome (Net × Packet))
    (counter : ℕ) where
  -- for(i=0; i<req_nbytes; i+=SECTOR_SIZE), from sector `i` on for `n` sectors.
  unfoldable pub transfer_sectors :
      ℕ → ℕ → Emudisk → Net → ℕ → ℕ → List ℕ → Outcome (Emudisk × Net × List ℕ)
  transfer_sectors zero i e net dir pos buffer = done (e, net, buffer)
  transfer_sectors (suc n) i e net dir pos buffer =
      emulator_transfer_data blank call e net dir ((pos + i) % 2 ^ 32) buffer (i * sector_size)
      >>= λ (e', net', buffer'). transfer_sectors n (i + 1) e' net' dir pos buffer'

  -- Between pause_OS and resume_OS: the request is announced, then its data moved.
  unfoldable pub submit_to_emulator : Emudisk → Net → ℕ → BlockRequest → ℕ → Outcome (Emudisk × Net)
  unfolding transfer_sectors
  submit_to_emulator e net now req slot = pause_os e.os counter >>= λ os.
      emulator_submit_request blank call (record e { os = os }) net now (data_dir req)
        (req.pos % 2 ^ 32) (sector_count req) e.udp_send_reply_id
      >>= λ (e1, net1).
          transfer_sectors (sector_count req) 0 e1 net1 (data_dir req) req.pos
            (get_or e1.slots slot no_slot).buffer
          >>= λ (e2, net2, buffer). done (
            record e2 {
              slots = set e2.slots slot (record (get_or e2.slots slot no_slot) { buffer = buffer });
              os = resume_os e2.os;
              request_inflight = succ32 e2.request_inflight;
            },
            net2,
          )

  -- One fetched file-system request, up to the count of the requests in flight.
  unfoldable pub start_request : Emudisk → Net → ℕ → BlockRequest → Outcome (Emudisk × Net)
  unfolding submit_to_emulator
  start_request e net now req =
      if leb now e.latest_response_time
      then hang
      else (put_request_id_to_req_mapping e.slots e.udp_send_reply_id req (sector_count req)
          >>= λ (slots, slot).
              (if req.is_write
                then (emudisk_transfer req (get_or slots slot no_slot).buffer >>= λ (_, buffer).
                    done (set slots slot (record (get_or slots slot no_slot) { buffer = buffer })))
                else done slots)
              >>= λ slots'. submit_to_emulator (record e { slots = slots' }) net now req slot)

  -- The loop over the queue.
  unfoldable pub submit_loop : Emudisk → Net → Bool → List (ℕ × BlockRequest) → Outcome (Turn Net)
  unfolding start_request
  submit_loop e net submitted [] =
      done (record { disk = e; net = net; submitted = submitted; queue = [] })
  submit_loop e net submitted ((now, req) ∷ queue) =
      if req.is_fs
      then (start_request e net now req >>= λ (e', net').
          elim (long_ge e'.request_inflight e'.disk_channels) [
            | true ↦ done (record {
              disk = record e' { queue_stopped = true };
              net = net';
              submitted = true;
              queue = queue;
            })
            | false ↦ submit_loop e' net' true queue
          ])
      else submit_loop (record e { failed = req ∷ e.failed }) net submitted queue

  -- After the loop: the next response is asked for, and the flag says to wake the processing task.
  unfoldable pub ask_next_response : Emudisk → Net → Outcome (Emudisk × Net × Bool)
  ask_next_response e net = pause_os e.os counter >>= λ os.
      emulator_get_responses blank call (record e { os = os }) net e.latest_response_time
      >>= λ (e1, net1, a).
          let e2 = (if is_better e1 a then adopt e1 a else e1) in
          done (record e2 { os = resume_os e2.os }, net1, is_better e1 a && is_sooner e1 a)

  -- The whole function, with the requests that stay in the queue and the flag to wake the task.
  unfoldable pub emudisk_strategy :
      Emudisk
      → Net
      → List (ℕ × BlockRequest)
      → Outcome (Emudisk × Net × List (ℕ × BlockRequest) × Bool)
  unfolding submit_loop ask_next_response
  emudisk_strategy e net queue = submit_loop e net false queue >>= λ t. elim t.submitted [
    | false ↦ done (t.disk, t.net, t.queue, false)
    | true ↦ (ask_next_response t.disk t.net >>= λ (e', net', wake). done (e', net', t.queue, wake))
  ]

-- A completed request is ended, and a stopped queue started again; the result says whether the
-- block layer calls the strategy function from here.
unfoldable pub emudisk_softirq_done : Emudisk → Emudisk × Bool
emudisk_softirq_done e = (
  record e { request_inflight = pred32 e.request_inflight; queue_stopped = false },
  e.queue_stopped,
)
