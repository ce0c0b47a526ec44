-- ===== src/System/Sync/Started.antt =====
-- What starting a request does to the module and the server.
use mathlib.Core.List.{Perm}
use nctusde.Base.{
  ℕ, set-set, ◌+◌, ◌*◌, ◌%◌, ◌^◌, ◌<◌, ◌≡◌, refl, sym, ap, subst, ◌∙◌, List, ◌∷◌, arith, length,
  get_or, set, get_or-set_self, length-set, All-set, All-get_or, All, done,
}
use nctusde.Wire.{Request}
use nctusde.Server.{Server}
use nctusde.Ssd.{Ssd, active, long_max}
use nctusde.Ssd.Flow.{IsPlaced}
use nctusde.Emudisk.{Emudisk, Os, Slot, BlockRequest, succ32}
use nctusde.Emudisk.Slots.{fill}
use nctusde.Emudisk.Slots.Table.{occupied_ids}
use nctusde.Emudisk.Slots.Filled.{put-set, occupied_ids-set}
use nctusde.Emudisk.Pause.{IsRunning, pause_os, resume_os, resume-pause}
use nctusde.Emudisk.Calls.{next_id}
use nctusde.Emudisk.Strategy.{data_dir, sector_count, no_slot, start_request}
use nctusde.Emudisk.Processing.Completion.{Fits}
use nctusde.System.{direct_call}
use nctusde.System.Sync.{InSync}
use nctusde.System.Sync.Submit.{Announced, submit-Announced}
use nctusde.System.Sync.Ready.{IsReady}
use nctusde.System.Sync.Start.{
  IsAdmissible, IsCopied, prepared, AreMoved, transfer-AreMoved, submit_shift, submitted,
  submit_to_emulator-done, start_request-done,
}

-- What does not change.
pub record SameQueue (e e' : Emudisk) : Type 0 where
  pub channels : e'.disk_channels ≡ e.disk_channels
  pub stopped : e'.queue_stopped ≡ e.queue_stopped
  pub size : length e'.slots ≡ length e.slots

pub record SameWaiting (e e' : Emudisk) : Type 0 where
  pub num : e'.next_response_num ≡ e.next_response_num
  pub time : e'.next_response_time ≡ e.next_response_time
  pub ids : e'.next_response_ids ≡ e.next_response_ids
  pub latest : e'.latest_response_time ≡ e.latest_response_time
  pub completed : e'.completed ≡ e.completed
  pub failed : e'.failed ≡ e.failed

-- The slot that a request was given, and what became of its buffer.
pub record HasSlot (e : Emudisk) (s : Server) (req : BlockRequest) (e' : Emudisk) (s' : Server)
    : Type 0 where
  pub i : ℕ
  pub in_range : i < length e.slots
  pub after : List ℕ
  pub copied : IsCopied req s.storage s'.storage (get_or e.slots i no_slot).buffer after
  pub slots :
      e'.slots
      ≡ set e.slots i (record {
        request_id = e.udp_send_reply_id;
        req = req;
        req_sectors = sector_count req;
        buffer = after;
      })

-- InSync looks at the ids of the slots, and at the simulated SSD.
moved-InSync :
    (e e' : Emudisk) (s s' : Server)
    → InSync e s
    → occupied_ids e'.slots ≡ occupied_ids e.slots
    → length e'.slots ≡ length e.slots
    → e'.latest_response_time ≡ e.latest_response_time
    → s'.ssd ≡ s.ssd
    → s'.reply.io_request_ids ≡ s.reply.io_request_ids
    → s'.current_max_request_id < e'.udp_send_reply_id
    → InSync e' s'
moved-InSync e e' s s' v ids size latest ssd words fresh = record {
  valid = rw ssd v.valid;
  channels = rw ssd (v.channels ∙ sym size);
  few = omega (arith, size, v.few);
  running = rw ssd v.running;
  fresh = fresh;
  words = ap length words ∙ v.words;
  ids = rw ids v.ids;
  in_flight = rw (ids, latest, ssd) v.in_flight;
}

module _ (blank : Request) (counter : ℕ) where
  pub record IsStarted (e : Emudisk) (s : Server) (now : ℕ) (req : BlockRequest) (e' : Emudisk)
      (s' : Server) : Type 0 where
    pub result : start_request blank direct_call counter e s now req ≡ done (e', s')
    pub ready : IsReady e' s'
    pub in_flight : Perm (occupied_ids e'.slots) (e.udp_send_reply_id ∷ occupied_ids e.slots)
    pub inflight : e'.request_inflight ≡ succ32 e.request_inflight
    pub number : e'.udp_send_reply_id ≡ e.udp_send_reply_id + (1 + sector_count req)
    pub same_queue : SameQueue e e'
    pub same_waiting : SameWaiting e e'
    pub same_speed : s'.ssd.speed_factor ≡ s.ssd.speed_factor
    pub placed : IsPlaced (active s.ssd) e.latest_response_time (active s'.ssd)
    pub slot : HasSlot e s req e' s'

  module _ (e : Emudisk) (s : Server) (now : ℕ) (req : BlockRequest) (r : IsReady e s)
      (a : IsAdmissible req) (os : Os) (paused : pause_os e.os counter ≡ done os)
      (resumed : IsRunning (resume_os os)) (e1 : Emudisk) (s1 : Server)
      (an : Announced blank e s now (data_dir req) (req.pos % 2 ^ 32) (sector_count req) req e1 s1)
      (wraps : e.udp_send_reply_id + (1 + sector_count req) < 2 ^ 32)
      (late : e.latest_response_time < now) where
    old : Slot
    old = get_or e.slots an.slot no_slot

    taken : Slot
    taken = fill old e.udp_send_reply_id req (sector_count req)

    prep : Slot
    prep = record taken { buffer = prepared req old.buffer }

    in_range : an.slot < length e.slots
    in_range =
        (put-set e.slots e1.slots e.udp_send_reply_id req (sector_count req) an.slot no_slot
          an.put).0

    filled : e1.slots ≡ set e.slots an.slot taken
    unfolding taken old
    filled =
        (put-set e.slots e1.slots e.udp_send_reply_id req (sector_count req) an.slot no_slot
          an.put).1

    slots2 : List Slot
    slots2 = set e1.slots an.slot prep

    e2 : Emudisk
    e2 = next_id (record e { slots = slots2; os = os })

    number : e2.udp_send_reply_id ≡ e.udp_send_reply_id + 1
    unfolding e2
    number = omega (arith, wraps)

    found : get_or e1.slots an.slot no_slot ≡ taken
    found = rw filled (get_or-set_self e.slots an.slot taken no_slot in_range)

    found2 : get_or slots2 an.slot no_slot ≡ prep
    unfolding slots2
    found2 =
        get_or-set_self e1.slots an.slot prep no_slot
          (omega (arith, ap length filled, length-set e.slots an.slot taken, in_range))

    finished : (after : List ℕ) → Emudisk
    finished after = submitted blank counter e os slots2 an.slot req prep after

    started :
        (s2 : Server) (after : List ℕ)
        → AreMoved blank counter e2 s1 req old.buffer s2 after
        → start_request blank direct_call counter e s now req ≡ done (finished after, s2)
    unfolding finished e2 slots2 prep taken
    started s2 after m =
        start_request-done blank counter e s now req e1.slots an.slot taken _ a late an.put found (
          submit_to_emulator-done blank counter e os s s1 s2 now req slots2 an.slot prep after
            paused (submit_shift blank counter _ _ _ s s1 now _ _ _ _ refl an.sent) found2 m.result)

    final_slots :
        (after : List ℕ)
        → (finished after).slots ≡ set e.slots an.slot (record taken { buffer = after })
    unfolding finished slots2 prep
    final_slots after =
        set-set e1.slots an.slot prep (record prep { buffer = after })
        ∙ ap (λ xs. set xs an.slot (record taken { buffer = after })) filled
        ∙ set-set e.slots an.slot taken (record taken { buffer = after })

    final_ids : (after : List ℕ) → occupied_ids (finished after).slots ≡ occupied_ids e1.slots
    unfolding finished slots2 prep
    final_ids after =
        occupied_ids-set slots2 an.slot (record prep { buffer = after }) no_slot
          (sym (ap (λ (x : Slot). x.request_id) found2))
        ∙ occupied_ids-set e1.slots an.slot prep no_slot
            (sym (ap (λ (x : Slot). x.request_id) found))

    final_size : (after : List ℕ) → length (finished after).slots ≡ length e.slots
    final_size after = ap length (final_slots after) ∙ length-set e.slots an.slot _

    final-Fits :
        (after : List ℕ) → length after ≡ length old.buffer → All Fits (finished after).slots
    unfolding taken old
    final-Fits after same =
        let was = All-get_or Fits e.slots an.slot no_slot r.fits in_range in
        rw (final_slots after)
          (All-set Fits e.slots an.slot _ r.fits (a.small, omega (arith, same, was.1)))

    final-IsReady :
        (s2 : Server) (after : List ℕ)
        → AreMoved blank counter e2 s1 req old.buffer s2 after
        → IsReady (finished after) s2
    unfolding finished e2
    final-IsReady s2 after m = record {
      in_sync =
          moved-InSync e1 (finished after) s1 s2 an.in_sync (final_ids after)
            (final_size after ∙ sym (ap length filled ∙ length-set e.slots an.slot taken))
            (sym (ap (λ (x : Emudisk). x.latest_response_time) an.next)) m.moved.same_ssd
            m.moved.same_words m.moved.fresh;
      fits = final-Fits after m.same_length;
      running = resumed;
      ids_array = r.ids_array;
    }

    starts : (e' : Emudisk) × (s' : Server) × IsStarted e s now req e' s'
    unfolding finished e2 taken old
    starts =
        let fits = All-get_or Fits e.slots an.slot no_slot r.fits in_range in
        let same_id : e1.udp_send_reply_id ≡ e2.udp_send_reply_id =
          ap (λ (x : Emudisk). x.udp_send_reply_id) an.next in
        let (s2, after, m) =
          transfer-AreMoved blank counter e2 s1 req old.buffer a fits.1
            (omega (arith, an.in_sync.fresh, same_id)) (omega (arith, number, wraps)) in
        (
          finished after,
          s2,
          record {
            result = started s2 after m;
            ready = final-IsReady s2 after m;
            in_flight = rw (final_ids after) an.in_flight;
            inflight = refl;
            number = omega (arith, number);
            same_queue = record { channels = refl; stopped = refl; size = final_size after };
            same_waiting = record {
              num = refl;
              time = refl;
              ids = refl;
              latest = refl;
              completed = refl;
              failed = refl;
            };
            same_speed = ap (λ (x : Ssd). x.speed_factor) m.moved.same_ssd ∙ an.same_speed;
            placed = rw (m.moved.same_ssd) an.placed;
            slot = record {
              i = an.slot;
              in_range = in_range;
              after = after;
              copied =
                  subst (λ storage. IsCopied req storage s2.storage old.buffer after) an.same_disk
                    m.copied;
              slots = final_slots after;
            };
          },
        )

  -- With table and server in step, a slot to spare and the OS running, an admissible request that
  -- comes after the latest response, far from the largest times and ids, is started without a hang:
  -- it is in flight beside the others, and table and server are in step again. The data of a write
  -- is in the server's storage, in one piece at its place, and that of a read in the buffer of its
  -- slot; the rest of storage and table stays.
  pub start_request-IsStarted :
      (e : Emudisk) (s : Server) (now : ℕ) (req : BlockRequest)
      → IsReady e s
      → IsAdmissible req
      → e.latest_response_time < now
      → now + 270270 * s.ssd.speed_factor < long_max
      → e.udp_send_reply_id + (1 + sector_count req) < 2 ^ 32
      → length (occupied_ids e.slots) < length e.slots
      → (e' : Emudisk) × (s' : Server) × IsStarted e s now req e' s'
  start_request-IsStarted e s now req r a late soon wraps room =
      let (os, paused, _, _, resumed, _, _) = resume-pause e.os counter r.running in
      let (e1, s1, an) =
        submit-Announced blank e s now (data_dir req) (req.pos % 2 ^ 32) (sector_count req) req
          r.in_sync late (omega (arith, a.small)) soon (omega (arith, wraps)) room in
      starts e s now req r a os paused resumed e1 s1 an wraps late
