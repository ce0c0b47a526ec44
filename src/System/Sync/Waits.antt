-- ===== src/System/Sync/Waits.antt =====
-- What holds between the turns of the loop of nctuss_emudisk_strategy over the queue.
use mathlib.Core.List.{Perm}
use nctusde.Base.{
  ℕ, ◌+◌, ◌*◌, ◌^◌, ◌≤◌, ◌<◌, ◌≡◌, refl, ◌⊎◌, inl, inr, Bool, true, false, List, [], ◌∷◌, ◌++◌,
  arith, length, take, All,
}
use nctusde.Server.{Server}
use nctusde.Ssd.{active, completing, long_max}
use nctusde.Emudisk.{Emudisk, BlockRequest, max_disk_requests_in_parallel, long_ge}
use nctusde.Emudisk.Slots.Table.{occupied_ids}
use nctusde.Emudisk.Strategy.{sector_count}
use nctusde.System.Sync.Ready.{AwaitsRest, kept-Awaits}
use nctusde.System.Sync.Start.{IsAdmissible}

-- While requests are started, the responses that the task waits for may no longer be the next
-- ones, but those requests still complete at their time, perhaps with others.
pub record IsStale (e : Emudisk) (s : Server) : Type 0 where
  pub counted : e.next_response_num ≤ max_disk_requests_in_parallel
  pub later : e.latest_response_time < e.next_response_time
  pub word : e.next_response_time < 2 ^ 63
  pub more : List ℕ
  pub due :
      Perm
        (completing (active s.ssd) e.next_response_time)
        (more ++ take e.next_response_num e.next_response_ids)

abbrev pub IsStaleOrNone : Emudisk → Server → Type 0
IsStaleOrNone e s = (e.next_response_num ≡ 0) ⊎ IsStale e s

-- Before the first request is started, nothing is stale.
abbrev pub LoopWaits : Emudisk → Server → Bool → Type 0
LoopWaits e s false = AwaitsRest e s
LoopWaits e s true = IsStaleOrNone e s

pub stale_any :
    (e : Emudisk) (s : Server) (submitted : Bool) → LoopWaits e s submitted → IsStaleOrNone e s
stale_any e s true w = w
stale_any e s false (inl (none, _)) = inl none
stale_any e s false (inr w) =
    inr (record { counted = w.counted.1; later = w.later; word = w.word; more = []; due = w.due })

-- What holds in each turn of the loop: `unended` requests are completed, but the block layer has
-- not called nctuss_emudisk_softirq_done for them.
pub record IsCounted (e : Emudisk) (unended : ℕ) : Type 0 where
  pub inflight : e.request_inflight ≡ length (occupied_ids e.slots) + unended
  pub channels : e.disk_channels ≡ length e.slots
  pub bounded : e.request_inflight ≤ e.disk_channels

-- The queue is stopped just if as many requests are in flight as the disk has channels.
abbrev pub Room : Emudisk → Type 0
Room e =
    ((e.queue_stopped ≡ false) × (e.request_inflight < e.disk_channels))
    ⊎ ((e.queue_stopped ≡ true) × (e.request_inflight ≡ e.disk_channels))

-- A request that the loop may fetch, with the time at which it does.
pub record IsTimely (e : Emudisk) (s : Server) (now : ℕ) (req : BlockRequest) : Type 0 where
  pub admissible : IsAdmissible req
  pub late : e.latest_response_time < now
  pub soon : now + 270270 * s.ssd.speed_factor < long_max

abbrev pub AreTimely : Emudisk → Server → List (ℕ × BlockRequest) → Type 0
AreTimely e s = All (λ r. IsTimely e s r.0 r.1)

-- How many messages the requests take: one to announce each, and one for each sector.
abbrev pub messages : List (ℕ × BlockRequest) → ℕ
messages [] = 0
messages ((now, req) ∷ queue) = (1 + sector_count req) + messages queue

abbrev pub accepted : Emudisk → ℕ
accepted e = length (occupied_ids e.slots) + length e.failed

pub AreTimely-same :
    (e e' : Emudisk) (s s' : Server) (queue : List (ℕ × BlockRequest))
    → e'.latest_response_time ≡ e.latest_response_time
    → s'.ssd.speed_factor ≡ s.ssd.speed_factor
    → AreTimely e s queue
    → AreTimely e' s' queue
AreTimely-same e e' s s' [] latest speed h = tt
AreTimely-same e e' s s' (r ∷ queue) latest speed h = (
  record { admissible = h.0.admissible; late = rw latest h.0.late; soon = rw speed h.0.soon },
  AreTimely-same e e' s s' queue latest speed h.1,
)

-- A request that is no file-system request is only noted as failed.
abbrev pub failing : Emudisk → BlockRequest → Emudisk
failing e req = record e { failed = req ∷ e.failed }

pub failing-LoopWaits :
    (e : Emudisk) (s : Server) (req : BlockRequest) (submitted : Bool)
    → LoopWaits e s submitted
    → LoopWaits (failing e req) s submitted
failing-LoopWaits e s req false (inl h) = inl h
failing-LoopWaits e s req false (inr w) =
    inr (kept-Awaits e (failing e req) s w refl refl refl refl refl)
failing-LoopWaits e s req true (inl h) = inl h
failing-LoopWaits e s req true (inr w) =
    inr (record { counted = w.counted; later = w.later; word = w.word; more = w.more; due = w.due })

abbrev pub stopped : Emudisk → Emudisk
stopped e = record e { queue_stopped = true }

pub stopped-IsStale : (e : Emudisk) (s : Server) → IsStaleOrNone e s → IsStaleOrNone (stopped e) s
stopped-IsStale e s (inl h) = inl h
stopped-IsStale e s (inr w) =
    inr (record { counted = w.counted; later = w.later; word = w.word; more = w.more; due = w.due })

-- The comparison of two `long`s that are small.
pub below :
    (e : Emudisk)
    → e.request_inflight ≤ e.disk_channels
    → e.disk_channels ≡ length e.slots
    → length e.slots ≤ max_disk_requests_in_parallel
    → long_ge e.request_inflight e.disk_channels ≡ false
    → e.request_inflight < e.disk_channels
below e bounded channels few more = ground arith

pub at_most :
    (e : Emudisk)
    → e.request_inflight ≤ e.disk_channels
    → e.disk_channels ≡ length e.slots
    → length e.slots ≤ max_disk_requests_in_parallel
    → long_ge e.request_inflight e.disk_channels ≡ true
    → e.request_inflight ≡ e.disk_channels
at_most e bounded channels few full = ground arith
