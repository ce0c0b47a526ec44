-- ===== src/Ramdisk/Run/Turned.antt =====
-- A turn of the RAM disk's processing task.
use mathlib.Core.List.{Perm}
use nctusde.Base.{
  ℕ, ◌+◌, ◌-◌, ◌^◌, ◌≤◌, ◌<◌, ◌≡◌, refl, sym, ap, subst, ◌∙◌, Bool, true, false, List, [], ◌∷◌,
  ◌++◌, arith, length, All, ltb, if◌then◌else◌, Bool-cases, inl, inr, done, done-injective,
  >>=-eq-done,
}
use nctusde.Ramdisk.{
  Channel, Ramdisk, process_due, process_responses, find_next_response, ullong_max,
}
use nctusde.Ramdisk.Schedule.{IsPunctual, NonePendingBefore, find_next_response-IsPunctual}
use nctusde.Ramdisk.Completion.{process_due-NonePendingBefore}
use nctusde.Ramdisk.Progress.{answers, pending_count, IsWithin, process_due-done}
use nctusde.Ramdisk.Run.Called.{IsKept, HasRoom}
use nctusde.Ramdisk.Run.Taken.{IsTurned, process_due-IsTurned, next-same, next-IsTurned}

-- A turn that comes to an end ends with the search for the next response.
responses-result :
    (d d' : Ramdisk) (now : ℕ) (readings : List ℕ)
    → process_responses d now readings ≡ done (d', true)
    → (d1 : Ramdisk) × (process_due d (now ∷ readings) ≡ done (d1, true))
      × (find_next_response d1 ≡ d')
unfolding process_responses
responses-result d d' now readings h = elim (Bool-cases (ltb now d.next_response_time)) [
  | inl early ↦ cc (simp early at h)
  | inr due ↦
      let ((d1, caught_up), e1, e2) =
        >>=-eq-done (process_due d (now ∷ readings)) _ (simp due at h) in
      let finished : caught_up ≡ true = ap (λ (r : Ramdisk × Bool). r.1) (done-injective e2) in
      (
        d1,
        e1 ∙ ap (λ b. done (d1, b)) finished,
        ap (λ b. if b then find_next_response d1 else d1) (sym finished)
            ∙ ap (λ (r : Ramdisk × Bool). r.0) (done-injective e2),
      )
]

in_range :
    (cs : List Channel)
    → All (λ c. c.completion_time < 2 ^ 63) cs
    → All (λ c. c.completion_time < ullong_max) cs
in_range [] h = tt
in_range (c ∷ cs) h = (omega (arith, h.0), in_range cs h.1)

responses-IsTurned :
    (d d' : Ramdisk) (now : ℕ) (readings : List ℕ)
    → All (IsWithin d.size) d.channels
    → All (λ c. c.completion_time < 2 ^ 63) d.channels
    → process_responses d now readings ≡ done (d', true)
    → IsTurned d d' × IsPunctual d'
responses-IsTurned d d' now readings within in_time h =
    let (d1, turned, same) = responses-result d d' now readings h in
    let t = process_due-IsTurned d d1 (now ∷ readings) true within turned in
    (
      subst (IsTurned d) same (next-IsTurned d d1 t),
      subst IsPunctual same
          (find_next_response-IsPunctual d1 (in_range d1.channels (t.times (2 ^ 63) in_time))),
    )

-- Nothing is left that was to complete before all the readings of the clock.
pub process_responses-NonePendingBefore :
    (d d' : Ramdisk) (start now : ℕ) (readings : List ℕ)
    → start ≤ now
    → All (λ t. start ≤ t) readings
    → process_responses d now readings ≡ done (d', true)
    → NonePendingBefore start d'.channels
process_responses-NonePendingBefore d d' start now readings first later h =
    let (d1, turned, same) = responses-result d d' now readings h in
    subst (λ (x : Ramdisk). NonePendingBefore start x.channels) same
      (rw (next-same d1).4
        (process_due-NonePendingBefore d d1 start (now ∷ readings) (first, later) turned))

-- A turn that comes to an end takes requests off their channels and hands them back.
pub process_responses-IsKept :
    (d d' : Ramdisk) (unended now : ℕ) (readings : List ℕ)
    → IsKept d unended
    → HasRoom d
    → process_responses d now readings ≡ done (d', true)
    → IsKept d' (unended + (length d'.finished - length d.finished)) × HasRoom d'
process_responses-IsKept d d' unended now readings v room h =
    let (t, punctual) = responses-IsTurned d d' now readings v.within v.in_time h in
    (
      record {
        sized = omega (arith, t.sized, t.disk_channels, v.sized);
        few = omega (arith, t.disk_channels, v.few);
        some_ = omega (arith, t.disk_channels, v.some_);
        counted = omega (arith, t.inflight, v.counted, t.ended, t.more);
        bounded = omega (arith, t.inflight, t.disk_channels, v.bounded);
        within = t.within;
        in_time = t.times (2 ^ 63) v.in_time;
        punctual = punctual;
      },
      elim room [
        | inl (runs, free) ↦
            inl (t.stopped ∙ runs, omega (arith, t.inflight, t.disk_channels, free))
        | inr (stops, full) ↦ inr (t.stopped ∙ stops, t.inflight ∙ full ∙ sym t.disk_channels)
      ],
    )

-- A turn at the time that the task waits for comes to an end once there is a reading of the clock
-- for each request in flight.
pub process_responses-done :
    (d : Ramdisk) (unended now : ℕ) (readings : List ℕ)
    → IsKept d unended
    → d.next_response_time ≤ now
    → pending_count d.channels ≤ length readings
    → (d' : Ramdisk) × (process_responses d now readings ≡ done (d', true))
unfolding process_responses
process_responses-done d unended now readings v due enough =
    let later : ltb now d.next_response_time ≡ false = ground arith in
    let (d', result) = process_due-done d (now ∷ readings) v.within (omega (arith, enough)) in
    (find_next_response d', rw (later, result) refl)

-- Each request that is taken off its channel is handed back, and no completion time changes.
pub process_responses-ended :
    (d d' : Ramdisk) (unended now : ℕ) (readings : List ℕ)
    → IsKept d unended
    → process_responses d now readings ≡ done (d', true)
    → (length d'.finished + pending_count d'.channels
        ≡ length d.finished + pending_count d.channels)
      × ((t : ℕ)
          → All (λ c. c.completion_time < t) d.channels
          → All (λ c. c.completion_time < t) d'.channels)
      × Perm
          (d'.finished ++ answers d.memory d'.channels)
          (d.finished ++ answers d.memory d.channels)
process_responses-ended d d' unended now readings v h =
    let (t, _) = responses-IsTurned d d' now readings v.within v.in_time h in
    (t.ended, t.times, t.handed)
