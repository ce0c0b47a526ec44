-- ===== src/Ramdisk/Run/Called.antt =====
-- A call of the RAM disk's strategy function.
use nctusde.Base.{
  ℕ, ◌+◌, ◌^◌, ◌≤◌, ◌<◌, ◌≡◌, refl, sym, ap, subst, ◌∙◌, Bool, true, false, List, [], ◌∷◌, arith,
  length, length-set, All, All-set, ◌||◌, Bool-cases, inl, inr, ◌⊎◌, done, Outcome,
}
use nctusde.Emudisk.{BlockRequest, long_ge}
use nctusde.Ramdisk.{Ramdisk, Channel, occupied, start_request, ramdisk_strategy}
use nctusde.Ramdisk.Schedule.{IsPunctual, start_request-IsPunctual}
use nctusde.Ramdisk.Progress.{pending_count, IsWithin}
use nctusde.Ramdisk.Run.{IsArriving, AreArriving}
use nctusde.Ramdisk.Run.Free.{pending_count-occupied}
use nctusde.Ramdisk.Run.Placed.{IsPlaced, start_request-IsPlaced}

-- Each request in flight is on a channel or waits for its softirq, and lies within the disk. The
-- task waits for a response no later than that of any request on a channel.
pub record IsKept (d : Ramdisk) (unended : ℕ) : Type 0 where
  pub sized : length d.channels ≡ d.disk_channels
  pub few : d.disk_channels < 2 ^ 31
  pub some_ : 0 < d.disk_channels
  pub counted : d.request_inflight ≡ pending_count d.channels + unended
  pub bounded : d.request_inflight ≤ d.disk_channels
  pub within : All (IsWithin d.size) d.channels
  pub in_time : All (λ c. c.completion_time < 2 ^ 63) d.channels
  pub punctual : IsPunctual d

placed-IsKept :
    (d : Ramdisk) (unended now : ℕ) (req : BlockRequest) (d' : Ramdisk) (wake : Bool)
    → IsKept d unended
    → d.request_inflight < d.disk_channels
    → IsArriving d.size now req
    → IsPlaced d now req d' wake
    → IsKept d' unended
unfolding occupied
placed-IsKept d unended now req d' wake v room a p =
    let (size, channels, _, _) = p.same in
    let one = occupied req p.time in
    let length_ : length d'.channels ≡ length d.channels =
      ap length p.channels ∙ length-set d.channels p.k one in
    let count : pending_count d'.channels ≡ pending_count d.channels + 1 =
      ap pending_count p.channels
      ∙ pending_count-occupied d.channels p.k one p.in_range p.was_free refl in
    record {
      sized = omega (arith, length_, channels, v.sized);
      few = omega (arith, channels, v.few);
      some_ = omega (arith, channels, v.some_);
      counted = omega (arith, p.inflight, count, v.counted, v.bounded, room, v.few);
      bounded = omega (arith, p.inflight, channels, room, v.few);
      within =
          rw (p.channels, size) (All-set (IsWithin d.size) d.channels p.k one v.within a.inside);
      in_time = rw p.channels (
          All-set (λ (c : Channel). c.completion_time < 2 ^ 63) d.channels p.k one v.in_time
            p.in_time);
      punctual = start_request-IsPunctual d now req d' wake p.result;
    }

skipped-IsKept :
    (d : Ramdisk) (unended : ℕ) (req : BlockRequest)
    → IsKept d unended
    → IsKept (record d { failed = req ∷ d.failed }) unended
skipped-IsKept d unended req v = record {
  sized = v.sized;
  few = v.few;
  some_ = v.some_;
  counted = v.counted;
  bounded = v.bounded;
  within = v.within;
  in_time = v.in_time;
  punctual = record { in_time = v.punctual.in_time };
}

stopped-IsKept :
    (d : Ramdisk) (unended : ℕ) (b : Bool)
    → IsKept d unended
    → IsKept (record d { queue_stopped = b }) unended
stopped-IsKept d unended b v = record {
  sized = v.sized;
  few = v.few;
  some_ = v.some_;
  counted = v.counted;
  bounded = v.bounded;
  within = v.within;
  in_time = v.in_time;
  punctual = record { in_time = v.punctual.in_time };
}

-- The queue is stopped exactly if there is no room for a request.
abbrev pub HasRoom : Ramdisk → Type 0
HasRoom d =
    ((d.queue_stopped ≡ false) × (d.request_inflight < d.disk_channels))
    ⊎ ((d.queue_stopped ≡ true) × (d.request_inflight ≡ d.disk_channels))

module _ (d : Ramdisk) (wake : Bool) (now : ℕ) (req : BlockRequest)
    (queue : List (ℕ × BlockRequest)) where
  -- What follows the count of the requests in flight.
  onward : Ramdisk → Bool → Bool → Outcome (Ramdisk × Bool × List (ℕ × BlockRequest))
  unfolding ramdisk_strategy
  onward d1 woken true = done (record d1 { queue_stopped = true }, woken || wake, queue)
  onward d1 woken false = ramdisk_strategy d1 (woken || wake) queue

  strategy-onward :
      (d1 : Ramdisk) (woken full : Bool)
      → req.is_fs ≡ true
      → start_request d now req ≡ done (d1, woken)
      → long_ge d1.request_inflight d1.disk_channels ≡ full
      → ramdisk_strategy d wake ((now, req) ∷ queue) ≡ onward d1 woken full
  unfolding ramdisk_strategy onward
  strategy-onward d1 woken full fs placed h = simp (fs, placed) (ap (onward d1 woken) h)

  strategy-skips :
      req.is_fs ≡ false
      → ramdisk_strategy d wake ((now, req) ∷ queue)
        ≡ ramdisk_strategy (record d { failed = req ∷ d.failed }) wake queue
  unfolding ramdisk_strategy
  strategy-skips other = rw other refl

-- The call comes to an end, and takes no more requests than there are channels.
pub ramdisk_strategy-IsKept :
    (d : Ramdisk) (unended : ℕ) (wake : Bool) (queue : List (ℕ × BlockRequest))
    → IsKept d unended
    → d.queue_stopped ≡ false
    → d.request_inflight < d.disk_channels
    → AreArriving d.size queue
    → (r : Ramdisk × Bool × List (ℕ × BlockRequest)) × (ramdisk_strategy d wake queue ≡ done r)
      × IsKept r.0 unended
      × HasRoom r.0
unfolding ramdisk_strategy onward
ramdisk_strategy-IsKept d unended wake [] v runs room a = ((d, wake, []), refl, v, inl (runs, room))
ramdisk_strategy-IsKept d unended wake ((now, req) ∷ queue) v runs room a =
    elim (Bool-cases req.is_fs) [
      | inl fs ↦
          let (d1, woken, p) =
            start_request-IsPlaced d now req a.0 (omega (arith, v.counted, v.sized, room)) in
          let v1 = placed-IsKept d unended now req d1 woken v room a.0 p in
          elim (Bool-cases (long_ge d1.request_inflight d1.disk_channels)) [
            | inl full ↦ (
              (record d1 { queue_stopped = true }, woken || wake, queue),
              strategy-onward d wake now req queue d1 woken true fs p.result full,
              stopped-IsKept d1 unended true v1,
              inr (refl, ground (arith, v1.bounded)),
            )
            | inr more ↦
                let room1 : d1.request_inflight < d1.disk_channels =
                  ground (arith, v1.bounded, v1.few) in
                let (r, result, v', room') =
                  ramdisk_strategy-IsKept d1 unended (woken || wake) queue v1 (p.same.2 ∙ runs)
                    room1 (subst (λ size. AreArriving size queue) (sym p.same.0) a.1) in
                (
                  r,
                  strategy-onward d wake now req queue d1 woken false fs p.result more ∙ result,
                  v',
                  room',
                )
          ]
      | inr other ↦
          let (r, result, v', room') =
            ramdisk_strategy-IsKept (record d { failed = req ∷ d.failed }) unended wake queue
              (skipped-IsKept d unended req v) runs room a.1 in
          (r, strategy-skips d wake now req queue other ∙ result, v', room')
    ]
