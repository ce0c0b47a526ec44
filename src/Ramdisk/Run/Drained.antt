-- ===== src/Ramdisk/Run/Drained.antt =====
-- The RAM disk gets through all its requests.
use mathlib.Core.List.{Perm, append-nil}
use mathlib.Core.List.Perm
use nctusde.Base.{
  ℕ, zero, suc, ◌≤◌, ◌<◌, ◌≡◌, refl, ap, ◌⊎◌, inl, inr, Bool, true, false, List, [], ◌∷◌, ◌++◌,
  arith, All, replicate, length-replicate,
}
use nctusde.Ramdisk.{Channel}
use nctusde.Ramdisk.Schedule.{NonePendingBefore}
use nctusde.Ramdisk.Progress.{pending_count, answers, answers-nil}
use nctusde.Ramdisk.Run.{World, Step, Reach, after_turn}
use nctusde.Ramdisk.Run.Turned.{
  process_responses-done, process_responses-NonePendingBefore, process_responses-ended,
}
use nctusde.Ramdisk.Run.Steady.{IsSteady, Step-IsSteady, Reach-front, end_all}

-- Every request is completed and ended, and the queue runs.
pub record IsDrained (w w' : World) : Type 0 where
  pub reached : Reach w w'
  pub steady : IsSteady w'
  pub idle : w'.disk.request_inflight ≡ 0
  pub runs : w'.disk.queue_stopped ≡ false
  pub finished : Perm w'.disk.finished (w.disk.finished ++ answers w.disk.memory w.disk.channels)

-- The task sleeps no longer than until a time after all completion times.
awaited :
    (cs : List Channel) (flag : Bool) (next time : ℕ)
    → All (λ c. (c.completed ≡ true) ⊎ ((flag ≡ true) × (next ≤ c.completion_time))) cs
    → All (λ c. c.completion_time < time) cs
    → 0 < pending_count cs
    → next ≤ time
unfolding pending_count
awaited [] flag next time punctual past some_ = absurd (omega arith)
awaited (c ∷ cs) flag next time punctual past some_ = elim punctual.0 [
  | inl ended ↦ awaited cs flag next time punctual.1 past.1 (rw ended at some_)
  | inr (on, soon) ↦ omega (arith, past.0, soon)
]

none_left :
    (cs : List Channel) (time : ℕ)
    → NonePendingBefore time cs
    → All (λ c. c.completion_time < time) cs
    → pending_count cs ≡ 0
unfolding pending_count
none_left [] time none past = refl
none_left (c ∷ cs) time none past = elim none.0 [
  | inl ended ↦ rw ended (none_left cs time none.1 past.1)
  | inr late ↦ absurd (omega (arith, late, past.0))
]

zero_or : (n : ℕ) → (n ≡ 0) ⊎ (0 < n)
zero_or zero = inl refl
zero_or (suc n) = inr (omega arith)

All-replicate : (time n : ℕ) → All (λ t. time ≤ t) (replicate n time)
All-replicate time zero = tt
All-replicate time (suc n) = (omega arith, All-replicate time n)

-- A turn takes every request off its channel.
turned :
    (w : World) (time : ℕ)
    → IsSteady w
    → All (λ c. c.completion_time < time) w.disk.channels
    → 0 < pending_count w.disk.channels
    → (w' : World) × Step w w'
      × IsSteady w'
      × (pending_count w'.disk.channels ≡ 0)
      × Perm w'.disk.finished (w.disk.finished ++ answers w.disk.memory w.disk.channels)
turned w time v past some_ =
    let d = w.disk in
    let n = pending_count d.channels in
    let due =
      awaited d.channels d.next_response_to_reply d.next_response_time time v.kept.punctual.in_time
        past some_ in
    let (d', result) =
      process_responses-done d w.unended time (replicate n time) v.kept due
        (omega (arith, length-replicate n time)) in
    let step : Step w (after_turn w d') = Step.turns time (replicate n time) d' due result in
    let (ended, times, handed) =
      process_responses-ended d d' w.unended time (replicate n time) v.kept result in
    let none =
      none_left d'.channels time
        (process_responses-NonePendingBefore d d' time time (replicate n time) (omega arith)
          (All-replicate time n) result)
        (times time past) in
    (
      after_turn w d',
      step,
      Step-IsSteady w (after_turn w d') v step,
      none,
      rw (answers-nil d.memory d'.channels none, append-nil d'.finished) at handed,
    )

-- With no request on a channel, the softirqs are all that is left.
ended :
    (w : World)
    → IsSteady w
    → pending_count w.disk.channels ≡ 0
    → (w' : World) × Reach w w'
      × IsSteady w'
      × (w'.disk.request_inflight ≡ 0)
      × (w'.disk.queue_stopped ≡ false)
      × (w'.disk.finished ≡ w.disk.finished)
ended w v empty =
    let (w', reach, v', none, channels, finished) = end_all w.unended w v refl in
    let idle : w'.disk.request_inflight ≡ 0 =
      omega (arith, v'.kept.counted, none, ap pending_count channels, empty) in
    (
      w',
      reach,
      v',
      idle,
      elim v'.room [
        | inl (runs, _) ↦ runs
        | inr (_, full) ↦ absurd (omega (arith, full, idle, v'.kept.some_))
      ],
      finished,
    )

pub ramdisk-drains :
    (w : World) (time : ℕ)
    → IsSteady w
    → All (λ c. c.completion_time < time) w.disk.channels
    → (w' : World) × IsDrained w w'
ramdisk-drains w time v past = elim (zero_or (pending_count w.disk.channels)) [
  | inl empty ↦
      let (w', reach, v', idle, runs, finished) = ended w v empty in
      (
        w',
        record {
          reached = reach;
          steady = v';
          idle = idle;
          runs = runs;
          finished =
              rw
                (
                  finished,
                  answers-nil w.disk.memory w.disk.channels empty,
                  append-nil w.disk.finished,
                )
                (Perm.refl w.disk.finished);
        },
      )
  | inr some_ ↦
      let (w1, step, v1, empty, handed) = turned w time v past some_ in
      let (w', reach, v', idle, runs, finished) = ended w1 v1 empty in
      (
        w',
        record {
          reached = Reach-front w w1 w' step reach;
          steady = v';
          idle = idle;
          runs = runs;
          finished = rw finished handed;
        },
      )
]
