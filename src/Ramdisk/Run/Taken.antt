-- ===== src/Ramdisk/Run/Taken.antt =====
-- How the RAM disk's processing task takes requests off their channels.
use mathlib.Core.List.{Perm, perm_middle}
use mathlib.Core.List.Perm
use nctusde.Base.{
  ℕ, ◌+◌, ◌≤◌, ◌<◌, ◌≡◌, refl, ap, subst, ◌∙◌, Bool, true, false, none, List, [], ◌∷◌, ◌++◌, arith,
  length, length-set, get_or, set, All, All-set, All-get_or, ◌==◌, Bool-cases, Option-cases, inl,
  inr, done, done-injective,
}
use nctusde.Ramdisk.{
  Ramdisk, Channel, no_channel, next_due, process_due, find_next_response, earliest_pending,
  ullong_max,
}
use nctusde.Ramdisk.Progress.{
  answered, answers, answers-set, pending_count, pending_count-set, IsWithin, next_due-FoundAt,
  complete_at-done,
}

-- Each request that was taken off a channel is handed back.
pub record IsTurned (d d' : Ramdisk) : Type 0 where
  pub size : d'.size ≡ d.size
  pub disk_channels : d'.disk_channels ≡ d.disk_channels
  pub inflight : d'.request_inflight ≡ d.request_inflight
  pub stopped : d'.queue_stopped ≡ d.queue_stopped
  pub sized : length d'.channels ≡ length d.channels
  pub ended :
      length d'.finished + pending_count d'.channels ≡ length d.finished + pending_count d.channels
  pub memory : d'.memory ≡ d.memory
  pub handed :
      Perm (d'.finished ++ answers d.memory d'.channels) (d.finished ++ answers d.memory d.channels)
  pub more : length d.finished ≤ length d'.finished
  pub within : All (IsWithin d'.size) d'.channels
  pub times :
      (t : ℕ)
      → All (λ c. c.completion_time < t) d.channels
      → All (λ c. c.completion_time < t) d'.channels

same-IsTurned : (d : Ramdisk) → All (IsWithin d.size) d.channels → IsTurned d d
same-IsTurned d within = record {
  size = refl;
  disk_channels = refl;
  inflight = refl;
  stopped = refl;
  sized = refl;
  ended = refl;
  memory = refl;
  handed = Perm.refl (d.finished ++ answers d.memory d.channels);
  more = omega arith;
  within = within;
  times = λ t h. h;
}

step-Perm :
    (d d1 d' : Ramdisk) (k : ℕ)
    → k < length d.channels
    → (get_or d.channels k no_channel).completed ≡ false
    → d1.channels ≡ set d.channels k (record (get_or d.channels k no_channel) { completed = true })
    → d1.memory ≡ d.memory
    → d1.finished ≡ answered d.memory (get_or d.channels k no_channel).request ∷ d.finished
    → Perm
        (d'.finished ++ answers d1.memory d'.channels)
        (d1.finished ++ answers d1.memory d1.channels)
    → Perm (d'.finished ++ answers d.memory d'.channels) (d.finished ++ answers d.memory d.channels)
step-Perm d d1 d' k lt busy channels memory finished p =
    let one = record (get_or d.channels k no_channel) { completed = true } in
    Perm.trans (rw (memory, finished, channels) at p) (
      Perm.trans (Perm.symm (perm_middle d.finished (answers d.memory (set d.channels k one)))) (
        Perm.append_left d.finished
          (Perm.symm (answers-set d.memory d.channels k one lt busy refl))))

-- One request more.
step-IsTurned :
    (d d1 d' : Ramdisk) (k : ℕ)
    → k < length d.channels
    → (get_or d.channels k no_channel).completed ≡ false
    → (d1.size ≡ d.size)
      × (d1.channels
          ≡ set d.channels k (record (get_or d.channels k no_channel) { completed = true }))
      × (d1.disk_channels ≡ d.disk_channels)
      × (d1.request_inflight ≡ d.request_inflight)
      × (d1.queue_stopped ≡ d.queue_stopped)
      × (d1.memory ≡ d.memory)
      × (d1.finished ≡ answered d.memory (get_or d.channels k no_channel).request ∷ d.finished)
    → IsTurned d1 d'
    → IsTurned d d'
step-IsTurned d d1 d' k lt busy (size, channels, disk_channels, inflight, stopped, memory, finished)
      t =
    let one = record (get_or d.channels k no_channel) { completed = true } in
    let fewer : pending_count d1.channels + 1 ≡ pending_count d.channels =
      ap (λ cs. pending_count cs + 1) channels ∙ pending_count-set d.channels k one lt busy refl in
    record {
      size = t.size ∙ size;
      disk_channels = t.disk_channels ∙ disk_channels;
      inflight = t.inflight ∙ inflight;
      stopped = t.stopped ∙ stopped;
      sized = t.sized ∙ ap length channels ∙ length-set d.channels k one;
      ended = omega (arith, t.ended, ap length finished, fewer);
      memory = t.memory ∙ memory;
      handed = step-Perm d d1 d' k lt busy channels memory finished t.handed;
      more = omega (arith, t.more, ap length finished);
      within = t.within;
      times = λ time h. t.times time (
          rw channels (
            All-set (λ (c : Channel). c.completion_time < time) d.channels k one h
              (All-get_or (λ (c : Channel). c.completion_time < time) d.channels k no_channel h
                lt)));
    }

pub process_due-IsTurned :
    (d d' : Ramdisk) (readings : List ℕ) (caught_up : Bool)
    → All (IsWithin d.size) d.channels
    → process_due d readings ≡ done (d', caught_up)
    → IsTurned d d'
unfolding process_due
process_due-IsTurned d d' [] caught_up within h =
    subst (λ (r : Ramdisk × Bool). IsTurned d r.0) (done-injective h) (same-IsTurned d within)
process_due-IsTurned d d' (now ∷ readings) caught_up within h =
    elim (Option-cases (next_due d.channels now 0 none)) [
      | inl nothing ↦
          subst (λ (r : Ramdisk × Bool). IsTurned d r.0)
            (done-injective (rw (nothing, process_due) at h)) (same-IsTurned d within)
      | inr (r, found) ↦ elim (next_due-FoundAt d.channels now 0 none r found) [
        | inl never ↦ cc
        | inr (k, at_k, lt, busy) ↦
            let here : r.1 ≡ k = omega (arith, at_k) in
            let one = record (get_or d.channels k no_channel) { completed = true } in
            let (
              d1, completes, size, channels, disk_channels, inflight, stopped, memory, finished,
            ) =
              complete_at-done d k within lt busy in
            step-IsTurned d d1 d' k lt busy
              (size, channels, disk_channels, inflight, stopped, memory, finished)
              (process_due-IsTurned d1 d' readings caught_up
                (rw (size, channels)
                  (All-set (IsWithin d.size) d.channels k one within
                    (All-get_or (IsWithin d.size) d.channels k no_channel within lt)))
                (rw (found, here, completes, process_due) at h))
      ]
    ]

pub next-same :
    (d : Ramdisk)
    → let d' = find_next_response d in
      (d'.size ≡ d.size)
      × (d'.disk_channels ≡ d.disk_channels)
      × (d'.request_inflight ≡ d.request_inflight)
      × (d'.queue_stopped ≡ d.queue_stopped)
      × (d'.channels ≡ d.channels)
      × (d'.finished ≡ d.finished)
      × (d'.memory ≡ d.memory)
unfolding find_next_response
next-same d = elim (Bool-cases (earliest_pending d.channels ullong_max == ullong_max)) [
  | inl e ↦ rw e (refl, refl, refl, refl, refl, refl, refl)
  | inr e ↦ rw e (refl, refl, refl, refl, refl, refl, refl)
]

pub next-IsTurned : (d d' : Ramdisk) → IsTurned d d' → IsTurned d (find_next_response d')
next-IsTurned d d' t =
    let (size, disk_channels, inflight, stopped, channels, finished, memory) = next-same d' in
    record {
      size = size ∙ t.size;
      disk_channels = disk_channels ∙ t.disk_channels;
      inflight = inflight ∙ t.inflight;
      stopped = stopped ∙ t.stopped;
      sized = ap length channels ∙ t.sized;
      ended = omega (arith, ap length finished, ap pending_count channels, t.ended);
      memory = memory ∙ t.memory;
      handed = rw (finished, channels) t.handed;
      more = omega (arith, ap length finished, t.more);
      within = rw (size, channels) t.within;
      times = λ time h. rw channels (t.times time h);
    }
