-- ===== src/Ramdisk/Run/Steady.antt =====
-- What holds in every world that the RAM disk reaches, and that its functions come to an end there.
use nctusde.Base.{
  ℕ, zero, suc, ◌≤◌, ◌<◌, ◌≡◌, refl, sym, Bool, true, false, List, arith, length, done,
  done-injective, subst, ◌∙◌, inl, inr,
}
use nctusde.Emudisk.{BlockRequest}
use nctusde.Ramdisk.{Ramdisk, ramdisk_strategy, process_responses, ramdisk_softirq_done}
use nctusde.Ramdisk.Progress.{pending_count}
use nctusde.Ramdisk.Run.{World, Step, Reach, AreArriving, after_call, after_end}
use nctusde.Ramdisk.Run.Called.{IsKept, HasRoom, ramdisk_strategy-IsKept}
use nctusde.Ramdisk.Run.Turned.{process_responses-IsKept, process_responses-done}

pub record IsSteady (w : World) : Type 0 where
  pub kept : IsKept w.disk w.unended
  pub room : HasRoom w.disk

after_end-IsSteady : (w : World) → IsSteady w → 0 < w.unended → IsSteady (after_end w)
unfolding ramdisk_softirq_done
after_end-IsSteady w v h =
    let k = v.kept in
    record {
      kept = record {
        sized = k.sized;
        few = k.few;
        some_ = k.some_;
        counted = omega (arith, k.counted, k.bounded, k.few, h);
        bounded = omega (arith, k.counted, k.bounded, k.few, h);
        within = k.within;
        in_time = k.in_time;
        punctual = record { in_time = k.punctual.in_time };
      };
      room = inl (refl, omega (arith, k.counted, k.bounded, k.few, h));
    }

has_room :
    (d : Ramdisk) → HasRoom d → d.queue_stopped ≡ false → d.request_inflight < d.disk_channels
has_room d (inl (_, room)) runs = room
has_room d (inr (stops, _)) runs = cc

-- The two kinds of call come to an end.
pub called :
    (w : World) (queue : List (ℕ × BlockRequest))
    → IsSteady w
    → w.disk.queue_stopped ≡ false
    → AreArriving w.disk.size queue
    → (r : Ramdisk × Bool × List (ℕ × BlockRequest)) × (ramdisk_strategy w.disk false queue
        ≡ done r)
      × IsSteady (after_call w r)
called w queue v runs arriving =
    let (r, result, kept, room) =
      ramdisk_strategy-IsKept w.disk w.unended false queue v.kept runs (has_room w.disk v.room runs)
        arriving in
    (r, result, record { kept = kept; room = room })

pub Step-IsSteady : (w w' : World) → IsSteady w → Step w w' → IsSteady w'
Step-IsSteady w _ v (Step.calls queue r runs arriving result) =
    let (r', result', v') = called w queue v runs arriving in
    subst (λ x. IsSteady (after_call w x)) (done-injective (sym result' ∙ result)) v'
Step-IsSteady w _ v (Step.turns now readings d due result) =
    let (kept, room) =
      process_responses-IsKept w.disk d w.unended now readings v.kept v.room result in
    record { kept = kept; room = room }
Step-IsSteady w _ v (Step.ends some_) = after_end-IsSteady w v some_

-- From a steady world, every world that the RAM disk reaches is steady: each request in flight is on a
-- channel or completed, and the counts agree; there are no more of them than channels, and the queue
-- is stopped exactly if there are as many; the task waits for a response no later than that of any
-- request on a channel; and every request that has been put on a channel lies within the disk.
pub ramdisk_reach-IsSteady : (w w' : World) → IsSteady w → Reach w w' → IsSteady w'
ramdisk_reach-IsSteady w _ v Reach.start = v
ramdisk_reach-IsSteady w w' v (Reach.later {v = u} reach step) =
    Step-IsSteady u w' (ramdisk_reach-IsSteady w u v reach) step

-- In every world that the RAM disk reaches from a steady one, a call of the strategy function, unless
-- the queue is stopped, finds a channel for each request that it takes, given that they lie within
-- the disk, are of at most 64 KiB and come neither in the clock's first 2 ^ 31 nanoseconds nor at
-- its end, and a turn of the task at the
-- time that it waits for comes to an end once there is a reading of the clock for each request on a
-- channel: neither reaches one of the endless loops of the source, nor copies outside its memory.
pub ramdisk_reach-answers :
    (w w' : World)
    → IsSteady w
    → Reach w w'
    → ((queue : List (ℕ × BlockRequest))
        → w'.disk.queue_stopped ≡ false
        → AreArriving w'.disk.size queue
        → (r : Ramdisk × Bool × List (ℕ × BlockRequest)) × (ramdisk_strategy w'.disk false queue
            ≡ done r))
      × ((now : ℕ) (readings : List ℕ)
          → w'.disk.next_response_time ≤ now
          → pending_count w'.disk.channels ≤ length readings
          → (d : Ramdisk) × (process_responses w'.disk now readings ≡ done (d, true)))
ramdisk_reach-answers w w' v reach =
    let v' = ramdisk_reach-IsSteady w w' v reach in
    (
      λ queue runs arriving. let (r, result, _) = called w' queue v' runs arriving in (r, result),
      λ now readings due enough.
          process_responses-done w'.disk w'.unended now readings v'.kept due enough,
    )

-- A step before others.
pub Reach-front : (w v u : World) → Step w v → Reach v u → Reach w u
Reach-front w v _ step Reach.start = Reach.later Reach.start step
Reach-front w v u step (Reach.later reach last) = Reach.later (Reach-front w v _ step reach) last

-- The softirq is called for each of the completed requests.
pub end_all :
    (n : ℕ) (w : World)
    → IsSteady w
    → w.unended ≡ n
    → (w' : World) × Reach w w'
      × IsSteady w'
      × (w'.unended ≡ 0)
      × (w'.disk.channels ≡ w.disk.channels)
      × (w'.disk.finished ≡ w.disk.finished)
unfolding ramdisk_softirq_done
end_all zero w v h = (w, Reach.start, v, h, refl, refl)
end_all (suc n) w v h =
    let some_ : 0 < w.unended = omega arith in
    let (w', reach, v', none, channels, finished) =
      end_all n (after_end w) (after_end-IsSteady w v some_) (omega arith) in
    (w', Reach-front w (after_end w) w' (Step.ends some_) reach, v', none, channels, finished)
