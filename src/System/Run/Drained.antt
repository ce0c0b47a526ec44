-- ===== src/System/Run/Drained.antt =====
-- The task gets through all the requests in flight.
use mathlib.Core.List.{Perm, append-nil}
use mathlib.Core.List.Perm
use nctusde.Base.{
  ℕ, zero, suc, ◌+◌, ◌^◌, ◌≤◌, ◌<◌, ◌≡◌, refl, ap, ◌⊎◌, inl, inr, true, false, [], ◌++◌, arith,
  length, nil_of_length,
}
use nctusde.Wire.{Request}
use nctusde.Server.{Server}
use nctusde.Emudisk.{Emudisk}
use nctusde.Emudisk.Slots.Table.{occupied_ids}
use nctusde.Emudisk.Slots.Occupied.{answers, occupied-nil, HandedBack-Perm}
use nctusde.Emudisk.Strategy.{emudisk_softirq_done}
use nctusde.System.Sync.Ready.{AwaitsRest}
use nctusde.System.Run.{StepOver, ReachOver, World, after_turn, after_end, Step, Reach}
use nctusde.System.Run.Steady.{IsSteady, turned, after_end-IsSteady, Reach-IsSteady}

abbrev in_flight : World Server → ℕ
in_flight w = length (occupied_ids w.disk.slots)

rests :
    (e : Emudisk) (s : Server)
    → AwaitsRest e s
    → (occupied_ids e.slots ≡ []) ⊎ (0 < e.next_response_num)
rests e s (inl (none, empty)) = inl empty
rests e s (inr w) = inr w.counted.0

stopped-busy :
    (w : World Server)
    → IsSteady w
    → w.disk.queue_stopped ≡ true
    → (0 < w.unended) ⊎ (0 < w.disk.next_response_num)
stopped-busy w v stops = elim v.room [
  | inl (runs, room) ↦ cc
  | inr (_, full) ↦ elim (rests w.disk w.net v.waits) [
    | inl empty ↦ inl (omega (arith, v.counted.inflight, full, v.some_channels, ap length empty))
    | inr some_ ↦ inr some_
  ]
]

module _ (blank : Request) (counter : ℕ) where
  Reach-front :
      {w v u : World Server}
      → Step blank counter w v
      → Reach blank counter v u
      → Reach blank counter w u
  Reach-front step ReachOver.start = ReachOver.later ReachOver.start step
  Reach-front step (ReachOver.later reach last) = ReachOver.later (Reach-front step reach) last

  -- What is left once every request in flight is completed and ended.
  pub record IsDrained (w w' : World Server) : Type 0 where
    pub reached : Reach blank counter w w'
    pub steady : IsSteady w'
    pub empty : occupied_ids w'.disk.slots ≡ []
    pub ended : (w'.unended ≡ 0) × (w'.disk.request_inflight ≡ 0)
    pub runs : w'.disk.queue_stopped ≡ false
    pub completed : Perm w'.disk.completed (w.disk.completed ++ answers w.disk.slots)

  step-IsDrained :
      (w v u : World Server)
      → Step blank counter w v
      → Perm (v.disk.completed ++ answers v.disk.slots) (w.disk.completed ++ answers w.disk.slots)
      → IsDrained v u
      → IsDrained w u
  step-IsDrained w v u step same d = record {
    reached = Reach-front step d.reached;
    steady = d.steady;
    empty = d.empty;
    ended = d.ended;
    runs = d.runs;
    completed = Perm.trans d.completed same;
  }

  nothing_left :
      (w : World Server)
      → occupied_ids w.disk.slots ≡ []
      → Perm w.disk.completed (w.disk.completed ++ answers w.disk.slots)
  nothing_left w empty =
      rw (occupied-nil w.disk.slots empty, append-nil w.disk.completed) (Perm.refl w.disk.completed)

  -- With nothing in flight, what is left are the softirqs.
  ended :
      (n : ℕ) (w : World Server)
      → IsSteady w
      → occupied_ids w.disk.slots ≡ []
      → w.unended ≡ n
      → (w' : World Server) × IsDrained w w'
  unfolding emudisk_softirq_done
  ended zero w v empty none = (
    w,
    record {
      reached = ReachOver.start;
      steady = v;
      empty = empty;
      ended = (none, omega (arith, v.counted.inflight, ap length empty, none));
      runs = elim v.room [
        | inl (runs, _) ↦ runs
        | inr (_, full) ↦
            absurd (omega (arith, full, v.some_channels, v.counted.inflight, ap length empty, none))
      ];
      completed = nothing_left w empty;
    },
  )
  ended (suc n) w v empty some_ =
      let positive : 0 < w.unended = omega (arith, some_) in
      let (w', d) =
        ended n (after_end w) (after_end-IsSteady w v positive) empty (omega (arith, some_)) in
      (
        w',
        step-IsDrained w (after_end w) w' (StepOver.ends positive)
            (Perm.refl (w.disk.completed ++ answers w.disk.slots)) d,
      )

  drained :
      (n : ℕ) (w : World Server)
      → IsSteady w
      → in_flight w ≤ n
      → w.disk.udp_send_reply_id + n < 2 ^ 32
      → (w' : World Server) × IsDrained w w'
  drained zero w v few wraps =
      ended w.unended w v (nil_of_length (occupied_ids w.disk.slots) (omega (arith, few))) refl
  drained (suc n) w v few wraps = elim (rests w.disk w.net v.waits) [
    | inl empty ↦ ended w.unended w v empty refl
    | inr some_ ↦
        let now = w.clock + w.disk.next_response_time in
        let (r, result, t, steady) =
          turned blank counter w now now v some_ (omega arith) (omega arith) (omega arith)
            (omega (arith, wraps)) in
        let (w', d) =
          drained n (after_turn w now r) steady (omega (arith, few, t.left, some_))
            (omega (arith, t.number, wraps)) in
        (
          w',
          step-IsDrained w (after_turn w now r) w'
              (StepOver.turns now now r some_ (omega arith) (omega arith) (omega arith)
                (omega (arith, wraps)) result)
              (HandedBack-Perm w.disk.slots _ w.disk.completed _ _ t.handed) d,
        )
  ]

  -- From every steady world the system gets to one in which every request that was in flight is
  -- completed and ended, the table empty and the queue running, if there is an id left for one
  -- message per request. What is completed then, but for the order, is what was completed before
  -- and the requests that were in the table, a write as it was and a read with the bytes of its
  -- slot's buffer in its segments.
  pub drains :
      (w : World Server)
      → IsSteady w
      → w.disk.udp_send_reply_id + in_flight w < 2 ^ 32
      → (w' : World Server) × IsDrained w w'
  drains w v wraps = drained (in_flight w) w v (omega arith) wraps

  -- In every world that a steady one leads to, a stopped queue is no deadlock: a softirq or a turn
  -- of the task can take place, if there is an id left for its message.
  pub stopped-goes_on :
      (w w' : World Server)
      → IsSteady w
      → Reach blank counter w w'
      → w'.disk.queue_stopped ≡ true
      → w'.disk.udp_send_reply_id + 1 < 2 ^ 32
      → (u : World Server) × Step blank counter w' u
  stopped-goes_on w w' v reach stops wraps =
      let v' = Reach-IsSteady blank counter w w' v reach in
      elim (stopped-busy w' v' stops) [
        | inl some_ ↦ (after_end w', StepOver.ends some_)
        | inr some_ ↦
            let now = w'.clock + w'.disk.next_response_time in
            let (r, result, _, _) =
              turned blank counter w' now now v' some_ (omega arith) (omega arith) (omega arith)
                wraps in
            (
              after_turn w' now r,
              StepOver.turns now now r some_ (omega arith) (omega arith) (omega arith) wraps result,
            )
      ]
