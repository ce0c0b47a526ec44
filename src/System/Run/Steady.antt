-- ===== src/System/Run/Steady.antt =====
-- What holds in every world that is reached.
use nctusde.Base.{
  ℕ, ◌+◌, ◌^◌, ◌≤◌, ◌<◌, ◌≡◌, refl, sym, subst, ◌∙◌, inl, inr, Bool, false, List, [], ◌∷◌, arith,
  done, done-injective,
}
use nctusde.Wire.{Request}
use nctusde.Server.{Server}
use nctusde.Emudisk.{Emudisk, BlockRequest}
use nctusde.Emudisk.Strategy.{emudisk_softirq_done, emudisk_strategy}
use nctusde.Emudisk.Processing.{process_responses}
use nctusde.System.{direct_call}
use nctusde.System.Sync.Ready.{IsReady, IsTurn, Awaits, AwaitsRest, kept-IsReady, kept-Awaits}
use nctusde.System.Sync.Waits.{messages, IsCounted, Room, AreTimely}
use nctusde.System.Sync.Turn.{process_responses-IsTurn}
use nctusde.System.Sync.Called.{turned-IsCounted, turned-Room, emudisk_strategy-IsCalled}
use nctusde.System.Run.{
  StepOver, ReachOver, World, AreArriving, after_call, after_turn, after_end, Step, Reach,
}

pub record IsSteady (w : World Server) : Type 0 where
  pub ready : IsReady w.disk w.net
  pub counted : IsCounted w.disk w.unended
  pub waits : AwaitsRest w.disk w.net
  pub room : Room w.disk
  pub some_channels : 0 < w.disk.disk_channels
  pub past : w.disk.latest_response_time ≤ w.clock
  pub word : w.disk.latest_response_time < 2 ^ 63

running-Room :
    (e : Emudisk) → Room e → e.queue_stopped ≡ false → e.request_inflight < e.disk_channels
running-Room e (inl (runs, room)) h = room
running-Room e (inr (stops, full)) h = cc

arriving-timely :
    (w : World Server) (queue : List (ℕ × BlockRequest))
    → w.disk.latest_response_time ≤ w.clock
    → AreArriving w.clock w.net.ssd.speed_factor queue
    → AreTimely w.disk w.net queue
arriving-timely w [] past h = tt
arriving-timely w (r ∷ queue) past h = (
  record { admissible = h.0.admissible; late = omega (arith, past, h.0.late); soon = h.0.soon },
  arriving-timely w queue past h.1,
)

is_awaited : (e : Emudisk) (s : Server) → AwaitsRest e s → 0 < e.next_response_num → Awaits e s
is_awaited e s (inl (none, empty)) h = absurd (omega arith)
is_awaited e s (inr w) h = w

-- The softirq ends one of the completed requests.
after_end-IsCounted :
    (w : World Server)
    → IsSteady w
    → 0 < w.unended
    → IsCounted (after_end w).disk (after_end w).unended
unfolding emudisk_softirq_done
after_end-IsCounted w v h = record {
  inflight =
      omega
        (arith, v.counted.inflight, v.counted.bounded, v.counted.channels, v.ready.in_sync.few, h);
  channels = v.counted.channels;
  bounded =
      omega
        (arith, v.counted.inflight, v.counted.bounded, v.counted.channels, v.ready.in_sync.few, h);
}

pub after_end-IsSteady : (w : World Server) → IsSteady w → 0 < w.unended → IsSteady (after_end w)
unfolding emudisk_softirq_done
after_end-IsSteady w v h = record {
  ready = kept-IsReady w.disk (after_end w).disk w.net v.ready refl refl refl refl refl;
  counted = after_end-IsCounted w v h;
  waits = elim v.waits [
    | inl none ↦ inl none
    | inr a ↦ inr (kept-Awaits w.disk (after_end w).disk w.net a refl refl refl refl refl)
  ];
  room = inl (
    refl,
    omega
        (arith, v.counted.inflight, v.counted.bounded, v.counted.channels, v.ready.in_sync.few, h),
  );
  some_channels = v.some_channels;
  past = v.past;
  word = v.word;
}

module _ (blank : Request) (counter : ℕ) where
  pub called :
      (w : World Server) (queue : List (ℕ × BlockRequest)) (clock : ℕ)
      → IsSteady w
      → w.disk.queue_stopped ≡ false
      → AreArriving w.clock w.net.ssd.speed_factor queue
      → w.clock ≤ clock
      → w.disk.udp_send_reply_id + messages queue + 1 < 2 ^ 32
      → (r : Emudisk × Server × List (ℕ × BlockRequest) × Bool) × (emudisk_strategy blank
            direct_call counter w.disk w.net queue
          ≡ done r)
        × IsSteady (after_call w clock r)
  called w queue clock v runs arriving forth wraps =
      let (e, s, left, wake, c) =
        emudisk_strategy-IsCalled blank counter w.disk w.net w.unended queue v.ready v.counted
          v.waits v.word runs (running-Room w.disk v.room runs)
          (arriving-timely w queue v.past arriving) wraps in
      (
        (e, s, left, wake),
        c.result,
        record {
          ready = c.ready;
          counted = c.counted;
          waits = c.waits;
          room = c.room;
          some_channels = omega (arith, c.same_channels, v.some_channels);
          past = omega (arith, c.same_latest, v.past, forth);
          word = omega (arith, c.same_latest, v.word);
        },
      )

  -- The task, woken at the time of the responses that it waits for, does not hang, and completes
  -- as many requests as responses were waited for.
  pub turned :
      (w : World Server) (now later : ℕ)
      → IsSteady w
      → 0 < w.disk.next_response_num
      → w.disk.next_response_time ≤ now
      → w.clock ≤ now
      → now ≤ later
      → w.disk.udp_send_reply_id + 1 < 2 ^ 32
      → (r : Emudisk × Server × Bool) × (process_responses blank direct_call counter w.disk w.net
            now later
          ≡ done r)
        × IsTurn w.disk w.net w.disk.next_response_num w.disk.next_response_time r.0 r.1
        × IsSteady (after_turn w later r)
  turned w now later v some_ due forth on wraps =
      let (e, s, again, result, t) =
        process_responses-IsTurn blank counter w.disk w.net now later v.ready
          (is_awaited w.disk w.net v.waits some_) (omega (arith, v.past, forth)) wraps in
      (
        (e, s, again),
        result,
        t,
        record {
          ready = t.ready;
          counted =
              turned-IsCounted blank counter w.disk w.net _ _ e s w.unended _ t v.counted refl;
          waits = t.rest;
          room = turned-Room blank counter w.disk w.net _ _ e s t v.room;
          some_channels = omega (arith, t.keeps.channels, v.some_channels);
          past = omega (arith, t.now_latest, due, on);
          word = omega (arith, t.now_latest, (is_awaited w.disk w.net v.waits some_).word);
        },
      )

  pub Step-IsSteady : (w w' : World Server) → IsSteady w → Step blank counter w w' → IsSteady w'
  Step-IsSteady w _ v (StepOver.calls queue clock r runs arriving forth wraps result) =
      let (r', result', steady) = called w queue clock v runs arriving forth wraps in
      subst (λ x. IsSteady (after_call w clock x)) (done-injective (sym result' ∙ result)) steady
  Step-IsSteady w _ v (StepOver.turns now later r some_ due forth on wraps result) =
      let (r', result', t, steady) = turned w now later v some_ due forth on wraps in
      subst (λ x. IsSteady (after_turn w later x)) (done-injective (sym result' ∙ result)) steady
  Step-IsSteady w _ v (StepOver.ends some_) = after_end-IsSteady w v some_

  -- Whatever the block layer, the clock and the task do, in any order, from a steady world on the
  -- world stays steady, as long as the ids of the messages fit 32 bits: table and server in step,
  -- the OS running, each request in flight or waiting for its softirq counted, the queue stopped
  -- just if the disk is full, and the task waiting for what completes next.
  pub Reach-IsSteady : (w w' : World Server) → IsSteady w → Reach blank counter w w' → IsSteady w'
  Reach-IsSteady w _ v ReachOver.start = v
  Reach-IsSteady w w' v (ReachOver.later {v = u} reach step) =
      Step-IsSteady u w' (Reach-IsSteady w u v reach) step
