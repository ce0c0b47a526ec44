-- ===== src/System/Sync/Loop.antt =====
-- The loop of nctuss_emudisk_strategy over the queue.
use mathlib.Core.List.{append_assoc}
use mathlib.Core.List.Perm
use nctusde.Base.{
  ℕ, ◌+◌, ◌^◌, ◌≤◌, ◌<◌, ◌≡◌, refl, sym, ap, subst, ◌∙◌, ◌⊎◌, inl, inr, Bool, true, false, List, [],
  ◌∷◌, ◌++◌, arith, length, length-perm, take, Outcome, done, Bool-cases,
}
use nctusde.Wire.{Request}
use nctusde.Server.{Server}
use nctusde.Ssd.{active}
use nctusde.Ssd.Overwritten.{completing-IsPlaced}
use nctusde.Emudisk.{Emudisk, BlockRequest, max_disk_requests_in_parallel, long_ge}
use nctusde.Emudisk.Strategy.{Turn, submit_loop, start_request}
use nctusde.System.{direct_call}
use nctusde.System.Sync.Ready.{IsReady, kept-IsReady}
use nctusde.System.Sync.Started.{IsStarted, start_request-IsStarted}
use nctusde.System.Sync.Taken.{
  IsTaken, IsTaken-nothing, IsTaken-start, IsTaken-fail, started-in_table,
}
use nctusde.System.Sync.Waits.{
  IsStaleOrNone, LoopWaits, stale_any, IsCounted, Room, AreTimely, messages, accepted,
  AreTimely-same, failing, failing-LoopWaits, stopped, stopped-IsStale, below, at_most,
}

module _ (blank : Request) (counter : ℕ) where
  pub record IsLooped (e : Emudisk) (s : Server) (unended : ℕ) (submitted : Bool)
      (queue : List (ℕ × BlockRequest)) (t : Turn Server) : Type 0 where
    pub result : submit_loop blank direct_call counter e s submitted queue ≡ done t
    pub ready : IsReady t.disk t.net
    pub counted : IsCounted t.disk unended
    pub waits : LoopWaits t.disk t.net t.submitted
    pub room : Room t.disk
    pub same_channels : t.disk.disk_channels ≡ e.disk_channels
    pub same_latest : t.disk.latest_response_time ≡ e.latest_response_time
    pub number : t.disk.udp_send_reply_id ≤ e.udp_send_reply_id + messages queue
    pub same_completed : t.disk.completed ≡ e.completed
    pub ended : (t.queue ≡ []) ⊎ (t.disk.queue_stopped ≡ true)
    pub taken : IsTaken e queue t.disk t.queue
    pub all : accepted t.disk + length t.queue ≡ accepted e + length queue

  started-IsStale :
      (e : Emudisk) (s : Server) (now : ℕ) (req : BlockRequest) (e' : Emudisk) (s' : Server)
      → IsStarted blank counter e s now req e' s'
      → IsStaleOrNone e s
      → IsStaleOrNone e' s'
  started-IsStale e s now req e' s' st (inl none) = inl (st.same_waiting.num ∙ none)
  started-IsStale e s now req e' s' st (inr w) =
      let (more, p) =
        completing-IsPlaced (active s.ssd) (active s'.ssd) e.latest_response_time
          e.next_response_time st.placed w.later in
      inr (record {
        counted = rw st.same_waiting.num w.counted;
        later = rw (st.same_waiting.time, st.same_waiting.latest) w.later;
        word = rw st.same_waiting.time w.word;
        more = more ++ w.more;
        due =
            rw
              (
                st.same_waiting.num,
                st.same_waiting.time,
                st.same_waiting.ids,
                append_assoc more w.more (take e.next_response_num e.next_response_ids),
              )
              (Perm.trans p (Perm.append_left more w.due));
      })

  started-IsCounted :
      (e : Emudisk) (s : Server) (now : ℕ) (req : BlockRequest) (e' : Emudisk) (s' : Server)
      (unended : ℕ)
      → IsStarted blank counter e s now req e' s'
      → IsCounted e unended
      → length e.slots ≤ max_disk_requests_in_parallel
      → e.request_inflight < e.disk_channels
      → IsCounted e' unended
  started-IsCounted e s now req e' s' unended st c few room = record {
    inflight =
        omega (arith, st.inflight, c.inflight, length-perm _ _ st.in_flight, room, c.channels, few);
    channels = st.same_queue.channels ∙ c.channels ∙ sym st.same_queue.size;
    bounded = omega (arith, st.inflight, st.same_queue.channels, room);
  }

  loop-failing :
      (e : Emudisk) (s : Server) (submitted : Bool) (now : ℕ) (req : BlockRequest)
      (queue : List (ℕ × BlockRequest)) (r : Outcome (Turn Server))
      → req.is_fs ≡ false
      → submit_loop blank direct_call counter (failing e req) s submitted queue ≡ r
      → submit_loop blank direct_call counter e s submitted ((now, req) ∷ queue) ≡ r
  unfolding submit_loop
  loop-failing e s submitted now req queue r other h = simp other h

  -- What follows the test for a full disk.
  abbrev turned : Emudisk → Server → List (ℕ × BlockRequest) → Bool → Outcome (Turn Server)
  turned e' s' queue b = elim b [
    | true ↦ done (record {
      disk = record e' { queue_stopped = true };
      net = s';
      submitted = true;
      queue = queue;
    })
    | false ↦ submit_loop blank direct_call counter e' s' true queue
  ]

  loop-full :
      (e : Emudisk) (s : Server) (submitted : Bool) (now : ℕ) (req : BlockRequest)
      (queue : List (ℕ × BlockRequest)) (e' : Emudisk) (s' : Server)
      → req.is_fs ≡ true
      → start_request blank direct_call counter e s now req ≡ done (e', s')
      → long_ge e'.request_inflight e'.disk_channels ≡ true
      → submit_loop blank direct_call counter e s submitted ((now, req) ∷ queue)
        ≡ done (record {
          disk = record e' { queue_stopped = true };
          net = s';
          submitted = true;
          queue = queue;
        })
  unfolding submit_loop
  loop-full e s submitted now req queue e' s' fs started full =
      simp fs
        (rw started (subst (λ b. turned e' s' queue b ≡ turned e' s' queue true) (sym full) refl))

  loop-more :
      (e : Emudisk) (s : Server) (submitted : Bool) (now : ℕ) (req : BlockRequest)
      (queue : List (ℕ × BlockRequest)) (e' : Emudisk) (s' : Server) (r : Outcome (Turn Server))
      → req.is_fs ≡ true
      → start_request blank direct_call counter e s now req ≡ done (e', s')
      → long_ge e'.request_inflight e'.disk_channels ≡ false
      → submit_loop blank direct_call counter e' s' true queue ≡ r
      → submit_loop blank direct_call counter e s submitted ((now, req) ∷ queue) ≡ r
  unfolding submit_loop
  loop-more e s submitted now req queue e' s' r fs started more h =
      simp fs (rw started (subst (λ b. turned e' s' queue b ≡ r) (sym more) h))

  -- With the queue running and table and server in step, the loop over the queue starts the
  -- requests until as many are in flight as the disk has channels, and never hangs.
  pub submit_loop-IsLooped :
      (e : Emudisk) (s : Server) (unended : ℕ) (submitted : Bool) (queue : List (ℕ × BlockRequest))
      → IsReady e s
      → IsCounted e unended
      → LoopWaits e s submitted
      → e.queue_stopped ≡ false
      → e.request_inflight < e.disk_channels
      → AreTimely e s queue
      → e.udp_send_reply_id + messages queue < 2 ^ 32
      → (t : Turn Server) × IsLooped e s unended submitted queue t
  unfolding submit_loop
  submit_loop-IsLooped e s unended submitted [] r c w runs room timely wraps = (
    record { disk = e; net = s; submitted = submitted; queue = [] },
    record {
      result = refl;
      ready = r;
      counted = c;
      waits = w;
      room = inl (runs, room);
      same_channels = refl;
      same_latest = refl;
      number = omega arith;
      same_completed = refl;
      ended = inl refl;
      taken = IsTaken-nothing e [];
      all = refl;
    },
  )
  submit_loop-IsLooped e s unended submitted ((now, req) ∷ queue) r c w runs room timely wraps =
      elim (Bool-cases req.is_fs) [
        | inl fs ↦
            let (e', s', st) =
              start_request-IsStarted blank counter e s now req r timely.0.admissible timely.0.late
                timely.0.soon (omega (arith, wraps))
                (omega (arith, c.inflight, c.channels, room)) in
            let c' = started-IsCounted e s now req e' s' unended st c r.in_sync.few room in
            let w' = started-IsStale e s now req e' s' st (stale_any e s submitted w) in
            elim (Bool-cases (long_ge e'.request_inflight e'.disk_channels)) [
              | inl full ↦ (
                _,
                record {
                  result = loop-full e s submitted now req queue e' s' fs st.result full;
                  ready = kept-IsReady e' (stopped e') s' st.ready refl refl refl refl refl;
                  counted = record {
                    inflight = c'.inflight;
                    channels = c'.channels;
                    bounded = c'.bounded;
                  };
                  waits = stopped-IsStale e' s' w';
                  room = inr (refl, at_most e' c'.bounded c'.channels st.ready.in_sync.few full);
                  same_channels = st.same_queue.channels;
                  same_latest = st.same_waiting.latest;
                  number = omega (arith, st.number);
                  same_completed = st.same_waiting.completed;
                  ended = inr refl;
                  taken =
                      IsTaken-start e e' (stopped e') now req queue queue fs
                        (started-in_table blank counter e s now req e' s' st) st.same_waiting.failed
                        (let t = IsTaken-nothing e' queue in
                          record {
                            taken = t.taken;
                            front = t.front;
                            in_table = t.in_table;
                            others = t.others;
                          });
                  all =
                      omega (arith, length-perm _ _ st.in_flight, ap length st.same_waiting.failed);
                },
              )
              | inr more ↦
                  let (t, l) =
                    submit_loop-IsLooped e' s' unended true queue st.ready c' w'
                      (st.same_queue.stopped ∙ runs)
                      (below e' c'.bounded c'.channels st.ready.in_sync.few more)
                      (AreTimely-same e e' s s' queue st.same_waiting.latest st.same_speed timely.1)
                      (omega (arith, st.number, wraps)) in
                  (
                    t,
                    record {
                      result =
                          loop-more e s submitted now req queue e' s' _ fs st.result more l.result;
                      ready = l.ready;
                      counted = l.counted;
                      waits = l.waits;
                      room = l.room;
                      same_channels = l.same_channels ∙ st.same_queue.channels;
                      same_latest = l.same_latest ∙ st.same_waiting.latest;
                      number = omega (arith, l.number, st.number);
                      same_completed = l.same_completed ∙ st.same_waiting.completed;
                      ended = l.ended;
                      taken =
                          IsTaken-start e e' t.disk now req queue t.queue fs
                            (started-in_table blank counter e s now req e' s' st)
                            st.same_waiting.failed l.taken;
                      all = omega (
                        arith,
                        l.all,
                        length-perm _ _ st.in_flight,
                        ap length st.same_waiting.failed,
                      );
                    },
                  )
            ]
        | inr other ↦
            let e' = failing e req in
            let (t, l) =
              submit_loop-IsLooped e' s unended submitted queue
                (kept-IsReady e e' s r refl refl refl refl refl)
                (record { inflight = c.inflight; channels = c.channels; bounded = c.bounded })
                (failing-LoopWaits e s req submitted w) runs room
                (AreTimely-same e e' s s queue refl refl timely.1) (omega (arith, wraps)) in
            (
              t,
              record {
                result = loop-failing e s submitted now req queue _ other l.result;
                ready = l.ready;
                counted = l.counted;
                waits = l.waits;
                room = l.room;
                same_channels = l.same_channels;
                same_latest = l.same_latest;
                number = omega (arith, l.number);
                same_completed = l.same_completed;
                ended = l.ended;
                taken = IsTaken-fail e t.disk now req queue t.queue other l.taken;
                all = omega (arith, l.all);
              },
            )
      ]
