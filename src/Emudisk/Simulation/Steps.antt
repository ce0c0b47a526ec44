-- ===== src/Emudisk/Simulation/Steps.antt =====
-- Each function that calls the emulator, run on two networks.
use nctusde.Base.{
  ℕ, zero, suc, ◌+◌, ◌≡◌, refl, sym, ap, subst, done-injective, >>=-eq-done, inl, inr, Bool, true,
  false, List, [], ◌∷◌, take, ltb, leb, ◌==◌, if◌then◌else◌, Outcome, done, ◌>>=◌,
}
use nctusde.Wire.{Request, Packet}
use nctusde.Emudisk.{Emudisk, BlockRequest, succ32, long_ge}
use nctusde.Emudisk.Slots.{put_request_id_to_req_mapping, get_request_id_to_req_mapping}
use nctusde.Emudisk.Pause.{pause_os}
use nctusde.Emudisk.Calls.{
  Answer, read_answer, emulator_submit_request, emulator_get_responses, emulator_transfer_data,
}
use nctusde.Emudisk.Strategy.{
  Turn, sector_count, adopt, is_better, transfer_sectors, submit_to_emulator, start_request,
  submit_loop, ask_next_response, emudisk_strategy,
}
use nctusde.Emudisk.Processing.{
  complete_requests, fetch_data, find_next_response, process_responses,
}
use nctusde.Emudisk.Simulation.{
  Follows, IsSent, Follows-bind, Follows-same, Follows-result, Same4, Follows-if, Follows-elim,
  Same2, Same3, SameCall,
}

-- Completing requests sends no message.
complete_requests-number :
    (e e' : Emudisk) (ids : List ℕ)
    → complete_requests e ids ≡ done e'
    → e'.udp_send_reply_id ≡ e.udp_send_reply_id
unfolding complete_requests
complete_requests-number e e' [] h =
    ap (λ (x : Emudisk). x.udp_send_reply_id) (sym (done-injective h))
complete_requests-number e e' (id ∷ ids) h =
    let (r, _, h1) = >>=-eq-done (get_request_id_to_req_mapping e.slots id) _ h in
    let (req, _, h2) = >>=-eq-done (fetch_data r.1) _ h1 in
    complete_requests-number
      (record e {
        slots = r.0;
        latest_response_time = e.next_response_time;
        completed = req ∷ e.completed;
      })
      e' ids h2

module _ {N1 N2 : Type 0} (blank : Request) (call1 : N1 → Request → List ℕ → Outcome (N1 × Packet))
    (call2 : N2 → Request → List ℕ → Outcome (N2 × Packet)) (counter : ℕ) (R : ℕ → N1 → N2 → Type 0)
    (sim : (id : ℕ) (n1 : N1) (n2 : N2) (q : Request) (bytes : List ℕ)
      → R id n1 n2
      → q.id ≡ id
      → IsSent q
      → Follows (SameCall R (succ32 id)) (call1 n1 q bytes) (call2 n2 q bytes)) where
  after-call :
      {C D : Type 0} (S : C → D → Type 0) (n1 : N1) (n2 : N2) (q : Request) (bytes : List ℕ)
      (f : N1 × Packet → Outcome C) (g : N2 × Packet → Outcome D)
      → R q.id n1 n2
      → IsSent q
      → ((m1 : N1) (m2 : N2) (p : Packet)
          → R (succ32 q.id) m1 m2
          → Follows S (f (m1, p)) (g (m2, p)))
      → Follows S (call1 n1 q bytes >>= f) (call2 n2 q bytes >>= g)
  after-call S n1 n2 q bytes f g r sent h =
      Follows-bind (SameCall R (succ32 q.id)) S (call1 n1 q bytes) (call2 n2 q bytes) f g
        (sim q.id n1 n2 q bytes r refl sent)
        (λ (m1, p) (m2, p') (same, r').
          subst (λ x. Follows S (f (m1, p)) (g (m2, x))) (sym same) (h m1 m2 p r'))

  after2 :
      {C D : Type 0} (S : C → D → Type 0) (m : Outcome (Emudisk × N1)) (m' : Outcome (Emudisk × N2))
      (f : Emudisk × N1 → Outcome C) (g : Emudisk × N2 → Outcome D)
      → Follows (Same2 R) m m'
      → ((e : Emudisk) (n1 : N1) (n2 : N2)
          → R e.udp_send_reply_id n1 n2
          → Follows S (f (e, n1)) (g (e, n2)))
      → Follows S (m >>= f) (m' >>= g)
  after2 S m m' f g follows h =
      Follows-bind (Same2 R) S m m' f g follows (λ (e, n1) (e', n2) (same, r).
        subst (λ x. Follows S (f (e, n1)) (g (x, n2))) (sym same) (h e n1 n2 r))

  after3 :
      {X C D : Type 0} (S : C → D → Type 0) (m : Outcome (Emudisk × N1 × X))
      (m' : Outcome (Emudisk × N2 × X)) (f : Emudisk × N1 × X → Outcome C)
      (g : Emudisk × N2 × X → Outcome D)
      → Follows (Same3 R {X = X}) m m'
      → ((e : Emudisk) (n1 : N1) (n2 : N2) (x : X)
          → R e.udp_send_reply_id n1 n2
          → Follows S (f (e, n1, x)) (g (e, n2, x)))
      → Follows S (m >>= f) (m' >>= g)
  after3 S m m' f g follows h =
      Follows-bind (Same3 R) S m m' f g follows (λ (e, n1, x) (e', n2, x') (same, same', r).
        subst (λ y. Follows S (f (e, n1, x)) (g (e', n2, y))) (sym same')
          (subst (λ y. Follows S (f (e, n1, x)) (g (y, n2, x))) (sym same) (h e n1 n2 x r)))

  submit_request-Follows :
      (e : Emudisk) (n1 : N1) (n2 : N2) (time dir sector count io_request_id : ℕ)
      → R e.udp_send_reply_id n1 n2
      → Follows
          (Same2 R)
          (emulator_submit_request blank call1 e n1 time dir sector count io_request_id)
          (emulator_submit_request blank call2 e n2 time dir sector count io_request_id)
  unfolding emulator_submit_request
  submit_request-Follows e n1 n2 time dir sector count io_request_id r =
      after-call (Same2 R) n1 n2 _ [] _ _ r (inl refl) (λ m1 m2 p r'. (_, refl, (refl, r')))

  get_responses-Follows :
      (e : Emudisk) (n1 : N1) (n2 : N2) (current_time : ℕ)
      → R e.udp_send_reply_id n1 n2
      → Follows
          (Same3 R)
          (emulator_get_responses blank call1 e n1 current_time)
          (emulator_get_responses blank call2 e n2 current_time)
  unfolding emulator_get_responses
  get_responses-Follows e n1 n2 current_time r =
      after-call (Same3 R) n1 n2 _ [] _ _ r (inr (inl refl)) (λ m1 m2 p r'.
        Follows-same (Same3 R) (read_answer p) _ _ (λ a. (_, refl, (refl, refl, r'))))

  transfer_data-Follows :
      (e : Emudisk) (n1 : N1) (n2 : N2) (dir sector : ℕ) (buffer : List ℕ) (offset : ℕ)
      → R e.udp_send_reply_id n1 n2
      → Follows
          (Same3 R)
          (emulator_transfer_data blank call1 e n1 dir sector buffer offset)
          (emulator_transfer_data blank call2 e n2 dir sector buffer offset)
  unfolding emulator_transfer_data
  transfer_data-Follows e n1 n2 dir sector buffer offset r =
      after-call (Same3 R) n1 n2 _ _ _ _ r (inr (inr refl))
        (λ m1 m2 p r'. (_, refl, (refl, refl, r')))

  transfer_sectors-Follows :
      (n i : ℕ) (e : Emudisk) (n1 : N1) (n2 : N2) (dir pos : ℕ) (buffer : List ℕ)
      → R e.udp_send_reply_id n1 n2
      → Follows
          (Same3 R)
          (transfer_sectors blank call1 counter n i e n1 dir pos buffer)
          (transfer_sectors blank call2 counter n i e n2 dir pos buffer)
  unfolding transfer_sectors
  transfer_sectors-Follows zero i e n1 n2 dir pos buffer r = (_, refl, (refl, refl, r))
  transfer_sectors-Follows (suc n) i e n1 n2 dir pos buffer r =
      after3 (Same3 R) _ _ _ _ (transfer_data-Follows e n1 n2 dir _ buffer _ r)
        (λ e' m1 m2 buffer' r'. transfer_sectors-Follows n (i + 1) e' m1 m2 dir pos buffer' r')

  submit_to_emulator-Follows :
      (e : Emudisk) (n1 : N1) (n2 : N2) (now : ℕ) (req : BlockRequest) (slot : ℕ)
      → R e.udp_send_reply_id n1 n2
      → Follows
          (Same2 R)
          (submit_to_emulator blank call1 counter e n1 now req slot)
          (submit_to_emulator blank call2 counter e n2 now req slot)
  unfolding submit_to_emulator
  submit_to_emulator-Follows e n1 n2 now req slot r =
      Follows-same (Same2 R) (pause_os e.os counter) _ _ (λ os.
        after2 (Same2 R) _ _ _ _ (submit_request-Follows (record e { os = os }) n1 n2 now _ _ _ _ r)
          (λ e' m1 m2 r'.
            after3 (Same2 R) _ _ _ _
              (transfer_sectors-Follows (sector_count req) 0 e' m1 m2 _ _ _ r')
              (λ e2 k1 k2 buffer r2. (_, refl, (refl, r2)))))

  pub start_request-Follows :
      (e : Emudisk) (n1 : N1) (n2 : N2) (now : ℕ) (req : BlockRequest)
      → R e.udp_send_reply_id n1 n2
      → Follows
          (Same2 R)
          (start_request blank call1 counter e n1 now req)
          (start_request blank call2 counter e n2 now req)
  unfolding start_request
  start_request-Follows e n1 n2 now req r =
      Follows-if (Same2 R) (leb now e.latest_response_time) _ _ _ _ tt (
        Follows-same (Same2 R)
          (put_request_id_to_req_mapping e.slots e.udp_send_reply_id req (sector_count req)) _ _
          (λ (slots, slot). Follows-same (Same2 R) _ _ _ (λ slots'.
            submit_to_emulator-Follows (record e { slots = slots' }) n1 n2 now req slot r)))

  abbrev SameTurn : Turn N1 → Turn N2 → Type 0
  SameTurn t t' =
      (t'.disk ≡ t.disk)
      × (t'.submitted ≡ t.submitted)
      × (t'.queue ≡ t.queue)
      × R t.disk.udp_send_reply_id t.net t'.net

  abbrev turn_of : {N : Type 0} → Emudisk → N → Bool → List (ℕ × BlockRequest) → Turn N
  turn_of e n submitted queue = record { disk = e; net = n; submitted = submitted; queue = queue }

  after-turn :
      {C D : Type 0} (S : C → D → Type 0) (m : Outcome (Turn N1)) (m' : Outcome (Turn N2))
      (f : Turn N1 → Outcome C) (g : Turn N2 → Outcome D)
      → Follows SameTurn m m'
      → ((e : Emudisk) (n1 : N1) (n2 : N2) (b : Bool) (queue : List (ℕ × BlockRequest))
          → R e.udp_send_reply_id n1 n2
          → Follows S (f (turn_of e n1 b queue)) (g (turn_of e n2 b queue)))
      → Follows S (m >>= f) (m' >>= g)
  after-turn S m m' f g follows h =
      Follows-bind SameTurn S m m' f g follows (λ t t' (disk, submitted, queue, r).
        subst (λ x. Follows S (f t) (g (turn_of x t'.net t'.submitted t'.queue))) (sym disk)
          (subst (λ x. Follows S (f t) (g (turn_of t.disk t'.net x t'.queue))) (sym submitted)
            (subst (λ x. Follows S (f t) (g (turn_of t.disk t'.net t.submitted x))) (sym queue)
              (h t.disk t.net t'.net t.submitted t.queue r))))

  submit_loop-Follows :
      (e : Emudisk) (n1 : N1) (n2 : N2) (submitted : Bool) (queue : List (ℕ × BlockRequest))
      → R e.udp_send_reply_id n1 n2
      → Follows SameTurn
          (submit_loop blank call1 counter e n1 submitted queue)
          (submit_loop blank call2 counter e n2 submitted queue)
  unfolding submit_loop
  submit_loop-Follows e n1 n2 submitted [] r = (_, refl, (refl, refl, refl, r))
  submit_loop-Follows e n1 n2 submitted ((now, req) ∷ queue) r =
      Follows-if SameTurn req.is_fs _ _ _ _
        (after2 SameTurn _ _ _ _ (start_request-Follows e n1 n2 now req r) (λ e' m1 m2 r'.
          Follows-elim SameTurn (long_ge e'.request_inflight e'.disk_channels)
            (done (turn_of (record e' { queue_stopped = true }) m1 true queue))
            (submit_loop blank call1 counter e' m1 true queue)
            (done (turn_of (record e' { queue_stopped = true }) m2 true queue))
            (submit_loop blank call2 counter e' m2 true queue) (_, refl, (refl, refl, refl, r'))
            (submit_loop-Follows e' m1 m2 true queue r')))
        (submit_loop-Follows (record e { failed = req ∷ e.failed }) n1 n2 submitted queue r)

  better-number :
      (e : Emudisk) (a : Answer) (b : Bool)
      → (if b then adopt e a else e).udp_send_reply_id ≡ e.udp_send_reply_id
  better-number e a true = refl
  better-number e a false = refl

  ask_next_response-Follows :
      (e : Emudisk) (n1 : N1) (n2 : N2)
      → R e.udp_send_reply_id n1 n2
      → Follows
          (Same3 R)
          (ask_next_response blank call1 counter e n1)
          (ask_next_response blank call2 counter e n2)
  unfolding ask_next_response
  ask_next_response-Follows e n1 n2 r = Follows-same (Same3 R) (pause_os e.os counter) _ _ (λ os.
      after3 (Same3 R) _ _ _ _
        (get_responses-Follows (record e { os = os }) n1 n2 e.latest_response_time r)
        (λ e1 m1 m2 a r'. (
          _,
          refl,
          (refl, refl, subst (λ id. R id m1 m2) (sym (better-number e1 a (is_better e1 a))) r'),
        )))

  -- The strategy function.
  pub emudisk_strategy-Follows :
      (e : Emudisk) (n1 : N1) (n2 : N2) (queue : List (ℕ × BlockRequest))
      → R e.udp_send_reply_id n1 n2
      → Follows
          (Same4 R {X = List (ℕ × BlockRequest)} {Y = Bool})
          (emudisk_strategy blank call1 counter e n1 queue)
          (emudisk_strategy blank call2 counter e n2 queue)
  unfolding emudisk_strategy
  emudisk_strategy-Follows e n1 n2 queue r =
      let S = Same4 R {X = List (ℕ × BlockRequest)} {Y = Bool} in
      after-turn S _ _ _ _ (submit_loop-Follows e n1 n2 false queue r)
        (λ e' m1 m2 submitted left r'.
          Follows-elim S submitted _ _ _ _
            (after3 S _ _ _ _ (ask_next_response-Follows e' m1 m2 r')
              (λ e2 k1 k2 wake r2. (_, refl, (refl, refl, refl, r2))))
            (_, refl, (refl, refl, refl, r')))

  find_next_response-Follows :
      (e : Emudisk) (n1 : N1) (n2 : N2) (later : ℕ)
      → R e.udp_send_reply_id n1 n2
      → Follows
          (Same3 R)
          (find_next_response blank call1 counter e n1 later)
          (find_next_response blank call2 counter e n2 later)
  unfolding find_next_response
  find_next_response-Follows e n1 n2 later r =
      Follows-same (Same3 R) (pause_os e.os counter) _ _ (λ os.
        after3 (Same3 R) _ _ _ _
          (get_responses-Follows (record e { os = os }) n1 n2 e.latest_response_time r)
          (λ e1 m1 m2 a r'.
            Follows-if (Same3 R) (a.num_responses == 0) _ _ _ _ (_, refl, (refl, refl, r'))
              (Follows-if (Same3 R) (ltb a.response_time e1.latest_response_time) _ _ _ _ tt
                (_, refl, (refl, refl, r')))))

  -- A turn of the processing task.
  pub process_responses-Follows :
      (e : Emudisk) (n1 : N1) (n2 : N2) (now later : ℕ)
      → R e.udp_send_reply_id n1 n2
      → Follows
          (Same3 R {X = Bool})
          (process_responses blank call1 counter e n1 now later)
          (process_responses blank call2 counter e n2 now later)
  unfolding process_responses
  process_responses-Follows e n1 n2 now later r =
      let S = Same3 R {X = Bool} in
      Follows-if S (ltb now e.latest_response_time) _ _ _ _ tt (
        Follows-if S (ltb e.next_response_time e.latest_response_time) _ _ _ _ tt (
          Follows-if S (e.next_response_num == 0) _ _ _ _ tt (
            Follows-result S (complete_requests e (take e.next_response_num e.next_response_ids)) _
              _
              (λ e' completed. find_next_response-Follows e' n1 n2 later (
                subst (λ id. R id n1 n2)
                  (sym (
                    complete_requests-number e e' (take e.next_response_num e.next_response_ids)
                      completed))
                  r)))))
