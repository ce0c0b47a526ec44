-- ===== src/Ssd/Answers.antt =====
-- What `get_next_responses` reports.
use mathlib.Core.List.{Perm}
use nctusde.Base.{
  ℕ, zero, suc, ◌+◌, ◌≤◌, ◌<◌, ◌≡◌, refl, sym, ◌⊎◌, inl, inr, ◌&&◌, Option, none, some, List, [],
  ◌∷◌, ◌++◌, arith, length, All, ltb, Bool-cases,
}
use nctusde.Ssd.{
  Channel, Ssd, active, next_response, respond, get_next_responses, long_max, Responses, completing,
}
use nctusde.Ssd.Oldest.{completion_at}
use nctusde.Ssd.Valid.{IsValid}
use nctusde.Ssd.Pending.{pending_ids, pending_ids-completing, pending_ids-none}

record IsNext (cs : List Channel) (now i time : ℕ) (channel : Option ℕ) (r : ℕ × Option ℕ)
    : Type 0 where
  least : All (λ c. (c.completion_time ≤ now) ⊎ (r.0 ≤ c.completion_time)) cs
  below : r.0 ≤ time
  attained :
      ((r.0 ≡ time) × (r.1 ≡ channel))
      ⊎ ((k : ℕ) × (r.1 ≡ some (i + k))
          × (k < length cs)
          × (completion_at cs k ≡ r.0)
          × (now < r.0))

taken :
    (c : Channel) (cs : List Channel) (now i time : ℕ) (channel : Option ℕ) (r : ℕ × Option ℕ)
    → now < c.completion_time
    → c.completion_time < time
    → IsNext cs now (i + 1) c.completion_time (some i) r
    → IsNext (c ∷ cs) now i time channel r
taken c cs now i time channel r later sooner h = record {
  least = (inr h.below, h.least);
  below = omega (arith, h.below);
  attained = inr (elim h.attained [
    | inl (t, p) ↦ (0, ground arith, omega arith, sym t, omega arith)
    | inr (k, p, lt, e, l) ↦ (suc k, ground arith, omega arith, e, l)
  ]);
}

passed :
    (c : Channel) (cs : List Channel) (now i time : ℕ) (channel : Option ℕ) (r : ℕ × Option ℕ)
    → (c.completion_time ≤ now) ⊎ (time ≤ c.completion_time)
    → IsNext cs now (i + 1) time channel r
    → IsNext (c ∷ cs) now i time channel r
passed c cs now i time channel r out h = record {
  least = (omega (arith, h.below), h.least);
  below = h.below;
  attained = elim h.attained [
    | inl t ↦ inl t
    | inr (k, p, lt, e, l) ↦ inr (suc k, ground arith, omega arith, e, l)
  ];
}

next_response-IsNext :
    (cs : List Channel) (now i time : ℕ) (channel : Option ℕ)
    → IsNext cs now i time channel (next_response cs now i time channel)
unfolding next_response
next_response-IsNext [] now i time channel = record {
  least = tt;
  below = omega arith;
  attained = inl (refl, refl);
}
next_response-IsNext (c ∷ cs) now i time channel =
    elim (Bool-cases (ltb now c.completion_time && ltb c.completion_time time)) [
      | inl e ↦ rw e (
          taken c cs now i time channel _ (ground arith) (ground arith)
            (next_response-IsNext cs now (i + 1) c.completion_time (some i)))
      | inr e ↦ rw e (
          passed c cs now i time channel _ (ground arith)
            (next_response-IsNext cs now (i + 1) time channel))
    ]

search-IsNext :
    (ssd : Ssd) (now : ℕ)
    → IsNext (active ssd) now 0 long_max none (next_response (active ssd) now 0 long_max none)
search-IsNext ssd now = next_response-IsNext (active ssd) now 0 long_max none

-- What a query at time `now` means for the requests on the channels `cs`.
pub record IsAnswer (cs : List Channel) (now : ℕ) (r : Responses) : Type 0 where
  -- As many ids are given as the count says, and none for more channels than there are.
  pub counted : r.num_response ≤ length cs
  -- The time is one that a channel can have.
  pub in_time : r.time ≤ long_max
  -- Either no request is pending, or the next ones to complete are given with their time.
  pub answered :
      ((r.num_response ≡ 0) × (pending_ids cs now ≡ []))
      ⊎ ((0 < r.num_response)
          × (now < r.time)
          × (r.num_response ≡ length r.io_request_ids)
          × All (λ c. (c.completion_time ≤ now) ⊎ (r.time ≤ c.completion_time)) cs
          × (r.io_request_ids ≡ completing cs r.time)
          × Perm (pending_ids cs now) (r.io_request_ids ++ pending_ids cs r.time))

length-completing : (cs : List Channel) (time : ℕ) → length (completing cs time) ≤ length cs
unfolding completing
length-completing [] time = omega arith
length-completing (c ∷ cs) time = ground (arith, length-completing cs time)

completing_pos :
    (cs : List Channel) (k time : ℕ)
    → k < length cs
    → completion_at cs k ≡ time
    → 0 < length (completing cs time)
unfolding completing
completing_pos [] k time lt e = absurd (omega arith)
completing_pos (c ∷ cs) zero time lt e = ground arith
completing_pos (c ∷ cs) (suc k) time lt e = ground (arith, completing_pos cs k time (omega arith) e)

before_long_max :
    (cs : List Channel) (now : ℕ)
    → All (λ c. c.completion_time < long_max) cs
    → All (λ c. (c.completion_time ≤ now) ⊎ (long_max ≤ c.completion_time)) cs
    → All (λ c. c.completion_time ≤ now) cs
before_long_max [] now v h = tt
before_long_max (c ∷ cs) now v h = (omega (arith, v.0, h.0), before_long_max cs now v.1 h.1)

respond-IsAnswer :
    (cs : List Channel) (now : ℕ) (r : ℕ × Option ℕ)
    → All (λ c. c.completion_time < long_max) cs
    → IsNext cs now 0 long_max none r
    → IsAnswer cs now (respond cs r)
unfolding respond
respond-IsAnswer cs now (time, none) v h = record {
  counted = omega arith;
  in_time = omega arith;
  answered = inl (
    refl,
    pending_ids-none cs now (elim h.attained [
      | inl (e, _) ↦ before_long_max cs now v (rw e at h.least)
      | inr (_, p, _, _, _) ↦ cc
    ]),
  );
}
respond-IsAnswer cs now (time, some i) v h = record {
  counted = length-completing cs time;
  in_time = h.below;
  answered = elim h.attained [
    | inl (_, p) ↦ cc
    | inr (k, p, lt, e, later) ↦ inr (
      completing_pos cs k time lt e,
      later,
      refl,
      h.least,
      refl,
      pending_ids-completing cs now time later h.least,
    )
  ];
}

-- A query reports exactly the requests that complete next: the ids pending at `now` are, up to
-- order, those of the answer and those pending at the answer's time. It reports none only if no
-- request is pending.
pub get_next_responses-IsAnswer :
    (ssd : Ssd) (now : ℕ) → IsValid ssd → IsAnswer (active ssd) now (get_next_responses ssd now).0
unfolding get_next_responses
get_next_responses-IsAnswer ssd now v =
    respond-IsAnswer (active ssd) now _ v.in_time (search-IsNext ssd now)

-- A query changes nothing but the simulation's clock.
pub get_next_responses-keeps :
    (ssd : Ssd) (now : ℕ)
    → IsValid ssd
    → let ssd' = (get_next_responses ssd now).1 in
      IsValid ssd'
      × (ssd'.channels ≡ ssd.channels)
      × (ssd'.speed_factor ≡ ssd.speed_factor)
      × (active ssd' ≡ active ssd)
unfolding get_next_responses
get_next_responses-keeps ssd now v =
    (record { array = v.array; in_array = v.in_array; in_time = v.in_time }, refl, refl, refl)
