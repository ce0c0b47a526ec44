-- ===== src/Ramdisk/Schedule.antt =====
-- The response that the RAM disk's processing task waits for.
use nctusde.Base.{
  ℕ, ◌≤◌, ◌<◌, ◌≡◌, refl, subst, Bool, true, false, not, ◌||◌, none, List, [], ◌∷◌, arith, All, ltb,
  ◌==◌, if◌then◌else◌, Bool-cases, Option-cases, inl, inr, ◌⊎◌, set, done, >>=-eq-done,
  done-injective,
}
use nctusde.Timing.{request_size_index}
use nctusde.Emudisk.{BlockRequest, request_bytes, long_ge}
use nctusde.Ramdisk.{
  Ramdisk, Channel, place_request, earliest_pending, expect_response, start_request,
  ramdisk_strategy, find_next_response, ullong_max, ramdisk_transfer, occupied, oldest_completed,
}

-- No request in flight completes before `time`.
abbrev pub NonePendingBefore : ℕ → List Channel → Type 0
NonePendingBefore time = All (λ c. (c.completed ≡ true) ⊎ (time ≤ c.completion_time))

earliest_pending-le : (cs : List Channel) (time : ℕ) → earliest_pending cs time ≤ time
unfolding earliest_pending
earliest_pending-le [] time = omega arith
earliest_pending-le (c ∷ cs) time =
    ground (arith, earliest_pending-le cs time, earliest_pending-le cs c.completion_time)

earliest_pending-least :
    (cs : List Channel) (time : ℕ) → NonePendingBefore (earliest_pending cs time) cs
unfolding earliest_pending
earliest_pending-least [] time = tt
earliest_pending-least (c ∷ cs) time = (
  ground (arith, earliest_pending-le cs time, earliest_pending-le cs c.completion_time),
  earliest_pending-least cs _,
)

weaken : (cs : List Channel) (t u : ℕ) → t ≤ u → NonePendingBefore u cs → NonePendingBefore t cs
weaken [] t u h p = tt
weaken (c ∷ cs) t u h p =
    (elim p.0 [ inl e ↦ inl e | inr e ↦ inr (omega arith) ], weaken cs t u h p.1)

-- Whenever a request is in flight, the task waits for a response no later than that request's.
pub record IsPunctual (d : Ramdisk) : Type 0 where
  pub in_time :
      All
        (λ c.
          (c.completed ≡ true)
          ⊎ ((d.next_response_to_reply ≡ true) × (d.next_response_time ≤ c.completion_time)))
        d.channels

punctual :
    (cs : List Channel) (flag : Bool) (time : ℕ)
    → flag ≡ true
    → NonePendingBefore time cs
    → All (λ c. (c.completed ≡ true) ⊎ ((flag ≡ true) × (time ≤ c.completion_time))) cs
punctual [] flag time e p = tt
punctual (c ∷ cs) flag time e p =
    (elim p.0 [ inl h ↦ inl h | inr h ↦ inr (e, h) ], punctual cs flag time e p.1)

expect_response-IsPunctual : (d : Ramdisk) (time : ℕ) → IsPunctual (expect_response d time).0
unfolding expect_response
expect_response-IsPunctual d time =
    let least = earliest_pending-least d.channels time in
    elim (Bool-cases (
      not d.next_response_to_reply
      || ltb (earliest_pending d.channels time) d.next_response_time)) [
        | inl e ↦ rw e (record { in_time = punctual d.channels true _ refl least })
        | inr e ↦ rw e (record {
          in_time =
              punctual d.channels d.next_response_to_reply d.next_response_time (ground arith)
                (weaken d.channels _ _ (ground arith) least);
        })
      ]

place_request-IsPunctual :
    (d : Ramdisk) (req : BlockRequest) (time pos : ℕ) (d' : Ramdisk) (wake : Bool)
    → place_request d req time pos ≡ done (d', wake)
    → IsPunctual d'
unfolding place_request
place_request-IsPunctual d req time pos d' wake e =
    let (r, e1, e2) =
      >>=-eq-done (if req.is_write then ramdisk_transfer d req else done (d, req)) _ e in
    let placed =
      expect_response-IsPunctual
        (record (r.0) { channels = set (r.0).channels pos (occupied req time) }) time in
    subst (λ (r : Ramdisk × Bool). IsPunctual r.0) (done-injective e2)
      (record { in_time = placed.in_time })

pub start_request-IsPunctual :
    (d : Ramdisk) (now : ℕ) (req : BlockRequest) (d' : Ramdisk) (wake : Bool)
    → start_request d now req ≡ done (d', wake)
    → IsPunctual d'
unfolding start_request
start_request-IsPunctual d now req d' wake e =
    elim (Option-cases (request_size_index (request_bytes req))) [
      | inl size ↦ cc (rw (size, start_request) at e)
      | inr (index, size) ↦ elim (Option-cases (oldest_completed d.channels 0 none)) [
        | inl free ↦ cc (rw (size, free, start_request) at e)
        | inr ((t, pos), free) ↦
            place_request-IsPunctual d req _ pos d' wake (rw (size, free, start_request) at e)
      ]
    ]

all_completed :
    (cs : List Channel) (flag : Bool) (time : ℕ)
    → All (λ c. c.completion_time < ullong_max) cs
    → NonePendingBefore ullong_max cs
    → All (λ c. (c.completed ≡ true) ⊎ ((flag ≡ true) × (time ≤ c.completion_time))) cs
all_completed [] flag time b p = tt
all_completed (c ∷ cs) flag time b p = (
  elim p.0 [ inl h ↦ inl h | inr h ↦ absurd (omega (arith, b.0)) ],
  all_completed cs flag time b.1 p.1,
)

-- At the end of its turn the task looks for the next response, and waits for one no later than that
-- of any request in flight, as long as no completion time is the largest 64-bit number.
pub find_next_response-IsPunctual :
    (d : Ramdisk)
    → All (λ c. c.completion_time < ullong_max) d.channels
    → IsPunctual (find_next_response d)
unfolding find_next_response
find_next_response-IsPunctual d b =
    let least = earliest_pending-least d.channels ullong_max in
    elim (Bool-cases (earliest_pending d.channels ullong_max == ullong_max)) [
      | inl e ↦ rw e (record {
        in_time =
            all_completed d.channels false d.next_response_time b
              (weaken d.channels _ _ (ground arith) least);
      })
      | inr e ↦ rw e (record { in_time = punctual d.channels true _ refl least })
    ]

-- If the task waits for a response no later than that of any request in flight, then so it does
-- after every call of the strategy function, whatever requests that call takes.
pub ramdisk_strategy-IsPunctual :
    (d : Ramdisk) (wake : Bool) (queue : List (ℕ × BlockRequest)) (d' : Ramdisk) (wake' : Bool)
    (rest : List (ℕ × BlockRequest))
    → IsPunctual d
    → ramdisk_strategy d wake queue ≡ done (d', wake', rest)
    → IsPunctual d'
unfolding ramdisk_strategy
ramdisk_strategy-IsPunctual d wake [] d' wake' rest p e =
    subst (λ (r : Ramdisk × Bool × List (ℕ × BlockRequest)). IsPunctual r.0) (done-injective e) p
ramdisk_strategy-IsPunctual d wake ((now, req) ∷ queue) d' wake' rest p e =
    elim (Bool-cases req.is_fs) [
      | inl fs ↦
          let (r, e1, e2) = >>=-eq-done (start_request d now req) _ (simp fs at e) in
          let p' = start_request-IsPunctual d now req r.0 r.1 e1 in
          elim (Bool-cases (long_ge (r.0).request_inflight (r.0).disk_channels)) [
            | inl full ↦
                subst (λ (r : Ramdisk × Bool × List (ℕ × BlockRequest)). IsPunctual r.0)
                  (done-injective (simp full at e2)) (record { in_time = p'.in_time })
            | inr more ↦
                ramdisk_strategy-IsPunctual r.0 (r.1 || wake) queue d' wake' rest p'
                  (simp more at e2)
          ]
      | inr other ↦
          ramdisk_strategy-IsPunctual (record d { failed = req ∷ d.failed }) wake queue d' wake'
            rest (record { in_time = p.in_time }) (simp other at e)
    ]
