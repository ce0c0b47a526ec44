-- ===== src/Ssd/Submit.antt =====
-- What `submit_request` does: which requests it takes, where it puts them, and what it keeps.
use nctusde.Base.{
  ℕ, ◌+◌, ◌*◌, ◌≤◌, ◌<◌, ◌≡◌, refl, ap, ◌∙◌, ◌⊎◌, inl, inr, true, false, List, [], ◌∷◌, arith,
  length, set, All, leb, Bool-cases, done, some,
}
use nctusde.Timing.{request_size_kb, request_size_index, emulated_time}
use nctusde.Timing.Bucket.{IsFirstFit, request_size_index-IsFirstFit}
use nctusde.Ssd.{
  Ssd, Channel, active, oldest_channel, occupy, submit_request, is_sequential_request, direction,
  request_nbytes, long_max,
}
use nctusde.Ssd.Oldest.{IsOldest, oldest-IsOldest, completion_at}
use nctusde.Ssd.Valid.{IsValid, take-set}

oldest_channel-IsOldest : (ssd : Ssd) → IsOldest (active ssd) 0 long_max 0 (oldest_channel ssd)
unfolding oldest_channel
oldest_channel-IsOldest ssd = oldest-IsOldest (active ssd) 0 long_max 0

-- The size bucket of a request of at most 128 sectors.
pub count_bucket :
    (count : ℕ)
    → count ≤ 128
    → (index : ℕ) × (request_size_index (request_nbytes count) ≡ some index)
      × IsFirstFit (count * 512) request_size_kb index
count_bucket count h =
    let e : request_nbytes count ≡ count * 512 = omega arith in
    rw e (request_size_index-IsFirstFit (count * 512) (omega arith))

submit-false :
    (ssd : Ssd) (time rw sector count id : ℕ)
    → time ≤ (oldest_channel ssd).0
    → submit_request ssd time rw sector count id ≡ done (false, ssd)
unfolding submit_request
submit-false ssd time rw sector count id h = ground arith

submit-true :
    (ssd : Ssd) (time rw sector count id index : ℕ)
    → (oldest_channel ssd).0 < time
    → request_size_index (request_nbytes count) ≡ some index
    → submit_request ssd time rw sector count id
      ≡ done (true, occupy ssd (oldest_channel ssd).1 index time rw sector count id)
unfolding submit_request
submit-true ssd time rw sector count id index h e = ground arith

busy :
    (cs : List Channel) (time oldest_time : ℕ)
    → time ≤ oldest_time
    → All (λ c. oldest_time ≤ c.completion_time) cs
    → All (λ c. time ≤ c.completion_time) cs
busy [] time oldest_time h all = tt
busy (c ∷ cs) time oldest_time h all = (omega (arith, all.0), busy cs time oldest_time h all.1)

oldest-attained :
    (ssd : Ssd) (time : ℕ)
    → (oldest_channel ssd).0 < time
    → time ≤ long_max
    → ((oldest_channel ssd).1 < length (active ssd))
      × (completion_at (active ssd) (oldest_channel ssd).1 ≡ (oldest_channel ssd).0)
oldest-attained ssd time h ht = elim (oldest_channel-IsOldest ssd).attained [
  | inl (e, _) ↦ absurd (omega arith)
  | inr (k, p, lt, e) ↦ (omega arith, ap (completion_at (active ssd)) (omega arith) ∙ e)
]

-- How a request is taken: on which channel, in which size bucket, and with what result.
pub record Takes (ssd : Ssd) (time rw sector count id : ℕ) (pos index : ℕ) : Type 0 where
  pub in_range : pos < length (active ssd)
  pub bucket : IsFirstFit (count * 512) request_size_kb index
  pub was_free : completion_at (active ssd) pos < time
  pub was_oldest : All (λ c. completion_at (active ssd) pos ≤ c.completion_time) (active ssd)
  pub result :
      submit_request ssd time rw sector count id
      ≡ done (true, occupy ssd pos index time rw sector count id)

-- A request of at most 128 sectors is refused, with nothing changed, exactly if every channel is
-- busy at its time; otherwise it goes to the channel that has been free for longest.
pub submit_request-cases :
    (ssd : Ssd) (time rw sector count id : ℕ)
    → count ≤ 128
    → time ≤ long_max
    → (All (λ c. time ≤ c.completion_time) (active ssd)
        × (submit_request ssd time rw sector count id ≡ done (false, ssd)))
      ⊎ ((pos : ℕ) × (index : ℕ) × Takes ssd time rw sector count id pos index)
submit_request-cases ssd time dir sector count id hc ht =
    elim (Bool-cases (leb time (oldest_channel ssd).0)) [
      | inl e ↦ inl (
        busy (active ssd) time (oldest_channel ssd).0 (ground arith)
            (oldest_channel-IsOldest ssd).least,
        submit-false ssd time dir sector count id (ground arith),
      )
      | inr e ↦
          let (index, found, bucket) = count_bucket count hc in
          let (lt, at) = oldest-attained ssd time (ground arith) ht in
          inr (
            (oldest_channel ssd).1,
            index,
            record {
              in_range = lt;
              bucket = bucket;
              was_free = ground (arith, at);
              was_oldest = rw at (oldest_channel-IsOldest ssd).least;
              result = submit-true ssd time dir sector count id index (ground arith) found;
            },
          )
    ]

-- A taken request occupies its channel for the response time of its size bucket.
pub completion-occupy :
    (ssd : Ssd) (pos index time dir sector count id : ℕ)
    → IsValid ssd
    → pos < length (active ssd)
    → (channel : Channel) × (active (occupy ssd pos index time dir sector count id)
        ≡ set (active ssd) pos channel)
      × (channel.io_request_id ≡ id)
      × (channel.completion_time
          ≡ time
            + emulated_time
                (is_sequential_request ssd dir sector)
                (direction dir)
                index
                ssd.speed_factor)
unfolding occupy
completion-occupy ssd pos index time dir sector count id v lt =
    (_, take-set ssd.channels ssd.ssd_channels pos _, refl, refl)
