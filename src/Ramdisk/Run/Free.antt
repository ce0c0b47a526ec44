-- ===== src/Ramdisk/Run/Free.antt =====
-- The RAM disk's search for a channel that is free, and how long a request takes there.
use nctusde.Base.{
  ℕ, zero, suc, ◌+◌, ◌^◌, ◌≤◌, ◌<◌, ◌≡◌, refl, sym, ap, ◌⊎◌, inl, inr, Bool, true, false, Option,
  none, some, List, [], ◌∷◌, map, arith, length, get_or, set, ltb, ◌&&◌, Bool-cases, Option-cases,
}
use nctusde.Timing.{
  entry, scaled_response_time, iorate_table_random, iorate_table_seq, ram_table_random,
  ram_table_seq, ram_time,
}
use nctusde.Ramdisk.{Channel, oldest_completed, keep_older, no_channel}
use nctusde.Ramdisk.Progress.{pending_count, position}

-- A free channel, `k` positions on from `i`.
abbrev FreeAt : List Channel → ℕ → ℕ → Type 0
FreeAt cs i pos =
    (k : ℕ) × (pos ≡ i + k) × (k < length cs) × ((get_or cs k no_channel).completed ≡ true)

keep_older-cases :
    (c : Channel) (i : ℕ) (best : Option (ℕ × ℕ)) (r : ℕ × ℕ)
    → keep_older c i best ≡ some r
    → (best ≡ some r) ⊎ ((r.1 ≡ i) × (c.completed ≡ true))
unfolding keep_older position
keep_older-cases c i none r h = elim (Bool-cases c.completed) [
  | inl e ↦ inr (sym (ap (λ (o : Option (ℕ × ℕ)). position o i) (simp e at h)), e)
  | inr e ↦ cc (simp e at h)
]
keep_older-cases c i (some best) r h =
    elim (Bool-cases (c.completed && ltb c.completion_time best.0)) [
      | inl e ↦ inr (sym (ap (λ (o : Option (ℕ × ℕ)). position o i) (simp e at h)), ground arith)
      | inr e ↦ inl (simp e at h)
    ]

pub pending_count-le : (cs : List Channel) → pending_count cs ≤ length cs
unfolding pending_count
pending_count-le [] = omega arith
pending_count-le (c ∷ cs) = ground (arith, pending_count-le cs)

oldest_completed-some :
    (cs : List Channel) (i : ℕ) (best : ℕ × ℕ)
    → (r : ℕ × ℕ) × (oldest_completed cs i (some best) ≡ some r)
unfolding oldest_completed keep_older
oldest_completed-some [] i best = (best, refl)
oldest_completed-some (c ∷ cs) i (time, pos) =
    elim (Bool-cases (c.completed && ltb c.completion_time time)) [
      | inl e ↦
          let (r, h) = oldest_completed-some cs (i + 1) (c.completion_time, i) in (r, simp (e, h))
      | inr e ↦ let (r, h) = oldest_completed-some cs (i + 1) (time, pos) in (r, simp (e, h))
    ]

-- The search fails only if no channel is free.
oldest_completed-none :
    (cs : List Channel) (i : ℕ) → oldest_completed cs i none ≡ none → pending_count cs ≡ length cs
unfolding oldest_completed keep_older pending_count
oldest_completed-none [] i h = refl
oldest_completed-none (c ∷ cs) i h = elim (Bool-cases c.completed) [
  | inl e ↦
      let (r, h') = oldest_completed-some cs (i + 1) (c.completion_time, i) in cc (h', simp e at h)
  | inr e ↦ rw e (ap suc (oldest_completed-none cs (i + 1) (simp e at h)))
]

oldest_completed-FreeAt :
    (cs : List Channel) (i : ℕ) (best : Option (ℕ × ℕ)) (r : ℕ × ℕ)
    → oldest_completed cs i best ≡ some r
    → (best ≡ some r) ⊎ FreeAt cs i r.1
unfolding oldest_completed
oldest_completed-FreeAt [] i best r h = inl h
oldest_completed-FreeAt (c ∷ cs) i best r h =
    elim (oldest_completed-FreeAt cs (i + 1) (keep_older c i best) r h) [
      | inl kept ↦ elim (keep_older-cases c i best r kept) [
        | inl before ↦ inl before
        | inr (here, free) ↦ inr (0, omega (arith, here), omega arith, free)
      ]
      | inr (k, at_k, lt, free) ↦ inr (suc k, omega (arith, at_k), omega (arith, lt), free)
    ]

pub free_channel :
    (cs : List Channel)
    → pending_count cs < length cs
    → (t : ℕ) × (k : ℕ) × (oldest_completed cs 0 none ≡ some (t, k))
      × (k < length cs)
      × ((get_or cs k no_channel).completed ≡ true)
free_channel cs room = elim (Option-cases (oldest_completed cs 0 none)) [
  | inl full ↦ absurd (omega (arith, oldest_completed-none cs 0 full, room))
  | inr ((t, pos), found) ↦ elim (oldest_completed-FreeAt cs 0 none (t, pos) found) [
    | inl never ↦ cc
    | inr (k, at_k, lt, free) ↦
        let here : pos ≡ k = omega (arith, at_k) in (t, k, rw here at found, lt, free)
  ]
]

pub pending_count-occupied :
    (cs : List Channel) (k : ℕ) (c : Channel)
    → k < length cs
    → (get_or cs k no_channel).completed ≡ true
    → c.completed ≡ false
    → pending_count (set cs k c) ≡ pending_count cs + 1
unfolding pending_count
pending_count-occupied [] k c lt free busy = absurd (omega arith)
pending_count-occupied (x ∷ cs) zero c lt free busy = rw (busy, free) (omega arith)
pending_count-occupied (x ∷ cs) (suc k) c lt free busy =
    let ih = pending_count-occupied cs k c (omega arith) free busy in
    elim (Bool-cases x.completed) [ inl e ↦ rw e ih | inr e ↦ rw e (omega (arith, ih)) ]

-- No response takes longer than an `int` of nanoseconds.
get_or-map_lt :
    (f : ℕ → ℕ) (b : ℕ) (xs : List ℕ) (i : ℕ)
    → 0 < b
    → ((x : ℕ) → f x < b)
    → get_or (map f xs) i 0 < b
get_or-map_lt f b [] i some_ h = some_
get_or-map_lt f b (x ∷ xs) zero some_ h = h x
get_or-map_lt f b (x ∷ xs) (suc i) some_ h = get_or-map_lt f b xs i some_ h

entry-map_lt :
    (f : ℕ → ℕ) (b : ℕ) (table : List (List ℕ)) (dir index : ℕ)
    → 0 < b
    → ((x : ℕ) → f x < b)
    → entry (map (map f) table) dir index < b
entry-map_lt f b [] dir index some_ h = some_
entry-map_lt f b (row ∷ table) zero index some_ h = get_or-map_lt f b row index some_ h
entry-map_lt f b (row ∷ table) (suc dir) index some_ h = entry-map_lt f b table dir index some_ h

pub ram_time_bound :
    (seq : Bool) (dir index speed_factor : ℕ) → ram_time seq dir index speed_factor < 2 ^ 32
unfolding ram_time ram_table_random ram_table_seq
ram_time_bound true dir index speed_factor =
    entry-map_lt (scaled_response_time speed_factor) (2 ^ 32) iorate_table_seq dir index
      (omega arith) (λ x. omega arith)
ram_time_bound false dir index speed_factor =
    entry-map_lt (scaled_response_time speed_factor) (2 ^ 32) iorate_table_random dir index
      (omega arith) (λ x. omega arith)
