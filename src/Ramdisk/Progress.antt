-- ===== src/Ramdisk/Progress.antt =====
-- How far the RAM disk's processing task gets in a number of turns.
use mathlib.Core.List.{Perm}
use mathlib.Core.List.Perm
use nctusde.Base.{
  ℕ, zero, suc, ◌+◌, ◌*◌, ◌%◌, ◌^◌, ◌≤◌, ◌<◌, ◌≡◌, refl, sym, ap, ◌∙◌, ◌⊎◌, inl, inr, true, false,
  Option, none, some, List, [], ◌∷◌, arith, length, get_or, set, All, All-get_or, All-set, ltb,
  ◌&&◌, if◌then◌else◌, Bool-cases, Option-cases, done,
}
use nctusde.Timing.{sector_size}
use nctusde.Emudisk.{BlockRequest, request_bytes}
use nctusde.Ramdisk.{
  Ramdisk, Channel, process_due, complete_at, next_due, keep_due, is_due, no_channel, byte_offset,
  ramdisk_transfer, load_segments, load_bytes,
}
use nctusde.Ramdisk.Schedule.{NonePendingBefore}
use nctusde.Ramdisk.Completion.{process_due-NonePendingBefore}

-- How many requests are in flight.
unfoldable pub pending_count : List Channel → ℕ
pending_count [] = 0
pending_count (c ∷ cs) = if c.completed then pending_count cs else suc (pending_count cs)

-- The request lies within the disk of `size` sectors, and its bytes have addresses of 32 bits.
abbrev pub LiesWithin : ℕ → BlockRequest → Type 0
LiesWithin size req =
    (req.pos * sector_size + request_bytes req ≤ size * sector_size)
    × (req.pos * sector_size + request_bytes req < 2 ^ 32)

abbrev pub IsWithin : ℕ → Channel → Type 0
IsWithin size c = LiesWithin size c.request

-- What the memory holds from an address on, for segments as long as the given ones.
unfoldable pub bytes_from : (ℕ → ℕ) → ℕ → ℕ → List ℕ
bytes_from memory a zero = []
bytes_from memory a (suc n) = memory a ∷ bytes_from memory (a + 1) n

unfoldable pub segments_from : (ℕ → ℕ) → ℕ → List (List ℕ) → List (List ℕ)
segments_from memory a [] = []
segments_from memory a (seg ∷ segs) =
    bytes_from memory a (length seg) ∷ segments_from memory (a + length seg) segs

load_bytes-from : (memory : ℕ → ℕ) (a n : ℕ) → load_bytes memory a n ≡ bytes_from memory a n
unfolding load_bytes bytes_from
load_bytes-from memory a zero = refl
load_bytes-from memory a (suc n) = ap (◌∷◌ (memory a)) (load_bytes-from memory (a + 1) n)

load_segments-from :
    (memory : ℕ → ℕ) (a : ℕ) (segs : List (List ℕ))
    → load_segments memory a segs ≡ segments_from memory a segs
unfolding load_segments segments_from
load_segments-from memory a [] = refl
load_segments-from memory a (seg ∷ segs) =
    rw (load_bytes-from memory a (length seg), load_segments-from memory (a + length seg) segs) refl

-- A request as it is to come back: a write as it was, a read with the bytes of the disk from the
-- request's first sector on in its segments.
abbrev pub answered : (ℕ → ℕ) → BlockRequest → BlockRequest
answered memory req =
    if req.is_write
    then req
    else record req { segments = segments_from memory (req.pos * sector_size) req.segments }

-- The requests on the channels, as they are to come back.
unfoldable pub answers : (ℕ → ℕ) → List Channel → List BlockRequest
answers memory [] = []
answers memory (c ∷ cs) =
    if c.completed then answers memory cs else answered memory c.request ∷ answers memory cs

-- A channel in flight, `k` positions on from `i`.
abbrev pub FoundAt : List Channel → ℕ → ℕ → Type 0
FoundAt cs i pos =
    (k : ℕ) × (pos ≡ i + k) × (k < length cs) × ((get_or cs k no_channel).completed ≡ false)

unfoldable pub position : Option (ℕ × ℕ) → ℕ → ℕ
position none d = d
position (some r) d = r.1

keep_due-cases :
    (c : Channel) (now i : ℕ) (best : Option (ℕ × ℕ)) (r : ℕ × ℕ)
    → keep_due c now i best ≡ some r
    → (best ≡ some r) ⊎ ((r.1 ≡ i) × (c.completed ≡ false))
unfolding keep_due position
keep_due-cases c now i none r h = elim (Bool-cases (is_due c now)) [
  | inl e ↦ inr (sym (ap (λ (o : Option (ℕ × ℕ)). position o i) (simp e at h)), ground arith)
  | inr e ↦ cc (simp e at h)
]
keep_due-cases c now i (some best) r h =
    elim (Bool-cases (is_due c now && ltb c.completion_time best.0)) [
      | inl e ↦ inr (sym (ap (λ (o : Option (ℕ × ℕ)). position o i) (simp e at h)), ground arith)
      | inr e ↦ inl (simp e at h)
    ]

pub next_due-FoundAt :
    (cs : List Channel) (now i : ℕ) (best : Option (ℕ × ℕ)) (r : ℕ × ℕ)
    → next_due cs now i best ≡ some r
    → (best ≡ some r) ⊎ FoundAt cs i r.1
unfolding next_due
next_due-FoundAt [] now i best r h = inl h
next_due-FoundAt (c ∷ cs) now i best r h =
    elim (next_due-FoundAt cs now (i + 1) (keep_due c now i best) r h) [
      | inl kept ↦ elim (keep_due-cases c now i best r kept) [
        | inl before ↦ inl before
        | inr (here, busy) ↦ inr (0, omega (arith, here), omega arith, busy)
      ]
      | inr (k, at_k, lt, busy) ↦ inr (suc k, omega (arith, at_k), omega (arith, lt), busy)
    ]

pub pending_count-set :
    (cs : List Channel) (k : ℕ) (c : Channel)
    → k < length cs
    → (get_or cs k no_channel).completed ≡ false
    → c.completed ≡ true
    → pending_count (set cs k c) + 1 ≡ pending_count cs
unfolding pending_count
pending_count-set [] k c lt busy ended = absurd (omega arith)
pending_count-set (x ∷ cs) zero c lt busy ended = rw (busy, ended) (omega arith)
pending_count-set (x ∷ cs) (suc k) c lt busy ended =
    let ih = pending_count-set cs k c (omega arith) busy ended in
    elim (Bool-cases x.completed) [ inl e ↦ rw e ih | inr e ↦ rw e (omega (arith, ih)) ]

-- A channel whose request is completed gives back just that request.
pub answers-set :
    (memory : ℕ → ℕ) (cs : List Channel) (k : ℕ) (c : Channel)
    → k < length cs
    → (get_or cs k no_channel).completed ≡ false
    → c.completed ≡ true
    → Perm
        (answers memory cs)
        (answered memory (get_or cs k no_channel).request ∷ answers memory (set cs k c))
unfolding answers
answers-set memory [] k c lt busy ended = absurd (omega arith)
answers-set memory (x ∷ cs) zero c lt busy ended =
    simp (busy, ended) (Perm.refl (answered memory x.request ∷ answers memory cs))
answers-set memory (x ∷ cs) (suc k) c lt busy ended =
    let ih = answers-set memory cs k c (omega arith) busy ended in
    elim (Bool-cases x.completed) [
      | inl e ↦ simp e ih
      | inr e ↦ simp e (
          Perm.trans (Perm.cons (answered memory x.request) ih)
            (Perm.swap _ (answered memory x.request) (answers memory (set cs k c))))
    ]

pub answers-nil :
    (memory : ℕ → ℕ) (cs : List Channel) → pending_count cs ≡ 0 → answers memory cs ≡ []
unfolding answers pending_count
answers-nil memory [] e = refl
answers-nil memory (c ∷ cs) e = elim (Bool-cases c.completed) [
  | inl ended ↦ simp ended (answers-nil memory cs (simp ended at e))
  | inr busy ↦ absurd (omega (arith, simp busy at e))
]

-- The disk after the request on channel `k` is ended as `req`.
abbrev after : Ramdisk → ℕ → BlockRequest → Ramdisk
after d k req = record d {
  channels = set d.channels k (record (get_or d.channels k no_channel) { completed = true });
  finished = req ∷ d.finished;
}

-- What completing a request in flight comes to.
pub complete_at-done :
    (d : Ramdisk) (k : ℕ)
    → All (IsWithin d.size) d.channels
    → k < length d.channels
    → (get_or d.channels k no_channel).completed ≡ false
    → (d' : Ramdisk) × (complete_at d k ≡ done d')
      × (d'.size ≡ d.size)
      × (d'.channels
          ≡ set d.channels k (record (get_or d.channels k no_channel) { completed = true }))
      × (d'.disk_channels ≡ d.disk_channels)
      × (d'.request_inflight ≡ d.request_inflight)
      × (d'.queue_stopped ≡ d.queue_stopped)
      × (d'.memory ≡ d.memory)
      × (d'.finished ≡ answered d.memory (get_or d.channels k no_channel).request ∷ d.finished)
unfolding complete_at ramdisk_transfer
complete_at-done d k within lt busy =
    let c = get_or d.channels k no_channel in
    let fits = All-get_or (IsWithin d.size) d.channels k no_channel within lt in
    let with_data : ℕ → BlockRequest =
      λ a. record (c.request) { segments = segments_from d.memory a c.request.segments } in
    let here : byte_offset c.request ≡ c.request.pos * sector_size = omega (arith, fits) in
    let inside : ltb (d.size * sector_size)
          ((byte_offset c.request + request_bytes c.request) % 2 ^ 32)
        ≡ false =
      ground (arith, fits, here) in
    let mapped : ltb (d.size * sector_size) (byte_offset c.request + request_bytes c.request)
        ≡ false =
      ground (arith, fits, here) in
    elim (Bool-cases (c.request.is_write)) [
      | inl e ↦ (after d k c.request, rw e refl, refl, refl, refl, refl, refl, refl, simp e refl)
      | inr e ↦ (
        after d k (record (c.request) {
          segments = load_segments d.memory (byte_offset c.request) c.request.segments;
        }),
        rw (e, inside, mapped) refl,
        refl,
        refl,
        refl,
        refl,
        refl,
        refl,
        ap (λ segs. record (c.request) { segments = segs } ∷ d.finished)
              (load_segments-from d.memory (byte_offset c.request) c.request.segments)
            ∙ ap (λ a. with_data a ∷ d.finished) here
            ∙ ap
                (λ b.
                  (if b then c.request else with_data (c.request.pos * sector_size)) ∷ d.finished)
                (sym e),
      )
    ]

-- The task ends.
pub process_due-done :
    (d : Ramdisk) (readings : List ℕ)
    → All (IsWithin d.size) d.channels
    → pending_count d.channels < length readings
    → (d' : Ramdisk) × (process_due d readings ≡ done (d', true))
unfolding process_due
process_due-done d [] within enough = absurd (omega arith)
process_due-done d (now ∷ readings) within enough =
    elim (Option-cases (next_due d.channels now 0 none)) [
      | inl caught_up ↦ (d, rw (caught_up, process_due) refl)
      | inr (r, found) ↦ elim (next_due-FoundAt d.channels now 0 none r found) [
        | inl never ↦ cc
        | inr (k, at_k, lt, busy) ↦
            let (d1, e1, size, channels, _, _, _, _, _) = complete_at-done d k within lt busy in
            let one = record (get_or d.channels k no_channel) { completed = true } in
            let fewer = pending_count-set d.channels k one lt busy refl in
            let (d', e) =
              process_due-done d1 readings
                (rw (size, channels)
                  (All-set (IsWithin d.size) d.channels k one within
                    (All-get_or (IsWithin d.size) d.channels k no_channel within lt)))
                (rw channels (omega (arith, fewer, enough))) in
            let pos : r.1 ≡ k = omega (arith, at_k) in (d', rw (found, pos, e1, process_due) e)
      ]
    ]

-- If every request lies within the disk, the task catches up in at most one turn more than there are
-- requests in flight, and does not hang. Then no request in flight was to complete before the time
-- at which the task began, given that the clock does not go back before it.
pub process_due-catches_up :
    (d : Ramdisk) (start : ℕ) (readings : List ℕ)
    → All (IsWithin d.size) d.channels
    → pending_count d.channels < length readings
    → All (λ now. start ≤ now) readings
    → (d' : Ramdisk) × (process_due d readings ≡ done (d', true))
      × NonePendingBefore start d'.channels
process_due-catches_up d start readings within enough later =
    let (d', e) = process_due-done d readings within enough in
    (d', e, process_due-NonePendingBefore d d' start readings later e)
