-- ===== src/Emudisk/Statistics.antt =====
-- The statistics of emulator_kernel/nctuss_emudisk_main.c as compiled with TRACE_STAT: the records
-- that its functions make, and the seq_file that shows them.
use nctusde.Base.{
  ℕ, zero, suc, ◌+◌, ◌*◌, ◌⊎◌, ◌≤◌, ◌<◌, ◌≡◌, refl, ap, inl, inr, true, false, Option, none, some,
  List, [], ◌∷◌, ◌++◌, map, arith, length, take, drop, get_or, set, ltb, leb, if◌then◌else◌,
  Outcome, done, fault, Bool-cases,
}

abbrev pub stats_max_num : ℕ
stats_max_num = 50 * 50 * 10

-- Nothing writes `queue_state`.
pub record Stat : Type 0 where
  pub from_who : ℕ
  pub request_id : ℕ
  pub data1 : ℕ
  pub pending_request_ids : List ℕ

abbrev pub no_stat : Stat
no_stat = record { from_who = 0; request_id = 0; data1 = 0; pending_request_ids = [] }

-- The array, of `stats_max_num` records, and the number of those that are made.
pub record Statistics : Type 0 where
  pub stats : List Stat
  pub stats_num : ℕ

-- A function fills the current record and goes on to the next; nobody looks whether there is one.
unfoldable pub trace_record : Statistics → (Stat → Stat) → Outcome Statistics
trace_record s fill =
    if ltb s.stats_num (length s.stats)
    then done (record {
      stats = set s.stats s.stats_num (fill (get_or s.stats s.stats_num no_stat));
      stats_num = s.stats_num + 1;
    })
    else fault

-- From the strategy function (1), the processing task (2) and the softirq (3).
abbrev pub trace_strategy : ℕ → Stat → Stat
trace_strategy id stat = record stat { from_who = 1; request_id = id; data1 = 1 }

abbrev pub trace_processing : ℕ → Stat → Stat
trace_processing id stat = record stat { from_who = 2; request_id = id }

abbrev pub trace_softirq : ℕ → Stat → Stat
trace_softirq data1 stat = record stat { from_who = 3; data1 = data1 }

-- From the table's put (4) and get (5): the ids of the slots are copied first.
unfoldable pub copy_request_ids : List ℕ → List ℕ → List ℕ
copy_request_ids [] old = old
copy_request_ids (id ∷ ids) [] = []
copy_request_ids (id ∷ ids) (o ∷ old) = id ∷ copy_request_ids ids old

abbrev pub trace_mapping : ℕ → List ℕ → Stat → Stat
trace_mapping who ids stat = record stat {
  from_who = who;
  pending_request_ids = copy_request_ids ids stat.pending_request_ids;
}

-- From resume_OS under MEASURE_EMULATOR_KERNEL_OVERHEAD.
abbrev pub trace_resume : ℕ → ℕ → Stat → Stat
trace_resume caller count stat = record stat { from_who = caller; data1 = count }

-- The seq_file. A position stands for the pointer to its record.
unfoldable pub seq_start : Statistics → ℕ → Option ℕ
seq_start s pos = if leb s.stats_num pos then none else some pos

unfoldable pub seq_next : Statistics → ℕ → ℕ × Option ℕ
unfolding seq_start
seq_next s pos = (pos + 1, seq_start s (pos + 1))

-- The numbers in what is printed of a record.
unfoldable pub seq_show : ℕ → Stat → List ℕ
seq_show disk_channels stat =
    stat.from_who ∷ stat.request_id ∷ stat.data1 ∷ take disk_channels stat.pending_request_ids

-- What seq_read of the kernel does with the three, up to `fuel` records.
unfoldable pub shown : ℕ → Statistics → ℕ → Option ℕ → List (List ℕ)
shown fuel s disk_channels none = []
shown zero s disk_channels (some pos) = []
shown (suc fuel) s disk_channels (some pos) =
    seq_show disk_channels (get_or s.stats pos no_stat)
    ∷ shown fuel s disk_channels (seq_next s pos).1

take-drop_next :
    (xs : List Stat) (n i : ℕ)
    → i < length xs
    → take (suc n) (drop i xs) ≡ get_or xs i no_stat ∷ take n (drop (i + 1) xs)
take-drop_next [] n i h = absurd (omega arith)
take-drop_next (x ∷ xs) n zero h = refl
take-drop_next (x ∷ xs) n (suc i) h =
    let e : i + 1 ≡ suc i = omega arith in
    let e' : suc i + 1 ≡ suc (suc i) = omega arith in
    rw e' (rw e at (take-drop_next xs n i (omega arith)))

shown_from :
    (fuel : ℕ) (s : Statistics) (disk_channels pos : ℕ)
    → pos + fuel ≡ s.stats_num
    → s.stats_num ≤ length s.stats
    → shown fuel s disk_channels (seq_start s pos)
      ≡ map (seq_show disk_channels) (take fuel (drop pos s.stats))
unfolding shown seq_start seq_next
shown_from zero s disk_channels pos h inside =
    let over : leb s.stats_num pos ≡ true = ground arith in rw over refl
shown_from (suc fuel) s disk_channels pos h inside =
    let more : leb s.stats_num pos ≡ false = ground arith in
    rw (more, take-drop_next s.stats fuel pos (omega arith))
      (ap (λ rest. seq_show disk_channels (get_or s.stats pos no_stat) ∷ rest)
        (shown_from fuel s disk_channels (pos + 1) (omega arith) inside))

-- Reading the file shows the records that are made, each once and in turn.
shown_all :
    (s : Statistics) (disk_channels : ℕ)
    → s.stats_num ≤ length s.stats
    → shown s.stats_num s disk_channels (seq_start s 0)
      ≡ map (seq_show disk_channels) (take s.stats_num s.stats)
shown_all s disk_channels inside = shown_from s.stats_num s disk_channels 0 (omega arith) inside

take-set_next :
    (xs : List Stat) (n : ℕ) (x : Stat)
    → n < length xs
    → take (n + 1) (set xs n x) ≡ take n xs ++ x ∷ []
take-set_next [] n x h = absurd (omega arith)
take-set_next (y ∷ xs) zero x h = refl
take-set_next (y ∷ xs) (suc n) x h =
    let e : suc n + 1 ≡ suc (n + 1) = omega arith in
    rw e (ap (λ rest. y ∷ rest) (take-set_next xs n x (omega arith)))

-- A record that is made is kept behind the others, and when the array is full the next one is
-- written beyond it.
trace_record-kept :
    (s : Statistics) (fill : Stat → Stat)
    → s.stats_num ≤ length s.stats
    → ((s.stats_num ≡ length s.stats) × (trace_record s fill ≡ fault))
      ⊎ ((s' : Statistics) × (trace_record s fill ≡ done s')
          × (take s'.stats_num s'.stats
              ≡ take s.stats_num s.stats ++ fill (get_or s.stats s.stats_num no_stat) ∷ []))
unfolding trace_record
trace_record-kept s fill inside = elim (Bool-cases (ltb s.stats_num (length s.stats))) [
  | inl room ↦ inr (_, rw room refl, take-set_next s.stats s.stats_num _ (ground arith))
  | inr full ↦ inl (ground arith, rw full refl)
]
