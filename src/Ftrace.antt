-- ===== src/Ftrace.antt =====
-- find_debugfs, tracing_file and trace_write of ftrace_processing/io_ftrace.c. A text is the list of
-- its characters.
use nctusde.Base.{
  ℕ, ◌+◌, ◌-◌, ◌≤◌, ◌≡◌, refl, Bool, true, false, Option, none, some, List, [], ◌∷◌, ◌++◌, length,
  take, leb, ◌==◌, ◌&&◌, if◌then◌else◌, Outcome, done, fault, ◌>>=◌, arith, All,
}

abbrev pub max_path : ℕ
max_path = 256

-- "debugfs" and "/tracing/"
abbrev pub debugfs_name : List ℕ
debugfs_name = 100 ∷ 101 ∷ 98 ∷ 117 ∷ 103 ∷ 102 ∷ 115 ∷ []

abbrev pub tracing_name : List ℕ
tracing_name = 47 ∷ 116 ∷ 114 ∷ 97 ∷ 99 ∷ 105 ∷ 110 ∷ 103 ∷ 47 ∷ []

unfoldable pub is_same : List ℕ → List ℕ → Bool
is_same [] [] = true
is_same [] (y ∷ ys) = false
is_same (x ∷ xs) [] = false
is_same (x ∷ xs) (y ∷ ys) = x == y && is_same xs ys

-- A line of /proc/mounts: where, and what type of file system.
pub record Mount : Type 0 where
  pub path : List ℕ
  pub type : List ℕ

-- The two static variables of find_debugfs.
pub record Found : Type 0 where
  pub debugfs : List ℕ
  pub debugfs_found : Bool

-- The loop over the lines: the path and the type that were read last, if any.
unfoldable pub scan_mounts : List Mount → Option Mount → Option Mount
unfolding is_same
scan_mounts [] last = last
scan_mounts (m ∷ ms) last = if is_same m.type debugfs_name then some m else scan_mounts ms (some m)

-- `mounts` is `none` if the file cannot be opened. Without a line the type is not initialised, and
-- strcat writes beyond the array if the path is too long.
unfoldable pub find_debugfs : Found → Option (List Mount) → Outcome (Found × Option (List ℕ))
unfolding scan_mounts is_same
find_debugfs f mounts = if f.debugfs_found then done (f, some f.debugfs) else elim mounts [
  | none ↦ done (f, none)
  | some ms ↦ elim (scan_mounts ms none) [
    | none ↦ fault
    | some m ↦
        if is_same m.type debugfs_name
        then if leb (length m.path + length tracing_name) max_path
          then done (
            record { debugfs = m.path ++ tracing_name; debugfs_found = true },
            some (m.path ++ tracing_name),
          )
          else fault
        else done (record f { debugfs = m.path }, none)
  ]
]

-- snprintf keeps at most 255 characters; a null pointer for a text is a fault.
unfoldable pub tracing_file : Found → Option (List Mount) → List ℕ → Outcome (Found × List ℕ)
unfolding find_debugfs
tracing_file f mounts name = find_debugfs f mounts >>= λ (f', dir). elim dir [
  | none ↦ fault
  | some d ↦ done (f', take (max_path - 1) (d ++ 47 ∷ name))
]

-- What trace_write gives to `write`, if the file is open: vsnprintf puts at most 255 characters and a
-- 0 into the buffer, but returns the length of the whole text.
unfoldable pub trace_write : Bool → List ℕ → Outcome (Option (List ℕ))
trace_write is_open text =
    if is_open
    then if leb (length text) 255
      then done (some text)
      else if length text == 256
      then done (some (take 255 text ++ 0 ∷ []))
      else fault
    else done none

scan_mounts-first :
    (before after : List Mount) (m : Mount) (last : Option Mount)
    → All (λ b. is_same b.type debugfs_name ≡ false) before
    → is_same m.type debugfs_name ≡ true
    → scan_mounts (before ++ m ∷ after) last ≡ some m
unfolding scan_mounts
scan_mounts-first [] after m last others this = rw this refl
scan_mounts-first (b ∷ before) after m last others this =
    rw others.0 (scan_mounts-first before after m (some b) others.1 this)

-- Once a file system of type debugfs is found, the first one, the answer is its path with the
-- directory of the traces behind it, and stays the same whatever is mounted later.
find_debugfs-stays :
    (f : Found) (before after : List Mount) (m : Mount) (mounts : Option (List Mount))
    → f.debugfs_found ≡ false
    → All (λ b. is_same b.type debugfs_name ≡ false) before
    → is_same m.type debugfs_name ≡ true
    → length m.path + length tracing_name ≤ max_path
    → (f' : Found) × (find_debugfs f (some (before ++ m ∷ after))
        ≡ done (f', some (m.path ++ tracing_name)))
      × (find_debugfs f' mounts ≡ done (f', some (m.path ++ tracing_name)))
unfolding find_debugfs
find_debugfs-stays f before after m mounts first others this short = (
  record { debugfs = m.path ++ tracing_name; debugfs_found = true },
  rw (first, scan_mounts-first before after m none others this, this) (ground arith),
  refl,
)
