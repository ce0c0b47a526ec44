-- ===== src/Server/Sectors.antt =====
-- The memory storage as a map from sectors to their bytes.
use mathlib.Core.Path.{ap₂}
use nctusde.Base.{
  ℕ, zero, suc, ◌+◌, ◌-◌, ◌*◌, ◌≤◌, ◌<◌, ◌≡◌, ◌≢◌, refl, ap, ◌∙◌, true, List, [], ◌∷◌, arith,
  get_or, take, length, done, fault, drop, sym,
}
use nctusde.Timing.{sector_size}
use nctusde.Ssd.{Ssd, setup, restart, max_emulator_channels, memory_storage_size}
use nctusde.Server.{Storage, in_storage, write_sector, read_bytes, put_sector, get_sector}

take-drop_step :
    (n k : ℕ) (bytes : List ℕ)
    → k < length bytes
    → take (suc n) (drop k bytes) ≡ get_or bytes k 0 ∷ take n (drop (k + 1) bytes)
take-drop_step n k [] h = absurd (omega arith)
take-drop_step n zero (b ∷ bytes) h = refl
take-drop_step n (suc k) (b ∷ bytes) h =
    let e : k + 1 ≡ suc k = omega arith in
    let e' : suc k + 1 ≡ suc (suc k) = omega arith in
    rw e' (rw e at (take-drop_step n k bytes (omega arith)))

byte :
    (storage : Storage) (sector : ℕ) (bytes : List ℕ) (a k : ℕ)
    → a ≡ sector * sector_size + k
    → k < sector_size
    → write_sector storage sector bytes a ≡ get_or bytes k 0
unfolding write_sector
byte storage sector bytes a k e h =
    let e' : a - sector * sector_size ≡ k = omega arith in
    ground (arith, ap (λ j. get_or bytes j 0) e')

pub read-write_same :
    (storage : Storage) (sector : ℕ) (bytes : List ℕ) (a k n : ℕ)
    → a ≡ sector * sector_size + k
    → k + n ≤ sector_size
    → k + n ≤ length bytes
    → read_bytes (write_sector storage sector bytes) a n ≡ take n (drop k bytes)
unfolding read_bytes write_sector
read-write_same storage sector bytes a k zero e h l = refl
read-write_same storage sector bytes a k (suc n) e h l =
    ap₂ ◌∷◌ (byte storage sector bytes a k e (omega arith)) (
      read-write_same storage sector bytes (a + 1) (k + 1) n (omega arith) (omega arith)
        (omega arith))
    ∙ sym (take-drop_step n k bytes (omega arith))

pub read-write_other :
    (storage : Storage) (sector other : ℕ) (bytes : List ℕ) (a k n : ℕ)
    → other ≢ sector
    → a ≡ other * sector_size + k
    → k + n ≤ sector_size
    → read_bytes (write_sector storage sector bytes) a n ≡ read_bytes storage a n
unfolding read_bytes write_sector
read-write_other storage sector other bytes a k zero ne e h = refl
read-write_other storage sector other bytes a k (suc n) ne e h =
    ap₂ ◌∷◌ (ground arith)
      (read-write_other storage sector other bytes (a + 1) (k + 1) n ne (omega arith) (omega arith))

-- A sector that the storage holds.
abbrev pub InStorage : ℕ → Type 0
InStorage sector = (sector + 1) * sector_size ≤ memory_storage_size

in_storage-true : (sector : ℕ) → InStorage sector → in_storage sector ≡ true
in_storage-true sector h = ground arith

pub get_sector-done :
    (storage : Storage) (sector : ℕ)
    → InStorage sector
    → get_sector storage sector ≡ done (read_bytes storage (sector * sector_size) sector_size)
unfolding get_sector
get_sector-done storage sector h = rw (in_storage-true sector h)

pub put_sector-done :
    (storage : Storage) (sector : ℕ) (bytes : List ℕ)
    → InStorage sector
    → put_sector storage sector bytes ≡ done (write_sector storage sector bytes)
unfolding put_sector
put_sector-done storage sector bytes h = rw (in_storage-true sector h)

get_sector-write_other :
    (storage : Storage) (sector other : ℕ) (bytes : List ℕ)
    → other ≢ sector
    → get_sector (write_sector storage sector bytes) other ≡ get_sector storage other
unfolding get_sector
get_sector-write_other storage sector other bytes ne = rw (
    read-write_other storage sector other bytes (other * sector_size) 0 sector_size ne (omega arith)
      (omega arith))

-- What is written to a sector of the storage is read back from it, and every other sector reads as
-- before.
get_sector-put_sector :
    (storage : Storage) (sector : ℕ) (bytes : List ℕ)
    → InStorage sector
    → sector_size ≤ length bytes
    → (storage' : Storage) × (put_sector storage sector bytes ≡ done storage')
      × (get_sector storage' sector ≡ done (take sector_size bytes))
      × ((other : ℕ) → other ≢ sector → get_sector storage' other ≡ get_sector storage other)
get_sector-put_sector storage sector bytes h l = (
  write_sector storage sector bytes,
  put_sector-done storage sector bytes h,
  get_sector-done (write_sector storage sector bytes) sector h
      ∙ ap done (
          read-write_same storage sector bytes (sector * sector_size) 0 sector_size (omega arith)
            (omega arith) l),
  λ other ne. get_sector-write_other storage sector other bytes ne,
)

-- A reset is checked as if its size in sectors were bytes: it accepts a disk with sectors that the
-- storage does not hold, and a transfer of such a sector reaches outside the storage.
pub setup-too_large :
    (ssd : Ssd) (size channels speed_factor sector : ℕ) (storage : Storage) (bytes : List ℕ)
    → channels ≤ max_emulator_channels
    → size ≤ memory_storage_size
    → sector < size
    → memory_storage_size < (sector + 1) * sector_size
    → (setup ssd size channels speed_factor ≡ done (restart ssd size channels speed_factor))
      × (put_sector storage sector bytes ≡ fault)
      × (get_sector storage sector ≡ fault)
unfolding setup put_sector get_sector
setup-too_large ssd size channels speed_factor sector storage bytes hc hs lt out =
    (ground arith, ground arith, ground arith)
