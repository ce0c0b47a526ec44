-- ===== src/Server/Database.antt =====
-- MyDb of emulator_server/udp_server.cxx as compiled without USE_MEMORY_STORAGE: put_sector and
-- get_sector over a Berkeley DB file.
mod Tests
use nctusde.Base.{
  ℕ, zero, suc, ◌+◌, ◌*◌, ◌≤◌, ◌≡◌, ◌≢◌, refl, ap, sym, subst, ◌∙◌, Bool, true, false, ◌||◌, ltb,
  ◌==◌, ==_iff, if◌then◌else◌, Bool-cases, inl, inr, Option, none, some, List, [], ◌∷◌, ◌++◌, drop,
  take, arith, length, Outcome, done, ◌>>=◌, length-take,
}
use nctusde.Timing.{sector_size}
use nctusde.Server.{Storage, put_sector, get_sector, write_sector, read_bytes}
use nctusde.Server.Sectors.{
  InStorage, put_sector-done, get_sector-done, read-write_same, read-write_other,
}

-- What the database library offers: `put` with its return value, and the data under a key. A key
-- is the image of a `long`.
pub record Library : Type 1 where
  pub Db : Type 0
  pub put : Db → ℕ → List ℕ → Db × ℕ
  pub get : Db → ℕ → Option (List ℕ)

-- A put that returns 0 stores the data under its key, and under no other one.
pub record IsLawful (lib : Library) : Type 0 where
  pub stored :
      (db : lib.Db) (key : ℕ) (data_ : List ℕ)
      → (lib.put db key data_).1 ≡ 0
      → lib.get (lib.put db key data_).0 key ≡ some data_
  pub kept :
      (db : lib.Db) (key other : ℕ) (data_ : List ℕ)
      → (lib.put db key data_).1 ≡ 0
      → other ≢ key
      → lib.get (lib.put db key data_).0 other ≡ lib.get db other

-- One call of MyDb.
pub data SectorCall : Type 0 where
  puts : ℕ → List ℕ → SectorCall
  gets : ℕ → SectorCall

-- What the calls of get_sector return, from the memory storage.
pub stored_reads : List SectorCall → Storage → Outcome (List (List ℕ))
stored_reads [] storage = done []
stored_reads (puts sector buf ∷ calls) storage =
    put_sector storage sector buf >>= λ storage'. stored_reads calls storage'
stored_reads (gets sector ∷ calls) storage = get_sector storage sector >>= λ bytes.
    (stored_reads calls storage >>= λ rest. done (bytes ∷ rest))

unfoldable pub written : List ℕ → ℕ → Bool
written [] sector = false
written (s ∷ sectors) sector = s == sector || written sectors sector

-- The calls are for sectors of the storage, none is read that is not written before, and a buffer
-- holds a whole sector.
abbrev pub AreProper : List ℕ → List SectorCall → Type 0
AreProper sectors [] = Unit
AreProper sectors (puts sector buf ∷ calls) =
    InStorage sector × (sector_size ≤ length buf) × AreProper (sector ∷ sectors) calls
AreProper sectors (gets sector ∷ calls) =
    InStorage sector × (written sectors sector ≡ true) × AreProper sectors calls

length-read_bytes : (storage : Storage) (a n : ℕ) → length (read_bytes storage a n) ≡ n
unfolding read_bytes
length-read_bytes storage a zero = refl
length-read_bytes storage a (suc n) = ap suc (length-read_bytes storage (a + 1) n)

written-other :
    (sectors : List ℕ) (sector other : ℕ)
    → (sector == other) ≡ false
    → written (sector ∷ sectors) other ≡ true
    → written sectors other ≡ true
unfolding written
written-other sectors sector other new h = rw new at h

drop_all : (n : ℕ) (bytes : List ℕ) → length bytes ≤ n → drop n bytes ≡ []
drop_all zero [] h = refl
drop_all zero (b ∷ bytes) h = absurd (omega arith)
drop_all (suc n) [] h = refl
drop_all (suc n) (b ∷ bytes) h = drop_all n bytes (omega arith)

append_nil : (bytes : List ℕ) → bytes ++ [] ≡ bytes
append_nil [] = refl
append_nil (b ∷ bytes) = ap (λ rest. b ∷ rest) (append_nil bytes)

module _ (lib : Library) where
  -- The return value is not looked at.
  unfoldable pub db_put_sector : lib.Db → ℕ → List ℕ → lib.Db
  db_put_sector db sector buf = (lib.put db sector (take sector_size buf)).0

  -- The buffer after the call. `get` writes into it; where the key is missing, or the data is
  -- longer than the buffer, it returns an error, which is not looked at.
  unfoldable pub db_get_sector : lib.Db → ℕ → List ℕ → List ℕ
  db_get_sector db sector buf = elim (lib.get db sector) [
    | none ↦ buf
    | some bytes ↦ if ltb sector_size (length bytes) then buf else bytes ++ drop (length bytes) buf
  ]

  -- What the calls of get_sector leave in the server's buffer, one after the other.
  pub database_reads : List SectorCall → lib.Db → List ℕ → List (List ℕ)
  unfolding db_put_sector db_get_sector
  database_reads [] db buf = []
  database_reads (puts sector data_ ∷ calls) db buf =
      database_reads calls (db_put_sector db sector data_) buf
  database_reads (gets sector ∷ calls) db buf =
      db_get_sector db sector buf ∷ database_reads calls db (db_get_sector db sector buf)

  -- Every put succeeds.
  abbrev pub Succeeds : List SectorCall → lib.Db → Type 0
  Succeeds [] db = Unit
  Succeeds (puts sector buf ∷ calls) db =
      ((lib.put db sector (take sector_size buf)).1 ≡ 0)
      × Succeeds calls (db_put_sector db sector buf)
  Succeeds (gets sector ∷ calls) db = Succeeds calls db

  abbrev Agrees : List ℕ → lib.Db → Storage → Type 0
  Agrees sectors db storage =
      (sector : ℕ)
      → written sectors sector ≡ true
      → lib.get db sector ≡ some (read_bytes storage (sector * sector_size) sector_size)

  module _ (lawful : IsLawful lib) where
    Agrees-put :
        (sectors : List ℕ) (db : lib.Db) (storage : Storage) (sector : ℕ) (buf : List ℕ)
        → sector_size ≤ length buf
        → (lib.put db sector (take sector_size buf)).1 ≡ 0
        → Agrees sectors db storage
        → Agrees (sector ∷ sectors) (db_put_sector db sector buf) (write_sector storage sector buf)
    unfolding written db_put_sector
    Agrees-put sectors db storage sector buf l ok agrees other h =
        elim (Bool-cases (sector == other)) [
          | inl same ↦
              let e : sector ≡ other = (==_iff sector other).0 same in
              subst
                (λ o.
                  lib.get (lib.put db sector (take sector_size buf)).0 o
                  ≡ some
                      (read_bytes (write_sector storage sector buf) (o * sector_size) sector_size))
                e
                (lawful.stored db sector (take sector_size buf) ok
                  ∙ ap some (
                      sym (
                        read-write_same storage sector buf (sector * sector_size) 0 sector_size
                          (omega arith) (omega arith) l)))
          | inr new ↦
              let ne : other ≢ sector = λ e. cc (new, (==_iff sector other).1 (sym e)) in
              lawful.kept db sector other (take sector_size buf) ok ne
              ∙ agrees other (written-other sectors sector other new h)
              ∙ ap some (
                  sym (
                    read-write_other storage sector other buf (other * sector_size) 0 sector_size ne
                      (omega arith) (omega arith)))
        ]

    db_get_sector-written :
        (sectors : List ℕ) (db : lib.Db) (storage : Storage) (sector : ℕ) (buf : List ℕ)
        → length buf ≡ sector_size
        → written sectors sector ≡ true
        → Agrees sectors db storage
        → db_get_sector db sector buf ≡ read_bytes storage (sector * sector_size) sector_size
    unfolding db_get_sector
    db_get_sector-written sectors db storage sector buf l known agrees =
        let bytes = read_bytes storage (sector * sector_size) sector_size in
        let size : length bytes ≡ 512 =
          length-read_bytes storage (sector * sector_size) sector_size in
        let whole : ltb sector_size (length bytes) ≡ false = ground (arith, size) in
        rw (agrees sector known, db_get_sector, whole, size)
          (ap (λ rest. bytes ++ rest) (drop_all 512 buf (omega (arith, l))) ∙ append_nil bytes)

    matches :
        (calls : List SectorCall) (sectors : List ℕ) (db : lib.Db) (storage : Storage)
        (buf : List ℕ)
        → AreProper sectors calls
        → Succeeds calls db
        → length buf ≡ sector_size
        → Agrees sectors db storage
        → stored_reads calls storage ≡ done (database_reads calls db buf)
    unfolding stored_reads database_reads
    matches [] sectors db storage buf proper ok l agrees = refl
    matches (puts sector data_ ∷ calls) sectors db storage buf (inside, long, proper) (ok, rest) l
          agrees =
        rw (put_sector-done storage sector data_ inside) (
          matches calls (sector ∷ sectors) (db_put_sector db sector data_)
            (write_sector storage sector data_) buf proper rest l
            (Agrees-put sectors db storage sector data_ long ok agrees))
    matches (gets sector ∷ calls) sectors db storage buf (inside, known, proper) ok l agrees =
        let read = db_get_sector-written sectors db storage sector buf l known agrees in
        rw (get_sector-done storage sector inside, read)
          (let next =
              matches calls sectors db storage
                (read_bytes storage (sector * sector_size) sector_size) proper ok
                (length-read_bytes storage (sector * sector_size) sector_size) agrees in
            rw next refl)

    -- Over a database that keeps what a successful put stores, and whose puts succeed, any calls for
    -- sectors of the storage, with whole sectors in their buffers, that read no sector before it is
    -- written return what the memory storage returns, whatever the two held before.
    pub database-matches :
        (calls : List SectorCall) (db : lib.Db) (storage : Storage) (buf : List ℕ)
        → AreProper [] calls
        → Succeeds calls db
        → length buf ≡ sector_size
        → stored_reads calls storage ≡ done (database_reads calls db buf)
    unfolding written
    database-matches calls db storage buf proper ok l =
        matches calls [] db storage buf proper ok l (λ sector h. cc h)
