-- ===== src/Server/Database/Tests.antt =====
-- The calls over a database that is an association list.
use nctusde.Base.{
  ℕ, ◌≡◌, refl, sym, ◌==◌, ==_iff, if◌then◌else◌, Bool-cases, inl, inr, Option, none, some, List,
  [], ◌∷◌, arith, done, replicate,
}
use nctusde.Server.Database.{
  Library, IsLawful, SectorCall, stored_reads, database_reads, database-matches, written,
}

abbrev Table : Type 0
Table = List (ℕ × List ℕ)

unfoldable find_data : Table → ℕ → Option (List ℕ)
find_data [] key = none
find_data ((k, data_) ∷ table) key = if k == key then some data_ else find_data table key

abbrev library : Library
library = record { Db = Table; put = λ table key data_. ((key, data_) ∷ table, 0); get = find_data }

library-IsLawful : IsLawful library
unfolding find_data
library-IsLawful = record {
  stored = λ table key data_ ok. rw ((==_iff key key).1 refl) refl;
  kept = λ table key other data_ ok ne. elim (Bool-cases (key == other)) [
    | inl same ↦ absurd (ne (sym ((==_iff key other).0 same)))
    | inr new ↦ rw new refl
  ];
}

abbrev nines : List ℕ
nines = replicate 512 9

abbrev eights : List ℕ
eights = replicate 512 8

abbrev calls : List SectorCall
calls =
    SectorCall.puts 3 nines
    ∷ SectorCall.puts 4 eights
    ∷ SectorCall.gets 3
    ∷ SectorCall.puts 3 eights
    ∷ SectorCall.gets 3
    ∷ []

abbrev ones : List ℕ
ones = replicate 512 1

database-matches_example : stored_reads calls (λ a. 7) ≡ done (database_reads library calls [] ones)
unfolding written
database-matches_example =
    database-matches library library-IsLawful calls [] (λ a. 7) ones
      (
        omega arith,
        omega arith,
        (
          omega arith,
          omega arith,
          (omega arith, refl, (omega arith, omega arith, (omega arith, refl, tt))),
        ),
      )
      (refl, (refl, (refl, tt))) refl
