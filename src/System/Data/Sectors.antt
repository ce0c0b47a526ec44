-- ===== src/System/Data/Sectors.antt =====
-- The sectors of a whole request between the buffer of its slot and the server's storage.
use nctusde.Base.{
  ℕ, zero, suc, ◌+◌, ◌-◌, ◌*◌, ◌%◌, ◌^◌, ◌≤◌, ◌<◌, ◌≡◌, refl, sym, ap, ◌∙◌, List, [], ◌∷◌, ◌++◌,
  Outcome, arith, length, length-take, length-drop_le, drop, get_or, get_or-take, leb, ltb, ◌&&◌,
  if◌then◌else◌, done, Bool-cases, inl, inr,
}
use nctusde.Timing.{sector_size}
use nctusde.Ssd.{memory_storage_size}
use nctusde.Wire.{Request}
use nctusde.Server.{Server, Storage, read_bytes, write_sector}
use nctusde.Emudisk.{Emudisk}
use nctusde.Emudisk.Transfer.{copy_to, copy_from}
use nctusde.Emudisk.Transfer.RoundTrip.{copy_to-nil, copy_to-append}
use nctusde.Server.Sectors.{InStorage}
use mathlib.Core.Path.{ap₂}
use nctusde.Emudisk.Strategy.{transfer_sectors}
use nctusde.System.{direct_call}
use nctusde.System.Data.{
  write-call, read-call, after_write, after_read, message, written-fresh, written-same,
  written-storage, read-same, read-fresh, length-read_bytes,
}
use nctusde.Emudisk.Calls.{next_id}
use nctusde.Link.{checked}

-- memcpy(storage + base, bytes, size), of which the bytes from `from` on are still to come.
abbrev pub stored : Storage → ℕ → ℕ → ℕ → List ℕ → Storage
stored storage base from size bytes a =
    if leb (base + from) a && ltb a (base + from + size)
    then get_or bytes (a - base) 0
    else storage a

get_or-drop : (xs : List ℕ) (n i : ℕ) → get_or (drop n xs) i 0 ≡ get_or xs (n + i) 0
get_or-drop xs zero i = ap (λ k. get_or xs k 0) (omega arith)
get_or-drop [] (suc n) i = refl
get_or-drop (x ∷ xs) (suc n) i =
    let e : suc n + i ≡ suc (n + i) = omega arith in rw e (get_or-drop xs n i)

sector_byte :
    (buffer : List ℕ) (pos i a : ℕ)
    → (pos + i) * sector_size ≤ a
    → a < (pos + i) * sector_size + sector_size
    → get_or (copy_from buffer (i * sector_size) sector_size) (a - (pos + i) * sector_size) 0
      ≡ get_or buffer (a - pos * sector_size) 0
sector_byte buffer pos i a lo hi =
    get_or-take sector_size (drop (i * sector_size) buffer) _ 0 (omega arith)
    ∙ get_or-drop buffer (i * sector_size) _
    ∙ ap (λ k. get_or buffer k 0) (omega arith)

-- One sector more.
stored-step :
    (storage : Storage) (pos i n : ℕ) (buffer : List ℕ) (a : ℕ)
    → stored
        (write_sector storage (pos + i) (copy_from buffer (i * sector_size) sector_size))
        (pos * sector_size)
        ((i + 1) * sector_size)
        (n * sector_size)
        buffer
        a
      ≡ stored storage (pos * sector_size) (i * sector_size) (suc n * sector_size) buffer a
unfolding write_sector
stored-step storage pos i n buffer a =
    elim (Bool-cases
      (leb ((pos + i) * sector_size) a && ltb a ((pos + i) * sector_size + sector_size))) [
        | inl e ↦ ground (arith, sector_byte buffer pos i a (ground arith) (ground arith))
        | inr e ↦ ground arith
      ]

abbrev pub later : Emudisk → ℕ → Emudisk
later e n = record e { udp_send_reply_id = e.udp_send_reply_id + n }

next_zero : (e : Emudisk) → later e 0 ≡ e
next_zero e = ap (λ k. record e { udp_send_reply_id = k }) (omega arith)

next_suc :
    (e : Emudisk) (n : ℕ)
    → e.udp_send_reply_id + suc n < 2 ^ 32
    → later (next_id e) n ≡ later e (suc n)
next_suc e n h = ap (λ k. record e { udp_send_reply_id = k }) (omega arith)

pub read_bytes-add :
    (storage : Storage) (a n m : ℕ)
    → read_bytes storage a (n + m) ≡ read_bytes storage a n ++ read_bytes storage (a + n) m
unfolding read_bytes
read_bytes-add storage a zero m =
    let e : zero + m ≡ m = omega arith in let e' : a + zero ≡ a = omega arith in rw (e, e') refl
read_bytes-add storage a (suc n) m =
    let e : suc n + m ≡ suc (n + m) = omega arith in
    let e' : a + suc n ≡ a + 1 + n = omega arith in
    rw (e, e') (ap (◌∷◌ (storage a)) (read_bytes-add storage (a + 1) n m))

-- One sector more is read.
copied-step :
    (storage : Storage) (pos i n : ℕ) (buffer : List ℕ)
    → copy_to
        (copy_to buffer
          (i * sector_size)
          (read_bytes storage ((pos + i) * sector_size) sector_size))
        ((i + 1) * sector_size)
        (read_bytes storage ((pos + (i + 1)) * sector_size) (n * sector_size))
      ≡ copy_to buffer
          (i * sector_size)
          (read_bytes storage ((pos + i) * sector_size) (suc n * sector_size))
copied-step storage pos i n buffer =
    let first = read_bytes storage ((pos + i) * sector_size) sector_size in
    let e : (i + 1) * sector_size ≡ i * sector_size + length first =
      omega (arith, length-read_bytes storage ((pos + i) * sector_size) sector_size) in
    let e' : (pos + (i + 1)) * sector_size ≡ (pos + i) * sector_size + sector_size = omega arith in
    let e'' : suc n * sector_size ≡ sector_size + n * sector_size = omega arith in
    let rest = read_bytes storage ((pos + i) * sector_size + sector_size) (n * sector_size) in
    let joined : first ++ rest
        ≡ read_bytes storage ((pos + i) * sector_size) (suc n * sector_size) =
      rw e''
        (sym (read_bytes-add storage ((pos + i) * sector_size) sector_size (n * sector_size))) in
    rw (e, e') (copy_to-append buffer (i * sector_size) first rest)
    ∙ ap (copy_to buffer (i * sector_size)) joined

-- What moving `n` sectors leaves of the server besides its storage.
pub record Moved (e : Emudisk) (s : Server) (n : ℕ) (s' : Server) : Type 0 where
  pub same_ssd : s'.ssd ≡ s.ssd
  pub same_words : s'.reply.io_request_ids ≡ s.reply.io_request_ids
  pub fresh : s'.current_max_request_id < e.udp_send_reply_id + n

module _ (blank : Request) (counter : ℕ) where
  pub write-step :
      (n i : ℕ) (e : Emudisk) (s : Server) (pos : ℕ) (buffer : List ℕ)
      (r : Outcome (Emudisk × Server × List ℕ))
      → pos + i < 2 ^ 32
      → InStorage (pos + i)
      → (i + 1) * sector_size ≤ length buffer
      → s.current_max_request_id < e.udp_send_reply_id
      → transfer_sectors blank direct_call counter n
          (i + 1)
          (next_id e)
          (after_write s
            (checked (message blank e.udp_send_reply_id 1 (pos + i)))
            (copy_from buffer (i * sector_size) sector_size))
          1
          pos
          buffer
        ≡ r
      → transfer_sectors blank direct_call counter (suc n) i e s 1 pos buffer ≡ r
  unfolding transfer_sectors
  write-step n i e s pos buffer r small within room fresh h =
      let in_word : (pos + i) % 2 ^ 32 ≡ pos + i = omega arith in
      let called = write-call blank e s (pos + i) buffer (i * sector_size) fresh within (
        omega (
          arith,
          length-take sector_size (drop (i * sector_size) buffer),
          length-drop_le (i * sector_size) buffer sector_size (omega arith),
        )) in
      rw (in_word, called) h

  pub read-step :
      (n i : ℕ) (e : Emudisk) (s : Server) (pos : ℕ) (buffer : List ℕ)
      (r : Outcome (Emudisk × Server × List ℕ))
      → pos + i < 2 ^ 32
      → InStorage (pos + i)
      → s.current_max_request_id < e.udp_send_reply_id
      → transfer_sectors blank direct_call counter n
          (i + 1)
          (next_id e)
          (after_read s (checked (message blank e.udp_send_reply_id 0 (pos + i))))
          0
          pos
          (copy_to buffer
            (i * sector_size)
            (read_bytes s.storage ((pos + i) * sector_size) sector_size))
        ≡ r
      → transfer_sectors blank direct_call counter (suc n) i e s 0 pos buffer ≡ r
  unfolding transfer_sectors
  read-step n i e s pos buffer r small within fresh h =
      let in_word : (pos + i) % 2 ^ 32 ≡ pos + i = omega arith in
      rw (in_word, read-call blank e s (pos + i) buffer (i * sector_size) fresh within) h

  pub transfer_write :
      (n i : ℕ) (e : Emudisk) (s : Server) (pos : ℕ) (buffer : List ℕ)
      → (pos + i + n) * sector_size ≤ memory_storage_size
      → (i + n) * sector_size ≤ length buffer
      → s.current_max_request_id < e.udp_send_reply_id
      → e.udp_send_reply_id + n < 2 ^ 32
      → (s' : Server) × (transfer_sectors blank direct_call counter n i e s 1 pos buffer
          ≡ done (later e n, s', buffer))
        × Moved e s n s'
        × ((a : ℕ)
            → s'.storage a
              ≡ stored s.storage (pos * sector_size) (i * sector_size) (n * sector_size) buffer a)
  unfolding transfer_sectors
  transfer_write zero i e s pos buffer h1 h2 h3 h4 = (
    s,
    rw (next_zero e) refl,
    record { same_ssd = refl; same_words = refl; fresh = omega arith },
    λ a. ground arith,
  )
  transfer_write (suc n) i e s pos buffer h1 h2 h3 h4 =
      let sent = copy_from buffer (i * sector_size) sector_size in
      let s1 = after_write s (checked (message blank e.udp_send_reply_id 1 (pos + i))) sent in
      let (s', moved, m, stores) =
        transfer_write n (i + 1) (next_id e) s1 pos buffer (omega arith) (omega arith)
          (written-fresh blank e s (pos + i) sent (omega arith)) (omega arith) in
      (
        s',
        write-step n i e s pos buffer _ (omega arith) (omega arith) (omega arith) h3
            (moved ∙ ap (λ t. done (t, s', buffer)) (next_suc e n h4)),
        record {
          same_ssd = m.same_ssd ∙ (written-same blank s e.udp_send_reply_id (pos + i) sent).0;
          same_words = m.same_words ∙ (written-same blank s e.udp_send_reply_id (pos + i) sent).1;
          fresh = omega (arith, m.fresh);
        },
        λ a.
            rw (written-storage blank s e.udp_send_reply_id (pos + i) sent) at (stores a)
            ∙ stored-step s.storage pos i n buffer a,
      )

  pub transfer_read :
      (n i : ℕ) (e : Emudisk) (s : Server) (pos : ℕ) (buffer : List ℕ)
      → (pos + i + n) * sector_size ≤ memory_storage_size
      → s.current_max_request_id < e.udp_send_reply_id
      → e.udp_send_reply_id + n < 2 ^ 32
      → (s' : Server) × (transfer_sectors blank direct_call counter n i e s 0 pos buffer
          ≡ done (
            later e n,
            s',
            copy_to buffer
                (i * sector_size)
                (read_bytes s.storage ((pos + i) * sector_size) (n * sector_size)),
          ))
        × Moved e s n s'
        × (s'.storage ≡ s.storage)
  unfolding transfer_sectors read_bytes
  transfer_read zero i e s pos buffer h1 h3 h4 = (
    s,
    rw (next_zero e)
        (ap (λ bytes. done (e, s, bytes)) (sym (copy_to-nil buffer (i * sector_size)))),
    record { same_ssd = refl; same_words = refl; fresh = omega arith },
    refl,
  )
  transfer_read (suc n) i e s pos buffer h1 h3 h4 =
      let s1 = after_read s (checked (message blank e.udp_send_reply_id 0 (pos + i))) in
      let same = read-same blank s e.udp_send_reply_id (pos + i) in
      let (s', moved, m, stores) =
        transfer_read n (i + 1) (next_id e) s1 pos
          (copy_to buffer (i * sector_size)
            (read_bytes s.storage ((pos + i) * sector_size) sector_size))
          (omega arith) (read-fresh blank e s (pos + i) (omega arith)) (omega arith) in
      (
        s',
        read-step n i e s pos buffer _ (omega arith) (omega arith) h3 (
            moved
            ∙ ap₂ (λ t bytes. done (t, s', bytes)) (next_suc e n h4)
                (rw same.2 (copied-step s.storage pos i n buffer))),
        record {
          same_ssd = m.same_ssd ∙ same.0;
          same_words = m.same_words ∙ same.1;
          fresh = omega (arith, m.fresh);
        },
        stores ∙ same.2,
      )
