-- ===== src/System/Sync/Start.antt =====
-- One request is started: entered in the table, announced, and its data moved.
use nctusde.Base.{
  ℕ, zero, suc, [], ◌+◌, ◌*◌, ◌%◌, ◌^◌, ◌≤◌, ◌<◌, ◌≡◌, refl, sym, ap, subst, ◌∙◌, inl, inr, true,
  false, List, ◌∷◌, arith, length, get_or, set, leb, if◌then◌else◌, Outcome, done, ◌>>=◌,
  >>=-eq-done, done-injective, Bool-cases,
}
use nctusde.Timing.{sector_size}
use nctusde.Wire.{Request, request_submit, high_word, low_word}
use nctusde.Server.{Server, Storage, read_bytes}
use nctusde.Ssd.{memory_storage_size}
use nctusde.Emudisk.{Emudisk, Os, Slot, BlockRequest, request_bytes, max_request_sector_num, succ32}
use nctusde.Emudisk.Slots.{put_request_id_to_req_mapping}
use nctusde.Emudisk.Transfer.{emudisk_transfer, gather, copy_to}
use nctusde.Emudisk.Transfer.RoundTrip.{gather-eq-copy_to, length-copy_to}
use nctusde.Emudisk.Pause.{pause_os, resume_os}
use nctusde.Emudisk.Calls.{emulator_submit_request, next_id}
use nctusde.Emudisk.Strategy.{
  data_dir, sector_count, no_slot, submit_to_emulator, start_request, transfer_sectors,
}
use nctusde.System.{direct_call}
use nctusde.System.Data.Sectors.{stored, later, Moved, transfer_write, transfer_read}

-- A request as the block layer is told to make it: at most 128 sectors, all on the disk.
pub record IsAdmissible (req : BlockRequest) : Type 0 where
  pub small : request_bytes req ≤ max_request_sector_num * sector_size
  pub inside : (req.pos + sector_count req) * sector_size ≤ memory_storage_size

-- The bytes that a slot's buffer holds when the request is announced.
abbrev pub prepared : BlockRequest → List ℕ → List ℕ
prepared req buffer = if req.is_write then gather req.segments 0 buffer else buffer

length-prepared :
    (req : BlockRequest) (buffer : List ℕ) → length (prepared req buffer) ≡ length buffer
length-prepared req buffer = elim (Bool-cases req.is_write) [
  | inl e ↦ rw e (ap length (gather-eq-copy_to req.segments 0 buffer) ∙ length-copy_to buffer 0 _)
  | inr e ↦ rw e refl
]

-- What the data of a request comes to: a write is one copy into the storage, a read one copy out
-- of it.
pub data IsCopied (req : BlockRequest) (from to : Storage) (before after : List ℕ) : Type 0 where
  written :
      req.is_write ≡ true
      → after ≡ gather req.segments 0 before
      → ((a : ℕ)
          → to a ≡ stored from (req.pos * sector_size) 0 (sector_count req * sector_size) after a)
      → IsCopied req from to before after
  fetched :
      req.is_write ≡ false
      → to ≡ from
      → after
        ≡ copy_to before 0
            (read_bytes from (req.pos * sector_size) (sector_count req * sector_size))
      → IsCopied req from to before after

dir-write : (req : BlockRequest) → req.is_write ≡ true → data_dir req ≡ 1
dir-write req w = ground arith

dir-read : (req : BlockRequest) → req.is_write ≡ false → data_dir req ≡ 0
dir-read req r = ground arith

prepared-write :
    (req : BlockRequest) (buffer : List ℕ)
    → req.is_write ≡ true
    → prepared req buffer ≡ gather req.segments 0 buffer
prepared-write req buffer w = rw w refl

set_found : (xs : List Slot) (i : ℕ) (x d : Slot) → get_or xs i d ≡ x → set xs i x ≡ xs
set_found [] i x d h = refl
set_found (y ∷ xs) zero x d h = ap (λ z. z ∷ xs) (sym h)
set_found (y ∷ xs) (suc i) x d h = ap (◌∷◌ y) (set_found xs i x d h)

prepared-read :
    (req : BlockRequest) (buffer : List ℕ) → req.is_write ≡ false → prepared req buffer ≡ buffer
prepared-read req buffer r = rw r refl

emudisk_transfer-write :
    (req : BlockRequest) (buffer : List ℕ)
    → req.is_write ≡ true
    → request_bytes req ≤ max_request_sector_num * sector_size
    → emudisk_transfer req buffer ≡ done (req, gather req.segments 0 buffer)
unfolding emudisk_transfer
emudisk_transfer-write req buffer w small = ground arith

-- The data of a write is put into the slot's buffer before the request is announced.
prepare-done :
    (req : BlockRequest) (slots : List Slot) (i : ℕ) (slot : Slot)
    → IsAdmissible req
    → get_or slots i no_slot ≡ slot
    → (if req.is_write
        then (emudisk_transfer req (get_or slots i no_slot).buffer >>= λ (_, buffer).
            done (set slots i (record (get_or slots i no_slot) { buffer = buffer })))
        else done slots)
      ≡ done (set slots i (record slot { buffer = prepared req slot.buffer }))
prepare-done req slots i slot a found = elim (Bool-cases req.is_write) [
  | inl w ↦ simp (found, emudisk_transfer-write req slot.buffer w a.small, w)
  | inr n ↦ simp n (ap done (sym (set_found slots i slot no_slot found)))
]

module _ (blank : Request) (counter : ℕ) where
  -- The sectors of an admissible request are moved whole.
  pub record AreMoved (e : Emudisk) (s : Server) (req : BlockRequest) (before : List ℕ)
      (s' : Server) (after : List ℕ) : Type 0 where
    pub result :
        transfer_sectors blank direct_call counter
          (sector_count req)
          0
          e
          s
          (data_dir req)
          req.pos
          (prepared req before)
        ≡ done (later e (sector_count req), s', after)
    pub moved : Moved e s (sector_count req) s'
    pub copied : IsCopied req s.storage s'.storage before after
    pub same_length : length after ≡ length before

  pub transfer-AreMoved :
      (e : Emudisk) (s : Server) (req : BlockRequest) (before : List ℕ)
      → IsAdmissible req
      → max_request_sector_num * sector_size ≤ length before
      → s.current_max_request_id < e.udp_send_reply_id
      → e.udp_send_reply_id + sector_count req < 2 ^ 32
      → (s' : Server) × (after : List ℕ) × AreMoved e s req before s' after
  transfer-AreMoved e s req before a room fresh wraps = elim (Bool-cases req.is_write) [
    | inl w ↦
        let whole = length-prepared req before in
        let (s', moved, m, stores) =
          transfer_write blank counter (sector_count req) 0 e s req.pos (prepared req before)
            (omega (arith, a.inside)) (omega (arith, a.small, whole)) fresh wraps in
        (
          s',
          prepared req before,
          record {
            result = rw (dir-write req w) moved;
            moved = m;
            copied = written w (rw w refl) (λ k. stores k);
            same_length = whole;
          },
        )
    | inr r ↦
        let start : req.pos + 0 ≡ req.pos = omega arith in
        let (s', moved, m, same) =
          transfer_read blank counter (sector_count req) 0 e s req.pos before
            (omega (arith, a.inside)) fresh wraps in
        (
          s',
          copy_to before 0
              (read_bytes s.storage (req.pos * sector_size) (sector_count req * sector_size)),
          record {
            result = rw (dir-read req r, prepared-read req before r) (rw start at moved);
            moved = m;
            copied = fetched r same refl;
            same_length = length-copy_to before 0 _;
          },
        )
  ]

  abbrev announced : ℕ → ℕ → ℕ → ℕ → ℕ → ℕ → Request
  announced number now dir sector count id = record blank {
    type = request_submit;
    id = number;
    data1 = high_word now;
    data2 = low_word now;
    data3 = dir;
    data4 = sector;
    data5 = count;
    data6 = id;
  }

  -- Announcing a request needs nothing of the module's state but its counter of messages.
  pub submit_shift :
      (e1 e2 e1' : Emudisk) (s s' : Server) (now dir sector count id : ℕ)
      → e1.udp_send_reply_id ≡ e2.udp_send_reply_id
      → emulator_submit_request blank direct_call e1 s now dir sector count id ≡ done (e1', s')
      → emulator_submit_request blank direct_call e2 s now dir sector count id
        ≡ done (next_id e2, s')
  unfolding emulator_submit_request
  submit_shift e1 e2 e1' s s' now dir sector count id same h =
      let (r, called, sent) =
        >>=-eq-done (direct_call s (announced e1.udp_send_reply_id now dir sector count id) []) _
          h in
      let called' : direct_call s (announced e2.udp_send_reply_id now dir sector count id) []
          ≡ done r =
        subst (λ n. direct_call s (announced n now dir sector count id) [] ≡ done r) same called in
      rw called' (ap (λ (r : Emudisk × Server). done (next_id e2, r.1)) (done-injective sent))

  -- The end of a submission.
  abbrev pub submitted : Emudisk → Os → List Slot → ℕ → BlockRequest → Slot → List ℕ → Emudisk
  submitted e os slots i req slot after =
      record (later (next_id (record e { slots = slots; os = os })) (sector_count req)) {
        slots = set slots i (record slot { buffer = after });
        os = resume_os os;
        request_inflight = succ32 e.request_inflight;
      }

  pub submit_to_emulator-done :
      (e : Emudisk) (os : Os) (s s1 s2 : Server) (now : ℕ) (req : BlockRequest) (slots : List Slot)
      (i : ℕ) (slot : Slot) (after : List ℕ)
      → pause_os e.os counter ≡ done os
      → emulator_submit_request blank direct_call
          (record e { slots = slots; os = os })
          s
          now
          (data_dir req)
          (req.pos % 2 ^ 32)
          (sector_count req)
          e.udp_send_reply_id
        ≡ done (next_id (record e { slots = slots; os = os }), s1)
      → get_or slots i no_slot ≡ slot
      → transfer_sectors blank direct_call counter
          (sector_count req)
          0
          (next_id (record e { slots = slots; os = os }))
          s1
          (data_dir req)
          req.pos
          slot.buffer
        ≡ done (later (next_id (record e { slots = slots; os = os })) (sector_count req), s2, after)
      → submit_to_emulator blank direct_call counter (record e { slots = slots }) s now req i
        ≡ done (submitted e os slots i req slot after, s2)
  unfolding submit_to_emulator
  submit_to_emulator-done e os s s1 s2 now req slots i slot after paused sent found moved =
      rw (paused, sent, found, moved, found) refl

  pub start_request-done :
      (e : Emudisk) (s : Server) (now : ℕ) (req : BlockRequest) (slots : List Slot) (i : ℕ)
      (slot : Slot) (r : Outcome (Emudisk × Server))
      → IsAdmissible req
      → e.latest_response_time < now
      → put_request_id_to_req_mapping e.slots e.udp_send_reply_id req (sector_count req)
        ≡ done (slots, i)
      → get_or slots i no_slot ≡ slot
      → submit_to_emulator blank direct_call counter
          (record e { slots = set slots i (record slot { buffer = prepared req slot.buffer }) })
          s
          now
          req
          i
        ≡ r
      → start_request blank direct_call counter e s now req ≡ r
  unfolding start_request
  start_request-done e s now req slots i slot r a after put found h =
      let not_late : leb now e.latest_response_time ≡ false = ground arith in
      rw (not_late, put, prepare-done req slots i slot a found) h
