-- ===== src/System/Sync/Taken.antt =====
-- What becomes of the requests that nctuss_emudisk_strategy takes off the queue.
use mathlib.Core.List.{Perm, perm_middle}
use mathlib.Core.List.Perm
use nctusde.Base.{
  ℕ, zero, suc, ◌<◌, ◌≡◌, ◌≢◌, refl, ap, inl, inr, List, [], ◌∷◌, ◌++◌, map, map-perm, arith,
  length, length-perm, set, ◌==◌, if◌then◌else◌, Bool-cases, ◌∙◌, false, true,
}
use nctusde.Wire.{Request}
use nctusde.Server.{Server}
use nctusde.Emudisk.{Emudisk, BlockRequest, Slot}
use nctusde.Emudisk.Slots.Table.{occupied_ids}
use nctusde.Emudisk.Slots.Occupied.{occupied, HandedBack, HandedBack-nil}
use nctusde.Emudisk.Processing.Completion.{in_flight-nonzero}
use nctusde.System.Sync.Started.{IsStarted}

-- The requests in the table.
abbrev pub table_requests : Emudisk → List BlockRequest
table_requests e = map (λ s. s.req) (occupied e.slots)

-- The file-system requests among those taken off the queue.
unfoldable pub file_requests : List (ℕ × BlockRequest) → List BlockRequest
file_requests [] = []
file_requests ((now, req) ∷ taken) =
    if req.is_fs then req ∷ file_requests taken else file_requests taken

-- The other requests among them join those that were ended with an error.
unfoldable pub end_others : List (ℕ × BlockRequest) → List BlockRequest → List BlockRequest
end_others [] failed = failed
end_others ((now, req) ∷ taken) failed =
    if req.is_fs then end_others taken failed else end_others taken (req ∷ failed)

-- The front of the queue is taken off it: its file-system requests are in the table beside those
-- that were there, and its other requests ended with an error.
pub record IsTaken (e : Emudisk) (queue : List (ℕ × BlockRequest)) (e' : Emudisk)
    (left : List (ℕ × BlockRequest)) : Type 0 where
  pub taken : List (ℕ × BlockRequest)
  pub front : queue ≡ taken ++ left
  pub in_table : Perm (table_requests e') (file_requests taken ++ table_requests e)
  pub others : e'.failed ≡ end_others taken e.failed

pub IsTaken-nothing : (e : Emudisk) (queue : List (ℕ × BlockRequest)) → IsTaken e queue e queue
unfolding file_requests end_others
IsTaken-nothing e queue = record {
  taken = [];
  front = refl;
  in_table = Perm.refl (table_requests e);
  others = refl;
}

pub IsTaken-start :
    (e e1 e' : Emudisk) (now : ℕ) (req : BlockRequest) (queue left : List (ℕ × BlockRequest))
    → req.is_fs ≡ true
    → Perm (table_requests e1) (req ∷ table_requests e)
    → e1.failed ≡ e.failed
    → IsTaken e1 queue e' left
    → IsTaken e ((now, req) ∷ queue) e' left
unfolding file_requests end_others
IsTaken-start e e1 e' now req queue left fs p failed t = record {
  taken = (now, req) ∷ t.taken;
  front = ap (◌∷◌ (now, req)) t.front;
  in_table = simp fs (
      Perm.trans t.in_table (
        Perm.trans (Perm.append_left (file_requests t.taken) p)
          (perm_middle (file_requests t.taken) (table_requests e))));
  others = simp fs (t.others ∙ ap (end_others t.taken) failed);
}

pub IsTaken-fail :
    (e e' : Emudisk) (now : ℕ) (req : BlockRequest) (queue left : List (ℕ × BlockRequest))
    → req.is_fs ≡ false
    → IsTaken (record e { failed = req ∷ e.failed }) queue e' left
    → IsTaken e ((now, req) ∷ queue) e' left
unfolding file_requests end_others
IsTaken-fail e e' now req queue left other t = record {
  taken = (now, req) ∷ t.taken;
  front = ap (◌∷◌ (now, req)) t.front;
  in_table = simp other t.in_table;
  others = simp other t.others;
}

-- A query does not change what the table holds.
pub IsTaken-then :
    (e e1 e' : Emudisk) (queue left : List (ℕ × BlockRequest))
    → IsTaken e queue e1 left
    → HandedBack e1.slots e1.completed [] e'.slots e'.completed
    → e'.failed ≡ e1.failed
    → IsTaken e queue e' left
IsTaken-then e e1 e' queue left t h failed =
    let (p, _) = HandedBack-nil e1.slots e'.slots e1.completed e'.completed h in
    record {
      taken = t.taken;
      front = t.front;
      in_table = Perm.trans (Perm.symm (map-perm (λ s. s.req) _ _ p)) t.in_table;
      others = failed ∙ t.others;
    }

-- Where a slot is filled that makes one id more, the table holds the new slot beside the others.
occupied-set :
    (slots : List Slot) (i : ℕ) (s' : Slot)
    → i < length slots
    → s'.request_id ≢ 0
    → length (occupied_ids (set slots i s')) ≡ suc (length (occupied_ids slots))
    → Perm (occupied (set slots i s')) (s' ∷ occupied slots)
unfolding occupied occupied_ids
occupied-set [] i s' h nz more = absurd (omega (arith, h))
occupied-set (s ∷ slots) zero s' h nz more =
    let taken : (s'.request_id == 0) ≡ false = ground (arith, nz) in
    elim (Bool-cases (s.request_id == 0)) [
      | inl z ↦ rw (taken, z) (Perm.refl (s' ∷ occupied slots))
      | inr u ↦ absurd (omega (arith, simp (taken, u) at more))
    ]
occupied-set (s ∷ slots) (suc i) s' h nz more = elim (Bool-cases (s.request_id == 0)) [
  | inl z ↦ rw z (occupied-set slots i s' (omega (arith, h)) nz (simp z at more))
  | inr u ↦ rw u (
      Perm.trans
        (Perm.cons s
          (occupied-set slots i s' (omega (arith, h)) nz (omega (arith, simp u at more))))
        (Perm.swap s' s (occupied slots)))
]

-- A request that is started is in the table beside those that were there.
pub started-in_table :
    (blank : Request) (counter : ℕ) (e : Emudisk) (s : Server) (now : ℕ) (req : BlockRequest)
    (e' : Emudisk) (s' : Server)
    → IsStarted blank counter e s now req e' s'
    → Perm (table_requests e') (req ∷ table_requests e)
started-in_table blank counter e s now req e' s' st =
    let more = length-perm _ _ st.in_flight in
    let nz = in_flight-nonzero e'.slots e.udp_send_reply_id _ st.in_flight in
    rw st.slot.slots (
      map-perm (λ s. s.req) _ _
        (occupied-set e.slots st.slot.i _ st.slot.in_range nz (rw st.slot.slots at more)))
