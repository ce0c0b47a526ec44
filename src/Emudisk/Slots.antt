-- ===== src/Emudisk/Slots.antt =====
-- The table of the requests in flight: nctuss_put_request_id_to_req_mapping and
-- nctuss_get_request_id_to_req_mapping. A table is the list of the first `disk_channels` slots.
pub mod Table
pub mod Filled
pub mod Occupied
use nctusde.Base.{
  ℕ, suc, ◌+◌, Bool, true, false, Option, none, some, List, [], ◌∷◌, ◌==◌, if◌then◌else◌, Outcome,
  done, hang, ◌>>=◌,
}
use nctusde.Emudisk.{Slot, BlockRequest}

abbrev pub fill : Slot → ℕ → BlockRequest → ℕ → Slot
fill s request_id req req_sectors = record s {
  request_id = request_id;
  req = req;
  req_sectors = req_sectors;
}

-- Takes the first free slot. The second result is its position, which stands for the pointers
-- into it that the source hands back.
unfoldable pub put_request_id_to_req_mapping :
    List Slot → ℕ → BlockRequest → ℕ → Outcome (List Slot × ℕ)
put_request_id_to_req_mapping [] request_id req req_sectors = hang
put_request_id_to_req_mapping (s ∷ slots) request_id req req_sectors =
    let rest = put_request_id_to_req_mapping slots request_id req req_sectors in
    if s.request_id == 0
    then done (fill s request_id req req_sectors ∷ slots, 0)
    else (rest >>= λ (slots', i). done (s ∷ slots', suc i))

-- Frees the slot of a request, and hands back what it held.
unfoldable pub get_request_id_to_req_mapping : List Slot → ℕ → Outcome (List Slot × Slot)
get_request_id_to_req_mapping [] request_id = hang
get_request_id_to_req_mapping (s ∷ slots) request_id =
    let rest = get_request_id_to_req_mapping slots request_id in
    if s.request_id == request_id
    then done (record s { request_id = 0 } ∷ slots, s)
    else (rest >>= λ (slots', found). done (s ∷ slots', found))
