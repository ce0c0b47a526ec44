-- ===== src/System/Sync/Submit.antt =====
-- Submitting a request.
use mathlib.Core.List.{Perm}
use mathlib.Core.List.Perm
use nctusde.Base.{
  ℕ, ◌+◌, ◌*◌, ◌^◌, ◌≤◌, ◌<◌, ◌≡◌, refl, sym, ap, subst, ◌∙◌, true, List, [], ◌∷◌, arith, length,
  done, length-perm, All-below-perm,
}
use nctusde.Wire.{Request, request_submit, high_word, low_word}
use nctusde.Wire.Time.{join_words-words}
use nctusde.Server.{Server}
use nctusde.Ssd.Long.{submit_request_long-natural}
use nctusde.Ssd.{submit_request_long, Ssd, active, long_max}
use nctusde.Ssd.Flow.{IsPlaced, IsAdded, submit_request-IsAdded}
use nctusde.Emudisk.{Emudisk, BlockRequest, Slot}
use nctusde.Emudisk.Slots.{put_request_id_to_req_mapping}
use nctusde.Emudisk.Slots.Table.{occupied_ids, IsEntered, put_request_id_to_req_mapping-IsEntered}
use nctusde.Emudisk.Calls.{emulator_submit_request, next_id}
use nctusde.System.{direct_call}
use nctusde.System.Handled.{direct_call-submit}
use nctusde.System.Sync.{InSync}

-- What the announcement of a request comes to.
pub record Announced (blank : Request) (e : Emudisk) (s : Server) (now dir sector count : ℕ)
    (req : BlockRequest) (e' : Emudisk) (s' : Server) : Type 0 where
  pub slot : ℕ
  pub put :
      put_request_id_to_req_mapping e.slots e.udp_send_reply_id req count ≡ done (e'.slots, slot)
  pub sent :
      emulator_submit_request blank direct_call
        (record e { slots = e'.slots })
        s
        now
        dir
        sector
        count
        e.udp_send_reply_id
      ≡ done (e', s')
  pub in_flight : Perm (occupied_ids e'.slots) (e.udp_send_reply_id ∷ occupied_ids e.slots)
  pub same_disk : s'.storage ≡ s.storage
  pub same_speed : s'.ssd.speed_factor ≡ s.ssd.speed_factor
  pub placed : IsPlaced (active s.ssd) e.latest_response_time (active s'.ssd)
  pub next : e' ≡ next_id (record e { slots = e'.slots })
  pub in_sync : InSync e' s'

announced-InSync :
    (e : Emudisk) (s : Server) (now dir sector count : ℕ)
    → InSync e s
    → (slots' : List Slot) (i : ℕ) (req : BlockRequest) (ssd' : Ssd) (s' : Server)
    → e.udp_send_reply_id + 1 < 2 ^ 32
    → IsEntered e.slots e.udp_send_reply_id req count slots' i
    → IsAdded s.ssd e.latest_response_time now dir sector count e.udp_send_reply_id ssd'
    → s'.ssd ≡ ssd'
    → s'.current_max_request_id ≡ e.udp_send_reply_id
    → s'.reply.io_request_ids ≡ s.reply.io_request_ids
    → InSync (next_id (record e { slots = slots' })) s'
announced-InSync e s now dir sector count v slots' i req ssd' s' wraps put added ssd_e cur_e
      words_e =
    record {
      valid = rw ssd_e added.valid;
      channels = rw ssd_e (omega (arith, added.same_channels, v.channels, put.same_size));
      few = omega (arith, v.few, put.same_size);
      running = rw ssd_e (omega (arith, added.same_speed, v.running));
      fresh = omega (arith, cur_e);
      words = ap length words_e ∙ v.words;
      ids = All-below-perm (2 ^ 32) _ _ (Perm.symm put.ids) (omega arith, v.ids);
      in_flight = rw ssd_e (
          Perm.trans put.ids
            (Perm.trans (Perm.cons e.udp_send_reply_id v.in_flight) (Perm.symm added.pending)));
    }

module _ (blank : Request) (e : Emudisk) (s : Server) (now dir sector count : ℕ)
    (req : BlockRequest) (v : InSync e s) where
  announcement : Request
  announcement = record blank {
    type = request_submit;
    id = e.udp_send_reply_id;
    data1 = high_word now;
    data2 = low_word now;
    data3 = dir;
    data4 = sector;
    data5 = count;
    data6 = e.udp_send_reply_id;
  }

  -- With table and server in step and a slot to spare, a request of at most 128 sectors that comes
  -- after the latest response, at a time and under an id far from their largest values, is entered
  -- in the table and taken by the server. Neither side hangs or refuses, the disk's contents stay,
  -- and table and channels hold the requests they held and this one, in step again.
  pub submit-Announced :
      e.latest_response_time < now
      → count ≤ 128
      → now + 270270 * s.ssd.speed_factor < long_max
      → e.udp_send_reply_id + 1 < 2 ^ 32
      → length (occupied_ids e.slots) < length e.slots
      → (e' : Emudisk) × (s' : Server) × Announced blank e s now dir sector count req e' s'
  unfolding emulator_submit_request announcement
  submit-Announced later small soon wraps room =
      let (slots', i, is_put) =
        put_request_id_to_req_mapping-IsEntered e.slots e.udp_send_reply_id req count
          (omega (arith, v.fresh)) room in
      let (ssd', added) =
        submit_request-IsAdded s.ssd e.latest_response_time now dir sector count e.udp_send_reply_id
          v.valid later small v.running soon
          (omega (arith, v.channels, length-perm _ _ v.in_flight)) in
      let (s', p, called, ssd_e, cur_e, storage_e, words_e) =
        direct_call-submit s announcement [] ssd' refl v.fresh (
          subst
            (λ t.
              submit_request_long s.ssd t dir sector count e.udp_send_reply_id ≡ done (true, ssd'))
            (sym (join_words-words now (omega arith)))
            (submit_request_long-natural s.ssd now dir sector count e.udp_send_reply_id
                (omega arith)
              ∙ added.result)) in
      (
        next_id (record e { slots = slots' }),
        s',
        record {
          slot = i;
          put = is_put.result;
          sent = rw called refl;
          in_flight = is_put.ids;
          same_disk = storage_e;
          same_speed = rw ssd_e added.same_speed;
          placed = rw ssd_e added.placed;
          next = refl;
          in_sync =
              announced-InSync e s now dir sector count v slots' i req ssd' s' wraps is_put added
                ssd_e cur_e words_e;
        },
      )
