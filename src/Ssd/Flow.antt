-- ===== src/Ssd/Flow.antt =====
-- submit_request as a client sees it that still waits for earlier requests.
use mathlib.Core.List.{Perm}
use nctusde.Base.{
  ℕ, ◌+◌, ◌*◌, ◌≤◌, ◌<◌, ◌≡◌, refl, subst, inl, inr, true, arith, length, length-set, All-set,
  All-get_or, ◌∙◌, done, set, List, ◌∷◌,
}
use nctusde.Timing.Bounds.{emulated_time_bounds}
use nctusde.Ssd.{
  Ssd, Channel, active, occupy, submit_request, is_sequential_request, direction, long_max,
}
use nctusde.Ssd.Oldest.{completion_at, no_channel}
use nctusde.Ssd.Valid.{IsValid, take-set, length-active}
use nctusde.Ssd.Pending.{pending_ids, pending_ids-set, pending_ids-room}
use nctusde.Ssd.Submit.{Takes, submit_request-cases, completion-occupy}

occupy-IsValid :
    (ssd : Ssd) (pos index time dir sector count id : ℕ)
    → IsValid ssd
    → index < 8
    → time + 270270 * ssd.speed_factor < long_max
    → IsValid (occupy ssd pos index time dir sector count id)
unfolding occupy
occupy-IsValid ssd pos index time dir sector count id v hi ht = record {
  array = length-set ssd.ssd_channels pos _ ∙ v.array;
  in_array = v.in_array;
  in_time = rw (take-set ssd.channels ssd.ssd_channels pos) (
      All-set _ (active ssd) pos _ v.in_time (
        omega (
          arith,
          emulated_time_bounds (is_sequential_request ssd dir sector) (direction dir) index
              ssd.speed_factor (ground arith) hi,
        )));
}

parameters-occupy :
    (ssd : Ssd) (pos index time dir sector count id : ℕ)
    → ((occupy ssd pos index time dir sector count id).channels ≡ ssd.channels)
      × ((occupy ssd pos index time dir sector count id).speed_factor ≡ ssd.speed_factor)
unfolding occupy
parameters-occupy ssd pos index time dir sector count id = (refl, refl)

-- A channel that has completed by `latest` is overwritten by a later request.
pub record IsPlaced (cs : List Channel) (latest : ℕ) (cs' : List Channel) : Type 0 where
  pub pos : ℕ
  pub channel : Channel
  pub in_range : pos < length cs
  pub was_over : completion_at cs pos ≤ latest
  pub result : cs' ≡ set cs pos channel

-- What the client sees of a request that is taken while it waits for those after `latest`.
pub record IsAdded (ssd : Ssd) (latest time dir sector count id : ℕ) (ssd' : Ssd) : Type 0 where
  pub result : submit_request ssd time dir sector count id ≡ done (true, ssd')
  pub valid : IsValid ssd'
  pub same_channels : ssd'.channels ≡ ssd.channels
  pub same_speed : ssd'.speed_factor ≡ ssd.speed_factor
  pub pending : Perm (pending_ids (active ssd') latest) (id ∷ pending_ids (active ssd) latest)
  pub placed : IsPlaced (active ssd) latest (active ssd')

module _ (ssd : Ssd) (latest time dir sector count id : ℕ) (v : IsValid ssd) where
  room-IsAdded :
      {pos index : ℕ}
      → latest < time
      → 0 < ssd.speed_factor
      → time + 270270 * ssd.speed_factor < long_max
      → completion_at (active ssd) pos ≤ latest
      → Takes ssd time dir sector count id pos index
      → IsAdded ssd latest time dir sector count id (occupy ssd pos index time dir sector count id)
  room-IsAdded {pos} {index} hl hs ht old t =
      let (channel, e, id_e, time_e) =
        completion-occupy ssd pos index time dir sector count id v t.in_range in
      record {
        result = t.result;
        valid = occupy-IsValid ssd pos index time dir sector count id v t.bucket.in_table ht;
        placed = record {
          pos = pos;
          channel = channel;
          in_range = t.in_range;
          was_over = old;
          result = e;
        };
        same_channels = (parameters-occupy ssd pos index time dir sector count id).0;
        same_speed = (parameters-occupy ssd pos index time dir sector count id).1;
        pending = rw e (
            subst
              (λ i.
                Perm (pending_ids (set (active ssd) pos channel) latest)
                  (i ∷ pending_ids (active ssd) latest))
              id_e
              (pending_ids-set (active ssd) latest pos channel t.in_range old (
                omega (
                  arith,
                  time_e,
                  emulated_time_bounds (is_sequential_request ssd dir sector) (direction dir) index
                      ssd.speed_factor (ground arith) t.bucket.in_table,
                ))));
      }

  -- On a valid SSD, a request of at most 128 sectors that comes after the latest answer, with a
  -- time far from the largest `long`, is taken whenever fewer requests are pending than there are
  -- channels. The SSD is valid again, with the same channels and speed, and pending are, up to
  -- order, this request and those that were.
  pub submit_request-IsAdded :
      latest < time
      → count ≤ 128
      → 0 < ssd.speed_factor
      → time + 270270 * ssd.speed_factor < long_max
      → length (pending_ids (active ssd) latest) < ssd.channels
      → (ssd' : Ssd) × IsAdded ssd latest time dir sector count id ssd'
  submit_request-IsAdded hl hc hs ht room =
      let (k, lt, old) = pending_ids-room (active ssd) latest (omega (arith, length-active v)) in
      elim (submit_request-cases ssd time dir sector count id hc (omega arith)) [
        | inl (busy, _) ↦ absurd (omega (arith, All-get_or _ (active ssd) k no_channel busy lt))
        | inr (pos, index, t) ↦ (
          _,
          room-IsAdded hl hs ht
              (omega (arith, All-get_or _ (active ssd) k no_channel t.was_oldest lt)) t,
        )
      ]
