-- ===== src/Emudisk/Simulation.antt =====
-- One way of carrying requests to the server stands in for another.
-- The functions of emulator_kernel/nctuss_emudisk_main.c that call the emulator are defined over a
-- `call`; here two of them run side by side on two networks.
pub mod Steps
use nctusde.Base.{
  ℕ, ◌≡◌, refl, sym, subst, ◌⊎◌, Bool, true, false, List, if◌then◌else◌, Outcome, done, hang, fault,
  ◌>>=◌,
}
use nctusde.Wire.{Request, Packet, request_submit, request_next_responses, request_read_write_data}
use nctusde.Emudisk.{Emudisk, succ32}

-- What the first run comes to, the second comes to as well, up to `Q`.
abbrev pub Follows : {A B : Type 0} → (A → B → Type 0) → Outcome A → Outcome B → Type 0
Follows {B = B} Q (done a) m = (b : B) × (m ≡ done b) × Q a b
Follows Q hang m = Unit
Follows Q fault m = Unit

-- The requests that the module sends once it is loaded.
abbrev pub IsSent : Request → Type 0
IsSent q =
    (q.type ≡ request_submit)
    ⊎ (q.type ≡ request_next_responses)
    ⊎ (q.type ≡ request_read_write_data)

module _ {A B C D : Type 0} (Q : A → B → Type 0) (S : C → D → Type 0) where
  pub Follows-bind :
      (m : Outcome A) (m' : Outcome B) (f : A → Outcome C) (g : B → Outcome D)
      → Follows Q m m'
      → ((a : A) (b : B) → Q a b → Follows S (f a) (g b))
      → Follows S (m >>= f) (m' >>= g)
  Follows-bind (done a) m' f g (b, e, q) h = rw e (h a b q)
  Follows-bind hang m' f g follows h = tt
  Follows-bind fault m' f g follows h = tt

module _ {A C D : Type 0} (S : C → D → Type 0) where
  -- A step that does not use the network is the same in both runs.
  pub Follows-same :
      (m : Outcome A) (f : A → Outcome C) (g : A → Outcome D)
      → ((a : A) → Follows S (f a) (g a))
      → Follows S (m >>= f) (m >>= g)
  Follows-same (done a) f g h = h a
  Follows-same hang f g h = tt
  Follows-same fault f g h = tt

  pub Follows-result :
      (m : Outcome A) (f : A → Outcome C) (g : A → Outcome D)
      → ((a : A) → m ≡ done a → Follows S (f a) (g a))
      → Follows S (m >>= f) (m >>= g)
  Follows-result (done a) f g h = h a refl
  Follows-result hang f g h = tt
  Follows-result fault f g h = tt

module _ {C D : Type 0} (S : C → D → Type 0) where
  pub Follows-if :
      (b : Bool) (x y : Outcome C) (x' y' : Outcome D)
      → Follows S x x'
      → Follows S y y'
      → Follows S (if b then x else y) (if b then x' else y')
  Follows-if true x y x' y' h k = h
  Follows-if false x y x' y' h k = k

  pub Follows-elim :
      (b : Bool) (x y : Outcome C) (x' y' : Outcome D)
      → Follows S x x'
      → Follows S y y'
      → Follows S (elim b [ true ↦ x | false ↦ y ]) (elim b [ true ↦ x' | false ↦ y' ])
  Follows-elim true x y x' y' h k = h
  Follows-elim false x y x' y' h k = k

-- `R id n1 n2` says when the two networks may be used for the request with the number `id`.
module _ {N1 N2 : Type 0} (R : ℕ → N1 → N2 → Type 0) where
  abbrev pub Same2 : Emudisk × N1 → Emudisk × N2 → Type 0
  Same2 (e, n1) (e', n2) = (e' ≡ e) × R e.udp_send_reply_id n1 n2

  abbrev pub Same3 : {X : Type 0} → Emudisk × N1 × X → Emudisk × N2 × X → Type 0
  Same3 (e, n1, x) (e', n2, x') = (e' ≡ e) × (x' ≡ x) × R e.udp_send_reply_id n1 n2

  abbrev pub Same4 : {X Y : Type 0} → Emudisk × N1 × X × Y → Emudisk × N2 × X × Y → Type 0
  Same4 (e, n1, x, y) (e', n2, x', y') =
      (e' ≡ e) × (x' ≡ x) × (y' ≡ y) × R e.udp_send_reply_id n1 n2

  abbrev pub SameCall : ℕ → N1 × Packet → N2 × Packet → Type 0
  SameCall id (n1, p) (n2, p') = (p' ≡ p) × R id n1 n2
