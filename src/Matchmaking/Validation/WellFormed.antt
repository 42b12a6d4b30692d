-- ===== src/Matchmaking/Validation/WellFormed.antt =====
-- A room view that `Validate` accepts, and that it accepts one more fitting member.
use solitaire_matchmaking.Base.{
  ℕ, suc, ◌≤◌, ◌<◌, ◌≡◌, refl, true, false, List, [], ◌∷◌, ◌++◌, String, str_eq, contains, length,
  ok, arith, All,
}
use solitaire_matchmaking.Base.Int.{pos, eq_ℤ, ◌≤ℤ◌}
use solitaire_matchmaking.Base.Time.{add}
use solitaire_matchmaking.Base.Float.{Float, IsFinite}
use solitaire_matchmaking.Base.{>>=-ok, length-append, All-map}
use solitaire_matchmaking.Rating.Types.{min_room_size, max_room_size, validate_estimate}
use solitaire_matchmaking.Matchmaking.Policy.{Policy, Candidate, RoomView, Error}
use solitaire_matchmaking.Matchmaking.Policy
use solitaire_matchmaking.Matchmaking.Validation.{
  validate_candidate, validate_member, validate_members, validate_room,
}

not-contains-cons :
    (k j : String) (ks : List String)
    → contains k (j ∷ ks) ≡ false
    → (str_eq k j ≡ false) × (contains k ks ≡ false)
not-contains-cons k j ks h = ground arith

module _ {F : Type 0} ⦃fl : Float F⦄ where
  -- `id` is the identity of none of the members.
  abbrev pub NewTicket : String → List (Candidate F) → Type 0
  NewTicket id ms = All (λ m. str_eq id m.ticket_id ≡ false) ms

  abbrev pub NewPlayer : String → List (Candidate F) → Type 0
  NewPlayer id ms = All (λ m. str_eq id m.player_id ≡ false) ms

  -- Each member's identities differ from those of the members behind it.
  abbrev pub Distinct : List (Candidate F) → Type 0
  Distinct [] = Unit
  Distinct (m ∷ ms) =
      All (λ n. str_eq n.ticket_id m.ticket_id ≡ false) ms
      × All (λ n. str_eq n.player_id m.player_id ≡ false) ms
      × Distinct ms

  pub record Fits (r : RoomView F) (m : Candidate F) : Type 0 where
    pub accepted : validate_candidate m ≡ ok tt
    pub snapshot_in_time : m.snapshot_at ≤ r.deadline
    pub same_model : str_eq m.rating.model_version r.policy.rating_model_version ≡ true

  pub record IsWellFormed (r : RoomView F) : Type 0 where
    pub capacity_low : pos min_room_size ≤ℤ r.capacity
    pub capacity_high : r.capacity ≤ℤ pos max_room_size
    pub fits_capacity : pos (length r.members) ≤ℤ r.capacity
    pub version_nonneg : pos 0 ≤ℤ r.aggregate_version
    pub deadline_later : r.created_at < r.deadline
    pub deadline_bounded : r.deadline ≤ add r.created_at r.policy.fill_timeout
    pub policy_accepted : Policy.validate r.policy ≡ ok tt
    pub members_fit : All (Fits r) r.members
    pub distinct : Distinct r.members

  Fits-of_accepted :
      (r : RoomView F) (i : ℕ) (ts ps : List String) (m : Candidate F)
      → validate_member r i ts ps m ≡ ok tt
      → Fits r m × (contains m.ticket_id ts ≡ false) × (contains m.player_id ps ≡ false)
  unfolding validate_member
  Fits-of_accepted r i ts ps m h = ground arith

  abbrev Fresh : List String → List String → List (Candidate F) → Type 0
  Fresh ts ps ms =
      All (λ m. contains m.ticket_id ts ≡ false) ms × All (λ m. contains m.player_id ps ≡ false) ms

  Fresh-tail :
      (t p : String) (ts ps : List String) (ms : List (Candidate F))
      → Fresh (t ∷ ts) (p ∷ ps) ms
      → Fresh ts ps ms
        × All (λ n. str_eq n.ticket_id t ≡ false) ms
        × All (λ n. str_eq n.player_id p ≡ false) ms
  Fresh-tail t p ts ps [] f = ((tt, tt), tt, tt)
  Fresh-tail t p ts ps (m ∷ ms) ((a, as'), (b, bs)) =
      let (rest, tickets, players) = Fresh-tail t p ts ps ms (as', bs) in
      let (a₁, a₂) = not-contains-cons m.ticket_id t ts a in
      let (b₁, b₂) = not-contains-cons m.player_id p ps b in
      (((a₂, rest.0), (b₂, rest.1)), (a₁, tickets), (b₁, players))

  members_lem :
      (r : RoomView F) (i : ℕ) (ts ps : List String) (ms : List (Candidate F))
      → validate_members r i ts ps ms ≡ ok tt
      → All (Fits r) ms × Distinct ms × Fresh ts ps ms
  unfolding validate_members
  members_lem r i ts ps [] h = (tt, tt, (tt, tt))
  members_lem r i ts ps (m ∷ ms) h =
      let (_, first, rest) = >>=-ok (validate_member r i ts ps m) _ h in
      let (fit, a, b) = Fits-of_accepted r i ts ps m first in
      let (fits, distinct, fresh) =
        members_lem r (suc i) (m.ticket_id ∷ ts) (m.player_id ∷ ps) ms rest in
      let (old, tickets, players) = Fresh-tail m.ticket_id m.player_id ts ps ms fresh in
      ((fit, fits), (tickets, players, distinct), ((a, old.0), (b, old.1)))

  pub validate_room-IsWellFormed : (r : RoomView F) → validate_room r ≡ ok tt → IsWellFormed r
  unfolding validate_room
  validate_room-IsWellFormed r h =
      let members : validate_members r 0 [] [] r.members ≡ ok tt = ground arith in
      let (fits, distinct, _) = members_lem r 0 [] [] r.members members in
      record {
        capacity_low = ground arith;
        capacity_high = ground arith;
        fits_capacity = ground arith;
        version_nonneg = ground arith;
        deadline_later = ground arith;
        deadline_bounded = ground arith;
        policy_accepted = ground arith;
        members_fit = fits;
        distinct = distinct;
      }

  -- The loop reads only the deadline and the policy of the room.
  members_same :
      (r : RoomView F) (ns : List (Candidate F)) (i : ℕ) (ts ps : List String)
      (ms : List (Candidate F))
      → validate_members (record r { members = ns }) i ts ps ms ≡ validate_members r i ts ps ms
  unfolding validate_members validate_member
  members_same r ns i ts ps [] = refl
  members_same r ns i ts ps (m ∷ ms) =
      rw (members_same r ns (suc i) (m.ticket_id ∷ ts) (m.player_id ∷ ps) ms) refl

  accept_member :
      (r : RoomView F) (i : ℕ) (ts ps : List String) (c : Candidate F)
      → Fits r c
      → contains c.ticket_id ts ≡ false
      → contains c.player_id ps ≡ false
      → validate_member r i ts ps c ≡ ok tt
  unfolding validate_member
  accept_member r i ts ps c f a b = ground arith

  accept_last :
      (r : RoomView F) (i : ℕ) (ts ps : List String) (ms : List (Candidate F)) (c : Candidate F)
      → validate_members r i ts ps ms ≡ ok tt
      → Fits r c
      → NewTicket c.ticket_id ms
      → NewPlayer c.player_id ms
      → contains c.ticket_id ts ≡ false
      → contains c.player_id ps ≡ false
      → validate_members r i ts ps (ms ++ c ∷ []) ≡ ok tt
  unfolding validate_members
  accept_last r i ts ps [] c h f _ _ a b = rw (accept_member r i ts ps c f a b) refl
  accept_last r i ts ps (m ∷ ms) c h f (t, nt) (p, np) a b =
      let (_, first, rest) = >>=-ok (validate_member r i ts ps m) _ h in
      rw first (
        accept_last r (suc i) (m.ticket_id ∷ ts) (m.player_id ∷ ps) ms c rest f nt np (ground arith)
          (ground arith))

  -- A valid room that is not full stays valid with one more fitting member of new identities.
  pub validate_room-join :
      (r : RoomView F) (c : Candidate F)
      → validate_room r ≡ ok tt
      → eq_ℤ (pos (length r.members)) r.capacity ≡ false
      → Fits r c
      → NewTicket c.ticket_id r.members
      → NewPlayer c.player_id r.members
      → validate_room (record r { members = r.members ++ c ∷ [] }) ≡ ok tt
  unfolding validate_room
  validate_room-join r c h room f nt np =
      let wf = validate_room-IsWellFormed r h in
      let members : validate_members r 0 [] [] r.members ≡ ok tt = ground arith in
      let joined = accept_last r 0 [] [] r.members c members f nt np refl refl in
      let same = members_same r (r.members ++ c ∷ []) 0 [] [] (r.members ++ c ∷ []) in
      ground (arith, wf, joined, same, length-append r.members (c ∷ []))

  IsFinite-mean : (m : Candidate F) → validate_candidate m ≡ ok tt → IsFinite m.rating.mean
  unfolding validate_candidate validate_estimate
  IsFinite-mean m h = ground arith

  -- The means of the members of a valid room are finite.
  pub validate_room-IsFinite :
      (r : RoomView F) → validate_room r ≡ ok tt → All (λ m. IsFinite m.rating.mean) r.members
  validate_room-IsFinite r h =
      All-map (Fits r) (λ m. IsFinite m.rating.mean) r.members (λ m f. IsFinite-mean m f.accepted)
        (validate_room-IsWellFormed r h).members_fit
