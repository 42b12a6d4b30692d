-- ===== src/Matchmaking/Selector/Gather.antt =====
-- The options that `SelectRoom` gathers are those of the rooms in which the candidate is eligible.
use solitaire_matchmaking.Base.{
  ℕ, suc, ◌≡◌, inl, inr, refl, true, List, [], ◌∷◌, ◌++◌, String, ok, wrap, arith, Bool-cases, In,
  All,
}
use solitaire_matchmaking.Base.Time.{Time}
use solitaire_matchmaking.Base.Float.{Float}
use solitaire_matchmaking.Base.{
  >>=-ok, wrap-ok, In-append_right, All-append, All-map, ok_injective, ap, ◌∙◌, sym,
}
use solitaire_matchmaking.Matchmaking.Policy.{Candidate, RoomView, at_evaluation, at_selected_room}
use solitaire_matchmaking.Matchmaking.Validation.{validate_room}
use solitaire_matchmaking.Matchmaking.Fairness.{Evaluator}
use solitaire_matchmaking.Matchmaking.Eligibility.{
  CandidateDecision, filter, evaluate_candidate, evaluate_all,
}
use solitaire_matchmaking.Matchmaking.Selector.{
  RoomOption, option_of, gather_options, same_scope, check_scope, policy_eq,
}

module _ {F : Type 0} ⦃fl : Float F⦄ where
  -- The option comes from a room of the list in which the candidate is eligible.
  pub record IsOption (e : Evaluator F) (c : Candidate F) (now : Time) (rooms : List (RoomView F))
      (o : RoomOption F) : Type 0 where
    pub in_rooms : In o.room rooms
    pub decided : filter e o.room (c ∷ []) now ≡ ok (o.decision ∷ [])
    pub is_eligible : o.decision.eligible ≡ true

  -- The filter of one candidate makes one decision.
  pub filter_single :
      (e : Evaluator F) (room : RoomView F) (c : Candidate F) (now : Time)
      {ds : List (CandidateDecision F)}
      → filter e room (c ∷ []) now ≡ ok ds
      → (d : CandidateDecision F) × (ds ≡ d ∷ [])
        × (evaluate_candidate e room c now ≡ ok d)
        × (validate_room room ≡ ok tt)
  unfolding filter evaluate_all
  filter_single e room c now {ds} h =
      let inner : evaluate_all e room now (c ∷ []) ≡ ok ds = ground arith in
      let (d, decided, rest) =
        >>=-ok (wrap (at_evaluation c.ticket_id) (evaluate_candidate e room c now)) _ inner in
      (d, ground arith, wrap-ok _ _ decided, ground arith)

  option_lem :
      (e : Evaluator F) (c : Candidate F) (now : Time) (i : ℕ) (room : RoomView F)
      (rooms : List (RoomView F)) (d : CandidateDecision F)
      → filter e room (c ∷ []) now ≡ ok (d ∷ [])
      → All (IsOption e c now (room ∷ rooms)) (option_of room i (d ∷ []))
  option_lem e c now i room rooms d h = elim (Bool-cases d.eligible) [
    | inl e' ↦ simp e' (record { in_rooms = inl refl; decided = h; is_eligible = e' }, tt)
    | inr e' ↦ simp e' tt
  ]

  weaken :
      (e : Evaluator F) (c : Candidate F) (now : Time) (room : RoomView F)
      (rooms : List (RoomView F)) (o : RoomOption F)
      → IsOption e c now rooms o
      → IsOption e c now (room ∷ rooms) o
  weaken e c now room rooms o p = record {
    in_rooms = inr p.in_rooms;
    decided = p.decided;
    is_eligible = p.is_eligible;
  }

  pub gather_parts :
      (e : Evaluator F) (c : Candidate F) (now : Time) (i : ℕ) (room : RoomView F)
      (rooms : List (RoomView F)) {os : List (RoomOption F)}
      → gather_options e c now i (room ∷ rooms) ≡ ok os
      → (d : CandidateDecision F) × (more : List (RoomOption F)) × (filter e room (c ∷ []) now
          ≡ ok (d ∷ []))
        × (gather_options e c now (suc i) rooms ≡ ok more)
        × (os ≡ option_of room i (d ∷ []) ++ more)
  unfolding gather_options
  gather_parts e c now i room rooms h =
      let (ds, first, rest) =
        >>=-ok (wrap (at_selected_room room.room_id) (filter e room (c ∷ []) now)) _ h in
      let (more, gathered, last) = >>=-ok (gather_options e c now (suc i) rooms) _ rest in
      let decided = wrap-ok _ _ first in
      let (d, single, _, _) = filter_single e room c now decided in
      (d, more, decided ∙ ap ok single, gathered, ok_injective (sym last) ∙ rw single refl)

  pub gather_sound :
      (e : Evaluator F) (c : Candidate F) (now : Time) (i : ℕ) (rooms : List (RoomView F))
      {os : List (RoomOption F)}
      → gather_options e c now i rooms ≡ ok os
      → All (IsOption e c now rooms) os
  unfolding gather_options
  gather_sound e c now i [] h = rw (ok_injective (sym h)) tt
  gather_sound e c now i (room ∷ rooms) h =
      let (d, more, decided, gathered, same) = gather_parts e c now i room rooms h in
      rw same (
        All-append (IsOption e c now (room ∷ rooms)) (option_of room i (d ∷ [])) more
          (option_lem e c now i room rooms d decided)
          (All-map (IsOption e c now rooms) (IsOption e c now (room ∷ rooms)) more
            (weaken e c now room rooms) (gather_sound e c now (suc i) rooms gathered)))

  -- Each room in which the candidate is eligible has its option.
  abbrev pub HasOption : RoomView F → CandidateDecision F → List (RoomOption F) → Type 0
  HasOption room d os = (o : RoomOption F) × In o os × (o.room ≡ room) × (o.decision ≡ d)

  pub gather_complete :
      (e : Evaluator F) (c : Candidate F) (now : Time) (i : ℕ) (rooms : List (RoomView F))
      (room : RoomView F) (d : CandidateDecision F) {os : List (RoomOption F)}
      → gather_options e c now i rooms ≡ ok os
      → In room rooms
      → filter e room (c ∷ []) now ≡ ok (d ∷ [])
      → d.eligible ≡ true
      → HasOption room d os
  gather_complete e c now i [] room d h j f y = absurd j
  gather_complete e c now i (r ∷ rooms) room d h (inl same_room) f y =
      let (d', more, decided, gathered, same) = gather_parts e c now i r rooms h in
      let same_decision : d' ≡ d =
        ground (arith, decided, f, ap (λ x. filter e x (c ∷ []) now) same_room) in
      rw (same, same_decision, y) (_, inl refl, sym same_room, refl)
  gather_complete e c now i (r ∷ rooms) room d h (inr j) f y =
      let (d', more, decided, gathered, same) = gather_parts e c now i r rooms h in
      let (o, k, a, b) = gather_complete e c now (suc i) rooms room d gathered j f y in
      rw same (o, In-append_right o _ more k, a, b)

  -- The rooms of a selection share the flag of the first.
  pub scope_flags :
      (reference : RoomView F) (i : ℕ) (seen : List String) (rooms : List (RoomView F))
      → check_scope reference i seen rooms ≡ ok tt
      → All (λ r. r.policy.prefer_nearly_full ≡ reference.policy.prefer_nearly_full) rooms
  unfolding check_scope same_scope policy_eq
  scope_flags reference i seen [] h = tt
  scope_flags reference i seen (room ∷ rooms) h =
      (ground arith, scope_flags reference (suc i) (room.room_id ∷ seen) rooms (ground arith))
