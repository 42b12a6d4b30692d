-- ===== src/Matchmaking/Selector/Choice.antt =====
-- `SelectRoom` picks an eligible room, and none that should have gone before it is passed over.
use solitaire_matchmaking.Base.{
  ◌≤◌, ◌≡◌, inl, inr, refl, Bool, true, false, Option, none, some, List, [], ◌∷◌, ◌++◌, ok, arith,
  Bool-cases, In, All,
}
use solitaire_matchmaking.Base.Time.{Time}
use solitaire_matchmaking.Base.Float.{Float, IsIeee}
use solitaire_matchmaking.Base.Sort.{sort}
use solitaire_matchmaking.Base.{>>=-ok, fail_if-ok, ok_injective, All-In, All-map, sym, subst}
use solitaire_matchmaking.Base.Sort.{IsSorted, sort-All, sort-IsSorted, All-sort}
use solitaire_matchmaking.Matchmaking.Policy.{Candidate, RoomView}
use solitaire_matchmaking.Matchmaking.Validation.WellFormed.{validate_room-IsFinite}
use solitaire_matchmaking.Matchmaking.Priority.{age_prioritized}
use solitaire_matchmaking.Matchmaking.Fairness.{Evaluator}
use solitaire_matchmaking.Matchmaking.Fairness.Gap.{skill_gap_number}
use solitaire_matchmaking.Matchmaking.Eligibility.{CandidateDecision, filter}
use solitaire_matchmaking.Matchmaking.Eligibility.Sound.{
  joined, eligible-skill_gap, eligible-validate_room,
}
use solitaire_matchmaking.Matchmaking.Selector.{
  RoomOption, RoomSelection, preferred, gather_options, selection_of, select_first, select_room,
  check_scope, validate_selection_scope,
}
use solitaire_matchmaking.Matchmaking.Selector.Order.{
  IsComparable, preferred_asym, preferred_step, preferred_lem,
}
use solitaire_matchmaking.Matchmaking.Selector.Gather.{
  IsOption, filter_single, gather_sound, gather_complete, scope_flags,
}

module _ {F : Type 0} ⦃fl : Float F⦄ where
  select_parts :
      (e : Evaluator F) (room : RoomView F) (rooms : List (RoomView F)) (c : Candidate F)
      (now : Time) {found : Option (RoomSelection F)}
      → select_room e (room ∷ rooms) c now ≡ ok found
      → (os : List (RoomOption F)) × (gather_options e c now 0 (room ∷ rooms) ≡ ok os)
        × (check_scope room 0 [] (room ∷ rooms) ≡ ok tt)
        × (found ≡ select_first now (sort (preferred now) os))
  unfolding select_room validate_selection_scope
  select_parts e room rooms c now h =
      let (_, scope, rest) = >>=-ok (check_scope room 0 [] (room ∷ rooms)) _ h in
      let (_, last) = fail_if-ok _ _ _ rest in
      let (os, gathered, same) = >>=-ok (gather_options e c now 0 (room ∷ rooms)) _ last in
      (os, gathered, scope, ok_injective (sym same))

  first_lem :
      (now : Time) (os : List (RoomOption F)) {sel : RoomSelection F}
      → some sel ≡ select_first now os
      → (o : RoomOption F) × (rest : List (RoomOption F)) × (os ≡ o ∷ rest)
        × (sel ≡ selection_of now o)
  first_lem now [] h = cc
  first_lem now (o ∷ os) h = (o, os, refl, ground arith)

  empty_lem : (now : Time) (os : List (RoomOption F)) → none ≡ select_first now os → os ≡ []
  empty_lem now [] h = refl
  empty_lem now (o ∷ os) h = cc

  none_lem :
      (now : Time) (os : List (RoomOption F)) (o : RoomOption F)
      → none ≡ select_first now (sort (preferred now) os)
      → In o os
      → ⊥
  none_lem now os o h i =
      let empty : sort (preferred now) os ≡ [] = empty_lem now (sort (preferred now) os) h in
      All-In (λ _. ⊥) os o
        (All-sort (preferred now) (λ _. ⊥) os (subst (All (λ _. ⊥)) (sym empty) tt)) i

module _ {F : Type 0} ⦃fl : Float F⦄ (ieee : IsIeee F) where
  pub option-IsComparable :
      (e : Evaluator F) (c : Candidate F) (now : Time) (rooms : List (RoomView F)) (flag : Bool)
      → All (λ r. r.policy.prefer_nearly_full ≡ flag) rooms
      → (o : RoomOption F) → IsOption e c now rooms o
      → IsComparable flag o
  option-IsComparable e c now rooms flag flags o p =
      let (d, single, decided, valid) = filter_single e o.room c now p.decided in
      let same : o.decision ≡ d = ground arith in
      let yes' : d.eligible ≡ true = ground arith in
      let gap = eligible-skill_gap e o.room c now decided yes' in
      let finite =
        validate_room-IsFinite (joined o.room c)
          (eligible-validate_room e o.room c now valid decided yes') in
      let number =
        skill_gap_number ieee (o.room.members ++ c ∷ [])
          (ieee.finite-refl fl.nought ieee.nought_finite) finite in
      record {
        same_flag = All-In (λ r. r.policy.prefer_nearly_full ≡ flag) rooms o.room flags p.in_rooms;
        gap_number = ground arith;
      }

  -- The first of the sorted options, against all of them.
  first_best :
      (e : Evaluator F) (c : Candidate F) (now : Time) (rooms : List (RoomView F)) (flag : Bool)
      (os : List (RoomOption F)) (o : RoomOption F) (rest : List (RoomOption F))
      → All (λ r. r.policy.prefer_nearly_full ≡ flag) rooms
      → All (IsOption e c now rooms) os
      → sort (preferred now) os ≡ o ∷ rest
      → IsOption e c now rooms o × All (λ y. preferred now y o ≡ false) os
  first_best e c now rooms flag os o rest flags sound first =
      let less = preferred now in
      let comparable =
        All-map (IsOption e c now rooms) (IsComparable flag) os
          (option-IsComparable e c now rooms flag flags) sound in
      let sorted = subst (IsSorted less) first (
        sort-IsSorted less (IsComparable flag) (preferred_asym ieee flag now)
          (preferred_step ieee flag now) os comparable) in
      let options =
        subst (All (IsOption e c now rooms)) first
          (sort-All less (IsOption e c now rooms) os sound) in
      let head_comparable = option-IsComparable e c now rooms flag flags o options.0 in
      let self : less o o ≡ false =
        ground (arith, preferred_asym ieee flag now o o head_comparable head_comparable) in
      let best : All (λ y. less y o ≡ false) (o ∷ rest) = (self, sorted.0) in
      (
        options.0,
        All-sort less (λ y. less y o ≡ false) os
            (subst (All (λ y. less y o ≡ false)) (sym first) best),
      )

  -- The selected option, and the option of another room in which the candidate is eligible.
  pub choice_lem :
      (e : Evaluator F) (rooms : List (RoomView F)) (c : Candidate F) (now : Time)
      (room : RoomView F) (d : CandidateDecision F) {sel : RoomSelection F}
      → select_room e rooms c now ≡ ok (some sel)
      → In room rooms
      → filter e room (c ∷ []) now ≡ ok (d ∷ [])
      → d.eligible ≡ true
      → (chosen : RoomOption F) × (other : RoomOption F) × IsOption e c now rooms chosen
        × (sel ≡ selection_of now chosen)
        × (other.room ≡ room)
        × (other.decision ≡ d)
        × (preferred now other chosen ≡ false)
        × (os : List (RoomOption F)) × (gather_options e c now 0 rooms ≡ ok os)
        × In chosen (sort (preferred now) os)
        × In other os
        × (flag : Bool) × All (λ r. r.policy.prefer_nearly_full ≡ flag) rooms
  choice_lem e [] c now room d h i f y = absurd i
  choice_lem e (r ∷ rooms) c now room d h i f y =
      let (os, gathered, scope, same) = select_parts e r rooms c now h in
      let (o, rest, first, selected) = first_lem now (sort (preferred now) os) same in
      let (chosen, best) =
        first_best e c now (r ∷ rooms) r.policy.prefer_nearly_full os o rest
          (scope_flags r 0 [] (r ∷ rooms) scope) (gather_sound e c now 0 (r ∷ rooms) gathered)
          first in
      let (other, listed, a, b) = gather_complete e c now 0 (r ∷ rooms) room d gathered i f y in
      (
        o,
        other,
        chosen,
        selected,
        a,
        b,
        All-In (λ z. preferred now z o ≡ false) os other best listed,
        os,
        gathered,
        subst (In o) (sym first) (inl refl),
        listed,
        r.policy.prefer_nearly_full,
        scope_flags r 0 [] (r ∷ rooms) scope,
      )

  -- Starvation protection: as long as the candidate is eligible in a room past its age threshold, the
  -- selected room is past its threshold, and no younger than that room.
  pub select_room_oldest :
      (e : Evaluator F) (rooms : List (RoomView F)) (c : Candidate F) (now : Time)
      (room : RoomView F) (d : CandidateDecision F) {sel : RoomSelection F}
      → select_room e rooms c now ≡ ok (some sel)
      → In room rooms
      → filter e room (c ∷ []) now ≡ ok (d ∷ [])
      → d.eligible ≡ true
      → age_prioritized room now ≡ true
      → (chosen : RoomView F) × In chosen rooms
        × (sel.room_id ≡ chosen.room_id)
        × (sel.age_priority ≡ true)
        × (chosen.created_at ≤ room.created_at)
  select_room_oldest e rooms c now room d h i f y old =
      let (chosen, other, option, selected, a, b, best, _, _, _, _, _, _) =
        choice_lem e rooms c now room d h i f y in
      let old' : age_prioritized other.room now ≡ true = rw a old in
      let rule = preferred_lem now other chosen in
      (chosen.room, option.in_rooms, ground arith, ground arith, ground arith)

  -- No selection means that the candidate is eligible in none of the rooms.
  pub select_room-none :
      (e : Evaluator F) (rooms : List (RoomView F)) (c : Candidate F) (now : Time)
      (room : RoomView F) (d : CandidateDecision F)
      → select_room e rooms c now ≡ ok none
      → In room rooms
      → filter e room (c ∷ []) now ≡ ok (d ∷ [])
      → d.eligible ≡ false
  select_room-none e [] c now room d h i f = absurd i
  select_room-none e (r ∷ rooms) c now room d h i f = elim (Bool-cases d.eligible) [
    | inl y ↦
        let (os, gathered, scope, same) = select_parts e r rooms c now h in
        let (other, listed, _, _) = gather_complete e c now 0 (r ∷ rooms) room d gathered i f y in
        absurd (none_lem now os other same listed)
    | inr n ↦ n
  ]
