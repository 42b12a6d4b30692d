-- ===== src/Matchmaking/Eligibility/Sound.antt =====
-- What an eligible decision guarantees, and that every decision says why.
use solitaire_matchmaking.Base.{
  ◌≤◌, ◌≡◌, ◌⊎◌, inl, inr, refl, Bool, true, false, ◌&&◌, Option, none, some, List, [], ◌∷◌, ◌++◌,
  str_eq, length, ok, arith, Bool-cases,
}
use solitaire_matchmaking.Base.Int.{pos, ltb_ℤ, eq_ℤ, ◌≤ℤ◌, ◌<ℤ◌}
use solitaire_matchmaking.Base.Time.{Time, since}
use solitaire_matchmaking.Base.Float.{Float}
use solitaire_matchmaking.Base.{◌∙◌, sym, &&-true, >>=-ok}
use solitaire_matchmaking.Matchmaking.Policy.{Candidate, RoomView, allowed_skill_gap}
use solitaire_matchmaking.Matchmaking.Validation.{validate_candidate, validate_room}
use solitaire_matchmaking.Matchmaking.Validation.WellFormed.{
  NewTicket, NewPlayer, validate_room-join,
}
use solitaire_matchmaking.Matchmaking.Fairness.{
  Evaluator, FairnessReport, skill_gap, evaluate_fairness,
}
use solitaire_matchmaking.Matchmaking.Eligibility.{
  CandidateDecision, measured, find_duplicate, decide_complete, decide_window, evaluate_candidate,
}

abbrev pub is_none : {A : Type 0} → Option A → Bool
is_none none = true
is_none (some a) = false

module _ {F : Type 0} ⦃fl : Float F⦄ where
  find_duplicate-none :
      (c : Candidate F) (ms : List (Candidate F))
      → find_duplicate c ms ≡ none
      → NewTicket c.ticket_id ms × NewPlayer c.player_id ms
  unfolding find_duplicate
  find_duplicate-none c [] h = (tt, tt)
  find_duplicate-none c (m ∷ ms) h = ground (arith, find_duplicate-none c ms)

  -- The room with the candidate in it.
  abbrev pub joined : RoomView F → Candidate F → RoomView F
  joined room c = record room { members = room.members ++ c ∷ [] }

  complete_lem :
      (e : Evaluator F) (room : RoomView F) (now : Time) (d : CandidateDecision F)
      {d' : CandidateDecision F}
      → d.eligible ≡ false
      → d.rejection ≡ none
      → decide_complete e room now d ≡ ok d'
      → (report : FairnessReport F) × (evaluate_fairness e room now ≡ ok report)
        × (d'.eligible ≡ report.within_hard_limits)
        × (d'.eligible ≡ is_none d'.rejection)
        × (d'.win_probability_spread ≡ some report.win_probability_spread)
        × (d'.skill_gap ≡ report.skill_gap)
  unfolding decide_complete
  complete_lem e room now d a b h =
      let (report, found, rest) = >>=-ok (evaluate_fairness e room now) _ h in
      (report, found, ground arith, ground arith, ground arith, ground arith)

  fairness_lem :
      (e : Evaluator F) (room : RoomView F) (now : Time) {report : FairnessReport F}
      → evaluate_fairness e room now ≡ ok report
      → report.within_hard_limits
        ≡ fl.le (skill_gap room.members) room.policy.max_skill_gap
          && fl.le report.win_probability_spread room.policy.max_win_probability_spread
  unfolding evaluate_fairness
  fairness_lem e room now h = ground arith

  fairness_gap :
      (e : Evaluator F) (room : RoomView F) (now : Time) {report : FairnessReport F}
      → evaluate_fairness e room now ≡ ok report
      → report.skill_gap ≡ skill_gap room.members
  unfolding evaluate_fairness
  fairness_gap e room now h = ground arith

  -- The facts that the tests before the window have established.
  pub record IsAdmissible (room : RoomView F) (c : Candidate F) (now : Time) : Type 0 where
    pub accepted : validate_candidate c ≡ ok tt
    pub joined_by_now : c.joined_at ≤ now
    pub snapshot_by_now : c.snapshot_at ≤ now
    pub room_open : now ≤ room.deadline
    pub room_left : eq_ℤ (pos (length room.members)) room.capacity ≡ false
    pub new_ticket : NewTicket c.ticket_id room.members
    pub new_player : NewPlayer c.player_id room.members
    pub same_model : str_eq c.rating.model_version room.policy.rating_model_version ≡ true

  admissible_lem :
      (e : Evaluator F) (room : RoomView F) (c : Candidate F) (now : Time) {d : CandidateDecision F}
      → evaluate_candidate e room c now ≡ ok d
      → (d.eligible ≡ false) × (is_none d.rejection ≡ false)
        ⊎ IsAdmissible room c now × (decide_window e room c now ≡ ok d)
  unfolding evaluate_candidate
  admissible_lem e room c now h = ground (arith, find_duplicate-none c room.members)

  -- What the window has tested, and what the fairness of the complete room has.
  pub record IsWithinWindow (e : Evaluator F) (room : RoomView F) (now : Time) (gap : F)
      : Type 0 where
    pub window : F
    pub window_found : allowed_skill_gap room.policy (since now room.created_at) ≡ ok window
    pub below_window : fl.lt window gap ≡ false
    pub below_maximum : fl.lt room.policy.max_skill_gap gap ≡ false

  window_lem :
      (e : Evaluator F) (room : RoomView F) (c : Candidate F) (now : Time) {d : CandidateDecision F}
      → decide_window e room c now ≡ ok d
      → (d.eligible ≡ is_none d.rejection)
        × (d.skill_gap ≡ skill_gap (room.members ++ c ∷ []))
        × ((d.eligible ≡ false)
            ⊎ IsWithinWindow e room now (skill_gap (room.members ++ c ∷ []))
              × ((pos (length (room.members ++ c ∷ [])) <ℤ room.capacity)
                  ⊎ (report : FairnessReport F) × (evaluate_fairness e (joined room c) now
                      ≡ ok report)
                    × (report.within_hard_limits ≡ true)))
  unfolding decide_window
  window_lem e room c now {d} h =
      let gap = skill_gap (room.members ++ c ∷ []) in
      let full = ltb_ℤ (pos (length (room.members ++ c ∷ []))) room.capacity in
      let (allowed, found, rest) =
        >>=-ok (allowed_skill_gap room.policy (since now room.created_at)) _ h in
      elim (Bool-cases (fl.lt room.policy.max_skill_gap gap)) [
        | inl above ↦ (ground arith, ground arith, inl (ground arith))
        | inr below ↦ elim (Bool-cases (fl.lt allowed gap)) [
          | inl above ↦ (ground arith, ground arith, inl (ground arith))
          | inr inside ↦ elim (Bool-cases full) [
            | inl room_left ↦ (
              ground arith,
              ground arith,
              inr (
                record {
                  window = allowed;
                  window_found = found;
                  below_window = inside;
                  below_maximum = below;
                },
                inl (ground arith),
              ),
            )
            | inr last ↦
                let (report, judged, same, reasons, _, gap_same) =
                  complete_lem e (joined room c) now (measured c gap allowed) {d' = d} refl refl
                    (ground arith) in
                (
                  reasons,
                  gap_same ∙ fairness_gap e (joined room c) now judged,
                  (elim (Bool-cases report.within_hard_limits) [
                    | inl within ↦ inr (
                      record {
                        window = allowed;
                        window_found = found;
                        below_window = inside;
                        below_maximum = below;
                      },
                      inr (report, judged, within),
                    )
                    | inr outside ↦ inl (same ∙ outside)
                  ]),
                )
          ]
        ]
      ]

  -- A decision accepts the candidate exactly when it gives no reason for a rejection.
  pub eligible-eq-no_rejection :
      (e : Evaluator F) (room : RoomView F) (c : Candidate F) (now : Time) {d : CandidateDecision F}
      → evaluate_candidate e room c now ≡ ok d
      → d.eligible ≡ is_none d.rejection
  eligible-eq-no_rejection e room c now h = elim (admissible_lem e room c now h) [
    | inl (a, b) ↦ a ∙ sym b
    | inr (_, w) ↦ (window_lem e room c now w).0
  ]

  -- An eligible candidate is valid and known by now, the room is open, has a free seat and none of the
  -- candidate's identities, and the gap with the candidate passes neither the window nor the maximum.
  pub eligible-IsAdmissible :
      (e : Evaluator F) (room : RoomView F) (c : Candidate F) (now : Time) {d : CandidateDecision F}
      → evaluate_candidate e room c now ≡ ok d
      → d.eligible ≡ true
      → IsAdmissible room c now × IsWithinWindow e room now (skill_gap (room.members ++ c ∷ []))
  eligible-IsAdmissible e room c now h yes' = elim (admissible_lem e room c now h) [
    | inl (a, _) ↦ cc
    | inr (admissible, w) ↦ elim (window_lem e room c now w).2 [
      | inl a ↦ cc
      | inr (within, _) ↦ (admissible, within)
    ]
  ]

  pub eligible-skill_gap :
      (e : Evaluator F) (room : RoomView F) (c : Candidate F) (now : Time) {d : CandidateDecision F}
      → evaluate_candidate e room c now ≡ ok d
      → d.eligible ≡ true
      → d.skill_gap ≡ skill_gap (room.members ++ c ∷ [])
  eligible-skill_gap e room c now h yes' = elim (admissible_lem e room c now h) [
    | inl (a, _) ↦ cc
    | inr (_, w) ↦ (window_lem e room c now w).1
  ]

  -- The candidate that completes a room is eligible only if the room with it is within both hard limits.
  pub eligible_complete :
      (e : Evaluator F) (room : RoomView F) (c : Candidate F) (now : Time) {d : CandidateDecision F}
      → evaluate_candidate e room c now ≡ ok d
      → d.eligible ≡ true
      → room.capacity ≤ℤ pos (length (room.members ++ c ∷ []))
      → (report : FairnessReport F) × (evaluate_fairness e (joined room c) now ≡ ok report)
        × (fl.le (skill_gap (room.members ++ c ∷ [])) room.policy.max_skill_gap ≡ true)
        × (fl.le report.win_probability_spread room.policy.max_win_probability_spread ≡ true)
  eligible_complete e room c now h yes' full = elim (admissible_lem e room c now h) [
    | inl (a, _) ↦ cc
    | inr (admissible, w) ↦ elim (window_lem e room c now w).2 [
      | inl a ↦ cc
      | inr (_, inl room_left) ↦ absurd (omega arith)
      | inr (_, inr (report, judged, within)) ↦
          let (gap, spread) =
            &&-true _ _ (sym (fairness_lem e (joined room c) now judged) ∙ within) in
          (report, judged, gap, spread)
    ]
  ]

  -- A room view that is valid stays valid with an eligible candidate in it.
  pub eligible-validate_room :
      (e : Evaluator F) (room : RoomView F) (c : Candidate F) (now : Time) {d : CandidateDecision F}
      → validate_room room ≡ ok tt
      → evaluate_candidate e room c now ≡ ok d
      → d.eligible ≡ true
      → validate_room (joined room c) ≡ ok tt
  eligible-validate_room e room c now valid h yes' =
      let (a, _) = eligible-IsAdmissible e room c now h yes' in
      validate_room-join room c valid a.room_left
        (record {
          accepted = a.accepted;
          snapshot_in_time = omega arith;
          same_model = a.same_model;
        })
        a.new_ticket a.new_player
