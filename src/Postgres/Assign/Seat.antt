-- ===== src/Postgres/Assign/Seat.antt =====
-- The seat that a new assignment takes.
use solitaire_matchmaking.Base.{
  ℕ, zero, suc, ◌+◌, ◌≤◌, ◌<◌, ◌≡◌, inl, inr, true, false, ◌==◌, some, List, String, arith,
  Bool-cases,
}
use solitaire_matchmaking.Postgres.Tables.{MembershipRow}
use solitaire_matchmaking.Postgres.Assignment.{free_seat, seat_taken}

-- The seat of the search is free, in its range, and the first of it.
pub free_seat_lem :
    (room_id : String) (ms : List MembershipRow) (left candidate : ℕ) {seat : ℕ}
    → free_seat room_id ms left candidate ≡ some seat
    → (candidate ≤ seat) × (seat < candidate + left) × (seat_taken room_id seat ms ≡ false)
unfolding free_seat
free_seat_lem room_id ms zero candidate h = cc
free_seat_lem room_id ms (suc left) candidate {seat} h =
    elim (Bool-cases (seat_taken room_id candidate ms)) [
      | inl y ↦
          let (a, b, e) = free_seat_lem room_id ms left (candidate + 1) (rw (free_seat, y) at h) in
          (omega (arith, a), omega (arith, b), e)
      | inr n ↦ let e = rw (free_seat, n) at h in ground (arith, n, e)
    ]

pub lower_taken :
    (room_id : String) (ms : List MembershipRow) (left candidate : ℕ) {seat : ℕ} (k : ℕ)
    → free_seat room_id ms left candidate ≡ some seat
    → candidate ≤ k
    → k < seat
    → seat_taken room_id k ms ≡ true
unfolding free_seat
lower_taken room_id ms zero candidate k h a b = cc
lower_taken room_id ms (suc left) candidate {seat} k h a b =
    elim (Bool-cases (seat_taken room_id candidate ms)) [
      | inl y ↦ elim (Bool-cases (candidate == k)) [
        | inl e ↦ ground (arith, e, y)
        | inr n ↦
            lower_taken room_id ms left (candidate + 1) k (rw (free_seat, y) at h)
              (ground (arith, n, a)) b
      ]
      | inr n ↦ let e = rw (free_seat, n) at h in absurd (ground (arith, e))
    ]
