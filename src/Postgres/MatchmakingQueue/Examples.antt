-- ===== src/Postgres/MatchmakingQueue/Examples.antt =====
-- Two claims on the tickets of the store, and a cycle of the worker.
use solitaire_matchmaking.Base.{
  ℕ, ◌⊎◌, ◌+◌, ◌≡◌, refl, Bool, true, false, Option, some, [], ◌∷◌, String, ok, err, arith, All, In,
  contains, map,
}
use solitaire_matchmaking.Base.Int.{pos, saturate_int64}
use solitaire_matchmaking.Base.Sort.{sort, insert}
use solitaire_matchmaking.Base.Float.Fixed.{Fixed, milli, fixed}
use solitaire_matchmaking.Base.Time.{Time, since}
use solitaire_matchmaking.Rating.Types
use solitaire_matchmaking.Worker.Queue.{
  ClaimRequest, TicketClaim, validate_claim_request, validate_ticket_claim,
}
use solitaire_matchmaking.Worker.Processor.{WorkHash, ModelBuilder}
use solitaire_matchmaking.Postgres.Tables.{Store, update}
use solitaire_matchmaking.Postgres.Examples.{digest_of, ticket_of, store}
use solitaire_matchmaking.Postgres.MatchmakingQueue.{
  PolicyDefinition, is_due_ticket, tried_before, due_tickets, lease_tickets, ticket_claim,
  scan_tickets, claim_checked, claim_matchmaking_tickets,
}
use solitaire_matchmaking.Postgres.MatchmakingQueue.Leases.{claim_matchmaking_tickets_once}
use solitaire_matchmaking.Postgres.Matching.{handle_stored}
use solitaire_matchmaking.Postgres.Matching.Fenced.{decided, Carries, handle_fenced}
use solitaire_matchmaking.Matchmaking.Orchestration.{MatchAttemptResult}

abbrev none_locked : String → Bool
none_locked id = false

abbrev request : String → Time → ℕ → ClaimRequest
request token at limit = record {
  token = token;
  limit = pos limit;
  claimed_at = at;
  lease_until = at + 100;
}

abbrev claim_of : String → String → String → Time → TicketClaim Fixed
claim_of id player token until = record {
  ticket = ticket_of id player;
  token = token;
  attempt = 2;
  lease_until = until;
}

abbrev after_first : Store Fixed
after_first = (claim_matchmaking_tickets none_locked store (request "v" 100 1)).1

abbrev after_second : Store Fixed
after_second = (claim_matchmaking_tickets none_locked after_first (request "w" 150 5)).1

first_claim :
    claim_matchmaking_tickets none_locked store (request "v" 100 1)
    ≡ (ok (claim_of "t1" "ann" "v" 200 ∷ []), after_first)
unfolding claim_matchmaking_tickets claim_checked validate_claim_request since saturate_int64
    due_tickets is_due_ticket tried_before sort insert scan_tickets validate_ticket_claim
    lease_tickets update
first_claim = refl

second_claim :
    claim_matchmaking_tickets none_locked after_first (request "w" 150 5)
    ≡ (ok (claim_of "t2" "bob" "w" 250 ∷ []), after_second)
unfolding claim_matchmaking_tickets claim_checked validate_claim_request since saturate_int64
    due_tickets is_due_ticket tried_before sort insert scan_tickets validate_ticket_claim
    lease_tickets update
second_claim = refl

claim_matchmaking_tickets_once_example :
    All (λ c. contains c.ticket.id ("t1" ∷ []) ≡ false) (claim_of "t2" "bob" "w" 250 ∷ [])
    × ((claim_of "t1" "ann" "v" 200 ∷ [])
        ≡ map
            (ticket_claim (request "v" 100 1))
            (due_tickets none_locked (request "v" 100 1) store))
    × All
        (λ t. (is_due_ticket 100 t ≡ true) × In t store.tickets)
        (due_tickets none_locked (request "v" 100 1) store)
claim_matchmaking_tickets_once_example =
    claim_matchmaking_tickets_once none_locked none_locked store (request "v" 100 1)
      (request "w" 150 5) first_claim second_claim (omega arith)

abbrev definition : PolicyDefinition Fixed
definition = record {
  initial_skill_gap = milli 100;
  max_skill_gap = milli 400;
  max_win_probability_spread = milli 1;
  expansion_interval_ms = pos 1000;
  fill_timeout_ms = pos 60000;
  age_priority_after_ms = pos 0;
  candidate_limit = pos 10;
  room_limit = pos 10;
  prefer_nearly_full = true;
}

abbrev decode : String → Option (PolicyDefinition Fixed)
decode text = some definition

abbrev with_policy : Store Fixed
with_policy = record store {
  policies =
      record { policy_version = "policy-1"; rating_model_version = "model-1"; definition = "{}" }
      ∷ [];
}

abbrev hashed : WorkHash
hashed kind id attempt = id

abbrev even : ModelBuilder Fixed
even version = some (record { predict = λ r. err Types.participant_count })

abbrev clock : String → Time
clock id = 55

-- The claim of a worker, which it handles on the store with a policy.
abbrev claim_t1 : TicketClaim Fixed
claim_t1 = claim_of "t1" "ann" "worker" 100

abbrev after_handling : Store Fixed
after_handling =
    (handle_stored digest_of decode none_locked clock hashed even (pos 5) with_policy claim_t1 50).1

handle_fenced_example :
    (after_handling ≡ with_policy)
    ⊎ ((r : MatchAttemptResult Fixed) × (decided digest_of decode none_locked clock hashed even
            (pos 5)
            with_policy
            claim_t1
            50
          ≡ ok r)
        × Carries digest_of decode none_locked clock hashed even
            (pos 5)
            with_policy
            claim_t1
            r
            after_handling)
handle_fenced_example =
    handle_fenced digest_of decode none_locked clock hashed even (pos 5) with_policy claim_t1 50
