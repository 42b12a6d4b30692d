-- ===== src/Postgres/MatchmakingQueue/Leases.antt =====
-- While a lease lasts, no other claim takes its tickets.
use solitaire_matchmaking.Base.{
  ◌≡◌, ◌<◌, inl, inr, refl, sym, ap, ◌∙◌, subst, Bool, true, false, not, ◌&&◌, List, [], ◌∷◌,
  String, contains, if◌then◌else◌, Result, ok, err, arith, Bool-cases, In, All, map, All-map,
  take-All, keep-All, &&-true, >>=-ok, ok_injective,
}
use solitaire_matchmaking.Base.Sort.{sort-All}
use solitaire_matchmaking.Base.Int.{pos_part}
use solitaire_matchmaking.Base.Time.{Time}
use solitaire_matchmaking.Worker.Queue.{
  Error, ClaimRequest, TicketClaim, validate_claim_request, validate_ticket_claim,
}
use solitaire_matchmaking.Postgres.Tables.{StoredTicket, Store}
use solitaire_matchmaking.Postgres.Tables.Keys.{In-update}
use solitaire_matchmaking.Postgres.MatchmakingQueue.{
  ticket_key, is_due_ticket, tried_before, due_tickets, claimed_ticket, is_taken, lease_tickets,
  ticket_claim, scan_tickets, claim_checked, claim_matchmaking_tickets,
}

module _ {F : Type 0} where
  due_tickets-due :
      (locked : String → Bool) (r : ClaimRequest) (s : Store F)
      → All (λ t. (is_due_ticket r.claimed_at t ≡ true) × In t s.tickets) (due_tickets locked r s)
  unfolding due_tickets
  due_tickets-due locked r s =
      let p = λ (t : StoredTicket F). is_due_ticket r.claimed_at t && not (locked (ticket_key t)) in
      All-map (λ t. (p t ≡ true) × In t s.tickets)
        (λ t. (is_due_ticket r.claimed_at t ≡ true) × In t s.tickets) _
        (λ t h. ((&&-true (is_due_ticket r.claimed_at t) (not (locked (ticket_key t))) h.0).0, h.1))
        (take-All (λ t. (p t ≡ true) × In t s.tickets) (pos_part r.limit) _
          (sort-All tried_before _ _ (keep-All p s.tickets)))

  leased_not_due :
      (r : ClaimRequest) (now : Time) (t : StoredTicket F)
      → now < r.lease_until
      → is_due_ticket now (claimed_ticket r t) ≡ false
  unfolding is_due_ticket
  leased_not_due r now t h = ground (arith, h)

  -- A stored ticket that is due after a claim was not among the claimed ones.
  still_due :
      (r : ClaimRequest) (due : List (StoredTicket F)) (s : Store F) (now : Time)
      (t : StoredTicket F)
      → now < r.lease_until
      → In t (lease_tickets r due s).tickets
      → is_due_ticket now t ≡ true
      → is_taken due t ≡ false
  unfolding lease_tickets
  still_due r due s now t before i h =
      let (x, j, e) = In-update (is_taken due) (claimed_ticket r) s.tickets t i in
      elim (Bool-cases (is_taken due x)) [
        | inr n ↦ ap (is_taken due) (e ∙ ap (λ b. if b then claimed_ticket r x else x) n) ∙ n
        | inl y ↦
            let is : t ≡ claimed_ticket r x = e ∙ ap (λ b. if b then claimed_ticket r x else x) y in
            let off = leased_not_due r now x before in
            let on : is_due_ticket now (claimed_ticket r x) ≡ true =
              ap (is_due_ticket now) (sym is) ∙ h in
            cc
      ]

  -- The tickets that are claimed are those of the query, in its order.
  scan_lem :
      (r : ClaimRequest) (due : List (StoredTicket F)) {cs : List (TicketClaim F)}
      → scan_tickets r due ≡ ok cs
      → cs ≡ map (ticket_claim r) due
  unfolding scan_tickets
  scan_lem r [] h = sym (ok_injective h)
  scan_lem r (t ∷ ts) h =
      let (_, _, h₁) = >>=-ok (validate_ticket_claim (ticket_claim r t)) _ h in
      let (cs, rest, last) = >>=-ok (scan_tickets r ts) _ h₁ in
      sym (ok_injective last) ∙ ap (λ c. ticket_claim r t ∷ c) (scan_lem r ts rest)

  claim_checked_lem :
      (locked : String → Bool) (s : Store F) (r : ClaimRequest) (checks : Result Error (Unit {0}))
      {cs : List (TicketClaim F)} {s' : Store F}
      → claim_checked locked s r checks ≡ (ok cs, s')
      → (cs ≡ map (ticket_claim r) (due_tickets locked r s))
        × (s' ≡ lease_tickets r (due_tickets locked r s) s)
  unfolding claim_checked
  claim_checked_lem locked s r (err e) h = cc
  claim_checked_lem locked s r (ok x) h =
      (scan_lem r (due_tickets locked r s) (ap (λ y. y.0) h), sym (ap (λ y. y.1) h))

  claim_ids :
      (r : ClaimRequest) (due : List (StoredTicket F))
      → map (λ c. c.ticket.id) (map (ticket_claim r) due) ≡ map ticket_key due
  claim_ids r [] = refl
  claim_ids r (t ∷ ts) = ap (λ ids. t.ticket.id ∷ ids) (claim_ids r ts)

  All-claims :
      (r : ClaimRequest) (ids : List String) (due : List (StoredTicket F))
      → All (λ t. contains (ticket_key t) ids ≡ false) due
      → All (λ c. contains c.ticket.id ids ≡ false) (map (ticket_claim r) due)
  All-claims r ids [] h = tt
  All-claims r ids (t ∷ ts) (e, h) = (e, All-claims r ids ts h)

  -- Two claims that succeed one after the other, the second before the lease of the first has ended,
  -- take no ticket in common; each ticket that the first one takes was stored, queued, due and
  -- without a live lease at its time.
  pub claim_matchmaking_tickets_once :
      (locked locked' : String → Bool) (s : Store F) (r r' : ClaimRequest)
      {cs cs' : List (TicketClaim F)} {s' s'' : Store F}
      → claim_matchmaking_tickets locked s r ≡ (ok cs, s')
      → claim_matchmaking_tickets locked' s' r' ≡ (ok cs', s'')
      → r'.claimed_at < r.lease_until
      → All (λ c. contains c.ticket.id (map (λ d. d.ticket.id) cs) ≡ false) cs'
        × (cs ≡ map (ticket_claim r) (due_tickets locked r s))
        × All (λ t. (is_due_ticket r.claimed_at t ≡ true) × In t s.tickets) (due_tickets locked r s)
  unfolding claim_matchmaking_tickets
  claim_matchmaking_tickets_once locked locked' s r r' {cs} {cs'} {s'} h k before =
      let due = due_tickets locked r s in
      let (first, stored) = claim_checked_lem locked s r (validate_claim_request r) h in
      let (second, _) = claim_checked_lem locked' s' r' (validate_claim_request r') k in
      let ids : map (λ d. d.ticket.id) cs ≡ map ticket_key due =
        ap (map (λ d. d.ticket.id)) first ∙ claim_ids r due in
      let apart : All (λ t. contains (ticket_key t) (map ticket_key due) ≡ false)
          (due_tickets locked' r' s') =
        All-map (λ t. (is_due_ticket r'.claimed_at t ≡ true) × In t s'.tickets)
          (λ t. contains (ticket_key t) (map ticket_key due) ≡ false) _
          (λ t e.
            still_due r due s r'.claimed_at t before (subst (λ x. In t x.tickets) stored e.1) e.0)
          (due_tickets-due locked' r' s') in
      (
        subst (All (λ c. contains c.ticket.id (map (λ d. d.ticket.id) cs) ≡ false)) (sym second) (
            All-claims r' (map (λ d. d.ticket.id) cs) (due_tickets locked' r' s') (
              subst
                (λ ks. All (λ t. contains (ticket_key t) ks ≡ false) (due_tickets locked' r' s'))
                (sym ids) apart)),
        first,
        due_tickets-due locked r s,
      )
