-- ===== src/Postgres/Tickets/Claims.antt =====
-- The claim on a stored ticket (internal/postgres/tickets.go, `ownsActiveClaim`), as facts on its columns.
use solitaire_matchmaking.Base.{
  ◌≡◌, ◌<◌, inl, inr, refl, ap, ◌∙◌, true, ◌&&◌, some, List, [], ◌∷◌, String, str_eq, arith,
  Bool-cases, Option-cases, In, eq_iff,
}
use solitaire_matchmaking.Base.Time.{Time, after}
use solitaire_matchmaking.Tournament.Model
use solitaire_matchmaking.Tournament.Model.{TicketStatus, queued}
use solitaire_matchmaking.Tournament.Tickets.{is_queued}
use solitaire_matchmaking.Postgres.Tables.{
  StoredTicket, Store, find, has_ticket_id, load_ticket_by_id,
}
use solitaire_matchmaking.Postgres.Tickets.{owns_active_claim}

-- A ticket that waits in the queue under a lease of the token that ends after `clock`.
abbrev pub IsHeld : {F : Type 0} → StoredTicket F → (token : String) → (clock : Time) → Type 0
IsHeld t token clock =
    (t.ticket.status ≡ queued)
    × (t.claim_token ≡ some token)
    × ((until : Time) × (t.claimed_until ≡ some until) × (clock < until))

pub queued_lem : (s : TicketStatus) → is_queued s ≡ true → s ≡ queued
queued_lem queued h = refl
queued_lem Model.assigned h = cc
queued_lem Model.cancelled h = cc
queued_lem Model.expired h = cc
queued_lem (Model.other x) h = cc

module _ {F : Type 0} where
  pub owned_lem :
      (t : StoredTicket F) (token : String) (clock : Time)
      → is_queued t.ticket.status ≡ true
      → owns_active_claim t token clock ≡ true
      → IsHeld t token clock
  unfolding owns_active_claim
  owned_lem t token clock q h = elim (Option-cases t.claim_token) [
    | inl n ↦ let k = rw n at h in cc
    | inr (held, e) ↦ elim (Option-cases t.claimed_until) [
      | inl n ↦ let k = rw (e, n) at h in cc
      | inr (until, f) ↦
          let k : (str_eq held token && after until clock) ≡ true = rw (e, f) at h in
          (
            queued_lem t.ticket.status q,
            e ∙ ap some ((eq_iff held token).0 (ground (arith, k))),
            (until, f, ground (arith, k)),
          )
    ]
  ]

  found-In :
      (id : String) (rows : List (StoredTicket F)) {t : StoredTicket F}
      → find (has_ticket_id id) rows ≡ some t
      → In t rows × (t.ticket.id ≡ id)
  unfolding find
  found-In id [] h = cc
  found-In id (x ∷ rows) {t} h = elim (Bool-cases (has_ticket_id id x)) [
    | inl y ↦
        let same : t ≡ x = ground (arith, y) in
        (inl same, ap (λ z. z.ticket.id) same ∙ (eq_iff x.ticket.id id).0 y)
    | inr n ↦ let (i, e) = found-In id rows (ground (arith, n)) in (inr i, e)
  ]

  pub load_ticket-In :
      (id : String) (s : Store F) {t : StoredTicket F}
      → load_ticket_by_id id s ≡ some t
      → In t s.tickets × (t.ticket.id ≡ id)
  unfolding load_ticket_by_id
  load_ticket-In id s h = found-In id s.tickets h
