-- ===== src/Postgres/Tickets/Acceptance.antt =====
-- An acceptance repeated after it has succeeded.
use solitaire_matchmaking.Base.{
  ◌≡◌, inl, inr, refl, ap, ◌∙◌, Bool, true, false, ◌||◌, some, List, [], ◌∷◌, ◌++◌, String,
  if◌then◌else◌, Result, ok, ◌>>=◌, arith, Bool-cases, str_eq_refl, >>=-ok, subst,
}
use solitaire_matchmaking.Base.Float.{Float}
use solitaire_matchmaking.Tournament.Tickets.{
  AcceptTicketCommand, TicketMutation, Digest, accept_digest, Error,
}
use solitaire_matchmaking.Postgres.Tables.{
  StoredTicket, Store, find, exists, has_ticket_id, has_entry_id, load_ticket_by_entry,
}
use solitaire_matchmaking.Postgres.Tables.Rows.{find_new}
use solitaire_matchmaking.Postgres.Tickets.{
  accept_ticket, accept_in_transaction, insert_ticket, replay_acceptance, accepted_row, replayed,
  transact,
}
use solitaire_matchmaking.Postgres.Tickets.Life.{inserted_lem, replayed_lem}
use solitaire_matchmaking.Postgres.Tickets.Fencing.{transact-ok}

exists_new :
    {A : Type 0} (p : A → Bool) (xs : List A) (a : A) → p a ≡ true → exists p (xs ++ a ∷ []) ≡ true
unfolding exists
exists_new p [] a h = rw h refl
exists_new p (x ∷ xs) a h = ground (arith, exists_new p xs a h)

module _ {F : Type 0} where
  -- The ticket or the entry is in the store.
  abbrev taken : Store F → AcceptTicketCommand F → Bool
  taken s c =
      exists (has_ticket_id c.ticket.id) s.tickets
      || exists (has_entry_id c.ticket.entry_id) s.tickets

module _ {F : Type 0} ⦃fl : Float F⦄ (sha256 : Digest F) where
  eta_lem :
      (m : TicketMutation F)
      → m.replay ≡ true
      → m.changed ≡ false
      → m ≡ record { ticket = m.ticket; changed = false; replay = true }
  eta_lem m r c =
      ap (λ x. record { ticket = m.ticket; changed = x; replay = m.replay }) c
      ∙ ap (λ x. record { ticket = m.ticket; changed = false; replay = x }) r

  found_lem :
      (s : Store F) (digest : String) (stored : StoredTicket F)
      → stored.request_digest ≡ digest
      → replay_acceptance sha256 s digest (some stored) ≡ ok (replayed stored.ticket, s)
  unfolding replay_acceptance
  found_lem s digest stored e = simp (e, str_eq_refl digest)

  answered_lem :
      (s : Store F) (c : AcceptTicketCommand F) (digest : String)
      → accept_digest sha256 c ≡ ok digest
      → taken s c ≡ true
      → accept_in_transaction sha256 s c
        ≡ replay_acceptance sha256 s digest (load_ticket_by_entry c.ticket.entry_id s)
  unfolding accept_in_transaction
  answered_lem s c digest known y = rw (known, y) refl

  -- The row that was inserted answers the repetition.
  inserted-again :
      (s : Store F) (c : AcceptTicketCommand F) (digest : String) {m : TicketMutation F}
      {s' : Store F}
      → accept_digest sha256 c ≡ ok digest
      → taken s c ≡ false
      → insert_ticket sha256 s c digest ≡ ok (m, s')
      → accept_in_transaction sha256 s' c ≡ ok (replayed m.ticket, s')
  unfolding load_ticket_by_entry
  inserted-again s c digest {m} {s'} known n r =
      let (_, ticket, rows) = inserted_lem sha256 s c digest r in
      let row = accepted_row sha256 m.ticket digest in
      let no_entry : exists (has_entry_id c.ticket.entry_id) s.tickets ≡ false =
        ground (arith, n) in
      let same_id : has_ticket_id c.ticket.id row ≡ true = rw ticket (str_eq_refl c.ticket.id) in
      let same_entry : has_entry_id c.ticket.entry_id row ≡ true =
        rw ticket (str_eq_refl c.ticket.entry_id) in
      let there : exists (has_ticket_id c.ticket.id) s'.tickets ≡ true =
        ap (exists (has_ticket_id c.ticket.id)) rows
        ∙ exists_new (has_ticket_id c.ticket.id) s.tickets row same_id in
      let entry : find (has_entry_id c.ticket.entry_id) s'.tickets ≡ some row =
        ap (find (has_entry_id c.ticket.entry_id)) rows
        ∙ find_new (has_entry_id c.ticket.entry_id) s.tickets row no_entry same_entry in
      answered_lem s' c digest known (rw there refl)
      ∙ ap (replay_acceptance sha256 s' digest) entry
      ∙ found_lem s' digest row refl

  opened_lem :
      (s : Store F) (c : AcceptTicketCommand F) {r : Result Error (TicketMutation F × Store F)}
      → accept_in_transaction sha256 s c ≡ r
      → (accept_digest sha256 c >>= (λ d.
          if taken s c
          then replay_acceptance sha256 s d (load_ticket_by_entry c.ticket.entry_id s)
          else insert_ticket sha256 s c d))
        ≡ r
  unfolding accept_in_transaction
  opened_lem s c h = h

  accepted_lem :
      (s : Store F) (c : AcceptTicketCommand F) {m : TicketMutation F} {s' : Store F}
      → accept_in_transaction sha256 s c ≡ ok (m, s')
      → accept_in_transaction sha256 s' c ≡ ok (replayed m.ticket, s')
  accepted_lem s c {m} {s'} r =
      let (digest, known, rest) =
        >>=-ok (accept_digest sha256 c)
          (λ d.
            if taken s c
            then replay_acceptance sha256 s d (load_ticket_by_entry c.ticket.entry_id s)
            else insert_ticket sha256 s c d)
          (opened_lem s c r) in
      elim (Bool-cases (taken s c)) [
        | inl y ↦
            let (same, replay, changed) =
              replayed_lem sha256 s digest (load_ticket_by_entry c.ticket.entry_id s) (
                subst
                  (λ b.
                    (if b
                      then replay_acceptance sha256 s digest
                          (load_ticket_by_entry c.ticket.entry_id s)
                      else insert_ticket sha256 s c digest)
                    ≡ ok (m, s'))
                  y rest) in
            ap (λ x. accept_in_transaction sha256 x c) same
            ∙ r
            ∙ ap (λ x. ok (x, s')) (eta_lem m replay changed)
        | inr n ↦ inserted-again s c digest known n (
            subst
              (λ b.
                (if b
                  then replay_acceptance sha256 s digest (load_ticket_by_entry c.ticket.entry_id s)
                  else insert_ticket sha256 s c digest)
                ≡ ok (m, s'))
              n rest)
      ]

  -- An acceptance that has succeeded succeeds again from the store that it left: the repetition
  -- returns the ticket of the first result, marked as a replay without a change, and leaves the store
  -- as it is.
  pub accept_ticket_twice :
      (s : Store F) (c : AcceptTicketCommand F) {m : TicketMutation F} {s' : Store F}
      → accept_ticket sha256 s c ≡ (ok m, s')
      → accept_ticket sha256 s' c
        ≡ (ok (record { ticket = m.ticket; changed = false; replay = true }), s')
  unfolding accept_ticket
  accept_ticket_twice s c {m} {s'} h = ap (transact s') (accepted_lem s c (transact-ok s _ h))
