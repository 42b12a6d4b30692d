-- ===== src/Postgres/Tables/Rows.antt =====
-- Reads after writes: what a query finds in rows that were appended or updated.
use solitaire_matchmaking.Base.{
  ◌≡◌, refl, sym, ap, ◌∙◌, Bool, true, false, Option, none, some, List, [], ◌∷◌, ◌++◌, String,
  str_eq, if◌then◌else◌, ok, arith, All, eq_iff,
}
use solitaire_matchmaking.Postgres.Tables.{
  StoredTicket, CommandRow, OutboxEvent, Store, find, update, exists, has_ticket_id,
  load_ticket_by_id, is_command, insert_outbox, insert_command, close_ticket,
}
use solitaire_matchmaking.Tournament.Model.{Ticket}
use solitaire_matchmaking.Tournament.Tickets.{Error}

module _ {ℓ} {A : Type ℓ} where
  pub find_old :
      (p : A → Bool) (xs ys : List A) {a : A} → find p xs ≡ some a → find p (xs ++ ys) ≡ some a
  unfolding find
  find_old p [] ys h = cc
  find_old p (x ∷ xs) ys {a} h = ground (arith, find_old p xs ys {a = a})

  pub find_new :
      (p : A → Bool) (xs : List A) (a : A)
      → exists p xs ≡ false
      → p a ≡ true
      → find p (xs ++ a ∷ []) ≡ some a
  unfolding find exists
  find_new p [] a h k = rw k refl
  find_new p (x ∷ xs) a h k = ground (arith, find_new p xs a)

  pub find-exists : (p : A → Bool) (xs : List A) → find p xs ≡ none → exists p xs ≡ false
  unfolding find exists
  find-exists p [] h = refl
  find-exists p (x ∷ xs) h = ground (arith, find-exists p xs)

  pub find_passes : (p : A → Bool) (xs : List A) {a : A} → find p xs ≡ some a → p a ≡ true
  unfolding find
  find_passes p [] h = cc
  find_passes p (x ∷ xs) {a} h = ground (arith, find_passes p xs {a = a})

  abbrev pub changed_row : (A → Bool) → (A → A) → Option A → Option A
  changed_row q f none = none
  changed_row q f (some x) = some (if q x then f x else x)

  -- An update that keeps the key of each row it changes.
  pub find-update :
      (p q : A → Bool) (f : A → A) (xs : List A)
      → ((x : A) → q x ≡ true → p (f x) ≡ p x)
      → find p (update q f xs) ≡ changed_row q f (find p xs)
  unfolding find update
  find-update p q f [] keeps = refl
  find-update p q f (x ∷ xs) keeps = ground (arith, keeps x, find-update p q f xs keeps)

  pub exists-All : (p : A → Bool) (xs : List A) → exists p xs ≡ false → All (λ x. p x ≡ false) xs
  unfolding exists
  exists-All p [] h = tt
  exists-All p (x ∷ xs) h = (ground arith, exists-All p xs (ground arith))

module _ {F : Type 0} where
  pub insert_outbox-ok :
      {E : Type 0} (e : OutboxEvent) (conflict : E) (s : Store F) {s' : Store F}
      → insert_outbox e conflict s ≡ ok s'
      → s' ≡ record s { outbox = s.outbox ++ e ∷ [] }
  unfolding insert_outbox
  insert_outbox-ok e conflict s h = ground arith

  pub insert_command-ok :
      (c : CommandRow) (conflict : Error) (s : Store F) {s' : Store F}
      → insert_command c conflict s ≡ ok s'
      → (exists (is_command c.ticket_id c.command_id) s.commands ≡ false)
        × (s' ≡ record s { commands = s.commands ++ c ∷ [] })
  unfolding insert_command
  insert_command-ok c conflict s h = ground arith

  -- The ticket with the key of the update is the new one, and the others are as before.
  pub load_ticket-close :
      (id : String) (t : Ticket F) (s : Store F) {old : StoredTicket F}
      → load_ticket_by_id id s ≡ some old
      → load_ticket_by_id id (close_ticket t s)
        ≡ some (
            if str_eq old.ticket.id t.id
            then record old {
              ticket = t;
              claim_token = none;
              claimed_until = none;
              next_attempt_at = none;
            }
            else old)
  unfolding load_ticket_by_id close_ticket
  load_ticket-close id t s h =
      find-update (has_ticket_id id) (has_ticket_id t.id) _ s.tickets
        (λ x e. ap (λ k. str_eq k id) (sym ((eq_iff x.ticket.id t.id).0 e)))
      ∙ ap (changed_row (has_ticket_id t.id) _) h
