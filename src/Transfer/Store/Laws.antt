-- ===== src/Transfer/Store/Laws.antt =====
-- What each method of the ticket store does to the row of a ticket, and when it reports success.
use mathlib.Core.Option
use deltix_server.Common.{
  ℕ, ◌≡◌, refl, Bool, ◌&&◌, String, none, some, string_eq, ◌==◌, if◌then◌else◌,
}
use deltix_server.Table.Keys.{
  Unique, meets, lookup-update, won-lookup, update-Unique, lookup-insert, insert-eq-some,
  insert-Unique, lookup-key,
}
use deltix_server.Transfer.Types.{TransferOperation, Ticket, active, closed, expired}
use deltix_server.Transfer.Store.{
  TicketStore, ticket_id, create, get, set_status, set_expires_at, may_activate, may_renew,
  may_close, is_overdue, activate, renew, close, reap_expired,
}

abbrev pub when {ℓ} : {A : Type ℓ} → (A → Bool) → (A → A) → A → A
when p f t = if p t then f t else t

module _ (s : TicketStore) where
  pub get-id : (k : String) {t : Ticket} → get k s ≡ some t → t.id ≡ k
  unfolding get
  get-id k h = lookup-key ticket_id k s h

  pub get-create :
      (t : Ticket) (k : String) {s' : TicketStore}
      → create t s ≡ some s'
      → get k s' ≡ (if t.id == k then some t else get k s)
  unfolding get create
  get-create t k h = lookup-insert ticket_id t s k h

  pub create-free : (t : Ticket) {s' : TicketStore} → create t s ≡ some s' → get t.id s ≡ none
  unfolding get create
  create-free t h = (insert-eq-some ticket_id t s h).0

  pub get-activate :
      (id : String) (op : TransferOperation) (repo : String) (now : ℕ) (k : String)
      → get k (activate id op repo now s).1
        ≡ Option.map
            (when (λ t. t.id == id && may_activate op repo now t) (set_status active))
            (get k s)
  unfolding get activate
  get-activate id op repo now k = lookup-update ticket_id _ _ (λ t. refl) k s

  pub get-renew :
      (id : String) (e now : ℕ) (k : String)
      → get k (renew id e now s).1
        ≡ Option.map (when (λ t. t.id == id && may_renew now t) (set_expires_at e)) (get k s)
  unfolding get renew
  get-renew id e now k = lookup-update ticket_id _ _ (λ t. refl) k s

  pub get-close :
      (id k : String)
      → get k (close id s).1
        ≡ Option.map (when (λ t. t.id == id && may_close t) (set_status closed)) (get k s)
  unfolding get close
  get-close id k = lookup-update ticket_id _ _ (λ t. refl) k s

  pub get-reap_expired :
      (now : ℕ) (k : String)
      → get k (reap_expired now s).1
        ≡ Option.map (when (is_overdue now) (set_status expired)) (get k s)
  unfolding get reap_expired
  get-reap_expired now k = lookup-update ticket_id _ _ (λ t. refl) k s

module _ (s : TicketStore) (u : Unique ticket_id s) where
  pub activate-won :
      (id : String) (op : TransferOperation) (repo : String) (now : ℕ)
      → (activate id op repo now s).0 ≡ meets (may_activate op repo now) (get id s)
  unfolding get activate
  activate-won id op repo now = won-lookup ticket_id _ id s u

  pub renew-won :
      (id : String) (e now : ℕ) → (renew id e now s).0 ≡ meets (may_renew now) (get id s)
  unfolding get renew
  renew-won id e now = won-lookup ticket_id _ id s u

  pub close-won : (id : String) → (close id s).0 ≡ meets may_close (get id s)
  unfolding get close
  close-won id = won-lookup ticket_id _ id s u

  pub create-Unique : (t : Ticket) {s' : TicketStore} → create t s ≡ some s' → Unique ticket_id s'
  unfolding create
  create-Unique t h = insert-Unique ticket_id t s u h

  pub activate-Unique :
      (id : String) (op : TransferOperation) (repo : String) (now : ℕ)
      → Unique ticket_id (activate id op repo now s).1
  unfolding activate
  activate-Unique id op repo now = update-Unique ticket_id _ _ (λ t. refl) s u

  pub renew-Unique : (id : String) (e now : ℕ) → Unique ticket_id (renew id e now s).1
  unfolding renew
  renew-Unique id e now = update-Unique ticket_id _ _ (λ t. refl) s u

  pub close-Unique : (id : String) → Unique ticket_id (close id s).1
  unfolding close
  close-Unique id = update-Unique ticket_id _ _ (λ t. refl) s u

  pub reap_expired-Unique : (now : ℕ) → Unique ticket_id (reap_expired now s).1
  unfolding reap_expired
  reap_expired-Unique now = update-Unique ticket_id _ _ (λ t. refl) s u
