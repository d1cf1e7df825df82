-- ===== src/Transfer/Race/Amid.antt =====
-- `TicketService.consumeTicket` among other requests: the calls of others that the database runs
-- between its first read and its activation, and between the activation and its last read.
use deltix_server.Common.{
  ℕ, ◌≡◌, ◌≢◌, true, String, List, [], Option, some, inl, inr, string_eq, arith, eq_iff, ok, err,
  Bool-cases,
}
use deltix_server.Table.Keys.{Unique}
use deltix_server.Transfer.Types.{
  TransferOperation, issued, active, Ticket, status_beq_iff, operation_beq_iff,
}
use deltix_server.Transfer.Store.{TicketStore, ticket_id, get, activate}
use deltix_server.Transfer.Store.Laws.{get-id, get-activate, activate-won}
use deltix_server.Transfer.Service.{
  Reply, RepoRoleVerifier, consume_check, consume_outcome, consume_ticket,
}
use deltix_server.Transfer.Service.Consume.{Allowed, assert_role_iff}
use deltix_server.Transfer.Race.{StoreCall, exec_all}
use deltix_server.Transfer.Race.Lifecycle.{exec_all-Evolves, exec_all-Unique}

unfoldable pub consume_amid :
    Option RepoRoleVerifier
    → ℕ
    → String
    → TransferOperation
    → String
    → (before after : List StoreCall) → TicketStore
    → Reply Ticket × TicketStore
consume_amid verify now id op repo before after s = elim (consume_check verify id op repo s) [
  | err e ↦ (err e, exec_all before s)
  | ok _ ↦
      let (activated, s') = activate id op repo now (exec_all before s) in
      (consume_outcome activated now id op repo (exec_all after s'), exec_all after s')
]

-- With nobody else at work it is `consume_ticket`.
pub consume_amid-nil :
    (verify : Option RepoRoleVerifier) (now : ℕ) (id : String) (op : TransferOperation)
    (repo : String) (s : TicketStore)
    → consume_amid verify now id op repo [] [] s ≡ consume_ticket verify now id op repo s
unfolding consume_amid consume_ticket exec_all
consume_amid-nil verify now id op repo s = ground arith

module _ (verify : Option RepoRoleVerifier) (now : ℕ) (id : String) (op : TransferOperation)
    (repo : String) (before after : List StoreCall) (s : TicketStore) (u : Unique ticket_id s)
    (t : Ticket) (found : get id s ≡ some t) where
  -- What the activation did, whatever came before it.
  won-matches :
      (v : Ticket)
      → get id (exec_all before s) ≡ some v
      → (activate id op repo now (exec_all before s)).0 ≡ true
      → (v.operation ≡ op)
        × (v.repo ≡ repo)
        × (v.status ≡ issued)
        × (get id (activate id op repo now (exec_all before s)).1
            ≡ some (record v { status = active }))
  won-matches v e won =
      let u' = exec_all-Unique before s u in
      ground (
        arith,
        activate-won (exec_all before s) u' id op repo now,
        get-activate (exec_all before s) id op repo now id,
        get-id (exec_all before s) id e,
        eq_iff v.id id,
        eq_iff v.repo repo,
        operation_beq_iff v.operation op,
        status_beq_iff v.status issued,
      )

  -- From a table with unique ids that holds the ticket, whatever other requests do meanwhile, a
  -- consumption that succeeds returns the ticket with the id and the user that it was stored with, for the operation and the repo asked for, no longer unused, and the role of its
  -- owner sufficed when it was checked.
  pub consume_amid_sound :
      (t' : Ticket)
      → (consume_amid verify now id op repo before after s).0 ≡ ok t'
      → (t'.id ≡ id)
        × (t'.username ≡ t.username)
        × (t'.operation ≡ op)
        × (t'.repo ≡ repo)
        × (t'.status ≢ issued)
        × Allowed verify t.username op repo
  unfolding consume_amid consume_outcome consume_check
  consume_amid_sound t' h =
      let (v, e, a) = exec_all-Evolves id before s t found in
      elim (Bool-cases (activate id op repo now (exec_all before s)).0) [
        | inl won ↦
            let m = won-matches v e won in
            let (w, e', b) = exec_all-Evolves id after _ _ m.3 in
            ground (
              arith,
              assert_role_iff verify t.username op repo,
              get-id s id found,
              a.same_username,
              a.same_operation,
              a.same_repo,
              a.same_id,
              b.same_username,
              b.same_operation,
              b.same_repo,
              b.same_id,
              b.advanced,
              m.0,
              m.1,
              e,
              e',
              eq_iff t.repo repo,
              operation_beq_iff t.operation op,
            )
        | inr lost ↦ absurd (ground arith)
      ]
