-- ===== src/Storage/Pull.antt =====
-- contexts/storage/pull-session-handler.ts: one pull. The NAS tells the chunks that a read of a path
-- gives and whether it ended well, or that there is no such file.
use deltix_server.Common.{
  ℕ, ◌≡◌, ◌⊎◌, refl, Bool, String, List, [], Option, none, some, string_eq, if◌then◌else◌, Result,
  ok, err, arith, eq_iff, inl, inr, Result-cases,
}
use deltix_server.Table.Keys.{Unique}
use deltix_server.Transfer.Types.{pull, Ticket, active, closed, TransferError}
use deltix_server.Transfer.Store.{TicketStore, ticket_id, get, set_status}
use deltix_server.Transfer.Store.Laws.{get-id, get-close}
use deltix_server.Transfer.Service.{RepoRoleVerifier, consume_ticket, close_ticket}
use deltix_server.Transfer.Service.Consume.{
  Consumable, consume_ticket-ok_iff, consume_ticket-Refused,
}
use deltix_server.Transfer.Service.Issue.{consume_ticket-activates}
use deltix_server.Storage.Push.{Bytes}

pub data PullError : Type 0 where
  pull_ticket_rejected : TransferError → PullError
  pull_not_found read_failed : PullError

abbrev pub NasFiles : Type 0
NasFiles = String → Option (List Bytes × Bool)

-- The chunks that were yielded and how the stream ended.
abbrev pub PullReply : Type 0
PullReply = List Bytes × Result PullError (Unit {0})

abbrev pub read_all : Option (List Bytes × Bool) → PullReply
read_all none = ([], err pull_not_found)
read_all (some (chunks, whole)) = (chunks, if whole then ok tt else err read_failed)

unfoldable pub stream :
    Option RepoRoleVerifier
    → NasFiles
    → (path_of : String → String) → ℕ
    → (ticket_id repo : String) → TicketStore
    → PullReply × TicketStore
stream verify nas path_of now id repo s =
    let (r, t) = consume_ticket verify now id pull repo s in
    elim r [
      | err e ↦ (([], err (pull_ticket_rejected e)), t)
      | ok _ ↦ (read_all (nas (path_of repo)), (close_ticket id t).1)
    ]

module _ (verify : Option RepoRoleVerifier) (nas : NasFiles) (path_of : String → String) (now : ℕ)
    (id repo : String) (s : TicketStore) (u : Unique ticket_id s) where
  close-activated :
      (t : Ticket)
      → get id s ≡ some t
      → (consume_ticket verify now id pull repo s).0 ≡ ok (set_status active t)
      → get id (close_ticket id (consume_ticket verify now id pull repo s).1).1
        ≡ some (set_status closed t)
  unfolding close_ticket
  close-activated t found won = ground (
    arith,
    consume_ticket-activates verify now id pull repo s t found won u,
    get-close (consume_ticket verify now id pull repo s).1 id id,
    get-id s id found,
    eq_iff t.id id,
  )

  -- Where ticket ids are unique, a pull either spends a stored ticket that could be consumed for a
  -- pull of the repo, and leaves it closed whatever the NAS answers; or it is refused with the
  -- ticket's error, has yielded nothing, and leaves every ticket as it was.
  pub stream_spends_or_refuses :
      let (reply, s') = stream verify nas path_of now id repo s in
      ((t : Ticket) × (get id s ≡ some t)
        × Consumable verify now pull repo t
        × (reply ≡ read_all (nas (path_of repo)))
        × (get id s' ≡ some (set_status closed t)))
      ⊎ ((e : TransferError) × (reply ≡ ([], err (pull_ticket_rejected e)))
          × ((k : String) → get k s' ≡ get k s))
  unfolding stream
  stream_spends_or_refuses = elim (Result-cases (consume_ticket verify now id pull repo s).0) [
    | inr (e, refused) ↦ inr (
      e,
      ground (arith, refused),
      λ k.
          ground
            (arith, refused, (consume_ticket-Refused verify now id pull repo s u e refused).1 k),
    )
    | inl (t', consumed) ↦
        let (t, found, same, fit) =
          (consume_ticket-ok_iff verify now id pull repo s u t').0 consumed in
        let won =
          (consume_ticket-ok_iff verify now id pull repo s u (set_status active t)).1
            (t, found, refl, fit) in
        inl (
          t,
          found,
          fit,
          ground (arith, consumed),
          ground (arith, consumed, close-activated t found won),
        )
  ]
