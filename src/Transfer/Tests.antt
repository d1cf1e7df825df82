-- ===== src/Transfer/Tests.antt =====
-- Runs of the transfer context on concrete tickets.
use deltix_server.Common.{
  ◌<◌, ℕ, ◌≤◌, ◌≡◌, ◌≢◌, ◌↔◌, refl, String, List, [], ◌∷◌, none, some, string_eq, ◌==◌,
  if◌then◌else◌, ok, err,
}
use deltix_server.Transfer.Router.{
  issue_for, TokenVerifier, IssueTicketBody, created, authenticate, post_push_ticket,
  created_ticket_is_allowed,
}
use deltix_server.Transfer.Service.{
  assert_role_still_sufficient, consume_check, consume_outcome, role_sufficient, RepoRoleVerifier,
  minimum_role, new_ticket, consume_ticket, renew_ticket, issue_ticket,
}
use deltix_server.Table.{affected, update, find}
use deltix_server.Transfer.Store.{
  create, reap_expired, TicketStore, ticket_id, get, activate, renew, set_status, set_expires_at,
}
use deltix_server.Table.Keys.{insert, Unique}
use deltix_server.Auth.Users.{UserStore, get_repo_role}
use deltix_server.Transfer.Race.{
  exec, wins, StoreCall, activates, renews, closes, reaps, exec_all, count_wins, activated_once,
}
use deltix_server.Auth.Roles.{reader, writer, role_rank}
use deltix_server.Transfer.Types.{
  push, pull, Ticket, TicketStatus, issued, active, closed, ticket_not_found, ticket_expired,
}
use deltix_server.Transfer.Service.Consume.{Allowed, Consumable, consume_ticket-ok_iff}
use deltix_server.Transfer.Race.Lifecycle.{Evolves, exec_all-Evolves}
use deltix_server.Transfer.Race.Amid.{consume_amid, consume_amid_sound}

abbrev ticket : TicketStatus → Ticket
ticket st = record {
  id = "t1";
  username = "ana";
  operation = push;
  repo = "r";
  status = st;
  issued_at = 1000;
  expires_at = 61_000;
  sync_options = none;
}

abbrev other : Ticket
other = new_ticket 60 500 500 "t2" "bob" pull "r" none

abbrev tickets : TicketStatus → TicketStore
tickets st = ticket st ∷ other ∷ []

tickets-Unique : (st : TicketStatus) → Unique ticket_id (tickets st)
unfolding find
tickets-Unique st = (refl, (refl, tt))

-- Ana writes to `r`, Bob reads it.
abbrev roles : RepoRoleVerifier
roles username repo =
    if username == "ana" then some writer else if username == "bob" then some reader else none

consume_ticket-ok_iff_example :
    ((consume_ticket (some roles) 2000 "t1" push "r" (tickets issued)).0 ≡ ok (ticket active)) ↔ (
      (t : Ticket) × (get "t1" (tickets issued) ≡ some t)
      × (ticket active ≡ set_status active t)
      × Consumable (some roles) 2000 push "r" t)
consume_ticket-ok_iff_example =
    consume_ticket-ok_iff (some roles) 2000 "t1" push "r" (tickets issued) (tickets-Unique issued)
      (ticket active)

refused_late :
    (consume_ticket (some roles) 61_000 "t1" push "r" (tickets issued)).0 ≡ err ticket_expired
unfolding consume_ticket consume_check get find assert_role_still_sufficient role_sufficient
    role_rank minimum_role consume_outcome activate affected update
refused_late = refl

stored : (st : TicketStatus) → get "t1" (tickets st) ≡ some (ticket st)
unfolding get find
stored st = refl

declined : (renew_ticket none 60 2000 "t1" (tickets closed)).0 ≡ err ticket_not_found
unfolding renew_ticket get find assert_role_still_sufficient renew affected update
declined = refl

issued_now : (issue_ticket 60 500 500 "t2" "bob" pull "r" none []).0 ≡ ok other
unfolding issue_ticket create insert find
issued_now = refl

abbrev history : List StoreCall
history =
    activates "t1" pull "r" 1500
    ∷ activates "t1" push "r" 1600
    ∷ activates "t1" push "r" 1600
    ∷ renews "t1" 70_000 1700
    ∷ closes "t1"
    ∷ reaps 90_000
    ∷ []

counts_one : count_wins "t1" history (tickets issued) ≡ 1
unfolding count_wins wins activate affected exec update
counts_one = refl

activated_once_example :
    (count_wins "t1" history (tickets issued) ≤ 1)
    × ((t : Ticket)
        → get "t1" (tickets issued) ≡ some t
        → t.status ≢ issued
        → count_wins "t1" history (tickets issued) ≡ 0)
activated_once_example = activated_once "t1" history (tickets issued) (tickets-Unique issued)

exec_all-Evolves_example :
    (t : Ticket) × (get "t1" (exec_all history (tickets issued)) ≡ some t)
    × Evolves (ticket issued) t
exec_all-Evolves_example =
    exec_all-Evolves "t1" history (tickets issued) (ticket issued) (stored issued)

amid :
    (consume_amid
      (some roles)
      2000
      "t1"
      push
      "r"
      (reaps 1500 ∷ [])
      (renews "t1" 70_000 2100 ∷ [])
      (tickets issued)).0
    ≡ ok (set_expires_at 70_000 (ticket active))
unfolding consume_amid consume_check get find assert_role_still_sufficient role_sufficient role_rank
    minimum_role consume_outcome activate affected exec_all exec reap_expired update renew
amid = refl

consume_amid_sound_example :
    let t = set_expires_at 70_000 (ticket active) in
    (t.id ≡ "t1")
    × (t.username ≡ "ana")
    × (t.operation ≡ push)
    × (t.repo ≡ "r")
    × (t.status ≢ issued)
    × Allowed (some roles) "ana" push "r"
consume_amid_sound_example =
    consume_amid_sound (some roles) 2000 "t1" push "r" (reaps 1500 ∷ [])
      (renews "t1" 70_000 2100 ∷ []) (tickets issued) (tickets-Unique issued) (ticket issued)
      (stored issued) (set_expires_at 70_000 (ticket active)) amid

abbrev tokens : TokenVerifier
tokens token =
    if token == "jwt-ana" then some "ana" else if token == "jwt-eve" then some "eve" else none

abbrev body : IssueTicketBody
body = record { operation = push; repo = "r"; sync = none }

abbrev db : UserStore
db = record {
  users = [];
  repo_roles =
      record { username = "ana"; repo_id = "r"; role = writer; granted_at = 0; granted_by = "ana" }
      ∷ [];
}

abbrev fresh : Ticket
fresh = new_ticket 60 500 500 "t3" "ana" push "r" none

was_created :
    (post_push_ticket tokens 60 500 500 "t3" (some "jwt-ana") (some body) db []).0 ≡ created fresh
unfolding post_push_ticket authenticate issue_for role_sufficient get_repo_role find role_rank
    minimum_role issue_ticket create insert
was_created = refl

created_ticket_is_allowed_example :
    (username : String) × (b : IssueTicketBody) × (authenticate tokens (some "jwt-ana")
      ≡ some username)
    × (some body ≡ some b)
    × (fresh.username ≡ username)
    × (get "t3" (post_push_ticket tokens 60 500 500 "t3" (some "jwt-ana") (some body) db []).1
        ≡ some fresh)
    × ((now : ℕ)
        → now < 60_500
        → Consumable (some (λ u r. get_repo_role u r db)) now b.operation b.repo fresh)
created_ticket_is_allowed_example =
    created_ticket_is_allowed tokens 60 500 500 "t3" (some "jwt-ana") (some body) db [] fresh
      was_created
