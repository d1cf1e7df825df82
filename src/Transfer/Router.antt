-- ===== src/Transfer/Router.antt =====
-- contexts/transfer/transfer.router.ts. A body is what the schema makes of the request, or nothing;
-- a token is what follows `Bearer ` in the header, trimmed, or nothing; `verify_token` names the
-- subject of a token that is valid.
use deltix_server.Common.{
  ℕ, ◌+◌, ◌<◌, ◌≡◌, ◌≢◌, refl, Bool, true, false, not, String, Option, none, some, string_eq, ◌==◌,
  if◌then◌else◌, ok, err, arith, eq_iff, inl, inr, Option-cases, Result-cases, Bool-cases, sym, ◌∙◌,
}
use deltix_server.Table.Keys.{Unique}
use deltix_server.Auth.Users.{UserStore, get_repo_role}
use deltix_server.Transfer.Types.{
  TransferOperation, PushTicketSyncOptions, Ticket, active, closed, status_eq, status_beq_iff,
}
use deltix_server.Transfer.Store.{TicketStore, ticket_id, get, set_status}
use deltix_server.Transfer.Store.Laws.{get-create, get-id, get-close, close-won}
use deltix_server.Transfer.Service.{
  RepoRoleVerifier, role_sufficient, options_for, ttl_ms, new_ticket, issue_ticket, close_ticket,
  assert_role_still_sufficient,
}
use deltix_server.Transfer.Service.Consume.{Consumable, Allowed, assert_role_iff}
use deltix_server.Transfer.Service.Issue.{issue_ticket-created}

abbrev pub TokenVerifier : Type 0
TokenVerifier = String → Option String

unfoldable pub authenticate : TokenVerifier → Option String → Option String
authenticate verify_token none = none
authenticate verify_token (some token) = if token == "" then none else verify_token token

pub record IssueTicketBody : Type 0 where
  pub operation : TransferOperation
  pub repo : String
  pub sync : Option PushTicketSyncOptions

pub data HttpReply : Type 0 where
  created : Ticket → HttpReply
  okay unauthorized bad_request forbidden ticket_missing unexpected_error : HttpReply

abbrev pub to_http : Bool → HttpReply → HttpReply
to_http true reply = reply
to_http false reply = unexpected_error

abbrev pub is_named : Option String → Bool
is_named none = false
is_named (some name) = not (name == "")

-- `POST /push/ticket` once the caller and the body are known.
unfoldable pub issue_for :
    (ttl_seconds issued_at later : ℕ) (id username : String)
    → IssueTicketBody
    → UserStore
    → TicketStore
    → HttpReply × TicketStore
issue_for ttl issued_at later id username b db s =
    if not (role_sufficient b.operation (get_repo_role username b.repo db))
    then (forbidden, s)
    else let (r, t) =
        issue_ticket ttl issued_at later id username b.operation b.repo
          (options_for b.operation b.sync) s in
      elim r [ ok ticket ↦ (created ticket, t) | err e ↦ (unexpected_error, t) ]

unfoldable pub post_push_ticket :
    TokenVerifier
    → (ttl_seconds issued_at later : ℕ) → String
    → Option String
    → Option IssueTicketBody
    → UserStore
    → TicketStore
    → HttpReply × TicketStore
post_push_ticket verify_token ttl issued_at later id token body db s =
    elim (authenticate verify_token token) [
      | none ↦ (unauthorized, s)
      | some username ↦ if username == "" then (unauthorized, s) else elim body [
        | none ↦ (bad_request, s)
        | some b ↦ issue_for ttl issued_at later id username b db s
      ]
    ]

-- `POST /auth/session-close`; the body is the ticket's id.
unfoldable pub post_session_close :
    TokenVerifier → Option String → Option String → TicketStore → HttpReply × TicketStore
post_session_close verify_token token body s = elim (authenticate verify_token token) [
  | none ↦ (unauthorized, s)
  | some username ↦ if username == "" then (unauthorized, s) else elim body [
    | none ↦ (bad_request, s)
    | some id ↦
        let (r, t) = close_ticket id s in (elim r [ ok _ ↦ okay | err e ↦ ticket_missing ], t)
  ]
]

role_sufficient-Allowed :
    (verify : RepoRoleVerifier) (username : String) (op : TransferOperation) (repo : String)
    → role_sufficient op (verify username repo) ≡ true
    → Allowed (some verify) username op repo
unfolding assert_role_still_sufficient
role_sufficient-Allowed verify username op repo h =
    (assert_role_iff (some verify) username op repo).0 (ground (arith, h))

issue_for-created :
    (ttl issued_at later : ℕ) (id username : String) (b : IssueTicketBody) (db : UserStore)
    (s : TicketStore) (t : Ticket)
    → (issue_for ttl issued_at later id username b db s).0 ≡ created t
    → (role_sufficient b.operation (get_repo_role username b.repo db) ≡ true)
      × (t
          ≡ new_ticket ttl issued_at later id username b.operation b.repo
              (options_for b.operation b.sync))
      × (get id (issue_for ttl issued_at later id username b db s).1 ≡ some t)
unfolding issue_for
issue_for-created ttl issued_at later id username b db s t h =
    let sync = options_for b.operation b.sync in
    elim (Bool-cases (role_sufficient b.operation (get_repo_role username b.repo db))) [
      | inr low ↦ absurd (ground (arith, low))
      | inl high ↦
          elim (Result-cases
            (issue_ticket ttl issued_at later id username b.operation b.repo sync s).0) [
              | inr (e, refused) ↦ absurd (ground (arith, high, refused))
              | inl (t', issued_now) ↦
                  let (built, made) =
                    issue_ticket-created ttl issued_at later id username b.operation b.repo sync s
                      t' issued_now in
                  let same : t' ≡ t = ground (arith, high, issued_now) in
                  (
                    high,
                    sym same ∙ built,
                    ground (
                      arith,
                      high,
                      issued_now,
                      same,
                      get-create s t' id made,
                      built,
                      eq_iff id id,
                    ),
                  )
            ]
    ]

-- The request that issues a ticket came with a valid token and a body; the user of the token has a
-- role on the repo that suffices for the operation. The ticket is for that user, operation and
-- repo, it is stored, and until it expires it can be consumed as long as the roles are these.
pub created_ticket_is_allowed :
    (verify_token : TokenVerifier) (ttl issued_at later : ℕ) (id : String) (token : Option String)
    (body : Option IssueTicketBody) (db : UserStore) (s : TicketStore) (t : Ticket)
    → (post_push_ticket verify_token ttl issued_at later id token body db s).0 ≡ created t
    → (username : String) × (b : IssueTicketBody) × (authenticate verify_token token
        ≡ some username)
      × (body ≡ some b)
      × (t.username ≡ username)
      × (get id (post_push_ticket verify_token ttl issued_at later id token body db s).1 ≡ some t)
      × ((now : ℕ)
          → now < later + ttl_ms ttl
          → Consumable (some (λ u r. get_repo_role u r db)) now b.operation b.repo t)
unfolding post_push_ticket issue_for
created_ticket_is_allowed verify_token ttl issued_at later id token body db s t h =
    elim (Option-cases (authenticate verify_token token)) [
      | inl nobody ↦ absurd (ground (arith, nobody))
      | inr (username, known) ↦ elim (Bool-cases (username == "")) [
        | inl nameless ↦ absurd (ground (arith, known, nameless))
        | inr named ↦ elim (Option-cases body) [
          | inl garbled ↦ absurd (ground (arith, known, named, garbled))
          | inr (b, parsed) ↦
              let (may, built, stored) =
                issue_for-created ttl issued_at later id username b db s t
                  (ground (arith, known, named, parsed)) in
              (
                username,
                b,
                known,
                parsed,
                rw built refl,
                ground (arith, known, named, parsed, stored),
                λ now early. rw built (record {
                  for_operation = refl;
                  for_repo = refl;
                  unused = refl;
                  in_time = early;
                  allowed =
                      role_sufficient-Allowed (λ u r. get_repo_role u r db) username b.operation
                        b.repo may;
                }),
              )
        ]
      ]
    ]

-- Where ticket ids are unique, a valid token of any user closes any active ticket, whoever owns it.
pub anyone_closes :
    (verify_token : TokenVerifier) (token username id : String) (s : TicketStore) (t : Ticket)
    → Unique ticket_id s
    → authenticate verify_token (some token) ≡ some username
    → username ≢ ""
    → get id s ≡ some t
    → t.status ≡ active
    → let (reply, s') = post_session_close verify_token (some token) (some id) s in
      (reply ≡ okay) × (get id s' ≡ some (set_status closed t))
unfolding post_session_close close_ticket
anyone_closes verify_token token username id s t u known named found in_use = (
  ground
      (arith, known, eq_iff username "", close-won s u id, found, status_beq_iff t.status active),
  ground (
    arith,
    known,
    eq_iff username "",
    get-close s id id,
    found,
    get-id s id found,
    eq_iff t.id id,
    status_beq_iff t.status active,
  ),
)
