-- ===== src/Addons/Trust/Laws.antt =====
-- addons.router.ts: who may change the trusted keys, and what a change leaves alone.
use deltix_server.Common.{
  false, ℕ, ◌≡◌, ◌⊎◌, inl, inr, true, String, Option, none, some, if◌then◌else◌, ◌==◌, string_eq,
  arith, eq_iff, Bool-cases, Option-cases, refl,
}
use deltix_server.Table.{update}
use deltix_server.Table.Keys.{
  lookup, insert, Unique, lookup-key, lookup-update, lookup-insert, lookup-delete, insert-Unique,
  update-Unique, delete-Unique,
}
use deltix_server.Auth.Service.{AuthState}
use deltix_server.Auth.Service.Accounts.{is_global_admin}
use deltix_server.Auth.Router.{authenticate_bearer_token, named}
use deltix_server.Addons.Trust.{
  AddonTrustRecord, TrustStore, key_of, replaced, trust, get_trusted_key, revoke_trust, Base64,
  valid_length, valid_trust_request, TrustCall, get_trust, post_trust, post_revoke, perform, serve,
}

replaced-same : (new row : AddonTrustRecord) → key_of row ≡ key_of new → replaced new row ≡ new
replaced-same new row same i = record new { addon_name = same i }

insert-taken :
    (new : AddonTrustRecord) (rows : TrustStore)
    → insert key_of new rows ≡ none
    → (row : AddonTrustRecord) × (lookup key_of (key_of new) rows ≡ some row)
unfolding insert
insert-taken new rows h = elim (Option-cases (lookup key_of (key_of new) rows)) [
  | inl free ↦ absurd (ground (arith, h, free))
  | inr taken ↦ taken
]

get-replaced :
    (new row : AddonTrustRecord) (rows : TrustStore) (k : String)
    → lookup key_of (key_of new) rows ≡ some row
    → lookup key_of k (update (λ r. r.addon_name == new.addon_name) (replaced new) rows)
      ≡ (if new.addon_name == k then some new else lookup key_of k rows)
get-replaced new row rows k taken =
    let changed =
      lookup-update key_of (λ r. r.addon_name == new.addon_name) (replaced new) (λ r. refl) k
        rows in
    let e = eq_iff new.addon_name k in
    elim (Option-cases (lookup key_of k rows)) [
      | inl free ↦ ground (arith, changed, e, free, taken)
      | inr (found, here) ↦
          let key = lookup-key key_of k rows here in
          let e' = eq_iff found.addon_name new.addon_name in
          ground (arith, changed, e, here, key, e', replaced-same new found)
    ]

get-trust :
    (new : AddonTrustRecord) (rows : TrustStore) (k : String)
    → get_trusted_key k (trust new rows)
      ≡ (if new.addon_name == k then some new else get_trusted_key k rows)
unfolding trust get_trusted_key
get-trust new rows k = elim (Option-cases (insert key_of new rows)) [
  | inl refused ↦
      let (row, taken) = insert-taken new rows refused in
      ground (arith, refused, get-replaced new row rows k taken)
  | inr (rows', inserted) ↦ ground (arith, inserted, lookup-insert key_of new rows k inserted)
]

get-revoke_trust :
    (name : String) (rows : TrustStore) (k : String)
    → Unique key_of rows
    → get_trusted_key k (revoke_trust name rows)
      ≡ (if name == k then none else get_trusted_key k rows)
unfolding revoke_trust get_trusted_key
get-revoke_trust name rows k unique =
    let spared = lookup-delete key_of (λ row. row.addon_name == name) k rows unique in
    let e = eq_iff name k in
    elim (Option-cases (lookup key_of k rows)) [
      | inl free ↦ ground (arith, spared, free)
      | inr (row, here) ↦
          let key = lookup-key key_of k rows here in
          let e' = eq_iff row.addon_name name in ground (arith, spared, here, key, e, e')
    ]

trust-Unique :
    (new : AddonTrustRecord) (rows : TrustStore)
    → Unique key_of rows
    → Unique key_of (trust new rows)
unfolding trust
trust-Unique new rows unique = elim (Option-cases (insert key_of new rows)) [
  | inl refused ↦
      rw (refused, trust)
        (update-Unique key_of (λ r. r.addon_name == new.addon_name) (replaced new) (λ r. refl) rows
          unique)
  | inr (rows', inserted) ↦ rw (inserted, trust) (insert-Unique key_of new rows unique inserted)
]

revoke_trust-Unique :
    (name : String) (rows : TrustStore)
    → Unique key_of rows
    → Unique key_of (revoke_trust name rows)
unfolding revoke_trust
revoke_trust-Unique name rows unique =
    delete-Unique key_of (λ row. row.addon_name == name) rows unique

-- After the change, the name's key is the one given, and any other name's is what it was.
abbrev pub Sets : String → Option AddonTrustRecord → (before after : TrustStore) → Type 0
Sets name record_of before after =
    (k : String)
    → get_trusted_key k after ≡ (if name == k then record_of else get_trusted_key k before)

-- What an administrator's call does, by the request and its validity.
abbrev pub Managed :
    Base64 → ℕ → (caller : String) → TrustCall → TrustStore → (reply : ℕ × TrustStore) → Type 0
Managed b now caller get_trust before reply = reply ≡ (200, before)
Managed b now caller (post_trust none) before reply = reply ≡ (400, before)
Managed b now caller (post_trust (some r)) before reply =
    ((valid_trust_request b r ≡ true)
      × (reply.0 ≡ 200)
      × Sets r.addon_name
          (some (record {
            addon_name = r.addon_name;
            author_public_key = r.author_public_key;
            trusted_at = now;
            trusted_by = caller;
          }))
          before reply.1)
    ⊎ ((valid_trust_request b r ≡ false) × (reply ≡ (400, before)))
Managed b now caller (post_revoke none) before reply = reply ≡ (400, before)
Managed b now caller (post_revoke (some name)) before reply =
    ((valid_length name ≡ true) × (reply.0 ≡ 200) × Sets name none before reply.1)
    ⊎ ((valid_length name ≡ false) × (reply ≡ (400, before)))

perform-Managed :
    (b : Base64) (now : ℕ) (caller : String) (call : TrustCall) (rows : TrustStore)
    → Unique key_of rows
    → Managed b now caller call rows (perform b now caller call rows)
perform-Managed b now caller get_trust rows unique = refl
perform-Managed b now caller (post_trust none) rows unique = refl
perform-Managed b now caller (post_trust (some r)) rows unique =
    elim (Bool-cases (valid_trust_request b r)) [
      | inl valid ↦ inl (
        valid,
        rw (valid) refl,
        λ k. rw (valid) (
            get-trust
              (record {
                addon_name = r.addon_name;
                author_public_key = r.author_public_key;
                trusted_at = now;
                trusted_by = caller;
              })
              rows k),
      )
      | inr invalid ↦ inr (invalid, rw (invalid) refl)
    ]
perform-Managed b now caller (post_revoke none) rows unique = refl
perform-Managed b now caller (post_revoke (some name)) rows unique =
    elim (Bool-cases (valid_length name)) [
      | inl valid ↦
          inl (valid, rw (valid) refl, λ k. rw (valid) (get-revoke_trust name rows k unique))
      | inr invalid ↦ inr (invalid, rw (invalid) refl)
    ]

perform-Unique :
    (b : Base64) (now : ℕ) (caller : String) (call : TrustCall) (rows : TrustStore)
    → Unique key_of rows
    → Unique key_of (perform b now caller call rows).1
perform-Unique b now caller get_trust rows unique = unique
perform-Unique b now caller (post_trust none) rows unique = unique
perform-Unique b now caller (post_trust (some r)) rows unique =
    elim (Bool-cases (valid_trust_request b r)) [
      | inl valid ↦ rw (valid) (
          trust-Unique
            (record {
              addon_name = r.addon_name;
              author_public_key = r.author_public_key;
              trusted_at = now;
              trusted_by = caller;
            })
            rows unique)
      | inr invalid ↦ rw (invalid) unique
    ]
perform-Unique b now caller (post_revoke none) rows unique = unique
perform-Unique b now caller (post_revoke (some name)) rows unique =
    elim (Bool-cases (valid_length name)) [
      | inl valid ↦ rw (valid) (revoke_trust-Unique name rows unique)
      | inr invalid ↦ rw (invalid) unique
    ]

-- Who gets through, and what the call then does.
abbrev pub Served :
    Base64
    → ℕ
    → (named : Option String) → AuthState
    → TrustCall
    → TrustStore
    → ℕ × TrustStore
    → Type 0
Served b now none s call rows reply = reply ≡ (401, rows)
Served b now (some caller) s call rows reply =
    ((is_global_admin caller s ≡ false) × (reply ≡ (403, rows)))
    ⊎ ((is_global_admin caller s ≡ true) × Managed b now caller call rows reply)

-- On a table whose names are unique, a call of the trust routes leaves them unique. It is refused
-- with 401 when the token names nobody and with 403 when it names no global administrator, the table
-- unchanged. For an administrator the list is answered; a request to trust that the schema accepts
-- is answered with 200 and makes its key the add-on's, recorded under the administrator's name; a
-- request to revoke whose name has a length between 1 and 128 is answered with 200 and leaves the
-- add-on without a key; every other add-on's key is found as before. Any other request is answered
-- with 400, the table unchanged.
pub serve-Served :
    (b : Base64) (now : ℕ) (verify : String → Option String) (token : Option String) (s : AuthState)
    (call : TrustCall) (rows : TrustStore)
    → Unique key_of rows
    → let reply = serve b now verify token s call rows in
      Unique key_of reply.1
      × Served b now (named (authenticate_bearer_token verify token)) s call rows reply
unfolding serve
serve-Served b now verify token s call rows unique =
    elim (Option-cases (named (authenticate_bearer_token verify token))) [
      | inl anonymous ↦ (rw (anonymous, serve) unique, rw (anonymous, serve) refl)
      | inr (caller, who) ↦ elim (Bool-cases (is_global_admin caller s)) [
        | inl allowed ↦ (
          rw (who, allowed, serve) (perform-Unique b now caller call rows unique),
          rw (who, allowed, serve) (inr (refl, perform-Managed b now caller call rows unique)),
        )
        | inr refused ↦
            (rw (who, refused, serve) unique, rw (who, refused, serve) (inl (refl, refl)))
      ]
    ]
