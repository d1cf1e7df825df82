-- ===== src/Addons/Trust.antt =====
-- contexts/addons/libsql-addon-trust-store.ts and addons.router.ts: the keys of the authors that an
-- administrator trusts. `Buffer`'s base64 is a parameter; a body is what it holds when each field has
-- its type, or nothing.
pub mod Laws
use deltix_server.Common.{
  ℕ, Bool, true, false, not, ◌&&◌, ◌||◌, String, List, [], ◌∷◌, Option, none, some, if◌then◌else◌,
  ◌==◌, nat_eq, string_eq, leb, length, all,
}
use deltix_server.Table.{update, delete}
use deltix_server.Table.Keys.{lookup, insert}
use deltix_server.Auth.Service.{AuthState}
use deltix_server.Auth.Service.Accounts.{is_global_admin}
use deltix_server.Auth.Router.{authenticate_bearer_token, named}
use deltix_server.Versioning.Names.{codes, utf16, is_digit}

pub record AddonTrustRecord : Type 0 where
  pub addon_name : String
  pub author_public_key : String
  pub trusted_at : ℕ
  pub trusted_by : String

abbrev pub TrustStore : Type 0
TrustStore = List AddonTrustRecord

abbrev pub key_of : AddonTrustRecord → String
key_of r = r.addon_name

-- `DO UPDATE SET` from the excluded row.
abbrev pub replaced : AddonTrustRecord → AddonTrustRecord → AddonTrustRecord
replaced new row = record row {
  author_public_key = new.author_public_key;
  trusted_at = new.trusted_at;
  trusted_by = new.trusted_by;
}

unfoldable pub trust : AddonTrustRecord → TrustStore → TrustStore
trust new rows = elim (insert key_of new rows) [
  | some rows' ↦ rows'
  | none ↦ update (λ row. row.addon_name == new.addon_name) (replaced new) rows
]

unfoldable pub get_trusted_key : String → TrustStore → Option AddonTrustRecord
get_trusted_key name rows = lookup key_of name rows

unfoldable pub revoke_trust : String → TrustStore → TrustStore
revoke_trust name rows = delete (λ row. row.addon_name == name) rows

-- `Buffer.from(value, 'base64')` and `toString('base64')`
pub record Base64 : Type 0 where
  pub decode : String → List ℕ
  pub encode : List ℕ → String

unfoldable pub is_valid_raw_ed25519_public_key_base64 : Base64 → String → Bool
is_valid_raw_ed25519_public_key_base64 b value =
    let decoded = b.decode value in length decoded == 32 && b.encode decoded == value

-- `/^[a-z0-9][a-z0-9-]*$/`
abbrev pub is_kebab_char : ℕ → Bool
is_kebab_char c = leb 97 c && leb c 122 || is_digit c

abbrev pub is_kebab : List ℕ → Bool
is_kebab [] = false
is_kebab (c ∷ cs) = is_kebab_char c && all (λ d. is_kebab_char d || d == 45) cs

-- `z.string().min(1).max(128)`
unfoldable pub valid_length : String → Bool
valid_length s = let n = length (utf16 (codes s)) in leb 1 n && leb n 128

pub record TrustRequest : Type 0 where
  pub addon_name : String
  pub author_public_key : String

-- `trustRequestSchema`
unfoldable pub valid_trust_request : Base64 → TrustRequest → Bool
valid_trust_request b r =
    valid_length r.addon_name
    && is_kebab (codes r.addon_name)
    && is_valid_raw_ed25519_public_key_base64 b r.author_public_key

pub data TrustCall : Type 0 where
  get_trust : TrustCall
  post_trust : Option TrustRequest → TrustCall
  post_revoke : Option String → TrustCall

module _ (b : Base64) (now : ℕ) where
  abbrev pub perform : (username : String) → TrustCall → TrustStore → ℕ × TrustStore
  perform username get_trust rows = (200, rows)
  perform username (post_trust none) rows = (400, rows)
  perform username (post_trust (some r)) rows =
      if valid_trust_request b r
      then (
        200,
        trust
            (record {
              addon_name = r.addon_name;
              author_public_key = r.author_public_key;
              trusted_at = now;
              trusted_by = username;
            })
            rows,
      )
      else (400, rows)
  perform username (post_revoke none) rows = (400, rows)
  perform username (post_revoke (some name)) rows =
      if valid_length name then (200, revoke_trust name rows) else (400, rows)

  unfoldable pub serve :
      (verify : String → Option String)
      → (token : Option String) → AuthState
      → TrustCall
      → TrustStore
      → ℕ × TrustStore
  unfolding authenticate_bearer_token
  serve verify token s call rows = elim (named (authenticate_bearer_token verify token)) [
    | none ↦ (401, rows)
    | some username ↦ if is_global_admin username s then perform username call rows else (403, rows)
  ]
