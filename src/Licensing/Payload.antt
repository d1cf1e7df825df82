-- ===== src/Licensing/Payload.antt =====
-- contexts/licensing/license-parser.ts and types.ts: the checks on the value that `JSON.parse`
-- makes of the payload.
pub mod Members
pub mod Shape
use deltix_server.Common.{
  ℕ, Bool, true, false, not, ◌&&◌, ◌||◌, String, List, [], ◌∷◌, Option, none, some, if◌then◌else◌,
  ◌==◌, string_eq, leb,
}

-- A number: infinite, or a sign, the whole part, and whether there is a fraction.
pub data Number : Type 0 where
  infinite : Number
  finite : (negative : Bool) → (whole : ℕ) → (fraction : Bool) → Number

mutual
  pub data Json : Type 0 where
    null : Json
    boolean : Bool → Json
    number : Number → Json
    text : String → Json
    array : Elements → Json
    object : Fields → Json

  pub data Elements : Type 0 where
    last : Elements
    element : Json → Elements → Elements

  pub data Fields : Type 0 where
    closed : Fields
    field : String → Json → Fields → Fields

-- `v[key]`; `none` is undefined.
unfoldable pub member : String → Fields → Option Json
member key closed = none
member key (field name value rest) = if name == key then some value else member key rest

abbrev pub at_least_one : Number → Bool
at_least_one infinite = false
at_least_one (finite negative whole fraction) = not negative && leb 1 whole

abbrev pub at_least_zero : Number → Bool
at_least_zero infinite = false
at_least_zero (finite negative whole fraction) = not negative || leb whole 0 && not fraction

pub data Tier : Type 0 where
  community enterprise : Tier

pub record LicenseAddonsConfig : Type 0 where
  pub official : List String
  pub community_addons_enabled : Bool
  pub max_community_addons : Option Number

pub record LicensePayload : Type 0 where
  pub licensee : String
  pub tier : Tier
  pub seats : Number
  pub addons : Option LicenseAddonsConfig
  pub issued_at : String
  pub expires_at : Option String
  pub nonce : String

-- The community tier allows ten add-ons, the other any number; neither has a paid one.
unfoldable pub resolve_license_addons_config : LicensePayload → LicenseAddonsConfig
resolve_license_addons_config p = elim p.addons [
  | some config ↦ config
  | none ↦ record {
    official = [];
    community_addons_enabled = true;
    max_community_addons = elim p.tier [
      | community ↦ some (finite false 10 false)
      | enterprise ↦ none
    ];
  }
]

infixl 5 ◌>>=◌
abbrev pub ◌>>=◌ : {A B : Type 0} → Option A → (A → Option B) → Option B
none >>= f = none
some a >>= f = f a

-- A text that is there and not empty: `licensee` and `nonce`.
abbrev pub as_name : Option Json → Option String
as_name (some (text s)) = if s == "" then none else some s
as_name _ = none

abbrev pub as_tier : Option Json → Option Tier
as_tier (some (text s)) =
    if s == "community" then some community else if s == "enterprise" then some enterprise else none
as_tier _ = none

abbrev pub as_seats : Option Json → Option Number
as_seats (some (number n)) = if at_least_one n then some n else none
as_seats _ = none

-- `every((name) => typeof name === 'string')`
abbrev pub as_texts : Elements → Option (List String)
as_texts last = some []
as_texts (element (text s) rest) = as_texts rest >>= λ names. some (s ∷ names)
as_texts (element _ rest) = none

abbrev pub as_official : Option Json → Option (List String)
as_official (some (array names)) = as_texts names
as_official _ = none

abbrev pub as_boolean : Option Json → Option Bool
as_boolean (some (boolean b)) = some b
as_boolean _ = none

abbrev pub as_max : Option Json → Option (Option Number)
as_max (some null) = some none
as_max (some (number n)) = if at_least_zero n then some (some n) else none
as_max _ = none

abbrev pub as_config : Fields → Option LicenseAddonsConfig
as_config fields = as_official (member "official" fields) >>= λ official.
    as_boolean (member "communityAddonsEnabled" fields) >>= λ enabled.
    as_max (member "maxCommunityAddons" fields) >>= λ most. some (record {
      official = official;
      community_addons_enabled = enabled;
      max_community_addons = most;
    })

-- `assertAddons`: absent is allowed, null is not.
abbrev pub as_addons : Option Json → Option (Option LicenseAddonsConfig)
as_addons none = some none
as_addons (some (object fields)) = as_config fields >>= λ config. some (some config)
as_addons _ = none

-- `Date.parse` of a text, in milliseconds; `none` is NaN.
module _ (date_parse : String → Option ℕ) where
  abbrev pub as_date : Option Json → Option String
  as_date (some (text s)) = elim (date_parse s) [ none ↦ none | some t ↦ some s ]
  as_date _ = none

  abbrev pub as_expiry : Option Json → Option (Option String)
  as_expiry none = some none
  as_expiry (some value) = as_date (some value) >>= λ s. some (some s)

  -- `assertIsLicensePayload`. An array is an object with none of the members.
  unfoldable pub as_license_payload : Json → Option LicensePayload
  unfolding member
  as_license_payload (object v) = as_name (member "licensee" v) >>= λ licensee.
      as_tier (member "tier" v) >>= λ tier. as_seats (member "seats" v) >>= λ seats.
      as_addons (member "addons" v) >>= λ addons. as_date (member "issuedAt" v) >>= λ issued_at.
      as_expiry (member "expiresAt" v) >>= λ expires_at. as_name (member "nonce" v) >>= λ nonce.
      some (record {
        licensee = licensee;
        tier = tier;
        seats = seats;
        addons = addons;
        issued_at = issued_at;
        expires_at = expires_at;
        nonce = nonce;
      })
  as_license_payload _ = none
