-- ===== src/Licensing/Key.antt =====
-- contexts/licensing/license-parser.ts: the parts of a license key. Base64url and JSON's grammar belong
-- to the language's library and are parameters.
pub mod Parts
use Prim.Native.Char.{Char, code}
use text.Mathlib.TextBridge.{of_list}
use deltix_server.Common.{
  ℕ, Bool, true, false, not, ◌&&◌, String, List, [], ◌∷◌, Option, none, some, ◌==◌, nat_eq, all,
  if◌then◌else◌, Result, ok, err,
}
use deltix_server.Versioning.Names.{to_list, is_letter, is_digit, is_id_char}
use deltix_server.Licensing.Payload.{LicensePayload, Json, as_license_payload}

abbrev pub Bytes : Type 0
Bytes = List ℕ

pub data LicenseError : Type 0 where
  malformed signature_invalid expired clock_rollback_detected : LicenseError
  commit_log_failed : LicenseError

-- `Buffer.from(part, 'base64url')`, `JSON.parse` of bytes as text, and `Date.parse`.
pub record Platform : Type 0 where
  pub from_base64url : String → Bytes
  pub json_parse : Bytes → Option Json
  pub date_parse : String → Option ℕ

abbrev pub add_to_first : Char → List (List Char) → List (List Char)
add_to_first c [] = (c ∷ []) ∷ []
add_to_first c (part ∷ parts) = (c ∷ part) ∷ parts

-- `split('.')`
unfoldable pub split : List Char → List (List Char)
split [] = [] ∷ []
split (c ∷ cs) = if code c == 46 then [] ∷ split cs else add_to_first c (split cs)

-- `/^[A-Za-z0-9_-]+$/`
unfoldable pub base64url_pattern : List Char → Bool
base64url_pattern [] = false
base64url_pattern (c ∷ cs) = is_id_char (code c) && all (λ d. is_id_char (code d)) cs

pub record ParsedLicenseKey : Type 0 where
  pub payload_bytes : Bytes
  pub payload : LicensePayload
  pub signature : Bytes

abbrev pub checked_payload :
    Bytes → (signature : Bytes) → Option LicensePayload → Result LicenseError ParsedLicenseKey
checked_payload bytes signature none = err malformed
checked_payload bytes signature (some p) =
    ok (record { payload_bytes = bytes; payload = p; signature = signature })

abbrev pub parsed_json :
    Platform → Bytes → (signature : Bytes) → Option Json → Result LicenseError ParsedLicenseKey
parsed_json p bytes signature none = err malformed
parsed_json p bytes signature (some value) =
    checked_payload bytes signature (as_license_payload p.date_parse value)

abbrev pub decoded :
    Platform → (payload_part signature_part : List Char) → Result LicenseError ParsedLicenseKey
decoded p payload_part signature_part =
    if base64url_pattern payload_part && base64url_pattern signature_part
    then parsed_json p (p.from_base64url (of_list payload_part))
        (p.from_base64url (of_list signature_part))
        (p.json_parse (p.from_base64url (of_list payload_part)))
    else err malformed

abbrev pub two_parts : Platform → List (List Char) → Result LicenseError ParsedLicenseKey
two_parts p [] = err malformed
two_parts p (payload_part ∷ []) = err malformed
two_parts p (payload_part ∷ signature_part ∷ []) = decoded p payload_part signature_part
two_parts p (payload_part ∷ signature_part ∷ part ∷ parts) = err malformed

unfoldable pub parse_license_key :
    Platform → (license_key : String) → Result LicenseError ParsedLicenseKey
parse_license_key p license_key = two_parts p (split (to_list license_key))
