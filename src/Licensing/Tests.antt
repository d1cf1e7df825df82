-- ===== src/Licensing/Tests.antt =====
-- A license of the community tier.
use deltix_server.Licensing.Payload.Shape.{IsPayload, as_license_payload_iff}
use deltix_server.Common.{
  ◌↔◌, ℕ, ◌≡◌, refl, true, false, String, Option, some, ok, [], ◌∷◌, ◌==◌, string_eq, if◌then◌else◌,
  err,
}
use deltix_server.Licensing.Payload.{
  Json, object, field, closed, text, number, array, last, boolean, finite, community,
  LicensePayload, as_license_payload, member,
}
use deltix_server.Licensing.Key.{Platform, parse_license_key, split, base64url_pattern, malformed}
use deltix_server.Licensing.Validator.{Deps, validate_on_boot, Validated, validate_on_boot_iff}

abbrev dates : String → Option ℕ
dates s = some 1000

abbrev license : LicensePayload
license = record {
  licensee = "acme";
  tier = community;
  seats = finite false 5 false;
  addons = some (record {
    official = [];
    community_addons_enabled = true;
    max_community_addons = some (finite false 3 false);
  });
  issued_at = "2026-01-01";
  expires_at = some "2027-01-01";
  nonce = "n1";
}

abbrev value : Json
value = object (
    field "licensee" (text "acme") (
      field "tier" (text "community") (
        field "seats" (number (finite false 5 false)) (
          field "addons"
            (object (
              field "official" (array last) (
                field "communityAddonsEnabled" (boolean true)
                  (field "maxCommunityAddons" (number (finite false 3 false)) closed))))
            (field "issuedAt" (text "2026-01-01")
              (field "expiresAt" (text "2027-01-01") (field "nonce" (text "n1") closed)))))))

abbrev platform : Platform
platform = record {
  from_base64url = λ part. if part == "cGF5" then 1 ∷ [] else 2 ∷ [];
  json_parse = λ bytes. some value;
  date_parse = dates;
}

abbrev deps : Deps
deps = record {
  platform = platform;
  verify = λ bytes signature key. true;
  latest_commit = some (some 900);
  license_key = "cGF5.c2ln";
  public_key = "key";
  clock_tolerance_ms = 50;
}

validate_on_boot_iff_example :
    (validate_on_boot deps 870 880 ≡ ok license → Validated deps 870 880 license)
    × (Validated deps 870 880 license → validate_on_boot deps 870 880 ≡ ok license)
validate_on_boot_iff_example = validate_on_boot_iff deps 870 880 license

boots : validate_on_boot deps 870 880 ≡ ok license
unfolding validate_on_boot parse_license_key split base64url_pattern as_license_payload member
boots = refl

three_parts : parse_license_key platform "cGF5.c2ln.eA" ≡ err malformed
unfolding parse_license_key split
three_parts = refl

padded : parse_license_key platform "cGF5=.c2ln" ≡ err malformed
unfolding parse_license_key split base64url_pattern
padded = refl

as_license_payload_iff_example :
    (as_license_payload dates value ≡ some license) ↔ IsPayload dates value license
as_license_payload_iff_example = as_license_payload_iff dates value license
