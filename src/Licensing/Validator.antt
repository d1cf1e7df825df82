-- ===== src/Licensing/Validator.antt =====
-- contexts/licensing/license-validator.service.ts and anti-tamper.ts. Ed25519 and the
-- reading of Dolt's log are parameters; dates are epoch milliseconds.
use deltix_server.Common.{
  ℕ, ◌+◌, ◌≡◌, ◌≤◌, refl, subst, inl, inr, Bool, true, false, not, String, Option, none, some,
  if◌then◌else◌, ltb, Result, ok, err, ◌>>=◌, ◌>>◌, guard, arith, Bool-cases, Option-cases,
  Result-cases,
}
use deltix_server.Licensing.Payload.{LicensePayload}
use deltix_server.Licensing.Key.{
  Bytes, Platform, LicenseError, signature_invalid, expired, clock_rollback_detected,
  commit_log_failed, parse_license_key,
}
use deltix_server.Licensing.Key.Parts.{IsKey, parse_license_key_iff}

-- The clock's and the log's readings, and `verifyEd25519`.
pub record Deps : Type 0 where
  pub platform : Platform
  pub verify : (payload_bytes signature : Bytes) → (public_key : String) → Bool
  pub latest_commit : Option (Option ℕ)
  pub license_key : String
  pub public_key : String
  pub clock_tolerance_ms : ℕ

-- `now - latest > tolerance` the other way round, with no negative drift.
unfoldable pub assert_no_clock_rollback :
    (now : ℕ) → Option ℕ → (tolerance_ms : ℕ) → Result LicenseError (Unit {0})
assert_no_clock_rollback now none tolerance_ms = ok tt
assert_no_clock_rollback now (some latest) tolerance_ms =
    if ltb (now + tolerance_ms) latest then err clock_rollback_detected else ok tt

-- A date that passed the parser's check is a number.
abbrev pub is_expired : (String → Option ℕ) → (now : ℕ) → Option String → Bool
is_expired dp now none = false
is_expired dp now (some s) = elim (dp s) [ none ↦ false | some t ↦ ltb t now ]

abbrev pub read_log : Option (Option ℕ) → Result LicenseError (Option ℕ)
read_log none = err commit_log_failed
read_log (some latest) = ok latest

-- `validateOnBoot`, which reads the clock twice. An error is the reason that it answers.
unfoldable pub validate_on_boot : Deps → (now later : ℕ) → Result LicenseError LicensePayload
unfolding assert_no_clock_rollback
validate_on_boot d now later = parse_license_key d.platform d.license_key >>= λ parsed.
    guard (d.verify parsed.payload_bytes parsed.signature d.public_key) signature_invalid
    >> guard (not (is_expired d.platform.date_parse now parsed.payload.expires_at)) expired
    >> (read_log d.latest_commit >>= λ latest.
        assert_no_clock_rollback later latest d.clock_tolerance_ms >> ok parsed.payload)

-- What a validated license has been checked for.
pub record Validated (d : Deps) (now later : ℕ) (p : LicensePayload) : Type 0 where
  pub payload_bytes : Bytes
  pub signature : Bytes
  pub key :
      IsKey d.platform d.license_key
        (record { payload_bytes = payload_bytes; payload = p; signature = signature })
  pub signed : d.verify payload_bytes signature d.public_key ≡ true
  pub current : is_expired d.platform.date_parse now p.expires_at ≡ false
  pub log :
      (latest : Option ℕ) × (d.latest_commit ≡ some latest)
      × ((t : ℕ) → latest ≡ some t → t ≤ later + d.clock_tolerance_ms)

-- A license is valid exactly when its key is two parts around one dot, each of letters, digits, `_`
-- and `-` and not empty, the JSON of the first part's bytes has the shape of a payload, the second is
-- Deltix's signature over those very bytes, it has not expired, and Dolt's log was read and has no
-- commit later than the clock by more than the tolerance. The answer is the payload; any check that
-- fails leaves the license invalid.
pub validate_on_boot_iff :
    (d : Deps) (now later : ℕ) (p : LicensePayload)
    → (validate_on_boot d now later ≡ ok p → Validated d now later p)
      × (Validated d now later p → validate_on_boot d now later ≡ ok p)
unfolding validate_on_boot assert_no_clock_rollback
validate_on_boot_iff d now later p = (sound, full)
  where
    rollback :
        (latest : Option ℕ)
        → assert_no_clock_rollback later latest d.clock_tolerance_ms ≡ ok tt
        → (t : ℕ) → latest ≡ some t
        → t ≤ later + d.clock_tolerance_ms
    rollback none h t e = absurd (cc e)
    rollback (some u) h t e = ground (arith, h, e)

    no_rollback :
        (latest : Option ℕ)
        → ((t : ℕ) → latest ≡ some t → t ≤ later + d.clock_tolerance_ms)
        → assert_no_clock_rollback later latest d.clock_tolerance_ms ≡ ok tt
    no_rollback none h = refl
    no_rollback (some u) h = let bound = h u refl in ground (arith, bound)

    sound : validate_on_boot d now later ≡ ok p → Validated d now later p
    sound h = elim (Result-cases (parse_license_key d.platform d.license_key)) [
      | inr (e, bad) ↦ absurd (ground (arith, h, bad))
      | inl (k, parsed) ↦ elim (Bool-cases (d.verify k.payload_bytes k.signature d.public_key)) [
        | inr bad ↦ absurd (ground (arith, h, parsed, bad))
        | inl signed ↦
            elim (Bool-cases (is_expired d.platform.date_parse now k.payload.expires_at)) [
              | inl old ↦ absurd (ground (arith, h, parsed, signed, old))
              | inr current ↦ elim (Option-cases d.latest_commit) [
                | inl unread ↦ absurd (ground (arith, h, parsed, signed, current, unread))
                | inr (latest, log) ↦
                    elim (Result-cases
                      (assert_no_clock_rollback later latest d.clock_tolerance_ms)) [
                        | inr (e, back) ↦
                            absurd (ground (arith, h, parsed, signed, current, log, back))
                        | inl (u, fine) ↦
                            let same : k.payload ≡ p =
                              ground (arith, h, parsed, signed, current, log, fine) in
                            subst (Validated d now later) same (record {
                              payload_bytes = k.payload_bytes;
                              signature = k.signature;
                              key = (parse_license_key_iff d.platform d.license_key k).0 parsed;
                              signed = signed;
                              current = current;
                              log = (latest, log, rollback latest fine);
                            })
                      ]
              ]
            ]
      ]
    ]

    full : Validated d now later p → validate_on_boot d now later ≡ ok p
    full v =
        let (latest, log, bound) = v.log in
        let parsed = (parse_license_key_iff d.platform d.license_key _).1 v.key in
        ground (arith, parsed, v.signed, v.current, log, no_rollback latest bound)
