-- ===== src/Licensing/Payload/Shape.antt =====
-- Which JSON values are license payloads.
use deltix_server.Common.{
  ℕ, ◌≡◌, ◌↔◌, refl, ap, subst, ◌∙◌, inl, inr, String, Option, some, arith, Option-cases,
}
use deltix_server.Licensing.Payload.{
  Json, null, boolean, number, text, array, object, Fields, member, LicensePayload, as_name,
  as_tier, as_seats, as_addons, as_date, as_expiry, as_license_payload,
}
use deltix_server.Licensing.Payload.Members.{
  OneOrMore, NameIs, DateIs, tier_text, AddonsAre, ExpiryIs, as_name_sound, as_name_full,
  as_date_sound, as_date_full, as_tier_sound, as_tier_full, as_seats_sound, as_seats_full,
  as_addons_sound, as_addons_full, as_expiry_sound, as_expiry_full,
}

pub record IsPayload (date_parse : String → Option ℕ) (value : Json) (p : LicensePayload)
    : Type 0 where
  pub fields : Fields
  pub is_object : value ≡ object fields
  pub licensee : NameIs (member "licensee" fields) p.licensee
  pub tier : member "tier" fields ≡ some (text (tier_text p.tier))
  pub seats : (member "seats" fields ≡ some (number p.seats)) × OneOrMore p.seats
  pub addons : AddonsAre (member "addons" fields) p.addons
  pub issued_at : DateIs date_parse (member "issuedAt" fields) p.issued_at
  pub expires_at : ExpiryIs date_parse (member "expiresAt" fields) p.expires_at
  pub nonce : NameIs (member "nonce" fields) p.nonce

module _ (dp : String → Option ℕ) where
  object_sound :
      (v : Fields) (p : LicensePayload)
      → as_license_payload dp (object v) ≡ some p
      → IsPayload dp (object v) p
  unfolding as_license_payload
  object_sound v p h = elim (Option-cases (as_name (member "licensee" v))) [
    | inl bad ↦ absurd (ground (arith, h, bad))
    | inr (licensee, e1) ↦ elim (Option-cases (as_tier (member "tier" v))) [
      | inl bad ↦ absurd (ground (arith, h, e1, bad))
      | inr (tier, e2) ↦ elim (Option-cases (as_seats (member "seats" v))) [
        | inl bad ↦ absurd (ground (arith, h, e1, e2, bad))
        | inr (seats, e3) ↦ elim (Option-cases (as_addons (member "addons" v))) [
          | inl bad ↦ absurd (ground (arith, h, e1, e2, e3, bad))
          | inr (addons, e4) ↦ elim (Option-cases (as_date dp (member "issuedAt" v))) [
            | inl bad ↦ absurd (ground (arith, h, e1, e2, e3, e4, bad))
            | inr (issued_at, e5) ↦ elim (Option-cases (as_expiry dp (member "expiresAt" v))) [
              | inl bad ↦ absurd (ground (arith, h, e1, e2, e3, e4, e5, bad))
              | inr (expires_at, e6) ↦ elim (Option-cases (as_name (member "nonce" v))) [
                | inl bad ↦ absurd (ground (arith, h, e1, e2, e3, e4, e5, e6, bad))
                | inr (nonce, e7) ↦
                    subst (IsPayload dp (object v)) (ground (arith, h, e1, e2, e3, e4, e5, e6, e7))
                      (record {
                        fields = v;
                        is_object = refl;
                        licensee = as_name_sound (member "licensee" v) licensee e1;
                        tier = as_tier_sound (member "tier" v) tier e2;
                        seats = as_seats_sound (member "seats" v) seats e3;
                        addons = as_addons_sound (member "addons" v) addons e4;
                        issued_at = as_date_sound dp (member "issuedAt" v) issued_at e5;
                        expires_at = as_expiry_sound dp (member "expiresAt" v) expires_at e6;
                        nonce = as_name_sound (member "nonce" v) nonce e7;
                      })
              ]
            ]
          ]
        ]
      ]
    ]
  ]

  sound :
      (value : Json) (p : LicensePayload)
      → as_license_payload dp value ≡ some p
      → IsPayload dp value p
  unfolding as_license_payload
  sound null p h = absurd (ground (arith, h))
  sound (boolean b) p h = absurd (ground (arith, h))
  sound (number n) p h = absurd (ground (arith, h))
  sound (text s) p h = absurd (ground (arith, h))
  sound (array x) p h = absurd (ground (arith, h))
  sound (object v) p h = object_sound v p h

  full :
      (value : Json) (p : LicensePayload)
      → IsPayload dp value p
      → as_license_payload dp value ≡ some p
  unfolding as_license_payload
  full value p i =
      let v = i.fields in
      ap (as_license_payload dp) i.is_object
      ∙ ground (
        arith,
        as_name_full (member "licensee" v) p.licensee i.licensee,
        as_tier_full (member "tier" v) p.tier i.tier,
        as_seats_full (member "seats" v) p.seats i.seats,
        as_addons_full i.addons,
        as_date_full dp (member "issuedAt" v) p.issued_at i.issued_at,
        as_expiry_full i.expires_at,
        as_name_full (member "nonce" v) p.nonce i.nonce,
      )

  -- A JSON value is accepted as a license payload exactly when it is an object whose licensee and
  -- nonce are texts that are not empty, whose tier is one of the two, whose seats are a finite number
  -- of at least one, whose issue date parses, whose expiry date parses when it is there, and whose
  -- add-ons, when they are there, have a list of texts, a boolean, and a finite number of at least
  -- zero or null; the payload then has these very values.
  pub as_license_payload_iff :
      (value : Json) (p : LicensePayload)
      → (as_license_payload dp value ≡ some p) ↔ IsPayload dp value p
  as_license_payload_iff value p = (sound value p, full value p)
