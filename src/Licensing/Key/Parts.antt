-- ===== src/Licensing/Key/Parts.antt =====
-- What a license key that parses looks like.
use Prim.Native.Char.{Char, code}
use text.Mathlib.TextBridge.{of_list}
use deltix_server.Common.{
  ◌≡◌, refl, ap, sym, ◌∙◌, inl, inr, true, false, ◌&&◌, String, List, [], ◌∷◌, ◌++◌, some, ◌==◌,
  nat_eq, all, length, ◌↔◌, ok, arith, Bool-cases, Option-cases, List-cases,
}
use deltix_server.Versioning.Names.{to_list, is_id_char}
use deltix_server.Licensing.Payload.{Json, as_license_payload}
use deltix_server.Licensing.Payload.Shape.{IsPayload, as_license_payload_iff}
use deltix_server.Licensing.Key.{
  Platform, split, base64url_pattern, ParsedLicenseKey, two_parts, parse_license_key,
}

abbrev NoDot : List Char → Type 0
NoDot cs = all (λ d. is_id_char (code d)) cs ≡ true

split_whole : (cs : List Char) → NoDot cs → split cs ≡ cs ∷ []
unfolding split
split_whole [] h = refl
split_whole (c ∷ cs) h = ground (arith, split_whole cs, h)

split_at_dot :
    (front : List Char) (dot : Char) (back : List Char)
    → NoDot front
    → code dot ≡ 46
    → split (front ++ dot ∷ back) ≡ front ∷ split back
unfolding split
split_at_dot [] dot back h e = ground (arith, e)
split_at_dot (c ∷ front) dot back h e = ground (arith, split_at_dot front dot back, h, e)

split_some : (cs : List Char) → ¬ (split cs ≡ [])
unfolding split
split_some [] h = cc h
split_some (c ∷ cs) h = elim (List-cases (split cs)) [
  | inl empty ↦ ground (arith, h, empty)
  | inr (part, parts, e) ↦ ground (arith, h, e)
]

split_one : (cs front : List Char) → split cs ≡ front ∷ [] → cs ≡ front
unfolding split
split_one [] front h = ground (arith, h)
split_one (c ∷ cs) front h = elim (Bool-cases (code c == 46)) [
  | inl dot ↦ absurd (split_some cs (ground (arith, h, dot)))
  | inr plain ↦ elim (List-cases (split cs)) [
    | inl empty ↦ absurd (split_some cs empty)
    | inr (part, parts, e) ↦
        let rest : cs ≡ part = split_one cs part (ground (arith, h, plain, e)) in
        ap (λ k. c ∷ k) rest ∙ ground (arith, h, plain, e)
  ]
]

split_two :
    (cs front back : List Char)
    → split cs ≡ front ∷ back ∷ []
    → (dot : Char) × (code dot ≡ 46) × (cs ≡ front ++ dot ∷ back)
unfolding split
split_two [] front back h = absurd (ground (arith, h))
split_two (c ∷ cs) front back h = elim (Bool-cases (code c == 46)) [
  | inl dot ↦
      let rest : cs ≡ back = split_one cs back (ground (arith, h, dot)) in
      let none_before : [] ≡ front = ground (arith, h, dot) in
      (c, ground (arith, dot), ap (λ k. c ∷ k) rest ∙ ap (λ k. k ++ c ∷ back) none_before)
  | inr plain ↦ elim (List-cases (split cs)) [
    | inl empty ↦ absurd (split_some cs empty)
    | inr (part, parts, e) ↦
        let (dot, is_dot, rest) = split_two cs part back (ground (arith, h, plain, e)) in
        let before : c ∷ part ≡ front = ground (arith, h, plain, e) in
        (dot, is_dot, ap (λ k. c ∷ k) rest ∙ ap (λ k. k ++ dot ∷ back) before)
  ]
]

-- The license key is two parts around a dot, each of letters, digits, `_` and `-` and not empty; the
-- first decodes to the payload's bytes, whose JSON has the shape of a payload, the second to the
-- signature.
pub record IsKey (p : Platform) (license_key : String) (k : ParsedLicenseKey) : Type 0 where
  pub payload_part : List Char
  pub signature_part : List Char
  pub dot : Char
  pub is_dot : code dot ≡ 46
  pub parts : to_list license_key ≡ payload_part ++ dot ∷ signature_part
  pub payload_some : (length payload_part == 0) ≡ false
  pub payload_chars : all (λ c. is_id_char (code c)) payload_part ≡ true
  pub signature_some : (length signature_part == 0) ≡ false
  pub signature_chars : all (λ c. is_id_char (code c)) signature_part ≡ true
  pub bytes : k.payload_bytes ≡ p.from_base64url (of_list payload_part)
  pub signature : k.signature ≡ p.from_base64url (of_list signature_part)
  pub value : Json
  pub json : p.json_parse k.payload_bytes ≡ some value
  pub shape : IsPayload p.date_parse value k.payload

pattern_iff :
    (cs : List Char)
    → (base64url_pattern cs ≡ true)
      ↔ ((length cs == 0) ≡ false) × (all (λ c. is_id_char (code c)) cs ≡ true)
unfolding base64url_pattern
pattern_iff [] = ((λ h. absurd (ground (arith, h))), λ (n, h). absurd (ground (arith, n)))
pattern_iff (c ∷ cs) = ((λ h. ground (arith, h)), λ (n, h). ground (arith, h))

module _ (p : Platform) (license_key : String) where
  sound_parts :
      (k : ParsedLicenseKey) (parts : List (List Char))
      → split (to_list license_key) ≡ parts
      → two_parts p parts ≡ ok k
      → IsKey p license_key k
  sound_parts k [] e h = absurd (ground (arith, h))
  sound_parts k (a ∷ []) e h = absurd (ground (arith, h))
  sound_parts k (a ∷ b ∷ c ∷ parts) e h = absurd (ground (arith, h))
  sound_parts k (a ∷ b ∷ []) e h = elim (Bool-cases (base64url_pattern a && base64url_pattern b)) [
    | inr bad ↦ absurd (ground (arith, h, bad))
    | inl good ↦ elim (Option-cases (p.json_parse (p.from_base64url (of_list a)))) [
      | inl bad ↦ absurd (ground (arith, h, good, bad))
      | inr (value, json) ↦ elim (Option-cases (as_license_payload p.date_parse value)) [
        | inl bad ↦ absurd (ground (arith, h, good, json, bad))
        | inr (payload, shape) ↦
            let (dot, is_dot, whole) = split_two (to_list license_key) a b e in
            let (some_a, chars_a) = (pattern_iff a).0 (ground (arith, good)) in
            let (some_b, chars_b) = (pattern_iff b).0 (ground (arith, good)) in
            let bytes : k.payload_bytes ≡ p.from_base64url (of_list a) =
              ground (arith, h, good, json, shape) in
            record {
              payload_part = a;
              signature_part = b;
              dot = dot;
              is_dot = is_dot;
              parts = whole;
              payload_some = some_a;
              payload_chars = chars_a;
              signature_some = some_b;
              signature_chars = chars_b;
              bytes = bytes;
              signature = ground (arith, h, good, json, shape);
              value = value;
              json = ap p.json_parse bytes ∙ json;
              shape =
                  (as_license_payload_iff p.date_parse value k.payload).0
                    (shape ∙ ground (arith, h, good, json, shape));
            }
      ]
    ]
  ]

  parse_license_key_sound :
      (k : ParsedLicenseKey) → parse_license_key p license_key ≡ ok k → IsKey p license_key k
  unfolding parse_license_key
  parse_license_key_sound k h = sound_parts k (split (to_list license_key)) refl h

  parse_license_key_full :
      (k : ParsedLicenseKey) → IsKey p license_key k → parse_license_key p license_key ≡ ok k
  unfolding parse_license_key
  parse_license_key_full k i =
      let a = i.payload_part in
      let b = i.signature_part in
      let cut : split (to_list license_key) ≡ a ∷ b ∷ [] =
        ap split i.parts
        ∙ split_at_dot a i.dot b i.payload_chars i.is_dot
        ∙ ap (λ rest. a ∷ rest) (split_whole b i.signature_chars) in
      let good_a = (pattern_iff a).1 (i.payload_some, i.payload_chars) in
      let good_b = (pattern_iff b).1 (i.signature_some, i.signature_chars) in
      let json = ap p.json_parse (sym i.bytes) ∙ i.json in
      let shape = (as_license_payload_iff p.date_parse i.value k.payload).1 i.shape in
      ap (two_parts p) cut ∙ ground (arith, good_a, good_b, json, shape, i.bytes, i.signature)

  -- A license key parses exactly when it is two parts around one dot, each of letters, digits, `_`
  -- and `-` and not empty, and the JSON of the bytes of the first has the shape of a payload; the
  -- result is then these bytes, the bytes of the second part, and the payload.
  pub parse_license_key_iff :
      (k : ParsedLicenseKey) → (parse_license_key p license_key ≡ ok k) ↔ IsKey p license_key k
  parse_license_key_iff k = (parse_license_key_sound k, parse_license_key_full k)
