-- ===== src/Licensing/Payload/Members.antt =====
-- The fields of a license payload: what each check lets through.
use deltix_server.Common.{
  ℕ, zero, suc, ◌≤◌, ◌≡◌, ◌≢◌, ◌⊎◌, refl, ap, sym, subst, ◌∙◌, inl, inr, Bool, true, false, String,
  List, [], ◌∷◌, Option, none, some, string_eq, arith, eq_iff, Bool-cases, Option-cases,
}
use deltix_server.Licensing.Payload.{
  Number, infinite, finite, Json, null, boolean, number, text, array, object, Elements, last,
  element, Fields, member, at_least_one, at_least_zero, Tier, community, enterprise,
  LicenseAddonsConfig, as_name, as_tier, as_seats, as_texts, as_official, as_boolean, as_max,
  as_config, as_addons, as_date, as_expiry,
}

-- A finite number that is one or more, and one that is zero or more.
pub data OneOrMore : Number → Type 0 where
  one_or_more : {whole : ℕ} {fraction : Bool} → 1 ≤ whole → OneOrMore (finite false whole fraction)

pub data ZeroOrMore : Number → Type 0 where
  positive : {whole : ℕ} {fraction : Bool} → ZeroOrMore (finite false whole fraction)
  negative_zero : ZeroOrMore (finite true 0 false)

-- The field is a text that is not empty, or one that reads as a date.
abbrev pub NameIs : Option Json → String → Type 0
NameIs value name = (value ≡ some (text name)) × (name ≢ "")

abbrev pub DateIs : (String → Option ℕ) → Option Json → String → Type 0
DateIs date_parse value date = (value ≡ some (text date)) × ((t : ℕ) × (date_parse date ≡ some t))

abbrev pub tier_text : Tier → String
tier_text community = "community"
tier_text enterprise = "enterprise"

pub data TextsAre : Elements → List String → Type 0 where
  no_more : TextsAre last []
  one_more :
      {s : String} {rest : Elements} {names : List String}
      → TextsAre rest names
      → TextsAre (element (text s) rest) (s ∷ names)

pub data MaxIs : Option Json → Option Number → Type 0 where
  unlimited : MaxIs (some null) none
  limited : {n : Number} → ZeroOrMore n → MaxIs (some (number n)) (some n)

-- The fields of a configuration of add-ons.
pub record ConfigIs (fields : Fields) (c : LicenseAddonsConfig) : Type 0 where
  pub names : Elements
  pub official : member "official" fields ≡ some (array names)
  pub texts : TextsAre names c.official
  pub enabled : member "communityAddonsEnabled" fields ≡ some (boolean c.community_addons_enabled)
  pub most : MaxIs (member "maxCommunityAddons" fields) c.max_community_addons

pub data AddonsAre : Option Json → Option LicenseAddonsConfig → Type 0 where
  without : AddonsAre none none
  with_config :
      {fields : Fields} {c : LicenseAddonsConfig}
      → ConfigIs fields c
      → AddonsAre (some (object fields)) (some c)

pub data ExpiryIs (date_parse : String → Option ℕ) : Option Json → Option String → Type 0 where
  forever : ExpiryIs date_parse none none
  until :
      {value : Json} {s : String}
      → DateIs date_parse (some value) s
      → ExpiryIs date_parse (some value) (some s)

-- A value that is no text is refused where a text is asked for.
text-cases :
    (dp : String → Option ℕ) (v : Option Json)
    → ((s : String) × (v ≡ some (text s)))
      ⊎ (as_name v ≡ none) × (as_tier v ≡ none) × (as_date dp v ≡ none)
text-cases dp none = inr (refl, refl, refl)
text-cases dp (some null) = inr (refl, refl, refl)
text-cases dp (some (boolean b)) = inr (refl, refl, refl)
text-cases dp (some (number n)) = inr (refl, refl, refl)
text-cases dp (some (array x)) = inr (refl, refl, refl)
text-cases dp (some (object x)) = inr (refl, refl, refl)
text-cases dp (some (text s)) = inl (s, refl)

pub as_name_sound : (v : Option Json) (s : String) → as_name v ≡ some s → NameIs v s
as_name_sound v s h = elim (text-cases (λ t. none) v) [
  | inr (bad, _, _) ↦ absurd (cc (sym bad ∙ h))
  | inl (t, e) ↦
      let h' : as_name (some (text t)) ≡ some s = ap as_name (sym e) ∙ h in
      (e ∙ ground (arith, h'), λ empty. ground (arith, h', empty, eq_iff t "", eq_iff s ""))
]

pub as_name_full : (v : Option Json) (s : String) → NameIs v s → as_name v ≡ some s
as_name_full v s (e, n) = ap as_name e ∙ ground (arith, n, eq_iff s "")

pub as_date_sound :
    (dp : String → Option ℕ) (v : Option Json) (s : String) → as_date dp v ≡ some s → DateIs dp v s
as_date_sound dp v s h = elim (text-cases dp v) [
  | inr (_, _, bad) ↦ absurd (cc (sym bad ∙ h))
  | inl (t, e) ↦
      let h' : as_date dp (some (text t)) ≡ some s = ap (as_date dp) (sym e) ∙ h in
      elim (Option-cases (dp t)) [
        | inl bad ↦ absurd (ground (arith, h', bad))
        | inr (time, reads) ↦
            let same : t ≡ s = ground (arith, h', reads) in
            (e ∙ ap (λ k. some (text k)) same, (time, ap dp (sym same) ∙ reads))
      ]
]

pub as_date_full :
    (dp : String → Option ℕ) (v : Option Json) (s : String) → DateIs dp v s → as_date dp v ≡ some s
as_date_full dp v s (e, (t, reads)) = ap (as_date dp) e ∙ ground (arith, reads)

pub as_tier_sound :
    (v : Option Json) (t : Tier) → as_tier v ≡ some t → v ≡ some (text (tier_text t))
as_tier_sound v t h = elim (text-cases (λ t. none) v) [
  | inr (_, bad, _) ↦ absurd (cc (sym bad ∙ h))
  | inl (s, e) ↦ e ∙ named s t (ap as_tier (sym e) ∙ h)
]
  where
    named :
        (s : String) (t : Tier)
        → as_tier (some (text s)) ≡ some t
        → some (text s) ≡ some (text (tier_text t))
    named s community h =
        ap (λ k. some (text k)) (ground (arith, h, eq_iff s "community", eq_iff s "enterprise"))
    named s enterprise h =
        ap (λ k. some (text k)) (ground (arith, h, eq_iff s "community", eq_iff s "enterprise"))

pub as_tier_full : (v : Option Json) (t : Tier) → v ≡ some (text (tier_text t)) → as_tier v ≡ some t
as_tier_full v community e = ap as_tier e
as_tier_full v enterprise e = ap as_tier e

at_least_one_iff :
    (n : Number) → (at_least_one n ≡ true → OneOrMore n) × (OneOrMore n → at_least_one n ≡ true)
at_least_one_iff n = (sound n, full)
  where
    sound : (n : Number) → at_least_one n ≡ true → OneOrMore n
    sound infinite h = absurd (ground (arith, h))
    sound (finite true w f) h = absurd (ground (arith, h))
    sound (finite false w f) h = one_or_more (ground (arith, h))

    full : {n : Number} → OneOrMore n → at_least_one n ≡ true
    full (one_or_more h) = ground (arith, h)

at_least_zero_sound : (n : Number) → at_least_zero n ≡ true → ZeroOrMore n
at_least_zero_sound infinite h = absurd (ground (arith, h))
at_least_zero_sound (finite false w f) h = positive
at_least_zero_sound (finite true zero false) h = negative_zero
at_least_zero_sound (finite true zero true) h = absurd (ground (arith, h))
at_least_zero_sound (finite true (suc w) f) h = absurd (ground (arith, h))

at_least_zero_full : {n : Number} → ZeroOrMore n → at_least_zero n ≡ true
at_least_zero_full positive = refl
at_least_zero_full negative_zero = refl

pub as_seats_sound :
    (v : Option Json) (n : Number) → as_seats v ≡ some n → (v ≡ some (number n)) × OneOrMore n
as_seats_sound none n h = absurd (ground (arith, h))
as_seats_sound (some null) n h = absurd (ground (arith, h))
as_seats_sound (some (boolean b)) n h = absurd (ground (arith, h))
as_seats_sound (some (text s)) n h = absurd (ground (arith, h))
as_seats_sound (some (array x)) n h = absurd (ground (arith, h))
as_seats_sound (some (object x)) n h = absurd (ground (arith, h))
as_seats_sound (some (number m)) n h = elim (Bool-cases (at_least_one m)) [
  | inr bad ↦ absurd (ground (arith, h, bad))
  | inl good ↦
      let same : m ≡ n = ground (arith, h, good) in
      (ap (λ k. some (number k)) same, (at_least_one_iff n).0 (ap at_least_one (sym same) ∙ good))
]

pub as_seats_full :
    (v : Option Json) (n : Number) → (v ≡ some (number n)) × OneOrMore n → as_seats v ≡ some n
as_seats_full v n (e, more) = ap as_seats e ∙ ground (arith, (at_least_one_iff n).1 more)

as_texts_sound : (v : Elements) (names : List String) → as_texts v ≡ some names → TextsAre v names
as_texts_sound last names h = subst (TextsAre last) (ground (arith, h)) no_more
as_texts_sound (element (text s) rest) names h = elim (Option-cases (as_texts rest)) [
  | inl missing ↦ absurd (ground (arith, h, missing))
  | inr (some_names, e) ↦
      subst (TextsAre (element (text s) rest)) (ground (arith, h, e))
        (one_more (as_texts_sound rest some_names e))
]
as_texts_sound (element null rest) names h = absurd (ground (arith, h))
as_texts_sound (element (boolean b) rest) names h = absurd (ground (arith, h))
as_texts_sound (element (number n) rest) names h = absurd (ground (arith, h))
as_texts_sound (element (array x) rest) names h = absurd (ground (arith, h))
as_texts_sound (element (object x) rest) names h = absurd (ground (arith, h))

as_texts_full : {v : Elements} {names : List String} → TextsAre v names → as_texts v ≡ some names
as_texts_full no_more = refl
as_texts_full (one_more rest) = rw (as_texts_full rest) refl

as_max_sound : (v : Option Json) (m : Option Number) → as_max v ≡ some m → MaxIs v m
as_max_sound (some null) m h = subst (MaxIs (some null)) (ground (arith, h)) unlimited
as_max_sound (some (number n)) m h = elim (Bool-cases (at_least_zero n)) [
  | inr bad ↦ absurd (ground (arith, h, bad))
  | inl good ↦
      subst (MaxIs (some (number n))) (ground (arith, h, good))
        (limited (at_least_zero_sound n good))
]
as_max_sound none m h = absurd (ground (arith, h))
as_max_sound (some (boolean b)) m h = absurd (ground (arith, h))
as_max_sound (some (text s)) m h = absurd (ground (arith, h))
as_max_sound (some (array x)) m h = absurd (ground (arith, h))
as_max_sound (some (object x)) m h = absurd (ground (arith, h))

as_max_full : {v : Option Json} {m : Option Number} → MaxIs v m → as_max v ≡ some m
as_max_full unlimited = refl
as_max_full (limited h) = rw (at_least_zero_full h) refl

array-cases :
    (v : Option Json) → ((names : Elements) × (v ≡ some (array names))) ⊎ (as_official v ≡ none)
array-cases none = inr refl
array-cases (some null) = inr refl
array-cases (some (boolean b)) = inr refl
array-cases (some (number n)) = inr refl
array-cases (some (text s)) = inr refl
array-cases (some (object x)) = inr refl
array-cases (some (array names)) = inl (names, refl)

as_boolean_sound : (v : Option Json) (b : Bool) → as_boolean v ≡ some b → v ≡ some (boolean b)
as_boolean_sound none b h = absurd (ground (arith, h))
as_boolean_sound (some null) b h = absurd (ground (arith, h))
as_boolean_sound (some (number n)) b h = absurd (ground (arith, h))
as_boolean_sound (some (text s)) b h = absurd (ground (arith, h))
as_boolean_sound (some (array x)) b h = absurd (ground (arith, h))
as_boolean_sound (some (object x)) b h = absurd (ground (arith, h))
as_boolean_sound (some (boolean a)) b h = ap (λ k. some (boolean k)) (ground (arith, h))

as_config_sound :
    (fields : Fields) (c : LicenseAddonsConfig) → as_config fields ≡ some c → ConfigIs fields c
as_config_sound fields c h = elim (array-cases (member "official" fields)) [
  | inr bad ↦ absurd (ground (arith, h, bad))
  | inl (names, there) ↦ elim (Option-cases (as_texts names)) [
    | inl bad ↦ absurd (ground (arith, h, there, bad))
    | inr (official, texts) ↦
        elim (Option-cases (as_boolean (member "communityAddonsEnabled" fields))) [
          | inl bad ↦ absurd (ground (arith, h, there, texts, bad))
          | inr (enabled, on) ↦ elim (Option-cases (as_max (member "maxCommunityAddons" fields))) [
            | inl bad ↦ absurd (ground (arith, h, there, texts, on, bad))
            | inr (most, bound) ↦
                subst (ConfigIs fields) (ground (arith, h, there, texts, on, bound)) (record {
                  names = names;
                  official = there;
                  texts = as_texts_sound names official texts;
                  enabled = as_boolean_sound (member "communityAddonsEnabled" fields) enabled on;
                  most = as_max_sound (member "maxCommunityAddons" fields) most bound;
                })
          ]
        ]
  ]
]

as_config_full :
    (fields : Fields) (c : LicenseAddonsConfig) → ConfigIs fields c → as_config fields ≡ some c
as_config_full fields c i =
    ground (arith, i.official, as_texts_full i.texts, i.enabled, as_max_full i.most)

pub as_addons_sound :
    (v : Option Json) (c : Option LicenseAddonsConfig) → as_addons v ≡ some c → AddonsAre v c
as_addons_sound none c h = subst (AddonsAre none) (ground (arith, h)) without
as_addons_sound (some null) c h = absurd (ground (arith, h))
as_addons_sound (some (boolean b)) c h = absurd (ground (arith, h))
as_addons_sound (some (number n)) c h = absurd (ground (arith, h))
as_addons_sound (some (text s)) c h = absurd (ground (arith, h))
as_addons_sound (some (array x)) c h = absurd (ground (arith, h))
as_addons_sound (some (object fields)) c h = elim (Option-cases (as_config fields)) [
  | inl bad ↦ absurd (ground (arith, h, bad))
  | inr (config, e) ↦
      subst (AddonsAre (some (object fields))) (ground (arith, h, e))
        (with_config (as_config_sound fields config e))
]

pub as_addons_full :
    {v : Option Json} {c : Option LicenseAddonsConfig} → AddonsAre v c → as_addons v ≡ some c
as_addons_full without = refl
as_addons_full (with_config {fields} {c} i) = let e = as_config_full fields c i in ground (arith, e)

pub as_expiry_sound :
    (dp : String → Option ℕ) (v : Option Json) (s : Option String)
    → as_expiry dp v ≡ some s
    → ExpiryIs dp v s
as_expiry_sound dp none s h = subst (ExpiryIs dp none) (ground (arith, h)) forever
as_expiry_sound dp (some value) s h = elim (Option-cases (as_date dp (some value))) [
  | inl bad ↦ absurd (ground (arith, h, bad))
  | inr (date, e) ↦
      subst (ExpiryIs dp (some value)) (ground (arith, h, e))
        (until (as_date_sound dp (some value) date e))
]

pub as_expiry_full :
    {dp : String → Option ℕ} {v : Option Json} {s : Option String}
    → ExpiryIs dp v s
    → as_expiry dp v ≡ some s
as_expiry_full forever = refl
as_expiry_full {dp} (until {value} {s} i) =
    let e = as_date_full dp (some value) s i in ground (arith, e)
