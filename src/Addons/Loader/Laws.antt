-- ===== src/Addons/Loader/Laws.antt =====
-- No code of an add-on runs before its checks, and a signature binds a manifest to one entrypoint.
use deltix_server.Common.{
  ℕ, suc, ◌+◌, ◌≡◌, ◌≢◌, refl, ap, sym, subst, inl, inr, true, false, ◌||◌, String, List, [], ◌∷◌,
  ◌++◌, some, string_eq, Result, ok, err, all, contains, length, filter, All, All-append, arith,
  Bool-cases, Option-cases, Result-cases,
}
use deltix_server.Addons.Loader.{
  Bytes, AddonTier, official, community, AddonManifest, AddonError, AddonLoadDeps, LoadedAddon,
  AddonDiscoveryResult, above, build_signed_payload, is_addon_capability,
  read_and_validate_manifest, assert_closed_capabilities, signing_key, verify_signature,
  enforce_license_rules, checked_addon, load_addon, is_community, add_result, load_all,
  discover_and_load_addons,
}

-- A manifest's text has no NUL.
abbrev pub NoNul : Bytes → Type 0
NoNul [] = Unit
NoNul (b ∷ bs) = (b ≢ 0) × NoNul bs

cons_parts : {a b : ℕ} {xs ys : Bytes} → ◌≡◌ {A = Bytes} (a ∷ xs) (b ∷ ys) → (a ≡ b) × (xs ≡ ys)
cons_parts h = (cc h, cc h)

-- Two packages with the same signed text have the same manifest and the same entrypoint, byte for
-- byte, where the manifests have no NUL; so no signature passes from one pairing to another.
pub build_signed_payload-injective :
    (m m' e e' : Bytes)
    → NoNul m
    → NoNul m'
    → build_signed_payload m e ≡ build_signed_payload m' e'
    → (m ≡ m') × (e ≡ e')
unfolding build_signed_payload
build_signed_payload-injective [] [] e e' h k same = (refl, cc same)
build_signed_payload-injective [] (c ∷ m') e e' h k same = absurd (k.0 (sym (cons_parts same).0))
build_signed_payload-injective (b ∷ m) [] e e' h k same = absurd (h.0 (cons_parts same).0)
build_signed_payload-injective (b ∷ m) (c ∷ m') e e' h k same =
    let (head, tail) = cons_parts same in
    let (left, right) = build_signed_payload-injective m m' e e' h.1 k.1 tail in
    (cc (head, left), right)

-- The license lets the add-on in.
abbrev pub Licensed : AddonLoadDeps → AddonManifest → Type 0
Licensed d m = elim m.tier [
  | official ↦
      (contains d.free_official_addons m.name || contains d.addons_config.official m.name) ≡ true
  | community ↦ d.addons_config.community_addons_enabled ≡ true
]

-- What has been checked of the add-on of a folder whose entrypoint is imported.
pub record Cleared (d : AddonLoadDeps) (dir : String) (m : AddonManifest) (path : String)
    : Type 0 where
  pub raw : Bytes
  pub code : Bytes
  pub signature : Bytes
  pub key : String
  pub manifest_read : d.read_file (d.join dir "addon.manifest.json") ≡ some raw
  pub parsed : d.parse_manifest raw ≡ some m
  pub capabilities : all is_addon_capability m.capabilities ≡ true
  pub entry : path ≡ d.join dir m.entrypoint
  pub code_read : d.read_file path ≡ some code
  pub signature_read : d.read_file (d.join dir "addon.sig") ≡ some signature
  pub keyed : signing_key d m ≡ ok key
  pub signed : d.verify (build_signed_payload raw code) signature key ≡ true
  pub licensed : Licensed d m

module _ (d : AddonLoadDeps) where
  rules_Licensed : (m : AddonManifest) → enforce_license_rules d m ≡ ok tt → Licensed d m
  unfolding enforce_license_rules
  rules_Licensed m h = by_tier m.tier refl
    where
      by_tier : (t : AddonTier) → m.tier ≡ t → Licensed d m
      by_tier official e = rw e (ground (arith, h, e))
      by_tier community e = rw e (ground (arith, h, e))

  checked_addon-Cleared :
      (dir : String) {m : AddonManifest} {path : String}
      → checked_addon d dir ≡ ok (m, path)
      → Cleared d dir m path
  unfolding checked_addon read_and_validate_manifest assert_closed_capabilities verify_signature
  checked_addon-Cleared dir {m} {path} h =
      elim (Option-cases (d.read_file (d.join dir "addon.manifest.json"))) [
        | inl missing ↦ absurd (ground (arith, h, missing))
        | inr (raw, there) ↦ elim (Option-cases (d.parse_manifest raw)) [
          | inl bad ↦ absurd (ground (arith, h, there, bad))
          | inr (n, parsed) ↦ elim (Bool-cases (all is_addon_capability n.capabilities)) [
            | inr open_list ↦ absurd (ground (arith, h, there, parsed, open_list))
            | inl within ↦ elim (Option-cases (d.read_file (d.join dir n.entrypoint))) [
              | inl missing ↦ absurd (ground (arith, h, there, parsed, within, missing))
              | inr (code, found) ↦ elim (Result-cases (signing_key d n)) [
                | inr (e, unknown) ↦
                    absurd (ground (arith, h, there, parsed, within, found, unknown))
                | inl (key, known) ↦ elim (Option-cases (d.read_file (d.join dir "addon.sig"))) [
                  | inl missing ↦
                      absurd (ground (arith, h, there, parsed, within, found, known, missing))
                  | inr (signature, sent) ↦
                      elim (Bool-cases (d.verify (build_signed_payload raw code) signature key)) [
                        | inr forged ↦
                            absurd
                              (ground (arith, h, there, parsed, within, found, known, sent, forged))
                        | inl signed ↦ elim (Result-cases (enforce_license_rules d n)) [
                          | inr (e, barred) ↦ absurd (
                              ground (
                                arith, h, there, parsed, within, found, known, sent, signed, barred,
                              ))
                          | inl (u, free) ↦
                              let out : ◌≡◌ {A = AddonManifest × String}
                                  (n, d.join dir n.entrypoint) (m, path) =
                                ground (
                                  arith, h, there, parsed, within, found, known, sent, signed, free,
                                ) in
                              subst (λ (q : AddonManifest × String). Cleared d dir q.0 q.1) out
                                (record {
                                  raw = raw;
                                  code = code;
                                  signature = signature;
                                  key = key;
                                  manifest_read = there;
                                  parsed = parsed;
                                  capabilities = within;
                                  entry = refl;
                                  code_read = found;
                                  signature_read = sent;
                                  keyed = known;
                                  signed = signed;
                                  licensed = rules_Licensed n free;
                                })
                        ]
                      ]
                ]
              ]
            ]
          ]
        ]
      ]

  -- An import of a listed path.
  abbrev pub ClearedPath : String → Type 0
  ClearedPath path = (dir : String) × (m : AddonManifest) × Cleared d dir m path

  load_addon_trace :
      (dir : String) (trace : List String)
      → All ClearedPath trace
      → All ClearedPath (load_addon d dir trace).1
  unfolding load_addon
  load_addon_trace dir trace h = elim (Result-cases (checked_addon d dir)) [
    | inr (e, refused) ↦ rw (refused, load_addon) h
    | inl ((m, path), passed) ↦
        rw (passed, load_addon)
          (All-append ClearedPath trace (path ∷ []) h
            ((dir, m, checked_addon-Cleared dir passed), tt))
  ]

  length_add : {A : Type 0} (xs : List A) (x : A) → length (xs ++ x ∷ []) ≡ suc (length xs)
  length_add [] x = refl
  length_add (y ∷ xs) x = ap suc (length_add xs x)

  abbrev total : AddonDiscoveryResult → ℕ
  total r = length r.loaded + length r.failures

  total_add :
      (dir : String) (o : Result AddonError LoadedAddon) (r : AddonDiscoveryResult)
      → total (add_result d dir o r) ≡ suc (total r)
  total_add dir (ok a) r = omega (arith, length_add r.loaded a)
  total_add dir (err e) r = omega (arith, length_add r.failures (dir, e))

  load_all-Cleared :
      (dirs : List String) (r : AddonDiscoveryResult) (trace : List String)
      → All ClearedPath trace
      → let (r', trace') = load_all d dirs r trace in
        All ClearedPath trace' × (total r' ≡ total r + length dirs)
  load_all-Cleared [] r trace h = (h, omega arith)
  load_all-Cleared (dir ∷ dirs) r trace h =
      let out = load_addon d dir trace in
      let (cleared, count) =
        load_all-Cleared dirs (add_result d dir out.0 r) out.1 (load_addon_trace dir trace h) in
      (cleared, omega (arith, count, total_add dir out.0 r))

-- Discovery imports only entrypoints of folders whose add-on passed every check: its manifest, its
-- capabilities, the signature over the manifest and that entrypoint by the key for its tier, and the
-- license. It is refused whole, with nothing imported, when more community add-ons lie in the
-- folders than the license allows; otherwise each folder counts once, as loaded or as failed.
pub discover_sound :
    (d : AddonLoadDeps) (dirs : List String)
    → let (r, trace) = discover_and_load_addons d dirs [] in
      let too_many =
        above (length (filter (is_community d) dirs)) d.addons_config.max_community_addons in
      All (ClearedPath d) trace
      × (too_many ≡ true → (r ≡ err AddonError.limit_exceeded) × (trace ≡ []))
      × (too_many ≡ false
          → (found : AddonDiscoveryResult) × (r ≡ ok found)
            × (length found.loaded + length found.failures ≡ length dirs))
unfolding discover_and_load_addons
discover_sound d dirs =
    let start : AddonDiscoveryResult = record { loaded = []; failures = [] } in
    let all_run = load_all-Cleared d dirs start [] tt in
    let limit =
      above (length (filter (is_community d) dirs)) d.addons_config.max_community_addons in
    elim (Bool-cases limit) [
      | inl over ↦ (
        rw (over, discover_and_load_addons) tt,
        λ _. ground (arith, over),
        λ h. absurd (cc (sym over, h)),
      )
      | inr within ↦ (
        rw (within, discover_and_load_addons) all_run.0,
        λ h. absurd (cc (sym within, h)),
        λ _. ((load_all d dirs start []).0, ground (arith, within), omega (arith, all_run.1)),
      )
    ]
