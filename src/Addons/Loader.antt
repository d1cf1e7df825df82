-- ===== src/Addons/Loader.antt =====
-- contexts/addons/addon-loader.ts, addon-signature.ts and addon-discovery.ts, with the closed list of
-- packages/addon-sdk/src/capabilities.ts. Files, the schema of a manifest, Ed25519, the store of
-- trusted keys and `import` are parameters; the actions keep the list of what they imported.
pub mod Laws
use deltix_server.Common.{
  ℕ, Bool, true, false, not, ◌&&◌, ◌||◌, String, List, [], ◌∷◌, ◌++◌, Option, none, some,
  if◌then◌else◌, ◌==◌, string_eq, leb, Result, ok, err, ◌>>=◌, ◌>>◌, guard, all, contains, length,
  filter, map,
}
use deltix_server.Licensing.Payload.{LicenseAddonsConfig, Number, finite, infinite}

abbrev pub Bytes : Type 0
Bytes = List ℕ

pub data AddonTier : Type 0 where
  official community : AddonTier

pub record AddonManifest : Type 0 where
  pub name : String
  pub tier : AddonTier
  pub entrypoint : String
  pub capabilities : List String

pub data AddonError : Type 0 where
  manifest_invalid capability_denied signature_invalid not_trusted : AddonError
  license_denied limit_exceeded file_missing : AddonError

pub record AddonLoadDeps : Type 0 where
  pub read_file : String → Option Bytes
  pub join : String → String → String
  pub parse_manifest : Bytes → Option AddonManifest
  pub peek_tier : Bytes → Option AddonTier
  pub verify : (payload signature : Bytes) → (public_key : String) → Bool
  pub trusted_key : (addon_name : String) → Option String
  -- Whether the entrypoint exports an object with `activate`.
  pub activates : String → Bool
  pub official_public_key : String
  pub addons_config : LicenseAddonsConfig
  pub free_official_addons : List String

pub record LoadedAddon : Type 0 where
  pub manifest : AddonManifest
  pub module_path : String

pub record AddonDiscoveryResult : Type 0 where
  pub loaded : List LoadedAddon
  pub failures : List (String × AddonError)

abbrev pub or_else {ℓ} : {A : Type ℓ} → AddonError → Option A → Result AddonError A
or_else e none = err e
or_else e (some a) = ok a

-- `Buffer.from('\u0000DELTIX-ADDON\u0000')` between the two files.
unfoldable pub build_signed_payload : (manifest_bytes entrypoint_bytes : Bytes) → Bytes
build_signed_payload manifest_bytes entrypoint_bytes =
    manifest_bytes
    ++ (0 ∷ 68 ∷ 69 ∷ 76 ∷ 84 ∷ 73 ∷ 88 ∷ 45 ∷ 65 ∷ 68 ∷ 68 ∷ 79 ∷ 78 ∷ 0 ∷ entrypoint_bytes)

abbrev pub addon_capabilities : List String
addon_capabilities = "http:route" ∷ "db:read" ∷ "db:write" ∷ "nas:read" ∷ []

unfoldable pub is_addon_capability : String → Bool
is_addon_capability value = contains addon_capabilities value

-- `maxCommunityAddons !== null && count > maxCommunityAddons`
abbrev pub above : ℕ → Option Number → Bool
above n none = false
above n (some infinite) = false
above n (some (finite true whole fraction)) = not (leb n 0 && leb whole 0 && not fraction)
above n (some (finite false whole fraction)) = not (leb n whole)

module _ (d : AddonLoadDeps) where
  unfoldable pub read_and_validate_manifest : String → Result AddonError AddonManifest
  read_and_validate_manifest dir =
      or_else manifest_invalid (d.read_file (d.join dir "addon.manifest.json")) >>= λ raw.
      or_else manifest_invalid (d.parse_manifest raw)

  unfoldable pub assert_closed_capabilities : AddonManifest → Result AddonError (Unit {0})
  unfolding is_addon_capability
  assert_closed_capabilities m = guard (all is_addon_capability m.capabilities) capability_denied

  -- The key that an add-on of this name and tier must be signed with.
  abbrev pub signing_key : AddonManifest → Result AddonError String
  signing_key m = elim m.tier [
    | official ↦ ok d.official_public_key
    | community ↦ or_else not_trusted (d.trusted_key m.name)
  ]

  unfoldable pub verify_signature :
      AddonManifest
      → (manifest_bytes entrypoint_bytes : Bytes) → String
      → Result AddonError (Unit {0})
  unfolding build_signed_payload
  verify_signature m manifest_bytes entrypoint_bytes dir = signing_key m >>= λ key.
      or_else signature_invalid (d.read_file (d.join dir "addon.sig")) >>= λ signature.
      guard (d.verify (build_signed_payload manifest_bytes entrypoint_bytes) signature key)
        signature_invalid

  unfoldable pub enforce_license_rules : AddonManifest → Result AddonError (Unit {0})
  enforce_license_rules m = elim m.tier [
    | official ↦
        guard (contains d.free_official_addons m.name || contains d.addons_config.official m.name)
          license_denied
    | community ↦ guard d.addons_config.community_addons_enabled license_denied
  ]

  -- Everything before `import`: the manifest and the path of the entrypoint.
  unfoldable pub checked_addon : String → Result AddonError (AddonManifest × String)
  checked_addon dir = read_and_validate_manifest dir >>= λ m.
      assert_closed_capabilities m
      >> (or_else file_missing (d.read_file (d.join dir "addon.manifest.json"))
          >>= λ manifest_bytes.
              or_else file_missing (d.read_file (d.join dir m.entrypoint)) >>= λ entrypoint_bytes.
              verify_signature m manifest_bytes entrypoint_bytes dir
              >> enforce_license_rules m
              >> ok (m, d.join dir m.entrypoint))

  abbrev pub imported :
      Result AddonError (AddonManifest × String)
      → List String
      → Result AddonError LoadedAddon × List String
  imported (err e) trace = (err e, trace)
  imported (ok (m, path)) trace = (
    if d.activates path
        then ok (record { manifest = m; module_path = path })
        else err manifest_invalid,
    trace ++ path ∷ [],
  )

  unfoldable pub load_addon : String → List String → Result AddonError LoadedAddon × List String
  load_addon dir trace = imported (checked_addon dir) trace

  abbrev pub is_community : String → Bool
  is_community dir = elim (d.read_file (d.join dir "addon.manifest.json")) [
    | none ↦ false
    | some raw ↦ elim (d.peek_tier raw) [
      | none ↦ false
      | some official ↦ false
      | some community ↦ true
    ]
  ]

  abbrev pub add_result :
      String → Result AddonError LoadedAddon → AddonDiscoveryResult → AddonDiscoveryResult
  add_result dir (ok addon) r = record r { loaded = r.loaded ++ addon ∷ [] }
  add_result dir (err e) r = record r { failures = r.failures ++ (dir, e) ∷ [] }

  -- The loop over the folders.
  abbrev pub load_all :
      List String → AddonDiscoveryResult → List String → AddonDiscoveryResult × List String
  load_all [] r trace = (r, trace)
  load_all (dir ∷ dirs) r trace =
      load_all dirs (add_result dir (load_addon dir trace).0 r) (load_addon dir trace).1

  -- `discoverAndLoadAddons`, on the folders that the setting lists.
  unfoldable pub discover_and_load_addons :
      List String → List String → Result AddonError AddonDiscoveryResult × List String
  discover_and_load_addons dirs trace =
      if above (length (filter is_community dirs)) d.addons_config.max_community_addons
      then (err limit_exceeded, trace)
      else (
        ok (load_all dirs (record { loaded = []; failures = [] }) trace).0,
        (load_all dirs (record { loaded = []; failures = [] }) trace).1,
      )
