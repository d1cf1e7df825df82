-- ===== src/Addons/Tests.antt =====
-- Two add-ons, one of them not licensed, and a row of failures.
use deltix_server.Common.{
  ℕ, ◌+◌, ◌≡◌, refl, true, false, not, ◌&&◌, List, [], ◌∷◌, none, some, ok, err, string_eq, All,
  length, filter,
}
use deltix_server.Addons.Breaker.{new_breaker, enter, run, Ending, trips, run-enter}
use deltix_server.Addons.Loader.{
  AddonLoadDeps, AddonManifest, official, AddonError, AddonDiscoveryResult, above, is_community,
  discover_and_load_addons,
}
use deltix_server.Addons.Loader.Laws.{ClearedPath, discover_sound, build_signed_payload-injective}

abbrev endings : List Ending
endings =
    record { name = "bad"; failed = true }
    ∷ record { name = "good"; failed = false }
    ∷ record { name = "bad"; failed = true }
    ∷ []

run-enter_example :
    enter "bad" (run 2 endings new_breaker)
    ≡ (enter "bad" new_breaker && not (trips 2 "bad" (new_breaker.failure_counts "bad") endings))
run-enter_example = run-enter 2 "bad" endings new_breaker

trips_run : trips 2 "bad" 0 endings ≡ true
trips_run = refl

abbrev manifest : AddonManifest
manifest = record {
  name = "sso";
  tier = official;
  entrypoint = "index.js";
  capabilities = "http:route" ∷ [];
}

abbrev deps : AddonLoadDeps
deps = record {
  read_file = λ path. some (1 ∷ []);
  join = λ folder name. name;
  parse_manifest = λ bytes. some manifest;
  peek_tier = λ bytes. some official;
  verify = λ payload signature key. true;
  trusted_key = λ name. none;
  activates = λ path. true;
  official_public_key = "key";
  addons_config = record {
    official = "sso" ∷ [];
    community_addons_enabled = true;
    max_community_addons = none;
  };
  free_official_addons = [];
}

discover_sound_example :
    let (r, trace) = discover_and_load_addons deps ("/a" ∷ "/b" ∷ []) [] in
    let too_many =
      above
        (length (filter (is_community deps) ("/a" ∷ "/b" ∷ [])))
        deps.addons_config.max_community_addons in
    All (ClearedPath deps) trace
    × (too_many ≡ true → (r ≡ err AddonError.limit_exceeded) × (trace ≡ []))
    × (too_many ≡ false
        → (found : AddonDiscoveryResult) × (r ≡ ok found)
          × (length found.loaded + length found.failures ≡ 2))
discover_sound_example = discover_sound deps ("/a" ∷ "/b" ∷ [])

build_signed_payload-injective_example :
    ◌≡◌ {A = List ℕ} (7 ∷ []) (7 ∷ []) × ◌≡◌ {A = List ℕ} (9 ∷ []) (9 ∷ [])
build_signed_payload-injective_example =
    build_signed_payload-injective (7 ∷ []) (7 ∷ []) (9 ∷ []) (9 ∷ []) (λ e. cc e, tt)
      (λ e. cc e, tt) refl
