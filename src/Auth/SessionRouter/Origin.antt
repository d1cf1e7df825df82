-- ===== src/Auth/SessionRouter/Origin.antt =====
-- auth.router.ts: what a page from another origin can do with the cookie of the refresh token.
use deltix_server.Common.{
  ℕ, ◌≡◌, ◌≢◌, refl, ap, ◌∙◌, inl, inr, Bool, false, String, Option, none, some, ◌==◌, string_eq,
  arith, eq_iff, Bool-cases, Option-cases,
}
use deltix_server.Auth.Service.{AuthState, Platform, AuthServiceConfig}
use deltix_server.Auth.SessionRouter.{
  HttpContext, reply, filled, equals, is_same_origin_or_no_origin, session_token_body, object,
  not_json, RefreshClock, post_refresh, post_keep_alive, post_logout,
}

-- The request names an origin, and no host that the URL parser finds in it is the host addressed.
abbrev pub Foreign : (String → Option String) → HttpContext → Type 0
Foreign host_of h =
    (origin : String) × (h.origin ≡ some origin)
    × (origin ≢ "")
    × ((host : String) → h.host ≡ some host → host_of origin ≢ some host)

filled-some : (s : String) → s ≢ "" → filled (some s) ≡ some s
filled-some s some_char = let e = eq_iff s "" in ground (arith)

equals-false :
    (host : String) (found : Option String) → found ≢ some host → equals host found ≡ false
equals-false host none other = refl
equals-false host (some name) other = elim (Bool-cases (name == host)) [
  | inl same ↦ absurd (other (ap some ((eq_iff name host).0 same)))
  | inr differs ↦ differs
]

Foreign-other :
    (host_of : String → Option String) (h : HttpContext)
    → Foreign host_of h
    → is_same_origin_or_no_origin host_of h ≡ false
unfolding is_same_origin_or_no_origin
Foreign-other host_of h (origin, named, nonempty, differs) =
    let given = ap filled named ∙ filled-some origin nonempty in
    elim (Option-cases h.host) [
      | inl missing ↦ ground (arith, given, missing)
      | inr (host, here) ↦
          let e = eq_iff host "" in
          ground (arith, given, here, equals-false host (host_of origin) (differs host here))
    ]

module _ (p : Platform) (c : AuthServiceConfig) (secure : Bool)
    (host_of : String → Option String) where
  -- A request from another origin that carries a session's token only in the cookie is refused with
  -- 403 by refresh, keep-alive and logout, the first also where its body is not JSON; no session is
  -- prolonged or revoked, nothing else changes, and the cookie stays.
  pub cross_site_refused :
      (h : HttpContext) (token : String) (t : RefreshClock) (now later : ℕ) (s : AuthState)
      → Foreign host_of h
      → h.cookie ≡ some token
      → token ≢ ""
      → (post_refresh p c secure host_of t h (object none) s ≡ (reply 403, s))
        × (post_refresh p c secure host_of t h not_json s ≡ (reply 403, s))
        × (post_keep_alive p c secure host_of now later h (object none) s ≡ (reply 403, s))
        × (post_logout p c secure host_of h (object none) s ≡ (reply 403, s))
  unfolding post_refresh post_keep_alive post_logout session_token_body
  cross_site_refused h token t now later s foreign carried nonempty =
      let other = Foreign-other host_of h foreign in
      let e = eq_iff token "" in (ground (arith), ground (arith), ground (arith), ground (arith))
