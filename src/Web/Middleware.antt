-- ===== src/Web/Middleware.antt =====
-- `securityHeaders` and `requestIDs`, which stand around every handler, and the routes.
use grafana_mcp_setup.Prelude.{
  ℕ, Bool, false, not, ◌&&◌, ◌||◌, List, [], ◌∷◌, ◌++◌, Text, codes, text_eq, length, all, leb, ltb,
  ◌==◌, if◌then◌else◌,
}
use grafana_mcp_setup.Exec.{Result, ok, err, Exec}
use grafana_mcp_setup.Rotation.Account.{hex}
use grafana_mcp_setup.Web.Response.{Response, http_error}

abbrev pub Header : Type 0
Header = Text × Text

-- The headers that a request gets before its handler runs.
unfoldable pub security_headers : Text → List Header
security_headers path =
    (codes "X-Content-Type-Options", codes "nosniff")
    ∷ (codes "X-Frame-Options", codes "DENY")
    ∷ (codes "Strict-Transport-Security", codes "max-age=31536000; includeSubDomains")
    ∷ (codes "Referrer-Policy", codes "no-referrer")
    ∷ (codes "Permissions-Policy", codes "camera=(), microphone=(), geolocation=()")
    ∷ (codes "Cross-Origin-Opener-Policy", codes "same-origin")
    ∷ (
      codes "Content-Security-Policy",
      codes "default-src 'none'; frame-ancestors 'none'; base-uri 'none'",
    )
    ∷ (if not (text_eq path (codes "/metrics"))
        then (codes "Cache-Control", codes "no-store") ∷ []
        else [])

-- A letter, a digit or one of "._-".
abbrev pub is_id_byte : ℕ → Bool
is_id_byte c =
    leb b'a' c && leb c b'z'
    || (leb b'A' c && leb c b'Z'
        || (leb b'0' c && leb c b'9' || (c == b'.' || (c == b'_' || c == b'-'))))

unfoldable pub valid_request_id : Text → Bool
valid_request_id value =
    if text_eq value [] || ltb 64 (length value) then false else all is_id_byte value

-- The methods and the paths of `Handler`, in the order in which they are registered.
unfoldable pub routes : Text → Bool → List (Text × Text)
routes base_path native =
    (codes "GET", codes "/healthz")
    ∷ (codes "GET", codes "/readyz")
    ∷ (codes "GET", codes "/metrics")
    ∷ (codes "GET", base_path)
    ∷ (codes "GET", base_path ++ codes "/assets/{name}")
    ∷ (codes "POST", base_path ++ codes "/token")
    ∷ (codes "GET", base_path ++ codes "/token")
    ∷ (codes "POST", base_path ++ codes "/revoke")
    ∷ (if native
        then (codes "GET", base_path ++ codes "/oauth2/login")
          ∷ (codes "GET", base_path ++ codes "/oauth2/callback")
          ∷ (codes "GET", base_path ++ codes "/oauth2/logged-out")
          ∷ (codes "POST", base_path ++ codes "/oauth2/logout")
          ∷ []
        else [])

module _ {S : Type 0} (random : ℕ → Exec S Text) where
  abbrev pub with_request_id : Text → (Text → S → Response × S) → S → Response × S
  with_request_id id next s =
      let (response, t) = next id s in
      (record response { headers = (codes "X-Request-ID", id) ∷ response.headers }, t)

  abbrev pub with_random_id : Result Text × S → (Text → S → Response × S) → Response × S
  with_random_id (err e, s) next = (http_error 500 (codes "could not create request ID"), s)
  with_random_id (ok b, s) next = with_request_id (hex b) next s

  -- `requestIDs`, of the request's header and the handler inside, which gets the identifier.
  unfoldable pub request_ids : Text → (Text → S → Response × S) → S → Response × S
  unfolding hex
  request_ids header next s =
      if not (valid_request_id header)
      then with_random_id (random 16 s) next
      else with_request_id header next s
