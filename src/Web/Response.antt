-- ===== src/Web/Response.antt =====
-- Answers and the cookies that they set: `http.Error`, `http.Redirect`, the cookie setters of server.go
-- and native.go, and what the handlers read of a request.
use grafana_mcp_setup.Prelude.{
  ℕ, ◌+◌, ◌-◌, ◌/◌, Bool, true, List, [], ◌∷◌, Text, codes, any, text_eq, ltb, if◌then◌else◌,
}
use grafana_mcp_setup.Prelude.Int.{ℤ, pos, negsuc}
use grafana_mcp_setup.Go.Time.{Time, second, time_of_unix}
use grafana_mcp_setup.Cookies.Session.{oauth_state_ttl}

-- type http.Cookie, by the fields that the setters fill; `lax` is SameSiteLaxMode.
pub record SetCookie : Type 0 where
  pub name : Text
  pub value : Text
  pub path : Text
  pub secure : Bool
  pub http_only : Bool
  pub lax : Bool
  pub max_age : ℤ
  pub expires : Time

-- What is answered: a status, the cookies in the order in which they are set, the other headers that a
-- handler sets, for a redirect its location, and for anything else the body.
pub record Response : Type 0 where
  pub status : ℕ
  pub location : Text
  pub cookies : List SetCookie
  pub headers : List (Text × Text)
  pub body : Text

abbrev pub http_error : ℕ → Text → Response
http_error status message = record {
  status = status;
  location = [];
  cookies = [];
  headers = [];
  body = message;
}

abbrev pub redirect : ℕ → Text → Response
redirect status location = record {
  status = status;
  location = location;
  cookies = [];
  headers = [];
  body = [];
}

-- A cookie that was set before the answer was written.
abbrev pub with_cookie : SetCookie → Response → Response
with_cookie c r = record r { cookies = c ∷ r.cookies }

abbrev pub flash_cookie_name : Text
flash_cookie_name = codes "grafana_mcp_flash"

abbrev pub session_cookie_name : Text
session_cookie_name = codes "grafana_mcp_session"

abbrev pub state_cookie_name : Text
state_cookie_name = codes "grafana_mcp_oauth_state"

-- The attributes that every cookie of the program has.
abbrev pub cookie : Text → Text → Text → ℤ → Time → SetCookie
cookie name path value max_age expires = record {
  name = name;
  value = value;
  path = path;
  secure = true;
  http_only = true;
  lax = true;
  max_age = max_age;
  expires = expires;
}

-- An empty value that has expired, with `MaxAge: -1` and `time.Unix(1, 0)`.
abbrev pub cleared : Text → Text → SetCookie
cleared name path = cookie name path [] (negsuc 0) (time_of_unix (pos 1))

-- `setFlashCookie` and `clearFlashCookie`
abbrev pub flash_cookie : Text → ℕ → Text → ℕ → Time → SetCookie
flash_cookie path ttl value max_age now =
    cookie flash_cookie_name path value (pos max_age) (now + ttl)

abbrev pub clear_flash_cookie : Text → SetCookie
clear_flash_cookie path = cleared flash_cookie_name path

-- `setOAuthStateCookie` and `clearOAuthStateCookie`
abbrev pub oauth_state_cookie : Text → Text → Time → SetCookie
oauth_state_cookie path value now =
    cookie state_cookie_name path value (pos (oauth_state_ttl / second)) (now + oauth_state_ttl)

abbrev pub clear_oauth_state_cookie : Text → SetCookie
clear_oauth_state_cookie path = cleared state_cookie_name path

-- `setSessionCookie`: the whole seconds until it expires, at least one.
abbrev pub session_age : Time → Time → ℕ
session_age now expires = let age = (expires - now) / second in if ltb age 1 then 1 else age

abbrev pub session_cookie : Text → Text → Time → Time → SetCookie
session_cookie path value expires now =
    cookie session_cookie_name path value (pos (session_age now expires)) expires

abbrev pub clear_session_cookie : Text → SetCookie
clear_session_cookie path = cleared session_cookie_name path

-- A cookie of this name is set.
unfoldable pub sets_cookie : Text → Response → Bool
unfolding text_eq
sets_cookie name r = any (λ (c : SetCookie). text_eq c.name name) r.cookies
