-- ===== src/Auth/Cookies.antt =====
-- The cookies of a session, from the sign-in to the sign-out (src/auth/auth.controller.ts).
use package.text.Mathlib.Text.{◌==◌ as str_eq}
use idea_project.Base.{
  ℕ, Bool, true, false, not, ◌&&◌, List, [], ◌∷◌, String, if◌then◌else◌, filter, ◌&&◌,
}
use idea_project.Common.Prisma.{Prisma}
use idea_project.Auth.Tokens.{AuthTokens}
use idea_project.Auth.Sessions as Sessions
use idea_project.Auth.Controller.{Cookie, CookieName, SetCookie, SameSite, put, clear}

abbrev same_name : CookieName → CookieName → Bool
same_name CookieName.access_cookie CookieName.access_cookie = true
same_name CookieName.access_cookie CookieName.refresh_cookie = false
same_name CookieName.refresh_cookie CookieName.access_cookie = false
same_name CookieName.refresh_cookie CookieName.refresh_cookie = true

abbrev is_cookie : CookieName → String → Cookie → Bool
is_cookie name path c = same_name c.name name && str_eq c.path path

-- A browser takes a cookie from the answer to another site's page only with `SameSite=None`, and such a
-- cookie only with `Secure`. Without a `SameSite`, as in `clearCookie`, it counts as `Lax`.
abbrev is_taken_with : Bool → Bool → SameSite → Bool
is_taken_with cross_site secure SameSite.none_site = secure
is_taken_with cross_site secure SameSite.lax = not cross_site

abbrev is_taken : Bool → SetCookie → Bool
is_taken cross_site (put c) = is_taken_with cross_site c.secure c.same_site
is_taken cross_site (clear name path) = not cross_site

-- What it keeps: a cookie takes the place of one with the same name and path.
abbrev store_cookie : SetCookie → List Cookie → List Cookie
store_cookie (put c) jar = c ∷ filter (λ d. not (is_cookie c.name c.path d)) jar
store_cookie (clear name path) jar = filter (λ d. not (is_cookie name path d)) jar

abbrev pub keep_cookies : Bool → List SetCookie → List Cookie → List Cookie
keep_cookies cross_site [] jar = jar
keep_cookies cross_site (c ∷ cs) jar =
    keep_cookies cross_site cs (if is_taken cross_site c then store_cookie c jar else jar)

-- Out of reach of scripts, and only over TLS in production.
abbrev pub is_protected : Bool → Cookie → Bool
is_protected is_production c = c.http_only && (if is_production then c.secure else not c.secure)

-- Where a cookie is sent and what it holds.
abbrev pub view : Cookie → CookieName × (ℕ × String)
view c = (c.name, (c.token, c.path))

-- The two cookies of a session.
abbrev pub session_cookies : AuthTokens → List (CookieName × (ℕ × String))
session_cookies tokens =
    (CookieName.refresh_cookie, (tokens.refresh_token, "/api/v1/auth"))
    ∷ (CookieName.access_cookie, (tokens.access_token, "/"))
    ∷ []
